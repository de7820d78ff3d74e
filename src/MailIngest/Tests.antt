-- ===== src/MailIngest/Tests.antt =====
-- Runs of the mail ingest over a small table, and the theorems about it there.
use coupi.Prelude.{
  ℕ, ◌≡◌, refl, sym, ap, ◌∙◌, Bool, true, false, ◌&&◌, ◌||◌, Option, none, some, List, [], ◌∷◌,
  Text, units, text_eq, any, if◌then◌else◌, Bool-cases, inl, inr, arith,
}
use coupi.Domain.{polling}
use coupi.Effects.{Exec, Result, ok, thrown, unique_violation, other_error}
use coupi.Gmail.{RawMailMessage}
use coupi.Accounts.{MailAccountWithToken}
use coupi.Classifier.RuleFilter.{RuleCache}
use coupi.MailIngest.{
  IngestWorld, NewMail, Tally, insert_processed_mail, passes, record_messages, handle, ingesting,
}
use coupi.MailIngest.Counts.{IsOrdered, handle-IsOrdered}
use coupi.MailIngest.Redelivery.{is_some, IsMailTable}
use coupi.MailIngest.Twice.{record_messages_twice, record_messages-lost}

abbrev shop_rules : RuleCache
shop_rules = record {
  loaded_at = 0;
  global_domains = units "shop.kr" ∷ [];
  user_domains = [];
  keywords = [];
}

abbrev account : MailAccountWithToken
account = record {
  id = units "a";
  user_id = units "u";
  provider_account_email = units "me@x.kr";
  cursor = record { history_id = some (units "7"); watch_expires_at = none };
  token = record { access_token = []; refresh_token = []; expires_at = 0; scope = [] };
}

abbrev sale : RawMailMessage
sale = record {
  provider_message_id = units "m1";
  sender = units "no-reply@shop.kr";
  subject = units "sale";
  received_at = 0;
}

abbrev letter : RawMailMessage
letter = record sale { provider_message_id = units "m2"; sender = units "friend@x.kr" }

-- The pairs of processed_mails.
abbrev Pairs : Type 0
Pairs = List (Text × Text)

abbrev holds : Pairs → Text → Text → Bool
holds w account_id message = any (λ p. text_eq p.0 account_id && text_eq p.1 message) w

abbrev create : NewMail → Exec Pairs Text
create mail w =
    if holds w mail.mail_account_id mail.provider_message_id
    then (thrown unique_violation, w)
    else (ok (units "p"), (mail.mail_account_id, mail.provider_message_id) ∷ w)

abbrev found_id : Bool → Option Text
found_id true = some (units "p")
found_id false = none

abbrev world : IngestWorld Pairs
world = record {
  load_active = λ id w. (ok (some account), w);
  save_cursor = λ id history w. (ok tt, w);
  mark_reauth_required = λ id w. (ok tt, w);
  fetch_new_messages = λ token cursor w.
      (ok (record { messages = sale ∷ letter ∷ sale ∷ []; next_cursor = units "8" }), w);
  fetch_messages_since =
      λ token since w. (ok (record { messages = []; next_cursor = units "8" }), w);
  get_rules = λ w. (ok shop_rules, w);
  find_mail = λ id message w. (ok (found_id (holds w id message)), w);
  create_mail = create;
  now = λ w. (ok 0, w);
}

is_some-found_id : (b : Bool) → is_some (found_id b) ≡ b
is_some-found_id true = refl
is_some-found_id false = refl

create-ok :
    (mail : NewMail) (w w' : Pairs) (id : Text)
    → create mail w ≡ (ok id, w')
    → (id_account message : Text)
    → holds w' id_account message ≡ (
        holds w id_account message
        || (text_eq mail.mail_account_id id_account && text_eq mail.provider_message_id message))
create-ok mail w w' id e k n =
    elim (Bool-cases (holds w mail.mail_account_id mail.provider_message_id)) [
      | inl old ↦ cc (rw old at e)
      | inr new ↦
          let g : ◌≡◌ {A = Result Text × Pairs}
              (ok (units "p"), (mail.mail_account_id, mail.provider_message_id) ∷ w) (ok id, w') =
            rw new at e in
          let same : (mail.mail_account_id, mail.provider_message_id) ∷ w ≡ w' = cc in
          rw (sym same) (ground arith)
    ]

create-refused :
    (mail : NewMail) (w w' : Pairs)
    → create mail w ≡ (thrown unique_violation, w')
    → (holds w' mail.mail_account_id mail.provider_message_id ≡ true)
      × ((k n : Text) → holds w k n ≡ true → holds w' k n ≡ true)
create-refused mail w w' e =
    elim (Bool-cases (holds w mail.mail_account_id mail.provider_message_id)) [
      | inl old ↦
          let g : ◌≡◌ {A = Result Text × Pairs} (thrown unique_violation, w)
              (thrown unique_violation, w') =
            rw old at e in
          let same : w ≡ w' = cc in rw (sym same) (old, λ k n h. h)
      | inr new ↦ cc (rw new at e)
    ]

find-ok :
    (id message : Text) (w w' : Pairs) (found : Option Text)
    → world.find_mail id message w ≡ (ok found, w')
    → (is_some found ≡ holds w id message) × (holds w' ≡ holds w)
find-ok id message w w' found e =
    let a : found_id (holds w id message) ≡ found = cc in
    let b : w ≡ w' = cc in
    (ap is_some (sym a) ∙ is_some-found_id (holds w id message), ap holds (sym b))

world-IsMailTable : IsMailTable world shop_rules holds
world-IsMailTable = record {
  rules_same = λ w w' r e. (cc, cc);
  find_pair = find-ok;
  create_pair = create-ok;
  refused_pair = create-refused;
}

-- A publisher that notes the ids, and one that is down.
abbrev publish : Text → Exec (List Text) (Unit {0})
publish id q = (ok tt, id ∷ q)

abbrev publish_down : Text → Exec (List Text) (Unit {0})
publish_down id q = (thrown (other_error none []), q)

abbrev zero_tally : Tally
zero_tally = record { passed_filter = 0; recorded = 0 }

first_run :
    handle world publish
      (record { mail_account_id = units "a"; triggered_by = polling; history_id = none })
      ([], [])
    ≡ (
      ok (record {
        fetched = 3;
        passed_filter = 2;
        recorded = 1;
        resynced = false;
        skipped = none;
      }),
      ((units "a", units "m1") ∷ [], units "p" ∷ []),
    )
unfolding ingesting
first_run = refl

abbrev one_pair : Pairs
one_pair = (units "a", units "m1") ∷ []

handle-IsOrdered_example :
    IsOrdered
      (record { fetched = 3; passed_filter = 2; recorded = 1; resynced = false; skipped = none })
handle-IsOrdered_example =
    handle-IsOrdered world publish
      (record { mail_account_id = units "a"; triggered_by = polling; history_id = none }) _ []
      one_pair [] (units "p" ∷ []) first_run

once :
    record_messages world publish account (sale ∷ letter ∷ []) zero_tally ([], [])
    ≡ (ok (record { passed_filter = 1; recorded = 1 }), (one_pair, units "p" ∷ []))
unfolding ingesting
once = refl

again :
    record_messages world publish account (sale ∷ letter ∷ []) zero_tally (one_pair, units "p" ∷ [])
    ≡ (ok (record { passed_filter = 1; recorded = 0 }), (one_pair, units "p" ∷ []))
unfolding ingesting
again = refl

record_messages_twice_example :
    ◌≡◌ {A = List Text} (units "p" ∷ []) (units "p" ∷ []) × (◌≡◌ {A = ℕ} 0 0)
record_messages_twice_example =
    record_messages_twice world publish shop_rules holds world-IsMailTable account
      (sale ∷ letter ∷ []) zero_tally _ zero_tally _ [] one_pair one_pair one_pair []
      (units "p" ∷ []) (units "p" ∷ []) (units "p" ∷ []) once (λ k n h. h) again

sale-passes : passes world account.user_id sale [] ≡ (ok true, [])
unfolding ingesting
sale-passes = refl

sale-inserted : insert_processed_mail world account.id sale [] ≡ (ok (some (units "p")), one_pair)
unfolding ingesting
sale-inserted = refl

after_failure :
    record_messages world publish_down account (sale ∷ []) zero_tally (one_pair, [])
    ≡ (ok (record { passed_filter = 1; recorded = 0 }), (one_pair, []))
unfolding ingesting
after_failure = refl

record_messages-lost_example :
    (record_messages world publish_down account (sale ∷ letter ∷ []) zero_tally ([], [])
      ≡ (thrown (other_error none []), (one_pair, [])))
    × (◌≡◌ {A = List Text} [] [])
record_messages-lost_example =
    record_messages-lost world publish_down shop_rules holds world-IsMailTable account sale
      (letter ∷ []) zero_tally zero_tally _ (units "p") (other_error none []) [] [] one_pair
      one_pair one_pair [] [] [] [] sale-passes sale-inserted refl (λ k n h. h) after_failure
