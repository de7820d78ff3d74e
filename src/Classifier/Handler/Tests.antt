-- ===== src/Classifier/Handler/Tests.antt =====
-- Runs of the classification handler over a small table, and the theorems about it there.
use coupi.Prelude.{
  ℕ, ◌≡◌, refl, sym, ap, ◌∙◌, ◌+◌, ◌*◌, Bool, true, false, Option, none, some, List, [], ◌∷◌, Text,
  units, text_eq, text_eq_refl, any,
}
use coupi.Domain.{generic_regex, CouponClassifyMessage}
use coupi.Instants.{epoch, day_ms}
use coupi.Effects.{Exec, ok, thrown, other_error}
use coupi.Accounts.{MailAccountWithToken}
use coupi.Classifier.Validity.{ExtractedCoupon}
use coupi.Classifier.Extractors.{CouponExtractor}
use coupi.Classifier.Handler.{
  ClassifyWorld, ClassifyOutcome, notified, skip, already_processed, ProcessedMail, NewCoupon,
  QueuedTask, push_task, reminder_task, handle, handling,
}
use coupi.Classifier.Handler.Tasks.{IsPlanned, handle-IsPlanned}
use coupi.Classifier.Handler.Lost.{IsCouponTable, IsQuiet, handle-lost}

abbrev coupon : ExtractedCoupon
coupon = record {
  discount = some (units "10%");
  expiry_date = some (units "2026-08-31");
  conditions = none;
  is_spammy = false;
  extractor_id = units "test_v1";
}

abbrev extractor : CouponExtractor
extractor = record {
  extractor_type = generic_regex;
  can_handle = λ domain. true;
  extract = λ subject body received_at. some coupon;
}

abbrev account : MailAccountWithToken
account = record {
  id = units "a";
  user_id = units "u";
  provider_account_email = units "me@x.kr";
  cursor = record { history_id = some (units "7"); watch_expires_at = none };
  token = record { access_token = []; refresh_token = []; expires_at = 0; scope = [] };
}

abbrev mail : Text → ProcessedMail
mail id = record {
  id = id;
  mail_account_id = units "a";
  user_id = units "u";
  provider_message_id = units "m1";
  sender = units "shop@shop.kr";
  subject = none;
  received_at = epoch;
}

-- The state holds the mails that have a coupon.
abbrev holds : List Text → Text → Bool
holds w id = any (λ m. text_eq m id) w

abbrev found_id : Bool → Option Text
found_id true = some (units "c")
found_id false = none

abbrev world : ClassifyWorld (List Text)
world = record {
  find_mail = λ id w. (ok (some (mail id)), w);
  find_coupon = λ id w. (ok (found_id (holds w id)), w);
  load_active = λ id w. (ok (some account), w);
  fetch_message_body = λ token id w. (ok (record { text = some []; html = none }), w);
  update_filter_result = λ id r w. (ok tt, w);
  create_coupon = λ c w. (ok (units "c"), c.processed_mail_id ∷ w);
}

abbrev queue : QueuedTask → Exec (List QueuedTask) (Unit {0})
queue task q = (ok tt, task ∷ q)

abbrev queue_down : QueuedTask → Exec (List QueuedTask) (Unit {0})
queue_down task q = (thrown (other_error none []), q)

create-holds :
    (c : NewCoupon) (w w' : List Text) (id : Text)
    → world.create_coupon c w ≡ (ok id, w')
    → holds w' c.processed_mail_id ≡ true
create-holds c w w' id e =
    let same : c.processed_mail_id ∷ w ≡ w' = cc in
    rw (sym same, text_eq_refl c.processed_mail_id) refl

find-holds :
    (id : Text) (w w' : List Text) (found : Option Text)
    → holds w id ≡ true
    → world.find_coupon id w ≡ (ok found, w')
    → (c : Text) × (found ≡ some c)
find-holds id w w' found h e =
    let same : found_id (holds w id) ≡ found = cc in (units "c", sym same ∙ ap found_id h)

find_mail-holds :
    (id : Text) (w w' : List Text) (m : ProcessedMail)
    → world.find_mail id w ≡ (ok (some m), w')
    → (m.id ≡ id) × (holds w' id ≡ holds w id)
find_mail-holds id w w' m e =
    let same : mail id ≡ m = cc in
    let end : w ≡ w' = cc in
    (ap (λ (p : ProcessedMail). p.id) (sym same), ap (λ v. holds v id) (sym end))

world-IsCouponTable : IsCouponTable world holds
world-IsCouponTable = record {
  create_row = create-holds;
  find_row = find-holds;
  find_mail_row = find_mail-holds;
}

abbrev message : CouponClassifyMessage
message = record { processed_mail_id = units "p" }

-- 2026-08-31 is the day 20696 of the epoch; nine in Korea is midnight in UTC.
abbrev reminder_time : ℕ
reminder_time = epoch + 20695 * day_ms

abbrev first_outcome : ClassifyOutcome
first_outcome = record {
  verdict = notified;
  reason = none;
  coupon_id = some (units "c");
  reminder_scheduled = some true;
}

first_run : handle world queue [] extractor message epoch ([], []) ≡ (
  ok first_outcome,
  (units "p" ∷ [], reminder_task (units "c") reminder_time ∷ push_task (units "c") ∷ []),
)
unfolding handling
first_run = refl

handle-IsPlanned_example :
    IsPlanned world queue [] extractor epoch first_outcome []
      (reminder_task (units "c") reminder_time ∷ push_task (units "c") ∷ [])
handle-IsPlanned_example =
    handle-IsPlanned world queue [] extractor message epoch first_outcome [] (units "p" ∷ []) [] _
      first_run

abbrev second_outcome : ClassifyOutcome
second_outcome = skip already_processed (some (units "c"))

second_run :
    handle world queue [] extractor message epoch (units "p" ∷ [], [])
    ≡ (ok second_outcome, (units "p" ∷ [], []))
unfolding handling
second_run = refl

later_run :
    handle world queue_down [] extractor message epoch (units "p" ∷ [], [])
    ≡ (ok second_outcome, (units "p" ∷ [], []))
unfolding handling
later_run = refl

handle-lost_example :
    (handle world queue_down [] extractor message epoch ([], [])
      ≡ (thrown (other_error none []), (units "p" ∷ [], [])))
    × IsQuiet [] (handle world queue_down [] extractor message epoch (units "p" ∷ [], []))
unfolding handling
handle-lost_example =
    handle-lost world queue_down [] extractor holds world-IsCouponTable message (mail (units "p"))
      account (record { text = some []; html = none }) coupon generic_regex epoch epoch (units "c")
      (other_error none []) [] [] [] [] [] [] (units "p" ∷ []) (units "p" ∷ []) [] [] [] refl refl
      refl refl refl refl refl refl refl refl (λ h. h)
