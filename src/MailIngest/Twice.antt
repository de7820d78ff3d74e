-- ===== src/MailIngest/Twice.antt =====
-- A batch of mails that is delivered again.
use coupi.Prelude.{
  ◌≡◌, refl, sym, ap, ◌∙◌, Bool, true, false, Option, none, some, List, [], ◌∷◌, Text, All,
}
use coupi.Effects.{Exec, Thrown, ok, thrown, on_left, on_right, resume, ◌>>=◌}
use coupi.Effects.Calls.{bind-ok, pure-ok, bind-on_left, bind-on_right}
use coupi.Gmail.{RawMailMessage}
use coupi.Accounts.{MailAccountWithToken}
use coupi.Classifier.RuleFilter.{RuleCache}
use coupi.MailIngest.{
  IngestWorld, Tally, insert_processed_mail, passes, publish_new, record_passed, record_messages,
}
use coupi.MailIngest.Redelivery.{IsMailTable, Keeps, insert-stored, IsPassed, passes-ok}

module _ {W Q : Type 0} (world : IngestWorld W) (publish : Text → Exec Q (Unit {0}))
    (rules : RuleCache) (stored : W → Text → Text → Bool)
    (table : IsMailTable world rules stored) where
  publish_new-kept :
      (id : Option Text) (t u : Tally) (w w' : W) (q q' : Q)
      → publish_new world publish id t (w, q) ≡ (ok u, (w', q'))
      → (w ≡ w') × (id ≡ none → (q' ≡ q) × (u.recorded ≡ t.recorded))
  unfolding publish_new
  publish_new-kept none t u w w' q q' e =
      let (same, end) = pure-ok _ _ _ _ e in
      (ap (λ v. v.0) end, λ h. (ap (λ v. v.1) (sym end), ap (λ (x : Tally). x.recorded) (sym same)))
  publish_new-kept (some id) t u w w' q q' e =
      let (x, q1, sent, e1) = bind-on_right _ _ _ _ _ _ e in
      let (same, end) = pure-ok _ _ _ _ e1 in (ap (λ v. v.0) end, λ h. cc)

  record_passed-ok :
      (b : Bool) (id : Text) (m : RawMailMessage) (t u : Tally) (w w' : W) (q q' : Q)
      → record_passed world publish b id m t (w, q) ≡ (ok u, (w', q'))
      → Keeps world rules stored table w w'
        × (b ≡ true → stored w' id m.provider_message_id ≡ true)
        × ((b ≡ true → stored w id m.provider_message_id ≡ true)
            → (q' ≡ q) × (u.recorded ≡ t.recorded))
  unfolding record_passed
  record_passed-ok false id m t u w w' q q' e =
      let (same, end) = pure-ok _ _ _ _ e in
      (
        (λ k n h. ap (λ v. stored v.0 k n) (sym end) ∙ h),
        (λ h. cc),
        λ h. (ap (λ v. v.1) (sym end), ap (λ (x : Tally). x.recorded) (sym same)),
      )
  record_passed-ok true id m t u w w' q q' e =
      let (row, w1, inserted, e1) = bind-on_left _ _ _ _ _ _ e in
      let (there, kept, old) = insert-stored world rules stored table id m row w w1 inserted in
      let (same, quiet) = publish_new-kept row _ u w1 w' q q' e1 in
      (
        (λ k n h. ap (λ v. stored v k n) (sym same) ∙ kept k n h),
        (λ h. ap (λ v. stored v id m.provider_message_id) (sym same) ∙ there),
        λ h. quiet (old (h refl)),
      )

  -- The mails of a batch that the filter passes are all in the table.
  abbrev pub IsStored : MailAccountWithToken → W → List RawMailMessage → Type 0
  IsStored account w messages =
      All
        (λ m.
          IsPassed world rules stored table account m true
          → stored w account.id m.provider_message_id ≡ true)
        messages

  IsStored-Keeps :
      (account : MailAccountWithToken) (w w' : W) (messages : List RawMailMessage)
      → Keeps world rules stored table w w'
      → IsStored account w messages
      → IsStored account w' messages
  IsStored-Keeps account w w' [] k h = tt
  IsStored-Keeps account w w' (m ∷ messages) k (h, hs) =
      ((λ p. k _ _ (h p)), IsStored-Keeps account w w' messages k hs)

  record_messages-IsStored :
      (account : MailAccountWithToken) (messages : List RawMailMessage) (t u : Tally) (w w' : W)
      (q q' : Q)
      → record_messages world publish account messages t (w, q) ≡ (ok u, (w', q'))
      → IsStored account w' messages × Keeps world rules stored table w w'
  unfolding record_messages
  record_messages-IsStored account [] t u w w' q q' e =
      let (same, end) = pure-ok _ _ _ _ e in (tt, λ k n h. ap (λ v. stored v.0 k n) (sym end) ∙ h)
  record_messages-IsStored account (m ∷ messages) t u w w' q q' e =
      let (b, w1, filtered, e1) = bind-on_left _ _ _ _ _ _ e in
      let (is, kept) = passes-ok world rules stored table account m b w w1 filtered in
      let (next, (w2, q2), one, e2) = bind-ok _ _ _ _ _ e1 in
      let (keeps, there, _) = record_passed-ok b account.id m t next w1 w2 q q2 one in
      let (rest, after) = record_messages-IsStored account messages next u w2 w' q2 q' e2 in
      (
        ((λ p. after _ _ (there (sym is ∙ p))), rest),
        λ k n h. after k n (keeps k n (ap (λ f. f k n) kept ∙ h)),
      )

  record_messages-quiet :
      (account : MailAccountWithToken) (messages : List RawMailMessage) (t u : Tally) (w w' : W)
      (q q' : Q)
      → IsStored account w messages
      → record_messages world publish account messages t (w, q) ≡ (ok u, (w', q'))
      → (q' ≡ q) × (u.recorded ≡ t.recorded)
  unfolding record_messages
  record_messages-quiet account [] t u w w' q q' h e =
      let (same, end) = pure-ok _ _ _ _ e in
      (ap (λ v. v.1) (sym end), ap (λ (x : Tally). x.recorded) (sym same))
  record_messages-quiet account (m ∷ messages) t u w w' q q' (h, hs) e =
      let (b, w1, filtered, e1) = bind-on_left _ _ _ _ _ _ e in
      let (is, kept) = passes-ok world rules stored table account m b w w1 filtered in
      let (next, (w2, q2), one, e2) = bind-ok _ _ _ _ _ e1 in
      let (keeps, _, quiet) = record_passed-ok b account.id m t next w1 w2 q q2 one in
      let first = λ (k n : Text) (x : stored w k n ≡ true). keeps k n (ap (λ f. f k n) kept ∙ x) in
      let (a, c) = quiet (λ y. ap (λ f. f account.id m.provider_message_id) kept ∙ h (is ∙ y)) in
      let (a', c') =
        record_messages-quiet account messages next u w2 w' q2 q'
          (IsStored-Keeps account w w2 messages first hs) e2 in
      (a' ∙ a, c' ∙ c)

  -- A batch that a delivery has recorded, and that is delivered again under the same rules while its
  -- rows are kept, is neither recorded nor published again by a delivery that returns.
  pub record_messages_twice :
      (account : MailAccountWithToken) (messages : List RawMailMessage) (t u s v : Tally)
      (w w1 w2 w3 : W) (q q1 q2 q3 : Q)
      → record_messages world publish account messages t (w, q) ≡ (ok u, (w1, q1))
      → Keeps world rules stored table w1 w2
      → record_messages world publish account messages s (w2, q2) ≡ (ok v, (w3, q3))
      → (q3 ≡ q2) × (v.recorded ≡ s.recorded)
  record_messages_twice account messages t u s v w w1 w2 w3 q q1 q2 q3 first kept second =
      let (there, _) = record_messages-IsStored account messages t u w w1 q q1 first in
      record_messages-quiet account messages s v w2 w3 q2 q3
        (IsStored-Keeps account w1 w2 messages kept there) second

  -- A mail that is recorded and whose publication throws makes the delivery throw, and no later
  -- delivery of it that returns, under the same rules and while its row is kept, publishes it.
  pub record_messages-lost :
      (account : MailAccountWithToken) (m : RawMailMessage) (messages : List RawMailMessage)
      (t s v : Tally) (id : Text) (x : Thrown) (w w0 w1 w2 w3 : W) (q q1 q2 q3 : Q)
      → passes world account.user_id m w ≡ (ok true, w0)
      → insert_processed_mail world account.id m w0 ≡ (ok (some id), w1)
      → publish id q ≡ (thrown x, q1)
      → Keeps world rules stored table w1 w2
      → record_messages world publish account (m ∷ []) s (w2, q2) ≡ (ok v, (w3, q3))
      → (record_messages world publish account (m ∷ messages) t (w, q) ≡ (thrown x, (w1, q1)))
        × (q3 ≡ q2)
  record_messages-lost account m messages t s v id x w w0 w1 w2 w3 q q1 q2 q3 filtered inserted
        fails kept again =
      let (there, _, _) =
        insert-stored world rules stored table account.id m (some id) w0 w1 inserted in
      let (quiet, _) =
        record_messages-quiet account (m ∷ []) s v w2 w3 q2 q3 ((λ p. kept _ _ there), tt) again in
      (
        (unfold record_messages record_passed publish_new ◌>>=◌ resume on_left on_right in
            rw (filtered, inserted, fails)),
        quiet,
      )
