-- ===== src/Classifier/Handler/Lost.antt =====
-- A classification that is delivered again.
use coupi.Prelude.{ℕ, ◌≡◌, refl, sym, ap, ◌∙◌, inl, inr, Bool, true, Option, none, some, List, Text}
use coupi.Domain.{ExtractorType, CouponClassifyMessage}
use coupi.Effects.{Exec, Result, Thrown, ok, thrown, pure, on_left, on_right, resume, ◌>>=◌}
use coupi.Effects.Calls.{Result-cases}
use coupi.Classifier.Validity.{ExtractedCoupon}
use coupi.Classifier.Extractors.{CouponExtractor}
use coupi.Classifier.Handler.{
  ClassifyWorld, ClassifyOutcome, skipped, ProcessedMail, NewCoupon, QueuedTask, coupon_row,
  push_task, mail_input, worth_notifying, notify, notify_or_not, judge_mail, handle_new,
  handle_mail, handle,
}
use coupi.Classifier.Pipeline.{ExtractOutcome, extract_and_judge}
use coupi.Accounts.{MailAccountWithToken}
use coupi.Gmail.{MailBody}

-- What the database documents of its calls, seen by whether a mail has a coupon: a coupon that is
-- created is there, a query for a mail that has one answers one, and a query for a mail answers a row
-- of that id and keeps the coupons.
pub record IsCouponTable {W : Type 0} (world : ClassifyWorld W) (has_coupon : W → Text → Bool)
    : Type 0 where
  pub create_row :
      (c : NewCoupon) (w w' : W) (id : Text)
      → world.create_coupon c w ≡ (ok id, w')
      → has_coupon w' c.processed_mail_id ≡ true
  pub find_row :
      (id : Text) (w w' : W) (found : Option Text)
      → has_coupon w id ≡ true
      → world.find_coupon id w ≡ (ok found, w')
      → (coupon : Text) × (found ≡ some coupon)
  pub find_mail_row :
      (id : Text) (w w' : W) (mail : ProcessedMail)
      → world.find_mail id w ≡ (ok (some mail), w')
      → (mail.id ≡ id) × (has_coupon w' id ≡ has_coupon w id)

-- The outcome is a skip, or the call has thrown.
abbrev pub IsSkip : Result ClassifyOutcome → Type 0
IsSkip (ok o) = o.verdict ≡ skipped
IsSkip (thrown x) = Unit {0}

-- A call that has queued nothing, and is a skip if it has returned.
abbrev pub IsQuiet : {W Q : Type 0} → Q → Result ClassifyOutcome × (W × Q) → Type 0
IsQuiet q (r, (w', q')) = IsSkip r × (q' ≡ q)

module _ {W Q : Type 0} (world : ClassifyWorld W) (enqueue : QueuedTask → Exec Q (Unit {0}))
    (sender_extractors : List CouponExtractor) (generic : CouponExtractor)
    (has_coupon : W → Text → Bool) (table : IsCouponTable world has_coupon) where
  -- What the later stages say of a mail and its body.
  abbrev pub judged : ProcessedMail → MailBody → ℕ → ExtractOutcome
  judged mail body now = extract_and_judge sender_extractors generic (mail_input mail body) now

  handle_new-existing :
      (mail : ProcessedMail) (now : ℕ) (coupon : Text) (w : W) (q : Q)
      → IsQuiet q (handle_new world enqueue sender_extractors generic mail now (some coupon) (w, q))
  unfolding handle_new pure
  handle_new-existing mail now coupon w q = (refl, refl)

  handle_mail-existing :
      (mail : Option ProcessedMail) (id : Text) (now : ℕ) (w w1 : W) (q : Q)
      → has_coupon w id ≡ true
      → world.find_mail id w ≡ (ok mail, w1)
      → IsQuiet q (handle_mail world enqueue sender_extractors generic now mail (w1, q))
  unfolding handle_mail pure ◌>>=◌ resume on_left
  handle_mail-existing none id now w w1 q h read = (refl, refl)
  handle_mail-existing (some mail) id now w w1 q h read =
      let (same, kept) = table.find_mail_row id w w1 mail read in
      elim (Result-cases (world.find_coupon mail.id w1)) [
        | inl (found, w2, looked) ↦
            let (coupon, is) =
              table.find_row mail.id w1 w2 found (ap (has_coupon w1) same ∙ kept ∙ h) looked in
            rw (looked, is) (handle_new-existing mail now coupon w2 q)
        | inr (x, w2, looked) ↦ rw looked (tt, refl)
      ]

  -- A mail that has a coupon is not judged again: whatever the extractors would say, a delivery of it
  -- queues nothing, and if it returns, it is skipped.
  pub handle-existing :
      (message : CouponClassifyMessage) (now : ℕ) (w : W) (q : Q)
      → has_coupon w message.processed_mail_id ≡ true
      → IsQuiet q (handle world enqueue sender_extractors generic message now (w, q))
  unfolding handle ◌>>=◌ resume on_left
  handle-existing message now w q h =
      elim (Result-cases (world.find_mail message.processed_mail_id w)) [
        | inl (mail, w1, read) ↦
            rw read (handle_mail-existing mail message.processed_mail_id now w w1 q h read)
        | inr (x, w1, read) ↦ rw read (tt, refl)
      ]

  -- In tables that keep these laws, if a mail that is new, of an active account, is judged worth a
  -- notification and its coupon is created, but the queueing of the push throws, then the
  -- classification throws with nothing else queued; and a later delivery of the same message, while the
  -- coupon is kept, queues neither a push nor a reminder, and if it returns, it is skipped.
  pub handle-lost :
      (message : CouponClassifyMessage) (mail : ProcessedMail) (account : MailAccountWithToken)
      (body : MailBody) (coupon : ExtractedCoupon) (kind : ExtractorType) (now later : ℕ)
      (id : Text) (x : Thrown) (w w1 w2 w3 w4 w5 w6 w7 : W) (q q1 q2 : Q)
      → world.find_mail message.processed_mail_id w ≡ (ok (some mail), w1)
      → world.find_coupon mail.id w1 ≡ (ok none, w2)
      → world.load_active mail.mail_account_id w2 ≡ (ok (some account), w3)
      → world.fetch_message_body account.token mail.provider_message_id w3 ≡ (ok body, w4)
      → (judged mail body now).should_notify ≡ true
      → (judged mail body now).extracted ≡ some coupon
      → (judged mail body now).extractor_type ≡ some kind
      → world.update_filter_result mail.id (judged mail body now).filter_result w4 ≡ (ok tt, w5)
      → world.create_coupon (coupon_row mail coupon kind) w5 ≡ (ok id, w6)
      → enqueue (push_task id) q ≡ (thrown x, q1)
      → (has_coupon w6 mail.id ≡ true → has_coupon w7 mail.id ≡ true)
      → (handle world enqueue sender_extractors generic message now (w, q) ≡ (thrown x, (w6, q1)))
        × IsQuiet q2 (handle world enqueue sender_extractors generic message later (w7, q2))
  unfolding handle handle_mail handle_new judge_mail notify_or_not worth_notifying notify ◌>>=◌
      resume on_left on_right
  handle-lost message mail account body coupon kind now later id x w w1 w2 w3 w4 w5 w6 w7 q q1 q2
        read new active fetched worth extracted by recorded created fails kept =
      let (same, _) = table.find_mail_row message.processed_mail_id w w1 mail read in
      let there = kept (table.create_row _ w5 w6 id created) in
      (
        rw (read, new, active, fetched, worth, extracted, by, recorded, created, fails) refl,
        handle-existing message later w7 q2 (ap (has_coupon w7) (sym same) ∙ there),
      )
