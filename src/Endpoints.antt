-- ===== src/Endpoints.antt =====
-- The internal HTTP handlers that Pub/Sub and Cloud Tasks call: mail-ingest/mail-ingest.controller.ts
-- and gmail-webhook.controller.ts, coupon-classifier/coupon-classify.controller.ts and
-- notification/push-dispatch.controller.ts in backend/src. A handler that returns acknowledges the
-- message, and one that throws has it delivered again. The decoded body is the argument; a field that
-- it lacks is `none`.
pub mod Retries
mod Tests
use coupi.Prelude.{ℕ, Bool, true, false, Option, none, some, Text, units, truthy, if◌then◌else◌}
use coupi.Domain.{
  NotificationType, new_coupon, expiry_reminder, MailIngestMessage, Trigger, webhook,
  CouponClassifyMessage,
}
use coupi.Effects.{Exec, Thrown, other_error, pure, throw, ◌>>=◌, ◌>>◌}
use coupi.MailIngest.{IngestOutcome}
use coupi.Classifier.Handler.{ClassifyOutcome}
use coupi.Notification.Dispatch.{DispatchOutcome}

-- A Gmail notification; `history_id` is what `String` makes of it.
pub record GmailNotification : Type 0 where
  pub email_address : Option Text
  pub history_id : Text

abbrev pub retry : Thrown
retry = other_error (some 500) (units "일시적 발송 실패 — Cloud Tasks 재시도 대상")

module _ {S : Type 0} (dispatch : Text → NotificationType → Exec S DispatchOutcome) where
  unfoldable pub retry_if : Bool → Exec S (Unit {0})
  retry_if b = if b then throw retry else pure tt

  unfoldable pub run_task : Option Text → NotificationType → Exec S (Unit {0})
  run_task none notification_type = pure tt
  run_task (some coupon_id) notification_type = do
    outcome ← dispatch coupon_id notification_type
    retry_if outcome.should_retry

  abbrev type_or_new : Option NotificationType → NotificationType
  type_or_new none = new_coupon
  type_or_new (some t) = t

  unfoldable pub push_dispatch : Option Text → Option NotificationType → Exec S (Unit {0})
  push_dispatch coupon_id notification_type =
      run_task (truthy coupon_id) (type_or_new notification_type)

  unfoldable pub send_reminder : Option Text → Exec S (Unit {0})
  send_reminder coupon_id = run_task (truthy coupon_id) expiry_reminder

module _ {S : Type 0} where
  unfoldable pub handle_ingest :
      (MailIngestMessage → Exec S IngestOutcome)
      → Option Text
      → Trigger
      → Option Text
      → Exec S (Unit {0})
  handle_ingest handle account_id triggered_by history_id = elim (truthy account_id) [
    | none ↦ pure tt
    | some id ↦ do
      handle (record { mail_account_id = id; triggered_by = triggered_by; history_id = history_id })
      pure tt
  ]

  unfoldable pub handle_classify :
      (CouponClassifyMessage → Exec S ClassifyOutcome) → Option Text → Exec S (Unit {0})
  handle_classify handle mail_id = elim (truthy mail_id) [
    | none ↦ pure tt
    | some id ↦ do handle (record { processed_mail_id = id }); pure tt
  ]

-- `find_account` finds an active Gmail account by its address, and `publish` takes the ordering key,
-- which is the account's id.
module _ {S : Type 0} (find_account : Text → Exec S (Option Text))
    (publish : MailIngestMessage → Text → Exec S (Unit {0})) where
  unfoldable pub publish_ingest : Text → Option Text → Exec S (Unit {0})
  publish_ingest history_id none = pure tt
  publish_ingest history_id (some id) =
      publish
        (record { mail_account_id = id; triggered_by = webhook; history_id = some history_id }) id

  unfoldable pub receive : GmailNotification → Exec S (Unit {0})
  receive notification = elim (truthy notification.email_address) [
    | none ↦ pure tt
    | some email ↦ do account ← find_account email; publish_ingest notification.history_id account
  ]
