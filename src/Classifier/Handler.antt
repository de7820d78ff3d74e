-- ===== src/Classifier/Handler.antt =====
-- backend/src/coupon-classifier/coupon-classify.service.ts: a recorded mail is judged, and a coupon
-- that is found in it is stored and its pushes are queued.
pub mod Tasks
pub mod Lost
mod Tests
use coupi.Prelude.{ℕ, Bool, true, false, Option, none, some, List, Text, units, truthy}
use coupi.Domain.{
  NotificationType, new_coupon, ExtractorType, FilterResult, extraction_failed,
  CouponClassifyMessage, PushDispatchTask, ExpiryReminderTask,
}
use coupi.Effects.{Exec, pure, on_left, on_right, ◌>>=◌, ◌>>◌}
use coupi.Gmail.{ProviderTokenSet, MailBody}
use coupi.Gmail.Messages.{to_plain_text, messages}
use coupi.Accounts.{MailAccountWithToken}
use coupi.Classifier.Validity.{ExtractedCoupon, ValidityVerdict, ValidityResult}
use coupi.Classifier.Reminder.{expiry_reminder_time, reminder}
use coupi.Classifier.Extractors.{CouponExtractor}
use coupi.Classifier.Pipeline.{ExtractInput, ExtractOutcome, extract_and_judge, pipeline}

abbrev pub push_dispatch_path : Text
push_dispatch_path = units "/internal/push-dispatch"

abbrev pub expiry_reminder_path : Text
expiry_reminder_path = units "/internal/expiry-reminder"

pub data ClassifyVerdict : Type 0 where
  notified held discarded skipped : ClassifyVerdict

-- The texts of `reason`: the three of the early returns, and the verdict of the validity check.
pub data ClassifyReason : Type 0 where
  no_processed_mail already_processed inactive_account : ClassifyReason
  judged : ValidityVerdict → ClassifyReason

pub record ClassifyOutcome : Type 0 where
  pub verdict : ClassifyVerdict
  pub reason : Option ClassifyReason
  pub coupon_id : Option Text
  pub reminder_scheduled : Option Bool

-- A row of processed_mails with its account's id and user.
pub record ProcessedMail : Type 0 where
  pub id : Text
  pub mail_account_id : Text
  pub user_id : Text
  pub provider_message_id : Text
  pub sender : Text
  pub subject : Option Text
  pub received_at : ℕ

-- The row that is created, usable now and active; the database stores the day of the date's text.
pub record NewCoupon : Type 0 where
  pub processed_mail_id : Text
  pub user_id : Text
  pub discount : Option Text
  pub expiry_date : Option Text
  pub conditions : Option Text
  pub extractor_id : Text
  pub extractor_type : ExtractorType

pub data TaskPayload : Type 0 where
  push_dispatch_task : PushDispatchTask → TaskPayload
  expiry_reminder_task : ExpiryReminderTask → TaskPayload

-- The arguments of `tasks.enqueue` behind the queue.
pub record QueuedTask : Type 0 where
  pub path : Text
  pub payload : TaskPayload
  pub schedule_at : Option ℕ

-- What the handler calls besides the task queue: the tables processed_mails and coupons, the token
-- service and the Gmail client.
pub record ClassifyWorld (W : Type 0) : Type 0 where
  pub find_mail : Text → Exec W (Option ProcessedMail)
  pub find_coupon : Text → Exec W (Option Text)
  pub load_active : Text → Exec W (Option MailAccountWithToken)
  pub fetch_message_body : ProviderTokenSet → Text → Exec W MailBody
  pub update_filter_result : Text → FilterResult → Exec W (Unit {0})
  pub create_coupon : NewCoupon → Exec W Text

abbrev text_or_empty : Option Text → Text
text_or_empty none = units ""
text_or_empty (some s) = s

abbrev pub skip : ClassifyReason → Option Text → ClassifyOutcome
skip reason coupon_id = record {
  verdict = skipped;
  reason = some reason;
  coupon_id = coupon_id;
  reminder_scheduled = none;
}

abbrev pub mail_input : ProcessedMail → MailBody → ExtractInput
mail_input mail body = record {
  sender = mail.sender;
  subject = text_or_empty mail.subject;
  body_text = to_plain_text body;
  received_at = mail.received_at;
}

-- `outcome.filterResult === 'extraction_failed' ? 'held' : 'discarded'`
abbrev pub verdict_of : FilterResult → ClassifyVerdict
verdict_of extraction_failed = held
verdict_of _ = discarded

abbrev reason_of : Option ValidityResult → Option ClassifyReason
reason_of none = none
reason_of (some v) = some (judged v.verdict)

abbrev pub not_notified : ExtractOutcome → ClassifyOutcome
not_notified outcome = record {
  verdict = verdict_of outcome.filter_result;
  reason = reason_of outcome.validity;
  coupon_id = none;
  reminder_scheduled = none;
}

-- The coupon and its extractor's kind, unless `!shouldNotify || !extracted || !extractorType`.
unfoldable pub worth_notifying :
    Bool → Option ExtractedCoupon → Option ExtractorType → Option (ExtractedCoupon × ExtractorType)
worth_notifying true (some extracted) (some extractor_type) = some (extracted, extractor_type)
worth_notifying _ _ _ = none

abbrev pub coupon_row : ProcessedMail → ExtractedCoupon → ExtractorType → NewCoupon
coupon_row mail extracted extractor_type = record {
  processed_mail_id = mail.id;
  user_id = mail.user_id;
  discount = extracted.discount;
  expiry_date = truthy extracted.expiry_date;
  conditions = extracted.conditions;
  extractor_id = extracted.extractor_id;
  extractor_type = extractor_type;
}

abbrev pub push_task : Text → QueuedTask
push_task coupon_id = record {
  path = push_dispatch_path;
  payload = push_dispatch_task (record { coupon_id = coupon_id; notification_type = new_coupon });
  schedule_at = none;
}

abbrev pub reminder_task : Text → ℕ → QueuedTask
reminder_task coupon_id at = record {
  path = expiry_reminder_path;
  payload = expiry_reminder_task (record { coupon_id = coupon_id });
  schedule_at = some at;
}

module _ {Q : Type 0} (enqueue : QueuedTask → Exec Q (Unit {0})) where
  unfoldable pub enqueue_reminder : Text → Option ℕ → Exec Q Bool
  enqueue_reminder coupon_id none = pure false
  enqueue_reminder coupon_id (some at) = do enqueue (reminder_task coupon_id at); pure true

  unfoldable pub schedule_reminder : Text → Option Text → ℕ → Exec Q Bool
  schedule_reminder coupon_id expiry_date now =
      enqueue_reminder coupon_id (expiry_reminder_time expiry_date now)

module _ {W Q : Type 0} (world : ClassifyWorld W) (enqueue : QueuedTask → Exec Q (Unit {0}))
    (sender_extractors : List CouponExtractor) (generic : CouponExtractor) where
  -- From the creation of the coupon on.
  unfoldable pub notify :
      ProcessedMail → ExtractedCoupon × ExtractorType → ℕ → Exec (W × Q) ClassifyOutcome
  notify mail (extracted, extractor_type) now = do
    id ← on_left (world.create_coupon (coupon_row mail extracted extractor_type))
    on_right (enqueue (push_task id))
    scheduled ← on_right (schedule_reminder enqueue id extracted.expiry_date now)
    pure (record {
      verdict = notified;
      reason = none;
      coupon_id = some id;
      reminder_scheduled = some scheduled;
    })

  unfoldable pub notify_or_not :
      ProcessedMail
      → ExtractOutcome
      → Option (ExtractedCoupon × ExtractorType)
      → ℕ
      → Exec (W × Q) ClassifyOutcome
  notify_or_not mail outcome none now = pure (not_notified outcome)
  notify_or_not mail outcome (some found) now = notify mail found now

  unfoldable pub judge_mail :
      ProcessedMail → ℕ → Option MailAccountWithToken → Exec (W × Q) ClassifyOutcome
  judge_mail mail now none = pure (skip inactive_account none)
  judge_mail mail now (some account) = do
    body ← on_left (world.fetch_message_body account.token mail.provider_message_id)
    let outcome = extract_and_judge sender_extractors generic (mail_input mail body) now
    on_left (world.update_filter_result mail.id outcome.filter_result)
    notify_or_not mail outcome
        (worth_notifying outcome.should_notify outcome.extracted outcome.extractor_type) now

  unfoldable pub handle_new : ProcessedMail → ℕ → Option Text → Exec (W × Q) ClassifyOutcome
  handle_new mail now (some existing) = pure (skip already_processed (some existing))
  handle_new mail now none = do
    account ← on_left (world.load_active mail.mail_account_id)
    judge_mail mail now account

  unfoldable pub handle_mail : ℕ → Option ProcessedMail → Exec (W × Q) ClassifyOutcome
  handle_mail now none = pure (skip no_processed_mail none)
  handle_mail now (some mail) = do
    existing ← on_left (world.find_coupon mail.id)
    handle_new mail now existing

  unfoldable pub handle : CouponClassifyMessage → ℕ → Exec (W × Q) ClassifyOutcome
  handle message now = do
    mail ← on_left (world.find_mail message.processed_mail_id)
    handle_mail now mail

-- For a test that classifies a recorded mail.
unfoldable pub handling : Unit {0}
unfolding ◌>>=◌ on_left on_right messages pipeline reminder worth_notifying enqueue_reminder
    schedule_reminder notify notify_or_not judge_mail handle_new handle_mail handle
handling = tt
