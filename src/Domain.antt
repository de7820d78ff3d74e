-- ===== src/Domain.antt =====
-- backend/src/common/types/domain.ts and messages.ts: the closed sets of words that the tables hold,
-- and what the queues carry.
use coupi.Prelude.{Option, Text}

pub data MailAccountStatus : Type 0 where
  active reauth_required auth_failed revoked : MailAccountStatus

pub data FilterResult : Type 0 where
  passed filtered_out extraction_failed : FilterResult

pub data ExtractorType : Type 0 where
  sender_specific generic_regex llm : ExtractorType

pub data CouponStatus : Type 0 where
  active expired used dismissed : CouponStatus

pub data DevicePlatform : Type 0 where
  ios android : DevicePlatform

pub data NotificationType : Type 0 where
  new_coupon expiry_reminder : NotificationType

pub data SendStatus : Type 0 where
  pending sent failed skipped_disabled : SendStatus

pub data Trigger : Type 0 where
  webhook polling : Trigger

pub record MailIngestMessage : Type 0 where
  pub mail_account_id : Text
  pub triggered_by : Trigger
  pub history_id : Option Text

pub record CouponClassifyMessage : Type 0 where
  pub processed_mail_id : Text

pub record PushDispatchTask : Type 0 where
  pub coupon_id : Text
  pub notification_type : NotificationType

pub record ExpiryReminderTask : Type 0 where
  pub coupon_id : Text
