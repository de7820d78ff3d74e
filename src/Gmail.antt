-- ===== src/Gmail.antt =====
-- backend/src/auth/mail-provider.interface.ts: what the mail provider gives to the services.
pub mod Messages
pub mod Provider
pub mod Paging
pub mod Skips
pub mod Bodies
pub mod Tests
use coupi.Prelude.{ℕ, Option, List, Text}

pub record ProviderTokenSet : Type 0 where
  pub access_token : Text
  pub refresh_token : Text
  pub expires_at : ℕ
  pub scope : List Text

pub record RawMailMessage : Type 0 where
  pub provider_message_id : Text
  pub sender : Text
  pub subject : Text
  pub received_at : ℕ

pub record MailBody : Type 0 where
  pub html : Option Text
  pub text : Option Text

pub record WatchHandle : Type 0 where
  pub history_id : Text
  pub expires_at : ℕ

-- `next_cursor` is the `historyId` of the next cursor.
pub record FetchResult : Type 0 where
  pub messages : List RawMailMessage
  pub next_cursor : Text
