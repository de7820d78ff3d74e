-- ===== src/Jobs/Poll.antt =====
-- backend/src/jobs/gmail-safety-poll.job.ts: every active account is handed to the ingest again.
pub mod Sends
use coupi.Prelude.{
  ℕ, ◌+◌, ◌-◌, ◌≤◌, ◌<◌, ◌⊎◌, Bool-cases, ◌≡◌, refl, sym, ap, ◌∙◌, Bool, true, false, Option, none,
  some, List, [], ◌∷◌, ◌++◌, length, ltb, arith, if◌then◌else◌, Text, units, inl, inr,
}
use coupi.Numerals.{string_of, numerals}
use coupi.Domain.{MailIngestMessage, polling}
use coupi.Effects.{
  Exec, Thrown, Result, ok, thrown, other_error, pure, throw, catch, recover, resume, ◌>>=◌, ◌>>◌,
}
use coupi.Effects.Calls.{Result-cases, bind-go}

pub record SafetyPollResult : Type 0 where
  pub accounts : ℕ
  pub enqueued : ℕ

abbrev pub payload_of : Text → MailIngestMessage
payload_of id = record { mail_account_id = id; triggered_by = polling; history_id = none }

abbrev pub poll_error : ℕ → ℕ → Thrown
poll_error failed accounts = other_error none (
    units "보정 폴링 적재 실패 "
    ++ string_of failed
    ++ units "/"
    ++ string_of accounts
    ++ units "건 — 배치를 실패로 보고한다")

-- The query for the active Gmail accounts, and `publish` with its ordering key, which is the
-- account's id.
module _ {W : Type 0} (find_active : Exec W (List Text))
    (publish : MailIngestMessage → Text → Exec W (Unit {0})) where
  unfoldable pub enqueue_one : Text → ℕ → Exec W ℕ
  enqueue_one id enqueued =
      catch (do publish (payload_of id) id; pure (enqueued + 1)) (λ error. pure enqueued)

  -- The loop of `run`.
  unfoldable pub enqueue_all : List Text → ℕ → Exec W ℕ
  enqueue_all [] enqueued = pure enqueued
  enqueue_all (id ∷ accounts) enqueued = do
    next ← enqueue_one id enqueued
    enqueue_all accounts next

  unfoldable pub report : ℕ → ℕ → Exec W SafetyPollResult
  report accounts enqueued =
      let failed = accounts - enqueued in
      if ltb 0 failed
      then throw (poll_error failed accounts)
      else pure (record { accounts = accounts; enqueued = enqueued })

  unfoldable pub run : Exec W SafetyPollResult
  run = do
    accounts ← find_active
    enqueued ← enqueue_all accounts 0
    report (length accounts) enqueued

-- For a test that polls.
unfoldable pub polls : Unit {0}
unfolding ◌>>=◌ catch enqueue_one enqueue_all report run numerals
polls = tt
