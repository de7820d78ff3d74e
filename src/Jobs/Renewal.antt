-- ===== src/Jobs/Renewal.antt =====
-- backend/src/jobs/gmail-watch-renewal.job.ts: the watches of the active accounts are renewed before
-- they expire. The token service is the one of Accounts.
pub mod Counts
pub mod Failures
use coupi.Prelude.{
  ℕ, ◌+◌, ◌*◌, Bool, true, false, Option, none, some, List, [], ◌∷◌, ltb, leb, if◌then◌else◌, Text,
  truthy,
}
use coupi.Instants.{day_ms}
use coupi.Effects.{
  Exec, Thrown, reauth_required_error, history_expired_error, unique_violation, out_of_fuel,
  other_error, pure, catch, ◌>>=◌, ◌>>◌,
}
use coupi.Gmail.{ProviderTokenSet, WatchHandle}
use coupi.Accounts.{
  AccountWorld, CursorJson, MailAccountWithToken, parse_cursor, no_change, load_active, save_watch,
  mark_reauth_required, accounts,
}

abbrev pub renew_within_days : ℕ
renew_within_days = 3

abbrev pub max_consecutive_failures : ℕ
max_consecutive_failures = 3

pub record WatchRenewalResult : Type 0 where
  pub checked : ℕ
  pub renewed : ℕ
  pub failed : ℕ
  pub reauth_required : ℕ

-- What `renew` answers.
pub data Renewal : Type 0 where
  renewed failed reauth_required : Renewal

-- What the query for the active Gmail accounts selects.
pub record RenewalRow : Type 0 where
  pub id : Text
  pub cursor : CursorJson
  pub consecutive_failures : Option ℕ

-- What the job calls besides the token service: the query, the Gmail client, and `toISOString()` of
-- an instant and `new Date(...).getTime()` of a text, which is none where it is NaN.
pub record RenewalCalls (W : Type 0) : Type 0 where
  pub find_active : Exec W (List RenewalRow)
  pub register_watch : ProviderTokenSet → Exec W WatchHandle
  pub iso_string : ℕ → Text
  pub time_of : Text → Option ℕ

abbrev pub or_zero : Option ℕ → ℕ
or_zero none = 0
or_zero (some n) = n

-- `getTime() > deadline`, which NaN is not.
abbrev pub is_later : Option ℕ → ℕ → Bool
is_later none deadline = false
is_later (some at) deadline = ltb deadline at

abbrev count_outcome : Renewal → WatchRenewalResult → WatchRenewalResult
count_outcome renewed r = record r { renewed = r.renewed + 1 }
count_outcome failed r = record r { failed = r.failed + 1 }
count_outcome reauth_required r = record r { reauth_required = r.reauth_required + 1 }

-- `result.checked += 1` and `result[outcome] += 1`
abbrev pub count : Renewal → WatchRenewalResult → WatchRenewalResult
count outcome r = count_outcome outcome (record r { checked = r.checked + 1 })

abbrev pub nothing_checked : WatchRenewalResult
nothing_checked = record { checked = 0; renewed = 0; failed = 0; reauth_required = 0 }

abbrev pub deadline_of : ℕ → ℕ
deadline_of now = now + renew_within_days * day_ms

module _ {W : Type 0} (world : AccountWorld W) (calls : RenewalCalls W) where
  -- A watch whose known time of expiry is behind the deadline is left alone.
  unfoldable pub can_wait : ℕ → Option Text → Bool
  can_wait deadline none = false
  can_wait deadline (some at) = is_later (calls.time_of at) deadline

  unfoldable pub count_failure : Text → ℕ → Exec W Renewal
  count_failure id failures =
      if leb max_consecutive_failures failures
      then (do mark_reauth_required world id; pure reauth_required)
      else (do
        world.update_account id (record no_change { consecutive_failures = some failures })
        pure failed)

  -- The `catch` block of `renew`.
  unfoldable pub renew_failed : Text → ℕ → Thrown → Exec W Renewal
  renew_failed id consecutive_failures (reauth_required_error reason) = do
    mark_reauth_required world id
    pure reauth_required
  renew_failed id consecutive_failures (history_expired_error cursor) =
      count_failure id (consecutive_failures + 1)
  renew_failed id consecutive_failures unique_violation =
      count_failure id (consecutive_failures + 1)
  renew_failed id consecutive_failures out_of_fuel = count_failure id (consecutive_failures + 1)
  renew_failed id consecutive_failures (other_error status m) =
      count_failure id (consecutive_failures + 1)

  unfoldable pub renew_account : Text → ℕ → Option MailAccountWithToken → Exec W Renewal
  renew_account id consecutive_failures none = pure reauth_required
  renew_account id consecutive_failures (some account) =
      catch
        (do
          handle ← calls.register_watch account.token
          save_watch world id handle.history_id (calls.iso_string handle.expires_at)
          pure renewed)
        (renew_failed id consecutive_failures)

  unfoldable pub renew : Text → ℕ → Exec W Renewal
  renew id consecutive_failures = do
    account ← load_active world id
    renew_account id consecutive_failures account

  unfoldable pub renew_or_wait : Bool → RenewalRow → WatchRenewalResult → Exec W WatchRenewalResult
  renew_or_wait true row r = pure r
  renew_or_wait false row r = do
    outcome ← renew row.id (or_zero row.consecutive_failures)
    pure (count outcome r)

  -- The loop of `run`.
  unfoldable pub renew_all : ℕ → List RenewalRow → WatchRenewalResult → Exec W WatchRenewalResult
  renew_all deadline [] r = pure r
  renew_all deadline (row ∷ rows) r = do
    next ←
        renew_or_wait (can_wait deadline (truthy (parse_cursor row.cursor).watch_expires_at)) row r
    renew_all deadline rows next

  unfoldable pub run : ℕ → Exec W WatchRenewalResult
  run now = do rows ← calls.find_active; renew_all (deadline_of now) rows nothing_checked

-- For a test that renews watches.
unfoldable pub renewal : Unit {0}
unfolding ◌>>=◌ catch accounts can_wait count_failure renew_failed renew_account renew renew_or_wait
    renew_all run
renewal = tt
