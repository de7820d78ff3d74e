-- ===== src/MailIngest.antt =====
-- backend/src/mail-ingest/mail-ingest.service.ts: the new mails of an account, as far as the rule
-- filter passes them, are recorded and handed to the classifier.
pub mod Counts
pub mod Redelivery
pub mod Twice
pub mod Tests
use coupi.Prelude.{
  ℕ, ◌+◌, ◌-◌, ◌*◌, Bool, true, false, not, Option, none, some, List, [], ◌∷◌, length, take,
  text_eq, if◌then◌else◌, Text, truthy,
}
use coupi.Domain.{MailIngestMessage}
use coupi.Instants.{hour_ms}
use coupi.Effects.{
  Exec, Thrown, reauth_required_error, history_expired_error, unique_violation, out_of_fuel,
  other_error, message_of, pure, throw, catch, on_left, on_right, ◌>>=◌, ◌>>◌,
}
use coupi.Gmail.{ProviderTokenSet, RawMailMessage, FetchResult}
use coupi.Accounts.{MailAccountWithToken}
use coupi.Classifier.RuleFilter.{
  RuleCache, RuleFilterInput, RuleFilterResult, apply_rules, rule_filter,
}

abbrev pub resync_window_hours : ℕ
resync_window_hours = 24

pub data IngestSkip : Type 0 where
  inactive no_cursor : IngestSkip

pub record IngestOutcome : Type 0 where
  pub fetched : ℕ
  pub passed_filter : ℕ
  pub recorded : ℕ
  pub resynced : Bool
  pub skipped : Option IngestSkip

-- The row that is created; its filter result is 'passed'.
pub record NewMail : Type 0 where
  pub mail_account_id : Text
  pub provider_message_id : Text
  pub sender : Text
  pub subject : Text
  pub received_at : ℕ

-- What the handler calls besides the publisher: the token service, the Gmail client, the rules of the
-- filter (`getRules`), the table processed_mails and `Date.now()`.
pub record IngestWorld (W : Type 0) : Type 0 where
  pub load_active : Text → Exec W (Option MailAccountWithToken)
  pub save_cursor : Text → Text → Exec W (Unit {0})
  pub mark_reauth_required : Text → Exec W (Unit {0})
  pub fetch_new_messages : ProviderTokenSet → Text → Exec W FetchResult
  pub fetch_messages_since : ProviderTokenSet → ℕ → Exec W FetchResult
  pub get_rules : Exec W RuleCache
  pub find_mail : Text → Text → Exec W (Option Text)
  pub create_mail : NewMail → Exec W Text
  pub now : Exec W ℕ

abbrev pub inactive_outcome : IngestOutcome
inactive_outcome = record {
  fetched = 0;
  passed_filter = 0;
  recorded = 0;
  resynced = false;
  skipped = some inactive;
}

-- The counters of `record`.
pub record Tally : Type 0 where
  pub passed_filter : ℕ
  pub recorded : ℕ

abbrev pub filter_input : Text → RawMailMessage → RuleFilterInput
filter_input user_id m = record {
  user_id = user_id;
  sender = m.sender;
  subject = m.subject;
  body_text = none;
}

abbrev pub new_mail : Text → RawMailMessage → NewMail
new_mail account_id m = record {
  mail_account_id = account_id;
  provider_message_id = m.provider_message_id;
  sender = m.sender;
  subject = take 998 m.subject;
  received_at = m.received_at;
}

-- `isUniqueViolation(error) ? null : throw`
unfoldable pub null_if_duplicate : {W : Type 0} → Thrown → Exec W (Option Text)
null_if_duplicate unique_violation = pure none
null_if_duplicate (reauth_required_error reason) = throw (reauth_required_error reason)
null_if_duplicate (history_expired_error cursor) = throw (history_expired_error cursor)
null_if_duplicate out_of_fuel = throw out_of_fuel
null_if_duplicate (other_error status m) = throw (other_error status m)

module _ {W : Type 0} (world : IngestWorld W) where
  unfoldable pub create_or_null : NewMail → Option Text → Exec W (Option Text)
  create_or_null mail (some existing) = pure none
  create_or_null mail none =
      catch (do id ← world.create_mail mail; pure (some id)) null_if_duplicate

  unfoldable pub insert_processed_mail : Text → RawMailMessage → Exec W (Option Text)
  insert_processed_mail account_id m = do
    existing ← world.find_mail account_id m.provider_message_id
    create_or_null (new_mail account_id m) existing

  -- `ruleFilter.apply(...)`, as far as `passed`.
  unfoldable pub passes : Text → RawMailMessage → Exec W Bool
  passes user_id m = do
    rules ← world.get_rules
    pure (apply_rules rules (filter_input user_id m)).passed

  unfoldable pub resync : MailAccountWithToken → Exec W FetchResult
  resync account = do
    now ← world.now
    world.fetch_messages_since account.token (now - resync_window_hours * hour_ms)

  unfoldable pub resync_if_expired : MailAccountWithToken → Thrown → Exec W (FetchResult × Bool)
  resync_if_expired account (history_expired_error cursor) = do
    result ← resync account
    pure (result, true)
  resync_if_expired account (reauth_required_error reason) = throw (reauth_required_error reason)
  resync_if_expired account unique_violation = throw unique_violation
  resync_if_expired account out_of_fuel = throw out_of_fuel
  resync_if_expired account (other_error status m) = throw (other_error status m)

  -- `fetch`, with whether it has resynchronised.
  unfoldable pub fetch_from : MailAccountWithToken → Option Text → Exec W (FetchResult × Bool)
  fetch_from account none = do result ← resync account; pure (result, true)
  fetch_from account (some history_id) =
      catch (do result ← world.fetch_new_messages account.token history_id; pure (result, false))
        (resync_if_expired account)

  unfoldable pub fetch : MailAccountWithToken → Exec W (FetchResult × Bool)
  fetch account = fetch_from account (truthy account.cursor.history_id)

-- `publish` sends a processed mail's id to the topic of the classifier.
module _ {W Q : Type 0} (world : IngestWorld W) (publish : Text → Exec Q (Unit {0})) where
  unfoldable pub publish_new : Option Text → Tally → Exec (W × Q) Tally
  publish_new none t = pure t
  publish_new (some id) t = do on_right (publish id); pure (record t { recorded = t.recorded + 1 })

  unfoldable pub record_passed : Bool → Text → RawMailMessage → Tally → Exec (W × Q) Tally
  record_passed false account_id m t = pure t
  record_passed true account_id m t = do
    id ← on_left (insert_processed_mail world account_id m)
    publish_new id (record t { passed_filter = t.passed_filter + 1 })

  -- The loop of `record`.
  unfoldable pub record_messages :
      MailAccountWithToken → List RawMailMessage → Tally → Exec (W × Q) Tally
  record_messages account [] t = pure t
  record_messages account (m ∷ messages) t = do
    passed ← on_left (passes world account.user_id m)
    next ← record_passed passed account.id m t
    record_messages account messages next

  -- `if (result.nextCursor.historyId) saveCursor(...)`
  unfoldable pub save_next : Text → Option Text → Exec (W × Q) (Unit {0})
  save_next account_id none = pure tt
  save_next account_id (some history_id) = on_left (world.save_cursor account_id history_id)

  -- The `try` block of `handle`.
  unfoldable pub ingest : MailAccountWithToken → Exec (W × Q) IngestOutcome
  ingest account = do
    (result, resynced) ← on_left (fetch world account)
    t ← record_messages account result.messages (record { passed_filter = 0; recorded = 0 })
    save_next account.id (truthy (some result.next_cursor))
    pure (record {
      fetched = length result.messages;
      passed_filter = t.passed_filter;
      recorded = t.recorded;
      resynced = resynced;
      skipped = none;
    })

  unfoldable pub ingest_failed : Text → Thrown → Exec (W × Q) IngestOutcome
  ingest_failed account_id (reauth_required_error reason) = do
    on_left (world.mark_reauth_required account_id)
    pure inactive_outcome
  ingest_failed account_id (history_expired_error cursor) = throw (history_expired_error cursor)
  ingest_failed account_id unique_violation = throw unique_violation
  ingest_failed account_id out_of_fuel = throw out_of_fuel
  ingest_failed account_id (other_error status m) = throw (other_error status m)

  unfoldable pub handle_account : Option MailAccountWithToken → Exec (W × Q) IngestOutcome
  handle_account none = pure inactive_outcome
  handle_account (some account) = catch (ingest account) (ingest_failed account.id)

  unfoldable pub handle : MailIngestMessage → Exec (W × Q) IngestOutcome
  handle message = do
    account ← on_left (world.load_active message.mail_account_id)
    handle_account account

-- For a test that ingests mails.
unfoldable pub ingesting : Unit {0}
unfolding ◌>>=◌ catch on_left on_right null_if_duplicate create_or_null insert_processed_mail passes
    resync resync_if_expired fetch_from fetch publish_new record_passed record_messages save_next
    ingest ingest_failed handle_account handle rule_filter text_eq
ingesting = tt
