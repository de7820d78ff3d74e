-- ===== src/Accounts.antt =====
-- backend/src/auth/mail-account-token.service.ts and mail-cursor.ts: the stored Gmail accounts and
-- their tokens. The database, the encryption, the Gmail client and the clock are parameters.
pub mod Loading
pub mod Updates
pub mod Disconnect
pub mod Tests
use coupi.Prelude.{
  ℕ, ◌+◌, ◌*◌, Bool, true, false, ◌||◌, not, Option, none, some, List, [], ◌∷◌, ltb, if◌then◌else◌,
  Text, truthy,
}
use coupi.Domain.{MailAccountStatus, active, reauth_required, auth_failed, revoked}
use coupi.Effects.{
  Exec, Thrown, reauth_required_error, history_expired_error, unique_violation, out_of_fuel,
  other_error, message_of, pure, throw, catch, ◌>>=◌, ◌>>◌,
}
use coupi.Gmail.{ProviderTokenSet}

abbrev pub refresh_skew_ms : ℕ
refresh_skew_ms = 5 * 60 * 1000

-- `watch_expires_at` is a text in ISO 8601.
pub record MailCursor : Type 0 where
  pub history_id : Option Text
  pub watch_expires_at : Option Text

-- The cursor's column, as far as `parseCursor` looks into it: a field is a text or something else.
pub data CursorField : Type 0 where
  text_field : Text → CursorField
  other_field : CursorField

pub data CursorJson : Type 0 where
  no_object : CursorJson
  object : (history_id watch_expires_at : CursorField) → CursorJson

unfoldable pub parse_field : CursorField → Option Text
parse_field (text_field s) = some s
parse_field other_field = none

unfoldable pub parse_cursor : CursorJson → MailCursor
parse_cursor no_object = record { history_id = none; watch_expires_at = none }
parse_cursor (object history_id watch_expires_at) = record {
  history_id = parse_field history_id;
  watch_expires_at = parse_field watch_expires_at;
}

-- A cursor as it is written to the column, where an undefined field is left out.
unfoldable pub field_of : Option Text → CursorField
field_of none = other_field
field_of (some s) = text_field s

unfoldable pub to_json : MailCursor → CursorJson
to_json c = object (field_of c.history_id) (field_of c.watch_expires_at)

pub record MailAccountWithToken : Type 0 where
  pub id : Text
  pub user_id : Text
  pub provider_account_email : Text
  pub cursor : MailCursor
  pub token : ProviderTokenSet

-- A row of mail_accounts.
pub record MailAccount : Type 0 where
  pub id : Text
  pub user_id : Text
  pub provider_account_email : Text
  pub encrypted_refresh_token : Option Text
  pub encrypted_access_token : Option Text
  pub access_token_expires_at : Option ℕ
  pub cursor : CursorJson
  pub status : Option MailAccountStatus
  pub consecutive_failures : Option ℕ

-- The `data` of an update: `none` for a column that is left alone.
pub record MailAccountUpdate : Type 0 where
  pub encrypted_refresh_token : Option (Option Text)
  pub encrypted_access_token : Option (Option Text)
  pub access_token_expires_at : Option (Option ℕ)
  pub cursor : Option CursorJson
  pub status : Option MailAccountStatus
  pub consecutive_failures : Option ℕ

abbrev pub no_change : MailAccountUpdate
no_change = record {
  encrypted_refresh_token = none;
  encrypted_access_token = none;
  access_token_expires_at = none;
  cursor = none;
  status = none;
  consecutive_failures = none;
}

-- The methods call a world: the database client, the encryption service, the Gmail client's renewal
-- of an access token, and `Date.now()`.
pub record AccountWorld (W : Type 0) : Type 0 where
  pub find_account : Text → Exec W (Option MailAccount)
  pub update_account : Text → MailAccountUpdate → Exec W (Unit {0})
  pub encrypt : Text → Exec W Text
  pub decrypt : Text → Exec W Text
  pub refresh_access_token : Text → Exec W ProviderTokenSet
  pub now : Exec W ℕ

abbrev pub is_active_status : Option MailAccountStatus → Bool
is_active_status (some active) = true
is_active_status _ = false

abbrev pub cursor_of : Option MailAccount → MailCursor
cursor_of none = record { history_id = none; watch_expires_at = none }
cursor_of (some account) = parse_cursor account.cursor

-- `needsRefresh`: an access token and its time, if they need no refresh.
unfoldable pub fresh_token : Option Text → Option ℕ → ℕ → Option (Text × ℕ)
fresh_token none expires_at now = none
fresh_token (some []) expires_at now = none
fresh_token (some (c ∷ token)) none now = none
fresh_token (some (c ∷ token)) (some at) now =
    if ltb at (now + refresh_skew_ms) then none else some (c ∷ token, at)

abbrev pub with_token : MailAccount → Option ProviderTokenSet → Option MailAccountWithToken
with_token account none = none
with_token account (some token) = some (record {
  id = account.id;
  user_id = account.user_id;
  provider_account_email = account.provider_account_email;
  cursor = parse_cursor account.cursor;
  token = token;
})

module _ {W : Type 0} (world : AccountWorld W) where
  unfoldable pub mark_reauth_required : Text → Exec W (Unit {0})
  mark_reauth_required id =
      world.update_account id (record no_change { status = some reauth_required })

  unfoldable pub read_cursor : Text → Exec W MailCursor
  read_cursor id = do row ← world.find_account id; pure (cursor_of row)

  unfoldable pub save_cursor : Text → Text → Exec W (Unit {0})
  save_cursor id history_id = do
    cursor ← read_cursor id
    world.update_account id (record no_change {
      cursor = some (to_json (record cursor { history_id = some history_id }));
      consecutive_failures = some 0;
    })

  -- `expires_at` is written by `toISOString()`.
  unfoldable pub save_watch : Text → Text → Text → Exec W (Unit {0})
  save_watch id history_id expires_at = do
    cursor ← read_cursor id
    world.update_account id (record no_change {
      cursor =
          some
            (to_json (record { history_id = some history_id; watch_expires_at = some expires_at }));
    })

  unfoldable pub reauth_or_throw : Text → Thrown → Exec W (Option ProviderTokenSet)
  reauth_or_throw id (reauth_required_error reason) = do mark_reauth_required id; pure none
  reauth_or_throw id (history_expired_error cursor) = throw (history_expired_error cursor)
  reauth_or_throw id unique_violation = throw unique_violation
  reauth_or_throw id out_of_fuel = throw out_of_fuel
  reauth_or_throw id (other_error status m) = throw (other_error status m)

  unfoldable pub refresh_and_store : Text → Text → Exec W (Option ProviderTokenSet)
  refresh_and_store id refresh_token =
      catch
        (do
          refreshed ← world.refresh_access_token refresh_token
          access_token ← world.encrypt refreshed.access_token
          new_refresh_token ← world.encrypt refreshed.refresh_token
          world.update_account id (record no_change {
            encrypted_access_token = some (some access_token);
            encrypted_refresh_token = some (some new_refresh_token);
            access_token_expires_at = some (some refreshed.expires_at);
          })
          pure (some refreshed))
        (reauth_or_throw id)

  -- The token of an account whose refresh token has been decrypted.
  unfoldable pub token_of : Text → MailAccount → Text → Exec W (Option ProviderTokenSet)
  token_of id account refresh_token = do
    now ← world.now
    elim (fresh_token account.encrypted_access_token account.access_token_expires_at now) [
      | none ↦ refresh_and_store id refresh_token
      | some t ↦ do
        access_token ← world.decrypt t.0
        pure (
            some (record {
              access_token = access_token;
              refresh_token = refresh_token;
              expires_at = t.1;
              scope = [];
            }))
    ]

  -- `loadActive` behind its query.
  unfoldable pub load_row : Text → Option MailAccount → Exec W (Option MailAccountWithToken)
  load_row id none = pure none
  load_row id (some account) =
      if not (is_active_status account.status)
      then pure none
      else elim (truthy account.encrypted_refresh_token) [
        | none ↦ do mark_reauth_required id; pure none
        | some encrypted ↦ do
          refresh_token ← world.decrypt encrypted
          token ← token_of id account refresh_token
          pure (with_token account token)
      ]

  unfoldable pub load_active : Text → Exec W (Option MailAccountWithToken)
  load_active id = do account ← world.find_account id; load_row id account

-- For a test that loads an account.
unfoldable pub accounts : Unit {0}
unfolding ◌>>=◌ catch message_of parse_field parse_cursor field_of to_json fresh_token
    mark_reauth_required read_cursor save_cursor save_watch reauth_or_throw refresh_and_store
    token_of load_row load_active
accounts = tt
