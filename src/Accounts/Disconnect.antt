-- ===== src/Accounts/Disconnect.antt =====
-- backend/src/auth/mail-account.service.ts: a user's accounts are listed, and disconnected.
pub mod Revoked
use coupi.Prelude.{
  ℕ, Bool, true, false, ◌||◌, not, Option, none, some, List, [], ◌∷◌, map, if◌then◌else◌, Text,
  units, text_eq, truthy,
}
use coupi.Domain.{MailAccountStatus, active, reauth_required, auth_failed, revoked}
use coupi.Effects
use coupi.Effects.{Result, thrown, other_error, Exec, pure, ◌>>=◌, ◌>>◌}
use coupi.Accounts.{AccountWorld, MailAccount, no_change, accounts}

pub data DisconnectResult : Type 0 where
  ok not_found forbidden : DisconnectResult

-- `connected_at` is a text in ISO 8601.
pub record MailAccountSummary : Type 0 where
  pub id : Text
  pub email : Text
  pub status : MailAccountStatus
  pub needs_reauth : Bool
  pub connected_at : Text

-- What `list` selects, of the accounts of the user that are not revoked, the oldest first.
pub record AccountRow : Type 0 where
  pub id : Text
  pub provider_account_email : Text
  pub status : Option MailAccountStatus
  pub created_at : ℕ

-- `row.status ?? 'active'`
abbrev status_or_active : Option MailAccountStatus → MailAccountStatus
status_or_active none = active
status_or_active (some s) = s

unfoldable pub needs_reauth : MailAccountStatus → Bool
needs_reauth active = false
needs_reauth reauth_required = true
needs_reauth auth_failed = true
needs_reauth revoked = false

unfoldable pub summary : (ℕ → Text) → AccountRow → MailAccountSummary
summary iso_string row = record {
  id = row.id;
  email = row.provider_account_email;
  status = status_or_active row.status;
  needs_reauth = needs_reauth (status_or_active row.status);
  connected_at = iso_string row.created_at;
}

unfoldable pub list :
    {W : Type 0}
    → (Text → Exec W (List AccountRow))
    → (ℕ → Text)
    → Text
    → Exec W (List MailAccountSummary)
list find_accounts iso_string user_id = do
  rows ← find_accounts user_id
  pure (map (summary iso_string) rows)

-- `revoke_token` is the Gmail client's.
module _ {W : Type 0} (world : AccountWorld W) (revoke_token : Text → Exec W (Unit {0})) where
  unfoldable pub revoke_stored : Option Text → Exec W (Unit {0})
  revoke_stored none = pure tt
  revoke_stored (some encrypted) = do
    refresh_token ← world.decrypt encrypted
    revoke_token refresh_token

  -- `disconnect` behind its query and the test of the owner.
  unfoldable pub disconnect_owned : Text → MailAccount → Exec W DisconnectResult
  disconnect_owned id account = do
    world.update_account id (record no_change { status = some revoked })
    revoke_stored (truthy account.encrypted_refresh_token)
    world.update_account id (record no_change {
      encrypted_refresh_token = some none;
      encrypted_access_token = some none;
    })
    pure ok

  unfoldable pub disconnect_row : Text → Text → Option MailAccount → Exec W DisconnectResult
  disconnect_row user_id id none = pure not_found
  disconnect_row user_id id (some account) =
      if not (text_eq account.user_id user_id) then pure forbidden else disconnect_owned id account

  unfoldable pub disconnect : Text → Text → Exec W DisconnectResult
  disconnect user_id id = do account ← world.find_account id; disconnect_row user_id id account

-- The answer of mail-accounts.controller.ts to a disconnection: nothing, or an HTTP error.
unfoldable pub disconnect_answer : DisconnectResult → Result (Unit {0})
disconnect_answer ok = Effects.ok tt
disconnect_answer not_found = thrown (other_error (some 404) (units "Not Found"))
disconnect_answer forbidden = thrown (other_error (some 403) (units "Forbidden"))

-- For a test that disconnects an account.
unfoldable pub disconnecting : Unit {0}
unfolding ◌>>=◌ accounts revoke_stored disconnect_owned disconnect_row disconnect text_eq
disconnecting = tt
