-- ===== src/SignIn.antt =====
-- backend/src/auth/auth.service.ts: a Gmail account is connected, which is also how a user signs in.
pub mod Connected
mod Tests
use coupi.Prelude.{ℕ, Bool, true, false, Option, none, some, if◌then◌else◌, Text, units}
use coupi.Domain.{MailAccountStatus, active}
use coupi.Effects.{Exec, Result, Thrown, ok, thrown, other_error, pure, throw, catch, ◌>>=◌, ◌>>◌}
use coupi.Gmail.{ProviderTokenSet, WatchHandle}
use coupi.Accounts.{AccountWorld, no_change, save_watch, is_active_status, accounts}
use coupi.Sessions.{Jwt, issue_session, issue_state, verify_state, sessions}

pub record AuthUrlResult : Type 0 where
  pub url : Text
  pub state : Text

pub record ConnectResult : Type 0 where
  pub mail_account_id : Text
  pub email : Text
  pub access_token : Text

-- What the query for an account of the user selects.
pub record ExistingAccount : Type 0 where
  pub id : Text
  pub status : Option MailAccountStatus

-- The tokens of an account, encrypted.
pub record EncryptedTokens : Type 0 where
  pub refresh_token : Text
  pub access_token : Text
  pub expires_at : ℕ

-- The row that is created, of the provider 'gmail'.
pub record NewAccount : Type 0 where
  pub user_id : Text
  pub provider_account_email : Text
  pub tokens : EncryptedTokens

-- What the service calls besides the encryption and the token service: the Gmail client, the tables
-- users and mail_accounts, and `toISOString()`.
pub record SignInCalls (W : Type 0) : Type 0 where
  pub gmail_auth_url : Text → Text
  pub exchange_code_for_token : Text → Exec W ProviderTokenSet
  pub fetch_account_email : ProviderTokenSet → Exec W Text
  pub register_watch : ProviderTokenSet → Exec W WatchHandle
  pub upsert_user : Text → Exec W Text
  pub find_existing : Text → Text → Exec W (Option ExistingAccount)
  pub create_account : NewAccount → Exec W Text
  pub iso_string : ℕ → Text

abbrev pub conflict : Thrown
conflict = other_error (some 409) (units "이미 연결된 Gmail 계정이다.")

-- `existing && existing.status === 'active'`
abbrev pub is_connected : Option ExistingAccount → Bool
is_connected none = false
is_connected (some existing) = is_active_status existing.status

-- A call that does not wait, within one that does.
unfoldable pub lift : {W A : Type 0} → Result A → Exec W A
lift (ok a) = pure a
lift (thrown x) = throw x

unfoldable pub get_auth_url : (Text → Text) → Jwt → ℕ → Text → AuthUrlResult
get_auth_url gmail_auth_url jwt now nonce =
    let state = issue_state jwt now nonce in record { url = gmail_auth_url state; state = state }

module _ {W : Type 0} (world : AccountWorld W) (calls : SignInCalls W) (jwt : Jwt) where
  -- A failure to register the watch is swallowed.
  unfoldable pub register_watch : Text → ProviderTokenSet → Exec W (Unit {0})
  register_watch id token =
      catch
        (do
          handle ← calls.register_watch token
          save_watch world id handle.history_id (calls.iso_string handle.expires_at))
        (λ error. pure tt)

  unfoldable pub encrypt_tokens : ProviderTokenSet → Exec W EncryptedTokens
  encrypt_tokens token = do
    refresh_token ← world.encrypt token.refresh_token
    access_token ← world.encrypt token.access_token
    pure (record {
      refresh_token = refresh_token;
      access_token = access_token;
      expires_at = token.expires_at;
    })

  unfoldable pub store_account :
      Option ExistingAccount → Text → Text → EncryptedTokens → Exec W Text
  store_account none user_id email tokens =
      calls.create_account
        (record { user_id = user_id; provider_account_email = email; tokens = tokens })
  store_account (some existing) user_id email tokens = do
    world.update_account existing.id (record no_change {
      encrypted_refresh_token = some (some tokens.refresh_token);
      encrypted_access_token = some (some tokens.access_token);
      access_token_expires_at = some (some tokens.expires_at);
      status = some active;
      consecutive_failures = some 0;
    })
    pure existing.id

  -- `connect` behind the query for an account of the user.
  unfoldable pub connect_account :
      ProviderTokenSet → Text → Text → Option ExistingAccount → Exec W ConnectResult
  connect_account token email user_id existing =
      if is_connected existing then throw conflict else (do
        tokens ← encrypt_tokens token
        id ← store_account existing user_id email tokens
        register_watch id token
        now ← world.now
        pure (record {
          mail_account_id = id;
          email = email;
          access_token = issue_session jwt now user_id;
        }))

  unfoldable pub connect : Text → Text → Exec W ConnectResult
  connect code state = do
    now ← world.now
    lift (verify_state jwt now state)
    token ← calls.exchange_code_for_token code
    email ← calls.fetch_account_email token
    user_id ← calls.upsert_user email
    existing ← calls.find_existing user_id email
    connect_account token email user_id existing

-- For a test that connects an account.
unfoldable pub signing_in : Unit {0}
unfolding ◌>>=◌ accounts sessions lift get_auth_url register_watch encrypt_tokens store_account
    connect_account connect
signing_in = tt
