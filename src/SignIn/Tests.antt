-- ===== src/SignIn/Tests.antt =====
-- A sign-in whose watch cannot be registered.
use coupi.Prelude.{◌≡◌, refl, none, some, [], units}
use coupi.Domain.{active, reauth_required}
use coupi.Effects.{ok, thrown, other_error}
use coupi.Accounts.Tests.{Rows, renewing, one}
use coupi.Sessions.{Jwt}
use coupi.SignIn.{SignInCalls, ConnectResult, conflict, connect, signing_in}
use coupi.SignIn.Connected.{IsConnected, connect-IsConnected}

-- A library that signs nothing but the kind of a token.
abbrev jwt : Jwt
jwt = record {
  sign = λ at c ttl. c.typ;
  verify = λ at s. some (record { sub = some (units "u"); nonce = none; typ = s });
}

abbrev calls : SignInCalls Rows
calls = record {
  gmail_auth_url = λ s. s;
  exchange_code_for_token = λ code w. (
    ok (record { access_token = units "t"; refresh_token = units "r"; expires_at = 9; scope = [] }),
    w,
  );
  fetch_account_email = λ token w. (ok (units "me@x.kr"), w);
  register_watch = λ token w. (thrown (other_error (some 503) []), w);
  upsert_user = λ email w. (ok (units "u"), w);
  find_existing =
      λ user email w. (ok (some (record { id = units "a"; status = some reauth_required })), w);
  create_account = λ row w. (ok (units "b"), w);
  iso_string = λ at. [];
}

abbrev signed_in : ConnectResult
signed_in = record {
  mail_account_id = units "a";
  email = units "me@x.kr";
  access_token = units "session";
}

signed_in_again : (connect renewing calls jwt (units "code") (units "state") one).0 ≡ ok signed_in
unfolding signing_in
signed_in_again = refl

connect-IsConnected_example : IsConnected renewing calls jwt (units "state") signed_in
unfolding signing_in
connect-IsConnected_example =
    connect-IsConnected renewing calls jwt (units "code") (units "state") signed_in one
      (connect renewing calls jwt (units "code") (units "state") one).1 refl

-- The same with an account that is active.
refused :
    connect renewing
      (record calls {
        find_existing =
            λ user email w. (ok (some (record { id = units "a"; status = some active })), w);
      })
      jwt
      (units "code")
      (units "state")
      one
    ≡ (thrown conflict, one)
unfolding signing_in
refused = refl
