-- ===== src/Accounts/Tests.antt =====
-- The account methods over a table of one account.
use coupi.Prelude.{◌≡◌, refl, sym, ap, Option, none, some, Text, [], units, text_eq, if◌then◌else◌}
use coupi.Domain.{active}
use coupi.Effects.{Exec, Result, ok, thrown, reauth_required_error}
use coupi.Gmail.{ProviderTokenSet}
use coupi.Accounts.{
  AccountWorld, MailAccount, MailAccountUpdate, MailAccountWithToken, object, text_field,
  other_field, save_cursor, load_active, accounts,
}
use coupi.Accounts.Updates.{updated, updated_row, IsAccountTable}
use coupi.Accounts.Disconnect.{DisconnectResult, disconnect, disconnecting}
use coupi.Accounts.Disconnect.Revoked.{
  IsDisconnected, disconnect-IsDisconnected, load_active-disconnect,
}

abbrev pub row : MailAccount
row = record {
  id = units "a";
  user_id = units "u";
  provider_account_email = units "me@x.kr";
  encrypted_refresh_token = some (units "r");
  encrypted_access_token = none;
  access_token_expires_at = none;
  cursor = object (text_field (units "7")) other_field;
  status = some active;
  consecutive_failures = some 2;
}

-- A table as a function of the id.
abbrev pub Rows : Type 0
Rows = Text → Option MailAccount

abbrev update : Text → MailAccountUpdate → Exec Rows (Unit {0})
update id u w = (ok tt, λ j. if text_eq j id then updated_row u (w j) else w j)

-- Google has revoked the refresh token.
abbrev pub world : AccountWorld Rows
world = record {
  find_account = λ id w. (ok (w id), w);
  update_account = update;
  encrypt = λ s w. (ok s, w);
  decrypt = λ s w. (ok s, w);
  refresh_access_token = λ t w. (thrown (reauth_required_error (units "revoked")), w);
  now = λ w. (ok 0, w);
}

abbrev pub rows : Rows → Text → Option MailAccount
rows w = w

abbrev pub one : Rows
one j = if text_eq j (units "a") then some row else none

world-find_row :
    (id : Text) (w w' : Rows) (found : Option MailAccount)
    → world.find_account id w ≡ (ok found, w')
    → (found ≡ rows w id) × (rows w' ≡ rows w)
world-find_row id w w' found e = let a : w id ≡ found = cc in let b : w ≡ w' = cc in (sym a, sym b)

world-update_row :
    (id : Text) (u : MailAccountUpdate) (w w' : Rows)
    → world.update_account id u w ≡ (ok tt, w')
    → (j : Text) → rows w' j ≡ (if text_eq j id then updated_row u (rows w j) else rows w j)
world-update_row id u w w' e j = ap (λ (p : Result (Unit {0}) × Rows). p.1 j) (sym e)

pub world-IsAccountTable : IsAccountTable world rows
world-IsAccountTable = record {
  find_row = world-find_row;
  update_row = world-update_row;
  refresh_rows = λ t w. refl;
}

abbrev renewed : ProviderTokenSet
renewed = record { access_token = units "t"; refresh_token = units "r"; expires_at = 9; scope = [] }

-- A world in which the refresh succeeds.
abbrev pub renewing : AccountWorld Rows
renewing = record world { refresh_access_token = λ t w. (ok renewed, w) }

abbrev loaded : MailAccountWithToken
loaded = record {
  id = units "a";
  user_id = units "u";
  provider_account_email = units "me@x.kr";
  cursor = record { history_id = some (units "7"); watch_expires_at = none };
  token = renewed;
}

abbrev revoke : Text → Exec Rows (Unit {0})
revoke t w = (ok tt, w)

abbrev without_account : Rows
without_account = (disconnect world revoke (units "u") (units "a") one).1

disconnect-IsDisconnected_example :
    (DisconnectResult.ok ≡ DisconnectResult.ok)
    × IsDisconnected world revoke rows world-IsAccountTable
        (λ t w. refl)
        (λ t w. refl)
        (units "a")
        row
        DisconnectResult.ok
        one
        without_account
unfolding disconnecting
disconnect-IsDisconnected_example =
    disconnect-IsDisconnected world revoke rows world-IsAccountTable (λ t w. refl) (λ t w. refl)
      (units "u") (units "a") row DisconnectResult.ok one without_account refl refl

load_active-disconnect_example :
    (◌≡◌ {A = Option MailAccountWithToken} none none)
    × (rows (load_active world (units "a") without_account).1 ≡ rows without_account)
unfolding disconnecting updated
load_active-disconnect_example =
    load_active-disconnect world revoke rows world-IsAccountTable (λ t w. refl) (λ t w. refl)
      (units "u") (units "a") row none one without_account
      (load_active world (units "a") without_account).1 refl refl refl

loaded_test : (load_active renewing (units "a") one).0 ≡ ok (some loaded)
unfolding accounts text_eq
loaded_test = refl

saved_test :
    (save_cursor world (units "a") (units "9") one).1 (units "a")
    ≡ some (record row {
      cursor = object (text_field (units "9")) other_field;
      consecutive_failures = some 0;
    })
unfolding accounts text_eq updated
saved_test = refl
