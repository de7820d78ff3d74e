-- ===== src/Accounts/Loading.antt =====
-- Which accounts are loaded.
use coupi.Prelude.{◌≡◌, true, Option, none, some, Text, truthy, Bool-cases, Option-cases, inl, inr}
use coupi.Effects.{ok}
use coupi.Effects.Calls.{bind-ok, pure-ok}
use coupi.Gmail.{ProviderTokenSet}
use coupi.Accounts.{
  AccountWorld, MailAccount, MailAccountWithToken, is_active_status, parse_cursor, with_token,
  load_row, load_active,
}

module _ {W : Type 0} (world : AccountWorld W) where
  -- What a loaded account was read from.
  pub record IsLoaded (id : Text) (w : W) (loaded : MailAccountWithToken) : Type 0 where
    pub account : MailAccount
    pub w1 : W
    pub encrypted : Text
    pub found : world.find_account id w ≡ (ok (some account), w1)
    pub is_active : is_active_status account.status ≡ true
    pub has_token : truthy account.encrypted_refresh_token ≡ some encrypted
    pub same_id : loaded.id ≡ account.id
    pub same_user : loaded.user_id ≡ account.user_id
    pub same_cursor : loaded.cursor ≡ parse_cursor account.cursor

  with_token-eq-some :
      (account : MailAccount) (token : Option ProviderTokenSet) (loaded : MailAccountWithToken)
      → with_token account token ≡ some loaded
      → (loaded.id ≡ account.id)
        × (loaded.user_id ≡ account.user_id)
        × (loaded.cursor ≡ parse_cursor account.cursor)
  with_token-eq-some account none loaded e = cc
  with_token-eq-some account (some token) loaded e = (cc, cc, cc)

  row-IsLoaded :
      (id : Text) (found : Option MailAccount) (w w1 w' : W) (loaded : MailAccountWithToken)
      → world.find_account id w ≡ (ok found, w1)
      → load_row world id found w1 ≡ (ok (some loaded), w')
      → IsLoaded id w loaded
  unfolding load_row
  row-IsLoaded id none w w1 w' loaded read e = let (nothing, _) = pure-ok _ _ _ _ e in cc
  row-IsLoaded id (some account) w w1 w' loaded read e =
      elim (Bool-cases (is_active_status account.status)) [
        | inr idle ↦ let (nothing, _) = pure-ok _ _ _ _ (rw idle at e) in cc
        | inl act ↦ elim (Option-cases (truthy account.encrypted_refresh_token)) [
          | inl missing ↦
              let (x, u, marked, e1) = bind-ok _ _ _ _ _ (rw (act, missing) at e) in
              let (nothing, _) = pure-ok _ _ _ _ e1 in cc
          | inr (encrypted, has) ↦
              let (r, u, decrypted, e1) = bind-ok _ _ _ _ _ (rw (act, has) at e) in
              let (token, v, given, e2) = bind-ok _ _ _ _ _ e1 in
              let (same, _) = pure-ok _ _ _ _ e2 in
              let (a, b, c) = with_token-eq-some account token loaded same in
              record {
                account = account;
                w1 = w1;
                encrypted = encrypted;
                found = read;
                is_active = act;
                has_token = has;
                same_id = a;
                same_user = b;
                same_cursor = c;
              }
        ]
      ]

  -- Only an account that the database shows as active and with a refresh token is loaded, and it is
  -- loaded with its own user and cursor.
  pub load_active-IsLoaded :
      (id : Text) (w w' : W) (loaded : MailAccountWithToken)
      → load_active world id w ≡ (ok (some loaded), w')
      → IsLoaded id w loaded
  unfolding load_active
  load_active-IsLoaded id w w' loaded e =
      let (found, w1, read, e1) = bind-ok _ _ _ _ _ e in
      row-IsLoaded id found w w1 w' loaded read e1
