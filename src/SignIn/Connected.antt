-- ===== src/SignIn/Connected.antt =====
-- What a sign-in that returns has done.
use coupi.Prelude.{ℕ, ◌≡◌, refl, sym, ap, ◌∙◌, false, Option, Text, Bool-cases, inl, inr}
use coupi.Effects.{Result, ok, thrown, throw}
use coupi.Effects.Calls.{bind-ok, pure-ok}
use coupi.Gmail.{ProviderTokenSet}
use coupi.Accounts.{AccountWorld}
use coupi.Sessions.{Jwt, issue_session, verify_state}
use coupi.SignIn.{
  SignInCalls, ConnectResult, ExistingAccount, is_connected, lift, connect_account, connect,
}

module _ {W : Type 0} (world : AccountWorld W) (calls : SignInCalls W) (jwt : Jwt) where
  lift-ok : (r : Result (Unit {0})) (w w' : W) (x : Unit {0}) → lift r w ≡ (ok x, w') → r ≡ ok tt
  unfolding lift throw
  lift-ok (ok y) w w' x e = refl
  lift-ok (thrown y) w w' x e = cc

  connect_account-ok :
      (token : ProviderTokenSet) (email user_id : Text) (existing : Option ExistingAccount)
      (r : ConnectResult) (w w' : W)
      → connect_account world calls jwt token email user_id existing w ≡ (ok r, w')
      → (is_connected existing ≡ false)
        × (r.email ≡ email)
        × (at : ℕ) × (r.access_token ≡ issue_session jwt at user_id)
  unfolding connect_account throw
  connect_account-ok token email user_id existing r w w' e =
      elim (Bool-cases (is_connected existing)) [
        | inl connected ↦ cc (rw connected at e)
        | inr new ↦
            let (tokens, v1, encrypted, e1) = bind-ok _ _ _ _ _ (rw new at e) in
            let (id, v2, stored, e2) = bind-ok _ _ _ _ _ e1 in
            let (x, v3, registered, e3) = bind-ok _ _ _ _ _ e2 in
            let (at, v4, told, e4) = bind-ok _ _ _ _ _ e3 in
            let (same, end) = pure-ok _ _ _ _ e4 in
            (
              new,
              ap (λ (c : ConnectResult). c.email) (sym same),
              at,
              ap (λ (c : ConnectResult). c.access_token) (sym same),
            )
      ]

  -- What a sign-in that returns has gone through.
  pub record IsConnected (state : Text) (r : ConnectResult) : Type 0 where
    pub user_id : Text
    pub verified_at : ℕ
    pub issued_at : ℕ
    pub w1 : W
    pub w2 : W
    pub existing : Option ExistingAccount
    pub verified : verify_state jwt verified_at state ≡ ok tt
    pub found : calls.find_existing user_id r.email w1 ≡ (ok existing, w2)
    pub not_connected : is_connected existing ≡ false
    pub issued : r.access_token ≡ issue_session jwt issued_at user_id

  -- A sign-in that returns had a state that verifies, found no active account of the user with that
  -- address, and gives a session of that user.
  pub connect-IsConnected :
      (code state : Text) (r : ConnectResult) (w w' : W)
      → connect world calls jwt code state w ≡ (ok r, w')
      → IsConnected state r
  unfolding connect
  connect-IsConnected code state r w w' e =
      let (now, v1, told, e1) = bind-ok _ _ _ _ _ e in
      let (x, v2, checked, e2) = bind-ok _ _ _ _ _ e1 in
      let (token, v3, exchanged, e3) = bind-ok _ _ _ _ _ e2 in
      let (email, v4, fetched, e4) = bind-ok _ _ _ _ _ e3 in
      let (user_id, v5, upserted, e5) = bind-ok _ _ _ _ _ e4 in
      let (existing, v6, found, e6) = bind-ok _ _ _ _ _ e5 in
      let (free, same_email, at, issued) =
        connect_account-ok token email user_id existing r v6 w' e6 in
      record {
        user_id = user_id;
        verified_at = now;
        issued_at = at;
        w1 = v5;
        w2 = v6;
        existing = existing;
        verified = lift-ok _ v1 v2 x checked;
        found = ap (λ x. calls.find_existing user_id x v5) same_email ∙ found;
        not_connected = free;
        issued = issued;
      }
