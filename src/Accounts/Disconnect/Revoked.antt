-- ===== src/Accounts/Disconnect/Revoked.antt =====
-- What a disconnection leaves in the table of the accounts.
use coupi.Prelude.{
  ◌≡◌, refl, sym, ap, ◌∙◌, false, Option, none, some, if◌then◌else◌, Text, text_eq, Bool-cases, inl,
  inr,
}
use coupi.Domain.{revoked}
use coupi.Effects
use coupi.Effects.{Exec, Result, Thrown, thrown, pure, resume, ◌>>=◌}
use coupi.Effects.Calls.{bind-ok, pure-ok}
use coupi.Accounts.{AccountWorld, MailAccount, MailAccountWithToken, load_row, load_active}
use coupi.Accounts.Updates.{updated, IsAccountTable, update_self, update_other}
use coupi.Accounts.Disconnect.{
  DisconnectResult, ok, not_found, forbidden, revoke_stored, disconnect_owned, disconnect_row,
  disconnect,
}

-- A row that is disconnected.
abbrev pub disconnected : MailAccount → MailAccount
disconnected row = record row {
  status = some revoked;
  encrypted_refresh_token = none;
  encrypted_access_token = none;
}

module _ {W : Type 0} (world : AccountWorld W) (revoke_token : Text → Exec W (Unit {0}))
    (rows : W → Text → Option MailAccount) (table : IsAccountTable world rows)
    (decrypt_rows : (t : Text) (w : W) → rows (world.decrypt t w).1 ≡ rows w)
    (revoke_rows : (t : Text) (w : W) → rows (revoke_token t w).1 ≡ rows w) where
  revoke_stored-rows :
      (token : Option Text) (w w' : W)
      → revoke_stored world revoke_token token w ≡ (Effects.ok tt, w')
      → rows w' ≡ rows w
  unfolding revoke_stored
  revoke_stored-rows none w w' e = let (x, end) = pure-ok _ _ _ _ e in ap rows (sym end)
  revoke_stored-rows (some t) w w' e =
      let (token, w1, decrypted, e1) = bind-ok _ _ _ _ _ e in
      sym (ap (λ r. rows r.1) e1)
      ∙ revoke_rows token w1
      ∙ sym (ap (λ r. rows r.1) decrypted)
      ∙ decrypt_rows t w

  -- What is left of the account, by the answer.
  abbrev pub IsDisconnected : Text → MailAccount → DisconnectResult → W → W → Type 0
  IsDisconnected id row ok w w' =
      (rows w' id ≡ some (disconnected row))
      × ((j : Text) → text_eq j id ≡ false → rows w' j ≡ rows w j)
  IsDisconnected id row not_found w w' = ⊥
  IsDisconnected id row forbidden w w' = rows w' ≡ rows w

  owned-IsDisconnected :
      (id : Text) (row : MailAccount) (r : DisconnectResult) (w w' : W)
      → rows w id ≡ some row
      → disconnect_owned world revoke_token id row w ≡ (Effects.ok r, w')
      → (r ≡ ok) × IsDisconnected id row ok w w'
  unfolding disconnect_owned updated
  owned-IsDisconnected id row r w w' at e =
      let (x, w1, stopped, e1) = bind-ok _ _ _ _ _ e in
      let (y, w2, told, e2) = bind-ok _ _ _ _ _ e1 in
      let (z, w3, cleared, e3) = bind-ok _ _ _ _ _ e2 in
      let (same, end) = pure-ok _ _ _ _ e3 in
      let kept = revoke_stored-rows _ w1 w2 told in
      let here = ap (λ f. f id) kept ∙ update_self world rows table id _ w w1 row at stopped in
      (
        sym same,
        (
          ap (λ v. rows v id) (sym end) ∙ update_self world rows table id _ w2 w3 _ here cleared,
          λ j other.
              ap (λ v. rows v j) (sym end)
              ∙ update_other world rows table id _ w2 w3 cleared j other
              ∙ ap (λ f. f j) kept
              ∙ update_other world rows table id _ w w1 stopped j other,
        ),
      )

  row-IsDisconnected :
      (user_id id : Text) (row : MailAccount) (r : DisconnectResult) (w w' : W)
      → rows w id ≡ some row
      → disconnect_row world revoke_token user_id id (some row) w ≡ (Effects.ok r, w')
      → (r ≡ (if text_eq row.user_id user_id then ok else forbidden)) × IsDisconnected id row r w w'
  unfolding disconnect_row
  row-IsDisconnected user_id id row r w w' at e = elim (Bool-cases (text_eq row.user_id user_id)) [
    | inl own ↦
        let (same, done) = owned-IsDisconnected id row r w w' at (rw own at e) in
        rw (own, same) (refl, done)
    | inr other ↦
        let (same, end) = pure-ok _ _ _ _ (rw other at e) in
        rw (other, sym same) (refl, ap rows (sym end))
  ]

  IsDisconnected-kept :
      (id : Text) (row : MailAccount) (r : DisconnectResult) (w w1 w' : W)
      → rows w1 ≡ rows w
      → IsDisconnected id row r w1 w'
      → IsDisconnected id row r w w'
  IsDisconnected-kept id row ok w w1 w' kept (here, others) =
      (here, λ j other. others j other ∙ ap (λ f. f j) kept)
  IsDisconnected-kept id row not_found w w1 w' kept h = h
  IsDisconnected-kept id row forbidden w w1 w' kept h = h ∙ kept

  -- A disconnection that returns, of an account that the table holds, is refused to a user who is not
  -- its owner, and then changes no account; to the owner it answers ok, and leaves the account revoked
  -- and without tokens, and all others as they were, if decrypting and revoking a token change no
  -- account.
  pub disconnect-IsDisconnected :
      (user_id id : Text) (row : MailAccount) (r : DisconnectResult) (w w' : W)
      → rows w id ≡ some row
      → disconnect world revoke_token user_id id w ≡ (Effects.ok r, w')
      → (r ≡ (if text_eq row.user_id user_id then ok else forbidden)) × IsDisconnected id row r w w'
  unfolding disconnect
  disconnect-IsDisconnected user_id id row r w w' at e =
      let (found, w1, read, e1) = bind-ok _ _ _ _ _ e in
      let (same, kept) = table.find_row id w w1 found read in
      let (answer, done) =
        row-IsDisconnected user_id id row r w1 w' (ap (λ f. f id) kept ∙ at)
          (rw (same ∙ at) at e1) in
      (answer, IsDisconnected-kept id row r w w1 w' kept done)

  load_row-disconnected :
      (id : Text) (row : MailAccount) (w w' : W) (loaded : Option MailAccountWithToken)
      → load_row world id (some (disconnected row)) w ≡ (Effects.ok loaded, w')
      → (loaded ≡ none) × (rows w' ≡ rows w)
  unfolding load_row
  load_row-disconnected id row w w' loaded e =
      let (nothing, end) = pure-ok _ _ _ _ e in (sym nothing, ap rows (sym end))

  -- Once a disconnection of an account that the table holds has answered ok, loading the account for a
  -- queued task, if it returns, gives nothing and changes no account, provided that decrypting and
  -- revoking a token change none either.
  pub load_active-disconnect :
      (user_id id : Text) (row : MailAccount) (loaded : Option MailAccountWithToken) (w w1 w2 : W)
      → rows w id ≡ some row
      → disconnect world revoke_token user_id id w ≡ (Effects.ok ok, w1)
      → load_active world id w1 ≡ (Effects.ok loaded, w2)
      → (loaded ≡ none) × (rows w2 ≡ rows w1)
  unfolding load_active
  load_active-disconnect user_id id row loaded w w1 w2 at done load =
      let (_, (there, _)) = disconnect-IsDisconnected user_id id row ok w w1 at done in
      let (found, w3, read, e1) = bind-ok _ _ _ _ _ load in
      let (same, kept) = table.find_row id w1 w3 found read in
      let (nothing, quiet) = load_row-disconnected id row w3 w2 loaded (rw (same ∙ there) at e1) in
      (nothing, quiet ∙ kept)
