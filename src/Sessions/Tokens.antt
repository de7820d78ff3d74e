-- ===== src/Sessions/Tokens.antt =====
-- Which tokens are accepted, and until when.
use coupi.Prelude.{
  ℕ, ◌+◌, ◌/◌, ◌≡◌, ◌≤◌, ◌<◌, ◌⊎◌, refl, Bool, true, false, none, some, ◌∷◌, ◌++◌, Text, text_eq,
  starts_with, drop, length, arith, ltb, Bool-cases, inl, inr,
}
use coupi.Effects.{Result, ok, thrown}
use coupi.Sessions.{
  Jwt, Claims, session_ttl, state_ttl, session_claims, state_claims, session_of, state_of, trim,
  bearer, issue_session, verify_session, issue_state, verify_state, can_activate,
}

-- What the library documents: it counts in whole seconds, a token that it has signed verifies to its
-- claims in the seconds before the one in which its time is up, and not later, and has no white space
-- around it.
pub record IsJwt (jwt : Jwt) : Type 0 where
  pub verified :
      (at later : ℕ) (c : Claims) (ttl : ℕ)
      → later / 1000 < at / 1000 + ttl
      → jwt.verify later (jwt.sign at c ttl) ≡ some c
  pub expired :
      (at later : ℕ) (c : Claims) (ttl : ℕ)
      → at / 1000 + ttl ≤ later / 1000
      → jwt.verify later (jwt.sign at c ttl) ≡ none
  pub trimmed : (at : ℕ) (c : Claims) (ttl : ℕ) → trim (jwt.sign at c ttl) ≡ jwt.sign at c ttl

abbrev is_ok : {A : Type 0} → Result A → Bool
is_ok (ok a) = true
is_ok (thrown x) = false

abbrev pub IsRefused : {A : Type 0} → Result A → Type 0
IsRefused r = is_ok r ≡ false

module _ (jwt : Jwt) (laws : IsJwt jwt) where
  verify-cases :
      (at later ttl : ℕ) (c : Claims)
      → (jwt.verify later (jwt.sign at c ttl) ≡ some c)
        ⊎ (jwt.verify later (jwt.sign at c ttl) ≡ none)
  verify-cases at later ttl c = elim (Bool-cases (ltb (later / 1000) (at / 1000 + ttl))) [
    | inl before ↦ inl (laws.verified at later c ttl (ground arith))
    | inr after ↦ inr (laws.expired at later c ttl (ground arith))
  ]

  bearer-drop : (token : Text) → drop (length bearer) (bearer ++ token) ≡ token
  bearer-drop token = refl

  bearer-starts : (token : Text) → starts_with (bearer ++ token) bearer ≡ true
  unfolding starts_with
  bearer-starts token = refl

  -- With a token library that keeps these laws, the guard gives a request that carries the session of
  -- a user, whose id is not empty, as its bearer token to that user for thirty days, 2592000 seconds,
  -- counted in whole seconds, and refuses it from then on.
  pub can_activate-issue_session :
      (at later c : ℕ) (rest : Text)
      → ((later / 1000 < at / 1000 + 2592000)
          → can_activate jwt later (some (bearer ++ issue_session jwt at (c ∷ rest)))
            ≡ ok (c ∷ rest))
        × ((at / 1000 + 2592000 ≤ later / 1000)
            → IsRefused (can_activate jwt later (some (bearer ++ issue_session jwt at (c ∷ rest)))))
  unfolding can_activate verify_session issue_session session_of text_eq
  can_activate-issue_session at later c rest =
      let token = jwt.sign at (session_claims (c ∷ rest)) session_ttl in
      let whole = bearer-starts token in
      let neat = laws.trimmed at (session_claims (c ∷ rest)) session_ttl in
      (
        (λ h.
            rw (whole, neat, laws.verified at later (session_claims (c ∷ rest)) session_ttl h)
              refl),
        λ h. rw (whole, neat, laws.expired at later (session_claims (c ∷ rest)) session_ttl h) refl,
      )

  -- With a token library that keeps these laws, the two kinds of token are never taken for each other:
  -- the state of a sign-in is refused as a session, and a session as a state, at any time.
  pub tokens_apart :
      (at later : ℕ) (user_id nonce : Text)
      → IsRefused (verify_session jwt later (issue_state jwt at nonce))
        × IsRefused (verify_state jwt later (issue_session jwt at user_id))
  unfolding verify_session verify_state issue_session issue_state session_of state_of text_eq
  tokens_apart at later user_id nonce = (
    (elim (verify-cases at later state_ttl (state_claims nonce)) [
      | inl valid ↦ rw valid refl
      | inr gone ↦ rw gone refl
    ]),
    elim (verify-cases at later session_ttl (session_claims user_id)) [
      | inl valid ↦ rw valid refl
      | inr gone ↦ rw gone refl
    ],
  )
