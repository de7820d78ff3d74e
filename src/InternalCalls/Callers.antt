-- ===== src/InternalCalls/Callers.antt =====
-- Who is let in.
use coupi.Prelude.{
  ◌≡◌, ◌≢◌, refl, sym, ap, Bool, true, ◌&&◌, not, Option, none, some, length, Text, truthy, ltb,
  Bool-cases, Option-cases, inl, inr, arith,
}
use coupi.Effects.{Result, ok}
use coupi.InternalCalls.{
  GuardConfig, Guard, guard_of, guard_or_error, new_guard, has, bearer_token, known_caller,
  check_token, can_activate,
}

module _ (verify_id_token : Text → Option Text → Option (Option Text)) where
  -- Who a call in production is from.
  pub record IsKnown (guard : Guard) (authorization : Option Text) : Type 0 where
    pub token : Text
    pub email : Text
    pub payload : Option Text
    pub has_token : bearer_token authorization ≡ some token
    pub verified : verify_id_token token (truthy guard.audience) ≡ some payload
    pub has_email : truthy payload ≡ some email
    pub allowed : has guard.allowed_emails email ≡ true

  known_caller-none : (guard : Guard) (b : Bool) → known_caller verify_id_token guard none ≢ ok b
  unfolding known_caller
  known_caller-none guard b e = cc

  known_caller-ok :
      (guard : Guard) (payload : Option Text) (b : Bool)
      → ltb 0 (length guard.allowed_emails) ≡ true
      → known_caller verify_id_token guard (some payload) ≡ ok b
      → (email : Text) × (truthy payload ≡ some email) × (has guard.allowed_emails email ≡ true)
  unfolding known_caller
  known_caller-ok guard payload b some_allowed e = elim (Option-cases (truthy payload)) [
    | inl missing ↦ cc (rw (some_allowed, missing) at e)
    | inr (email, there) ↦ elim (Bool-cases (has guard.allowed_emails email)) [
      | inl allowed ↦ (email, there, allowed)
      | inr unknown ↦ cc (rw (some_allowed, there, unknown) at e)
    ]
  ]

  check_token-IsKnown :
      (guard : Guard) (authorization : Option Text) (b : Bool) (token : Option Text)
      → bearer_token authorization ≡ token
      → guard.is_production ≡ true
      → ltb 0 (length guard.allowed_emails) ≡ true
      → check_token verify_id_token guard token ≡ ok b
      → IsKnown guard authorization
  unfolding check_token
  check_token-IsKnown guard authorization b none is production some_allowed e =
      cc (rw production at e)
  check_token-IsKnown guard authorization b (some token) is production some_allowed e =
      elim (Option-cases (verify_id_token token (truthy guard.audience))) [
        | inl invalid ↦ absurd (known_caller-none guard b (rw invalid at e))
        | inr (payload, valid) ↦
            let (email, there, allowed) =
              known_caller-ok guard payload b some_allowed (rw valid at e) in
            record {
              token = token;
              email = email;
              payload = payload;
              has_token = is;
              verified = valid;
              has_email = there;
              allowed = allowed;
            }
      ]

  guard_or_error-ok :
      (guard accepted : Guard)
      → guard_or_error guard ≡ ok accepted
      → accepted.is_production ≡ true
      → ltb 0 (length accepted.allowed_emails) ≡ true
  guard_or_error-ok guard accepted e production =
      elim (Bool-cases (guard.is_production && not (ltb 0 (length guard.allowed_emails)))) [
        | inl refused ↦ cc (rw refused at e)
        | inr fine ↦
            let g : ◌≡◌ {A = Result Guard} (ok guard) (ok accepted) = rw fine at e in
            let same : guard ≡ accepted = cc in
            ground (arith, sym same, ap (λ (x : Guard). x.allowed_emails) same)
      ]

  -- In production, a guard that the configuration allows lets in only calls that carry a bearer token
  -- which Google verifies, for an email that is one of the configured service accounts.
  pub can_activate-IsKnown :
      (config : GuardConfig) (guard : Guard) (authorization : Option Text) (b : Bool)
      → new_guard config ≡ ok guard
      → guard.is_production ≡ true
      → can_activate verify_id_token guard authorization ≡ ok b
      → IsKnown guard authorization
  unfolding new_guard can_activate
  can_activate-IsKnown config guard authorization b made production e =
      check_token-IsKnown guard authorization b (bearer_token authorization) refl production
        (guard_or_error-ok (guard_of config) guard made production) e
