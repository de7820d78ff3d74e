-- ===== src/InternalCalls.antt =====
-- backend/src/common/messaging/internal-caller.guard.ts: which calls of the internal endpoints are let
-- in. The check of a token by Google's library is a parameter.
pub mod Callers
mod Tests
use coupi.Prelude.{
  ℕ, ◌≡◌, ◌⊎◌, ◌<◌, refl, sym, ap, Bool, true, false, ◌||◌, ◌&&◌, not, Option, none, some, List, [],
  ◌∷◌, length, any, drop, In, if◌then◌else◌, Text, units, text_eq, text_eq_iff, truthy, starts_with,
  ltb, Bool-cases, Option-cases, inl, inr, arith,
}
use coupi.Effects.{Result, Thrown, ok, thrown, other_error}
use coupi.Sessions.{unauthorized, bearer, trim, sessions}

-- The configuration: the two service accounts, the audience and whether NODE_ENV is 'production'.
pub record GuardConfig : Type 0 where
  pub pubsub_push_email : Option Text
  pub tasks_invoker_email : Option Text
  pub audience : Option Text
  pub is_production : Bool

pub record Guard : Type 0 where
  pub allowed_emails : List Text
  pub audience : Option Text
  pub is_production : Bool

abbrev add_email : Option Text → List Text → List Text
add_email none emails = emails
add_email (some email) emails = email ∷ emails

abbrev pub guard_of : GuardConfig → Guard
guard_of config = record {
  allowed_emails =
      add_email (truthy config.pubsub_push_email)
        (add_email (truthy config.tasks_invoker_email) []);
  audience = config.audience;
  is_production = config.is_production;
}

abbrev pub guard_or_error : Guard → Result Guard
guard_or_error guard =
    if guard.is_production && not (ltb 0 (length guard.allowed_emails))
    then thrown (other_error none (units "PUBSUB_PUSH_SA_EMAIL이 없으면 운영에서 내부 호출을 검증할 수 없다."))
    else ok guard

-- The constructor.
unfoldable pub new_guard : GuardConfig → Result Guard
new_guard config = guard_or_error (guard_of config)

abbrev pub has : List Text → Text → Bool
has emails email = any (λ e. text_eq e email) emails

-- `!email || !allowedEmails.has(email)`
abbrev is_unknown : Option Text → List Text → Bool
is_unknown none emails = true
is_unknown (some email) emails = not (has emails email)

abbrev not_empty : Text → Option Text
not_empty s = truthy (some s)

unfoldable pub bearer_token : Option Text → Option Text
bearer_token none = none
bearer_token (some header) =
    if not (starts_with header bearer) then none else not_empty (trim (drop (length bearer) header))

-- `verifyIdToken` of a token for an audience: nothing where it throws, and otherwise the email of the
-- payload, if it has one.
module _ (verify_id_token : Text → Option Text → Option (Option Text)) where
  unfoldable pub known_caller : Guard → Option (Option Text) → Result Bool
  known_caller guard none = thrown (unauthorized (units "OIDC 토큰이 유효하지 않다."))
  known_caller guard (some email) =
      if ltb 0 (length guard.allowed_emails) && is_unknown (truthy email) guard.allowed_emails
      then thrown (unauthorized (units "허용되지 않은 호출자다."))
      else ok true

  unfoldable pub check_token : Guard → Option Text → Result Bool
  check_token guard none =
      if not guard.is_production then ok true else thrown (unauthorized (units "OIDC 토큰이 없다."))
  check_token guard (some token) =
      known_caller guard (verify_id_token token (truthy guard.audience))

  unfoldable pub can_activate : Guard → Option Text → Result Bool
  can_activate guard authorization = check_token guard (bearer_token authorization)

-- For a test that checks a caller.
unfoldable pub internal_calls : Unit {0}
unfolding text_eq starts_with sessions new_guard bearer_token known_caller check_token can_activate
internal_calls = tt
