-- ===== src/Sessions.antt =====
-- backend/src/auth/session.service.ts and session.guard.ts: the sessions of the app, and the states of
-- a sign-in, are signed tokens. The signature and its check are the JWT library's, and parameters.
pub mod Tokens
mod Tests
use coupi.Prelude.{
  ℕ, ◌+◌, ◌*◌, ◌≡◌, ◌<◌, ◌≤◌, Bool, true, false, ◌||◌, ◌&&◌, not, Option, none, some, List, [], ◌∷◌,
  ◌++◌, ◌==◌, leb, if◌then◌else◌, Text, units, text_eq, truthy, starts_with, drop, length,
}
use coupi.Effects.{Result, Thrown, ok, thrown, other_error}

-- `SESSION_TTL` and `STATE_TTL`, '30d' and '10m', in seconds
abbrev pub session_ttl : ℕ
session_ttl = 30 * 24 * 60 * 60

abbrev pub state_ttl : ℕ
state_ttl = 10 * 60

-- The claims of a token, of either kind.
pub record Claims : Type 0 where
  pub sub : Option Text
  pub nonce : Option Text
  pub typ : Text

-- `jwt.sign` at an instant, with the seconds that the token is valid for, and `jwt.verify` at an
-- instant, which answers nothing where it throws. The instants are in milliseconds.
pub record Jwt : Type 0 where
  pub sign : ℕ → Claims → ℕ → Text
  pub verify : ℕ → Text → Option Claims

abbrev pub unauthorized : Text → Thrown
unauthorized m = other_error (some 401) m

abbrev pub session_claims : Text → Claims
session_claims user_id = record { sub = some user_id; nonce = none; typ = units "session" }

abbrev pub state_claims : Text → Claims
state_claims nonce = record { sub = none; nonce = some nonce; typ = units "state" }

abbrev sub_or_error : Option Text → Result Text
sub_or_error none = thrown (unauthorized (units "세션 토큰이 아니다."))
sub_or_error (some user_id) = ok user_id

-- The test of `verifySession`.
unfoldable pub session_of : Option Claims → Result Text
session_of none = thrown (unauthorized (units "토큰이 유효하지 않다."))
session_of (some claims) =
    if not (text_eq claims.typ (units "session"))
    then thrown (unauthorized (units "세션 토큰이 아니다."))
    else sub_or_error (truthy claims.sub)

-- The test of `verifyState`.
unfoldable pub state_of : Option Claims → Result (Unit {0})
state_of none = thrown (unauthorized (units "토큰이 유효하지 않다."))
state_of (some claims) =
    if not (text_eq claims.typ (units "state"))
    then thrown (unauthorized (units "state 토큰이 아니다."))
    else ok tt

-- What `trim` takes off.
abbrev is_white : ℕ → Bool
is_white c =
    (leb 9 c && leb c 13)
    || (c == 32)
    || (c == 160)
    || (c == 5760)
    || (leb 8192 c && leb c 8202)
    || (c == 8232)
    || (c == 8233)
    || (c == 8239)
    || (c == 8287)
    || (c == 12288)
    || (c == 65279)

unfoldable pub trim_start : Text → Text
trim_start [] = []
trim_start (c ∷ s) = let rest = trim_start s in if is_white c then rest else c ∷ s

abbrev cons_unless_white : ℕ → Text → Text
cons_unless_white c [] = if is_white c then [] else c ∷ []
cons_unless_white c (d ∷ s) = c ∷ d ∷ s

unfoldable pub trim_end : Text → Text
trim_end [] = []
trim_end (c ∷ s) = cons_unless_white c (trim_end s)

-- `text.trim()`
abbrev pub trim : Text → Text
trim s = trim_end (trim_start s)

abbrev pub bearer : Text
bearer = units "Bearer "

module _ (jwt : Jwt) where
  unfoldable pub issue_session : ℕ → Text → Text
  issue_session at user_id = jwt.sign at (session_claims user_id) session_ttl

  unfoldable pub verify_session : ℕ → Text → Result Text
  verify_session at token = session_of (jwt.verify at token)

  -- `nonce` is the random UUID.
  unfoldable pub issue_state : ℕ → Text → Text
  issue_state at nonce = jwt.sign at (state_claims nonce) state_ttl

  unfoldable pub verify_state : ℕ → Text → Result (Unit {0})
  verify_state at token = state_of (jwt.verify at token)

  -- `canActivate`: the user id that a request is given, by its authorization header.
  unfoldable pub can_activate : ℕ → Option Text → Result Text
  can_activate at none = thrown (unauthorized (units "세션 토큰이 없다."))
  can_activate at (some header) =
      if not (starts_with header bearer)
      then thrown (unauthorized (units "세션 토큰이 없다."))
      else verify_session at (trim (drop (length bearer) header))

-- For a test that checks a session.
unfoldable pub sessions : Unit {0}
unfolding text_eq starts_with session_of state_of trim_start trim_end issue_session verify_session
    issue_state verify_state can_activate
sessions = tt
