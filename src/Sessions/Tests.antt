-- ===== src/Sessions/Tests.antt =====
-- Sessions that a small token library signs.
use coupi.Prelude.{
  ℕ, ◌+◌, ◌-◌, ◌/◌, ◌≡◌, ◌≤◌, ◌<◌, refl, sym, ap, ◌∙◌, true, false, Option, none, some, [], ◌∷◌,
  ◌++◌, Text, units, take, drop, take-append, drop-append, length, ltb, ◌==◌, arith, if◌then◌else◌,
}
use mathlib.Core.List.{append_assoc}
use coupi.Effects
use coupi.Effects.{Result, ok}
use coupi.Sessions.{
  Jwt, Claims, unauthorized, trim, trim_start, trim_end, bearer, issue_session, can_activate,
  verify_session, issue_state, verify_state, sessions,
}
use coupi.Sessions.Tokens.{IsJwt, IsRefused, can_activate-issue_session, tokens_apart}

-- A text or nothing, with its length before it.
abbrev part : Option Text → Text → Text
part none rest = 100000 ∷ rest
part (some s) rest = (length s + 100001) ∷ s ++ rest

abbrev unpart : Text → Option Text × Text
unpart [] = (none, [])
unpart (n ∷ rest) =
    if n == 100000 then (none, rest) else (some (take (n - 100001) rest), drop (n - 100001) rest)

unpart-part : (o : Option Text) (rest : Text) → unpart (part o rest) ≡ (o, rest)
unpart-part none rest = refl
unpart-part (some s) rest =
    let other : (length s + 100001 == 100000) ≡ false = ground arith in
    let size : length s ≡ length s + 100001 - 100001 = omega arith in
    rw (other, take-append s rest _ size, drop-append s rest _ size) refl

abbrev text_or_empty : Option Text → Text
text_or_empty none = []
text_or_empty (some s) = s

abbrev claims_from : Text → Claims
claims_from s =
    let (sub, s1) = unpart s in
    let (nonce, s2) = unpart s1 in
    let (typ, s3) = unpart s2 in record { sub = sub; nonce = nonce; typ = text_or_empty typ }

abbrev claims_part : Claims → Text
claims_part c = part c.sub (part c.nonce (part (some c.typ) (65 ∷ [])))

abbrev verify : ℕ → Text → Option Claims
verify now [] = none
verify now (e ∷ s) = if ltb (now / 1000) (e - 100000) then some (claims_from s) else none

abbrev jwt : Jwt
jwt = record { sign = λ at c ttl. (at / 1000 + ttl + 100000) ∷ claims_part c; verify = verify }

claims_from-part : (c : Claims) → claims_from (claims_part c) ≡ c
claims_from-part c =
    rw
      (
        unpart-part c.sub (part c.nonce (part (some c.typ) (65 ∷ []))),
        unpart-part c.nonce (part (some c.typ) (65 ∷ [])),
        unpart-part (some c.typ) (65 ∷ []),
      )
      refl

trim_end-append : (s : Text) → trim_end (s ++ 65 ∷ []) ≡ s ++ 65 ∷ []
unfolding trim_end
trim_end-append [] = refl
trim_end-append (c ∷ []) = refl
trim_end-append (c ∷ d ∷ s) = rw (trim_end-append (d ∷ s)) refl

part-append : (o : Option Text) (s t : Text) → part o (s ++ t) ≡ part o s ++ t
part-append none s t = refl
part-append (some r) s t = ap (λ x. (length r + 100001) ∷ x) (sym (append_assoc r s t))

claims_part-append :
    (c : Claims) → claims_part c ≡ part c.sub (part c.nonce (part (some c.typ) [])) ++ 65 ∷ []
claims_part-append c =
    ap (λ s. part c.sub (part c.nonce s)) (part-append (some c.typ) [] (65 ∷ []))
    ∙ ap (part c.sub) (part-append c.nonce (part (some c.typ) []) (65 ∷ []))
    ∙ part-append c.sub (part c.nonce (part (some c.typ) [])) (65 ∷ [])

first_is_no_white : (n : ℕ) (s : Text) → trim_start ((n + 100000) ∷ s) ≡ (n + 100000) ∷ s
unfolding trim_start
first_is_no_white n s = ground arith

trimmed : (at : ℕ) (c : Claims) (ttl : ℕ) → trim (jwt.sign at c ttl) ≡ jwt.sign at c ttl
trimmed at c ttl =
    let whole = claims_part-append c in
    ap trim_end (first_is_no_white (at / 1000 + ttl) (claims_part c))
    ∙ ap (λ s. trim_end ((at / 1000 + ttl + 100000) ∷ s)) whole
    ∙ trim_end-append
        ((at / 1000 + ttl + 100000) ∷ part c.sub (part c.nonce (part (some c.typ) [])))
    ∙ ap (λ s. (at / 1000 + ttl + 100000) ∷ s) (sym whole)

verified :
    (at later : ℕ) (c : Claims) (ttl : ℕ)
    → later / 1000 < at / 1000 + ttl
    → jwt.verify later (jwt.sign at c ttl) ≡ some c
verified at later c ttl h =
    let valid : ltb (later / 1000) (at / 1000 + ttl + 100000 - 100000) ≡ true = ground arith in
    rw (valid, claims_from-part c) refl

expired :
    (at later : ℕ) (c : Claims) (ttl : ℕ)
    → at / 1000 + ttl ≤ later / 1000
    → jwt.verify later (jwt.sign at c ttl) ≡ none
expired at later c ttl h =
    let invalid : ltb (later / 1000) (at / 1000 + ttl + 100000 - 100000) ≡ false = ground arith in
    rw invalid refl

jwt-IsJwt : IsJwt jwt
jwt-IsJwt = record { verified = verified; expired = expired; trimmed = trimmed }

-- The last millisecond of the thirty days of a session of the second 0.
abbrev last : ℕ
last = 2591999999

can_activate-issue_session_example :
    (last / 1000 < 700 / 1000 + 2592000
      → can_activate jwt last (some (bearer ++ issue_session jwt 700 (units "u1")))
        ≡ ok (units "u1"))
    × (700 / 1000 + 2592000 ≤ last / 1000
        → IsRefused (can_activate jwt last (some (bearer ++ issue_session jwt 700 (units "u1")))))
can_activate-issue_session_example =
    can_activate-issue_session jwt jwt-IsJwt 700 last b'u' (units "1")

accepted :
    can_activate jwt last (some (bearer ++ issue_session jwt 700 (units "u1"))) ≡ ok (units "u1")
unfolding sessions
accepted = refl

refused :
    IsRefused (can_activate jwt (last + 1) (some (bearer ++ issue_session jwt 700 (units "u1"))))
unfolding sessions
refused = refl

tokens_apart_example :
    IsRefused (verify_session jwt 5000 (issue_state jwt 700 (units "n")))
    × IsRefused (verify_state jwt 5000 (issue_session jwt 700 (units "u1")))
tokens_apart_example = tokens_apart jwt jwt-IsJwt 700 5000 (units "u1") (units "n")

no_header :
    can_activate jwt 0 (some (units "Basic x")) ≡ Effects.thrown (unauthorized (units "세션 토큰이 없다."))
unfolding sessions
no_header = refl
