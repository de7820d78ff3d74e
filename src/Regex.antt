-- ===== src/Regex.antt =====
-- The regular expressions of the services. A JavaScript pattern tries its choices in an order, so a
-- pattern is a function from the text that is left to its matches in that order, each with its
-- captures and the text behind it. Patterns have no `u` flag, and read code units.
use mathlib.Core.List.{reverse}
use coupi.Prelude.{
  ℕ, zero, suc, Bool, true, false, ◌&&◌, ◌||◌, Option, none, some, List, [], ◌∷◌, ◌++◌, map, Text,
  leb, ◌==◌, if◌then◌else◌, keep, length, lower_unit, ◌-◌, suc, zero,
}

abbrev pub Pattern : Type 0 → Type 0
Pattern A = Text → List (A × Text)

module _ {A B : Type 0} where
  pub each : List (A × Text) → (A → Pattern B) → List (B × Text)
  each [] f = []
  each ((a, s) ∷ ms) f = f a s ++ each ms f

  infixl 5 ◌>>=◌ ◌>>◌
  unfoldable pub ◌>>=◌ : Pattern A → (A → Pattern B) → Pattern B
  unfolding each
  ◌>>=◌ p f s = each (p s) f

  abbrev pub ◌>>◌ : Pattern A → Pattern B → Pattern B
  p >> q = p >>= λ _. q

-- The empty pattern, with what it captures.
unfoldable pub capture : {A : Type 0} → A → Pattern A
capture a s = (a, s) ∷ []

-- One unit of a class, `[...]`.
unfoldable pub one : (ℕ → Bool) → Pattern ℕ
one p [] = []
one p (c ∷ s) = if p c then (c, s) ∷ [] else []

-- A literal.
unfoldable pub literal : Text → Pattern (Unit {0})
literal [] s = (tt, s) ∷ []
literal (c ∷ w) [] = []
literal (c ∷ w) (d ∷ s) = if c == d then literal w s else []

abbrev extend : ℕ → Text × Text → Text × Text
extend c (front, s) = (c ∷ front, s)

-- At most `n` units of a class, the longest run first.
unfoldable pub up_to : ℕ → (ℕ → Bool) → Pattern Text
up_to zero p s = ([], s) ∷ []
up_to (suc n) p [] = ([], []) ∷ []
up_to (suc n) p (c ∷ s) =
    let longer = map (extend c) (up_to n p s) in
    if p c then longer ++ ([], c ∷ s) ∷ [] else ([], c ∷ s) ∷ []

-- `[...]*`
unfoldable pub many : (ℕ → Bool) → Pattern Text
many p s = up_to (length s) p s

-- `[...]{low,high}`
unfoldable pub between : ℕ → ℕ → (ℕ → Bool) → Pattern Text
between low high p s = keep (λ m. leb low (length m.0)) (up_to high p s)

-- `[...]+`
unfoldable pub some_of : (ℕ → Bool) → Pattern Text
some_of p s = between 1 (length s) p s

-- `p|q`
unfoldable pub either : {A : Type 0} → Pattern A → Pattern A → Pattern A
either p q s = p s ++ q s

-- `p?`
unfoldable pub optional : Text → Pattern (Unit {0})
optional w = either (literal w) (capture tt)

-- `[...]*?`, the shortest run first.
unfoldable pub lazy_many : (ℕ → Bool) → Pattern Text
lazy_many p s = reverse (many p s)

-- `$`
unfoldable pub at_end : Pattern (Unit {0})
at_end [] = (tt, []) ∷ []
at_end (c ∷ s) = []

first_match : {A : Type 0} → List (A × Text) → Option A
first_match [] = none
first_match ((a, s) ∷ ms) = some a

or_else : {A : Type 0} → Option A → Option A → Option A
or_else none o = o
or_else (some a) o = some a

-- `text.match(pattern)`: the first match at the first position that has one.
unfoldable pub exec : {A : Type 0} → Pattern A → Text → Option A
unfolding first_match or_else
exec p [] = first_match (p [])
exec p (c ∷ s) = or_else (first_match (p (c ∷ s))) (exec p s)

-- `text.match(/^.../)`: only the first position is tried.
unfoldable pub exec_start : {A : Type 0} → Pattern A → Text → Option A
unfolding first_match
exec_start p s = first_match (p s)

-- `pattern.test(text)`
unfoldable pub test : {A : Type 0} → Pattern A → Text → Bool
unfolding exec
test p s = elim (exec p s) [ none ↦ false | some a ↦ true ]

-- A literal under the flag `i`.
unfoldable pub literal_i : Text → Pattern (Unit {0})
literal_i [] s = (tt, s) ∷ []
literal_i (c ∷ w) [] = []
literal_i (c ∷ w) (d ∷ s) = if lower_unit c == lower_unit d then literal_i w s else []

-- How many units the first match at the start of a text takes; none counts as zero.
abbrev taken : ℕ → List (Unit {0} × Text) → ℕ
taken n [] = 0
taken n ((a, rest) ∷ ms) = n - length rest

-- `text.replace(/.../g, with)`, for a pattern that does not match the empty text. The first `skip`
-- units belong to the last match.
unfoldable pub replace_from : ℕ → Pattern (Unit {0}) → Text → Text → Text
replace_from skip p with_text [] = []
replace_from (suc skip) p with_text (c ∷ s) = replace_from skip p with_text s
replace_from zero p with_text (c ∷ s) =
    let n = taken (suc (length s)) (p (c ∷ s)) in
    let rest = replace_from (n - 1) p with_text s in if n == 0 then c ∷ rest else with_text ++ rest

unfoldable pub replace_all : Pattern (Unit {0}) → Text → Text → Text
replace_all p with_text s = replace_from 0 p with_text s

-- `\d`
abbrev pub digit_class : ℕ → Bool
digit_class c = leb b'0' c && leb c b'9'

-- `\s`: the white space and the line ends of the language.
unfoldable pub space_class : ℕ → Bool
space_class c =
    (leb 9 c && leb c 13)
    || c == 0x20
    || c == 0xa0
    || c == 0x1680
    || (leb 0x2000 c && leb c 0x200a)
    || c == 0x2028
    || c == 0x2029
    || c == 0x202f
    || c == 0x205f
    || c == 0x3000
    || c == 0xfeff

-- `\s*`
unfoldable pub spaces : Pattern Text
unfolding many up_to space_class
spaces = many space_class

-- `text.trimStart()`
unfoldable pub trim_start : Text → Text
unfolding space_class
trim_start [] = []
trim_start (c ∷ s) = let rest = trim_start s in if space_class c then rest else c ∷ s

-- `text.trim()`
unfoldable pub trim : Text → Text
unfolding trim_start
trim s = reverse (trim_start (reverse (trim_start s)))

-- For a test that runs a pattern.
unfoldable pub regex : Unit {0}
unfolding ◌>>=◌ capture one literal up_to many between some_of either optional exec exec_start test
    literal_i replace_from replace_all lower_unit lazy_many at_end space_class spaces trim_start
    trim
regex = tt
