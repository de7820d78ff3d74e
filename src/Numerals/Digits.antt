-- ===== src/Numerals/Digits.antt =====
-- A printed number reads back, and holds digits only.
use coupi.Prelude.{
  ℕ, zero, suc, ◌+◌, ◌-◌, ◌*◌, ◌/◌, ◌≤◌, ◌<◌, ◌≡◌, ap, ◌∙◌, some, [], ◌∷◌, ◌++◌, arith, Text, ltb,
  All, All-append, Bool-cases, inl, inr,
}
use coupi.Numerals.{digit, digits, string_of, pad_start_2, value_from, number}
use Prim.Native.Nat.{◌^◌}
use native.Mathlib.Nat.{pow-suc}

abbrev pub IsDigit : ℕ → Type 0
IsDigit c = (b'0' ≤ c) × (c ≤ b'9')

pub value_from-append :
    (acc c : ℕ) (s : Text) (n : ℕ)
    → value_from acc s ≡ some n
    → IsDigit c
    → value_from acc (s ++ c ∷ []) ≡ some (n * 10 + (c - b'0'))
unfolding value_from
value_from-append acc c [] n e h = ground arith
value_from-append acc c (d ∷ s) n e h =
    ground (arith, value_from-append (acc * 10 + (d - b'0')) c s n)

pub digits-small : (fuel n : ℕ) → n < 10 → digits (suc fuel) n ≡ digit n ∷ []
unfolding digits
digits-small fuel n h = ground arith

pub digits-large :
    (fuel n : ℕ) → 10 ≤ n → digits (suc fuel) n ≡ digits fuel (n / 10) ++ digit n ∷ []
unfolding digits
digits-large fuel n h = ground arith

power : (fuel n : ℕ) → n < 10 ^ suc fuel → n / 10 < 10 ^ fuel
power fuel n h = let k = (rw pow-suc at h) in omega arith

number-digits : (fuel n : ℕ) → n < 10 ^ fuel → value_from 0 (digits fuel n) ≡ some n
number-digits zero n h = (unfold digits value_from in ground arith)
number-digits (suc fuel) n h = elim (Bool-cases (ltb n 10)) [
  | inl small ↦ rw (digits-small fuel n (ground arith)) (unfold value_from in ground arith)
  | inr large ↦ rw (digits-large fuel n (ground arith)) (
      value_from-append 0 (digit n) (digits fuel (n / 10)) (n / 10)
        (number-digits fuel (n / 10) (power fuel n h)) (omega arith)
      ∙ ap some (omega arith))
]

-- A printed number reads back.
pub number-string_of : (n : ℕ) → n < 10 ^ 21 → number (string_of n) ≡ some n
unfolding number string_of
number-string_of n h = number-digits 21 n h

digits-IsDigit : (fuel n : ℕ) → All IsDigit (digits fuel n)
digits-IsDigit zero n = (unfold digits in tt)
digits-IsDigit (suc fuel) n = elim (Bool-cases (ltb n 10)) [
  | inl small ↦ rw (digits-small fuel n (ground arith)) (omega arith)
  | inr large ↦ rw (digits-large fuel n (ground arith)) (
      All-append IsDigit (digits fuel (n / 10)) (digit n ∷ []) (digits-IsDigit fuel (n / 10))
        (omega arith))
]

pub string_of-IsDigit : (n : ℕ) → All IsDigit (string_of n)
unfolding string_of
string_of-IsDigit n = digits-IsDigit 21 n

pub string_of-one : (n : ℕ) → n < 10 → string_of n ≡ digit n ∷ []
unfolding string_of
string_of-one n h = digits-small 20 n h

two : (fuel n : ℕ) → 10 ≤ n → n ≤ 99 → digits (suc (suc fuel)) n ≡ digit (n / 10) ∷ digit n ∷ []
two fuel n h k = rw (digits-large (suc fuel) n h, digits-small fuel (n / 10) (omega arith))

string_of-two : (n : ℕ) → 10 ≤ n → n ≤ 99 → string_of n ≡ digit (n / 10) ∷ digit n ∷ []
unfolding string_of
string_of-two n h k = two 19 n h k

three :
    (fuel n : ℕ)
    → 100 ≤ n
    → n ≤ 999
    → digits (suc (suc (suc fuel))) n ≡ digit (n / 10 / 10) ∷ digit (n / 10) ∷ digit n ∷ []
three fuel n h k =
    rw
      (digits-large (suc (suc fuel)) n (omega arith), two fuel (n / 10) (omega arith) (omega arith))

-- A number of four digits, written out.
pub string_of-four :
    (n : ℕ)
    → 1000 ≤ n
    → n ≤ 9999
    → string_of n ≡ digit (n / 1000) ∷ digit (n / 100) ∷ digit (n / 10) ∷ digit n ∷ []
unfolding string_of
string_of-four n h k =
    let a : n / 10 / 10 / 10 ≡ n / 1000 = omega arith in
    let b : n / 10 / 10 ≡ n / 100 = omega arith in
    rw (digits-large 20 n (omega arith), three 17 (n / 10) (omega arith) (omega arith), a, b)

-- A month or a day, padded, has two digits.
pub pad_start_2-two : (n : ℕ) → n ≤ 99 → pad_start_2 n ≡ digit (n / 10) ∷ digit n ∷ []
unfolding pad_start_2
pad_start_2-two n h = elim (Bool-cases (ltb n 10)) [
  | inl small ↦ rw (small, string_of-one n (ground arith)) (ground arith)
  | inr large ↦ rw (large, string_of-two n (ground arith) h)
]
