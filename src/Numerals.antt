-- ===== src/Numerals.antt =====
-- What the services use of the JavaScript language on numerals: `String(n)`, `padStart(2, '0')`,
-- `Number(text)`, `text.split(c)`, and the date part of `toISOString()`.
pub mod Digits
pub mod IsoDates
use coupi.Prelude.{
  ℕ, zero, suc, ◌+◌, ◌-◌, ◌*◌, ◌/◌, ◌%◌, Bool, true, false, ◌&&◌, Option, none, some, List, [], ◌∷◌,
  ◌++◌, Text, units, ltb, leb, ◌==◌, if◌then◌else◌,
}
use coupi.Calendar.Dates.{YearMonthDay}

abbrev pub digit : ℕ → ℕ
digit n = b'0' + n % 10

-- The decimal digits of a number below 10 ^ fuel.
unfoldable pub digits : ℕ → ℕ → Text
digits zero n = []
digits (suc fuel) n =
    let front = digits fuel (n / 10) in if ltb n 10 then digit n ∷ [] else front ++ digit n ∷ []

-- `String(n)`. JavaScript writes an integer below 10 ^ 21 by its digits.
unfoldable pub string_of : ℕ → Text
string_of n = digits 21 n

-- `String(n).padStart(2, '0')`
unfoldable pub pad_start_2 : ℕ → Text
pad_start_2 n = if ltb n 10 then b'0' ∷ string_of n else string_of n

abbrev pub is_digit : ℕ → Bool
is_digit c = leb b'0' c && leb c b'9'

unfoldable pub value_from : ℕ → Text → Option ℕ
value_from acc [] = some acc
value_from acc (c ∷ s) =
    let rest = value_from (acc * 10 + (c - b'0')) s in if is_digit c then rest else none

-- `Number(text)` on the texts that the program gives it, runs of decimal digits. The empty text is
-- 0; `none` is NaN, as any other text is read here.
unfoldable pub number : Text → Option ℕ
number s = value_from 0 s

-- `text.split(separator)`
unfoldable pub split_from : ℕ → Text → Text → List Text
split_from sep cur [] = cur ∷ []
split_from sep cur (c ∷ s) =
    let closed = cur ∷ split_from sep [] s in
    let longer = split_from sep (cur ++ c ∷ []) s in if c == sep then closed else longer

unfoldable pub split : ℕ → Text → List Text
split sep s = split_from sep [] s

-- A year as `toISOString` writes it: four digits, or a sign and six.
unfoldable pub iso_year : ℕ → Text
iso_year y =
    if leb y 9999
    then digit (y / 1000) ∷ digit (y / 100) ∷ digit (y / 10) ∷ digit y ∷ []
    else b'+'
      ∷ digit (y / 100000)
      ∷ digit (y / 10000)
      ∷ digit (y / 1000)
      ∷ digit (y / 100)
      ∷ digit (y / 10)
      ∷ digit y
      ∷ []

abbrev pub two_digits : ℕ → Text
two_digits n = digit (n / 10) ∷ digit n ∷ []

-- The text before the `T` of `toISOString()`.
unfoldable pub iso_string_date : YearMonthDay → Text
iso_string_date d = iso_year d.year ++ b'-' ∷ two_digits d.month ++ b'-' ∷ two_digits d.day

-- For a test that computes a numeral.
unfoldable pub numerals : Unit {0}
unfolding digits string_of pad_start_2 value_from number split_from split iso_year iso_string_date
numerals = tt
