-- ===== src/Numerals/IsoDates.antt =====
-- ISO dates: the two ways in which the services write one agree, a written date reads back, and the
-- order of the texts is the order of the days.
use coupi.Prelude.{
  ℕ, ◌+◌, ◌*◌, ◌/◌, ◌%◌, ◌≤◌, ◌<◌, ◌≡◌, refl, ◌∙◌, ◌&&◌, ◌||◌, [], ◌∷◌, arith, Text, text_lt, ltb,
  ◌==◌,
}
use mathlib.Core.Path.{ap₂}
use coupi.Calendar.Dates.{YearMonthDay}
use coupi.Calendar.Order.{rank}
use coupi.Numerals.{digit, iso_year, iso_string_date}

-- A year, a month and a day in the ten characters YYYY-MM-DD.
unfoldable pub ten : YearMonthDay → Text
ten d =
    digit (d.year / 1000)
    ∷ digit (d.year / 100)
    ∷ digit (d.year / 10)
    ∷ digit d.year
    ∷ b'-'
    ∷ digit (d.month / 10)
    ∷ digit d.month
    ∷ b'-'
    ∷ digit (d.day / 10)
    ∷ digit d.day
    ∷ []

-- The dates that are written in ten characters.
pub record IsTen (d : YearMonthDay) : Type 0 where
  pub year_low : 1000 ≤ d.year
  pub year_high : d.year ≤ 9999
  pub month : d.month ≤ 99
  pub day : d.day ≤ 99

pub iso_string_date-ten : (d : YearMonthDay) → IsTen d → iso_string_date d ≡ ten d
unfolding iso_string_date iso_year ten
iso_string_date-ten d h = ground arith

text_lt-dash : (c : ℕ) (s t : Text) → text_lt (c ∷ s) (c ∷ t) ≡ text_lt s t
unfolding text_lt
text_lt-dash c s t = ground arith

-- A first number decides, else the rest.
weigh :
    (k x y u v : ℕ)
    → u < k
    → v < k
    → (ltb x y || ((x == y) && ltb u v)) ≡ ltb (x * k + u) (y * k + v)
weigh k x y u v hu hv = ground (arith, weigh_lt k x y, weigh_lt k y x)
  where
    weigh_lt : (k x y : ℕ) → x < y → x * k + k ≤ y * k
    weigh_lt k x y h = grind arith

text_lt-digit :
    (k a b : ℕ) (s t : Text) (u v : ℕ)
    → u < k
    → v < k
    → text_lt s t ≡ ltb u v
    → text_lt (digit a ∷ s) (digit b ∷ t) ≡ ltb (a % 10 * k + u) (b % 10 * k + v)
unfolding text_lt
text_lt-digit k a b s t u v hu hv rest = ground (arith, weigh k (a % 10) (b % 10) u v hu hv)

module _ (a b : YearMonthDay) where
  day-lt :
      text_lt (digit (a.day / 10) ∷ digit a.day ∷ []) (digit (b.day / 10) ∷ digit b.day ∷ [])
      ≡ ltb
          (a.day / 10 % 10 * 10 + (a.day % 10 * 1 + 0))
          (b.day / 10 % 10 * 10 + (b.day % 10 * 1 + 0))
  day-lt =
      text_lt-digit 10 (a.day / 10) (b.day / 10) _ _ _ _ (omega arith) (omega arith)
        (text_lt-digit 1 a.day b.day [] [] 0 0 (omega arith) (omega arith) (unfold text_lt in refl))

  module _ (s t : Text) (u v : ℕ) (hu : u < 100) (hv : v < 100) (rest : text_lt s t ≡ ltb u v) where
    month-lt :
        text_lt
          (digit (a.month / 10) ∷ digit a.month ∷ b'-' ∷ s)
          (digit (b.month / 10) ∷ digit b.month ∷ b'-' ∷ t)
        ≡ ltb
            (a.month / 10 % 10 * 1000 + (a.month % 10 * 100 + u))
            (b.month / 10 % 10 * 1000 + (b.month % 10 * 100 + v))
    month-lt =
        text_lt-digit 1000 (a.month / 10) (b.month / 10) _ _ _ _ (omega arith) (omega arith) (
          text_lt-digit 100 a.month b.month (b'-' ∷ s) (b'-' ∷ t) u v hu hv
            (text_lt-dash b'-' s t ∙ rest))

  module _ (s t : Text) (u v : ℕ) (hu : u < 10000) (hv : v < 10000)
      (rest : text_lt s t ≡ ltb u v) where
    year-lt :
        text_lt
          (digit (a.year / 1000)
            ∷ digit (a.year / 100)
            ∷ digit (a.year / 10)
            ∷ digit a.year
            ∷ b'-'
            ∷ s)
          (digit (b.year / 1000)
            ∷ digit (b.year / 100)
            ∷ digit (b.year / 10)
            ∷ digit b.year
            ∷ b'-'
            ∷ t)
        ≡ ltb
            (a.year / 1000 % 10 * 10000000
              + (a.year / 100 % 10 * 1000000
                  + (a.year / 10 % 10 * 100000 + (a.year % 10 * 10000 + u))))
            (b.year / 1000 % 10 * 10000000
              + (b.year / 100 % 10 * 1000000
                  + (b.year / 10 % 10 * 100000 + (b.year % 10 * 10000 + v))))
    year-lt =
        text_lt-digit 10000000 (a.year / 1000) (b.year / 1000) _ _ _ _ (omega arith) (omega arith) (
          text_lt-digit 1000000 (a.year / 100) (b.year / 100) _ _ _ _ (omega arith) (omega arith) (
            text_lt-digit 100000 (a.year / 10) (b.year / 10) _ _ _ _ (omega arith) (omega arith) (
              text_lt-digit 10000 a.year b.year (b'-' ∷ s) (b'-' ∷ t) u v hu hv
                (text_lt-dash b'-' s t ∙ rest))))

four :
    (y : ℕ) → y ≤ 9999 → y / 1000 % 10 * 1000 + y / 100 % 10 * 100 + y / 10 % 10 * 10 + y % 10 ≡ y
four y h = omega arith

two : (n : ℕ) → n ≤ 99 → n / 10 % 10 * 10 + n % 10 ≡ n
two n h = omega arith

-- The order of the texts is the order of (year, month, day).
pub ten-lt :
    (a b : YearMonthDay) → IsTen a → IsTen b → text_lt (ten a) (ten b) ≡ ltb (rank a) (rank b)
unfolding ten
ten-lt a b h k =
    year-lt a b _ _ _ _ (omega arith) (omega arith)
      (month-lt a b _ _ _ _ (omega arith) (omega arith) (day-lt a b))
    ∙ ap₂ ltb (omega (arith, four a.year h.year_high, two a.month h.month, two a.day h.day))
        (omega (arith, four b.year k.year_high, two b.month k.month, two b.day k.day))
