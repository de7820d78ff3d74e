-- ===== src/Calendar/Years.antt =====
-- Day numbers of the proleptic Gregorian years, as ECMAScript's `DayFromYear` and `YearFromTime`
-- count them. The origin is moved from 1970-01-01 to 0000-01-01, so that every day is a natural number.
use coupi.Prelude.{
  ℕ, zero, suc, ◌+◌, ◌-◌, ◌*◌, ◌/◌, ◌%◌, ◌≤◌, ◌<◌, ◌≡◌, Bool, ◌&&◌, ◌||◌, not, arith, leb, ◌==◌,
  if◌then◌else◌,
}

unfoldable pub leap : ℕ → Bool
leap y = (y % 4 == 0) && (not (y % 100 == 0) || (y % 400 == 0))

unfoldable pub year_length : ℕ → ℕ
unfolding leap
year_length y = if leap y then 366 else 365

-- The days before 1 January of the year.
unfoldable pub day_from_year : ℕ → ℕ
day_from_year y = 365 * y + (y + 3) / 4 + (y + 399) / 400 - (y + 99) / 100

pub day_from_year-suc : (y : ℕ) → day_from_year (suc y) ≡ day_from_year y + year_length y
unfolding day_from_year year_length
day_from_year-suc y = ground arith

-- The largest year, at most `y`, that begins on or before the day.
year_search : ℕ → ℕ → ℕ
year_search zero n = 0
year_search (suc y) n =
    let earlier = year_search y n in if leb (day_from_year (suc y)) n then suc y else earlier

unfoldable pub year_from_day : ℕ → ℕ
unfolding year_search day_from_year
year_from_day n = year_search (n / 365) n

year_search_le : (y n : ℕ) → day_from_year (year_search y n) ≤ n
unfolding year_search
year_search_le zero n = unfold day_from_year in omega arith
year_search_le (suc y) n = ground (arith, year_search_le y n)

year_search_lt : (y n : ℕ) → n < day_from_year (suc y) → n < day_from_year (suc (year_search y n))
unfolding year_search
year_search_lt zero n h = h
year_search_lt (suc y) n h = ground (arith, year_search_lt y n)

-- The year found holds the day.
pub year_from_day_bounds :
    (n : ℕ) → (day_from_year (year_from_day n) ≤ n) × (n < day_from_year (suc (year_from_day n)))
unfolding year_from_day
year_from_day_bounds n =
    (year_search_le (n / 365) n, year_search_lt (n / 365) n (unfold day_from_year in omega arith))

pub day_from_year_mono : (y z : ℕ) → y ≤ z → day_from_year y ≤ day_from_year z
unfolding day_from_year
day_from_year_mono y z h = omega arith

-- Only one year holds the day.
pub year_from_day_unique :
    (y n : ℕ) → day_from_year y ≤ n → n < day_from_year (suc y) → year_from_day n ≡ y
year_from_day_unique y n h k =
    let b = year_from_day_bounds n in
    let low = day_from_year_mono (suc y) (year_from_day n) in
    let high = day_from_year_mono (suc (year_from_day n)) y in grind arith
