-- ===== src/Classifier/DateParser/NewYear.antt =====
-- What `inferYear` makes of the last day of a year in a mail of the next morning.
use coupi.Prelude.{ℕ, suc, ◌+◌, ◌≤◌, ◌≡◌, true, some, arith, inl, inr, Bool-cases}
use coupi.Calendar.Years.{leap, year_length, day_from_year, day_from_year-suc}
use coupi.Calendar.Months.{month_start}
use coupi.Calendar.Dates.{
  YearMonthDay, IsDate, day_number, day_of, days_in_month, day_number-eq-day_of,
}
use coupi.Classifier.DateParser.{infer_year, is_plausible_expiry}
use coupi.Classifier.DateParser.InferYear.{NotBehind, is_plausible_expiry_iff, infer_year-cases}

abbrev pub new_year : ℕ → YearMonthDay
new_year y = record { year = y; month = 1; day = 1 }

abbrev pub last_day : ℕ → YearMonthDay
last_day y = record { year = y; month = 12; day = 31 }

year_length-le : (y : ℕ) → (365 ≤ year_length y) × (year_length y ≤ 366)
unfolding year_length
year_length-le y = elim (Bool-cases (leap y)) [
  | inl l ↦ rw l (omega arith)
  | inr l ↦ rw l (omega arith)
]

new_year-IsDate : (y : ℕ) → 100 ≤ y → IsDate (new_year y)
unfolding days_in_month month_start
new_year-IsDate y h = ground arith

last_day-IsDate : (y : ℕ) → 100 ≤ y → IsDate (last_day y)
unfolding days_in_month month_start
last_day-IsDate y h = ground arith

new_year_number : (y : ℕ) → 100 ≤ y → day_number (new_year y) ≡ day_from_year y
unfolding day_of month_start
new_year_number y h = rw (day_number-eq-day_of (new_year y) (new_year-IsDate y h)) (omega arith)

last_day_number : (y : ℕ) → 100 ≤ y → day_number (last_day y) + 1 ≡ day_from_year (suc y)
unfolding day_of month_start year_length
last_day_number y h =
    rw (day_number-eq-day_of (last_day y) (last_day-IsDate y h), day_from_year-suc y)
      (elim (Bool-cases (leap y)) [ inl l ↦ rw l (omega arith) | inr l ↦ rw l (omega arith) ])

-- A mail of New Year's Day that names 31 December is given the last day of its own year, which is
-- taken for plausible, although the day before it was received lies within the tolerance too.
pub infer_year-new_year :
    (y : ℕ)
    → 100 ≤ y
    → NotBehind (new_year (suc y)) (last_day y)
      × (infer_year 12 31 (new_year (suc y)) ≡ some (last_day (suc y)))
      × (is_plausible_expiry (last_day (suc y)) (new_year (suc y)) ≡ true)
infer_year-new_year y h =
    let first = new_year_number (suc y) (omega arith) in
    let eve = last_day_number y h in
    let last = last_day_number (suc y) (omega arith) in
    let next = day_from_year-suc (suc y) in
    let long = year_length-le (suc y) in
    let near : NotBehind (new_year (suc y)) (last_day (suc y)) = omega arith in
    (
      omega arith,
      elim (infer_year-cases 12 31 (new_year (suc y))) [
        | inl (found, q) ↦ found
        | inr (inl (found, bad, q)) ↦ absurd (bad (last_day-IsDate (suc y) (omega arith), near))
        | inr (inr (found, bad, q)) ↦ absurd (bad (last_day-IsDate (suc y) (omega arith), near))
      ],
      (is_plausible_expiry_iff (last_day (suc y)) (new_year (suc y))).1 (near, omega arith),
    )
