-- ===== src/Calendar/Dates.antt =====
-- `Date.UTC` and the UTC fields of a `Date`, over day numbers, and when they invert each other.
use coupi.Prelude.{
  ℕ, suc, ◌+◌, ◌-◌, ◌/◌, ◌%◌, ◌≤◌, ◌<◌, ◌≡◌, refl, ◌∙◌, Bool, true, false, arith, leb,
  if◌then◌else◌,
}
use coupi.Calendar.Years.{
  leap, year_length, day_from_year, day_from_year-suc, day_from_year_mono, year_from_day,
  year_from_day_bounds, year_from_day_unique,
}
use coupi.Calendar.Months.{month_start, month_in_year, month_in_year_bounds, month_in_year_unique}

-- A date by its numbers, the month from 1.
pub record YearMonthDay : Type 0 where
  pub year : ℕ
  pub month : ℕ
  pub day : ℕ

-- The years 0 to 99 are read as 1900 to 1999 by `Date.UTC`.
abbrev pub full_year : ℕ → ℕ
full_year y = if leb y 99 then 1900 + y else y

-- The day of `Date.UTC(year, month, day)`, the month from 0. Months and days past their range are
-- carried over.
unfoldable pub date_utc : ℕ → ℕ → ℕ → ℕ
date_utc y m d =
    let year = full_year y + m / 12 in
    (day_from_year year + month_start (leap year) (m % 12) + d) - 1

-- The fields `getUTCFullYear`, `getUTCMonth() + 1` and `getUTCDate` of a day.
unfoldable pub utc_fields : ℕ → YearMonthDay
utc_fields n =
    let y = year_from_day n in
    let d = n - day_from_year y in
    let m = month_in_year (leap y) d in
    record { year = y; month = suc m; day = suc (d - month_start (leap y) m) }

unfoldable pub days_in_month : ℕ → ℕ → ℕ
days_in_month y m = month_start (leap y) m - month_start (leap y) (m - 1)

-- The dates of the calendar, from the year 100 on.
pub record IsDate (d : YearMonthDay) : Type 0 where
  pub year : 100 ≤ d.year
  pub month_low : 1 ≤ d.month
  pub month_high : d.month ≤ 12
  pub day_low : 1 ≤ d.day
  pub day_high : d.day ≤ days_in_month d.year d.month

-- The day of a date.
unfoldable pub day_number : YearMonthDay → ℕ
day_number d = date_utc d.year (d.month - 1) d.day

-- For a test that computes a date.
unfoldable pub calendar : Unit {0}
unfolding day_from_year month_start year_from_day month_in_year leap date_utc utc_fields
    days_in_month day_number
calendar = tt

-- The day by its parts, where nothing is carried.
unfoldable pub day_of : ℕ → ℕ → ℕ → ℕ
day_of y m d = day_from_year y + month_start (leap y) m + d

full_year-of_ge : (y : ℕ) → 100 ≤ y → full_year y ≡ y
full_year-of_ge y h = ground arith

date_utc-eq-day_of : (y m d : ℕ) → 100 ≤ y → m ≤ 11 → 1 ≤ d → date_utc y m d ≡ day_of y m (d - 1)
unfolding day_of date_utc
date_utc-eq-day_of y m d h k j =
    let carry : full_year y + m / 12 ≡ y = ground (arith, full_year-of_ge y h) in
    let month : m % 12 ≡ m = omega arith in rw (carry, month) (omega arith)

pub day_number-eq-day_of :
    (d : YearMonthDay) → IsDate d → day_number d ≡ day_of d.year (d.month - 1) (d.day - 1)
unfolding day_number
day_number-eq-day_of d h =
    date_utc-eq-day_of d.year (d.month - 1) d.day (omega arith) (omega arith) (omega arith)

month_start-le : (l : Bool) (m : ℕ) → m ≤ 12 → month_start l m ≤ (if l then 366 else 365)
unfolding month_start
month_start-le true m h = ground arith
month_start-le false m h = ground arith

pub month_start_mono : (l : Bool) (m : ℕ) → m ≤ 11 → month_start l m < month_start l (suc m)
unfolding month_start
month_start_mono true m h = ground arith
month_start_mono false m h = ground arith

module _ (y m d : ℕ) (h : m ≤ 11)
    (k : d < month_start (leap y) (suc m) - month_start (leap y) m) where
  pub day_of-lt : day_of y m d < day_from_year (suc y)
  unfolding day_of year_length
  day_of-lt = omega (arith, day_from_year-suc y, month_start-le (leap y) (suc m) (omega arith))

  year-day_of : year_from_day (day_of y m d) ≡ y
  year-day_of = year_from_day_unique y _ (unfold day_of in omega arith) day_of-lt

  month-day_of : month_in_year (leap y) (day_of y m d - day_from_year y) ≡ m
  unfolding day_of
  month-day_of = month_in_year_unique (leap y) m _ h (omega arith) (omega arith)

  utc_fields-day_of : utc_fields (day_of y m d) ≡ record { year = y; month = suc m; day = suc d }
  unfolding utc_fields
  utc_fields-day_of = rw (year-day_of, month-day_of) (unfold day_of in ground arith)

-- The fields of a date's day are the date.
pub utc_fields-day_number : (d : YearMonthDay) → IsDate d → utc_fields (day_number d) ≡ d
unfolding days_in_month
utc_fields-day_number d h =
    let month : suc (d.month - 1) ≡ d.month = omega arith in
    let day : suc (d.day - 1) ≡ d.day = omega arith in
    rw (day_number-eq-day_of d h) (
      utc_fields-day_of d.year (d.month - 1) (d.day - 1) (omega arith) (rw month (omega arith))
      ∙ λ i. record { year = d.year; month = month i; day = day i })

module _ (n : ℕ) (h : 36525 ≤ n) where
  year_from_day-ge : 100 ≤ year_from_day n
  year_from_day-ge =
      let (_, b) = year_from_day_bounds n in
      let c : day_from_year 100 ≡ 36525 = (unfold day_from_year in refl) in
      grind (arith, day_from_year_mono (suc (year_from_day n)) 100)

  day_in_year_lt :
      n - day_from_year (year_from_day n) < 365 + (if leap (year_from_day n) then 1 else 0)
  unfolding year_length
  day_in_year_lt = ground (arith, year_from_day_bounds n, day_from_year-suc (year_from_day n))

  -- The fields of a day are a date.
  pub utc_fields-IsDate : IsDate (utc_fields n)
  unfolding utc_fields days_in_month
  utc_fields-IsDate =
      let b = month_in_year_bounds (leap (year_from_day n)) _ day_in_year_lt in
      let month : suc (month_in_year (leap (year_from_day n)) (n - day_from_year (year_from_day n)))
            - 1
          ≡ month_in_year (leap (year_from_day n)) (n - day_from_year (year_from_day n)) =
        omega arith in
      record {
        year = year_from_day-ge;
        month_low = omega arith;
        month_high = omega arith;
        day_low = omega arith;
        day_high = rw month (omega arith);
      }

  -- The day of a day's fields is the day.
  pub day_number-utc_fields : day_number (utc_fields n) ≡ n
  day_number-utc_fields =
      let b = month_in_year_bounds (leap (year_from_day n)) _ day_in_year_lt in
      let month : suc (month_in_year (leap (year_from_day n)) (n - day_from_year (year_from_day n)))
            - 1
          ≡ month_in_year (leap (year_from_day n)) (n - day_from_year (year_from_day n)) =
        omega arith in
      rw (day_number-eq-day_of (utc_fields n) utc_fields-IsDate)
        (unfold day_of utc_fields in rw month (omega (arith, year_from_day_bounds n)))
