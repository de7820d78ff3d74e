-- ===== src/Classifier/DateParser/ValidDates.antt =====
-- `isValidYmd` of date-parser.ts against the calendar.
use coupi.Prelude.{ℕ, ◌+◌, ◌-◌, ◌≤◌, ◌≡◌, ◌↔◌, refl, true, arith, ◌==◌, ◌&&◌, ◌/◌}
use mathlib.Core.Path.{subst}
use coupi.Calendar.Years.{day_from_year, day_from_year_mono}
use coupi.Calendar.Order.{day-le}
use coupi.Calendar.Dates.{
  YearMonthDay, IsDate, full_year, date_utc, utc_fields, day_number, utc_fields-day_number,
  utc_fields-IsDate,
}
use coupi.Classifier.DateParser.{is_valid_ymd}

date_utc-ge : (y m d : ℕ) → 1 ≤ d → 36525 ≤ date_utc y m d
unfolding date_utc
date_utc-ge y m d h =
    let c : day_from_year 100 ≡ 36525 = (unfold day_from_year in refl) in
    let e = day_from_year_mono 100 (full_year y + m / 12) (ground arith) in omega arith

-- What the three comparisons of the fields say.
fields_match :
    (c : YearMonthDay) (d : YearMonthDay)
    → 1 ≤ c.month
    → (d.year == c.year && d.month - 1 == c.month - 1 && d.day == c.day) ≡ true
    → 1 ≤ d.month
    → d ≡ c
fields_match c d m h k =
    let y : d.year ≡ c.year = ground arith in
    let mm : d.month ≡ c.month = ground arith in
    let dd : d.day ≡ c.day = ground arith in λ i. record { year = y i; month = mm i; day = dd i }

valid_range :
    (c : YearMonthDay)
    → is_valid_ymd c ≡ true
    → (1 ≤ c.month)
      × (1 ≤ c.day)
      × ((let d = utc_fields (date_utc c.year (c.month - 1) c.day) in
            d.year == c.year && d.month - 1 == c.month - 1 && d.day == c.day)
          ≡ true)
unfolding is_valid_ymd
valid_range c h = ground arith

is_valid_ymd_sound : (c : YearMonthDay) → is_valid_ymd c ≡ true → IsDate c
is_valid_ymd_sound c h =
    let (m, d, e) = valid_range c h in
    let g =
      utc_fields-IsDate (date_utc c.year (c.month - 1) c.day)
        (date_utc-ge c.year (c.month - 1) c.day d) in
    subst IsDate (fields_match c _ m e g.month_low) g

is_valid_ymd_complete : (c : YearMonthDay) → IsDate c → is_valid_ymd c ≡ true
unfolding is_valid_ymd
is_valid_ymd_complete c h =
    let e : utc_fields (date_utc c.year (c.month - 1) c.day) ≡ c =
      unfold day_number in utc_fields-day_number c h in
    rw e (ground (arith, day-le c h))

-- A date is valid exactly if it is one of the Gregorian calendar, from the year 100 on: the month is
-- one of the twelve, and the day is one of that month's in that year.
pub is_valid_ymd_iff : (c : YearMonthDay) → (is_valid_ymd c ≡ true) ↔ IsDate c
is_valid_ymd_iff c = (is_valid_ymd_sound c, is_valid_ymd_complete c)
