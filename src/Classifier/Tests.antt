-- ===== src/Classifier/Tests.antt =====
-- Runs of the date parser, the verdict and the reminder, and the theorems about them at these inputs.
use coupi.Prelude.{
  ℕ, ◌+◌, ◌-◌, ◌*◌, ◌/◌, ◌≤◌, ◌≡◌, ◌↔◌, refl, true, false, none, some, arith, units, ltb,
  if◌then◌else◌,
}
use coupi.Instants.{day_ms, kst_day}
use coupi.Calendar.Dates.{YearMonthDay, IsDate, day_number, calendar}
use coupi.Numerals.IsoDates.{ten}
use coupi.Classifier.Validity.{ExtractedCoupon, usable, spam, expired, check, validity}
use coupi.Classifier.Validity.Verdicts.{check_lem}
use coupi.Classifier.DateParser.{
  is_valid_ymd, to_iso, is_plausible_expiry, infer_year, parse_expiry_date, date_parser,
}
use coupi.Classifier.DateParser.ValidDates.{is_valid_ymd_iff}
use coupi.Classifier.DateParser.InferYear.{
  NotBehind, is_plausible_expiry_iff, IsEarliest, infer_year-IsEarliest,
}
use coupi.Classifier.DateParser.NewYear.{new_year, last_day, infer_year-new_year}
use coupi.Classifier.DateParser.Expiry.{IsUsual, parse_expiry_date_sound}
use coupi.Classifier.Reminder.{expiry_reminder_time, reminder}
use coupi.Classifier.Reminder.Times.{expiry_reminder_time_lem}

-- A process that runs in UTC.
abbrev utc : ℕ → ℕ
utc at = at / 86400000

abbrev christmas : YearMonthDay
christmas = record { year = 2026; month = 12; day = 25 }

abbrev leap_day : YearMonthDay
leap_day = record { year = 2027; month = 2; day = 29 }

-- Noon on 20 September 2026 in UTC.
abbrev september : ℕ
september = 740244 * 86400000 + 43200000

christmas_day : day_number christmas ≡ 740340
unfolding calendar
christmas_day = refl

september_text :
    parse_expiry_date utc (units "20% OFF ~ 10/15") september ≡ some (units "2026-10-15")
unfolding date_parser
september_text = refl

korean_text :
    parse_expiry_date utc (units "2026-02-29, 2026년 12월 25일까지") september
    ≡ some (units "2026-12-25")
unfolding date_parser
korean_text = refl

next_year_text : parse_expiry_date utc (units "1/5까지") september ≡ some (units "2027-01-05")
unfolding date_parser
next_year_text = refl

far_text : parse_expiry_date utc (units "2028-01-01까지") september ≡ none
unfolding date_parser
far_text = refl

parse_expiry_date_sound_example :
    (c : YearMonthDay) × IsDate c
    × (units "2026-10-15" ≡ ten c)
    × (utc september ≤ day_number c + 1)
    × (day_number c ≤ utc september + 365)
parse_expiry_date_sound_example =
    parse_expiry_date_sound utc (units "20% OFF ~ 10/15") september (units "2026-10-15")
      (omega arith) (omega arith) september_text

is_valid_ymd_iff_example : (is_valid_ymd leap_day ≡ true) ↔ IsDate leap_day
is_valid_ymd_iff_example = is_valid_ymd_iff leap_day

is_plausible_expiry_iff_example :
    (is_plausible_expiry christmas leap_day ≡ true)
    ↔ (NotBehind leap_day christmas × (day_number christmas ≤ day_number leap_day + 365))
is_plausible_expiry_iff_example = is_plausible_expiry_iff christmas leap_day

january : infer_year 1 5 christmas ≡ some (record { year = 2027; month = 1; day = 5 })
unfolding date_parser
january = refl

infer_year-IsEarliest_example :
    IsEarliest 1 5 christmas (record { year = 2027; month = 1; day = 5 })
infer_year-IsEarliest_example =
    infer_year-IsEarliest 1 5 christmas (record { year = 2027; month = 1; day = 5 }) january

christmas-IsDate : IsDate christmas
unfolding calendar
christmas-IsDate = omega arith

christmas-IsUsual : IsUsual (day_number christmas)
unfolding calendar
christmas-IsUsual = omega arith

abbrev tenth : ExtractedCoupon
tenth = record {
  discount = some (units "10%");
  expiry_date = some (to_iso christmas);
  conditions = none;
  is_spammy = false;
  extractor_id = units "generic_v1";
}

check_lem_example : check tenth september ≡ (
    if false
    then record { usable_now = false; verdict = spam }
    else if ltb (day_number christmas) (kst_day september)
    then record { usable_now = false; verdict = expired }
    else record { usable_now = true; verdict = usable })
check_lem_example =
    check_lem tenth christmas september refl christmas-IsDate christmas-IsUsual (omega arith)

-- On the expiry day the coupon is usable until midnight in Korea, 15:00 in UTC.
last_minute :
    check tenth (740340 * 86400000 + 53999999) ≡ record { usable_now = true; verdict = usable }
unfolding validity to_iso
last_minute = refl

midnight :
    check tenth (740340 * 86400000 + 54000000) ≡ record { usable_now = false; verdict = expired }
unfolding validity to_iso
midnight = refl

reminder_test : expiry_reminder_time (some (to_iso christmas)) september ≡ some (740339 * 86400000)
unfolding reminder to_iso
reminder_test = refl

expiry_reminder_time_lem_example : expiry_reminder_time (some (to_iso christmas)) september ≡ (
    if ltb september ((day_number christmas - 1) * day_ms)
    then some ((day_number christmas - 1) * day_ms)
    else none)
expiry_reminder_time_lem_example =
    expiry_reminder_time_lem christmas september christmas-IsDate christmas-IsUsual

infer_year-new_year_example :
    NotBehind (new_year 2027) (last_day 2026)
    × (infer_year 12 31 (new_year 2027) ≡ some (last_day 2027))
    × (is_plausible_expiry (last_day 2027) (new_year 2027) ≡ true)
infer_year-new_year_example = infer_year-new_year 2026 (omega arith)
