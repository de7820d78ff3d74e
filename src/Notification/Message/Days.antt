-- ===== src/Notification/Message/Days.antt =====
-- What a push says of a written expiry date.
use coupi.Prelude.{
  ℕ, ◌+◌, ◌-◌, ◌≤◌, ◌≡◌, true, false, some, ◌∷◌, ◌++◌, ◌∙◌, leb, ◌==◌, if◌then◌else◌, arith, units,
  sym,
}
use coupi.Prelude.Int.{sub_ℕ}
use coupi.Instants.{kst_day}
use coupi.Calendar.Dates.{
  YearMonthDay, IsDate, day_number, date_utc, utc_fields, utc_fields-IsDate, day_number-utc_fields,
}
use coupi.Numerals.{string_of}
use coupi.Numerals.IsoDates.{IsTen, iso_string_date-ten}
use coupi.Classifier.DateParser.{to_iso}
use coupi.Classifier.DateParser.Expiry.{IsUsual, IsDate-IsTen, truthy-to_iso, to_iso-ten}
use coupi.Classifier.Validity.{to_kst_date_string}
use coupi.Classifier.Reminder.{expiry_reminder_time}
use coupi.Classifier.Reminder.Times.{date_parts-to_iso, numbers-to_iso, expiry_reminder_time_sound}
use coupi.Notification.Message.{
  days, today_parts, days_from, days_until, days_until_expiry, phrase_of, expiry_phrase, short_date,
  until_of, until_phrase,
}

pub date_utc-eq-day_number :
    (c : YearMonthDay)
    → IsDate c
    → 1000 ≤ c.year
    → date_utc c.year (c.month - 1) c.day ≡ day_number c
unfolding day_number date_utc
date_utc-eq-day_number c h y = omega arith

-- The day in Korea is written as the parser writes a date.
pub to_kst_date_string-to_iso :
    (now : ℕ) → IsUsual (kst_day now) → to_kst_date_string now ≡ to_iso (utc_fields (kst_day now))
unfolding to_kst_date_string
to_kst_date_string-to_iso now v =
    let h = utc_fields-IsDate (kst_day now) (omega arith) in
    let n = day_number-utc_fields (kst_day now) (omega arith) in
    let t = IsDate-IsTen (utc_fields (kst_day now)) h (rw n v) in
    iso_string_date-ten (utc_fields (kst_day now)) t ∙ sym (to_iso-ten (utc_fields (kst_day now)) t)

today_parts_lem :
    (now : ℕ) → IsUsual (kst_day now) → today_parts now ≡ some (utc_fields (kst_day now))
unfolding today_parts
today_parts_lem now v =
    let h = utc_fields-IsDate (kst_day now) (omega arith) in
    let n = day_number-utc_fields (kst_day now) (omega arith) in
    let t = IsDate-IsTen (utc_fields (kst_day now)) h (rw n v) in
    rw (to_kst_date_string-to_iso now v, numbers-to_iso (utc_fields (kst_day now)) t)

-- The days that are left of a written expiry date are its day less the day in Korea, in Gregorian
-- days.
pub days_until_expiry_lem :
    (c : YearMonthDay) (now : ℕ)
    → IsDate c
    → IsUsual (day_number c)
    → IsUsual (kst_day now)
    → days_until_expiry (some (to_iso c)) now ≡ days (sub_ℕ (day_number c) (kst_day now))
unfolding days_until_expiry days_from days_until
days_until_expiry_lem c now h u v =
    let a = IsDate-IsTen c h u in
    let k = utc_fields-IsDate (kst_day now) (omega arith) in
    let n = day_number-utc_fields (kst_day now) (omega arith) in
    let b = IsDate-IsTen (utc_fields (kst_day now)) k (rw n v) in
    let from = date_utc-eq-day_number (utc_fields (kst_day now)) k b.year_low in
    let to = date_utc-eq-day_number c h a.year_low in
    rw (truthy-to_iso c a, days_until, date_parts-to_iso c h a, today_parts_lem now v, from, to, n)

-- A reminder says that the coupon expires at midnight from the expiry day on, tomorrow on the day
-- before, and counts the days before that.
pub expiry_phrase_lem :
    (c : YearMonthDay) (now : ℕ)
    → IsDate c
    → IsUsual (day_number c)
    → IsUsual (kst_day now)
    → expiry_phrase (some (to_iso c)) now ≡ (
        if leb (day_number c) (kst_day now)
        then units "오늘 자정 만료"
        else if day_number c == kst_day now + 1
        then units "내일 만료"
        else units "D-" ++ string_of (day_number c - kst_day now) ++ units " 만료")
unfolding expiry_phrase phrase_of
expiry_phrase_lem c now h u v = rw (days_until_expiry_lem c now h u v) (ground arith)

-- The reminder that is scheduled for a coupon says, when its time comes, that it expires tomorrow.
pub expiry_phrase-at-reminder :
    (c : YearMonthDay) (now at : ℕ)
    → IsDate c
    → IsUsual (day_number c - 1)
    → IsUsual (day_number c)
    → expiry_reminder_time (some (to_iso c)) now ≡ some at
    → expiry_phrase (some (to_iso c)) at ≡ units "내일 만료"
expiry_phrase-at-reminder c now at h t u e =
    let (future, eve, nine, late) = expiry_reminder_time_sound c now at h u e in
    let first : leb (day_number c) (kst_day at) ≡ false = ground arith in
    let second : (day_number c == kst_day at + 1) ≡ true = ground arith in
    let usual : IsUsual (kst_day at) = (omega arith, omega arith) in
    rw (expiry_phrase_lem c at h u usual, first, second)

-- The push of a new coupon names the month and the day of a written expiry date as numbers.
pub until_phrase-to_iso :
    (c : YearMonthDay)
    → IsTen c
    → until_phrase (some (to_iso c))
      ≡ string_of c.month ++ b'/' ∷ string_of c.day ++ units "까지 사용가능"
unfolding until_phrase short_date until_of
until_phrase-to_iso c t = rw (truthy-to_iso c t, until_of, numbers-to_iso c t)
