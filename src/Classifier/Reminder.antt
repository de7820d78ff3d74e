-- ===== src/Classifier/Reminder.antt =====
-- backend/src/coupon-classifier/expiry-reminder.util.ts: when the reminder of a coupon is sent.
pub mod Times
use coupi.Prelude.{
  ℕ, ◌+◌, ◌-◌, ◌*◌, Option, none, some, List, [], ◌∷◌, map, Text, ltb, if◌then◌else◌, truthy, zero,
  suc,
}
use coupi.Instants.{day_ms, hour_ms, kst_offset_ms}
use coupi.Calendar.Dates.{YearMonthDay, date_utc, calendar}
use coupi.Numerals.{number, split, numerals}

abbrev pub reminder_hour_kst : ℕ
reminder_hour_kst = 9

-- `!n` on a number refuses 0 and NaN; a missing part is undefined, and refused too.
abbrev pub truthy_number : Option ℕ → Option ℕ
truthy_number none = none
truthy_number (some zero) = none
truthy_number (some (suc n)) = some (suc n)

abbrev with_parts : Option ℕ → Option ℕ → Option ℕ → Option YearMonthDay
with_parts (some y) (some m) (some d) = some (record { year = y; month = m; day = d })
with_parts _ _ _ = none

abbrev three_parts : List (Option ℕ) → Option YearMonthDay
three_parts (y ∷ m ∷ d ∷ rest) = with_parts (truthy_number y) (truthy_number m) (truthy_number d)
three_parts _ = none

-- `const [year, month, day] = expiryDate.split('-').map(Number)` and the test behind it.
unfoldable pub date_parts : Text → Option YearMonthDay
date_parts expiry_date = three_parts (map number (split b'-' expiry_date))

-- 09:00 in Korea on the day before the expiry day, as an instant. The calendar works in whole days.
unfoldable pub reminder_at : YearMonthDay → ℕ
reminder_at c =
    (date_utc c.year (c.month - 1) (c.day - 1) * day_ms + reminder_hour_kst * hour_ms)
    - kst_offset_ms

unfoldable pub reminder_of : Option Text → ℕ → Option ℕ
reminder_of none now = none
reminder_of (some expiry_date) now = elim (date_parts expiry_date) [
  | none ↦ none
  | some c ↦ if ltb now (reminder_at c) then some (reminder_at c) else none
]

unfoldable pub expiry_reminder_time : Option Text → ℕ → Option ℕ
expiry_reminder_time expiry_date now = reminder_of (truthy expiry_date) now

-- For a test that computes a reminder.
unfoldable pub reminder : Unit {0}
unfolding date_parts reminder_at reminder_of expiry_reminder_time calendar numerals
reminder = tt
