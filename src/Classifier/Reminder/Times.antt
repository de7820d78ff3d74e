-- ===== src/Classifier/Reminder/Times.antt =====
-- The reminder of a written expiry date.
use coupi.Prelude.{
  ℕ, zero, suc, ◌+◌, ◌-◌, ◌*◌, ◌/◌, ◌%◌, ◌≤◌, ◌<◌, ◌≡◌, refl, false, some, none, [], ◌∷◌, ◌++◌,
  Text, ltb, ◌==◌, if◌then◌else◌, arith, ◌∙◌, sym, map,
}
use coupi.Instants.{kst_day, day_ms}
use coupi.Calendar.Dates.{YearMonthDay, IsDate, day_number, date_utc}
use coupi.Numerals.{digit, number, value_from, split, split_from}
use coupi.Numerals.IsoDates.{ten, IsTen}
use coupi.Classifier.DateParser.{to_iso}
use coupi.Classifier.DateParser.Expiry.{IsUsual, to_iso-ten, IsDate-IsTen, truthy-to_iso}
use coupi.Classifier.Reminder.{
  date_parts, truthy_number, reminder_at, reminder_of, expiry_reminder_time,
}

not_dash : (n : ℕ) → (digit n == b'-') ≡ false
not_dash n = ground arith

split_from-digit :
    (n : ℕ) (cur s : Text)
    → split_from b'-' cur (digit n ∷ s) ≡ split_from b'-' (cur ++ digit n ∷ []) s
unfolding split_from
split_from-digit n cur s = rw not_dash

split-ten :
    (d : YearMonthDay)
    → split b'-' (ten d)
      ≡ (digit (d.year / 1000) ∷ digit (d.year / 100) ∷ digit (d.year / 10) ∷ digit d.year ∷ [])
        ∷ (digit (d.month / 10) ∷ digit d.month ∷ [])
        ∷ (digit (d.day / 10) ∷ digit d.day ∷ [])
        ∷ []
unfolding split ten split_from
split-ten d = ground arith

number-four :
    (y : ℕ)
    → y ≤ 9999
    → number (digit (y / 1000) ∷ digit (y / 100) ∷ digit (y / 10) ∷ digit y ∷ []) ≡ some y
unfolding number value_from
number-four y h = ground arith

number-two : (n : ℕ) → n ≤ 99 → number (digit (n / 10) ∷ digit n ∷ []) ≡ some n
unfolding number value_from
number-two n h = ground arith

kept : (n : ℕ) → 1 ≤ n → truthy_number (some n) ≡ some n
kept zero h = elim h [ ]
kept (suc n) h = refl

-- The three numbers of a written date.
pub numbers-to_iso :
    (c : YearMonthDay)
    → IsTen c
    → map number (split b'-' (to_iso c)) ≡ some c.year ∷ some c.month ∷ some c.day ∷ []
numbers-to_iso c t =
    let y = number-four c.year t.year_high in
    let m = number-two c.month t.month in
    let d = number-two c.day t.day in rw (to_iso-ten c t, split-ten c, y, m, d)

-- A written date is read back by its parts.
pub date_parts-to_iso : (c : YearMonthDay) → IsDate c → IsTen c → date_parts (to_iso c) ≡ some c
unfolding date_parts
date_parts-to_iso c h t =
    rw (numbers-to_iso c t)
      (rw (kept c.year (omega arith), kept c.month (omega arith), kept c.day (omega arith)))

reminder_at_lem :
    (c : YearMonthDay)
    → IsDate c
    → IsUsual (day_number c)
    → reminder_at c ≡ (day_number c - 1) * day_ms
unfolding reminder_at day_number date_utc
reminder_at_lem c h u = omega arith

-- The reminder of a coupon that expires on a day is set at 09:00 in Korea on the day before, if that
-- is still to come, and is left out otherwise.
pub expiry_reminder_time_lem :
    (c : YearMonthDay) (now : ℕ)
    → IsDate c
    → IsUsual (day_number c)
    → expiry_reminder_time (some (to_iso c)) now
      ≡ (if ltb now ((day_number c - 1) * day_ms) then some ((day_number c - 1) * day_ms) else none)
unfolding expiry_reminder_time reminder_of
expiry_reminder_time_lem c now h u =
    let t = IsDate-IsTen c h u in
    rw (truthy-to_iso c t, reminder_of, date_parts-to_iso c h t, reminder_at_lem c h u)

-- A reminder lies in the future, at nine o'clock in Korea, on the day before the expiry day; so it is
-- not set for a coupon that has expired or expires today.
pub expiry_reminder_time_sound :
    (c : YearMonthDay) (now at : ℕ)
    → IsDate c
    → IsUsual (day_number c)
    → expiry_reminder_time (some (to_iso c)) now ≡ some at
    → (now < at)
      × (kst_day at + 1 ≡ day_number c)
      × ((at + 32400000) % day_ms ≡ 32400000)
      × (kst_day now < day_number c)
expiry_reminder_time_sound c now at h u e =
    let l = sym (expiry_reminder_time_lem c now h u) ∙ e in
    let future : now < (day_number c - 1) * day_ms = ground arith in
    let same : (day_number c - 1) * day_ms ≡ at = ground arith in
    (omega arith, omega arith, omega arith, omega arith)
