-- ===== src/Calendar/Months.antt =====
-- Months within a year, as ECMAScript's `MonthFromTime` and `DateFromTime` count them. Months are
-- numbered from 0, as in `Date.UTC` and `getUTCMonth`.
use coupi.Prelude.{ℕ, zero, suc, ◌+◌, ◌≤◌, ◌<◌, ◌≡◌, Bool, true, false, arith, ltb, if◌then◌else◌}

abbrev leap_day : Bool → ℕ
leap_day l = if l then 1 else 0

-- The days of the year before the month begins; month 12 is the next January.
unfoldable pub month_start : Bool → ℕ → ℕ
month_start l zero = 0
month_start l (suc zero) = 31
month_start l (suc (suc zero)) = 59 + leap_day l
month_start l (suc (suc (suc zero))) = 90 + leap_day l
month_start l (suc (suc (suc (suc zero)))) = 120 + leap_day l
month_start l (suc (suc (suc (suc (suc zero))))) = 151 + leap_day l
month_start l (suc (suc (suc (suc (suc (suc zero)))))) = 181 + leap_day l
month_start l (suc (suc (suc (suc (suc (suc (suc zero))))))) = 212 + leap_day l
month_start l (suc (suc (suc (suc (suc (suc (suc (suc zero)))))))) = 243 + leap_day l
month_start l (suc (suc (suc (suc (suc (suc (suc (suc (suc zero))))))))) = 273 + leap_day l
month_start l (suc (suc (suc (suc (suc (suc (suc (suc (suc (suc zero)))))))))) = 304 + leap_day l
month_start l (suc (suc (suc (suc (suc (suc (suc (suc (suc (suc (suc zero))))))))))) =
    334 + leap_day l
month_start l _ = 365 + leap_day l

unfoldable pub month_in_year : Bool → ℕ → ℕ
unfolding month_start
month_in_year l d =
    if ltb d 31
    then 0
    else if ltb d (59 + leap_day l)
    then 1
    else if ltb d (90 + leap_day l)
    then 2
    else if ltb d (120 + leap_day l)
    then 3
    else if ltb d (151 + leap_day l)
    then 4
    else if ltb d (181 + leap_day l)
    then 5
    else if ltb d (212 + leap_day l)
    then 6
    else if ltb d (243 + leap_day l)
    then 7
    else if ltb d (273 + leap_day l)
    then 8
    else if ltb d (304 + leap_day l)
    then 9
    else if ltb d (334 + leap_day l)
    then 10
    else 11

-- The month found holds the day of the year.
pub month_in_year_bounds :
    (l : Bool) (d : ℕ)
    → d < 365 + leap_day l
    → (month_in_year l d ≤ 11)
      × (month_start l (month_in_year l d) ≤ d)
      × (d < month_start l (suc (month_in_year l d)))
unfolding month_in_year month_start
month_in_year_bounds true d h = ground arith
month_in_year_bounds false d h = ground arith

-- Only one month holds the day of the year.
pub month_in_year_unique :
    (l : Bool) (m d : ℕ)
    → m ≤ 11
    → month_start l m ≤ d
    → d < month_start l (suc m)
    → month_in_year l d ≡ m
unfolding month_in_year month_start
month_in_year_unique true m d h j k = ground arith
month_in_year_unique false m d h j k = ground arith
