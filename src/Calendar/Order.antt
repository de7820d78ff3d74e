-- ===== src/Calendar/Order.antt =====
-- Dates by their numbers and days are in the same order.
use coupi.Prelude.{
  ℕ, zero, suc, ◌+◌, ◌-◌, ◌*◌, ◌≤◌, ◌<◌, ◌≡◌, Bool, true, false, arith, ltb, ap, Bool-cases, inl,
  inr, ◌⊎◌, ◌==◌,
}
use mathlib.Core.Path.{subst}
use coupi.Calendar.Years.{leap, day_from_year, day_from_year_mono}
use coupi.Calendar.Months.{month_start}
use coupi.Calendar.Dates.{
  YearMonthDay, IsDate, day_of, day_of-lt, day_number, day_number-eq-day_of, month_start_mono,
  days_in_month,
}

-- The number that a date's digits spell.
abbrev pub rank : YearMonthDay → ℕ
rank d = (d.year * 100 + d.month) * 100 + d.day

month_start_leq : (l : Bool) (m n : ℕ) → m ≤ n → n ≤ 12 → month_start l m ≤ month_start l n
month_start_leq l m zero h k =
    let e : m ≡ 0 = omega arith in rw e (unfold month_start in omega arith)
month_start_leq l m (suc n) h k = elim (Bool-cases (m == suc n)) [
  | inl same ↦ let e : m ≡ suc n = ground arith in rw e (omega arith)
  | inr other ↦ omega (
    arith,
    month_start_leq l m n (ground arith) (omega arith),
    month_start_mono l n (omega arith),
  )
]

month_start_step : (l : Bool) (m : ℕ) → m ≤ 11 → month_start l (suc m) ≤ month_start l m + 31
unfolding month_start
month_start_step true m h = ground arith
month_start_step false m h = ground arith

-- An earlier year.
day_of-year :
    (y z m d n e : ℕ)
    → m ≤ 11
    → d < month_start (leap y) (suc m) - month_start (leap y) m
    → y < z
    → day_of y m d < day_of z n e
day_of-year y z m d n e h k lt =
    let a = day_of-lt y m d h k in
    let b = day_from_year_mono (suc y) z lt in unfold day_of in omega arith

-- The same year, an earlier month.
day_of-month :
    (y m d n e : ℕ)
    → n ≤ 11
    → d < month_start (leap y) (suc m) - month_start (leap y) m
    → m < n
    → day_of y m d < day_of y n e
unfolding day_of
day_of-month y m d n e h k lt = omega (arith, month_start_leq (leap y) (suc m) n lt (omega arith))

month_days :
    (d : YearMonthDay)
    → IsDate d
    → d.day - 1
      < month_start (leap d.year) (suc (d.month - 1)) - month_start (leap d.year) (d.month - 1)
unfolding days_in_month
month_days d h = let e : suc (d.month - 1) ≡ d.month = omega arith in rw e (omega arith)

pub day-le : (d : YearMonthDay) → IsDate d → d.day ≤ 31
unfolding days_in_month
day-le d h =
    let e : suc (d.month - 1) ≡ d.month = omega arith in
    let f = month_start_step (leap d.year) (d.month - 1) (omega arith) in
    let g = rw e at f in omega arith

-- A smaller number comes from the year, the month or the day.
module _ (a b : YearMonthDay) (h : IsDate a) (k : IsDate b) where
  rank-cases :
      rank a < rank b
      → (a.year < b.year)
        ⊎ (((a.year ≡ b.year) × (a.month < b.month))
            ⊎ ((a.year ≡ b.year) × (a.month ≡ b.month) × (a.day < b.day)))
  rank-cases lt = ground (arith, day-le a h, day-le b k)

  -- Of two dates, the one with the smaller number is the earlier day.
  pub day_number_mono : rank a < rank b → day_number a < day_number b
  day_number_mono lt =
      rw (day_number-eq-day_of a h, day_number-eq-day_of b k)
        (elim (rank-cases lt) [
          | inl y ↦ day_of-year a.year b.year _ _ _ _ (omega arith) (month_days a h) y
          | inr (inl (y, m)) ↦
              subst
                (λ z. day_of a.year (a.month - 1) (a.day - 1) < day_of z (b.month - 1) (b.day - 1))
                y (day_of-month a.year _ _ _ _ (omega arith) (month_days a h) (omega arith))
          | inr (inr (y, m, d)) ↦ rw (← y, ← m) (unfold day_of in omega arith)
        ])

  rank-injective : rank a ≡ rank b → day_number a ≡ day_number b
  rank-injective e =
      let da = day-le a h in
      let db = day-le b k in
      let y : a.year ≡ b.year = omega arith in
      let m : a.month ≡ b.month = omega arith in
      let d : a.day ≡ b.day = omega arith in
      ap day_number (λ i. record { year = y i; month = m i; day = d i })

module _ (a b : YearMonthDay) (h : IsDate a) (k : IsDate b) where
  pub ltb-day_number : ltb (day_number a) (day_number b) ≡ ltb (rank a) (rank b)
  ltb-day_number =
      ground (arith, day_number_mono a b h k, day_number_mono b a k h, rank-injective a b h k)

-- A date lies in its year.
pub day_number_bounds :
    (d : YearMonthDay)
    → IsDate d
    → (day_from_year d.year ≤ day_number d) × (day_number d < day_from_year (suc d.year))
day_number_bounds d h =
    let e = day_number-eq-day_of d h in
    let low : day_from_year d.year ≤ day_of d.year (d.month - 1) (d.day - 1) =
      (unfold day_of in omega arith) in
    let high = day_of-lt d.year (d.month - 1) (d.day - 1) (omega arith) (month_days d h) in
    (omega arith, omega arith)
