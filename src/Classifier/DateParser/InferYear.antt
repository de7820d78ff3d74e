-- ===== src/Classifier/DateParser/InferYear.antt =====
-- `daysBetween`, `isPlausibleExpiry` and `inferYear` of date-parser.ts against day numbers.
use coupi.Prelude.{
  ℕ, ◌+◌, ◌≤◌, ◌<◌, ◌≡◌, ◌↔◌, refl, true, arith, ◌==◌, ◌∙◌, some, none, List, [], ◌∷◌, Bool-cases,
  inl, inr, ◌⊎◌,
}
use mathlib.Core.Path.{subst}
use coupi.Prelude.Int.{sub_ℕ-between, leb_ℤ, pos}
use coupi.Calendar.Dates.{YearMonthDay, IsDate, day_number}
use coupi.Calendar.Order.{day-le, day_number_mono}
use coupi.Classifier.DateParser.{
  days_between, is_plausible_expiry, infer_year, infer_year_from, minus_max_expiry_days_behind,
}
use coupi.Classifier.DateParser.ValidDates.{is_valid_ymd_iff}

-- A date is at most one day before the other.
abbrev pub NotBehind : YearMonthDay → YearMonthDay → Type 0
NotBehind base c = day_number base ≤ day_number c + 1

pub days_between-behind_iff :
    (base c : YearMonthDay)
    → (leb_ℤ minus_max_expiry_days_behind (days_between base c) ≡ true) ↔ NotBehind base c
unfolding days_between day_number
days_between-behind_iff base c = (sub_ℕ-between _ _ 0 0).0

-- A date is plausible exactly if it lies from one day before to 365 days after the receipt.
pub is_plausible_expiry_iff :
    (c base : YearMonthDay)
    → (is_plausible_expiry c base ≡ true)
      ↔ (NotBehind base c × (day_number c ≤ day_number base + 365))
unfolding is_plausible_expiry
is_plausible_expiry_iff c base = ground (arith, days_between-behind_iff base c, ahead)
  where
    ahead : (leb_ℤ (days_between base c) (pos 365) ≡ true) ↔ (day_number c ≤ day_number base + 365)
    ahead = unfold days_between day_number in (sub_ℕ-between _ _ 0 365).1

module _ (month day : ℕ) (base : YearMonthDay) where
  -- The month and the day, in a year.
  abbrev pub in_year : ℕ → YearMonthDay
  in_year year = record { year = year; month = month; day = day }

  -- What the loop asks of a year.
  abbrev pub Qualifies : ℕ → Type 0
  Qualifies year = IsDate (in_year year) × NotBehind base (in_year year)

  infer_year_from-cons :
      (y : ℕ) (ys : List ℕ)
      → ((infer_year_from (y ∷ ys) month day base ≡ some (in_year y)) × Qualifies y)
        ⊎ ((infer_year_from (y ∷ ys) month day base ≡ infer_year_from ys month day base)
            × ¬ Qualifies y)
  unfolding infer_year_from
  infer_year_from-cons y ys =
      ground (arith, is_valid_ymd_iff (in_year y), days_between-behind_iff base (in_year y))

  pub infer_year-cases :
      ((infer_year month day base ≡ some (in_year base.year)) × Qualifies base.year)
      ⊎ (((infer_year month day base ≡ some (in_year (base.year + 1)))
            × (¬ Qualifies base.year)
            × Qualifies (base.year + 1))
          ⊎ ((infer_year month day base ≡ none)
              × (¬ Qualifies base.year)
              × (¬ Qualifies (base.year + 1))))
  unfolding infer_year
  infer_year-cases = elim (infer_year_from-cons base.year ((base.year + 1) ∷ [])) [
    | inl this ↦ inl this
    | inr (first, bad) ↦ elim (infer_year_from-cons (base.year + 1) []) [
      | inl (second, good) ↦ inr (inl (first ∙ second, bad, good))
      | inr (second, worse) ↦
          inr (inr (first ∙ second ∙ (unfold infer_year_from in refl), bad, worse))
    ]
  ]

  in_year_mono :
      (y z : ℕ)
      → IsDate (in_year y)
      → IsDate (in_year z)
      → y ≤ z
      → day_number (in_year y) ≤ day_number (in_year z)
  in_year_mono y z h k le = elim (Bool-cases (y == z)) [
    | inl same ↦ let e : y ≡ z = ground arith in rw e (omega arith)
    | inr other ↦
        let lt : y < z = ground arith in
        let days =
          day_number_mono (in_year y) (in_year z) h k
            (ground (arith, day-le (in_year y) h, day-le (in_year z) k)) in
        omega arith
  ]

  pub record IsEarliest (c : YearMonthDay) : Type 0 where
    pub year : ℕ
    pub same : c ≡ in_year year
    pub qualifies : Qualifies year
    pub earliest : (z : ℕ) → base.year ≤ z → Qualifies z → day_number c ≤ day_number (in_year z)

  -- The inferred date has the month and the day asked for, is a date of the calendar at most one day
  -- before the receipt, and is the earliest such date from the year of the receipt on.
  pub infer_year-IsEarliest : (c : YearMonthDay) → infer_year month day base ≡ some c → IsEarliest c
  infer_year-IsEarliest c e = elim infer_year-cases [
    | inl (found, q) ↦
        let same : c ≡ in_year base.year = cc in
        record {
          year = base.year;
          same = same;
          qualifies = q;
          earliest = λ z le k. rw same (in_year_mono base.year z q.0 k.0 le);
        }
    | inr (inl (found, bad, q)) ↦
        let same : c ≡ in_year (base.year + 1) = cc in
        record {
          year = base.year + 1;
          same = same;
          qualifies = q;
          earliest = λ z le k. rw same (in_year_mono (base.year + 1) z q.0 k.0 (later bad z le k));
        }
    | inr (inr (found, _, _)) ↦ cc
  ]
    where
      later : ¬ Qualifies base.year → (z : ℕ) → base.year ≤ z → Qualifies z → base.year + 1 ≤ z
      later bad z le k = elim (Bool-cases (base.year == z)) [
        | inl same ↦ let e : z ≡ base.year = ground arith in absurd (bad (subst Qualifies e k))
        | inr other ↦ ground arith
      ]

  -- No date is inferred exactly if the month and the day make a date at most one day before the
  -- receipt neither in the year of the receipt nor in the next.
  pub infer_year-eq-none_iff :
      (infer_year month day base ≡ none) ↔ ((¬ Qualifies base.year) × (¬ Qualifies (base.year + 1)))
  infer_year-eq-none_iff = elim infer_year-cases [
    | inl (found, q) ↦ (λ e. cc, λ n. absurd (n.0 q))
    | inr (inl (found, bad, q)) ↦ (λ e. cc, λ n. absurd (n.1 q))
    | inr (inr (found, bad, worse)) ↦ (λ e. (bad, worse), λ n. found)
  ]
