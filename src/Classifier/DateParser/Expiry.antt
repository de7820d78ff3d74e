-- ===== src/Classifier/DateParser/Expiry.antt =====
-- `parseExpiryDate` of date-parser.ts as a whole: what a returned expiry date is.
use coupi.Prelude.{
  ℕ, suc, ◌+◌, ◌≤◌, ◌<◌, ◌≡◌, refl, true, arith, sym, Option, some, none, List, [], ◌∷◌, Text,
  truthy, Bool-cases, Option-cases, inl, inr, ltb, text_lt, ◌∙◌, not, if◌then◌else◌,
}
use mathlib.Core.Path.{subst}
use coupi.Calendar.Years.{day_from_year, day_from_year_mono}
use coupi.Calendar.Dates.{YearMonthDay, IsDate, utc_fields, day_number, day_number-utc_fields}
use coupi.Calendar.Order.{day-le, ltb-day_number, day_number_bounds}
use coupi.Numerals.{iso_string_date}
use coupi.Numerals.Digits.{string_of-four, pad_start_2-two}
use coupi.Numerals.IsoDates.{IsTen, ten, iso_string_date-ten, ten-lt}
use coupi.Regex.{Pattern, exec}
use coupi.Classifier.DateParser.{
  is_valid_ymd, to_iso, is_plausible_expiry, absolute_candidate, relative_candidate, infer_year,
  first_candidate, expiry_candidate, to_ymd, parse_expiry_date, numeral, absolute_patterns,
  relative_date_patterns,
}
use coupi.Classifier.DateParser.ValidDates.{is_valid_ymd_iff}
use coupi.Classifier.DateParser.InferYear.{
  NotBehind, is_plausible_expiry_iff, infer_year-IsEarliest,
}

-- A date of the calendar in the window around the receipt.
pub record IsExpiry (base c : YearMonthDay) : Type 0 where
  pub date : IsDate c
  pub not_behind : NotBehind base c
  pub not_ahead : day_number c ≤ day_number base + 365

module _ (base : YearMonthDay) where
  plausible-IsExpiry :
      (d c : YearMonthDay)
      → IsDate d
      → (if not (is_plausible_expiry d base) then none else some d) ≡ some c
      → IsExpiry base c
  plausible-IsExpiry d c h e =
      let plausible : is_plausible_expiry d base ≡ true = ground arith in
      let same : d ≡ c = ground arith in
      let (low, high) = (is_plausible_expiry_iff d base).0 plausible in
      subst (IsExpiry base) same (record { date = h; not_behind = low; not_ahead = high })

  absolute_candidate-IsExpiry :
      (m : Text × Text × Text) (c : YearMonthDay)
      → absolute_candidate base m ≡ some c
      → IsExpiry base c
  unfolding absolute_candidate
  absolute_candidate-IsExpiry (y, m, d) c e =
      let candidate : YearMonthDay = record {
        year = numeral y;
        month = numeral m;
        day = numeral d;
      } in
      elim (Bool-cases (is_valid_ymd candidate)) [
        | inl valid ↦
            plausible-IsExpiry candidate c ((is_valid_ymd_iff candidate).0 valid)
              (rw (absolute_candidate, valid) at e)
        | inr invalid ↦ cc (rw (absolute_candidate, invalid) at e)
      ]

  relative_candidate-IsExpiry :
      (m : Text × Text) (c : YearMonthDay) → relative_candidate base m ≡ some c → IsExpiry base c
  unfolding relative_candidate
  relative_candidate-IsExpiry (m, d) c e =
      elim (Option-cases (infer_year (numeral m) (numeral d) base)) [
        | inl missed ↦ cc (rw (missed, relative_candidate) at e)
        | inr (i, found) ↦
            let inferred = infer_year-IsEarliest (numeral m) (numeral d) base i found in
            plausible-IsExpiry i c (subst IsDate (sym inferred.same) inferred.qualifies.0)
              (rw (found, relative_candidate) at e)
      ]

  first_candidate-IsExpiry :
      {A : Type 0} (f : A → Option YearMonthDay)
      → ((m : A) (c : YearMonthDay) → f m ≡ some c → IsExpiry base c)
      → (text : Text) (ps : List (Pattern A)) (c : YearMonthDay)
      → first_candidate f text ps ≡ some c
      → IsExpiry base c
  unfolding first_candidate
  first_candidate-IsExpiry f good text [] c e = cc
  first_candidate-IsExpiry f good text (p ∷ ps) c e = elim (Option-cases (exec p text)) [
    | inl missed ↦ first_candidate-IsExpiry f good text ps c (ground arith)
    | inr (m, found) ↦ elim (Option-cases (f m)) [
      | inl rejected ↦ first_candidate-IsExpiry f good text ps c (ground arith)
      | inr (d, made) ↦ good m c (ground arith)
    ]
  ]

  expiry_candidate-IsExpiry :
      (text : Text) (c : YearMonthDay) → expiry_candidate text base ≡ some c → IsExpiry base c
  unfolding expiry_candidate
  expiry_candidate-IsExpiry text c e =
      elim (Option-cases (first_candidate (absolute_candidate base) text absolute_patterns)) [
        | inl missed ↦
            first_candidate-IsExpiry (relative_candidate base) relative_candidate-IsExpiry text
              relative_date_patterns c (ground arith)
        | inr (d, found) ↦
            first_candidate-IsExpiry (absolute_candidate base) absolute_candidate-IsExpiry text
              absolute_patterns c (ground arith)
      ]

-- The days of the years from 1000 to 9999.
abbrev pub IsUsual : ℕ → Type 0
IsUsual n = (365243 ≤ n) × (n < 3652425)

pub IsDate-IsTen : (c : YearMonthDay) → IsDate c → IsUsual (day_number c) → IsTen c
IsDate-IsTen c h (low, high) =
    let y1000 : day_from_year 1000 ≡ 365243 = (unfold day_from_year in refl) in
    let y10000 : day_from_year 10000 ≡ 3652425 = (unfold day_from_year in refl) in
    let b = day_number_bounds c h in
    let le = day_from_year_mono (suc c.year) 1000 in
    let ge = day_from_year_mono 10000 c.year in
    record {
      year_low = grind arith;
      year_high = grind arith;
      month = omega arith;
      day = omega (arith, day-le c h);
    }

pub to_iso-ten : (c : YearMonthDay) → IsTen c → to_iso c ≡ ten c
unfolding to_iso ten
to_iso-ten c h = rw (
  string_of-four c.year h.year_low h.year_high,
  pad_start_2-two c.month h.month,
  pad_start_2-two c.day h.day,
)

pub truthy-to_iso : (c : YearMonthDay) → IsTen c → truthy (some (to_iso c)) ≡ some (to_iso c)
truthy-to_iso c h = rw (to_iso-ten c h) (unfold ten in refl)

-- The texts of two dates are in the order of their days, whichever of the two ways they are written.
pub text_lt-to_iso :
    (c d : YearMonthDay)
    → IsDate c
    → IsDate d
    → IsUsual (day_number c)
    → IsUsual (day_number d)
    → text_lt (to_iso c) (iso_string_date d) ≡ ltb (day_number c) (day_number d)
text_lt-to_iso c d h k u v =
    let a = IsDate-IsTen c h u in
    let b = IsDate-IsTen d k v in
    rw (to_iso-ten c a, iso_string_date-ten d b) (ten-lt c d a b ∙ sym (ltb-day_number c d h k))

module _ (local_day : ℕ → ℕ) where
  -- An expiry date that is returned is the text YYYY-MM-DD of a date of the calendar that lies from
  -- one day before to 365 days after the local day of the receipt, for any mail received from the
  -- year 1002 to the year 9997.
  pub parse_expiry_date_sound :
      (text : Text) (received_at : ℕ) (iso : Text)
      → 366000 ≤ local_day received_at
      → local_day received_at ≤ 3652000
      → parse_expiry_date local_day text received_at ≡ some iso
      → (c : YearMonthDay) × IsDate c
        × (iso ≡ ten c)
        × (local_day received_at ≤ day_number c + 1)
        × (day_number c ≤ local_day received_at + 365)
  unfolding parse_expiry_date to_ymd
  parse_expiry_date_sound text received_at iso low high e =
      elim (Option-cases (expiry_candidate text (utc_fields (local_day received_at)))) [
        | inl missed ↦ cc
        | inr (c, found) ↦
            let x = expiry_candidate-IsExpiry (utc_fields (local_day received_at)) text c found in
            let n = day_number-utc_fields (local_day received_at) (omega arith) in
            let behind = x.not_behind in
            let t = IsDate-IsTen c x.date (omega arith, omega arith) in
            let same : to_iso c ≡ iso = ground arith in
            (c, x.date, sym same ∙ to_iso-ten c t, omega arith, omega arith)
      ]
