-- ===== src/Classifier/DateParser.antt =====
-- backend/src/coupon-classifier/extractors/date-parser.ts: the expiry date in the text of a mail.
pub mod ValidDates
pub mod InferYear
pub mod NewYear
pub mod Expiry
use coupi.Prelude.{
  ℕ, suc, ◌+◌, ◌-◌, Bool, true, false, ◌&&◌, ◌||◌, Option, none, some, List, [], ◌∷◌, ◌++◌, Text,
  units, ltb, ◌==◌, if◌then◌else◌, not,
}
use coupi.Prelude.Int.{ℤ, pos, negsuc, sub_ℕ, leb_ℤ}
use coupi.Calendar.Dates.{YearMonthDay, date_utc, utc_fields, calendar}
use coupi.Numerals.{string_of, pad_start_2, number, numerals}
use coupi.Regex.{
  Pattern, ◌>>=◌, ◌>>◌, capture, one, literal, between, optional, exec, digit_class, spaces, regex,
}

abbrev pub max_expiry_days_ahead : ℕ
max_expiry_days_ahead = 365

-- `-MAX_EXPIRY_DAYS_BEHIND`
abbrev pub minus_max_expiry_days_behind : ℤ
minus_max_expiry_days_behind = negsuc 0

abbrev one_or_two : Pattern Text
one_or_two = between 1 2 digit_class

-- ABSOLUTE_DATE
unfoldable pub absolute_date : Pattern (Text × Text × Text)
absolute_date = do
  y ← between 4 4 digit_class
  one (λ c. c == b'-' || c == b'.' || c == b'/')
  m ← one_or_two
  one (λ c. c == b'-' || c == b'.' || c == b'/')
  d ← one_or_two
  capture (y, m, d)

-- ABSOLUTE_KOREAN_DATE
unfoldable pub absolute_korean_date : Pattern (Text × Text × Text)
absolute_korean_date = do
  y ← between 4 4 digit_class
  spaces
  literal (units "년")
  spaces
  m ← one_or_two
  spaces
  literal (units "월")
  spaces
  d ← one_or_two
  spaces
  literal (units "일")
  capture (y, m, d)

abbrev slash_or_dot : ℕ → Bool
slash_or_dot c = c == b'/' || c == b'.'

-- RELATIVE_DATE_PATTERNS
unfoldable pub month_day_until : Pattern (Text × Text)
month_day_until = do
  m ← one_or_two
  spaces
  one slash_or_dot
  spaces
  d ← one_or_two
  spaces
  optional (units "일")
  spaces
  literal (units "까지")
  capture (m, d)

unfoldable pub tilde_month_day : Pattern (Text × Text)
tilde_month_day = do
  literal (units "~")
  spaces
  m ← one_or_two
  spaces
  one slash_or_dot
  spaces
  d ← one_or_two
  capture (m, d)

unfoldable pub korean_until : Pattern (Text × Text)
korean_until = do
  m ← one_or_two
  spaces
  literal (units "월")
  spaces
  d ← one_or_two
  spaces
  literal (units "일")
  spaces
  literal (units "까지")
  capture (m, d)

unfoldable pub tilde_korean : Pattern (Text × Text)
tilde_korean = do
  literal (units "~")
  spaces
  m ← one_or_two
  spaces
  literal (units "월")
  spaces
  d ← one_or_two
  spaces
  literal (units "일")
  capture (m, d)

unfoldable pub is_valid_ymd : YearMonthDay → Bool
is_valid_ymd c =
    if ltb c.month 1 || ltb 12 c.month || ltb c.day 1 || ltb 31 c.day
    then false
    else let d = utc_fields (date_utc c.year (c.month - 1) c.day) in
      d.year == c.year && d.month - 1 == c.month - 1 && d.day == c.day

unfoldable pub to_iso : YearMonthDay → Text
to_iso c = string_of c.year ++ b'-' ∷ pad_start_2 c.month ++ b'-' ∷ pad_start_2 c.day

-- The two dates are midnights, so the quotient is whole and rounds to itself.
unfoldable pub days_between : YearMonthDay → YearMonthDay → ℤ
days_between from to =
    sub_ℕ (date_utc to.year (to.month - 1) to.day) (date_utc from.year (from.month - 1) from.day)

-- The two rounds of the loop of `inferYear`.
unfoldable pub infer_year_from : List ℕ → ℕ → ℕ → YearMonthDay → Option YearMonthDay
infer_year_from [] month day received = none
infer_year_from (year ∷ years) month day received =
    let candidate : YearMonthDay = record { year = year; month = month; day = day } in
    let next = infer_year_from years month day received in
    if not (is_valid_ymd candidate)
    then next
    else if leb_ℤ minus_max_expiry_days_behind (days_between received candidate)
    then some candidate
    else next

unfoldable pub infer_year : ℕ → ℕ → YearMonthDay → Option YearMonthDay
infer_year month day received =
    infer_year_from (received.year ∷ (received.year + 1) ∷ []) month day received

unfoldable pub is_plausible_expiry : YearMonthDay → YearMonthDay → Bool
is_plausible_expiry candidate received =
    let diff = days_between received candidate in
    leb_ℤ minus_max_expiry_days_behind diff && leb_ℤ diff (pos max_expiry_days_ahead)

-- `Number(m[i])` of captured digits. A capture always holds a digit.
abbrev numeral : Text → ℕ
numeral s = elim (number s) [ none ↦ 0 | some n ↦ n ]

-- What the first loop makes of a pattern's captures.
unfoldable pub absolute_candidate : YearMonthDay → Text × Text × Text → Option YearMonthDay
absolute_candidate base (y, m, d) =
    let candidate : YearMonthDay = record {
      year = numeral y;
      month = numeral m;
      day = numeral d;
    } in
    if not (is_valid_ymd candidate)
    then none
    else if not (is_plausible_expiry candidate base)
    then none
    else some candidate

-- What the second loop makes of them.
unfoldable pub relative_candidate : YearMonthDay → Text × Text → Option YearMonthDay
relative_candidate base (m, d) = elim (infer_year (numeral m) (numeral d) base) [
  | none ↦ none
  | some inferred ↦ if not (is_plausible_expiry inferred base) then none else some inferred
]

-- The loops: the first pattern whose captures make a candidate.
unfoldable pub first_candidate :
    {A : Type 0} → (A → Option YearMonthDay) → Text → List (Pattern A) → Option YearMonthDay
first_candidate f text [] = none
first_candidate f text (p ∷ ps) = elim (exec p text) [
  | none ↦ first_candidate f text ps
  | some m ↦ elim (f m) [ none ↦ first_candidate f text ps | some c ↦ some c ]
]

unfoldable pub absolute_patterns : List (Pattern (Text × Text × Text))
absolute_patterns = absolute_korean_date ∷ absolute_date ∷ []

unfoldable pub relative_date_patterns : List (Pattern (Text × Text))
relative_date_patterns = month_day_until ∷ tilde_month_day ∷ korean_until ∷ tilde_korean ∷ []

-- The date that `parseExpiryDate` goes on to print.
unfoldable pub expiry_candidate : Text → YearMonthDay → Option YearMonthDay
expiry_candidate text base =
    elim (first_candidate (absolute_candidate base) text absolute_patterns) [
      | some c ↦ some c
      | none ↦ first_candidate (relative_candidate base) text relative_date_patterns
    ]

-- `local_day` is the day, in the time zone of the process, of an instant: the fields that `toYmd`
-- reads are those of that day.
module _ (local_day : ℕ → ℕ) where
  unfoldable pub to_ymd : ℕ → YearMonthDay
  to_ymd date = utc_fields (local_day date)

  unfoldable pub parse_expiry_date : Text → ℕ → Option Text
  parse_expiry_date text received_at = elim (expiry_candidate text (to_ymd received_at)) [
    | none ↦ none
    | some c ↦ some (to_iso c)
  ]

-- For a test that parses a date.
unfoldable pub date_parser : Unit {0}
unfolding calendar numerals regex absolute_date absolute_korean_date month_day_until tilde_month_day
    korean_until tilde_korean is_valid_ymd to_iso days_between infer_year_from infer_year
    is_plausible_expiry absolute_candidate relative_candidate first_candidate absolute_patterns
    relative_date_patterns expiry_candidate to_ymd parse_expiry_date
date_parser = tt
