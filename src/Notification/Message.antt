-- ===== src/Notification/Message.antt =====
-- backend/src/notification/notification-message.util.ts: the title and the body of a push.
pub mod Days
use coupi.Prelude.{
  ℕ, zero, suc, ◌+◌, ◌-◌, Bool, true, false, ◌||◌, not, Option, none, some, List, [], ◌∷◌, ◌++◌,
  map, ◌==◌, leb, if◌then◌else◌, Text, units, truthy, after_last, without_class,
}
use coupi.Prelude.Int.{ℤ, pos, negsuc, sub_ℕ, leb_ℤ}
use coupi.Domain.{NotificationType, new_coupon, expiry_reminder}
use coupi.Calendar.Dates.{YearMonthDay, date_utc}
use coupi.Numerals.{number, split, string_of}
use coupi.Regex.{
  Pattern, ◌>>=◌, ◌>>◌, capture, literal, optional, some_of, lazy_many, spaces, at_end, exec_start,
  trim, space_class, regex,
}
use coupi.Classifier.Validity.{to_kst_date_string, validity}
use coupi.Classifier.Reminder.{date_parts, reminder}

pub record NotificationContent : Type 0 where
  pub title : Text
  pub body : Text

pub record NotificationInput : Type 0 where
  pub sender : Text
  pub discount : Option Text
  pub expiry_date : Option Text
  pub notification_type : NotificationType

-- `/^\s*"?([^"<]*?)"?\s*<[^>]+>\s*$/`
unfoldable pub angle_sender : Pattern Text
angle_sender = do
  spaces
  optional (units "\"")
  display ← lazy_many (λ c. not (c == b'"' || c == b'<'))
  optional (units "\"")
  spaces
  literal (units "<")
  some_of (λ c. not (c == b'>'))
  literal (units ">")
  spaces
  at_end
  capture display

-- `text.split('.')[0]`
abbrev first_label : List Text → Text
first_label [] = []
first_label (label ∷ rest) = label

-- `label || domain`
abbrev label_or : Text → Text → Text
label_or [] domain = domain
label_or (c ∷ label) domain = c ∷ label

unfoldable pub brand_of_address : Text → Text
brand_of_address sender = elim (after_last b'@' sender) [
  | none ↦ trim sender
  | some rest ↦
      let domain = without_class (λ c. c == b'>' || space_class c) rest in
      label_or (first_label (split b'.' domain)) domain
]

-- `angle?.[1]?.trim()`
abbrev trimmed : Option Text → Option Text
trimmed none = none
trimmed (some display) = some (trim display)

unfoldable pub sender_display_name : Text → Text
sender_display_name sender = elim (truthy (trimmed (exec_start angle_sender sender))) [
  | some display ↦ display
  | none ↦ brand_of_address sender
]

-- `null`, `NaN`, or a number of days.
pub data DayCount : Type 0 where
  missing not_a_number : DayCount
  days : ℤ → DayCount

abbrev with_numbers : List (Option ℕ) → Option YearMonthDay
with_numbers (some y ∷ some m ∷ some d ∷ rest) = some (record { year = y; month = m; day = d })
with_numbers _ = none

-- `const [ty, tm, td] = toKstDateString(now).split('-').map(Number)`
unfoldable pub today_parts : ℕ → Option YearMonthDay
today_parts now = with_numbers (map number (split b'-' (to_kst_date_string now)))

-- The two dates are midnights, so the quotient is whole and rounds to itself.
unfoldable pub days_from : Option YearMonthDay → YearMonthDay → DayCount
days_from none c = not_a_number
days_from (some t) c =
    days (sub_ℕ (date_utc c.year (c.month - 1) c.day) (date_utc t.year (t.month - 1) t.day))

unfoldable pub days_until : Option Text → ℕ → DayCount
days_until none now = missing
days_until (some text) now = elim (date_parts text) [
  | none ↦ missing
  | some c ↦ days_from (today_parts now) c
]

unfoldable pub days_until_expiry : Option Text → ℕ → DayCount
days_until_expiry expiry_date now = days_until (truthy expiry_date) now

-- A number that is written into a text: `NaN` for none.
abbrev number_text : Option ℕ → Text
number_text none = units "NaN"
number_text (some n) = string_of n

-- `const [, m, d] = expiryDate.split('-').map(Number)`
abbrev month_and_day : List (Option ℕ) → Text
month_and_day (y ∷ m ∷ d ∷ rest) = number_text m ++ b'/' ∷ number_text d
month_and_day (y ∷ m ∷ []) = number_text m ++ b'/' ∷ units "undefined"
month_and_day _ = units "undefined/undefined"

unfoldable pub short_date : Text → Text
short_date expiry_date = month_and_day (map number (split b'-' expiry_date))

unfoldable pub coupon_label : Text → Option Text → Text
coupon_label sender discount = elim (truthy discount) [
  | some d ↦ sender_display_name sender ++ b' ' ∷ d ++ units " 할인 쿠폰"
  | none ↦ sender_display_name sender ++ units " 쿠폰"
]

abbrev integer_text : ℤ → Text
integer_text (pos n) = string_of n
integer_text (negsuc n) = b'-' ∷ string_of (suc n)

abbrev is_one : ℤ → Bool
is_one (pos n) = n == 1
is_one (negsuc n) = false

unfoldable pub phrase_of : DayCount → Text
phrase_of missing = units "곧 만료"
phrase_of not_a_number = units "D-NaN 만료"
phrase_of (days n) =
    if leb_ℤ n (pos 0)
    then units "오늘 자정 만료"
    else if is_one n
    then units "내일 만료"
    else units "D-" ++ integer_text n ++ units " 만료"

unfoldable pub expiry_phrase : Option Text → ℕ → Text
expiry_phrase expiry_date now = phrase_of (days_until_expiry expiry_date now)

unfoldable pub until_of : Option Text → Text
until_of none = units "사용 가능"
until_of (some text) = short_date text ++ units "까지 사용가능"

unfoldable pub until_phrase : Option Text → Text
until_phrase expiry_date = until_of (truthy expiry_date)

unfoldable pub content_for : NotificationType → Text → Option Text → ℕ → NotificationContent
content_for expiry_reminder label expiry_date now = record {
  title = units "쿠폰 만료 임박";
  body = label ++ units " · " ++ expiry_phrase expiry_date now;
}
content_for new_coupon label expiry_date now = record {
  title = units "새 쿠폰 도착";
  body = label ++ units " · " ++ until_phrase expiry_date;
}

unfoldable pub build_notification : NotificationInput → ℕ → NotificationContent
build_notification input now =
    content_for input.notification_type (coupon_label input.sender input.discount) input.expiry_date
      now

-- For a test that writes a push.
unfoldable pub message : Unit {0}
unfolding reminder validity regex angle_sender brand_of_address sender_display_name today_parts
    days_from days_until days_until_expiry short_date coupon_label phrase_of expiry_phrase until_of
    until_phrase content_for build_notification after_last without_class
message = tt
