-- ===== src/Coupons.antt =====
-- backend/src/coupons: the list of a user's coupons, coupons.service.ts, coupon.dto.ts and
-- dto/list-coupons.dto.ts. A `where` of the database client is the test that it makes of a row.
pub mod Filters
pub mod Tests
use coupi.Prelude.{
  ℕ, ◌+◌, ◌-◌, ◌*◌, ◌/◌, ◌%◌, Bool, true, false, ◌&&◌, ◌||◌, Option, none, some, List, [], ◌∷◌, map,
  ◌++◌, ltb, leb, Text, units,
}
use coupi.Domain.{CouponStatus, active, expired, used, dismissed}
use coupi.Instants.{day_ms, utc_day}
use coupi.Effects.{Exec, other_error, pure, throw, ◌>>=◌}
use coupi.Calendar.Dates.{YearMonthDay, date_utc, utc_fields}
use coupi.Numerals.{digit, iso_string_date}
use coupi.Classifier.Validity.{to_kst_date_string}
use coupi.Classifier.Reminder.{date_parts}
use coupi.Notification.Message.{sender_display_name, message}

pub data CouponFilter : Type 0 where
  active_coupons expiring_coupons expired_coupons : CouponFilter

abbrev pub expiring_within_days : ℕ
expiring_within_days = 3

-- The columns of a coupon that the list reads; a date column is read as an instant.
pub record CouponRow : Type 0 where
  pub id : Text
  pub discount : Option Text
  pub expiry_date : Option ℕ
  pub conditions : Option Text
  pub status : Option CouponStatus
  pub created_at : ℕ
  pub sender : Text
  pub provider_message_id : Text

-- `new Date(date + 'T00:00:00Z')`, which is `none` when it is invalid.
unfoldable pub utc_midnight : Text → Option ℕ
utc_midnight date = elim (date_parts date) [
  | none ↦ none
  | some c ↦ some (date_utc c.year (c.month - 1) c.day * day_ms)
]

abbrev pub is_status_active : Option CouponStatus → Bool
is_status_active (some active) = true
is_status_active _ = false

abbrev pub is_status_expired : Option CouponStatus → Bool
is_status_expired (some expired) = true
is_status_expired _ = false

-- A comparison with a null column does not hold.
abbrev is_before : ℕ → Option ℕ → Bool
is_before today none = false
is_before today (some at) = ltb at today

abbrev is_between : ℕ → ℕ → Option ℕ → Bool
is_between today limit none = false
is_between today limit (some at) = leb today at && leb at limit

abbrev is_open : ℕ → Option ℕ → Bool
is_open today none = true
is_open today (some at) = leb today at

unfoldable pub matches_filter : CouponFilter → ℕ → CouponRow → Bool
matches_filter expired_coupons today row =
    is_status_expired row.status || is_before today row.expiry_date
matches_filter expiring_coupons today row =
    is_status_active row.status
    && is_between today (today + expiring_within_days * day_ms) row.expiry_date
matches_filter active_coupons today row =
    is_status_active row.status && is_open today row.expiry_date

-- `none` when the day cannot be read, which the database client refuses.
unfoldable pub filter_where : CouponFilter → ℕ → Option (CouponRow → Bool)
filter_where filter now = elim (utc_midnight (to_kst_date_string now)) [
  | none ↦ none
  | some today ↦ some (matches_filter filter today)
]

pub record CouponDto : Type 0 where
  pub id : Text
  pub brand_name : Text
  pub discount : Option Text
  pub expiry_date : Option Text
  pub conditions : Option Text
  pub status : CouponStatus
  pub source_mail_url : Text
  pub created_at : Text

unfoldable pub gmail_url : Text → Text
gmail_url provider_message_id =
    units "https://mail.google.com/mail/u/0/#all/" ++ provider_message_id

abbrev two : ℕ → Text
two n = digit (n / 10) ∷ digit n ∷ []

-- `toISOString()`
unfoldable pub iso_string : ℕ → Text
iso_string at =
    let ms = at % day_ms in
    iso_string_date (utc_fields (utc_day at))
    ++ b'T' ∷ two (ms / 3600000)
    ++ b':' ∷ two (ms / 60000 % 60)
    ++ b':' ∷ two (ms / 1000 % 60)
    ++ b'.' ∷ digit (ms / 100) ∷ two ms
    ++ b'Z' ∷ []

-- `status ?? 'active'`
abbrev status_or_active : Option CouponStatus → CouponStatus
status_or_active none = active
status_or_active (some s) = s

abbrev date_text : Option ℕ → Option Text
date_text none = none
date_text (some at) = some (iso_string_date (utc_fields (utc_day at)))

unfoldable pub to_coupon_dto : CouponRow → CouponDto
to_coupon_dto row = record {
  id = row.id;
  brand_name = sender_display_name row.sender;
  discount = row.discount;
  expiry_date = date_text row.expiry_date;
  conditions = row.conditions;
  status = status_or_active row.status;
  source_mail_url = gmail_url row.provider_message_id;
  created_at = iso_string row.created_at;
}

pub data CouponSort : Type 0 where
  expiry_asc created_desc : CouponSort

abbrev map_row : Option CouponRow → Option CouponDto
map_row none = none
map_row (some row) = some (to_coupon_dto row)

-- The queries of the table coupons: the rows of a user that pass a test, in an order, where coupons
-- without an expiry date stand last and equal ones by their creation; and the row of an id and a user.
module _ {W : Type 0} (find_many : Text → (CouponRow → Bool) → CouponSort → Exec W (List CouponRow))
    (find_first : Text → Text → Exec W (Option CouponRow)) where
  unfoldable pub list_where :
      Text → Option (CouponRow → Bool) → CouponSort → Exec W (List CouponDto)
  list_where user_id none sort = throw (other_error none (units "Invalid value"))
  list_where user_id (some where_test) sort = do
    rows ← find_many user_id where_test sort
    pure (map to_coupon_dto rows)

  unfoldable pub list : Text → CouponFilter → CouponSort → ℕ → Exec W (List CouponDto)
  list user_id filter sort now = list_where user_id (filter_where filter now) sort

  unfoldable pub find_one : Text → Text → Exec W (Option CouponDto)
  find_one user_id coupon_id = do row ← find_first coupon_id user_id; pure (map_row row)

-- For a test that lists coupons.
unfoldable pub coupons : Unit {0}
unfolding message utc_midnight matches_filter filter_where gmail_url iso_string to_coupon_dto
coupons = tt
