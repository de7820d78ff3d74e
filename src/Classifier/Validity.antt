-- ===== src/Classifier/Validity.antt =====
-- backend/src/coupon-classifier/validity-checker.service.ts: is an extracted coupon usable now.
pub mod Verdicts
use coupi.Prelude.{
  ℕ, ◌+◌, ◌/◌, Bool, true, false, Option, none, some, Text, [], ◌∷◌, text_lt, if◌then◌else◌, truthy,
}
use coupi.Instants.{kst_offset_ms, day_ms}
use coupi.Calendar.Dates.{utc_fields, calendar}
use coupi.Numerals.{iso_string_date, numerals}

pub record ExtractedCoupon : Type 0 where
  pub discount : Option Text
  pub expiry_date : Option Text
  pub conditions : Option Text
  pub is_spammy : Bool
  pub extractor_id : Text

pub data ValidityVerdict : Type 0 where
  usable spam extraction_failed expired : ValidityVerdict

pub record ValidityResult : Type 0 where
  pub usable_now : Bool
  pub verdict : ValidityVerdict

unfoldable pub to_kst_date_string : ℕ → Text
to_kst_date_string at = iso_string_date (utc_fields ((at + kst_offset_ms) / day_ms))

unfoldable pub check_expiry : Option Text → ℕ → ValidityResult
check_expiry none now = record { usable_now = false; verdict = extraction_failed }
check_expiry (some expiry_date) now =
    if text_lt expiry_date (to_kst_date_string now)
    then record { usable_now = false; verdict = expired }
    else record { usable_now = true; verdict = usable }

unfoldable pub check : ExtractedCoupon → ℕ → ValidityResult
check coupon now =
    if coupon.is_spammy
    then record { usable_now = false; verdict = spam }
    else check_expiry (truthy coupon.expiry_date) now

-- For a test that runs the check.
unfoldable pub validity : Unit {0}
unfolding to_kst_date_string check_expiry check text_lt calendar numerals
validity = tt
