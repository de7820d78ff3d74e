-- ===== src/Classifier/Validity/Verdicts.antt =====
-- What the verdict says of the expiry day and of the day in Korea.
use coupi.Prelude.{ℕ, ◌≡◌, true, false, some, ltb, if◌then◌else◌, arith}
use coupi.Instants.{kst_day}
use coupi.Calendar.Dates.{
  YearMonthDay, IsDate, day_number, utc_fields, utc_fields-IsDate, day_number-utc_fields,
}
use coupi.Classifier.DateParser.{to_iso}
use coupi.Classifier.DateParser.Expiry.{IsUsual, text_lt-to_iso, truthy-to_iso, IsDate-IsTen}
use coupi.Classifier.Validity.{
  ExtractedCoupon, usable, spam, expired, check, check_expiry, to_kst_date_string,
}

-- The verdict on a coupon whose expiry date was found, by days: spam first, then whether the day in
-- Korea is past the expiry day. The expiry day itself is still usable.
pub check_lem :
    (coupon : ExtractedCoupon) (c : YearMonthDay) (now : ℕ)
    → coupon.expiry_date ≡ some (to_iso c)
    → IsDate c
    → IsUsual (day_number c)
    → IsUsual (kst_day now)
    → check coupon now ≡ (
        if coupon.is_spammy
        then record { usable_now = false; verdict = spam }
        else if ltb (day_number c) (kst_day now)
        then record { usable_now = false; verdict = expired }
        else record { usable_now = true; verdict = usable })
unfolding check check_expiry to_kst_date_string
check_lem coupon c now e h u v =
    let t = utc_fields-IsDate (kst_day now) (omega arith) in
    let n = day_number-utc_fields (kst_day now) (omega arith) in
    let lt = text_lt-to_iso c (utc_fields (kst_day now)) h t u (rw n v) in
    let kept = truthy-to_iso c (IsDate-IsTen c h u) in rw (e, kept, lt, n)
