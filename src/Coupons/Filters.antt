-- ===== src/Coupons/Filters.antt =====
-- Which tab of the list a coupon stands in.
use coupi.Prelude.{ℕ, ◌+◌, ◌*◌, ◌≡◌, Bool, false, not, ◌&&◌, Option, none, some, arith, leb}
use coupi.Domain.{active}
use coupi.Instants.{kst_day, day_ms}
use coupi.Calendar.Dates.{
  YearMonthDay, IsDate, day_number, utc_fields, utc_fields-IsDate, day_number-utc_fields,
}
use coupi.Classifier.DateParser.{to_iso}
use coupi.Classifier.DateParser.Expiry.{IsUsual, IsDate-IsTen}
use coupi.Classifier.Validity.{ExtractedCoupon, check}
use coupi.Classifier.Validity.Verdicts.{check_lem}
use coupi.Classifier.Reminder.Times.{date_parts-to_iso}
use coupi.Notification.Message.Days.{to_kst_date_string-to_iso, date_utc-eq-day_number}
use coupi.Coupons.{
  CouponFilter, active_coupons, expiring_coupons, expired_coupons, CouponRow, utc_midnight,
  matches_filter, filter_where,
}

filter_where_lem :
    (filter : CouponFilter) (now : ℕ)
    → IsUsual (kst_day now)
    → filter_where filter now ≡ some (matches_filter filter (kst_day now * day_ms))
unfolding filter_where utc_midnight
filter_where_lem filter now v =
    let k = utc_fields-IsDate (kst_day now) (omega arith) in
    let n = day_number-utc_fields (kst_day now) (omega arith) in
    let b = IsDate-IsTen (utc_fields (kst_day now)) k (rw n v) in
    rw (
      filter_where,
      utc_midnight,
      to_kst_date_string-to_iso now v,
      date_parts-to_iso (utc_fields (kst_day now)) k b,
      date_utc-eq-day_number (utc_fields (kst_day now)) k b.year_low,
      n,
    )

-- Whether a tab shows a coupon; `none` if the day cannot be read.
pub shows : CouponFilter → ℕ → CouponRow → Option Bool
shows filter now row = elim (filter_where filter now) [ none ↦ none | some test ↦ some (test row) ]

-- An active coupon stands under the active ones up to its expiry day in Korea and under the expired
-- ones from the next day on, and under the expiring ones on its expiry day and the three days before
-- it.
pub shows-active :
    (row : CouponRow) (now n : ℕ)
    → row.status ≡ some active
    → row.expiry_date ≡ some (n * day_ms)
    → IsUsual (kst_day now)
    → (shows active_coupons now row ≡ some (leb (kst_day now) n))
      × (shows expiring_coupons now row ≡ some (leb (kst_day now) n && leb n (kst_day now + 3)))
      × (shows expired_coupons now row ≡ some (not (leb (kst_day now) n)))
unfolding shows matches_filter
shows-active row now n s e v = (
  rw (shows, filter_where_lem active_coupons now v, s, e) (ground arith),
  rw (shows, filter_where_lem expiring_coupons now v, s, e) (ground arith),
  rw (shows, filter_where_lem expired_coupons now v, s, e) (ground arith),
)

-- A coupon that the classifier stores, which is active and keeps the midnight of its expiry date, is
-- shown among the active ones exactly as long as the validity checker finds it usable.
pub shows-check :
    (row : CouponRow) (coupon : ExtractedCoupon) (c : YearMonthDay) (now : ℕ)
    → coupon.is_spammy ≡ false
    → coupon.expiry_date ≡ some (to_iso c)
    → row.status ≡ some active
    → row.expiry_date ≡ some (day_number c * day_ms)
    → IsDate c
    → IsUsual (day_number c)
    → IsUsual (kst_day now)
    → shows active_coupons now row ≡ some (check coupon now).usable_now
shows-check row coupon c now clean written s e h u v =
    let (shown, expiring, gone) = shows-active row now (day_number c) s e v in
    let judged = check_lem coupon c now written h u v in rw (shown, judged, clean) (ground arith)
