-- ===== src/Coupons/Tests.antt =====
-- Runs of the list of coupons, and the theorems about it at these inputs.
use coupi.Prelude.{ℕ, ◌+◌, ◌*◌, ◌≡◌, refl, false, not, ◌&&◌, some, none, units, leb, arith}
use coupi.Domain.{active}
use coupi.Instants.{kst_day}
use coupi.Calendar.Dates.{YearMonthDay, IsDate, day_number, calendar}
use coupi.Classifier.DateParser.{to_iso}
use coupi.Classifier.DateParser.Expiry.{IsUsual}
use coupi.Classifier.Validity.{ExtractedCoupon, check}
use coupi.Coupons.{
  CouponRow, active_coupons, expiring_coupons, expired_coupons, to_coupon_dto, coupons,
}
use coupi.Coupons.Filters.{shows, shows-active, shows-check}

abbrev christmas : YearMonthDay
christmas = record { year = 2026; month = 12; day = 25 }

christmas_day : day_number christmas ≡ 740340
unfolding calendar
christmas_day = refl

christmas-IsDate : IsDate christmas
unfolding calendar
christmas-IsDate = omega arith

christmas-IsUsual : IsUsual (day_number christmas)
unfolding calendar
christmas-IsUsual = omega arith

-- Midnight on 22 December 2026 in UTC.
abbrev december : ℕ
december = 740337 * 86400000

abbrev stored : CouponRow
stored = record {
  id = units "c";
  discount = some (units "15%");
  expiry_date = some (740340 * 86400000);
  conditions = none;
  status = some active;
  created_at = 740330 * 86400000 + 45296789;
  sender = units "쿠팡 <no-reply@coupang.com>";
  provider_message_id = units "m1";
}

stored_dto : to_coupon_dto stored ≡ record {
  id = units "c";
  brand_name = units "쿠팡";
  discount = some (units "15%");
  expiry_date = some (units "2026-12-25");
  conditions = none;
  status = active;
  source_mail_url = units "https://mail.google.com/mail/u/0/#all/m1";
  created_at = units "2026-12-15T12:34:56.789Z";
}
unfolding coupons
stored_dto = refl

shows-active_example :
    (shows active_coupons december stored ≡ some (leb (kst_day december) 740340))
    × (shows expiring_coupons december stored
        ≡ some (leb (kst_day december) 740340 && leb 740340 (kst_day december + 3)))
    × (shows expired_coupons december stored ≡ some (not (leb (kst_day december) 740340)))
shows-active_example = shows-active stored december 740340 refl refl (omega arith, omega arith)

abbrev extracted : ExtractedCoupon
extracted = record {
  discount = some (units "15%");
  expiry_date = some (to_iso christmas);
  conditions = none;
  is_spammy = false;
  extractor_id = units "generic_v1";
}

shows-check_example :
    shows active_coupons december stored ≡ some (check extracted december).usable_now
shows-check_example =
    shows-check stored extracted christmas december refl refl refl (rw christmas_day refl)
      christmas-IsDate christmas-IsUsual (omega arith, omega arith)
