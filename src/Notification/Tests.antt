-- ===== src/Notification/Tests.antt =====
-- Runs of the texts of a push and of a dispatch, and the theorems about them at these inputs.
use coupi.Prelude.{
  ℕ, ◌-◌, ◌*◌, ◌≡◌, refl, true, false, Option, none, some, List, [], ◌∷◌, ◌++◌, map, keep, length,
  Text, units, text_eq, if◌then◌else◌, leb, ◌==◌, ◌⊎◌, All, arith, not,
}
use coupi.Domain.{new_coupon, active}
use coupi.Calendar.Dates.{YearMonthDay, IsDate, day_number, calendar}
use coupi.Numerals.{string_of}
use coupi.Classifier.DateParser.{to_iso}
use coupi.Classifier.DateParser.Expiry.{IsUsual}
use coupi.Classifier.Reminder.{expiry_reminder_time}
use coupi.Effects.{Exec, ok}
use coupi.Effects.Leads.{after}
use coupi.Notification.Message.{sender_display_name, expiry_phrase, build_notification, message}
use coupi.Notification.Message.Days.{expiry_phrase_lem, expiry_phrase-at-reminder}
use coupi.Notification.Fcm.{SendRequest, SendResult, delivered, failure}
use coupi.Notification.Dispatch.{
  PushDatabase, CouponRow, DeviceRow, DispatchOutcome, sent, dispatch, dispatching,
}
use coupi.Notification.Dispatch.Outcomes.{IsPushed, IsQuiet, dispatch_sound}
use coupi.Notification.Dispatch.Safety.{sending, IsDue, dispatch-IsDue}

abbrev christmas : YearMonthDay
christmas = record { year = 2026; month = 12; day = 25 }

christmas_day : day_number christmas ≡ 740340
unfolding calendar
christmas_day = refl

christmas-IsDate : IsDate christmas
unfolding calendar
christmas-IsDate = omega arith

christmas-IsUsual : IsUsual (day_number christmas)
unfolding calendar
christmas-IsUsual = omega arith

-- Midnight on 22 December 2026 in UTC.
abbrev december : ℕ
december = 740337 * 86400000

quoted_name : sender_display_name (units " \"쿠팡\" <no-reply@coupang.com>") ≡ units "쿠팡"
unfolding message
quoted_name = refl

brand_name : sender_display_name (units "<no-reply@coupang.com>") ≡ units "coupang"
unfolding message
brand_name = refl

three_days : expiry_phrase (some (units "2026-12-25")) december ≡ units "D-3 만료"
unfolding message
three_days = refl

new_text :
    build_notification
      (record {
        sender = units "쿠팡 <no-reply@coupang.com>";
        discount = some (units "15%");
        expiry_date = some (units "2026-09-30");
        notification_type = new_coupon;
      })
      december
    ≡ record { title = units "새 쿠폰 도착"; body = units "쿠팡 15% 할인 쿠폰 · 9/30까지 사용가능" }
unfolding message
new_text = refl

expiry_phrase_lem_example : expiry_phrase (some (to_iso christmas)) december ≡ (
    if leb (day_number christmas) 740337
    then units "오늘 자정 만료"
    else if day_number christmas == 740338
    then units "내일 만료"
    else units "D-" ++ string_of (day_number christmas - 740337) ++ units " 만료")
expiry_phrase_lem_example =
    expiry_phrase_lem christmas december christmas-IsDate christmas-IsUsual
      (omega arith, omega arith)

reminder_time : expiry_reminder_time (some (to_iso christmas)) december ≡ some (740339 * 86400000)
unfolding message to_iso
reminder_time = refl

expiry_phrase-at-reminder_example :
    expiry_phrase (some (to_iso christmas)) (740339 * 86400000) ≡ units "내일 만료"
expiry_phrase-at-reminder_example =
    expiry_phrase-at-reminder christmas december (740339 * 86400000) christmas-IsDate
      (rw christmas_day (omega arith, omega arith)) christmas-IsUsual reminder_time

-- A database of one coupon, two devices and the rows of notifications.
record Notification : Type 0 where
  id : Text
  device : Option Text
  status : Text

record Tables : Type 0 where
  devices : List DeviceRow
  notifications : List Notification

abbrev set_status : Text → Text → List Notification → List Notification
set_status id status [] = []
set_status id status (n ∷ ns) =
    let rest = set_status id status ns in
    if text_eq n.id id then record n { status = status } ∷ rest else n ∷ rest

abbrev christmas_coupon : CouponRow
christmas_coupon = record {
  sender = units "쿠팡 <no-reply@coupang.com>";
  user_id = units "u";
  notifications_enabled = some true;
  discount = some (units "15%");
  expiry_date = some (740340 * 86400000);
  status = some active;
}

abbrev of_device : Notification → Option Text
of_device n = n.device

abbrev tables : PushDatabase Tables
tables = record {
  find_coupon = λ id s. (ok (some christmas_coupon), s);
  create_skipped = λ id type s. (ok tt, s);
  find_devices = λ user s. (ok s.devices, s);
  find_sent = λ id type s.
      (ok (map of_device (keep (λ n. text_eq n.status (units "sent")) s.notifications)), s);
  create_pending = λ id device type s. (
    ok (string_of (length s.notifications)),
    record s {
      notifications =
          record {
            id = string_of (length s.notifications);
            device = some device;
            status = units "pending";
          }
          ∷ s.notifications;
    },
  );
  mark_sent =
      λ id s. (ok tt, record s { notifications = set_status id (units "sent") s.notifications });
  mark_failed =
      λ id s. (ok tt, record s { notifications = set_status id (units "failed") s.notifications });
  delete_device =
      λ id s. (ok tt, record s { devices = keep (λ v. not (text_eq v.id id)) s.devices });
}

-- A server that notes the tokens, and knows no token "dead".
abbrev server : SendRequest → Exec (List Text) SendResult
server r f = (
  ok (
      if text_eq r.fcm_token (units "dead")
      then failure (record { permanent = true; unregistered = true; reason = units "UNREGISTERED" })
      else delivered),
  r.fcm_token ∷ f,
)

abbrev two_devices : Tables
two_devices = record {
  devices =
      record { id = units "a"; fcm_token = units "live" }
      ∷ record { id = units "b"; fcm_token = units "dead" }
      ∷ [];
  notifications = [];
}

abbrev first_outcome : DispatchOutcome
first_outcome = record { verdict = sent; reason = none; sent = 1; failed = 1; should_retry = false }

abbrev one_device : Tables
one_device = (dispatch tables server (units "c") new_coupon december (two_devices, [])).1.0

first_run :
    dispatch tables server (units "c") new_coupon december (two_devices, [])
    ≡ (ok first_outcome, (one_device, units "dead" ∷ units "live" ∷ []))
unfolding dispatching
first_run = refl

-- The second delivery of the task sends nothing.
second_run : (dispatch tables server (units "c") new_coupon december (one_device, [])).1.1 ≡ []
unfolding dispatching
second_run = refl

dispatch_sound_example :
    IsPushed tables server
      (units "c")
      new_coupon
      december
      two_devices
      []
      (units "dead" ∷ units "live" ∷ [])
      first_outcome
    ⊎ IsQuiet tables server [] (units "dead" ∷ units "live" ∷ []) first_outcome
dispatch_sound_example =
    dispatch_sound tables server (units "c") new_coupon december two_devices one_device []
      (units "dead" ∷ units "live" ∷ []) first_outcome first_run

dispatch-IsDue_example :
    (requests : List SendRequest) × ((dispatch tables server
        (units "c")
        new_coupon
        december
        (two_devices, [])).1.1
      ≡ after (sending tables server) requests [])
    × All (IsDue tables server (units "c") new_coupon december two_devices) requests
dispatch-IsDue_example = dispatch-IsDue tables server (units "c") new_coupon december two_devices []
