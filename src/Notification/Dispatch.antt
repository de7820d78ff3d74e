-- ===== src/Notification/Dispatch.antt =====
-- backend/src/notification/notification.service.ts: a push of a coupon to every device of its user.
-- The database client and the FCM client are parameters.
pub mod Requests
pub mod Outcomes
pub mod Safety
use coupi.Prelude.{
  ℕ, suc, ◌+◌, Bool, true, false, ◌||◌, not, Option, none, some, List, [], ◌∷◌, ◌++◌, if◌then◌else◌,
  Text, units, text_eq,
}
use coupi.Domain.{NotificationType, CouponStatus, active, expired, used, dismissed}
use coupi.Calendar.Dates.{YearMonthDay, utc_fields}
use coupi.Instants.{utc_day}
use coupi.Numerals.{iso_string_date}
use coupi.Effects.{Exec, pure, on_left, on_right, ◌>>=◌, ◌>>◌}
use coupi.Notification.Message.{NotificationContent, build_notification, message}
use coupi.Notification.Fcm.{SendRequest, SendFailure, SendResult, delivered, failure}

pub data DispatchVerdict : Type 0 where
  sent skipped no_devices : DispatchVerdict

pub record DispatchOutcome : Type 0 where
  pub verdict : DispatchVerdict
  pub reason : Option Text
  pub sent : ℕ
  pub failed : ℕ
  pub should_retry : Bool

-- What `coupon.findUnique` selects. `expiry_date` is an instant, as a date column is read.
pub record CouponRow : Type 0 where
  pub sender : Text
  pub user_id : Text
  pub notifications_enabled : Option Bool
  pub discount : Option Text
  pub expiry_date : Option ℕ
  pub status : Option CouponStatus

pub record DeviceRow : Type 0 where
  pub id : Text
  pub fcm_token : Text

-- The calls of the database. `find_sent` selects the device ids of the rows of `notifications` with
-- the coupon, the type and the status 'sent'; the two creations write the status 'skipped_disabled'
-- without a device and 'pending' with one, the latter returning the id; `mark_failed` also counts a
-- retry.
pub record PushDatabase (D : Type 0) : Type 0 where
  pub find_coupon : Text → Exec D (Option CouponRow)
  pub create_skipped : Text → NotificationType → Exec D (Unit {0})
  pub find_devices : Text → Exec D (List DeviceRow)
  pub find_sent : Text → NotificationType → Exec D (List (Option Text))
  pub create_pending : Text → Text → NotificationType → Exec D Text
  pub mark_sent : Text → Exec D (Unit {0})
  pub mark_failed : Text → Exec D (Unit {0})
  pub delete_device : Text → Exec D (Unit {0})

abbrev status_text : Option CouponStatus → Text
status_text none = units "(없음)"
status_text (some active) = units "active"
status_text (some expired) = units "expired"
status_text (some used) = units "used"
status_text (some dismissed) = units "dismissed"

abbrev pub is_active : Option CouponStatus → Bool
is_active (some active) = true
is_active _ = false

-- `enabled === false`
abbrev pub is_disabled : Option Bool → Bool
is_disabled none = false
is_disabled (some b) = not b

-- `expiryDate.toISOString().slice(0, 10)`, of a date in a year of four digits
unfoldable pub expiry_text : Option ℕ → Option Text
expiry_text none = none
expiry_text (some at) = some (iso_string_date (utc_fields (utc_day at)))

-- `alreadySent.has(id)`, where the ids that are null are left out.
unfoldable pub already_sent : Text → List (Option Text) → Bool
already_sent id [] = false
already_sent id (none ∷ rows) = already_sent id rows
already_sent id (some row ∷ rows) = text_eq row id || already_sent id rows

abbrev pub skip : Text → DispatchOutcome
skip reason = record {
  verdict = skipped;
  reason = some reason;
  sent = 0;
  failed = 0;
  should_retry = false;
}

-- The three variables of the loop.
pub record Tally : Type 0 where
  pub sent : ℕ
  pub failed : ℕ
  pub should_retry : Bool

abbrev pub no_tally : Tally
no_tally = record { sent = 0; failed = 0; should_retry = false }

-- What every push of one dispatch has in common.
pub record Push : Type 0 where
  pub coupon_id : Text
  pub notification_type : NotificationType
  pub content : NotificationContent

unfoldable pub request_to : Push → DeviceRow → SendRequest
request_to push device = record {
  fcm_token = device.fcm_token;
  content = push.content;
  coupon_id = push.coupon_id;
  notification_type = push.notification_type;
}

-- What a result adds to the tally.
unfoldable pub count : SendResult → Tally → Tally
count delivered t = record t { sent = t.sent + 1 }
count (failure r) t = record t {
  failed = t.failed + 1;
  should_retry = if not r.permanent then true else t.should_retry;
}

abbrev pub push_of : Text → NotificationType → CouponRow → ℕ → Push
push_of coupon_id notification_type coupon now = record {
  coupon_id = coupon_id;
  notification_type = notification_type;
  content =
      build_notification
        (record {
          sender = coupon.sender;
          discount = coupon.discount;
          expiry_date = expiry_text coupon.expiry_date;
          notification_type = notification_type;
        })
        now;
}

module _ {D : Type 0} (db : PushDatabase D) where
  unfoldable pub record_result : DeviceRow → Text → SendResult → Exec D (Unit {0})
  record_result device notification delivered = db.mark_sent notification
  record_result device notification (failure r) =
      if r.unregistered
      then (do db.delete_device device.id; db.mark_failed notification)
      else db.mark_failed notification

module _ {D F : Type 0} (db : PushDatabase D) (send : SendRequest → Exec F SendResult) where
  -- One round of the loop, for a device that has not been sent the push.
  unfoldable pub push_to : Push → DeviceRow → Tally → Exec (D × F) Tally
  push_to push device t = do
    notification ← on_left (db.create_pending push.coupon_id device.id push.notification_type)
    result ← on_right (send (request_to push device))
    on_left (record_result db device notification result)
    pure (count result t)

  unfoldable pub push_to_all :
      Push → List (Option Text) → List DeviceRow → Tally → Exec (D × F) Tally
  push_to_all push rows [] t = pure t
  push_to_all push rows (device ∷ devices) t =
      if already_sent device.id rows
      then push_to_all push rows devices t
      else (do next ← push_to push device t; push_to_all push rows devices next)

  unfoldable pub push_to_devices :
      Text → NotificationType → CouponRow → ℕ → List DeviceRow → Exec (D × F) DispatchOutcome
  push_to_devices coupon_id notification_type coupon now [] =
      pure
        (record { verdict = no_devices; reason = none; sent = 0; failed = 0; should_retry = false })
  push_to_devices coupon_id notification_type coupon now (device ∷ devices) = do
    rows ← on_left (db.find_sent coupon_id notification_type)
    t ←
        push_to_all (push_of coupon_id notification_type coupon now) rows (device ∷ devices)
          no_tally
    pure (record {
      verdict = sent;
      reason = none;
      sent = t.sent;
      failed = t.failed;
      should_retry = t.should_retry;
    })

  unfoldable pub dispatch_coupon :
      Text → NotificationType → ℕ → Option CouponRow → Exec (D × F) DispatchOutcome
  dispatch_coupon coupon_id notification_type now none = pure (skip (units "쿠폰 없음"))
  dispatch_coupon coupon_id notification_type now (some coupon) =
      if not (is_active coupon.status)
      then pure (skip (units "쿠폰 상태 " ++ status_text coupon.status))
      else if is_disabled coupon.notifications_enabled
      then (do on_left (db.create_skipped coupon_id notification_type); pure (skip (units "알림 끔")))
      else (do
        devices ← on_left (db.find_devices coupon.user_id)
        push_to_devices coupon_id notification_type coupon now devices)

  unfoldable pub dispatch : Text → NotificationType → ℕ → Exec (D × F) DispatchOutcome
  dispatch coupon_id notification_type now = do
    coupon ← on_left (db.find_coupon coupon_id)
    dispatch_coupon coupon_id notification_type now coupon

-- For a test that dispatches a coupon.
unfoldable pub dispatching : Unit {0}
unfolding ◌>>=◌ on_left on_right expiry_text already_sent request_to count record_result push_to
    push_to_all push_to_devices dispatch_coupon dispatch text_eq message
dispatching = tt
