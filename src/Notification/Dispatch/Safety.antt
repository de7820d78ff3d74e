-- ===== src/Notification/Dispatch/Safety.antt =====
-- Whom a dispatch can reach, also when a call of the database or of FCM throws.
use coupi.Prelude.{
  ℕ, ◌≡◌, refl, true, false, Option, none, some, List, [], ◌∷◌, Text, Bool-cases, inl, inr, In, All,
}
use coupi.Domain.{NotificationType}
use coupi.Effects.{ok, Exec}
use coupi.Effects.Leads.{
  after, LeadsAt, LeadsAt-pure, LeadsAt-on_left, LeadsAt-bind, LeadsAt-bind_left, LeadsAt-on_right,
}
use coupi.Notification.Fcm.{SendRequest, SendResult}
use coupi.Notification.Dispatch.{
  PushDatabase, DeviceRow, CouponRow, Tally, no_tally, Push, push_of, is_active, is_disabled,
  request_to, already_sent, push_to, push_to_all, push_to_devices, dispatch_coupon, dispatch,
}

module _ {D F : Type 0} (db : PushDatabase D) (send : SendRequest → Exec F SendResult) where
  -- What a send leaves behind, whether it returns or throws.
  abbrev pub sending : SendRequest → F → F
  sending r f = (send r f).1

  push_to-Leads :
      (P : SendRequest → Type 0) (push : Push) (device : DeviceRow) (t : Tally) (w : D × F)
      → P (request_to push device)
      → LeadsAt sending P (push_to db send push device t) w
  unfolding push_to
  push_to-Leads P push device t w p =
      LeadsAt-bind sending P _ _ w (LeadsAt-on_left sending P _ w) λ n v e.
        LeadsAt-bind sending P _ _ v (LeadsAt-on_right sending P _ _ v (λ f. refl) p) λ r u e'.
          LeadsAt-bind sending P _ _ u (LeadsAt-on_left sending P _ u)
            λ x y e''. LeadsAt-pure sending P _ y

  push_to_all-Leads :
      (P : SendRequest → Type 0) (push : Push) (rows : List (Option Text))
      (devices : List DeviceRow) (t : Tally) (w : D × F)
      → ((v : DeviceRow) → In v devices → already_sent v.id rows ≡ false → P (request_to push v))
      → LeadsAt sending P (push_to_all db send push rows devices t) w
  unfolding push_to_all
  push_to_all-Leads P push rows [] t w p = LeadsAt-pure sending P _ w
  push_to_all-Leads P push rows (v ∷ vs) t w p = elim (Bool-cases (already_sent v.id rows)) [
    | inl old ↦ rw old (push_to_all-Leads P push rows vs t w (λ x i s. p x (inr i) s))
    | inr new ↦ rw new (
        LeadsAt-bind sending P _ _ w (push_to-Leads P push v t w (p v (inl refl) new))
          λ next u e. push_to_all-Leads P push rows vs next u (λ x i s. p x (inr i) s))
  ]

  -- A push that the service owes a device: the coupon is there and active, its user has not switched
  -- pushes off, and no row says that the device has got the push of this type.
  pub record IsDue (coupon_id : Text) (type : NotificationType) (now : ℕ) (d : D) (r : SendRequest)
      : Type 0 where
    pub coupon : CouponRow
    pub devices : List DeviceRow
    pub device : DeviceRow
    pub rows : List (Option Text)
    pub d1 : D
    pub d2 : D
    pub d3 : D
    pub coupon_found : db.find_coupon coupon_id d ≡ (ok (some coupon), d1)
    pub active : is_active coupon.status ≡ true
    pub enabled : is_disabled coupon.notifications_enabled ≡ false
    pub devices_found : db.find_devices coupon.user_id d1 ≡ (ok devices, d2)
    pub rows_found : db.find_sent coupon_id type d2 ≡ (ok rows, d3)
    pub listed : In device devices
    pub unsent : already_sent device.id rows ≡ false
    pub asked : r ≡ request_to (push_of coupon_id type coupon now) device

  module _ (coupon_id : Text) (type : NotificationType) (now : ℕ) where
    devices-Leads :
        (coupon : CouponRow) (devices : List DeviceRow) (d d1 d2 : D) (f : F)
        → db.find_coupon coupon_id d ≡ (ok (some coupon), d1)
        → is_active coupon.status ≡ true
        → is_disabled coupon.notifications_enabled ≡ false
        → db.find_devices coupon.user_id d1 ≡ (ok devices, d2)
        → LeadsAt sending
            (IsDue coupon_id type now d)
            (push_to_devices db send coupon_id type coupon now devices)
            (d2, f)
    unfolding push_to_devices
    devices-Leads coupon [] d d1 d2 f found act en dev = LeadsAt-pure sending _ _ _
    devices-Leads coupon (v ∷ vs) d d1 d2 f found act en dev =
        LeadsAt-bind_left sending _ _ _ d2 f λ rows d3 read.
          LeadsAt-bind sending _ _ _ (d3, f)
            (push_to_all-Leads _ _ rows (v ∷ vs) no_tally (d3, f)
              λ x i fresh. record {
                coupon = coupon;
                devices = v ∷ vs;
                device = x;
                rows = rows;
                d1 = d1;
                d2 = d2;
                d3 = d3;
                coupon_found = found;
                active = act;
                enabled = en;
                devices_found = dev;
                rows_found = read;
                listed = i;
                unsent = fresh;
                asked = refl;
              })
            λ t u e. LeadsAt-pure sending _ _ u

    coupon-Leads :
        (found : Option CouponRow) (d d1 : D) (f : F)
        → db.find_coupon coupon_id d ≡ (ok found, d1)
        → LeadsAt sending
            (IsDue coupon_id type now d)
            (dispatch_coupon db send coupon_id type now found)
            (d1, f)
    unfolding dispatch_coupon
    coupon-Leads none d d1 f read = LeadsAt-pure sending _ _ _
    coupon-Leads (some coupon) d d1 f read = elim (Bool-cases (is_active coupon.status)) [
      | inr idle ↦ rw idle (LeadsAt-pure sending _ _ (d1, f))
      | inl act ↦ elim (Bool-cases (is_disabled coupon.notifications_enabled)) [
        | inl off ↦
            rw (act, off)
              (LeadsAt-bind_left sending _ _ _ d1 f λ u d2 e. LeadsAt-pure sending _ _ (d2, f))
        | inr on ↦
            rw (act, on)
              (LeadsAt-bind_left sending _ _ _ d1 f
                λ devices d2 e. devices-Leads coupon devices d d1 d2 f read act on e)
      ]
    ]

    -- However a dispatch ends, also by an error of the database or of FCM, FCM has only been sent
    -- pushes that were due: for an active coupon, to a device of a user who has not switched pushes
    -- off, which no row records as having got it.
    pub dispatch-IsDue :
        (d : D) (f : F)
        → (requests : List SendRequest) × ((dispatch db send coupon_id type now (d, f)).1.1
            ≡ after sending requests f)
          × All (IsDue coupon_id type now d) requests
    unfolding dispatch
    dispatch-IsDue d f =
        LeadsAt-bind_left sending _ _ _ d f λ found d1 read. coupon-Leads found d d1 f read
