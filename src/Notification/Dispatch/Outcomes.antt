-- ===== src/Notification/Dispatch/Outcomes.antt =====
-- What the outcome of a dispatch says.
use coupi.Prelude.{
  ℕ, ◌+◌, ◌≡◌, ◌≢◌, refl, sym, ap, ◌∙◌, true, false, Option, none, some, List, [], ◌∷◌, map, Text,
  length, arith, Bool-cases, inl, inr, any, keep, ◌⊎◌,
}
use coupi.Domain.{NotificationType}
use coupi.Effects.{ok, Exec, pure}
use coupi.Effects.Calls.{bind-ok, pure-ok, bind-on_left}
use coupi.Notification.Fcm.{SendRequest, SendResult}
use coupi.Notification.Dispatch.{
  PushDatabase, DeviceRow, CouponRow, Tally, no_tally, push_of, is_active, is_disabled, request_to,
  DispatchOutcome, DispatchVerdict, sent, skipped, no_devices, push_to_devices, dispatch_coupon,
  dispatch,
}
use coupi.Notification.Dispatch.Requests.{
  unsent, send_each, is_delivered, is_transient, count_all, count_all-sent, count_all-all,
  count_all-retry, push_to_all-ok,
}

abbrev sent_outcome : Tally → DispatchOutcome
sent_outcome t = record {
  verdict = sent;
  reason = none;
  sent = t.sent;
  failed = t.failed;
  should_retry = t.should_retry;
}

tally-outcome :
    (t : Tally) (answers : List SendResult) (outcome : DispatchOutcome)
    → sent_outcome t ≡ outcome
    → t ≡ count_all answers no_tally
    → (outcome.verdict ≡ sent)
      × (outcome.sent ≡ length (keep is_delivered answers))
      × (outcome.sent + outcome.failed ≡ length answers)
      × (outcome.should_retry ≡ any is_transient answers)
tally-outcome t answers outcome same total =
    let whole : outcome ≡ sent_outcome (count_all answers no_tally) =
      sym same ∙ ap sent_outcome total in
    rw whole (
      refl,
      omega (arith, count_all-sent answers no_tally),
      omega (arith, count_all-all answers no_tally),
      ground (arith, count_all-retry answers no_tally),
    )

module _ {D F : Type 0} (db : PushDatabase D) (send : SendRequest → Exec F SendResult) where
  -- The pushes of a dispatch were sent: to whom, and with which answers. The three reads of the
  -- database are made one after the other, before any push.
  pub record IsPushed (coupon_id : Text) (type : NotificationType) (now : ℕ) (d : D) (f f' : F)
      (outcome : DispatchOutcome) : Type 0 where
    pub was_sent : outcome.verdict ≡ sent
    pub coupon : CouponRow
    pub devices : List DeviceRow
    pub rows : List (Option Text)
    pub d1 : D
    pub d2 : D
    pub d3 : D
    pub coupon_found : db.find_coupon coupon_id d ≡ (ok (some coupon), d1)
    pub active : is_active coupon.status ≡ true
    pub enabled : is_disabled coupon.notifications_enabled ≡ false
    pub devices_found : db.find_devices coupon.user_id d1 ≡ (ok devices, d2)
    pub rows_found : db.find_sent coupon_id type d2 ≡ (ok rows, d3)
    pub answers : List SendResult
    pub pushed :
        send_each send
          (map (request_to (push_of coupon_id type coupon now)) (unsent rows devices))
          f
        ≡ (ok answers, f')
    pub sent_count : outcome.sent ≡ length (keep is_delivered answers)
    pub all_count : outcome.sent + outcome.failed ≡ length answers
    pub retry : outcome.should_retry ≡ any is_transient answers

  -- Nothing was sent, and nothing is tried again.
  pub record IsQuiet (f f' : F) (outcome : DispatchOutcome) : Type 0 where
    pub not_sent : outcome.verdict ≢ sent
    pub no_call : f ≡ f'
    pub none_sent : outcome.sent ≡ 0
    pub none_failed : outcome.failed ≡ 0
    pub no_retry : outcome.should_retry ≡ false

  module _ (coupon_id : Text) (type : NotificationType) (now : ℕ) where
    quiet :
        (r : Option Text) (v : DispatchVerdict) (d d' : D) (f f' : F) (outcome : DispatchOutcome)
        → v ≢ sent
        → pure {S = D × F}
            (record { verdict = v; reason = r; sent = 0; failed = 0; should_retry = false })
            (d, f)
          ≡ (ok outcome, (d', f'))
        → IsQuiet f f' outcome
    quiet r v d d' f f' outcome other e =
        let (same, world) = pure-ok _ _ _ _ e in
        rw (sym same) (record {
          not_sent = other;
          no_call = ap (λ w. w.1) world;
          none_sent = refl;
          none_failed = refl;
          no_retry = refl;
        })

    devices-ok :
        (coupon : CouponRow) (devices : List DeviceRow) (d d1 d2 d' : D) (f f' : F)
        (outcome : DispatchOutcome)
        → db.find_coupon coupon_id d ≡ (ok (some coupon), d1)
        → is_active coupon.status ≡ true
        → is_disabled coupon.notifications_enabled ≡ false
        → db.find_devices coupon.user_id d1 ≡ (ok devices, d2)
        → push_to_devices db send coupon_id type coupon now devices (d2, f) ≡ (ok outcome, (d', f'))
        → IsPushed coupon_id type now d f f' outcome ⊎ IsQuiet f f' outcome
    unfolding push_to_devices
    devices-ok coupon [] d d1 d2 d' f f' outcome found act en dev e =
        inr (quiet _ no_devices _ _ _ _ _ (λ x. cc) e)
    devices-ok coupon (v ∷ vs) d d1 d2 d' f f' outcome found act en dev e =
        let (rows, d3, found_rows, e1) = bind-on_left _ _ _ _ _ _ e in
        let (t, (d4, f4), pushed, e2) = bind-ok _ _ _ _ _ e1 in
        let (same, world) = pure-ok _ _ _ _ e2 in
        let (answers, all, total) =
          push_to_all-ok db send _ rows (v ∷ vs) no_tally t d3 d4 f f4 pushed in
        let (v1, v2, v3, v4) = tally-outcome t answers outcome same total in
        inl (record {
          was_sent = v1;
          coupon = coupon;
          devices = v ∷ vs;
          rows = rows;
          d1 = d1;
          d2 = d2;
          d3 = d3;
          coupon_found = found;
          active = act;
          enabled = en;
          devices_found = dev;
          rows_found = found_rows;
          answers = answers;
          pushed = all ∙ ap (λ w. (ok answers, w.1)) world;
          sent_count = v2;
          all_count = v3;
          retry = v4;
        })

    coupon-ok :
        (found : Option CouponRow) (d d1 d' : D) (f f' : F) (outcome : DispatchOutcome)
        → db.find_coupon coupon_id d ≡ (ok found, d1)
        → dispatch_coupon db send coupon_id type now found (d1, f) ≡ (ok outcome, (d', f'))
        → IsPushed coupon_id type now d f f' outcome ⊎ IsQuiet f f' outcome
    unfolding dispatch_coupon
    coupon-ok none d d1 d' f f' outcome read e = inr (quiet _ skipped _ _ _ _ _ (λ x. cc) e)
    coupon-ok (some coupon) d d1 d' f f' outcome read e =
        elim (Bool-cases (is_active coupon.status)) [
          | inr idle ↦ inr (quiet _ skipped _ _ _ _ _ (λ x. cc) (rw idle at e))
          | inl act ↦ elim (Bool-cases (is_disabled coupon.notifications_enabled)) [
            | inl off ↦
                let e1 = rw (act, off) at e in
                let (u, d2, noted, e2) = bind-on_left _ _ _ _ _ _ e1 in
                inr (quiet _ skipped _ _ _ _ _ (λ x. cc) e2)
            | inr on ↦
                let e1 = rw (act, on) at e in
                let (devices, d2, listed, e2) = bind-on_left _ _ _ _ _ _ e1 in
                devices-ok coupon devices d d1 d2 d' f f' outcome read act on listed e2
          ]
        ]

    -- A dispatch that returns has either sent the push to all devices of the user that have no row of
    -- status 'sent', once each and in order, for a coupon that is active and a user who has not
    -- switched pushes off, and then counts the answers and asks for a retry exactly if one of them is
    -- a failure that may pass; or it has sent nothing and asks for no retry.
    pub dispatch_sound :
        (d d' : D) (f f' : F) (outcome : DispatchOutcome)
        → dispatch db send coupon_id type now (d, f) ≡ (ok outcome, (d', f'))
        → IsPushed coupon_id type now d f f' outcome ⊎ IsQuiet f f' outcome
    unfolding dispatch
    dispatch_sound d d' f f' outcome e =
        let (found, d1, read, e1) = bind-on_left _ _ _ _ _ _ e in
        coupon-ok found d d1 d' f f' outcome read e1
