-- ===== src/Notification/Dispatch/Requests.antt =====
-- Which pushes a dispatch asks for, and what its tally says of them.
use coupi.Prelude.{
  ◌+◌, ◌≡◌, refl, sym, ap, ◌∙◌, Bool, true, false, not, ◌||◌, Option, List, [], ◌∷◌, map,
  if◌then◌else◌, Text, length, arith, Bool-cases, inl, inr, any, keep,
}
use coupi.Effects.{ok, Exec, pure, ◌>>=◌}
use coupi.Effects.Calls.{bind-ok, pure-ok, bind-on_left, bind-on_right}
use coupi.Notification.Fcm.{SendRequest, SendResult, delivered, failure}
use coupi.Notification.Dispatch.{
  PushDatabase, DeviceRow, Tally, Push, already_sent, request_to, count, push_to, push_to_all,
}

-- The devices of a list that have not been sent the push, in order.
unfoldable pub unsent : List (Option Text) → List DeviceRow → List DeviceRow
unsent rows [] = []
unsent rows (d ∷ ds) =
    let rest = unsent rows ds in if already_sent d.id rows then rest else d ∷ rest

-- The answers of a list that delivered, the failures, and whether one of these may pass.
pub is_delivered : SendResult → Bool
is_delivered delivered = true
is_delivered (failure r) = false

pub is_transient : SendResult → Bool
is_transient delivered = false
is_transient (failure r) = not r.permanent

pub count_all : List SendResult → Tally → Tally
count_all [] t = t
count_all (r ∷ rs) t = count_all rs (count r t)

pub count_all-sent :
    (rs : List SendResult) (t : Tally)
    → (count_all rs t).sent ≡ length (keep is_delivered rs) + t.sent
unfolding count_all count is_delivered
count_all-sent [] t = omega arith
count_all-sent (delivered ∷ rs) t = omega (arith, count_all-sent rs (count delivered t))
count_all-sent (failure r ∷ rs) t = omega (arith, count_all-sent rs (count (failure r) t))

pub count_all-all :
    (rs : List SendResult) (t : Tally)
    → (count_all rs t).sent + (count_all rs t).failed ≡ length rs + t.sent + t.failed
unfolding count_all count
count_all-all [] t = omega arith
count_all-all (delivered ∷ rs) t = omega (arith, count_all-all rs (count delivered t))
count_all-all (failure r ∷ rs) t = omega (arith, count_all-all rs (count (failure r) t))

pub count_all-retry :
    (rs : List SendResult) (t : Tally)
    → (count_all rs t).should_retry ≡ (any is_transient rs || t.should_retry)
unfolding count_all count is_transient
count_all-retry [] t = refl
count_all-retry (delivered ∷ rs) t = count_all-retry rs (count delivered t)
count_all-retry (failure r ∷ rs) t = ground (arith, count_all-retry rs (count (failure r) t))

module _ {F : Type 0} (send : SendRequest → Exec F SendResult) where
  -- One send for each request, in order.
  unfoldable pub send_each : List SendRequest → Exec F (List SendResult)
  send_each [] = pure []
  send_each (r ∷ rs) = do answer ← send r; answers ← send_each rs; pure (answer ∷ answers)

  send_each-cons :
      (r : SendRequest) (rs : List SendRequest) (a : SendResult) (answers : List SendResult)
      (f g h : F)
      → send r f ≡ (ok a, g)
      → send_each rs g ≡ (ok answers, h)
      → send_each (r ∷ rs) f ≡ (ok (a ∷ answers), h)
  unfolding send_each ◌>>=◌
  send_each-cons r rs a answers f g h e k = rw (e, k)

module _ {D F : Type 0} (db : PushDatabase D) (send : SendRequest → Exec F SendResult) where
  push_to-ok :
      (push : Push) (device : DeviceRow) (t next : Tally) (d d' : D) (f f' : F)
      → push_to db send push device t (d, f) ≡ (ok next, (d', f'))
      → (answer : SendResult) × (send (request_to push device) f ≡ (ok answer, f'))
        × (next ≡ count answer t)
  unfolding push_to
  push_to-ok push device t next d d' f f' e =
      let (n, d1, created, e1) = bind-on_left _ _ _ _ _ _ e in
      let (answer, f1, answered, e2) = bind-on_right _ _ _ _ _ _ e1 in
      let (u, d2, recorded, e3) = bind-on_left _ _ _ _ _ _ e2 in
      let (same, world) = pure-ok _ _ _ _ e3 in (answer, cc, sym same)

  pub push_to_all-ok :
      (push : Push) (rows : List (Option Text)) (devices : List DeviceRow) (t end : Tally)
      (d d' : D) (f f' : F)
      → push_to_all db send push rows devices t (d, f) ≡ (ok end, (d', f'))
      → (answers : List SendResult) × (send_each send
            (map (request_to push) (unsent rows devices))
            f
          ≡ (ok answers, f'))
        × (end ≡ count_all answers t)
  unfolding push_to_all unsent send_each count_all
  push_to_all-ok push rows [] t end d d' f f' e =
      let (same, world) = pure-ok _ _ _ _ e in ([], (unfold pure in cc), sym same)
  push_to_all-ok push rows (device ∷ devices) t end d d' f f' e =
      elim (Bool-cases (already_sent device.id rows)) [
        | inl old ↦ rw old (push_to_all-ok push rows devices t end d d' f f' (rw old at e))
        | inr new ↦
            let (next, (d1, f1), first, second) = bind-ok _ _ _ _ _ (rw new at e) in
            let (answer, answered, counted) = push_to-ok push device t next d d1 f f1 first in
            let (answers, all, total) =
              push_to_all-ok push rows devices next end d1 d' f1 f' second in
            (
              answer ∷ answers,
              rw new (send_each-cons send _ _ _ _ _ _ _ answered all),
              total ∙ ap (count_all answers) counted,
            )
      ]
