-- ===== src/Endpoints/Retries.antt =====
-- Which pushes are tried again.
use coupi.Prelude.{◌≡◌, refl, ◌∙◌, Bool, true, false, some, Text, if◌then◌else◌}
use coupi.Domain.{NotificationType}
use coupi.Effects.{Exec, ok, thrown, pure, throw}
use coupi.Effects.Calls.{bind-go}
use coupi.Notification.Dispatch.{DispatchOutcome}
use coupi.Endpoints.{retry, retry_if, run_task}

module _ {S : Type 0} (dispatch : Text → NotificationType → Exec S DispatchOutcome) where
  retry_if_lem : (b : Bool) (s : S) → retry_if dispatch b s ≡ (if b then thrown retry else ok tt, s)
  unfolding retry_if throw pure
  retry_if_lem true s = refl
  retry_if_lem false s = refl

  -- A task whose dispatch returns is answered with an error exactly if the dispatch asks for a retry.
  pub run_task_lem :
      (coupon_id : Text) (notification_type : NotificationType) (o : DispatchOutcome) (s s' : S)
      → dispatch coupon_id notification_type s ≡ (ok o, s')
      → run_task dispatch (some coupon_id) notification_type s
        ≡ (if o.should_retry then thrown retry else ok tt, s')
  unfolding run_task
  run_task_lem coupon_id notification_type o s s' e =
      bind-go _ _ s s' o e ∙ retry_if_lem o.should_retry s'
