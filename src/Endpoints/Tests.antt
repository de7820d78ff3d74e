-- ===== src/Endpoints/Tests.antt =====
-- Messages that the internal handlers are called with.
use coupi.Prelude.{ℕ, ◌≡◌, refl, true, none, some, List, [], ◌∷◌, Text, units}
use coupi.Domain.{NotificationType, MailIngestMessage, webhook}
use coupi.Effects.{Exec, ok, thrown, pure, ◌>>=◌}
use coupi.Notification.Dispatch.{DispatchOutcome, sent}
use coupi.Endpoints.{retry, retry_if, run_task, push_dispatch, publish_ingest, receive}

abbrev failing : Text → NotificationType → Exec ℕ DispatchOutcome
failing coupon_id notification_type s =
    (ok (record { verdict = sent; reason = none; sent = 0; failed = 1; should_retry = true }), s)

retried : push_dispatch failing (some (units "c")) none 7 ≡ (thrown retry, 7)
unfolding push_dispatch run_task retry_if ◌>>=◌
retried = refl

acknowledged : push_dispatch failing (some []) none 7 ≡ (ok tt, 7)
unfolding push_dispatch run_task pure
acknowledged = refl

abbrev publish : MailIngestMessage → Text → Exec (List MailIngestMessage) (Unit {0})
publish m key q = (ok tt, m ∷ q)

received :
    receive
      (λ email q. (ok (some (units "a")), q))
      publish
      (record { email_address = some (units "me@x.kr"); history_id = units "9" })
      []
    ≡ (
      ok tt,
      (record {
        mail_account_id = units "a";
        triggered_by = webhook;
        history_id = some (units "9");
      })
          ∷ [],
    )
unfolding receive publish_ingest ◌>>=◌
received = refl
