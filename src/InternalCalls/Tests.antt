-- ===== src/InternalCalls/Tests.antt =====
-- A call of the task queue in production.
use coupi.Prelude.{◌≡◌, refl, true, Option, none, some, [], ◌∷◌, Text, units}
use coupi.Effects
use coupi.Effects.{Result, ok}
use coupi.Sessions.{unauthorized}
use coupi.InternalCalls.{GuardConfig, Guard, can_activate, internal_calls}
use coupi.InternalCalls.Callers.{IsKnown, can_activate-IsKnown}

abbrev config : GuardConfig
config = record {
  pubsub_push_email = none;
  tasks_invoker_email = some (units "tasks@coupi.kr");
  audience = some (units "api");
  is_production = true;
}

abbrev guard : Guard
guard = record {
  allowed_emails = units "tasks@coupi.kr" ∷ [];
  audience = some (units "api");
  is_production = true;
}

-- A check that takes the token for the email.
abbrev verify_id_token : Text → Option Text → Option (Option Text)
verify_id_token token audience = some (some token)

can_activate-IsKnown_example : IsKnown verify_id_token guard (some (units "Bearer tasks@coupi.kr"))
unfolding internal_calls
can_activate-IsKnown_example =
    can_activate-IsKnown verify_id_token config guard (some (units "Bearer tasks@coupi.kr")) true
      refl refl refl

stranger :
    can_activate verify_id_token guard (some (units "Bearer me@x.kr"))
    ≡ Effects.thrown (unauthorized (units "허용되지 않은 호출자다."))
unfolding internal_calls
stranger = refl
