-- ===== src/Notification/Fcm.antt =====
-- backend/src/notification/fcm.client.ts: one push, and what its failure means. The HTTP client, the
-- credentials and the JSON reader are parameters.
use coupi.Prelude.{
  ℕ, Bool, false, ◌&&◌, ◌||◌, not, Option, none, some, List, [], ◌∷◌, ◌++◌, ◌==◌, ltb, leb,
  if◌then◌else◌, Text, units, text_eq,
}
use coupi.Domain.{NotificationType}
use coupi.Effects.{Exec, pure, catch, message_of, ◌>>=◌}
use coupi.Numerals.{string_of, numerals}
use coupi.Notification.Message.{NotificationContent}

pub record SendFailure : Type 0 where
  pub permanent : Bool
  pub unregistered : Bool
  pub reason : Text

pub data SendResult : Type 0 where
  delivered : SendResult
  failure : SendFailure → SendResult

pub record SendRequest : Type 0 where
  pub fcm_token : Text
  pub content : NotificationContent
  pub coupon_id : Text
  pub notification_type : NotificationType

-- The fields of the message that depend on the request.
pub record FcmMessage : Type 0 where
  pub token : Text
  pub notification : NotificationContent
  pub type : NotificationType
  pub coupon_id : Text
  pub deeplink : Text

pub record Response : Type 0 where
  pub is_ok : Bool
  pub status : ℕ

-- What the JSON of an FCM error can hold.
pub record FcmError : Type 0 where
  pub status : Option Text
  pub details : List (Option Text)

pub data Attempt : Type 0 where
  answered : Response → Attempt
  unreachable : Text → Attempt

pub record HttpClient (F : Type 0) : Type 0 where
  pub get_access_token : Exec F (Option Text)
  pub post : Option Text → FcmMessage → Exec F Response
  pub text : Response → Exec F Text

-- `details?.find((d) => d.errorCode)?.errorCode`
unfoldable pub first_code : List (Option Text) → Option Text
first_code [] = none
first_code (none ∷ ds) = first_code ds
first_code (some [] ∷ ds) = first_code ds
first_code (some (c ∷ code) ∷ ds) = some (c ∷ code)

-- `detail ?? parsed.error?.status ?? null`
unfoldable pub code_or_status : Option Text → FcmError → Option Text
code_or_status (some code) e = some code
code_or_status none e = e.status

abbrev is_code : Text → Option Text → Bool
is_code word none = false
is_code word (some code) = text_eq code word

unfoldable pub is_unregistered : ℕ → Option Text → Bool
is_unregistered status error_code =
    is_code (units "UNREGISTERED") error_code
    || is_code (units "NOT_FOUND") error_code
    || status == 404

-- `errorCode ?? 'HTTP ...'`
abbrev code_or_http : Option Text → ℕ → Text
code_or_http none status = units "HTTP " ++ string_of status
code_or_http (some code) status = code

unfoldable pub failure_of : ℕ → Option Text → SendFailure
failure_of status error_code =
    let unregistered = is_unregistered status error_code in
    record {
      permanent = unregistered || (leb 400 status && ltb status 500 && not (status == 429));
      unregistered = unregistered;
      reason = code_or_http error_code status;
    }

-- `parse_error` reads the body's `error`, and is `none` if the body is no JSON or has none.
module _ {F : Type 0} (http : HttpClient F) (parse_error : Text → Option FcmError)
    (scheme : Text) where
  unfoldable pub error_code_of : Text → Option Text
  error_code_of raw_body = elim (parse_error raw_body) [
    | none ↦ none
    | some e ↦ code_or_status (first_code e.details) e
  ]

  unfoldable pub to_failure : ℕ → Text → SendFailure
  to_failure status raw_body = failure_of status (error_code_of raw_body)

  unfoldable pub message_for : SendRequest → FcmMessage
  message_for request = record {
    token = request.fcm_token;
    notification = request.content;
    type = request.notification_type;
    coupon_id = request.coupon_id;
    deeplink = scheme ++ units "://coupons/" ++ request.coupon_id;
  }

  -- The `try` block and its `catch`.
  unfoldable pub attempt : SendRequest → Exec F Attempt
  attempt request =
      catch
        (do
          token ← http.get_access_token
          response ← http.post token (message_for request)
          pure (answered response))
        (λ e. pure (unreachable (message_of e)))

  unfoldable pub answer_of : Response → Exec F SendResult
  answer_of response =
      if response.is_ok
      then pure delivered
      else (do raw_body ← http.text response; pure (failure (to_failure response.status raw_body)))

  unfoldable pub conclude : Attempt → Exec F SendResult
  conclude (answered response) = answer_of response
  conclude (unreachable reason) =
      pure (failure (record { permanent = false; unregistered = false; reason = reason }))

  unfoldable pub send : SendRequest → Exec F SendResult
  send request = do result ← attempt request; conclude result

-- For a test that sends a push.
unfoldable pub fcm : Unit {0}
unfolding numerals first_code code_or_status is_unregistered failure_of error_code_of to_failure
    message_for attempt answer_of conclude send
fcm = tt
