-- ===== src/Errors.antt =====
-- backend/src/common/errors: the codes of app-error.ts, and what http-exception.filter.ts answers.
pub mod Answers
pub mod Tests
use coupi.Prelude.{
  ℕ, Bool, true, false, Option, none, some, List, [], ◌∷◌, ◌++◌, leb, ◌==◌, if◌then◌else◌, Text,
  units,
}

pub data ErrorCode : Type 0 where
  gmail_token_revoked gmail_auth_failed mail_account_already_connected : ErrorCode
  unauthorized forbidden not_found bad_request internal_error : ErrorCode

unfoldable pub code_for_status : ℕ → ErrorCode
code_for_status status =
    if status == 401
    then unauthorized
    else if status == 403
    then forbidden
    else if status == 404
    then not_found
    else if leb 500 status
    then internal_error
    else bad_request

-- What `getResponse()` gives: a text, or an object with its `message`.
pub data ExceptionBody : Type 0 where
  text_body : Text → ExceptionBody
  message_body : Text → ExceptionBody
  messages_body : List Text → ExceptionBody
  empty_body : ExceptionBody

pub record HttpException : Type 0 where
  pub status : ℕ
  pub response : ExceptionBody

pub data Exception : Type 0 where
  app_error : ErrorCode → HttpException → Exception
  http_exception : HttpException → Exception
  other_exception : Text → Exception

pub record Answer : Type 0 where
  pub status : ℕ
  pub code : ErrorCode
  pub message : Text

unfoldable pub status_of : Exception → ℕ
status_of (app_error code e) = e.status
status_of (http_exception e) = e.status
status_of (other_exception message) = 500

unfoldable pub code_of : Exception → ℕ → ErrorCode
code_of (app_error code e) status = code
code_of (http_exception e) status = code_for_status status
code_of (other_exception message) status = code_for_status status

abbrev pub not_processed : Text
not_processed = units "요청을 처리하지 못했습니다."

unfoldable pub join : List Text → Text
join [] = []
join (m ∷ []) = m
join (m ∷ n ∷ ms) = m ++ units ", " ++ join (n ∷ ms)

unfoldable pub body_message : ExceptionBody → Text
body_message (text_body text) = text
body_message (message_body []) = not_processed
body_message (message_body (c ∷ message)) = c ∷ message
body_message (messages_body messages) = join messages
body_message empty_body = not_processed

unfoldable pub own_message : Exception → Text
own_message (app_error code e) = body_message e.response
own_message (http_exception e) = body_message e.response
own_message (other_exception message) = not_processed

unfoldable pub exception_message : Exception → ℕ → Text
exception_message exception status = if leb 500 status then not_processed else own_message exception

-- `catch`, less its log.
unfoldable pub answer : Exception → Answer
answer exception = record {
  status = status_of exception;
  code = code_of exception (status_of exception);
  message = exception_message exception (status_of exception);
}

-- For a test that answers an error.
unfoldable pub answering : Unit {0}
unfolding code_for_status status_of code_of join body_message own_message exception_message answer
answering = tt
