-- ===== src/Errors/Answers.antt =====
-- What an answer tells of the error behind it.
use coupi.Prelude.{ℕ, ◌≤◌, ◌≡◌, ◌↔◌, arith}
use coupi.Errors.{
  internal_error, code_for_status, http_exception, HttpException, ExceptionBody, status_of, code_of,
  exception_message, answer,
}

code_for_status-internal_iff : (s : ℕ) → (code_for_status s ≡ internal_error) ↔ (500 ≤ s)
unfolding code_for_status
code_for_status-internal_iff s = ground arith

-- An answer of a failure inside the server, status 500 or above, holds nothing of the error but its
-- status: two errors of the same status, neither with a code of its own, get the same answer, and its
-- code is the internal one.
pub answer-IsOpaque :
    (e : HttpException) (b : ExceptionBody)
    → 500 ≤ e.status
    → (answer (http_exception e) ≡ answer (http_exception (record e { response = b })))
      × ((answer (http_exception e)).code ≡ internal_error)
unfolding answer status_of code_of exception_message
answer-IsOpaque e b h = (ground arith, (code_for_status-internal_iff e.status).1 h)
