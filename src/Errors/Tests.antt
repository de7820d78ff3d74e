-- ===== src/Errors/Tests.antt =====
-- Answers to some errors, and the theorem about them at these inputs.
use coupi.Prelude.{◌≡◌, refl, units, [], ◌∷◌, arith}
use coupi.Errors.{
  HttpException, internal_error, bad_request, text_body, messages_body, http_exception, answer,
  answering,
}
use coupi.Errors.Answers.{answer-IsOpaque}

refused :
    answer (
      http_exception
        (record { status = 400; response = messages_body (units "a" ∷ units "b" ∷ []) }))
    ≡ record { status = 400; code = bad_request; message = units "a, b" }
unfolding answering
refused = refl

abbrev crash : HttpException
crash = record { status = 503; response = text_body (units "db password wrong") }

answer-IsOpaque_example :
    (answer (http_exception crash)
      ≡ answer (http_exception (record crash { response = text_body [] })))
    × ((answer (http_exception crash)).code ≡ internal_error)
answer-IsOpaque_example = answer-IsOpaque crash (text_body []) (omega arith)
