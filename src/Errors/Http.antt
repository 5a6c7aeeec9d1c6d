-- ===== src/Errors/Http.antt =====
-- app/main.py: the exception handlers. Starlette picks the handler of the first class in the
-- exception's method resolution order that has one.
use daraja_payment_wrapper.Prelude.{
  ℕ, ◌<◌, ◌≡◌, ◌↔◌, ◌⊎◌, Bool, true, false, Option, none, some, if◌then◌else◌, arith,
}
use daraja_payment_wrapper.Errors.{
  AppError, app_error, domain_error, validation_error, duplicate_payment, payment_not_found,
  rate_limited, daraja_error, daraja_auth_error, daraja_timeout, daraja_circuit_open, Error, app,
  request_validation,
}

-- The status and the `Retry-After` header of a problem response.
pub record Problem : Type 0 where
  pub status : ℕ
  pub retry_after : Option ℕ

abbrev problem : ℕ → Problem
problem status = record { status = status; retry_after = none }

app_problem : AppError → Problem
app_problem payment_not_found = problem 404
app_problem duplicate_payment = problem 409
app_problem (rate_limited n) = record { status = 429; retry_after = some n }
app_problem (daraja_circuit_open n) = record { status = 503; retry_after = some n }
app_problem (daraja_error _) = problem 502
app_problem (daraja_auth_error _) = problem 502
app_problem (daraja_timeout _) = problem 502
app_problem domain_error = problem 400
app_problem validation_error = problem 400
app_problem _ = problem 500

-- The response that the handler of an exception builds.
unfoldable pub response_to : Error → Problem
unfolding app_problem
response_to (app e) = app_problem e
response_to request_validation = problem 422
response_to _ = problem 500

-- The body of the response is JSON, with the exception's details in it. The only details of a
-- `DuplicatePaymentError` hold a set (app/services/stk.py), which has no JSON; `errors_render` says
-- whether the errors of a request that failed validation have one, which those of a validator that
-- raised a `ValueError` have not.
unfoldable pub renders : Bool → Error → Bool
renders errors_render (app duplicate_payment) = false
renders errors_render request_validation = errors_render
renders errors_render _ = true

-- A handler that raises leaves the request to the server, which answers 500.
unfoldable pub handle : Bool → Error → Problem
unfolding response_to renders
handle errors_render e = if renders errors_render e then response_to e else problem 500

-- `DomainError` and its subclasses.
abbrev pub is_domain_error : Error → Bool
is_domain_error (app domain_error) = true
is_domain_error (app validation_error) = true
is_domain_error (app duplicate_payment) = true
is_domain_error (app payment_not_found) = true
is_domain_error (app (rate_limited _)) = true
is_domain_error _ = false

abbrev pub is_duplicate : Error → Bool
is_duplicate (app duplicate_payment) = true
is_duplicate _ = false

-- A response is a client error, with a status from 400 to 499, exactly for the business-rule
-- violations other than a duplicate payment, and for a request that fails validation with errors that
-- have a JSON form.
pub handle-client_error :
    (errors_render : Bool) (e : Error)
    → ((handle errors_render e).status < 500) ↔ (
        ((is_domain_error e ≡ true) × (is_duplicate e ≡ false))
        ⊎ ((e ≡ request_validation) × (errors_render ≡ true)))
unfolding handle
handle-client_error errors_render (app app_error) = ground arith
handle-client_error errors_render (app _) = ground arith
handle-client_error true request_validation = ground arith
handle-client_error false request_validation = ground arith
handle-client_error errors_render _ = ground arith
