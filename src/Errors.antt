-- ===== src/Errors.antt =====
-- app/exceptions.py: the exception hierarchy, as data, and the mapping of Daraja result codes.
-- The English texts that the code composes for a message are left out; codes, descriptions and
-- numbers are kept.
pub mod Http
pub mod ResultCodes
use daraja_payment_wrapper.Json.{Value}
use daraja_payment_wrapper.Prelude.{ℕ, Text, Bool, true, false, Option}

-- The fields that `DarajaError` adds to `AppError`.
pub record DarajaFailure : Type 0 where
  pub daraja_code : Value
  pub daraja_description : Value
  pub http_status : Option ℕ

-- One constructor for each class of the hierarchy.
pub data AppError : Type 0 where
  app_error : AppError
  domain_error validation_error duplicate_payment payment_not_found : AppError
  rate_limited : (retry_after : ℕ) → AppError
  infra_error : AppError
  daraja_error daraja_auth_error daraja_timeout : DarajaFailure → AppError
  daraja_circuit_open : (retry_after : ℕ) → AppError
  database_error cache_error : AppError

-- What an operation may raise: a class of the hierarchy, or an exception of a library.
-- `retry_exhausted` is tenacity's `RetryError`.
pub data Error : Type 0 where
  app : AppError → Error
  request_validation : Error
  value_error attribute_error type_error address_value_error : Error
  timeout_exception transport_error : Error
  runtime_error : Error
  retry_exhausted : Error
  db_failure redis_failure : Error

-- `except DarajaError`: the class and its subclasses.
abbrev pub is_daraja_error : Error → Bool
is_daraja_error (app (daraja_error _)) = true
is_daraja_error (app (daraja_auth_error _)) = true
is_daraja_error (app (daraja_timeout _)) = true
is_daraja_error (app (daraja_circuit_open _)) = true
is_daraja_error _ = false

-- `except (httpx.TimeoutException, httpx.TransportError)`
abbrev pub is_transient : Error → Bool
is_transient timeout_exception = true
is_transient transport_error = true
is_transient _ = false

pub data Result {ℓ} (A : Type ℓ) : Type ℓ where
  ok : A → Result A
  err : Error → Result A
