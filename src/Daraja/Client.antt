-- ===== src/Daraja/Client.antt =====
-- app/daraja/client.py: `DarajaClient.post` and `_execute_request`.
pub mod Retry
pub mod Requests
use daraja_payment_wrapper.Prelude.{
  ℕ, Text, codes, show, take, Bool, true, false, Option, none, some, [], ◌++◌, leb, ◌==◌,
  if◌then◌else◌,
}
use daraja_payment_wrapper.Errors.{
  Error, Result, ok, err, app, daraja_error, daraja_timeout, transport_error, value_error,
  is_transient,
}
use daraja_payment_wrapper.Exec.{Exec, pure, raise, catch_if, ◌>>=◌, ◌>>◌}
use daraja_payment_wrapper.Json.{Value, null, str, Dict, get_or, Body, object, scalar, malformed}
use daraja_payment_wrapper.Daraja.{Platform, Host, Response, Tenacity}
use daraja_payment_wrapper.Daraja.Circuit.{check_circuit, on_success, on_failure}
use daraja_payment_wrapper.Daraja.Auth.{token_cache_key, on_net, get_token}

-- A response that is parsed: `Any`, an object or another value.
pub data Json : Type 0 where
  fields : Dict → Json
  other_value : Json

-- `errorCode` and `errorMessage` of a client error, each with its default.
unfoldable pub client_error : Response → Error
client_error response =
    let code = str (show response.status_code) in
    let message = str (take 200 response.text) in
    app (
      daraja_error (elim response.json [
        | object body ↦ record {
          daraja_code = get_or (codes "errorCode") code body;
          daraja_description = get_or (codes "errorMessage") message body;
          http_status = some response.status_code;
        }
        | scalar ↦ record {
          daraja_code = code;
          daraja_description = message;
          http_status = some response.status_code;
        }
        | malformed ↦ record {
          daraja_code = code;
          daraja_description = message;
          http_status = some response.status_code;
        }
      ]))

abbrev pub unauthorized : Error
unauthorized = app (
    daraja_error (record { daraja_code = null; daraja_description = null; http_status = some 401 }))

unfoldable pub parse : Body → Result Json
parse (object body) = ok (fields body)
parse scalar = ok other_value
parse malformed = err value_error

module _ (env : Platform) where
  unfoldable pub fail_circuit : Host env → Host env
  fail_circuit w = record w {
    circuit = on_failure env.circuit_breaker_failure_threshold (env.monotonic w.net) w.circuit;
  }

  unfoldable pub check : Exec (Host env) (Unit {0})
  check w =
      let (r, c) =
        check_circuit env.circuit_breaker_recovery_timeout (env.monotonic w.net) w.circuit in
      (r, record w { circuit = c })

  -- The branches on the status of a response.
  unfoldable pub read_response : Response → Exec (Host env) Json
  read_response response w =
      if leb 500 response.status_code
      then (err transport_error, fail_circuit w)
      else if response.status_code == 401
      then (err unauthorized, record w { redis = (env.redis.delete token_cache_key w.redis).1 })
      else if leb 400 response.status_code
      then (err (client_error response), w)
      else (parse response.json, w)

  unfoldable pub execute_request : Text → Dict → Exec (Host env) Json
  execute_request url payload = do
    token ← get_token env
    response ← on_net env (env.http_post url payload token)
    read_response response

  -- One attempt of the loop of `post`.
  unfoldable pub attempt : Text → Dict → Exec (Host env) Json
  attempt url payload =
      catch_if is_transient
        (do
          result ← execute_request url payload
          λ w. (ok result, record w { circuit = on_success w.circuit }))
        (λ e w. (err e, fail_circuit w))

  -- The handler of `post`, which leaves out the text of the exception.
  abbrev pub timed_out : Error → Exec (Host env) Json
  timed_out e = raise (
      app (
        daraja_timeout
          (record { daraja_code = null; daraja_description = str []; http_status = none })))

  module _ (tenacity : Tenacity (Host env)) where
    -- The body of the loop returns or raises, so nothing after the loop is reached.
    unfoldable pub post : Text → Dict → Exec (Host env) Json
    post path payload =
        check
        >> catch_if is_transient
            (tenacity.retrying is_transient env.daraja_retry_attempts
              (attempt (env.daraja_base_url ++ path) payload))
            timed_out
