-- ===== src/Routes.antt =====
-- app/routes/stk.py, the callback route, with its envelope in app/schemas/stk.py; app/routes/health.py.
-- The initiation route is `initiate_stk_push` of the service, and the status route stands in
-- Service/Status.
pub mod Acknowledges
pub mod Ready
mod Tests
use daraja_payment_wrapper.Prelude.{
  ℕ, Text, codes, Bool, true, false, ◌&&◌, Option, none, some, if◌then◌else◌,
}
use daraja_payment_wrapper.Errors.{Error, Result, ok, err, value_error, request_validation}
use daraja_payment_wrapper.Exec.{Exec, pure, raise, catch, ◌>>=◌, ◌>>◌}
use daraja_payment_wrapper.Schemas.Callback.{StkCallbackBody}
use daraja_payment_wrapper.Service.{Environment, World}
use daraja_payment_wrapper.Service.Process.{process_callback}

-- The JSON of a request: what its key "Body" holds, if it is an object.
pub data BodyValue (Raw : Type 0) : Type 0 where
  -- an object, with the value under "stkCallback"
  object : Option Raw → BodyValue Raw
  not_object : BodyValue Raw

pub data RequestBody (Raw : Type 0) : Type 0 where
  -- no JSON, or another value than an object
  no_object : RequestBody Raw
  fields : (body : Option (BodyValue Raw)) → RequestBody Raw

-- `STKCallbackEnvelope`: the value under "stkCallback" in the body, if there is one.
pub record StkCallbackEnvelope (Raw : Type 0) : Type 0 where
  pub stk_callback : Option Raw

-- `Body: dict[str, Any]`: FastAPI validates the request before it calls the route.
unfoldable pub validate_envelope :
    {Raw : Type 0} → RequestBody Raw → Result (StkCallbackEnvelope Raw)
validate_envelope (fields (some (object raw))) = ok (record { stk_callback = raw })
validate_envelope (fields (some not_object)) = err request_validation
validate_envelope (fields none) = err request_validation
validate_envelope no_object = err request_validation

pub record DarajaCallbackAck : Type 0 where
  pub result_code : Text
  pub result_desc : Text

abbrev pub accepted : DarajaCallbackAck
accepted = record { result_code = codes "0"; result_desc = codes "Accepted" }

-- What pydantic and Python make of a JSON value: its validation as a callback body, with a
-- `ValidationError`, which is a `ValueError`, where there is none; and its truth value.
module _ {Raw : Type 0} (model_validate : Raw → Option StkCallbackBody)
    (is_truthy : Raw → Bool) where
  unfoldable pub extract : StkCallbackEnvelope Raw → Result StkCallbackBody
  extract envelope = elim envelope.stk_callback [
    | none ↦ err value_error
    | some raw ↦
        if is_truthy raw
        then (elim (model_validate raw) [ none ↦ err value_error | some body ↦ ok body ])
        else err value_error
  ]

  module _ (env : Environment) where
    unfoldable pub safe_process_callback : StkCallbackBody → Exec (World env) (Unit {0})
    safe_process_callback callback = catch (process_callback env callback) (λ e. pure tt)

    -- The acknowledgement, and the background task, if one is added.
    unfoldable pub stk_push_callback :
        StkCallbackEnvelope Raw → DarajaCallbackAck × Option (Exec (World env) (Unit {0}))
    stk_push_callback envelope = elim (extract envelope) [
      | err e ↦ (accepted, none)
      | ok callback ↦ (accepted, some (safe_process_callback callback))
    ]

    -- The request as it arrives: its reply, and the background task.
    unfoldable pub receive :
        RequestBody Raw → Result DarajaCallbackAck × Option (Exec (World env) (Unit {0}))
    receive request = elim (validate_envelope request) [
      | err e ↦ (err e, none)
      | ok envelope ↦ let (ack, task) = stk_push_callback envelope in (ok ack, task)
    ]

    -- The background task runs after the response is sent.
    unfoldable pub run_background :
        Option (Exec (World env) (Unit {0})) → Exec (World env) (Unit {0})
    run_background none = pure tt
    run_background (some task) = task

-- The body of the readiness response, without the uptime; a check that raised names the error.
pub data Check : Type 0 where
  healthy : Check
  no_response : Check
  raised : Error → Check

pub record Readiness : Type 0 where
  pub status_code : ℕ
  pub postgres : Check
  pub redis : Check

abbrev pub liveness : ℕ
liveness = 200

-- `SELECT 1` and PING, each on its own server.
module _ {Session Store : Type 0} (select_1 : Exec Session (Unit {0}))
    (ping : Exec Store Bool) where
  abbrev pub check_postgres : Session → Check
  check_postgres s = elim (select_1 s).0 [ ok _ ↦ healthy | err e ↦ raised e ]

  abbrev pub check_redis : Store → Check
  check_redis s = elim (ping s).0 [
    | ok pong ↦ if pong then healthy else no_response
    | err e ↦ raised e
  ]

  abbrev pub is_healthy : Check → Bool
  is_healthy healthy = true
  is_healthy _ = false

  unfoldable pub readiness : Session → Store → Readiness
  readiness s r = record {
    status_code = if is_healthy (check_postgres s) && is_healthy (check_redis r) then 200 else 503;
    postgres = check_postgres s;
    redis = check_redis r;
  }
