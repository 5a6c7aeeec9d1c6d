-- ===== src/Routes/Acknowledges.antt =====
-- A callback is acknowledged, and its processing raises nothing.
use daraja_payment_wrapper.Prelude.{
  ◌≡◌, refl, ap, ◌∙◌, Bool, true, false, Option, none, some, if◌then◌else◌, arith, inl, inr,
}
use daraja_payment_wrapper.Errors.{Result, ok, err, value_error, request_validation}
use daraja_payment_wrapper.Exec.{Result-cases}
use daraja_payment_wrapper.Schemas.Callback.{StkCallbackBody}
use daraja_payment_wrapper.Service.{Environment, World}
use daraja_payment_wrapper.Service.Process.{process_callback}
use daraja_payment_wrapper.Routes.{
  StkCallbackEnvelope, RequestBody, object, not_object, no_object, fields, validate_envelope,
  receive, accepted, extract, safe_process_callback, stk_push_callback, run_background,
}

module _ {Raw : Type 0} (model_validate : Raw → Option StkCallbackBody) (is_truthy : Raw → Bool)
    (env : Environment) where
  safe_process_callback_lem :
      (callback : StkCallbackBody) (w : World env)
      → safe_process_callback model_validate is_truthy env callback w
        ≡ (ok tt, (process_callback env callback w).1)
  unfolding safe_process_callback
  safe_process_callback_lem callback w = elim (Result-cases (process_callback env callback w).0) [
    | inl (u, done) ↦ ground (arith, done)
    | inr (e, failed) ↦ ground (arith, failed)
  ]

  -- The callback of a request, where it has one.
  abbrev pub callback_of : RequestBody Raw → Option StkCallbackBody
  callback_of (fields (some (object (some raw)))) =
      if is_truthy raw then model_validate raw else none
  callback_of _ = none

  abbrev pub processed : Option StkCallbackBody → World env → World env
  processed none w = w
  processed (some callback) w = (process_callback env callback w).1

  abbrev pub has_body : RequestBody Raw → Bool
  has_body (fields (some (object _))) = true
  has_body _ = false

  acknowledged :
      (envelope : StkCallbackEnvelope Raw) (w : World env)
      → let (ack, task) = stk_push_callback model_validate is_truthy env envelope in
        (ack ≡ accepted)
        × (run_background model_validate is_truthy env task w ≡ (
          ok tt,
          elim (extract model_validate is_truthy envelope) [
            | ok callback ↦ (process_callback env callback w).1
            | err e ↦ w
          ],
        ))
  unfolding stk_push_callback run_background safe_process_callback
  acknowledged envelope w = elim (Result-cases (extract model_validate is_truthy envelope)) [
    | inr (e, malformed) ↦ rw (malformed, stk_push_callback) (refl, refl)
    | inl (callback, valid) ↦
        rw (valid, stk_push_callback) (refl, safe_process_callback_lem callback w)
  ]

  abbrev read_as : Bool → Option StkCallbackBody → Result StkCallbackBody
  read_as truthy o =
      if truthy then (elim o [ none ↦ err value_error | some body ↦ ok body ]) else err value_error

  processed_of :
      (truthy : Bool) (o : Option StkCallbackBody) (w : World env)
      → elim (read_as truthy o) [ ok callback ↦ (process_callback env callback w).1 | err e ↦ w ]
        ≡ processed (if truthy then o else none) w
  processed_of true none w = refl
  processed_of true (some callback) w = refl
  processed_of false o w = refl

  -- A request whose JSON has an object under "Body" is answered with ResultCode "0" and "Accepted",
  -- whatever the object holds; any other fails validation, and is not acknowledged. The background task
  -- returns without an error. It leaves the state that processing the callback leaves, even if that
  -- raises, when the request has a valid callback; and otherwise nothing happens.
  pub stk_push_callback_acknowledges :
      (request : RequestBody Raw) (w : World env)
      → let (reply, task) = receive model_validate is_truthy env request in
        (reply ≡ (if has_body request then ok accepted else err request_validation))
        × (run_background model_validate is_truthy env task w
            ≡ (ok tt, processed (callback_of request) w))
  unfolding receive validate_envelope stk_push_callback extract run_background
  stk_push_callback_acknowledges no_object w = (refl, refl)
  stk_push_callback_acknowledges (fields none) w = (refl, refl)
  stk_push_callback_acknowledges (fields (some not_object)) w = (refl, refl)
  stk_push_callback_acknowledges (fields (some (object none))) w = (refl, refl)
  stk_push_callback_acknowledges (fields (some (object (some raw)))) w =
      let (ack, left) = acknowledged (record { stk_callback = some raw }) w in
      (ap ok ack, left ∙ ap (λ s. (ok tt, s)) (processed_of (is_truthy raw) (model_validate raw) w))
