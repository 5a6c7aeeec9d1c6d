-- ===== src/Service/Wired/Exhausted.antt =====
-- What becomes of a payment whose Daraja call is retried in vain.
use daraja_payment_wrapper.Prelude.{
  true, ◌+◌, ◌≤◌, Text, ◌++◌, codes, ◌≡◌, ap, ◌∙◌, subst, sym, refl, arith,
}
use daraja_payment_wrapper.Errors.{Error, Result, ok, err, is_transient, retry_exhausted}
use daraja_payment_wrapper.Exec.{◌>>=◌}
use daraja_payment_wrapper.Json.{Dict}
use daraja_payment_wrapper.Schemas.{StkPushInitiateRequest, StkPushInitiateResponse}
use daraja_payment_wrapper.Daraja.{Platform, Host, Tenacity}
use daraja_payment_wrapper.Daraja.Circuit.{closed}
use daraja_payment_wrapper.Daraja.Client.{attempt}
use daraja_payment_wrapper.Daraja.Client.Retry.{post_exhausted}
use daraja_payment_wrapper.Daraja.Stk.{StkArgs, stk_payload, generate_stk_password, initiate}
use daraja_payment_wrapper.Service.{Environment, World, Initiator, transact, new_uuid}
use daraja_payment_wrapper.Service.Initiate.{args, insert_new, call_daraja, dispatch, start}
use daraja_payment_wrapper.Service.Initiate.Safety.{IsAnchored, insert_new-IsAnchored}
use daraja_payment_wrapper.Service.Wired.{wired, host_of, initiator}

start_inserted :
    (env : Environment) (f : Initiator env) (r : StkPushInitiateRequest) (w w' : World env)
    → transact env (insert_new env r (env.uuid4 w.draws)) (record w { draws = w.draws + 1 })
      ≡ (ok tt, w')
    → start env f r w ≡ dispatch env f r (env.uuid4 w.draws) w'
unfolding start new_uuid
start_inserted env f r w w' inserted = ground (arith, inserted)

module _ (pf : Platform) (base : Environment) (tenacity : Tenacity (Host pf))
    (Down : Host pf → Type 0)
    (down : (url : Text) (payload : Dict) (h : Host pf)
      → Down h
      → (e : Error) × ((attempt pf url payload h).0 ≡ err e)
        × (is_transient e ≡ true)
        × Down (tenacity.pause (attempt pf url payload h).1)) where
  initiate_exhausted :
      (a : StkArgs) (h : Host pf)
      → Down h
      → h.circuit.state ≡ closed
      → 1 ≤ pf.daraja_retry_attempts
      → (initiate pf tenacity a h).0 ≡ err retry_exhausted
  unfolding initiate
  initiate_exhausted a h is_down shut some_attempt =
      let path = codes "/mpesa/stkpush/v1/processrequest" in
      let payload = stk_payload pf a (
        generate_stk_password pf.b64encode pf.daraja_shortcode pf.daraja_passkey
          (pf.timestamp h.net)) in
      let (spent, foreign) =
        post_exhausted pf tenacity path payload Down (down (pf.daraja_base_url ++ path) payload) h
          is_down shut some_attempt in
      rw (spent, ◌>>=◌) refl

  module _ (r : StkPushInitiateRequest) where
    dispatch_exhausted :
        (id : Text) (w : World (wired pf base))
        → (initiate pf tenacity (args r) (host_of pf base w)).0 ≡ err retry_exhausted
        → ((dispatch (wired pf base) (initiator pf base tenacity) r id w).0 ≡ err retry_exhausted)
          × ((dispatch (wired pf base) (initiator pf base tenacity) r id w).1.db ≡ w.db)
    unfolding dispatch call_daraja initiator
    dispatch_exhausted id w spent = (ground (arith, spent), ground (arith, spent))

    -- Suppose that the circuit is closed, every attempt to reach Daraja fails with a timeout or a
    -- transport error, and the payment is inserted and committed. Then the caller gets tenacity's
    -- `RetryError`, and the payment stays durably PENDING: nothing marks it as failed.
    pub start_exhausted :
        (w w' : World (wired pf base))
        → transact
            (wired pf base)
            (insert_new (wired pf base) r (base.uuid4 w.draws))
            (record w { draws = w.draws + 1 })
          ≡ (ok tt, w')
        → Down (host_of pf base w')
        → w'.daraja.circuit.state ≡ closed
        → 1 ≤ pf.daraja_retry_attempts
        → ((start (wired pf base) (initiator pf base tenacity) r w).0 ≡ err retry_exhausted)
          × IsAnchored (wired pf base) r (start (wired pf base) (initiator pf base tenacity) r w).1
    start_exhausted w w' inserted is_down shut some_attempt =
        let env = wired pf base in
        let id = base.uuid4 w.draws in
        let spent = initiate_exhausted (args r) (host_of pf base w') is_down shut some_attempt in
        let (raised, same) = dispatch_exhausted id w' spent in
        let anchor =
          insert_new-IsAnchored env r id (record w { draws = w.draws + 1 }) w' inserted in
        subst
          (λ (x : Result StkPushInitiateResponse × World env).
            (x.0 ≡ err retry_exhausted) × IsAnchored env r x.1)
          (sym (start_inserted env (initiator pf base tenacity) r w w' inserted))
          (
            raised,
            record {
              payment = anchor.payment;
              durable = ap (λ s. base.database.durable s anchor.payment.id) same ∙ anchor.durable;
              is_pending = anchor.is_pending;
              same_key = anchor.same_key;
              same_phone = anchor.same_phone;
              same_amount = anchor.same_amount;
            },
          )
