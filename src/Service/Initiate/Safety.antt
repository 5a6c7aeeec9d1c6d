-- ===== src/Service/Initiate/Safety.antt =====
-- The two promises about the Daraja call: never before the payment is durable, and never for a key
-- that already has a payment.
use daraja_payment_wrapper.Prelude.{Text, text_eq_refl, ◌≡◌, inl, inr, refl, ◌∙◌, some, ◌+◌, arith}
use daraja_payment_wrapper.Errors.{ok}
use daraja_payment_wrapper.Exec.{Result-cases}
use daraja_payment_wrapper.Payment.{Payment, pending}
use daraja_payment_wrapper.Schemas.{StkPushInitiateRequest}
use daraja_payment_wrapper.Repository.{create}
use daraja_payment_wrapper.Service.{Environment, World, Initiator, transact, new_uuid}
use daraja_payment_wrapper.Service.Steps.{transact-Committed}
use daraja_payment_wrapper.Service.Initiate.{
  args, new_payment, insert_new, call_daraja, dispatch, start, initiate_stk_push,
}
use daraja_payment_wrapper.Service.Initiate.Calls.{initiate_cong}

module _ (env : Environment) where
  open env use {database as pg, redis as rd}

  -- The insertion of a payment whose key is already there does not go through.
  pub insert_taken :
      (r : StkPushInitiateRequest) (id i : Text) (p : Payment) (w w' : World env)
      → pg.row w.db i ≡ some p
      → p.idempotency_key ≡ r.idempotency_key
      → transact env (insert_new env r id) w ≡ (ok tt, w')
      → ⊥
  unfolding insert_new create new_payment
  insert_taken r id i p w w' there same h =
      let c = transact-Committed env (insert_new env r id) w w' h in
      (pg.insert_unique (new_payment r id (pg.utcnow w.db)) w.db c.after c.ran).1 i p there same

  start_taken :
      (f g : Initiator env) (r : StkPushInitiateRequest) (i : Text) (p : Payment) (w : World env)
      → pg.row w.db i ≡ some p
      → p.idempotency_key ≡ r.idempotency_key
      → start env f r w ≡ start env g r w
  unfolding start new_uuid
  start_taken f g r i p w there same =
      let w' : World env = record w { draws = w.draws + 1 } in
      let reply = transact env (insert_new env r (env.uuid4 w.draws)) w' in
      elim (Result-cases reply.0) [
        | inl (u, h) ↦
            absurd (insert_taken r (env.uuid4 w.draws) i p w' reply.1 there same (ground arith))
        | inr (e, h) ↦ ground arith
      ]

  -- If some visible payment has the request's idempotency key, the outcome of the request does not
  -- depend on the Daraja client: whatever the cache and the lock say, Daraja is not asked for a
  -- second charge.
  pub initiate_no_second_charge :
      (f g : Initiator env) (r : StkPushInitiateRequest) (i : Text) (p : Payment) (w : World env)
      → pg.row w.db i ≡ some p
      → p.idempotency_key ≡ r.idempotency_key
      → initiate_stk_push env f r w ≡ initiate_stk_push env g r w
  initiate_no_second_charge f g r i p w there same =
      initiate_cong env f g r w (λ w' rows. start_taken f g r i p w' (rows i ∙ there) same)

  -- A pending payment of the request is durable.
  pub record IsAnchored (r : StkPushInitiateRequest) (w : World env) : Type 0 where
    pub payment : Payment
    pub durable : pg.durable w.db payment.id ≡ some payment
    pub is_pending : payment.status ≡ pending
    pub same_key : payment.idempotency_key ≡ r.idempotency_key
    pub same_phone : payment.phone ≡ r.phone_number
    pub same_amount : payment.amount ≡ r.amount

  pub insert_new-IsAnchored :
      (r : StkPushInitiateRequest) (id : Text) (w w' : World env)
      → transact env (insert_new env r id) w ≡ (ok tt, w')
      → IsAnchored r w'
  unfolding insert_new create new_payment
  insert_new-IsAnchored r id w w' h =
      let c = transact-Committed env (insert_new env r id) w w' h in
      let p = new_payment r id (pg.utcnow w.db) in
      record {
        payment = p;
        durable =
            (pg.commit_ok c.after w'.db c.committed).1 id
            ∙ (pg.insert_ok p w.db c.after c.ran).0 id
            ∙ rw (text_eq_refl id);
        is_pending = refl;
        same_key = refl;
        same_phone = refl;
        same_amount = refl;
      }

  module _ (f g : Initiator env) (r : StkPushInitiateRequest)
      (agree : (w : World env) → IsAnchored r w → f (args r) w ≡ g (args r) w) where
    dispatch_anchored :
        (id : Text) (w : World env) → IsAnchored r w → dispatch env f r id w ≡ dispatch env g r id w
    unfolding dispatch call_daraja
    dispatch_anchored id w anchor = ground (arith, agree w anchor)

    start_anchored : (w : World env) → start env f r w ≡ start env g r w
    unfolding start new_uuid
    start_anchored w =
        let id = env.uuid4 w.draws in
        let w' : World env = record w { draws = w.draws + 1 } in
        let reply = transact env (insert_new env r id) w' in
        elim (Result-cases reply.0) [
          | inl (u, h) ↦ ground (
            arith,
            dispatch_anchored id reply.1 (insert_new-IsAnchored r id w' reply.1 (ground arith)),
          )
          | inr (e, h) ↦ ground arith
        ]

    -- Two Daraja clients that agree wherever a pending payment of the request is durable give the
    -- same outcome: Daraja is asked in no other state, so a crash during the call leaves a record.
    pub initiate_anchored :
        (w : World env) → initiate_stk_push env f r w ≡ initiate_stk_push env g r w
    initiate_anchored w = initiate_cong env f g r w (λ w' rows. start_anchored w')
