-- ===== src/Service/Process/Settle.antt =====
-- The whole of `process_callback`: what is durable once it returns.
use daraja_payment_wrapper.Prelude.{
  Text, codes, ◌≡◌, ◌≢◌, ◌⊎◌, inl, inr, ◌∙◌, true, false, none, some, arith,
}
use daraja_payment_wrapper.Errors.{ok}
use daraja_payment_wrapper.Exec.{Result-cases}
use daraja_payment_wrapper.Payment.{Payment}
use daraja_payment_wrapper.Schemas.Callback.{StkCallbackBody}
use daraja_payment_wrapper.Repository.{get_by_checkout_request_id}
use daraja_payment_wrapper.Service.{Environment, World, callback_idem_key, redis_set_nx}
use daraja_payment_wrapper.Service.Process.{apply_outcome, settle, process_callback}
use daraja_payment_wrapper.Service.Process.Outcome.{IsOutcome, Replaced, settle_found}

module _ (env : Environment) (callback : StkCallbackBody) where
  open env use {database as pg, redis as rd}

  abbrev checkout : Text
  checkout = callback.checkout_request_id

  -- No row of the session belongs to the callback.
  abbrev pub HasNoPayment : World env → Type 0
  HasNoPayment w =
      (i : Text) (p : Payment) → pg.row w.db i ≡ some p → p.checkout_request_id ≢ some checkout

  abbrev pub IsUnchanged : World env → World env → Type 0
  IsUnchanged w w' = (i : Text) → pg.durable w'.db i ≡ pg.durable w.db i

  -- The payment of the callback has its outcome, and no other row has changed.
  abbrev pub IsSettled : World env → World env → Type 0
  IsSettled w w' =
      (p : Payment) × (q : Payment) × (p.checkout_request_id ≡ some checkout)
      × IsOutcome env callback p q
      × Replaced env w.db w'.db p q

  settle_outcome :
      (w w' : World env)
      → settle env callback w ≡ (ok tt, w')
      → (HasNoPayment w × IsUnchanged w w') ⊎ IsSettled w w'
  unfolding settle get_by_checkout_request_id apply_outcome
  settle_outcome w w' h =
      let s = (pg.select_by_checkout_request_id checkout w.db).1 in
      elim (Result-cases (pg.select_by_checkout_request_id checkout w.db).0) [
        | inr (x, bad) ↦ absurd (ground arith)
        | inl (none, e) ↦
            let none_found : pg.select_by_checkout_request_id checkout w.db ≡ (ok none, s) =
              ground arith in
            let (rows, kept) = pg.select_checkout_keeps checkout w.db s none none_found in
            inl (pg.select_checkout_none checkout w.db s none_found, λ i. ground (arith, kept i))
        | inl (some p, e) ↦
            let found : pg.select_by_checkout_request_id checkout w.db ≡ (ok (some p), s) =
              ground arith in
            let (rows, kept) = pg.select_checkout_keeps checkout w.db s (some p) found in
            let (there, mine) = pg.select_checkout_some checkout w.db s p found in
            let (q, outcome, replaced) =
              settle_found env callback p (record w { db = s }) w' (rows p.id ∙ there)
                (ground arith) in
            inr (
              p,
              q,
              mine,
              outcome,
              record { before = there; after = λ i. ground (arith, replaced.after i, rows i) },
            )
      ]

  -- When `process_callback` returns, one of three things holds. Redis held the callback's key, or
  -- no visible payment has the CheckoutRequestID, and then nothing durable has changed. Otherwise
  -- the payment with that id is durably completed, cancelled or failed by the result code, with
  -- what the callback reports, and no other row has changed.
  pub process_callback_outcome :
      (w w' : World env)
      → process_callback env callback w ≡ (ok tt, w')
      → ((rd.held w.redis (callback_idem_key checkout) ≢ none) × IsUnchanged w w')
        ⊎ ((HasNoPayment w × IsUnchanged w w') ⊎ IsSettled w w')
  unfolding process_callback redis_set_nx
  process_callback_outcome w w' h =
      let key = callback_idem_key checkout in
      let reply = rd.set_nx key (codes "1") env.idempotency_ttl_seconds w.redis in
      elim (Result-cases reply.0) [
        | inr (x, e) ↦ inr (settle_outcome (record w { redis = reply.1 }) w' (ground arith))
        | inl (true, e) ↦ inr (settle_outcome (record w { redis = reply.1 }) w' (ground arith))
        | inl (false, e) ↦
            let taken : reply ≡ (ok false, reply.1) = ground arith in
            inl (
              (rd.set_nx_false key (codes "1") env.idempotency_ttl_seconds w.redis reply.1 taken).0,
              λ i. ground arith,
            )
      ]
