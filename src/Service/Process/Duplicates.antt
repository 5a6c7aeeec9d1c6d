-- ===== src/Service/Process/Duplicates.antt =====
-- Daraja sends duplicates, and Celery retries: the first callback of an id decides.
use daraja_payment_wrapper.Prelude.{
  Bool-cases, inl, inr, codes, text_eq_refl, ◌≡◌, ◌≢◌, refl, ◌∙◌, Bool, true, false, Option, none,
  some, arith,
}
use daraja_payment_wrapper.Errors.{Result, ok}
use daraja_payment_wrapper.Payment.{Payment}
use daraja_payment_wrapper.Schemas.Callback.{StkCallbackBody, is_success}
use daraja_payment_wrapper.Service.{Environment, World, callback_idem_key, redis_set_nx}
use daraja_payment_wrapper.Service.Steps.{transact-redis}
use daraja_payment_wrapper.Service.Process.{complete, fail, apply_outcome, settle, process_callback}

module _ (env : Environment) where
  open env use {database as pg, redis as rd}

  -- The claim of a callback's key.
  abbrev pub claim : StkCallbackBody → rd.Store → Result Bool × rd.Store
  claim callback =
      rd.set_nx (callback_idem_key callback.checkout_request_id) (codes "1")
        env.idempotency_ttl_seconds

  apply_outcome-redis :
      (callback : StkCallbackBody) (o : Option Payment) (w : World env)
      → (apply_outcome env callback o w).1.redis ≡ w.redis
  unfolding apply_outcome complete fail
  apply_outcome-redis callback none w = refl
  apply_outcome-redis callback (some p) w = elim (Bool-cases (is_success callback)) [
    | inl success ↦ rw success (transact-redis env _ w)
    | inr failure ↦ rw failure (transact-redis env _ w)
  ]

  settle-redis :
      (callback : StkCallbackBody) (w : World env) → (settle env callback w).1.redis ≡ w.redis
  unfolding settle
  settle-redis callback w = grind (arith, apply_outcome-redis)

  -- While Redis holds the key of a callback and answers, the callback is ignored: nothing but
  -- Redis's own state changes.
  pub process_callback_duplicate :
      (callback : StkCallbackBody) (w : World env) (b : Bool) (s : rd.Store)
      → rd.held w.redis (callback_idem_key callback.checkout_request_id) ≢ none
      → claim callback w.redis ≡ (ok b, s)
      → process_callback env callback w ≡ (ok tt, record w { redis = s })
  unfolding process_callback redis_set_nx
  process_callback_duplicate callback w true s held answer =
      absurd (held (rd.set_nx_true _ _ _ w.redis s answer).0)
  process_callback_duplicate callback w false s held answer = ground arith

  pub process_callback-redis :
      (callback : StkCallbackBody) (w : World env) (s : rd.Store)
      → claim callback w.redis ≡ (ok true, s)
      → (process_callback env callback w).1.redis ≡ s
  unfolding process_callback redis_set_nx
  process_callback-redis callback w s answer =
      ground (arith, settle-redis callback (record w { redis = s }))

  -- Once a callback has claimed its id, a second callback with that id is ignored, whether the first
  -- was processed or raised, and whatever the second one reports. So a retry after a database
  -- failure does nothing, and returns as if it had succeeded.
  pub process_callback_once :
      (first second : StkCallbackBody) (w : World env) (s s' : rd.Store) (b : Bool)
      → second.checkout_request_id ≡ first.checkout_request_id
      → claim first w.redis ≡ (ok true, s)
      → let w' : World env = (process_callback env first w).1 in
        claim second w'.redis ≡ (ok b, s')
        → process_callback env second w' ≡ (ok tt, record w' { redis = s' })
  process_callback_once first second w s s' b same answer again =
      let w' : World env = (process_callback env first w).1 in
      let key = callback_idem_key first.checkout_request_id in
      let held : rd.held w'.redis (callback_idem_key second.checkout_request_id)
          ≡ some (codes "1") =
        rw (same, process_callback-redis first w s answer)
          ((rd.set_nx_true key _ _ w.redis s answer).1 key ∙ rw (text_eq_refl key)) in
      process_callback_duplicate second w' b s' (λ e. cc (held, e)) again
