-- ===== src/Service/Initiate/Reach.antt =====
-- While Redis answers, and the Daraja client leaves it answering, every part of an initiation does.
use daraja_payment_wrapper.Prelude.{ℕ, Text, ◌≡◌, subst, sym, Option, none, some, arith}
use daraja_payment_wrapper.Exec.{Exec}
use daraja_payment_wrapper.Exec.Keeps.{
  Keeps, Keeps-pure, Keeps-raise, Keeps-if, Keeps-catch_if, Keeps-bind,
}
use daraja_payment_wrapper.Payment.{Payment}
use daraja_payment_wrapper.Schemas.{StkPushInitiateRequest}
use daraja_payment_wrapper.Repository.{get_by_idempotency_key}
use daraja_payment_wrapper.Daraja.Stk.{StkArgs}
use daraja_payment_wrapper.Service.{
  Environment, World, Initiator, on_db, redis_setex, new_uuid, transact,
}
use daraja_payment_wrapper.Service.Steps.{transact-redis}
use daraja_payment_wrapper.Service.Initiate.{
  mark_call_failed, call_daraja, dispatch, start, resume, under_lock,
}

module _ (env : Environment) where
  open env use {database as pg, redis as rd}

  abbrev pub IsReachable : World env → Type 0
  IsReachable w = rd.IsUp w.redis

  on_db-IsReachable : {A : Type 0} (m : Exec pg.Session A) → Keeps IsReachable (on_db env m)
  on_db-IsReachable m = record { at = λ w h. h }

  transact-IsReachable : (m : Exec pg.Session (Unit {0})) → Keeps IsReachable (transact env m)
  transact-IsReachable m = record { at = λ w h. subst rd.IsUp (sym (transact-redis env m w)) h }

  new_uuid-IsReachable : Keeps IsReachable (new_uuid env)
  unfolding new_uuid
  new_uuid-IsReachable = record { at = λ w h. h }

  redis_setex-IsReachable :
      (k : Text) (ttl : ℕ) (v : Text) → Keeps IsReachable (redis_setex env k ttl v)
  unfolding redis_setex
  redis_setex-IsReachable k ttl v = record {
    at =
        λ w h. let (s, done, up) = rd.setex_up k ttl v w.redis h in subst rd.IsUp (ground arith) up;
  }

  mark_call_failed-redis :
      (id : Text) (w : World env) → (mark_call_failed env id w).1.redis ≡ w.redis
  unfolding mark_call_failed
  mark_call_failed-redis id w = ground arith

  mark_call_failed-IsReachable : (id : Text) → Keeps IsReachable (mark_call_failed env id)
  mark_call_failed-IsReachable id = record {
    at = λ w h. subst rd.IsUp (sym (mark_call_failed-redis id w)) h;
  }

  module _ (f : Initiator env) (r : StkPushInitiateRequest)
      (keep : (a : StkArgs) → Keeps IsReachable (f a)) where
    pub call_daraja-IsReachable : (id : Text) → Keeps IsReachable (call_daraja env f r id)
    unfolding call_daraja
    call_daraja-IsReachable id =
        Keeps-catch_if _ _ _ (keep _)
          (λ e. Keeps-bind _ _ (mark_call_failed-IsReachable id) (λ u. Keeps-raise e))

    dispatch-IsReachable : (id : Text) → Keeps IsReachable (dispatch env f r id)
    unfolding dispatch
    dispatch-IsReachable id = Keeps-bind _ _ (call_daraja-IsReachable id) (λ result.
        Keeps-bind _ _ (transact-IsReachable _)
          (λ u. Keeps-bind _ _ (redis_setex-IsReachable _ _ _) (λ u. Keeps-pure _)))

    start-IsReachable : Keeps IsReachable (start env f r)
    unfolding start
    start-IsReachable =
        Keeps-bind _ _ new_uuid-IsReachable
          (λ id. Keeps-bind _ _ (transact-IsReachable _) (λ u. dispatch-IsReachable id))

    resume-IsReachable : (o : Option Payment) → Keeps IsReachable (resume env f r o)
    unfolding resume
    resume-IsReachable none = start-IsReachable
    resume-IsReachable (some p) = Keeps-if _ _ _ (Keeps-pure _) start-IsReachable

    pub under_lock-IsReachable : Keeps IsReachable (under_lock env f r)
    unfolding under_lock
    under_lock-IsReachable =
        Keeps-bind _ _ (on_db-IsReachable (get_by_idempotency_key pg r.idempotency_key))
          (λ o. resume-IsReachable o)
