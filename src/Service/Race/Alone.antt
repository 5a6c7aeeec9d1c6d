-- ===== src/Service/Race/Alone.antt =====
-- A request that no other comes between takes its parts as `start` takes them.
use daraja_payment_wrapper.Prelude.{◌+◌, Text, ◌≡◌, inl, inr, refl, arith}
use daraja_payment_wrapper.Exec.{Result-cases, ◌>>=◌}
use daraja_payment_wrapper.Schemas.{StkPushInitiateRequest}
use daraja_payment_wrapper.Service.{Environment, World, Initiator, new_uuid, transact, redis_setex}
use daraja_payment_wrapper.Service.Initiate.{insert_new, call_daraja, dispatch, start}
use daraja_payment_wrapper.Service.Race.{Phase, waiting, anchored, finished, advance}

module _ (env : Environment) (f : Initiator env) (key : Text) where
  abbrev pub again : Phase key × World env → Phase key × World env
  again x = advance env f x.0 x.1

  -- The request has ended in a world that differs from `w` in Redis at most.
  abbrev pub Ended : Phase key × World env → World env → Type 0
  Ended x w = (x.0 ≡ finished) × (x.1.db ≡ w.db) × (x.1.daraja ≡ w.daraja) × (x.1.draws ≡ w.draws)

  dispatch_advances :
      (r : StkPushInitiateRequest) (id : Text) (w : World env)
      → Ended (again (again (anchored r id, w))) (dispatch env f r id w).1
  unfolding advance dispatch call_daraja redis_setex
  dispatch_advances r id w = ground arith

  -- Three parts, and the request has ended, with the database, the calls and the identifiers of `start`.
  pub advances_start :
      (r : StkPushInitiateRequest) (same : r.idempotency_key ≡ key) (w : World env)
      → Ended (again (again (again (waiting r same, w)))) (start env f r w).1
  unfolding advance start new_uuid
  advances_start r same w =
      let w1 : World env = record w { draws = w.draws + 1 } in
      let id = env.uuid4 w.draws in
      let inserted = transact env (insert_new env r id) w1 in
      elim (Result-cases inserted.0) [
        | inl (u, e) ↦ rw (e, ◌>>=◌) (dispatch_advances r id inserted.1)
        | inr (x, e) ↦ rw (e, ◌>>=◌) (refl, refl, refl, refl)
      ]
