-- ===== src/Service/Once/Frame.antt =====
-- What the parts of an initiation do to the database and to the Daraja client: a predicate on these
-- two is kept by every part that does not touch them.
use daraja_payment_wrapper.Prelude.{
  ℕ, Text, codes, ◌≡◌, refl, sym, subst, inl, inr, Bool, true, false, Option, none, some, [], ◌∷◌,
  Bool-cases, if◌then◌else◌,
}
use daraja_payment_wrapper.Errors.{Error}
use daraja_payment_wrapper.Exec.{Exec, Result-cases, raise, ◌>>=◌, ◌>>◌}
use daraja_payment_wrapper.Exec.Keeps.{Keeps, Keeps-pure, Keeps-raise, Keeps-catch, Keeps-bind}
use daraja_payment_wrapper.Payment.{Payment, is_settled}
use daraja_payment_wrapper.Schemas.{StkPushInitiateRequest, StkPushInitiateResponse}
use daraja_payment_wrapper.Repository.{get_by_idempotency_key}
use daraja_payment_wrapper.Service.{
  Environment, World, Initiator, on_db, on_redis, redis_get, redis_set_nx, redis_setex,
  redis_delete, transact, lock_key, idem_cache_key,
}
use daraja_payment_wrapper.Service.Initiate.{
  start, resume, under_lock, locked, from_cache, initiate_stk_push,
}

module _ (env : Environment) where
  open env use {database as pg, redis as rd}

  -- A predicate that reads the session and the client.
  abbrev pub Over : (pg.Session → env.Daraja → Type 0) → World env → Type 0
  Over Q w = Q w.db w.daraja

  module _ (Q : pg.Session → env.Daraja → Type 0) where
    untouched : (w w' : World env) → w'.db ≡ w.db → w'.daraja ≡ w.daraja → Over Q w → Over Q w'
    untouched w w' e e' h = subst (λ s. Q s w'.daraja) (sym e) (subst (Q w.db) (sym e') h)

    pub on_redis-Over : {A : Type 0} (m : Exec rd.Store A) → Keeps (Over Q) (on_redis env m)
    on_redis-Over m = record { at = λ w h. h }

    pub redis_set_nx-Over : (k v : Text) (ttl : ℕ) → Keeps (Over Q) (redis_set_nx env k v ttl)
    unfolding redis_set_nx
    redis_set_nx-Over k v ttl = Keeps-catch _ _ (on_redis-Over _) (λ e. Keeps-pure _)

    pub redis_get-Over : (k : Text) → Keeps (Over Q) (redis_get env k)
    unfolding redis_get
    redis_get-Over k = Keeps-catch _ _ (on_redis-Over _) (λ e. Keeps-pure _)

    pub redis_setex-Over :
        (k : Text) (ttl : ℕ) (v : Text) → Keeps (Over Q) (redis_setex env k ttl v)
    unfolding redis_setex
    redis_setex-Over k ttl v = Keeps-catch _ _ (on_redis-Over _) (λ e. Keeps-pure _)

    pub on_db_both-Over :
        (m : Exec pg.Session (Unit {0}))
        → Keeps (Over Q) (on_db env m)
        → Keeps (Over Q) (on_db env pg.commit)
        → Keeps (Over Q) (on_db env (m >> pg.commit))
    on_db_both-Over m km kc = record {
      at = λ w h. elim (Result-cases (m w.db).0) [
        | inl (u, e) ↦ rw (e, ◌>>=◌) (kc.at (on_db env m w).1 (km.at w h))
        | inr (x, e) ↦ rw (e, ◌>>=◌) (km.at w h)
      ];
    }

    -- A transaction keeps what its statement, COMMIT and ROLLBACK keep.
    pub transact-Over :
        (m : Exec pg.Session (Unit {0}))
        → Keeps (Over Q) (on_db env m)
        → Keeps (Over Q) (on_db env pg.commit)
        → Keeps (Over Q) (on_db env pg.rollback)
        → Keeps (Over Q) (transact env m)
    unfolding transact
    transact-Over m km kc kr =
        Keeps-catch _ _ (on_db_both-Over m km kc) (λ e. Keeps-bind _ _ kr (λ u. Keeps-raise e))

  -- An initiation leads from `P` to `Q` if `start` does.
  module _ (P Q : pg.Session → env.Daraja → Type 0) (f : Initiator env) (r : StkPushInitiateRequest)
      (weaken : (w : World env) → Over P w → Over Q w)
      (read : Keeps (Over P) (on_db env (get_by_idempotency_key pg r.idempotency_key)))
      (started : (w : World env) → Over P w → Over Q (start env f r w).1) where
    resume_takes : (o : Option Payment) (w : World env) → Over P w → Over Q (resume env f r o w).1
    unfolding resume
    resume_takes none w h = started w h
    resume_takes (some p) w h = elim (Bool-cases (is_settled p.status)) [
      | inl settled ↦ rw settled (weaken w h)
      | inr waiting ↦ rw waiting (started w h)
    ]

    under_lock_takes : (w : World env) → Over P w → Over Q (under_lock env f r w).1
    unfolding under_lock
    under_lock_takes w h =
        let looked = on_db env (get_by_idempotency_key pg r.idempotency_key) w in
        let h' = read.at w h in
        elim (Result-cases (get_by_idempotency_key pg r.idempotency_key w.db).0) [
          | inl (o, e) ↦ rw (e, ◌>>=◌) (resume_takes o looked.1 h')
          | inr (x, e) ↦ rw (e, ◌>>=◌) (weaken looked.1 h')
        ]

    guarded_takes :
        (b : Bool) (w : World env) (m : Exec (World env) StkPushInitiateResponse)
        → (b ≡ true → Over Q (m w).1)
        → Over Q w
        → (e : Error) → Over Q ((if b then m else raise e) w).1
    guarded_takes true w m h h' e = h refl
    guarded_takes false w m h h' e = h'

    locked_takes : (w : World env) → Over P w → Over Q (locked env f r w).1
    unfolding locked redis_delete
    locked_takes w h =
        let claim =
          redis_set_nx env (lock_key r.idempotency_key) (codes "1") env.stk_lock_ttl_seconds in
        let h' =
          (redis_set_nx-Over P (lock_key r.idempotency_key) (codes "1") env.stk_lock_ttl_seconds).at
            w h in
        elim (Result-cases (claim w).0) [
          | inl (b, e) ↦
              rw (e, ◌>>=◌)
                (guarded_takes b (claim w).1 _ (λ t. under_lock_takes (claim w).1 h')
                  (weaken (claim w).1 h') _)
          | inr (x, e) ↦ rw (e, ◌>>=◌) (weaken (claim w).1 h')
        ]

    from_cache_takes :
        (o : Option Text) (w : World env) → Over P w → Over Q (from_cache env f r o w).1
    unfolding from_cache
    from_cache_takes none w h = locked_takes w h
    from_cache_takes (some []) w h = locked_takes w h
    from_cache_takes (some (c ∷ cs)) w h = weaken w h

    pub initiate_takes : (w : World env) → Over P w → Over Q (initiate_stk_push env f r w).1
    unfolding initiate_stk_push
    initiate_takes w h =
        let reply = redis_get env (idem_cache_key r.idempotency_key) w in
        let h' = (redis_get-Over P (idem_cache_key r.idempotency_key)).at w h in
        elim (Result-cases reply.0) [
          | inl (o, e) ↦ rw (e, ◌>>=◌) (from_cache_takes o reply.1 h')
          | inr (x, e) ↦ rw (e, ◌>>=◌) (weaken reply.1 h')
        ]
