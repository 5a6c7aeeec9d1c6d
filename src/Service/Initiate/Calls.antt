-- ===== src/Service/Initiate/Calls.antt =====
-- When an initiation depends on Daraja: two initiators that agree where it matters give the same
-- result.
use daraja_payment_wrapper.Prelude.{
  Text, codes, ◌≡◌, inl, inr, refl, ◌∙◌, Option, none, some, [], ◌∷◌, arith, Bool-cases,
}
use daraja_payment_wrapper.Errors.{ok}
use daraja_payment_wrapper.Exec.{Result-cases}
use daraja_payment_wrapper.Payment.{Payment, is_settled}
use daraja_payment_wrapper.Schemas.{StkPushInitiateRequest}
use daraja_payment_wrapper.Repository.{get_by_idempotency_key}
use daraja_payment_wrapper.Service.{
  Environment, World, Initiator, redis_get, redis_set_nx, redis_delete, lock_key, idem_cache_key,
}
use daraja_payment_wrapper.Service.Initiate.{
  start, resume, under_lock, locked, from_cache, initiate_stk_push,
}

module _ (env : Environment) (f g : Initiator env) (r : StkPushInitiateRequest) where
  open env use {database as pg, redis as rd}

  abbrev pub SameRows : pg.Session → pg.Session → Type 0
  SameRows s s' = (i : Text) → pg.row s' i ≡ pg.row s i

  abbrev StartAgrees : World env → Type 0
  StartAgrees w = start env f r w ≡ start env g r w

  resume_cong :
      (o : Option Payment) (w : World env) → StartAgrees w → resume env f r o w ≡ resume env g r o w
  unfolding resume
  resume_cong none w same = same
  resume_cong (some p) w same = elim (Bool-cases (is_settled p.status)) [
    | inl settled ↦ rw settled refl
    | inr open_still ↦ rw open_still same
  ]

  module _ (base : pg.Session) (agree : (w : World env) → SameRows base w.db → StartAgrees w) where
    under_lock_cong :
        (w : World env) → SameRows base w.db → under_lock env f r w ≡ under_lock env g r w
    unfolding under_lock get_by_idempotency_key
    under_lock_cong w rows =
        let s = (pg.select_by_idempotency_key r.idempotency_key w.db).1 in
        elim (Result-cases (pg.select_by_idempotency_key r.idempotency_key w.db).0) [
          | inr (e, failed) ↦ ground arith
          | inl (o, found) ↦
              let answer : pg.select_by_idempotency_key r.idempotency_key w.db ≡ (ok o, s) =
                ground arith in
              let keep = (pg.select_key_keeps r.idempotency_key w.db s o answer).0 in
              let w' : World env = record w { db = s } in
              ground (arith, resume_cong o w' (agree w' (λ i. keep i ∙ rows i)))
        ]

    locked_cong : (w : World env) → SameRows base w.db → locked env f r w ≡ locked env g r w
    unfolding locked redis_set_nx redis_delete
    locked_cong w rows =
        let s =
          (rd.set_nx (lock_key r.idempotency_key) (codes "1") env.stk_lock_ttl_seconds w.redis).1 in
        ground (arith, under_lock_cong (record w { redis = s }) rows)

    from_cache_cong :
        (o : Option Text) (w : World env)
        → SameRows base w.db
        → from_cache env f r o w ≡ from_cache env g r o w
    unfolding from_cache
    from_cache_cong none w rows = locked_cong w rows
    from_cache_cong (some []) w rows = locked_cong w rows
    from_cache_cong (some (c ∷ cs)) w rows = refl

  -- Two initiators under which `start` agrees, from every state with the rows of `w`, agree on the
  -- whole request.
  pub initiate_cong :
      (w : World env)
      → ((w' : World env) → SameRows w.db w'.db → start env f r w' ≡ start env g r w')
      → initiate_stk_push env f r w ≡ initiate_stk_push env g r w
  unfolding initiate_stk_push redis_get
  initiate_cong w agree =
      let reply = rd.get (idem_cache_key r.idempotency_key) w.redis in
      let w' : World env = record w { redis = reply.1 } in
      elim (Result-cases reply.0) [
        | inr (e, failed) ↦ ground (arith, from_cache_cong w.db agree none w' (λ i. refl))
        | inl (o, found) ↦ ground (arith, from_cache_cong w.db agree o w' (λ i. refl))
      ]
