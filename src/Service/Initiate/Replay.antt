-- ===== src/Service/Initiate/Replay.antt =====
-- Idempotency: a request that was accepted is answered again from the cache.
use daraja_payment_wrapper.Prelude.{
  ◌+◌, Text, codes, text_eq_refl, ◌≡◌, ◌≢◌, refl, sym, ap, subst, ◌∙◌, Bool, true, false, Option,
  none, some, [], ◌∷◌, inl, inr, arith,
}
use daraja_payment_wrapper.Errors.{ok}
use daraja_payment_wrapper.Exec.{Result-cases}
use daraja_payment_wrapper.Exec.Keeps.{Keeps}
use daraja_payment_wrapper.Payment.{Payment}
use daraja_payment_wrapper.Schemas.{StkPushInitiateRequest, StkPushInitiateResponse}
use daraja_payment_wrapper.Repository.{update_daraja_ids, get_by_idempotency_key}
use daraja_payment_wrapper.Daraja.Stk.{StkArgs}
use daraja_payment_wrapper.Service.{
  Environment, World, Initiator, lock_key, idem_cache_key, redis_get, redis_set_nx, redis_setex,
  redis_delete, new_uuid, transact,
}
use daraja_payment_wrapper.Service.Steps.{transact-redis}
use daraja_payment_wrapper.Service.Initiate.{
  insert_new, accepted, call_daraja, dispatch, start, resume, under_lock, locked, from_cache,
  initiate_stk_push,
}
use daraja_payment_wrapper.Service.Initiate.Reach.{IsReachable, call_daraja-IsReachable}

module _ (env : Environment) (r : StkPushInitiateRequest) where
  open env use {database as pg, redis as rd}

  abbrev cache : Text
  cache = idem_cache_key r.idempotency_key

  -- Redis answers, and holds the response under the key of the request.
  abbrev Cached : StkPushInitiateResponse → rd.Store → Type 0
  Cached response s = rd.IsUp s × (rd.held s cache ≡ some (env.dump_json response))

  hit :
      (g : Initiator env) (t : Text) (w : World env) (response : StkPushInitiateResponse)
      → t ≢ []
      → env.validate_json t ≡ ok response
      → from_cache env g r (some t) w ≡ (ok response, w)
  unfolding from_cache
  hit g [] w response nonempty h = absurd (nonempty refl)
  hit g (c ∷ cs) w response nonempty h = ground (arith, h)

  -- What is cached is the answer, and only Redis is asked.
  Cached-answer :
      (g : Initiator env) (response : StkPushInitiateResponse) (w : World env)
      → Cached response w.redis
      → (s : rd.Store) × (initiate_stk_push env g r w ≡ (ok response, record w { redis = s }))
  unfolding initiate_stk_push redis_get
  Cached-answer g response w (up, there) =
      let (v, s, answer, up') = rd.get_up cache w.redis up in
      let (same, rest) = rd.get_ok cache w.redis s v answer in
      let w' : World env = record w { redis = s } in
      let found =
        hit g (env.dump_json response) w' response (env.dump_json-ne-nil response)
          (env.validate_json-dump_json response) in
      (s, ground (arith, answer, same, there))

module _ (env : Environment) (r : StkPushInitiateRequest) where
  open env use {database as pg, redis as rd}

  abbrev key : Text
  key = idem_cache_key r.idempotency_key

  -- No payment that the session sees has the key.
  abbrev pub IsNew : pg.Session → Type 0
  IsNew s = (i : Text) (p : Payment) → pg.row s i ≡ some p → p.idempotency_key ≢ r.idempotency_key

  module _ (f : Initiator env) (keep : (a : StkArgs) → Keeps (IsReachable env) (f a)) where
    setex_caches :
        (response : StkPushInitiateResponse) (w : World env)
        → rd.IsUp w.redis
        → ((redis_setex env key env.idempotency_ttl_seconds (env.dump_json response) w).0 ≡ ok tt)
          × Cached env r response
              (redis_setex env key env.idempotency_ttl_seconds (env.dump_json response) w).1.redis
    unfolding redis_setex
    setex_caches response w up =
        let (s, done, up') =
          rd.setex_up key env.idempotency_ttl_seconds (env.dump_json response) w.redis up in
        let after = rd.setex_ok key env.idempotency_ttl_seconds _ w.redis s done key in
        (
          ground (arith, done),
          subst (Cached env r response) (ground (arith, done)) (up', after ∙ rw (text_eq_refl key)),
        )

    dispatch_caches :
        (id : Text) (response : StkPushInitiateResponse) (w w' : World env)
        → rd.IsUp w.redis
        → dispatch env f r id w ≡ (ok response, w')
        → Cached env r response w'.redis
    unfolding dispatch
    dispatch_caches id response w w' up h =
        let w1 : World env = (call_daraja env f r id w).1 in
        let up1 = (call_daraja-IsReachable env f r keep id).at w up in
        elim (Result-cases (call_daraja env f r id w).0) [
          | inr (e, failed) ↦ absurd (ground arith)
          | inl (result, called) ↦
              let m =
                update_daraja_ids pg id result.checkout_request_id result.merchant_request_id in
              elim (Result-cases (transact env m w1).0) [
                | inr (e, failed) ↦ absurd (ground arith)
                | inl (u, saved) ↦
                    let w2 : World env = (transact env m w1).1 in
                    let up2 = subst rd.IsUp (sym (transact-redis env m w1)) up1 in
                    let reply = accepted id result in
                    let (stored, cached) = setex_caches reply w2 up2 in
                    let w3 : World env =
                      (redis_setex env key env.idempotency_ttl_seconds (env.dump_json reply)
                        w2).1 in
                    let same : (reply ≡ response) × (w3 ≡ w') = ground arith in
                    subst (λ (x : World env). Cached env r response x.redis) same.1
                      (subst (λ (x : StkPushInitiateResponse). Cached env r x w3.redis) same.0
                        cached)
              ]
        ]

    start_caches :
        (response : StkPushInitiateResponse) (w w' : World env)
        → rd.IsUp w.redis
        → start env f r w ≡ (ok response, w')
        → Cached env r response w'.redis
    unfolding start new_uuid
    start_caches response w w' up h =
        let w1 : World env = record w { draws = w.draws + 1 } in
        let id = env.uuid4 w.draws in
        let w2 : World env = (transact env (insert_new env r id) w1).1 in
        elim (Result-cases (transact env (insert_new env r id) w1).0) [
          | inr (e, failed) ↦ absurd (ground arith)
          | inl (u, saved) ↦
              dispatch_caches id response w2 w'
                (subst rd.IsUp (sym (transact-redis env (insert_new env r id) w1)) up)
                (ground arith)
        ]

    under_lock_caches :
        (response : StkPushInitiateResponse) (w w' : World env)
        → rd.IsUp w.redis
        → IsNew w.db
        → under_lock env f r w ≡ (ok response, w')
        → Cached env r response w'.redis
    unfolding under_lock get_by_idempotency_key resume
    under_lock_caches response w w' up new h =
        let s = (pg.select_by_idempotency_key r.idempotency_key w.db).1 in
        elim (Result-cases (pg.select_by_idempotency_key r.idempotency_key w.db).0) [
          | inr (e, failed) ↦ absurd (ground arith)
          | inl (none, found) ↦ start_caches response (record w { db = s }) w' up (ground arith)
          | inl (some p, found) ↦
              let (there, same) = pg.select_key_some r.idempotency_key w.db s p (ground arith) in
              absurd (new p.id p there same)
        ]

    locked_caches :
        (response : StkPushInitiateResponse) (b : Bool) (w w' : World env) (s : rd.Store)
        → rd.set_nx (lock_key r.idempotency_key) (codes "1") env.stk_lock_ttl_seconds w.redis
          ≡ (ok b, s)
        → rd.IsUp s
        → IsNew w.db
        → locked env f r w ≡ (ok response, w')
        → Cached env r response w'.redis
    unfolding locked redis_set_nx redis_delete
    locked_caches response false w w' s claim up new h = absurd (ground (arith, claim))
    locked_caches response true w w' s claim up new h =
        let w1 : World env = record w { redis = s } in
        let w2 : World env = (under_lock env f r w1).1 in
        let (up2, there) = under_lock_caches response w1 w2 up new (ground (arith, claim)) in
        let (s', gone, up3) = rd.delete_up (lock_key r.idempotency_key) w2.redis up2 in
        let kept = rd.delete_ok (lock_key r.idempotency_key) w2.redis s' gone key in
        let released : record w2 { redis = s' } ≡ w' = ground (arith, claim, gone) in
        subst (λ (x : World env). Cached env r response x.redis) released (up3, kept ∙ there)

    uncached_at :
        (v : Option Text) (w : World env) (s : rd.Store)
        → rd.get key w.redis ≡ (ok v, s)
        → v ≡ none
        → initiate_stk_push env f r w ≡ locked env f r (record w { redis = s })
    unfolding initiate_stk_push redis_get from_cache
    uncached_at v w s answer h = ground (arith, answer)

    -- Suppose that Redis answers throughout, holds no response of the key, and that the key is new to
    -- the database. If the request is accepted, then a later request with the key, whatever else it asks for, gets the same
    -- response, whatever Daraja would answer by then, and only Redis is asked for it.
    pub initiate_replays :
        (g : Initiator env) (later : StkPushInitiateRequest) (response : StkPushInitiateResponse)
        (w w' : World env)
        → rd.IsUp w.redis
        → rd.held w.redis key ≡ none
        → IsNew w.db
        → initiate_stk_push env f r w ≡ (ok response, w')
        → later.idempotency_key ≡ r.idempotency_key
        → (s : rd.Store) × (initiate_stk_push env g later w'
            ≡ (ok response, record w' { redis = s }))
    initiate_replays g later response w w' up uncached new h same =
        let (v, s, answer, up1) = rd.get_up key w.redis up in
        let (same_value, rest) = rd.get_ok key w.redis s v answer in
        let (b, s', claim, up2) =
          rd.set_nx_up (lock_key r.idempotency_key) (codes "1") env.stk_lock_ttl_seconds s up1 in
        let w1 : World env = record w { redis = s } in
        let entered = uncached_at v w s answer (sym same_value ∙ uncached) in
        let (up3, there) = locked_caches response b w1 w' s' claim up2 new (sym entered ∙ h) in
        Cached-answer env later g response w'
          (up3, ap (λ k. rd.held w'.redis (idem_cache_key k)) same ∙ there)
