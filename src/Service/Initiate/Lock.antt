-- ===== src/Service/Initiate/Lock.antt =====
-- The per-key lock: it excludes a concurrent request, and is released on every path.
use daraja_payment_wrapper.Prelude.{
  Text, codes, text_eq_refl, ◌≡◌, ◌≢◌, refl, sym, ◌∙◌, Bool, true, false, Option, none, some, [],
  ◌∷◌, arith,
}
use daraja_payment_wrapper.Errors.{ok, err, app, duplicate_payment}
use daraja_payment_wrapper.Exec.Keeps.{Keeps}
use daraja_payment_wrapper.Schemas.{StkPushInitiateRequest}
use daraja_payment_wrapper.Daraja.Stk.{StkArgs}
use daraja_payment_wrapper.Service.{
  Environment, World, Initiator, lock_key, idem_cache_key, redis_get, redis_set_nx, redis_delete,
}
use daraja_payment_wrapper.Service.Initiate.{under_lock, locked, from_cache, initiate_stk_push}
use daraja_payment_wrapper.Service.Initiate.Reach.{IsReachable, under_lock-IsReachable}

module _ (env : Environment) (f : Initiator env) (r : StkPushInitiateRequest) where
  open env use {database as pg, redis as rd}

  abbrev lock : Text
  lock = lock_key r.idempotency_key

  -- A held lock is refused.
  refused_at :
      (b : Bool) (w : World env) (s : rd.Store)
      → rd.set_nx lock (codes "1") env.stk_lock_ttl_seconds w.redis ≡ (ok b, s)
      → rd.held w.redis lock ≢ none
      → locked env f r w ≡ (err (app duplicate_payment), record w { redis = s })
  unfolding locked redis_set_nx
  refused_at true w s claim taken =
      absurd (taken (rd.set_nx_true lock (codes "1") env.stk_lock_ttl_seconds w.redis s claim).0)
  refused_at false w s claim taken = ground (arith, claim)

  uncached_at :
      (v : Option Text) (w : World env) → v ≡ none → from_cache env f r v w ≡ locked env f r w
  unfolding from_cache
  uncached_at none w h = refl
  uncached_at (some t) w h = ground arith

  -- While another request holds the lock of the key, no cached response is there and Redis answers,
  -- a request is refused as a duplicate; the database and the Daraja client are not touched.
  pub initiate_excluded :
      (w : World env)
      → rd.IsUp w.redis
      → rd.held w.redis (idem_cache_key r.idempotency_key) ≡ none
      → rd.held w.redis lock ≢ none
      → (s : rd.Store) × (initiate_stk_push env f r w
          ≡ (err (app duplicate_payment), record w { redis = s }))
  unfolding initiate_stk_push redis_get
  initiate_excluded w up uncached taken =
      let (v, s, answer, up') = rd.get_up (idem_cache_key r.idempotency_key) w.redis up in
      let (same, rest) = rd.get_ok _ w.redis s v answer in
      let (b, s', claim, up'') = rd.set_nx_up lock (codes "1") env.stk_lock_ttl_seconds s up' in
      let w' : World env = record w { redis = s } in
      let refused = refused_at b w' s' claim (λ h. taken (sym (rest lock) ∙ h)) in
      (s', ground (arith, answer, uncached_at v w' (sym same ∙ uncached), refused))

  module _ (keep : (a : StkArgs) → Keeps (IsReachable env) (f a)) where
    released_at :
        (b : Bool) (w : World env) (s : rd.Store)
        → rd.set_nx lock (codes "1") env.stk_lock_ttl_seconds w.redis ≡ (ok b, s)
        → rd.IsUp s
        → rd.held w.redis lock ≡ none
        → rd.held (locked env f r w).1.redis lock ≡ none
    unfolding locked redis_set_nx redis_delete
    released_at true w s claim up free =
        let w' : World env = record w { redis = s } in
        let w'' : World env = (under_lock env f r w').1 in
        let up'' = (under_lock-IsReachable env f r keep).at w' up in
        let (s', gone, _) = rd.delete_up lock w''.redis up'' in
        ground (arith, claim, gone, rd.delete_ok lock w''.redis s' gone lock, text_eq_refl lock)
    released_at false w s claim up free =
        let stays = (rd.set_nx_false lock (codes "1") env.stk_lock_ttl_seconds w.redis s claim).1 in
        ground (arith, claim, stays lock)

    locked_releases :
        (w : World env)
        → rd.IsUp w.redis
        → rd.held w.redis lock ≡ none
        → rd.held (locked env f r w).1.redis lock ≡ none
    locked_releases w up free =
        let (b, s, claim, up') =
          rd.set_nx_up lock (codes "1") env.stk_lock_ttl_seconds w.redis up in
        released_at b w s claim up' free

    from_cache_releases :
        (v : Option Text) (w : World env)
        → rd.IsUp w.redis
        → rd.held w.redis lock ≡ none
        → rd.held (from_cache env f r v w).1.redis lock ≡ none
    unfolding from_cache
    from_cache_releases none w up free = locked_releases w up free
    from_cache_releases (some []) w up free = locked_releases w up free
    from_cache_releases (some (c ∷ cs)) w up free = free

    -- Suppose that Redis answers, that Daraja's client leaves it answering, and that the lock of the
    -- key is free. Then on every path, errors included, it is free again afterwards.
    pub initiate_releases_lock :
        (w : World env)
        → rd.IsUp w.redis
        → rd.held w.redis lock ≡ none
        → rd.held (initiate_stk_push env f r w).1.redis lock ≡ none
    unfolding initiate_stk_push redis_get
    initiate_releases_lock w up free =
        let (v, s, answer, up') = rd.get_up (idem_cache_key r.idempotency_key) w.redis up in
        let w' : World env = record w { redis = s } in
        let rest = (rd.get_ok _ w.redis s v answer).1 in
        ground (arith, answer, from_cache_releases v w' up' (rest lock ∙ free))
