-- ===== src/Daraja/Auth/Cache.antt =====
-- What an acquisition of a token leaves in Redis.
use daraja_payment_wrapper.Prelude.{
  ℕ, Text, codes, ◌≡◌, sym, ◌∙◌, Bool, true, false, Option, none, some, ◌∷◌, inl, inr, subst, arith,
  Option-cases,
}
use daraja_payment_wrapper.Prelude.Int.{pos}
use daraja_payment_wrapper.Errors.{Result, ok, value_error, attribute_error}
use daraja_payment_wrapper.Exec.{Exec}
use daraja_payment_wrapper.Exec.Keeps.{Keeps, Keeps-pure, Keeps-raise, Keeps-bind}
use daraja_payment_wrapper.Json.{
  Value, null, int, str, Dict, lookup, get_or, Body, object, scalar, malformed,
}
use daraja_payment_wrapper.Daraja.{Platform, Host}
use daraja_payment_wrapper.Daraja.Auth.{
  token_cache_key, token_lock_key, auth_error, on_net, request_token, cache_token, store_token,
  read_token, fetch_new_token, then_delete, acquire_lock_and_refresh, get_token,
}

module _ (env : Platform) where
  open env use {redis as rd}

  -- If Redis answers, a token in the cache is the answer, and no request is made.
  pub get_token_cached :
      (w : Host env) (c : ℕ) (cs : Text)
      → rd.IsUp w.redis
      → rd.held w.redis token_cache_key ≡ some (c ∷ cs)
      → (s : rd.Store) × (get_token env w ≡ (ok (str (c ∷ cs)), record w { redis = s }))
  unfolding get_token
  get_token_cached w c cs up there =
      let (v, s, answer, up') = rd.get_up token_cache_key w.redis up in
      (s, ground (arith, answer, (rd.get_ok token_cache_key w.redis s v answer).0))

  -- Redis answers, and the lock is taken.
  abbrev IsLocked : rd.Store → Type 0
  IsLocked s = rd.IsUp s × (rd.held s token_lock_key ≡ some (codes "1"))

  abbrev KeepsLocked : {A : Type 0} → Exec (Host env) A → Type 0
  KeepsLocked m = Keeps (λ (w : Host env). IsLocked w.redis) m

  on_net-KeepsLocked : {A : Type 0} (m : Exec env.Net A) → KeepsLocked (on_net env m)
  on_net-KeepsLocked m = record { at = λ w h. h }

  cache_token-KeepsLocked : (ttl : ℕ) (token : Value) → KeepsLocked (cache_token env ttl token)
  unfolding cache_token
  cache_token-KeepsLocked ttl token = record {
    at = λ w (up, lock). elim (Option-cases (env.encode token)) [
      | inl e ↦ subst IsLocked (ground arith) (up, lock)
      | inr (text, e) ↦
          let (s, done, up') = rd.setex_up token_cache_key ttl text w.redis up in
          let after = rd.setex_ok token_cache_key ttl text w.redis s done token_lock_key in
          subst IsLocked (ground arith) (up', after ∙ lock)
    ];
  }

  request_token-redis : (w : Host env) → (request_token env w).1.redis ≡ w.redis
  unfolding request_token
  request_token-redis w = ground arith

  request_token-KeepsLocked : KeepsLocked (request_token env)
  request_token-KeepsLocked = record { at = λ w h. subst IsLocked (sym (request_token-redis w)) h }

  store_token-KeepsLocked :
      (fields : Dict) (token : Value) → KeepsLocked (store_token env fields token)
  unfolding store_token
  store_token-KeepsLocked fields token =
      elim (Option-cases (env.to_int (get_or (codes "expires_in") (int (pos 3600)) fields))) [
        | inl e ↦ rw (e, store_token) (Keeps-raise value_error)
        | inr (n, e) ↦
            rw (e, store_token)
              (Keeps-bind _ _ (cache_token-KeepsLocked _ token) (λ u. Keeps-pure token))
      ]

  read_token-KeepsLocked : (body : Body) → KeepsLocked (read_token env body)
  unfolding read_token
  read_token-KeepsLocked (object fields) =
      elim (Option-cases (lookup (codes "access_token") fields)) [
        | inl e ↦ rw (e, read_token) (Keeps-raise (auth_error null none))
        | inr (token, e) ↦ rw (e, read_token) (store_token-KeepsLocked fields token)
      ]
  read_token-KeepsLocked scalar = Keeps-raise attribute_error
  read_token-KeepsLocked malformed = Keeps-raise value_error

  fetch_new_token-KeepsLocked : KeepsLocked (fetch_new_token env)
  unfolding fetch_new_token
  fetch_new_token-KeepsLocked =
      Keeps-bind _ _ request_token-KeepsLocked (λ response. read_token-KeepsLocked response.json)

  Forgotten : rd.Store → Type 0
  Forgotten s = (rd.held s token_cache_key ≡ none) × (rd.held s token_lock_key ≡ some (codes "1"))

  acquired_forgets :
      (b : Bool) (w : Host env) (s : rd.Store)
      → rd.set_nx token_lock_key (codes "1") env.token_lock_ttl_ms w.redis ≡ (ok b, s)
      → rd.IsUp s
      → rd.held w.redis token_lock_key ≡ none
      → Forgotten (acquire_lock_and_refresh env w).1.redis
  unfolding acquire_lock_and_refresh then_delete Forgotten
  acquired_forgets false w s claim up free =
      absurd ((rd.set_nx_false token_lock_key _ _ w.redis s claim).0 free)
  acquired_forgets true w s claim up free =
      let w' : Host env = record w { redis = s } in
      let taken = (rd.set_nx_true token_lock_key _ _ w.redis s claim).1 token_lock_key in
      let w'' : Host env = (fetch_new_token env w').1 in
      let (up'', lock) = fetch_new_token-KeepsLocked.at w' (up, taken) in
      let (s', gone, _) = rd.delete_up token_cache_key w''.redis up'' in
      let after = rd.delete_ok token_cache_key w''.redis s' gone in
      let cache : rd.held s' token_cache_key ≡ none = after token_cache_key in
      let kept : rd.held s' token_lock_key ≡ some (codes "1") = after token_lock_key ∙ lock in
      subst Forgotten (ground (arith, claim, gone)) (cache, kept)

  uncached_acquires :
      (v : Option Text) (w : Host env) (s : rd.Store)
      → rd.get token_cache_key w.redis ≡ (ok v, s)
      → v ≡ none
      → get_token env w ≡ acquire_lock_and_refresh env (record w { redis = s })
  unfolding get_token
  uncached_acquires v w s answer h = ground (arith, answer)

  -- Suppose that Redis answers, and holds neither a token nor the lock. Whatever Daraja answers,
  -- the cache is empty again after the acquisition of a token, and the lock is still taken.
  pub get_token_forgets :
      (w : Host env)
      → rd.IsUp w.redis
      → rd.held w.redis token_cache_key ≡ none
      → rd.held w.redis token_lock_key ≡ none
      → (rd.held (get_token env w).1.redis token_cache_key ≡ none)
        × (rd.held (get_token env w).1.redis token_lock_key ≡ some (codes "1"))
  unfolding Forgotten
  get_token_forgets w up empty free =
      let (v, s, answer, up') = rd.get_up token_cache_key w.redis up in
      let (same, rest) = rd.get_ok token_cache_key w.redis s v answer in
      let w' : Host env = record w { redis = s } in
      let (b, s', claim, up'') =
        rd.set_nx_up token_lock_key (codes "1") env.token_lock_ttl_ms s up' in
      let forgotten = acquired_forgets b w' s' claim up'' (rest token_lock_key ∙ free) in
      subst (λ (x : Result Value × Host env). Forgotten x.1.redis)
        (sym (uncached_acquires v w s answer (sym same ∙ empty))) forgotten
