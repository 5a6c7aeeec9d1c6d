-- ===== src/Daraja/Auth/Net.antt =====
-- What an acquisition of a token does outside the process: it sleeps and asks for tokens.
use daraja_payment_wrapper.Prelude.{
  ℕ, zero, suc, ◌/◌, Text, codes, ◌≡◌, refl, sym, subst, none, some, [], ◌∷◌, inl, inr, arith, ◌++◌,
  ◌⊎◌, Option-cases,
}
use daraja_payment_wrapper.Errors.{Result, ok}
use daraja_payment_wrapper.Exec.{Exec, Result-cases}
use daraja_payment_wrapper.Exec.Keeps.{Keeps, Keeps-if, Keeps-bind}
use daraja_payment_wrapper.Json.{Value, str, lookup, Dict, Body, object, scalar, malformed}
use daraja_payment_wrapper.Daraja.{Platform, Host}
use daraja_payment_wrapper.Daraja.Circuit.{CircuitBreaker}
use daraja_payment_wrapper.Daraja.Auth.{
  token_cache_key, token_lock_key, on_redis, request_token, cache_token, store_token, read_token,
  fetch_new_token, then_delete, poll, acquire_lock_and_refresh, get_token,
}

module _ (env : Platform) where
  store_token-net :
      (d : Dict) (token : Value) (w : Host env)
      → ((store_token env d token w).1.net ≡ w.net)
        × ((store_token env d token w).1.circuit ≡ w.circuit)
  unfolding store_token cache_token
  store_token-net d token w = ground arith

  read_token-net :
      (b : Body) (w : Host env)
      → ((read_token env b w).1.net ≡ w.net) × ((read_token env b w).1.circuit ≡ w.circuit)
  unfolding read_token
  read_token-net (object d) w = elim (Option-cases (lookup (codes "access_token") d)) [
    | inl e ↦ ground arith
    | inr (t, e) ↦ ground (arith, store_token-net d t w)
  ]
  read_token-net scalar w = (refl, refl)
  read_token-net malformed w = (refl, refl)

  abbrev oauth_url : Text
  oauth_url = env.daraja_base_url ++ codes "/oauth/v1/generate"

  abbrev credentials : Text
  credentials = env.b64encode (env.daraja_consumer_key ++ codes ":" ++ env.daraja_consumer_secret)

  request_token-net :
      (w : Host env)
      → (request_token env w).1 ≡ record w { net = (env.http_get oauth_url credentials w.net).1 }
  unfolding request_token
  request_token-net w = ground arith

  then_delete-state :
      {A : Type 0} (m : Exec (Host env) A) (w : Host env)
      → (then_delete env m w).1
        ≡ record (m w).1 { redis = (env.redis.delete token_cache_key (m w).1.redis).1 }
  unfolding then_delete
  then_delete-state m w = ground arith

  -- The state behind one round of the poll.
  abbrev polled : Host env → Host env
  polled w = record w { redis = (env.redis.get token_cache_key w.redis).1; net = env.sleep w.net }

  poll_cases :
      (n : ℕ) (w : Host env)
      → (poll env (suc n) w ≡ poll env n (polled w))
        ⊎ ((v : Value) × (poll env (suc n) w ≡ (ok v, polled w)))
  unfolding poll
  poll_cases n w = elim (Result-cases (env.redis.get token_cache_key w.redis).0) [
    | inr (e, failed) ↦ inl (ground arith)
    | inl (none, found) ↦ inl (ground arith)
    | inl (some [], found) ↦ inl (ground arith)
    | inl (some (c ∷ cs), found) ↦ inr (str (c ∷ cs), ground arith)
  ]

  -- What is true of the network and the circuit, if a request for a token and a sleep keep it.
  module _ (P : env.Net → CircuitBreaker → Type 0)
      (asks : (u c : Text) (n : env.Net) (b : CircuitBreaker) → P n b → P (env.http_get u c n).1 b)
      (sleeps : (n : env.Net) (b : CircuitBreaker) → P n b → P (env.sleep n) b) where
    abbrev KeepsNet : {A : Type 0} → Exec (Host env) A → Type 0
    KeepsNet m = Keeps (λ (w : Host env). P w.net w.circuit) m

    abbrev Holds : Host env → Type 0
    Holds w = P w.net w.circuit

    request_token-KeepsNet : KeepsNet (request_token env)
    request_token-KeepsNet = record {
      at = λ w h.
          subst Holds (sym (request_token-net w)) (asks oauth_url credentials w.net w.circuit h);
    }

    read_token-KeepsNet : (b : Body) → KeepsNet (read_token env b)
    read_token-KeepsNet b = record {
      at = λ w h. let (e, e') = read_token-net b w in rw e (rw e' h);
    }

    fetch_new_token-KeepsNet : KeepsNet (fetch_new_token env)
    unfolding fetch_new_token
    fetch_new_token-KeepsNet =
        Keeps-bind _ _ request_token-KeepsNet (λ response. read_token-KeepsNet response.json)

    on_redis-KeepsNet : {A : Type 0} (m : Exec env.redis.Store A) → KeepsNet (on_redis env m)
    on_redis-KeepsNet m = record { at = λ w h. h }

    then_delete-KeepsNet :
        {A : Type 0} (m : Exec (Host env) A) → KeepsNet m → KeepsNet (then_delete env m)
    then_delete-KeepsNet m k = record {
      at = λ w h. subst Holds (sym (then_delete-state m w)) (k.at w h);
    }

    poll-KeepsNet : (n : ℕ) → KeepsNet (poll env n)
    unfolding poll
    poll-KeepsNet zero = record { at = λ w h. fetch_new_token-KeepsNet.at w h }
    poll-KeepsNet (suc n) = record {
      at = λ w h. elim (poll_cases n w) [
        | inl e ↦
            subst (λ (x : Result Value × Host env). Holds x.1) (sym e)
              ((poll-KeepsNet n).at (polled w) (sleeps w.net w.circuit h))
        | inr (v, e) ↦
            subst (λ (x : Result Value × Host env). Holds x.1) (sym e) (sleeps w.net w.circuit h)
      ];
    }

    acquire-KeepsNet : KeepsNet (acquire_lock_and_refresh env)
    unfolding acquire_lock_and_refresh
    acquire-KeepsNet =
        Keeps-bind _ _
          (on_redis-KeepsNet (env.redis.set_nx token_lock_key (codes "1") env.token_lock_ttl_ms))
          (λ b.
            Keeps-if b _ _ (then_delete-KeepsNet _ fetch_new_token-KeepsNet)
              (poll-KeepsNet (env.token_lock_ttl_ms / 250)))

    pub get_token-KeepsNet : KeepsNet (get_token env)
    unfolding get_token
    get_token-KeepsNet = record {
      at = λ w h.
          let w' : Host env = record w { redis = (env.redis.get token_cache_key w.redis).1 } in
          elim (Result-cases (env.redis.get token_cache_key w.redis).0) [
            | inr (e, failed) ↦ rw (failed, get_token) (fetch_new_token-KeepsNet.at w' h)
            | inl (none, found) ↦ rw (found, get_token) (acquire-KeepsNet.at w' h)
            | inl (some [], found) ↦ rw (found, get_token) (acquire-KeepsNet.at w' h)
            | inl (some (c ∷ cs), found) ↦ rw (found, get_token) h
          ];
    }
