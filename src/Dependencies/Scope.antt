-- ===== src/Dependencies/Scope.antt =====
-- What is made is closed.
use daraja_payment_wrapper.Prelude.{
  ℕ, ◌+◌, ◌≤◌, ◌≡◌, refl, ◌∙◌, false, Option, none, some, List, [], ◌∷◌, arith,
}
use daraja_payment_wrapper.Errors.{Error, Result}
use daraja_payment_wrapper.Exec.{Exec, ◌>>=◌}
use daraja_payment_wrapper.Dependencies.{
  Process, Bound, make, set_open, closing, bound_to, or_raise, on_redis, Line, DarajaClient,
  startup, close, shutdown, get_db_session, get_redis, get_daraja_client, serve, serve_all,
  lifespan,
}

-- Nothing that is not made yet is open.
abbrev pub IsFresh : Process → Type 0
IsFresh p = (h : ℕ) → p.made ≤ h → p.is_open h ≡ false

module _ (close_error : ℕ → Option Error) (closes : (h : ℕ) → close_error h ≡ none) where
  -- The process has the globals of `p`, and the same open objects.
  record IsLike (p p' : Process) : Type 0 where
    engine : p'.engine ≡ p.engine
    factory : p'.session_factory ≡ p.session_factory
    pool : p'.redis_pool ≡ p.redis_pool
    http : p'.http_client ≡ p.http_client
    daraja : p'.daraja_client ≡ p.daraja_client
    open_same : (h : ℕ) → p'.is_open h ≡ p.is_open h
    made_more : p.made ≤ p'.made

  opened-IsFresh : (p : Process) → IsFresh p → IsFresh (make p).1
  opened-IsFresh p fresh h le = ground (arith, fresh h)

  bracket-IsLike :
      {A : Type 0} (m : ℕ → Exec Process A) (p : Process)
      → IsFresh p
      → ((h : ℕ) (p1 : Process) → IsFresh p1 → IsLike p1 (m h p1).1)
      → IsLike p ((make >>= λ handle. closing close_error handle (m handle)) p).1
  unfolding close
  bracket-IsLike m p fresh keep =
      let p1 = (make p).1 in
      let k = keep p.made p1 (opened-IsFresh p fresh) in
      record {
        engine = ground (arith, closes p.made, k.engine);
        factory = ground (arith, closes p.made, k.factory);
        pool = ground (arith, closes p.made, k.pool);
        http = ground (arith, closes p.made, k.http);
        daraja = ground (arith, closes p.made, k.daraja);
        open_same = λ h. ground (arith, closes p.made, k.open_same h, fresh p.made);
        made_more = ground (arith, closes p.made, k.made_more);
      }

  IsLike-refl : (p : Process) → IsLike p p
  IsLike-refl p = record {
    engine = refl;
    factory = refl;
    pool = refl;
    http = refl;
    daraja = refl;
    open_same = λ h. refl;
    made_more = omega arith;
  }

  bound_to-IsLike :
      {A : Type 0} (o : Option ℕ) (body : Bound → Exec Process A) (p : Process)
      → IsFresh p
      → ((b : Bound) (p1 : Process) → IsFresh p1 → IsLike p1 (body b p1).1)
      → IsLike p (bound_to close_error o body p).1
  bound_to-IsLike none body p fresh keep = IsLike-refl p
  bound_to-IsLike (some x) body p fresh keep =
      bracket-IsLike (λ handle. body (record { handle = handle; to = x })) p fresh
        (λ h. keep (record { handle = h; to = x }))

  with_client-IsLike :
      {A : Type 0} (o : Option DarajaClient) (body : DarajaClient → Exec Process A) (p : Process)
      → ((client : DarajaClient) → IsLike p (body client p).1)
      → IsLike p ((or_raise close_error o >>= body) p).1
  with_client-IsLike none body p keep = IsLike-refl p
  with_client-IsLike (some client) body p keep = keep client

  serve-IsLike :
      {A : Type 0} (route : Line → Result A) (p : Process)
      → IsFresh p
      → IsLike p (serve close_error route p).1
  unfolding serve get_db_session get_redis get_daraja_client close
  serve-IsLike route p fresh =
      bound_to-IsLike p.session_factory
        (λ session. get_daraja_client close_error >>= on_redis close_error route session) p fresh
        (λ session p1 fresh1.
          with_client-IsLike p1.daraja_client (on_redis close_error route session) p1 (λ client.
            bound_to-IsLike p1.redis_pool
              (λ redis p2.
                (route (record { session = session; redis = redis; daraja = client }), p2))
              p1 fresh1 (λ redis p2 fresh2. IsLike-refl p2)))

  IsLike-IsFresh : (p p' : Process) → IsLike p p' → IsFresh p → IsFresh p'
  IsLike-IsFresh p p' like fresh h le =
      like.open_same h ∙ fresh h (omega (arith, le, like.made_more))

  serve_all-IsLike :
      {A : Type 0} (routes : List (Line → Result A)) (p : Process)
      → IsFresh p
      → IsLike p (serve_all close_error routes p)
  unfolding serve_all
  serve_all-IsLike [] p fresh = IsLike-refl p
  serve_all-IsLike (route ∷ routes) p fresh =
      let k = serve-IsLike route p fresh in
      let p1 = (serve close_error route p).1 in
      let ks = serve_all-IsLike routes p1 (IsLike-IsFresh p p1 k fresh) in
      record {
        engine = ks.engine ∙ k.engine;
        factory = ks.factory ∙ k.factory;
        pool = ks.pool ∙ k.pool;
        http = ks.http ∙ k.http;
        daraja = ks.daraja ∙ k.daraja;
        open_same = λ h. ks.open_same h ∙ k.open_same h;
        made_more = omega (arith, k.made_more, ks.made_more);
      }

  startup-IsFresh : (p : Process) → IsFresh p → IsFresh (startup p).1
  unfolding startup
  startup-IsFresh p fresh h le = ground (arith, fresh h)

  shutdown_closes :
      (q : Process) (http engine pool h : ℕ)
      → q.http_client ≡ some http
      → q.engine ≡ some engine
      → q.redis_pool ≡ some pool
      → (shutdown close_error q).1.is_open h
        ≡ set_open pool false (set_open engine false (set_open http false q.is_open)) h
  unfolding shutdown close
  shutdown_closes q http engine pool h a b c =
      ground (arith, closes http, closes engine, closes pool)

  -- Where no object refuses to be closed, every engine, pool, HTTP client, session and Redis client that
  -- the application has made between its start and its end is closed at the end, whatever requests it
  -- has served and whatever they returned or raised; what was open before is open still.
  pub lifespan_closes :
      {A : Type 0} (routes : List (Line → Result A)) (p : Process)
      → IsFresh p
      → (h : ℕ) → (lifespan close_error routes p).is_open h ≡ p.is_open h
  unfolding lifespan startup
  lifespan_closes routes p fresh h =
      let p1 = (startup p).1 in
      let k = serve_all-IsLike routes p1 (startup-IsFresh p fresh) in
      let n = p.made in
      shutdown_closes (serve_all close_error routes p1) (n + 1 + 1) n (n + 1) h k.http k.engine
        k.pool
      ∙ ground (arith, k.open_same h, fresh h)

  serve_lem :
      {A : Type 0} (route : Line → Result A) (q : Process) (engine pool : ℕ) (client : DarajaClient)
      → q.session_factory ≡ some engine
      → q.redis_pool ≡ some pool
      → q.daraja_client ≡ some client
      → (serve close_error route q).0
        ≡ route (record {
          session = record { handle = q.made; to = engine };
          redis = record { handle = q.made + 1; to = pool };
          daraja = client;
        })
  unfolding serve get_db_session get_redis get_daraja_client close
  serve_lem route q engine pool client a b c = ground (arith, closes q.made, closes (q.made + 1))

  -- Where no object refuses to be closed, every request after the start is served, whatever was served
  -- before it: with a session of the one engine, and a Redis client on the pool that the Daraja client
  -- keeps its token in.
  pub serve_wired :
      {A : Type 0} (routes : List (Line → Result A)) (route : Line → Result A) (p : Process)
      → IsFresh p
      → let q = serve_all close_error routes (startup p).1 in
        (line : Line) × ((serve close_error route q).0 ≡ route line)
        × (q.engine ≡ some line.session.to)
        × (line.redis.to ≡ line.daraja.auth_pool)
        × (q.http_client ≡ some line.daraja.http_client)
  unfolding startup
  serve_wired routes route p fresh =
      let p1 = (startup p).1 in
      let k = serve_all-IsLike routes p1 (startup-IsFresh p fresh) in
      let q = serve_all close_error routes p1 in
      let n = p.made in
      let client : DarajaClient = record { auth_pool = n + 1; http_client = n + 1 + 1 } in
      (
        record {
          session = record { handle = q.made; to = n };
          redis = record { handle = q.made + 1; to = n + 1 };
          daraja = client;
        },
        serve_lem route q n (n + 1) client k.factory k.pool k.daraja,
        k.engine,
        refl,
        k.http,
      )
