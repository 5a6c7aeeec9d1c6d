-- ===== src/Dependencies/Tests.antt =====
-- The theorems on the application's objects at two requests, one of which raises.
use daraja_payment_wrapper.Prelude.{
  ℕ, ◌==◌, if◌then◌else◌, ◌≡◌, refl, true, false, Option, none, some, List, [], ◌∷◌,
}
use daraja_payment_wrapper.Errors.{Error, Result, ok, err, runtime_error, value_error}
use daraja_payment_wrapper.Dependencies.{
  Line, imported, startup, close, shutdown, get_db_session, get_redis, get_daraja_client, serve,
  serve_all, lifespan,
}
use daraja_payment_wrapper.Dependencies.Scope.{lifespan_closes, serve_wired}

abbrev willing : ℕ → Option Error
willing h = none

abbrev which_session : Line → Result ℕ
which_session line = ok line.session.handle

abbrev raising : Line → Result ℕ
raising line = err value_error

abbrev routes : List (Line → Result ℕ)
routes = which_session ∷ raising ∷ []

lifespan_closes_example : (lifespan willing routes imported).is_open 5 ≡ false
lifespan_closes_example = lifespan_closes willing (λ h. refl) routes imported (λ h le. refl) 5

serve_wired_example :
    (line : Line) × ((serve willing which_session (serve_all willing routes (startup imported).1)).0
      ≡ which_session line)
    × ((serve_all willing routes (startup imported).1).engine ≡ some line.session.to)
    × (line.redis.to ≡ line.daraja.auth_pool)
    × ((serve_all willing routes (startup imported).1).http_client ≡ some line.daraja.http_client)
serve_wired_example = serve_wired willing (λ h. refl) routes which_session imported (λ h le. refl)

-- Before the start no request is served.
before_start : (serve willing which_session imported).0 ≡ err runtime_error
unfolding serve get_db_session
before_start = refl

-- If the HTTP client raises when it is closed, the engine and the pool stay open.
abbrev http_refuses : ℕ → Option Error
http_refuses h = if h == 2 then some value_error else none

engine_left : (lifespan http_refuses routes imported).is_open 0 ≡ true
unfolding lifespan startup shutdown close serve_all serve get_db_session get_redis get_daraja_client
engine_left = refl
