-- ===== src/Middleware/RateLimit/Script.antt =====
-- app/middleware/rate_limit.py, `dispatch`: the script is loaded once, and then called by its hash.
use daraja_payment_wrapper.Prelude.{
  ℕ, Text, ◌≡◌, refl, ap, ◌∙◌, Bool, true, false, Option, none, some, List, [], ◌∷◌, arith,
}
use daraja_payment_wrapper.Errors.{Result, ok, err, redis_failure}
use daraja_payment_wrapper.Exec.{Exec, pure, catch, ◌>>=◌}
use daraja_payment_wrapper.Middleware.{Request, Verdict, passes}
use daraja_payment_wrapper.Middleware.RateLimit.{Limit, Reply, dispatch, resolve_limit, bucket_key}

-- The scripts of a Redis server, which are not part of the repository. `evalsha` takes the key, the
-- limit and the cost, and reads the time; a script that the server does not know is an error.
pub record Scripting : Type 1 where
  pub Server : Type 0
  pub knows : Server → Text → Bool
  pub script_load : Exec Server Text
  pub evalsha : Text → Text → Limit → ℕ → Exec Server Reply
  pub script_load_ok :
      (s s' : Server) (sha : Text) → script_load s ≡ (ok sha, s') → knows s' sha ≡ true
  pub evalsha_unknown :
      (s : Server) (sha key : Text) (l : Limit) (cost : ℕ)
      → knows s sha ≡ false
      → evalsha sha key l cost s ≡ (err redis_failure, s)

module _ (redis : Scripting) where
  -- The middleware of one worker, and the server.
  pub record Limiter : Type 0 where
    pub script_sha : Option Text
    pub server : redis.Server

  abbrev on_server : {A : Type 0} → Exec redis.Server A → Exec Limiter A
  on_server m w = let (r, s) = m w.server in (r, record w { server = s })

  abbrev remember : Text → Exec Limiter Text
  remember sha w = (ok sha, record w { script_sha = some sha })

  unfoldable pub load_script : Exec Limiter Text
  load_script w = elim w.script_sha [
    | some sha ↦ (ok sha, w)
    | none ↦ (on_server redis.script_load >>= remember) w
  ]

  unfoldable pub ask : Request → Exec Limiter Verdict
  ask request = do
    sha ← load_script
    reply ← on_server (redis.evalsha sha (bucket_key request) (resolve_limit request.path) 1)
    pure (dispatch (some reply))

  -- `except Exception`: the request passes.
  unfoldable pub limit_request : Request → Exec Limiter Verdict
  limit_request request = catch (ask request) (λ e. pure (dispatch none))

  -- The verdicts on a sequence of requests.
  unfoldable pub verdicts : List Request → Limiter → List (Result Verdict)
  verdicts [] w = []
  verdicts (r ∷ requests) w = (limit_request r w).0 ∷ verdicts requests (limit_request r w).1

  forgotten :
      (request : Request) (w : Limiter) (sha : Text)
      → w.script_sha ≡ some sha
      → redis.knows w.server sha ≡ false
      → limit_request request w ≡ (ok passes, w)
  unfolding limit_request ask load_script dispatch
  forgotten request w sha known lost =
      let failed =
        redis.evalsha_unknown w.server sha (bucket_key request) (resolve_limit request.path) 1
          lost in
      ground (arith, failed)

  abbrev all_pass : List Request → List (Result Verdict)
  all_pass [] = []
  all_pass (r ∷ requests) = ok passes ∷ all_pass requests

  -- Once a worker has loaded the script and the server has lost it, by a restart, a failover or a
  -- SCRIPT FLUSH, every later request passes: the worker never loads it again.
  pub lost_script_disables :
      (requests : List Request) (w : Limiter) (sha : Text)
      → w.script_sha ≡ some sha
      → redis.knows w.server sha ≡ false
      → verdicts requests w ≡ all_pass requests
  unfolding verdicts
  lost_script_disables [] w sha known lost = refl
  lost_script_disables (r ∷ requests) w sha known lost =
      let step = forgotten r w sha known lost in
      ap (λ (x : Result Verdict × Limiter). x.0 ∷ verdicts requests x.1) step
      ∙ ap (λ l. ok passes ∷ l) (lost_script_disables requests w sha known lost)

  -- A fresh worker limits: the verdict is that of the script, whenever the server answers.
  pub limit_request_asks :
      (request : Request) (w : Limiter) (s s' : redis.Server) (sha : Text) (reply : Reply)
      → w.script_sha ≡ none
      → redis.script_load w.server ≡ (ok sha, s)
      → redis.evalsha sha (bucket_key request) (resolve_limit request.path) 1 s ≡ (ok reply, s')
      → limit_request request w
        ≡ (ok (dispatch (some reply)), record { script_sha = some sha; server = s' })
  unfolding limit_request ask load_script
  limit_request_asks request w s s' sha reply fresh loaded answered =
      ground (arith, fresh, loaded, answered)
