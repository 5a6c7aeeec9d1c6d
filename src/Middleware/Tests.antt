-- ===== src/Middleware/Tests.antt =====
-- The theorems on app/middleware at concrete requests.
use daraja_payment_wrapper.Prelude.{
  Bool, ℕ, Text, ◌+◌, ◌-◌, ◌*◌, ◌≤◌, codes, ◌≡◌, refl, true, false, none, some, List, [], ◌∷◌,
  arith, if◌then◌else◌,
}
use daraja_payment_wrapper.Errors.{ok, err, redis_failure}
use daraja_payment_wrapper.Exec.{Exec}
use daraja_payment_wrapper.Middleware.RateLimit.{Reply}
use daraja_payment_wrapper.Middleware.RateLimit.Script.{Scripting, verdicts, lost_script_disables}
use daraja_payment_wrapper.Middleware.{Request, passes}
use daraja_payment_wrapper.Middleware.ApiKey.{has_key, dispatch_exempts_all, dispatch_checks_key}
use daraja_payment_wrapper.Middleware.ApiKey as ApiKey
use daraja_payment_wrapper.Middleware.RateLimit.{Limit, Bucket, limit, refill, token_bucket}
use daraja_payment_wrapper.Middleware.RateLimit.Bound.{
  passed, Ordered, done, next, passed_bound, retry_after_suffices,
}

abbrev request : Request
request = record {
  path = codes "/api/v1/payments/stk";
  x_api_key = none;
  x_forwarded_for = none;
  client_host = some (codes "10.0.0.1");
}

dispatch_exempts_all_example : ApiKey.dispatch (codes "key-v1" ∷ []) request ≡ ok passes
dispatch_exempts_all_example = dispatch_exempts_all (codes "key-v1" ∷ []) request refl

abbrev slow : Limit
slow = limit 2 1

abbrev half_full : Bucket
half_full = record { tokens = 2000000; last_refill = 0 }

abbrev times : List ℕ
times = 0 ∷ 100 ∷ 2000000 ∷ []

times-Ordered : Ordered 0 times 3000000
times-Ordered = next (omega arith) (next (omega arith) (next (omega arith) (done (omega arith))))

passed_bound_example : passed slow times half_full * 2000000 ≤ 2000000 + (3000000 - 0) * 1
passed_bound_example = passed_bound slow 3000000 times half_full times-Ordered

abbrev drained : Bucket
drained = record { tokens = 500000; last_refill = 0 }

drained_refuses : (token_bucket slow 1000 1 (some drained)).0.allowed ≡ false
unfolding token_bucket refill
drained_refuses = refl

drained_waits : 1000 + (token_bucket slow 1000 1 (some drained)).0.retry_after * 1000000 ≤ 2001000
unfolding token_bucket refill
drained_waits = omega arith

retry_after_suffices_example :
    (token_bucket slow 2001000 1 (some (token_bucket slow 1000 1 (some drained)).1)).0.allowed
    ≡ true
retry_after_suffices_example =
    retry_after_suffices slow 1000 2001000 drained (omega arith) (omega arith) drained_refuses
      drained_waits

-- A server that refuses what it knows, and here knows nothing any more.
abbrev evalsha : Text → Text → Limit → ℕ → Exec Bool Reply
evalsha sha key l cost known =
    if known
    then (ok (record { allowed = false; tokens_remaining = 0; retry_after = 2 }), known)
    else (err redis_failure, known)

evalsha_unknown :
    (s : Bool) (sha key : Text) (l : Limit) (cost : ℕ)
    → s ≡ false
    → evalsha sha key l cost s ≡ (err redis_failure, s)
evalsha_unknown s sha key l cost h = ground (arith, h)

abbrev load : Exec Bool Text
load known = (ok (codes "abc"), true)

load_ok : (s s' : Bool) (sha : Text) → load s ≡ (ok sha, s') → s' ≡ true
load_ok s s' sha h = ground arith

abbrev flushed : Scripting
flushed = record {
  Server = Bool;
  knows = λ s sha. s;
  script_load = load;
  evalsha = evalsha;
  script_load_ok = load_ok;
  evalsha_unknown = evalsha_unknown;
}

lost_script_disables_example :
    verdicts flushed
      (request ∷ request ∷ [])
      (record { script_sha = some (codes "abc"); server = false })
    ≡ ok passes ∷ ok passes ∷ []
lost_script_disables_example =
    lost_script_disables flushed (request ∷ request ∷ [])
      (record { script_sha = some (codes "abc"); server = false }) (codes "abc") refl refl
