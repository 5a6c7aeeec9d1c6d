-- ===== src/Middleware/RateLimit.antt =====
-- app/middleware/rate_limit.py: the token bucket, and the limits of the routes.
-- The expiry of the hash is left out. The script's numbers are exact: tokens are counted in `unit`s
-- of half a millionth, rates in half tokens for each second, and times in microseconds.
pub mod Bound
pub mod Script
use daraja_payment_wrapper.Prelude.{
  ℕ, zero, suc, ◌+◌, ◌-◌, ◌*◌, ◌/◌, ◌≤◌, ◌<◌, min, Text, codes, starts_with, length, ◌≡◌, refl,
  Bool, true, false, ◌&&◌, Option, none, some, List, [], ◌∷◌, ◌++◌, leb, ltb, arith, if◌then◌else◌,
  not, inl, inr, Bool-cases,
}
use daraja_payment_wrapper.Schemas.Request.{strip}
use daraja_payment_wrapper.Middleware.{Request, Verdict, passes, answers, first_part}

pub record Limit : Type 0 where
  pub capacity : ℕ
  pub half_rate : ℕ

abbrev pub limit : ℕ → ℕ → Limit
limit capacity half_rate = record { capacity = capacity; half_rate = half_rate }

abbrev route_limits : List (Text × Limit)
route_limits =
    (codes "api/v1/callbacks/", limit 200 20)
    ∷ (codes "api/v1/payments/stk", limit 20 1)
    ∷ (codes "/health", limit 100 20)
    ∷ (codes "/ready", limit 100 20)
    ∷ []

abbrev pub default_limit : Limit
default_limit = limit 60 2

-- `sorted(..., key=len, reverse=True)`, which keeps the order of equal lengths
unfoldable pub insert : Text × Limit → List (Text × Limit) → List (Text × Limit)
insert e [] = e ∷ []
insert e (x ∷ l) = if leb (length x.0) (length e.0) then e ∷ x ∷ l else x ∷ insert e l

unfoldable pub sorted : List (Text × Limit) → List (Text × Limit)
sorted [] = []
sorted (e ∷ l) = insert e (sorted l)

unfoldable pub first_match : Text → List (Text × Limit) → Limit
first_match path [] = default_limit
first_match path ((prefix, l) ∷ rest) = if starts_with path prefix then l else first_match path rest

unfoldable pub resolve_limit : Text → Limit
resolve_limit path = first_match path (sorted route_limits)

-- A path that begins with a slash gets the default limit, unless it begins with `/health` or
-- `/ready`: the limits of the callbacks and of the payments are never used for it.
pub resolve_limit_default :
    (path : Text)
    → starts_with path (codes "/") ≡ true
    → starts_with path (codes "/health") ≡ false
    → starts_with path (codes "/ready") ≡ false
    → resolve_limit path ≡ default_limit
unfolding resolve_limit sorted insert first_match
resolve_limit_default [] slash health ready = cc
resolve_limit_default (c ∷ path) slash health ready = ground arith

abbrev pub unit : ℕ
unit = 2000000

-- The hash that the script keeps under a key.
pub record Bucket : Type 0 where
  pub tokens : ℕ
  pub last_refill : ℕ

pub record Reply : Type 0 where
  pub allowed : Bool
  pub tokens_remaining : ℕ
  pub retry_after : ℕ

abbrev pub tokens_of : Limit → Option Bucket → ℕ
tokens_of l none = l.capacity * unit
tokens_of l (some b) = b.tokens

abbrev pub refilled_at : ℕ → Option Bucket → ℕ
refilled_at now none = now
refilled_at now (some b) = b.last_refill

-- The tokens after the refill.
unfoldable pub refill : Limit → ℕ → Option Bucket → ℕ
refill l now bucket =
    min (l.capacity * unit) (tokens_of l bucket + (now - refilled_at now bucket) * l.half_rate)

-- `math.ceil(a / b)`
abbrev pub ceil_div : ℕ → ℕ → ℕ
ceil_div a b = (a + (b - 1)) / b

-- The script: the reply and the bucket that it writes.
unfoldable pub token_bucket : Limit → ℕ → ℕ → Option Bucket → Reply × Bucket
token_bucket l now cost bucket =
    let tokens = refill l now bucket in
    if leb (cost * unit) tokens
    then (
      record { allowed = true; tokens_remaining = (tokens - cost * unit) / unit; retry_after = 0 },
      record { tokens = tokens - cost * unit; last_refill = now },
    )
    else (
      record {
        allowed = false;
        tokens_remaining = 0;
        retry_after = ceil_div (cost * unit - tokens) (1000000 * l.half_rate);
      },
      record { tokens = tokens; last_refill = now },
    )

-- `dispatch` after the call of the script, which may have failed: then the request passes.
unfoldable pub dispatch : Option Reply → Verdict
dispatch none = passes
dispatch (some reply) = if reply.allowed then passes else answers 429

-- `_extract_client_ip` and the key of the bucket
unfoldable pub extract_client_ip : Request → Text
extract_client_ip request = elim request.x_forwarded_for [
  | none ↦ host_or_unknown request.client_host
  | some [] ↦ host_or_unknown request.client_host
  | some (c ∷ xff) ↦ strip (first_part (c ∷ xff))
]
  where
    host_or_unknown : Option Text → Text
    host_or_unknown none = codes "unknown"
    host_or_unknown (some host) = host

unfoldable pub bucket_key : Request → Text
bucket_key request = codes "ratelimit:" ++ extract_client_ip request ++ codes ":" ++ request.path
