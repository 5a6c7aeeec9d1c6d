-- ===== src/Middleware/RateLimit/Bound.antt =====
-- How many requests a bucket lets through.
use native.Mathlib.Nat.{add-mul, mul_assoc, mul-le-mul_right, lt-div-mul-add}
use daraja_payment_wrapper.Prelude.{
  ℕ, ◌+◌, ◌-◌, ◌*◌, ◌≤◌, ◌≡◌, sym, ap, subst, ◌∙◌, true, false, some, List, [], ◌∷◌, arith,
  if◌then◌else◌,
}
use daraja_payment_wrapper.Middleware.RateLimit.{
  Limit, Bucket, Reply, unit, refill, ceil_div, token_bucket,
}

-- The requests at the given times that pass, each with the cost of one token.
abbrev pub passed : Limit → List ℕ → Bucket → ℕ
passed l [] b = 0
passed l (now ∷ times) b =
    let (reply, b') = token_bucket l now 1 (some b) in
    (if reply.allowed then 1 else 0) + passed l times b'

-- The times do not run back, from `from` to `until`.
pub data Ordered : ℕ → List ℕ → ℕ → Type 0 where
  done : {t until : ℕ} → t ≤ until → Ordered t [] until
  next :
      {t now until : ℕ} {times : List ℕ}
      → t ≤ now
      → Ordered now times until
      → Ordered t (now ∷ times) until

-- A step pays for what it lets through with what it had and what the time has refilled.
step_pays :
    (l : Limit) (now : ℕ) (b : Bucket)
    → let (reply, b') = token_bucket l now 1 (some b) in
      (if reply.allowed then 1 else 0) * unit + b'.tokens
      ≤ b.tokens + (now - b.last_refill) * l.half_rate
unfolding token_bucket refill
step_pays l now b = ground arith

-- The refill of a span is that of its two parts.
span : (a b c r : ℕ) → a ≤ b → b ≤ c → (b - a) * r + (c - b) * r ≡ (c - a) * r
span a b c r h k =
    sym (add-mul (b - a) (c - b) r)
    ∙ ap (λ n. n * r) (let e : b - a + (c - b) ≡ c - a = omega arith in e)

Ordered-le : (t until : ℕ) (times : List ℕ) → Ordered t times until → t ≤ until
Ordered-le t until [] (done h) = h
Ordered-le t until (now ∷ times) (next {now = n} h o) = omega (arith, Ordered-le n until times o)

refilled_now :
    (l : Limit) (now : ℕ) (b : Bucket) → (token_bucket l now 1 (some b)).1.last_refill ≡ now
unfolding token_bucket
refilled_now l now b = ground arith

-- Of the requests that arrive in the order of time between `b.last_refill` and `until`, at most as
-- many pass as the bucket has tokens and the rate refills in that time.
pub passed_bound :
    (l : Limit) (until : ℕ) (times : List ℕ) (b : Bucket)
    → Ordered b.last_refill times until
    → passed l times b * unit ≤ b.tokens + (until - b.last_refill) * l.half_rate
passed_bound l until [] b o = omega arith
passed_bound l until (now ∷ times) b (next h o) =
    let b' = (token_bucket l now 1 (some b)).1 in
    let rest =
      passed_bound l until times b'
        (subst (λ t. Ordered t times until) (sym (refilled_now l now b)) o) in
    ground (
      arith,
      step_pays l now b,
      refilled_now l now b,
      span b.last_refill now until l.half_rate h (Ordered-le now until times o),
    )

-- `ceil_div a b` is enough copies of `b` to make `a`.
ceil_div_le : (a b : ℕ) → 1 ≤ b → a ≤ ceil_div a b * b
ceil_div_le a b h = omega (arith, lt-div-mul-add {a = a + (b - 1)} {b = b} h)

wait_refills :
    (t r w now later : ℕ)
    → unit - t ≤ w * (1000000 * r)
    → now + w * 1000000 ≤ later
    → unit ≤ t + (later - now) * r
wait_refills t r w now later enough waited =
    let long : w * 1000000 ≤ later - now = omega arith in
    omega (arith, mul-le-mul_right r long, mul_assoc w 1000000 r)

refusal :
    (l : Limit) (now : ℕ) (b : Bucket)
    → (token_bucket l now 1 (some b)).0.allowed ≡ false
    → let t = refill l now (some b) in
      token_bucket l now 1 (some b) ≡ (
        record {
          allowed = false;
          tokens_remaining = 0;
          retry_after = ceil_div (unit - t) (1000000 * l.half_rate);
        },
        record { tokens = t; last_refill = now },
      )
unfolding token_bucket
refusal l now b refused = ground arith

full_passes :
    (l : Limit) (now later t : ℕ)
    → 1 ≤ l.capacity
    → unit ≤ t + (later - now) * l.half_rate
    → (token_bucket l later 1 (some (record { tokens = t; last_refill = now }))).0.allowed ≡ true
unfolding token_bucket refill
full_passes l now later t some_capacity enough = ground arith

-- A refusal says how long to wait: if the capacity and the rate are positive, a request that comes
-- `retry_after` seconds later passes, when none came in between.
pub retry_after_suffices :
    (l : Limit) (now later : ℕ) (b : Bucket)
    → 1 ≤ l.capacity
    → 1 ≤ l.half_rate
    → (token_bucket l now 1 (some b)).0.allowed ≡ false
    → now + (token_bucket l now 1 (some b)).0.retry_after * 1000000 ≤ later
    → (token_bucket l later 1 (some (token_bucket l now 1 (some b)).1)).0.allowed ≡ true
retry_after_suffices l now later b some_capacity some_rate refused waited =
    let t = refill l now (some b) in
    let r = refusal l now b refused in
    let w = ceil_div (unit - t) (1000000 * l.half_rate) in
    let long : now + w * 1000000 ≤ later =
      subst (λ (x : Reply × Bucket). now + x.0.retry_after * 1000000 ≤ later) r waited in
    let enough = ceil_div_le (unit - t) (1000000 * l.half_rate) (omega arith) in
    subst (λ (x : Reply × Bucket). (token_bucket l later 1 (some x.1)).0.allowed ≡ true) (sym r)
      (full_passes l now later t some_capacity (wait_refills t l.half_rate w now later enough long))
