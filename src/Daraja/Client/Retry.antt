-- ===== src/Daraja/Client/Retry.antt =====
-- How `post` retries.
use daraja_payment_wrapper.Prelude.{
  ℕ, zero, suc, ◌+◌, ◌≤◌, Text, ◌++◌, ◌≡◌, ◌⊎◌, inl, inr, refl, sym, ap, ◌∙◌, Bool, true, false,
  arith, Bool-cases,
}
use daraja_payment_wrapper.Errors.{
  Error, Result, ok, err, retry_exhausted, is_transient, is_daraja_error,
}
use daraja_payment_wrapper.Exec.{Exec, catch_if, ◌>>◌, Result-cases}
use daraja_payment_wrapper.Json.{Dict}
use daraja_payment_wrapper.Daraja.{Platform, Host, Tenacity}
use daraja_payment_wrapper.Daraja.Circuit.{closed, check_circuit}
use daraja_payment_wrapper.Daraja.Client.{Json, check, timed_out, attempt, post}

module _ {S A : Type 0} (tenacity : Tenacity S) (p : Error → Bool) (body : Exec S A) where
  open tenacity use {retrying, pause}

  -- A run that raises what is retried, as an equation on the body.
  failed_at : (s : S) (e : Error) → (body s).0 ≡ err e → body s ≡ (err e, (body s).1)
  failed_at s e h = ground arith

  Returns : ℕ → S → Type 0
  Returns n s = (a : A) × (retrying p n body s ≡ (ok a, (body s).1))

  Raises : ℕ → S → Type 0
  Raises n s = (e : Error) × (p e ≡ false) × (retrying p n body s ≡ (err e, (body s).1))

  Fails : S → Type 0
  Fails s = (e : Error) × (p e ≡ true) × (body s ≡ (err e, (body s).1))

  -- A run returns, raises what is not retried, or raises what is.
  run_cases : (n : ℕ) (s : S) → Returns n s ⊎ (Raises n s ⊎ Fails s)
  unfolding Returns Raises Fails
  run_cases n s = elim (Result-cases (body s).0) [
    | inl (a, done) ↦ inl (a, tenacity.retrying_value p n body s (body s).1 a (ground arith))
    | inr (x, failed) ↦ elim (Bool-cases (p x)) [
      | inl again ↦ inr (inr (x, again, failed_at s x failed))
      | inr fatal ↦ inr (
          inl (
            x,
            fatal,
            tenacity.retrying_fatal p n body s (body s).1 x (failed_at s x failed) fatal,
          ))
    ]
  ]

  -- What is retried never comes out of the retries.
  retrying_raises :
      (n : ℕ) (s s' : S) (e : Error)
      → p retry_exhausted ≡ false
      → retrying p (suc n) body s ≡ (err e, s')
      → p e ≡ false
  unfolding Returns Raises Fails
  retrying_raises zero s s' e final h = elim (run_cases 1 s) [
    | inl (a, done) ↦ absurd (ground arith)
    | inr (inl (x, fatal, raised)) ↦ ground arith
    | inr (inr (x, again, failed)) ↦
        ground (arith, tenacity.retrying_last p body s (body s).1 x failed again)
  ]
  retrying_raises (suc n) s s' e final h = elim (run_cases (suc (suc n)) s) [
    | inl (a, done) ↦ absurd (ground arith)
    | inr (inl (x, fatal, raised)) ↦ ground arith
    | inr (inr (x, again, failed)) ↦
        let next = tenacity.retrying_again p n body s (body s).1 x failed again in
        retrying_raises n (pause (body s).1) s' e final (sym next ∙ h)
  ]

  -- If every run raises what is retried, the retries end with `RetryError`.
  module _ (Down : S → Type 0)
      (down : (s : S)
        → Down s
        → (e : Error) × ((body s).0 ≡ err e) × (p e ≡ true) × Down (pause (body s).1)) where
    retrying_exhausted :
        (n : ℕ) (s : S) → Down s → (retrying p (suc n) body s).0 ≡ err retry_exhausted
    retrying_exhausted zero s h =
        let (e, failed, again, _) = down s h in
        ap (λ (x : Result A × S). x.0)
          (tenacity.retrying_last p body s (body s).1 e (failed_at s e failed) again)
    retrying_exhausted (suc n) s h =
        let (e, failed, again, h') = down s h in
        ap (λ (x : Result A × S). x.0)
          (tenacity.retrying_again p n body s (body s).1 e (failed_at s e failed) again)
        ∙ retrying_exhausted n (pause (body s).1) h'

  -- If a run adds at most one to a count, the retries add at most one for each attempt allowed.
  module _ (count : S → ℕ) (one : (s : S) → count (body s).1 ≤ count s + 1)
      (idle : (s : S) → count (pause s) ≤ count s) where
    pub retrying_count : (n : ℕ) (s : S) → count (retrying p (suc n) body s).1 ≤ count s + suc n
    unfolding Returns Raises Fails
    retrying_count zero s = elim (run_cases 1 s) [
      | inl (a, done) ↦ ground (arith, one s)
      | inr (inl (x, fatal, raised)) ↦ ground (arith, one s)
      | inr (inr (x, again, failed)) ↦
          ground (arith, one s, tenacity.retrying_last p body s (body s).1 x failed again)
    ]
    retrying_count (suc n) s = elim (run_cases (suc (suc n)) s) [
      | inl (a, done) ↦ ground (arith, one s)
      | inr (inl (x, fatal, raised)) ↦ ground (arith, one s)
      | inr (inr (x, again, failed)) ↦
          let next = tenacity.retrying_again p n body s (body s).1 x failed again in
          let rest = retrying_count n (pause (body s).1) in ground (arith, one s, idle (body s).1)
    ]

-- A handler whose errors do not occur.
unhandled :
    {S A : Type 0} (p : Error → Bool) (m : Exec S A) (h : Error → Exec S A) (s : S)
    → ((e : Error) → (m s).0 ≡ err e → p e ≡ false)
    → catch_if p m h s ≡ m s
unhandled p m h s never = elim (Result-cases (m s).0) [
  | inl (a, done) ↦ ground arith
  | inr (e, failed) ↦ ground (arith, never e failed)
]

pub one_more : (n : ℕ) → 1 ≤ n → (m : ℕ) × (n ≡ suc m)
one_more zero h = absurd (omega arith)
one_more (suc m) h = (m, refl)

module _ (env : Platform) (tenacity : Tenacity (Host env)) (path : Text) (payload : Dict) where
  abbrev run : Exec (Host env) Json
  run = attempt env (env.daraja_base_url ++ path) payload

  retries_are_final :
      (w : Host env) (e : Error)
      → 1 ≤ env.daraja_retry_attempts
      → (tenacity.retrying is_transient env.daraja_retry_attempts run w).0 ≡ err e
      → is_transient e ≡ false
  retries_are_final w e some_attempt h =
      let (m, n_eq) = one_more env.daraja_retry_attempts some_attempt in
      let s' = (tenacity.retrying is_transient (suc m) run w).1 in
      retrying_raises tenacity is_transient run m w s' e refl (ground arith)

  -- The handler that turns a timeout into `DarajaTimeoutError` never runs: `post` is the check of
  -- the circuit and the retries, and when the attempts are used up it raises what tenacity raises.
  pub post_unhandled :
      (w : Host env)
      → 1 ≤ env.daraja_retry_attempts
      → post env tenacity path payload w
        ≡ (check env >> tenacity.retrying is_transient env.daraja_retry_attempts run) w
  unfolding post check
  post_unhandled w some_attempt = elim (Result-cases (check env w).0) [
    | inr (e, refused) ↦ ground arith
    | inl (u, passed) ↦ ground (
      arith,
      unhandled is_transient (tenacity.retrying is_transient env.daraja_retry_attempts run)
          (timed_out env) (check env w).1 (λ e. retries_are_final (check env w).1 e some_attempt),
    )
  ]

  -- Suppose that the circuit is closed and every attempt fails with a timeout or a transport error.
  -- Then `post` raises tenacity's `RetryError`, which is no `DarajaError`.
  pub post_exhausted :
      (Down : Host env → Type 0)
      → ((w : Host env)
          → Down w
          → (e : Error) × ((run w).0 ≡ err e)
            × (is_transient e ≡ true)
            × Down (tenacity.pause (run w).1))
      → (w : Host env) → Down w
      → w.circuit.state ≡ closed
      → 1 ≤ env.daraja_retry_attempts
      → ((post env tenacity path payload w).0 ≡ err retry_exhausted)
        × (is_daraja_error retry_exhausted ≡ false)
  unfolding check check_circuit
  post_exhausted Down down w h shut some_attempt =
      let (m, n_eq) = one_more env.daraja_retry_attempts some_attempt in
      let spent = retrying_exhausted tenacity is_transient run Down down m w h in
      (ground (arith, post_unhandled w some_attempt), refl)
