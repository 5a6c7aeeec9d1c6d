-- ===== src/Tasks/Worker.antt =====
-- Celery, as app/tasks/stk_tasks.py uses it: a bound task that calls `self.retry(exc=e, countdown=n)`.
-- `retry` is not part of the repository; the worker that delivers the message again is a loop on fuel.
use daraja_payment_wrapper.Prelude.{
  ℕ, zero, suc, ◌+◌, ◌≤◌, ◌<◌, ◌≡◌, ◌⊎◌, inl, inr, subst, ltb, Bool-cases, Option, none, some, List,
  [], ◌∷◌, arith,
}
use daraja_payment_wrapper.Errors.{Error, Result, ok, err}
use daraja_payment_wrapper.Exec.{Exec, Result-cases}

-- What `retry` raises: `Retry`, and the message is sent again after the countdown; or an exception.
pub data Signal : Type 0 where
  again : (countdown : ℕ) → Signal
  raises : Error → Signal

-- `retry` raises the given exception itself, no `MaxRetriesExceededError`, once the retries are used up.
pub record Celery : Type 0 where
  pub retry : (max_retries retries countdown : ℕ) → Error → Signal
  pub retry_again : (m n c : ℕ) (e : Error) → n < m → retry m n c e ≡ again c
  pub retry_over : (m n c : ℕ) (e : Error) → m ≤ n → retry m n c e ≡ raises e

-- The end of a task, if the fuel has sufficed; the countdowns on the way; and the state after it.
pub record Delivery (S A : Type 0) : Type 0 where
  pub outcome : Option (Result A)
  pub waits : List ℕ
  pub state : S

abbrev pub total : List ℕ → ℕ
total [] = 0
total (n ∷ l) = n + total l

pub lt_or_le : (n m : ℕ) → (n < m) ⊎ (m ≤ n)
lt_or_le n m = elim (Bool-cases (ltb n m)) [
  | inl less ↦ inl (ground arith)
  | inr more ↦ inr (ground arith)
]

module _ (celery : Celery) {S A : Type 0} (max_retries : ℕ) (backoff : ℕ → ℕ)
    (body : Exec S A) where
  abbrev ended : Result A → S → Delivery S A
  ended r s = record { outcome = some r; waits = []; state = s }

  abbrev after_signal : Signal → S → Delivery S A → Delivery S A
  after_signal (raises e) s rest = ended (err e) s
  after_signal (again c) s rest = record rest { waits = c ∷ rest.waits }

  -- The first run has made no retries; each message that is sent again has made one more.
  unfoldable pub deliver : ℕ → ℕ → S → Delivery S A
  deliver zero retries s = record { outcome = none; waits = []; state = s }
  deliver (suc fuel) retries s =
      let (r, s') = body s in
      let rest = deliver fuel (suc retries) s' in
      elim r [
        | ok a ↦ ended (ok a) s'
        | err e ↦ after_signal (celery.retry max_retries retries (backoff retries) e) s' rest
      ]

  -- With fuel for the runs that are left, the task comes to an end, at the latest with the exception
  -- of its last run.
  pub deliver_ends :
      (fuel retries : ℕ) (s : S)
      → max_retries < retries + fuel
      → retries ≤ max_retries
      → (r : Result A) × ((deliver fuel retries s).outcome ≡ some r)
  unfolding deliver
  deliver_ends zero retries s enough within = absurd (omega arith)
  deliver_ends (suc fuel) retries s enough within = elim (Result-cases (body s).0) [
    | inl (a, done) ↦ (ok a, ground (arith, done))
    | inr (e, failed) ↦ elim (lt_or_le retries max_retries) [
      | inl more ↦
          let (r, h) = deliver_ends fuel (suc retries) (body s).1 (omega arith) (omega arith) in
          (r, ground (arith, h, celery.retry_again max_retries retries (backoff retries) e more))
      | inr last ↦
          (err e, ground (arith, celery.retry_over max_retries retries (backoff retries) e last))
    ]
  ]

  -- The countdowns add up to no more than a budget that each of them is paid from.
  pub deliver_waits :
      (budget : ℕ → ℕ)
      → ((n : ℕ) → n < max_retries → backoff n + budget (suc n) ≤ budget n)
      → (fuel retries : ℕ) (s : S) → total (deliver fuel retries s).waits ≤ budget retries
  unfolding deliver
  deliver_waits budget pays zero retries s = omega arith
  deliver_waits budget pays (suc fuel) retries s = elim (Result-cases (body s).0) [
    | inl (a, done) ↦ ground (arith, done)
    | inr (e, failed) ↦ elim (lt_or_le retries max_retries) [
      | inl more ↦
          let rest = deliver_waits budget pays fuel (suc retries) (body s).1 in
          let paid = pays retries more in
          ground (arith, celery.retry_again max_retries retries (backoff retries) e more)
      | inr last ↦ ground (arith, celery.retry_over max_retries retries (backoff retries) e last)
    ]
  ]

  -- What every run keeps holds at the end.
  pub deliver_keeps :
      (P : S → Type 0)
      → ((s : S) → P s → P (body s).1)
      → (fuel retries : ℕ) (s : S) → P s
      → P (deliver fuel retries s).state
  unfolding deliver
  deliver_keeps P keep zero retries s h = h
  deliver_keeps P keep (suc fuel) retries s h = elim (Result-cases (body s).0) [
    | inl (a, done) ↦ subst P (ground (arith, done)) (keep s h)
    | inr (e, failed) ↦ elim (lt_or_le retries max_retries) [
      | inl more ↦
          subst P (ground (arith, celery.retry_again max_retries retries (backoff retries) e more))
            (deliver_keeps P keep fuel (suc retries) (body s).1 (keep s h))
      | inr last ↦
          subst P (ground (arith, celery.retry_over max_retries retries (backoff retries) e last))
            (keep s h)
    ]
  ]
