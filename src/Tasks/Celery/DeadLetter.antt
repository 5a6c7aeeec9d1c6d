-- ===== src/Tasks/Celery/DeadLetter.antt =====
-- What becomes of a task that has failed for good.
use daraja_payment_wrapper.Prelude.{
  ℕ, zero, suc, ◌+◌, ◌≤◌, leb, length, Text, ◌≡◌, refl, ap, ◌∙◌, true, some, List, [], ◌∷◌, ◌++◌,
  inl, inr, Bool-cases, if◌then◌else◌, arith,
}
use daraja_payment_wrapper.Errors.{Error, Result, ok, err, type_error}
use daraja_payment_wrapper.Exec.{Exec, Result-cases}
use daraja_payment_wrapper.Tasks.Worker.{Celery, deliver, lt_or_le}
use daraja_payment_wrapper.Tasks.Celery.{
  Broker, Failure, retries_of, max_retries_of, minus, handle_task_falure, handle_all,
}

-- The handler raises a TypeError if the retries are used up, and else does nothing: no message is sent.
handle_task_falure_lem :
    (f : Failure) (sent : Broker)
    → handle_task_falure f sent ≡ (
      if leb (max_retries_of f.sender) (retries_of f.sender) then err type_error else ok tt,
      sent,
    )
unfolding handle_task_falure minus
handle_task_falure_lem f sent =
    elim (Bool-cases (leb (max_retries_of f.sender) (retries_of f.sender))) [
      | inl over ↦ rw (over) refl
      | inr more ↦ rw (more) refl
    ]

handle_all_lem : (fs : List Failure) (sent : Broker) → handle_all fs sent ≡ sent
unfolding handle_all
handle_all_lem [] sent = refl
handle_all_lem (f ∷ fs) sent =
    ap (λ (x : Result (Unit {0}) × Broker). handle_all fs x.1) (handle_task_falure_lem f sent)
    ∙ handle_all_lem fs sent

module _ (celery : Celery) {S A : Type 0} (max_retries : ℕ) (backoff : ℕ → ℕ)
    (body : Exec S A) where
  -- A task that ends with an exception has used up its retries.
  deliver_retries :
      (fuel retries : ℕ) (s : S) (e : Error)
      → retries ≤ max_retries
      → (deliver celery max_retries backoff body fuel retries s).outcome ≡ some (err e)
      → length (deliver celery max_retries backoff body fuel retries s).waits + retries
        ≡ max_retries
  unfolding deliver
  deliver_retries zero retries s e within h = cc
  deliver_retries (suc fuel) retries s e within h = elim (Result-cases (body s).0) [
    | inl (a, done) ↦ ground (arith, done)
    | inr (x, failed) ↦ elim (lt_or_le retries max_retries) [
      | inl more ↦ ground (
        arith,
        celery.retry_again max_retries retries (backoff retries) x more,
        deliver_retries fuel (suc retries) (body s).1 e more,
      )
      | inr last ↦ ground (arith, celery.retry_over max_retries retries (backoff retries) x last)
    ]
  ]

  -- When a task has ended with an exception, the handler of its failure raises a TypeError: no message
  -- for the dead letter queue is sent, neither then nor at any failure before or after it.
  pub dead_letter_lost :
      (fuel : ℕ) (s : S) (e : Error) (name : Text) (f : Failure) (before after : List Failure)
      (sent : Broker)
      → let d = deliver celery max_retries backoff body fuel 0 s in
        d.outcome ≡ some (err e)
        → f.sender
          ≡ some
              (record { name = name; retries = some (length d.waits); max_retries = max_retries })
        → (handle_task_falure f sent ≡ (err type_error, sent))
          × (handle_all (before ++ f ∷ after) sent ≡ sent)
  dead_letter_lost fuel s e name f before after sent h from =
      let used = deliver_retries fuel 0 s e (omega arith) h in
      let over : leb (max_retries_of f.sender) (retries_of f.sender) ≡ true =
        ap (λ o. leb (max_retries_of o) (retries_of o)) from ∙ ground arith in
      (handle_task_falure_lem f sent ∙ rw (over) refl, handle_all_lem (before ++ f ∷ after) sent)
