-- ===== src/Tasks/Stk/Retried.antt =====
-- What the retry of a callback does, after the first run has claimed the callback's id.
use daraja_payment_wrapper.Prelude.{
  ◌<◌, ℕ, suc, codes, text_eq_refl, ◌≡◌, refl, ap, ◌∙◌, Bool, true, some, [], ◌∷◌, arith,
}
use daraja_payment_wrapper.Errors.{Error, Result, ok, err}
use daraja_payment_wrapper.Exec.{Exec}
use daraja_payment_wrapper.Schemas.Callback.{StkCallbackBody}
use daraja_payment_wrapper.Service.{Environment, World, on_db, callback_idem_key}
use daraja_payment_wrapper.Service.Process.{process_callback}
use daraja_payment_wrapper.Service.Process.Duplicates.{
  claim, process_callback_duplicate, process_callback-redis,
}
use daraja_payment_wrapper.Tasks.Worker.{Celery, deliver}
use daraja_payment_wrapper.Tasks.Stk.{max_retries, backoff, in_session, process_stk_callback}

module _ {S A : Type 0} (celery : Celery) (m : ℕ) (backoff : ℕ → ℕ) (body : Exec S A) where
  -- A run that raises, and one that returns.
  twice :
      (fuel : ℕ) (s : S) (e : Error) (a : A)
      → 0 < m
      → (body s).0 ≡ err e
      → (body (body s).1).0 ≡ ok a
      → deliver celery m backoff body (suc (suc fuel)) 0 s
        ≡ record { outcome = some (ok a); waits = backoff 0 ∷ []; state = (body (body s).1).1 }
  unfolding deliver
  twice fuel s e a some_retry failed done =
      ground (arith, failed, done, celery.retry_again m 0 (backoff 0) e some_retry)

module _ (env : Environment) (celery : Celery) where
  open env use {database as pg, redis as rd}

  -- Suppose that the first run has claimed the callback's id in Redis and then raises, because of the
  -- database say, and that Redis answers the claim of the second run. Then the task is retried once,
  -- after 30 seconds, and ends as a success; but its second run has only asked Redis and closed its
  -- session, and the database is as the first run has left it.
  pub process_stk_callback_retried :
      {Payload : Type 0} (model_validate : Payload → Result StkCallbackBody) (fuel : ℕ)
      (payload : Payload) (callback : StkCallbackBody) (w : World env) (e : Error) (s s' : rd.Store)
      (b : Bool)
      → model_validate payload ≡ ok callback
      → claim env callback w.redis ≡ (ok true, s)
      → (process_callback env callback w).0 ≡ err e
      → let first : World env = (in_session env celery (process_callback env callback) w).1 in
        claim env callback first.redis ≡ (ok b, s')
        → process_stk_callback env celery model_validate (suc (suc fuel)) payload w ≡ record {
          outcome = some (ok tt);
          waits = 30 ∷ [];
          state = record first { redis = s'; db = (pg.rollback first.db).1 };
        }
  unfolding process_stk_callback in_session
  process_stk_callback_retried model_validate fuel payload callback w e s s' b valid claimed failed
        again =
      let body = in_session env celery (process_callback env callback) in
      let w' : World env = (process_callback env callback w).1 in
      let first : World env = (body w).1 in
      let key = callback_idem_key callback.checkout_request_id in
      let held : rd.held first.redis key ≡ some (codes "1") =
        ap (λ r. rd.held r key) (process_callback-redis env callback w s claimed)
        ∙ (rd.set_nx_true key (codes "1") env.idempotency_ttl_seconds w.redis s claimed).1 key
        ∙ rw (text_eq_refl key) refl in
      let ignored =
        process_callback_duplicate env callback first b s' (λ absent. cc (held, absent)) again in
      let ran : (body w).0 ≡ err e = failed in
      let settled : body first
          ≡ (ok tt, record first { redis = s'; db = (pg.rollback first.db).1 }) =
        ap (λ (x : Result (Unit {0}) × World env). (x.0, (on_db env pg.rollback x.1).1)) ignored in
      rw (valid, process_stk_callback)
        (twice celery max_retries backoff body fuel w e tt (omega arith) ran
            (ap (λ (x : Result (Unit {0}) × World env). x.0) settled)
          ∙ ap
              (λ (x : Result (Unit {0}) × World env). record {
                outcome = some (ok tt);
                waits = 30 ∷ [];
                state = x.1;
              })
              settled)
