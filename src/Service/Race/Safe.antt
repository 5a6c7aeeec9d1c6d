-- ===== src/Service/Race/Safe.antt =====
-- However the requests with a key are interleaved, Daraja is asked for one of them only.
use daraja_payment_wrapper.Prelude.{
  ℕ, ◌+◌, ◌≤◌, Text, ◌≡◌, ◌⊎◌, inl, inr, refl, ◌∙◌, Bool-cases, sym, subst, List, [], ◌∷◌, arith,
}
use daraja_payment_wrapper.Errors.{Result, ok, err, is_daraja_error}
use daraja_payment_wrapper.Exec.{Exec, Result-cases}
use daraja_payment_wrapper.Exec.Keeps.{Keeps}
use daraja_payment_wrapper.Schemas.{StkPushInitiateRequest}
use daraja_payment_wrapper.Repository.{update_daraja_ids}
use daraja_payment_wrapper.Repository.Held.{Held, HasKey-some, update_daraja_ids-Held}
use daraja_payment_wrapper.Daraja.Stk.{StkArgs, StkInitiationResult}
use daraja_payment_wrapper.Service.{Environment, World, Initiator, transact}
use daraja_payment_wrapper.Service.Initiate.{args, insert_new, mark_call_failed}
use daraja_payment_wrapper.Service.Initiate.Safety.{insert_taken}
use daraja_payment_wrapper.Service.Once.Outcome.{
  transact-Charged, insert_new-Held, mark_call_failed-Charged, transact-daraja, inserted-Held,
}
use daraja_payment_wrapper.Service.Race.{
  Phase, waiting, anchored, answered, failing, finished, after_insert, after_call, advance, Move,
  advances, returns, later, redis_changes, arrives, Run, done, next,
}

module _ (env : Environment) (calls : env.Daraja → ℕ) (limit : ℕ) (f : Initiator env)
    (only_client : (a : StkArgs) (w : World env) → (f a w).1.db ≡ w.db)
    (once : (a : StkArgs) (w : World env) → calls (f a w).1.daraja ≤ calls w.daraja + limit)
    (key : Text) where
  open env use {database as pg}

  -- What a request may still ask of Daraja: only one whose record is durable.
  abbrev pub due : Phase key → ℕ
  due (anchored r id) = limit
  due _ = 0

  abbrev pub all_due : List (Phase key) → ℕ
  all_due [] = 0
  all_due (p ∷ ps) = due p + all_due ps

  -- Nothing is due and `n` calls are made at most; or the key is held, and what is made and due is within the limit.
  abbrev Bounded : ℕ → World env → ℕ → Type 0
  Bounded n w b =
      ((b ≡ 0) × (calls w.daraja ≤ n)) ⊎ (Held pg key w.db × (calls w.daraja + b ≤ n + limit))

  Bounded-le : (n : ℕ) (b b' : ℕ) (w : World env) → b' ≤ b → Bounded n w b → Bounded n w b'
  Bounded-le n b b' w less (inl (e, c)) = inl (omega (arith, less, e), c)
  Bounded-le n b b' w less (inr (h, c)) = inr (h, omega (arith, less, c))

  -- A step that leaves Daraja alone and keeps the key.
  quiet-Bounded :
      (n b : ℕ) (w w' : World env)
      → w'.daraja ≡ w.daraja
      → (Held pg key w.db → Held pg key w'.db)
      → Bounded n w b
      → Bounded n w' b
  quiet-Bounded n b w w' same keep (inl (e, c)) = inl (e, subst (λ d. calls d ≤ n) (sym same) c)
  quiet-Bounded n b w w' same keep (inr (h, c)) =
      inr (keep h, subst (λ d. calls d + b ≤ n + limit) (sym same) c)

  transact-Bounded :
      (n b : ℕ) (m : Exec pg.Session (Unit {0})) (w : World env)
      → Keeps (Held pg key) m
      → Bounded n w b
      → Bounded n (transact env m w).1 b
  transact-Bounded n b m w keep =
      quiet-Bounded n b w (transact env m w).1 (transact-daraja env calls m w)
        (λ h. ((transact-Charged env calls key (calls w.daraja) m keep).at w (h, omega arith)).0)

  -- The insertion goes through only where the key was free, and nothing was due then.
  inserted-Bounded :
      (n : ℕ) (r : StkPushInitiateRequest) (id : Text) (b : ℕ) (w w' : World env)
      → r.idempotency_key ≡ key
      → transact env (insert_new env r id) w ≡ (ok tt, w')
      → w'.daraja ≡ w.daraja
      → Bounded n w b
      → Bounded n w' (limit + b)
  inserted-Bounded n r id b w w' same took still (inr (held, c)) =
      let (p, there, has) = HasKey-some key (pg.row w.db held.id) held.seen in
      absurd (insert_taken env r id held.id p w w' there (has ∙ sym same) took)
  inserted-Bounded n r id b w w' same took still (inl (e, c)) =
      let c' : calls w'.daraja ≤ n = subst (λ d. calls d ≤ n) (sym still) c in
      inr (
        subst (λ k. Held pg k w'.db) same
            (inserted-Held env calls limit f only_client once r id w w' took),
        omega (arith, c', e),
      )

  insert-Bounded :
      (n : ℕ) (r : StkPushInitiateRequest) (id : Text) (b : ℕ) (w : World env)
      → r.idempotency_key ≡ key
      → Bounded n w b
      → Bounded n
          (transact env (insert_new env r id) w).1
          (due (after_insert env f {key = key} r id (transact env (insert_new env r id) w).0) + b)
  insert-Bounded n r id b w same h =
      let inserted = transact env (insert_new env r id) w in
      elim (Result-cases inserted.0) [
        | inl (u, e) ↦ rw (e) (
            inserted-Bounded n r id b w inserted.1 same (ground arith)
              (transact-daraja env calls (insert_new env r id) w) h)
        | inr (x, e) ↦ rw (e) (
            Bounded-le n b _ inserted.1 (omega arith)
              (transact-Bounded n b (insert_new env r id) w (insert_new-Held env calls key r id) h))
      ]

  due-after_call :
      (id : Text) (result : Result StkInitiationResult)
      → due (after_call env f {key = key} id result) ≡ 0
  due-after_call id (ok result) = refl
  due-after_call id (err e) = elim (Bool-cases (is_daraja_error e)) [
    | inl t ↦ rw (t)
    | inr t ↦ rw (t)
  ]

  mark_call_failed-daraja :
      (id : Text) (w : World env) → (mark_call_failed env id w).1.daraja ≡ w.daraja
  unfolding mark_call_failed
  mark_call_failed-daraja id w = ground arith

  call-Bounded :
      (n b : ℕ) (a : StkArgs) (w : World env) → Bounded n w (limit + b) → Bounded n (f a w).1 b
  call-Bounded n b a w (inl (e, c)) = inl (omega (arith, e), omega (arith, once a w, e, c))
  call-Bounded n b a w (inr (h, c)) =
      inr (subst (Held pg key) (sym (only_client a w)) h, omega (arith, once a w, c))

  advance-Bounded :
      (n : ℕ) (p : Phase key) (b : ℕ) (w : World env)
      → Bounded n w (due p + b)
      → Bounded n (advance env f p w).1 (due (advance env f p w).0 + b)
  unfolding advance
  advance-Bounded n (waiting r same) b w h =
      insert-Bounded n r _ b _ same (Bounded-le n _ b w (omega arith) h)
  advance-Bounded n (anchored r id) b w h =
      Bounded-le n b _ (f (args r) w).1 (omega (arith, due-after_call id (f (args r) w).0))
        (call-Bounded n b (args r) w h)
  advance-Bounded n (answered id result) b w h =
      transact-Bounded n _
        (update_daraja_ids pg id result.checkout_request_id result.merchant_request_id) w
        (update_daraja_ids-Held pg key id _ _) h
  advance-Bounded n (failing id) b w h =
      quiet-Bounded n _ w (mark_call_failed env id w).1 (mark_call_failed-daraja id w)
        (λ held.
          ((mark_call_failed-Charged env calls key (calls w.daraja) id).at w (held, omega arith)).0)
        h
  advance-Bounded n finished b w h = h

  Move-Bounded :
      (n b : ℕ) {w w' : World env} {ps ps' : List (Phase key)}
      → Move env f w ps w' ps'
      → Bounded n w (all_due ps + b)
      → Bounded n w' (all_due ps' + b)
  Move-Bounded n b (advances p ps w) h =
      Bounded-le n _ _ (advance env f p w).1 (omega arith)
        (advance-Bounded n p (all_due ps + b) w (Bounded-le n _ _ w (omega arith) h))
  Move-Bounded n b (returns r same ps w) h = h
  Move-Bounded n b (later {w = w} {w' = w'} p {ps = ps} {ps' = ps'} m) h =
      Bounded-le n _ _ w' (omega arith)
        (Move-Bounded n (due p + b) m (Bounded-le n _ _ w (omega arith) h))
  Move-Bounded n b (redis_changes s ps w) h = h
  Move-Bounded n b (arrives r same ps w) h = Bounded-le n _ _ w (omega arith) h

  Run-Bounded :
      (n : ℕ) {w w' : World env} {ps ps' : List (Phase key)}
      → Run env f w ps w' ps'
      → Bounded n w (all_due ps)
      → Bounded n w' (all_due ps')
  Run-Bounded n done h = h
  Run-Bounded n (next {w = w} {w' = w'} m ms) h =
      Run-Bounded n ms (
        Bounded-le n _ _ w' (omega arith) (Move-Bounded n 0 m (Bounded-le n _ _ w (omega arith) h)))

  -- If a call of the client asks Daraja `limit` times at most and leaves the database's session alone,
  -- then all requests with one key together ask it no more often, however many they are, however their
  -- parts are interleaved, and whatever Redis holds or loses meanwhile.
  pub race_charges_once :
      {w w' : World env} {ps : List (Phase key)}
      → Run env f w [] w' ps
      → calls w'.daraja ≤ calls w.daraja + limit
  race_charges_once {w = w} run =
      elim (Run-Bounded (calls w.daraja) run (inl (refl, omega arith))) [
        | inl (e, c) ↦ omega (arith, c)
        | inr (h, c) ↦ omega (arith, c)
      ]
