-- ===== src/Service/Once/Outcome.antt =====
-- What one initiation does to the keys that are held and to the number of Daraja calls.
use daraja_payment_wrapper.Prelude.{
  ℕ, ◌+◌, ◌≤◌, Text, text_eq_refl, ◌≡◌, ◌⊎◌, refl, sym, subst, ◌∙◌, inl, inr, arith, some,
}
use daraja_payment_wrapper.Errors.{Result, Error, ok, err, transport_error, is_daraja_error}
use daraja_payment_wrapper.Exec.{Exec, Result-cases, ◌>>=◌, ◌>>◌, catch, raise}
use daraja_payment_wrapper.Exec.Keeps.{
  Keeps, Keeps-bind, Keeps-catch, Keeps-raise, Keeps-if, Keeps-pure,
}
use daraja_payment_wrapper.Schemas.{StkPushInitiateRequest, StkPushInitiateResponse}
use daraja_payment_wrapper.Repository.{create}
use daraja_payment_wrapper.Repository.Held.{
  HasKey, HasKey-some, Held, create-Held, commit-Held, rollback-Held, update_daraja_ids-Held,
  mark_failed-Held, get_by_idempotency_key-Held,
}
use daraja_payment_wrapper.Daraja.Stk.{StkArgs}
use daraja_payment_wrapper.Service.{Environment, World, Initiator, on_db, new_uuid, transact}
use daraja_payment_wrapper.Service.Steps.{transact-Committed}
use daraja_payment_wrapper.Service.Initiate.{
  args, new_payment, insert_new, mark_call_failed, call_daraja, dispatch, start, initiate_stk_push,
}
use daraja_payment_wrapper.Service.Initiate.Safety.{initiate_no_second_charge}
use daraja_payment_wrapper.Service.Once.Frame.{
  Over, redis_setex-Over, transact-Over, initiate_takes, on_db_both-Over,
}

module _ (env : Environment) (calls : env.Daraja → ℕ) where
  open env use {database as pg}

  -- The key is held, and Daraja has been called at most `n` times.
  abbrev pub Charged : Text → ℕ → pg.Session → env.Daraja → Type 0
  Charged k n s d = Held pg k s × (calls d ≤ n)

  pub on_db-Charged :
      {A : Type 0} (k : Text) (n : ℕ) (m : Exec pg.Session A)
      → Keeps (Held pg k) m
      → Keeps (Over env (Charged k n)) (on_db env m)
  on_db-Charged k n m keep = record { at = λ w h. (keep.at w.db h.0, h.1) }

  pub transact-Charged :
      (k : Text) (n : ℕ) (m : Exec pg.Session (Unit {0}))
      → Keeps (Held pg k) m
      → Keeps (Over env (Charged k n)) (transact env m)
  transact-Charged k n m keep =
      transact-Over env (Charged k n) m (on_db-Charged k n m keep)
        (on_db-Charged k n pg.commit (commit-Held pg k))
        (on_db-Charged k n pg.rollback (rollback-Held pg k))

  pub transact-daraja :
      (m : Exec pg.Session (Unit {0})) (w : World env) → (transact env m w).1.daraja ≡ w.daraja
  unfolding transact
  transact-daraja m w = ground arith

  pub mark_call_failed-Charged :
      (k : Text) (n : ℕ) (id : Text) → Keeps (Over env (Charged k n)) (mark_call_failed env id)
  unfolding mark_call_failed
  mark_call_failed-Charged k n id =
      Keeps-catch _ _
        (on_db_both-Over env (Charged k n) _ (on_db-Charged k n _ (mark_failed-Held pg k id _ _))
          (on_db-Charged k n _ (commit-Held pg k)))
        (λ e. on_db-Charged k n _ (rollback-Held pg k))

  pub insert_new-Held :
      (k : Text) (r : StkPushInitiateRequest) (id : Text) → Keeps (Held pg k) (insert_new env r id)
  unfolding insert_new
  insert_new-Held k r id = record {
    at = λ s h. (create-Held pg k (new_payment r id (pg.utcnow s))).at s h;
  }

  module _ (limit : ℕ) (f : Initiator env)
      (only_client : (a : StkArgs) (w : World env) → (f a w).1.db ≡ w.db)
      (once : (a : StkArgs) (w : World env) → calls (f a w).1.daraja ≤ calls w.daraja + limit)
      (r : StkPushInitiateRequest) where
    pub called :
        (k : Text) (n : ℕ) (a : StkArgs) (w : World env)
        → Over env (Charged k n) w
        → Over env (Charged k (n + limit)) (f a w).1
    called k n a w (h, c) = (subst (Held pg k) (sym (only_client a w)) h, omega (arith, once a w))

    call_daraja_charges :
        (k : Text) (n : ℕ) (id : Text) (w : World env)
        → Over env (Charged k n) w
        → Over env (Charged k (n + limit)) (call_daraja env f r id w).1
    unfolding call_daraja
    call_daraja_charges k n id w h =
        let h' = called k n (args r) w h in
        let failed : (e : Error)
            → Keeps (Over env (Charged k (n + limit))) (mark_call_failed env id >> raise e) =
          λ e. Keeps-bind _ _ (mark_call_failed-Charged k (n + limit) id) (λ u. Keeps-raise e) in
        elim (Result-cases (f (args r) w).0) [
          | inl (a, e) ↦ rw (e, catch) h'
          | inr (x, e) ↦
              rw (e, catch)
                ((Keeps-if (is_daraja_error x) _ _ (failed x) (Keeps-raise x)).at (f (args r) w).1
                  h')
        ]

    dispatch_charges :
        (k : Text) (n : ℕ) (id : Text) (w : World env)
        → Over env (Charged k n) w
        → Over env (Charged k (n + limit)) (dispatch env f r id w).1
    unfolding dispatch
    dispatch_charges k n id w h =
        let h' = call_daraja_charges k n id w h in
        elim (Result-cases (call_daraja env f r id w).0) [
          | inr (x, e) ↦ rw (e, ◌>>=◌) h'
          | inl (result, e) ↦
              rw (e, ◌>>=◌)
                ((Keeps-bind _ _
                    (transact-Charged k (n + limit) _ (update_daraja_ids-Held pg k id _ _))
                    (λ u.
                      Keeps-bind _ _ (redis_setex-Over env (Charged k (n + limit)) _ _ _)
                        (λ u. Keeps-pure _))).at
                  (call_daraja env f r id w).1 h')
        ]

    start_charges :
        (k : Text) (n : ℕ) (w : World env)
        → Over env (Charged k n) w
        → Over env (Charged k (n + limit)) (start env f r w).1
    unfolding start new_uuid
    start_charges k n w h =
        let w1 : World env = record w { draws = w.draws + 1 } in
        let id = env.uuid4 w.draws in
        let inserted = transact env (insert_new env r id) w1 in
        let h' = (transact-Charged k n _ (insert_new-Held k r id)).at w1 h in
        elim (Result-cases inserted.0) [
          | inl (u, e) ↦ rw (e, ◌>>=◌) (dispatch_charges k n id inserted.1 h')
          | inr (x, e) ↦ rw (e, ◌>>=◌) (h'.0, omega (arith, h'.1))
        ]

    -- An initiation keeps every key held that is held.
    pub initiate-Held :
        (k : Text) (w : World env) → Held pg k w.db → Held pg k (initiate_stk_push env f r w).1.db
    initiate-Held k =
        initiate_takes env (λ s d. Held pg k s) (λ s d. Held pg k s) f r (λ w h. h)
          (record { at = λ w h. (get_by_idempotency_key-Held pg k r.idempotency_key).at w.db h })
          (λ w h. (start_charges k (calls w.daraja) w (h, omega arith)).0)

    -- Daraja is asked `limit` times at most, and only if the key of the request is held afterwards.
    abbrev Spent : ℕ → pg.Session → env.Daraja → Type 0
    Spent n s d = (calls d ≤ n) ⊎ Charged r.idempotency_key (n + limit) s d

    pub inserted-Held :
        (id : Text) (w w' : World env)
        → transact env (insert_new env r id) w ≡ (ok tt, w')
        → Held pg r.idempotency_key w'.db
    unfolding insert_new create new_payment
    inserted-Held id w w' h =
        let c = transact-Committed env (insert_new env r id) w w' h in
        let p = new_payment r id (pg.utcnow w.db) in
        let (rows, saved) = pg.commit_ok c.after w'.db c.committed in
        let there : pg.row c.after id ≡ some p =
          (pg.insert_ok p w.db c.after c.ran).0 id ∙ rw (text_eq_refl id) refl in
        record {
          id = id;
          seen = subst (HasKey r.idempotency_key) (sym (rows id ∙ there)) refl;
          saved = subst (HasKey r.idempotency_key) (sym (saved id ∙ there)) refl;
        }

    start_spends :
        (n : ℕ) (w : World env) → calls w.daraja ≤ n → Over env (Spent n) (start env f r w).1
    unfolding start new_uuid
    start_spends n w h =
        let w1 : World env = record w { draws = w.draws + 1 } in
        let id = env.uuid4 w.draws in
        let inserted = transact env (insert_new env r id) w1 in
        let same = transact-daraja (insert_new env r id) w1 in
        let within : calls inserted.1.daraja ≤ n = subst (λ d. calls d ≤ n) (sym same) h in
        elim (Result-cases inserted.0) [
          | inl (u, e) ↦
              rw (e, ◌>>=◌)
                (inr (
                  dispatch_charges r.idempotency_key n id inserted.1
                    (inserted-Held id w1 inserted.1 (ground arith), within)))
          | inr (x, e) ↦ rw (e, ◌>>=◌) (inl within)
        ]

    reads_calls :
        (n : ℕ) {A : Type 0} (m : Exec pg.Session A)
        → Keeps (Over env (λ s d. calls d ≤ n)) (on_db env m)
    reads_calls n m = record { at = λ w h. h }

    pub initiate_spends :
        (w : World env) → Over env (Spent (calls w.daraja)) (initiate_stk_push env f r w).1
    initiate_spends w =
        initiate_takes env (λ s d. calls d ≤ calls w.daraja) (Spent (calls w.daraja)) f r
          (λ w' h. inl h) (reads_calls (calls w.daraja) _) (start_spends (calls w.daraja)) w
          (omega arith)

    -- With a client that never gets through to Daraja, nothing is called.
    abbrev refusing : Initiator env
    refusing a w = (err transport_error, w)

    start-refusing : (w : World env) → (start env refusing r w).1.daraja ≡ w.daraja
    unfolding start new_uuid transact dispatch call_daraja
    start-refusing w = ground arith

    -- For a key that is held, Daraja is not called.
    pub initiate_quiet :
        (w : World env)
        → Held pg r.idempotency_key w.db
        → calls (initiate_stk_push env f r w).1.daraja ≤ calls w.daraja
    initiate_quiet w h =
        let (p, there, key) = HasKey-some r.idempotency_key (pg.row w.db h.id) h.seen in
        let n = calls w.daraja in
        let quiet =
          initiate_takes env (λ s d. calls d ≤ n) (λ s d. calls d ≤ n) refusing r (λ w' c. c)
            (reads_calls n _) (λ w' c. subst (λ d. calls d ≤ n) (sym (start-refusing w')) c) w
            (omega arith) in
        subst (λ (x : Result StkPushInitiateResponse × World env). calls x.1.daraja ≤ n)
          (sym (initiate_no_second_charge env f refusing r h.id p w there key)) quiet
