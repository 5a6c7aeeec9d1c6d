-- ===== src/Service/Initiate/Failure.antt =====
-- What becomes of the payment when the call of Daraja raises.
use mathlib.Core.Option
use daraja_payment_wrapper.Prelude.{
  ℕ, Text, codes, text_eq_refl, ◌≡◌, refl, ap, ◌∙◌, true, false, some, arith,
}
use daraja_payment_wrapper.Prelude.Int.{ℤ, pos}
use daraja_payment_wrapper.Errors.{Error, ok, err, is_daraja_error}
use daraja_payment_wrapper.Exec.{Exec, ◌>>◌}
use daraja_payment_wrapper.Payment.{Payment, failed}
use daraja_payment_wrapper.Schemas.{StkPushInitiateRequest}
use daraja_payment_wrapper.Repository.{failed_values, failed_status, mark_failed}
use daraja_payment_wrapper.Database.{Database}
use daraja_payment_wrapper.Service.{Environment, World, Initiator}
use daraja_payment_wrapper.Service.Initiate.{args, mark_call_failed, call_daraja}

failed_values-id :
    (reason : Text) (code : ℤ) (now : ℕ) (p : Payment) → (failed_values reason code now p).id ≡ p.id
unfolding failed_values
failed_values-id reason code now p = refl

marked_durably :
    (pg : Database) (id : Text) (p : Payment) (t s s' : pg.Session)
    → pg.row t id ≡ some p
    → mark_failed pg id (codes "Daraja API call failed before initiation") (pos 1) t ≡ (ok tt, s)
    → pg.commit s ≡ (ok tt, s')
    → pg.durable s' id
      ≡ some
          (failed_values (codes "Daraja API call failed before initiation") (pos 1) (pg.utcnow t) p)
unfolding mark_failed
marked_durably pg id p t s s' there marked saved =
    let f =
      failed_values (codes "Daraja API call failed before initiation") (pos 1) (pg.utcnow t) in
    (pg.commit_ok s s' saved).1 id
    ∙ (pg.update_ok id f t s (failed_values-id _ _ _) marked).0 id
    ∙ rw (text_eq_refl id) (ap (Option.map f) there)

module _ (env : Environment) (id : Text) where
  -- The update and the commit after a `DarajaError`.
  abbrev pub marking : Exec env.database.Session (Unit {0})
  marking =
      mark_failed env.database id (codes "Daraja API call failed before initiation") (pos 1)
      >> env.database.commit

  -- The payment is durably FAILED with the result code 1.
  abbrev pub IsFailed : env.database.Session → Type 0
  IsFailed s =
      (q : Payment) × (env.database.durable s id ≡ some q)
      × (q.status ≡ failed)
      × (q.result_code ≡ some (pos 1))

  marked-IsFailed :
      (p : Payment) (s s' : env.database.Session)
      → env.database.row s id ≡ some p
      → marking s ≡ (ok tt, s')
      → IsFailed s'
  unfolding mark_failed failed_values failed_status
  marked-IsFailed p s s' there marked =
      let update =
        mark_failed env.database id (codes "Daraja API call failed before initiation") (pos 1) s in
      (
        failed_values (codes "Daraja API call failed before initiation") (pos 1)
            (env.database.utcnow s) p,
        marked_durably env.database id p s update.1 s' there (ground (arith, marked))
            (ground (arith, marked)),
        refl,
        refl,
      )

-- When Daraja's client raises anything but a `DarajaError`, a `RetryError` say, the error goes on to
-- the caller and the database is left as it was. After a `DarajaError` there are three cases. If the
-- update and the commit succeed, a payment that the session sees is durably FAILED with the result
-- code 1, and the error goes on. If either raises and the rollback succeeds, the session sees what is
-- committed, and the error goes on. If the rollback raises too, its error goes on instead.
pub call_daraja_raises :
    (env : Environment) (f : Initiator env) (r : StkPushInitiateRequest) (id : Text) (e : Error)
    (w w' : World env)
    → f (args r) w ≡ (err e, w')
    → (is_daraja_error e ≡ false → call_daraja env f r id w ≡ (err e, w'))
      × (is_daraja_error e ≡ true
          → ((p : Payment) (s : env.database.Session)
              → env.database.row w'.db id ≡ some p
              → marking env id w'.db ≡ (ok tt, s)
              → (call_daraja env f r id w ≡ (err e, record w' { db = s })) × IsFailed env id s)
            × ((x : Error) (s s' : env.database.Session)
                → marking env id w'.db ≡ (err x, s)
                → env.database.rollback s ≡ (ok tt, s')
                → (call_daraja env f r id w ≡ (err e, record w' { db = s' }))
                  × ((i : Text) → env.database.row s' i ≡ env.database.durable s i))
            × ((x y : Error) (s s' : env.database.Session)
                → marking env id w'.db ≡ (err x, s)
                → env.database.rollback s ≡ (err y, s')
                → call_daraja env f r id w ≡ (err y, record w' { db = s' })))
unfolding call_daraja mark_call_failed
call_daraja_raises env f r id e w w' raised = (
  λ other. ground (arith, raised),
  λ daraja. (
    λ p s there marked.
        (ground (arith, raised, marked), marked-IsFailed env id p w'.db s there marked),
    λ x s s' marked rolled.
        (ground (arith, raised, marked, rolled), λ i. (env.database.rollback_ok s s' rolled).0 i),
    λ x y s s' marked rolled. ground (arith, raised, marked, rolled),
  ),
)
