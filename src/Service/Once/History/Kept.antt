-- ===== src/Service/Once/History/Kept.antt =====
-- A callback and a status query keep every key held that is held.
use daraja_payment_wrapper.Prelude.{Text, Option, none, some}
use daraja_payment_wrapper.Exec.{Exec}
use daraja_payment_wrapper.Exec.Keeps.{Keeps, Keeps-bind, Keeps-pure, Keeps-if}
use daraja_payment_wrapper.Payment.{Payment}
use daraja_payment_wrapper.Schemas.Callback.{StkCallbackBody}
use daraja_payment_wrapper.Repository.Held.{
  Held, commit-Held, rollback-Held, get_by_id-Held, get_by_checkout_request_id-Held,
  mark_completed-Held, mark_failed-Held,
}
use daraja_payment_wrapper.Service.{Environment, World, on_db, transact}
use daraja_payment_wrapper.Service.Process.{complete, fail, apply_outcome, settle, process_callback}
use daraja_payment_wrapper.Service.Status.{get_payment_status}
use daraja_payment_wrapper.Service.Once.Frame.{Over, redis_set_nx-Over, transact-Over}

module _ (env : Environment) where
  open env use {database as pg}

  module _ (k : Text) where
    abbrev HeldIn : World env → Type 0
    HeldIn = Over env (λ s d. Held pg k s)

    on_db-HeldIn :
        {A : Type 0} (m : Exec pg.Session A) → Keeps (Held pg k) m → Keeps HeldIn (on_db env m)
    on_db-HeldIn m keep = record { at = λ w h. keep.at w.db h }

    transact-HeldIn :
        (m : Exec pg.Session (Unit {0})) → Keeps (Held pg k) m → Keeps HeldIn (transact env m)
    transact-HeldIn m keep =
        transact-Over env (λ s d. Held pg k s) m (on_db-HeldIn m keep)
          (on_db-HeldIn pg.commit (commit-Held pg k))
          (on_db-HeldIn pg.rollback (rollback-Held pg k))

    apply_outcome-HeldIn :
        (callback : StkCallbackBody) (o : Option Payment)
        → Keeps HeldIn (apply_outcome env callback o)
    unfolding apply_outcome complete fail
    apply_outcome-HeldIn callback none = Keeps-pure tt
    apply_outcome-HeldIn callback (some p) =
        Keeps-if _ _ _ (transact-HeldIn _ (mark_completed-Held pg k _ _ _ _ _))
          (transact-HeldIn _ (mark_failed-Held pg k _ _ _))

    pub process_callback-HeldIn :
        (callback : StkCallbackBody) → Keeps HeldIn (process_callback env callback)
    unfolding process_callback settle
    process_callback-HeldIn callback =
        Keeps-bind _ _ (redis_set_nx-Over env (λ s d. Held pg k s) _ _ _) (λ first_time.
          Keeps-if _ _ _
            (Keeps-bind _ _ (on_db-HeldIn _ (get_by_checkout_request_id-Held pg k _))
              (λ o. apply_outcome-HeldIn callback o))
            (Keeps-pure tt))

    pub get_payment_status-HeldIn : (i : Text) → Keeps HeldIn (get_payment_status env i)
    unfolding get_payment_status
    get_payment_status-HeldIn i =
        Keeps-bind _ _ (on_db-HeldIn _ (get_by_id-Held pg k i)) (λ o. Keeps-pure _)
