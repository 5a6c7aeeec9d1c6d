-- ===== src/Tasks/Overwrite.antt =====
-- What the expiry of a stale payment does to a payment that has changed meanwhile.
use mathlib.Core.Option
use daraja_payment_wrapper.Prelude.{ℕ, text_eq_refl, ◌≡◌, refl, ap, ◌∙◌, none, some, arith}
use daraja_payment_wrapper.Prelude.Int.{negsuc}
use daraja_payment_wrapper.Errors.{ok}
use daraja_payment_wrapper.Payment.{Payment, failed}
use daraja_payment_wrapper.Database.{Database}
use daraja_payment_wrapper.Daraja.{Platform, Host, Tenacity}
use daraja_payment_wrapper.Tasks.{StaleRow, Job, expired_values, expire, reconcile, reconcile_row}

expired_values-id : (now : ℕ) (p : Payment) → (expired_values now p).id ≡ p.id
unfolding expired_values
expired_values-id now p = refl

-- For a stale row without a receipt the payment becomes durably FAILED with the code -99, if the
-- update and the commit succeed, whatever its status is by then: a payment that a callback has
-- completed since the row was read is overwritten. It keeps the receipt, the amount paid, the date of
-- the transaction and the identifiers of Daraja.
pub reconcile_row_overwrites :
    (env : Platform) (pg : Database) (tenacity : Tenacity (Host env)) (row : StaleRow) (p : Payment)
    (w : Job env pg) (s s' : pg.Session)
    → row.mpesa_receipt ≡ none
    → pg.row w.db row.id ≡ some p
    → pg.update row.id (expired_values (pg.utcnow w.db)) w.db ≡ (ok tt, s)
    → pg.commit s ≡ (ok tt, s')
    → (reconcile_row env pg tenacity row w ≡ (ok tt, record w { db = s' }))
      × (q : Payment) × (pg.durable s' row.id ≡ some q)
      × (q.status ≡ failed)
      × (q.result_code ≡ some (negsuc 98))
      × (q.mpesa_receipt ≡ p.mpesa_receipt)
      × (q.amount_paid ≡ p.amount_paid)
      × (q.mpesa_transaction_date ≡ p.mpesa_transaction_date)
      × (q.checkout_request_id ≡ p.checkout_request_id)
      × (q.merchant_request_id ≡ p.merchant_request_id)
unfolding reconcile_row reconcile expire expired_values
reconcile_row_overwrites env pg tenacity row p w s s' no_receipt there updated saved =
    let f = expired_values (pg.utcnow w.db) in
    (
      ground (arith, updated, saved),
      f p,
      (pg.commit_ok s s' saved).1 row.id
          ∙ (pg.update_ok row.id f w.db s (expired_values-id (pg.utcnow w.db)) updated).0 row.id
          ∙ rw (text_eq_refl row.id) (ap (Option.map f) there),
      refl,
      refl,
      refl,
      refl,
      refl,
      refl,
      refl,
    )
