-- ===== src/Tasks/Tests.antt =====
-- The theorem on app/tasks/reconciliation_tasks.py at a concrete payment.
use daraja_payment_wrapper.Prelude.{codes, ◌≡◌, refl, true, none, some, [], ◌∷◌}
use daraja_payment_wrapper.Prelude.Int.{negsuc}
use daraja_payment_wrapper.Errors.{ok}
use daraja_payment_wrapper.Payment.{Payment, completed, failed}
use daraja_payment_wrapper.Database.Memory.{memory, Tables}
use daraja_payment_wrapper.Daraja.Sample.{platform, tenacity, host}
use daraja_payment_wrapper.Service.Sample.{payment}
use daraja_payment_wrapper.Tasks.{StaleRow, Job, expired_values, reconcile_row}
use daraja_payment_wrapper.Tasks.Overwrite.{reconcile_row_overwrites}

abbrev row : StaleRow
row = record { id = codes "id-7"; mpesa_receipt = none }

-- A callback has completed the payment since the row was read.
abbrev paid : Payment
paid = record payment {
  status = completed;
  mpesa_receipt = some (codes "NLJ7RT61SV");
  amount_paid = some payment.amount;
  mpesa_transaction_date = some 650;
}

abbrev job : Job platform memory
job = record {
  host = host true (λ k. none) (some 200);
  db = record { up = true; clock = 700; rows = paid ∷ []; saved = paid ∷ [] };
}

abbrev overwritten : Tables
overwritten = (memory.update row.id (expired_values 700) job.db).1

abbrev after : Tables
after = (memory.commit overwritten).1

reconcile_row_overwrites_example :
    (reconcile_row platform memory tenacity row job ≡ (ok tt, record job { db = after }))
    × (q : Payment) × (memory.durable after row.id ≡ some q)
    × (q.status ≡ failed)
    × (q.result_code ≡ some (negsuc 98))
    × (q.mpesa_receipt ≡ some (codes "NLJ7RT61SV"))
    × (q.amount_paid ≡ some payment.amount)
    × (q.mpesa_transaction_date ≡ some 650)
    × (q.checkout_request_id ≡ payment.checkout_request_id)
    × (q.merchant_request_id ≡ payment.merchant_request_id)
reconcile_row_overwrites_example =
    reconcile_row_overwrites platform memory tenacity row paid job overwritten after refl refl refl
      refl
