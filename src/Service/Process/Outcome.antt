-- ===== src/Service/Process/Outcome.antt =====
-- What a processed callback does to the payments.

use daraja_payment_wrapper.Prelude.{
  Text, codes, text_eq, text_eq_iff, ◌≡◌, inl, inr, refl, true, false, some, arith, if◌then◌else◌,
  Bool-cases,
}
use daraja_payment_wrapper.Prelude.Int.{ℤ, pos, int_eq}
use daraja_payment_wrapper.Errors.{ok}
use daraja_payment_wrapper.Payment.{Payment, PaymentStatus, completed, failed, cancelled}
use daraja_payment_wrapper.Schemas.Callback.{
  StkCallbackBody, is_success, parse_daraja_transaction_date,
}
use daraja_payment_wrapper.Json.{get}
use daraja_payment_wrapper.Repository.{
  completed_values, failed_values, mark_completed, mark_failed, paid_value, bind_text,
}
use daraja_payment_wrapper.Repository.Marks.{mark_completed-Marked}
use daraja_payment_wrapper.Service.{Environment, World}
use daraja_payment_wrapper.Service.Steps.{transact-Committed}
use daraja_payment_wrapper.Service.Process.{details_of, complete, fail, apply_outcome}

-- The lifecycle of the table's documentation: 0 is success, 1032 the customer's refusal.
abbrev pub expected_status : ℤ → PaymentStatus
expected_status code =
    if int_eq code (pos 0) then completed else if int_eq code (pos 1032) then cancelled else failed

module _ (env : Environment) where
  open env use {database as pg, redis as rd}

  -- What a callback makes of a payment: its identity stays, and the outcome is recorded.
  pub record IsOutcome (callback : StkCallbackBody) (p q : Payment) : Type 0 where
    pub same_id : q.id ≡ p.id
    pub same_key : q.idempotency_key ≡ p.idempotency_key
    pub same_checkout : q.checkout_request_id ≡ p.checkout_request_id
    pub same_phone : q.phone ≡ p.phone
    pub same_amount : q.amount ≡ p.amount
    pub new_status : q.status ≡ expected_status callback.result_code
    pub reason :
        q.failure_reason
        ≡ (if is_success callback then p.failure_reason else some callback.result_desc)
    pub code :
        q.result_code ≡ (if is_success callback then p.result_code else some callback.result_code)
    pub receipt :
        (if is_success callback
          then bind_text (get (codes "MpesaReceiptNumber") (details_of callback))
          else ok p.mpesa_receipt)
        ≡ ok q.mpesa_receipt
    pub paid :
        (if is_success callback
          then paid_value env.decimal (get (codes "Amount") (details_of callback))
          else ok p.amount_paid)
        ≡ ok q.amount_paid
    pub date : q.mpesa_transaction_date ≡ (
        if is_success callback
        then parse_daraja_transaction_date env.strptime
            (get (codes "TransactionDate") (details_of callback))
        else p.mpesa_transaction_date)

  -- One payment is durably replaced, and no other row changes.
  pub record Replaced (s s' : pg.Session) (p q : Payment) : Type 0 where
    pub before : pg.row s p.id ≡ some p
    pub after : (i : Text) → pg.durable s' i ≡ (if text_eq p.id i then some q else pg.row s i)

  update-Replaced :
      (p : Payment) (f : Payment → Payment) (w w' : World env) (s : pg.Session)
      → ((p : Payment) → (f p).id ≡ p.id)
      → pg.row w.db p.id ≡ some p
      → pg.update p.id f w.db ≡ (ok tt, s)
      → pg.commit s ≡ (ok tt, w'.db)
      → Replaced w.db w'.db p (f p)
  update-Replaced p f w w' s keep there ran done = record {
    before = there;
    after = λ i. ground (
      arith,
      (pg.commit_ok s w'.db done).1 i,
      (pg.update_ok p.id f w.db s keep ran).0 i,
      text_eq_iff p.id i,
    );
  }

  module _ (p : Payment) (callback : StkCallbackBody) (w w' : World env) where
    complete-Replaced :
        is_success callback ≡ true
        → pg.row w.db p.id ≡ some p
        → complete env p (details_of callback) w ≡ (ok tt, w')
        → (q : Payment) × IsOutcome callback p q × Replaced w.db w'.db p q
    unfolding complete completed_values
    complete-Replaced success there h =
        let d = details_of callback in
        let date = parse_daraja_transaction_date env.strptime (get (codes "TransactionDate") d) in
        let receipt = get (codes "MpesaReceiptNumber") d in
        let amount = get (codes "Amount") d in
        let c =
          transact-Committed env (mark_completed pg env.decimal p.id receipt amount date) w w' h in
        let m = mark_completed-Marked pg env.decimal p.id receipt amount date w.db c.after c.ran in
        let f = completed_values m.text m.paid date (pg.utcnow w.db) in
        (
          f p,
          ground (arith, m.bound, m.valued),
          update-Replaced p f w w' c.after (λ p. refl) there m.updated c.committed,
        )

    fail-Replaced :
        is_success callback ≡ false
        → pg.row w.db p.id ≡ some p
        → fail env p callback w ≡ (ok tt, w')
        → (q : Payment) × IsOutcome callback p q × Replaced w.db w'.db p q
    unfolding fail mark_failed failed_values
    fail-Replaced failure there h =
        let c =
          transact-Committed env (mark_failed pg p.id callback.result_desc callback.result_code) w
            w' h in
        let f = failed_values callback.result_desc callback.result_code (pg.utcnow w.db) in
        (f p, ground arith, update-Replaced p f w w' c.after (λ p. refl) there c.ran c.committed)

  pub settle_found :
      (callback : StkCallbackBody) (p : Payment) (w w' : World env)
      → pg.row w.db p.id ≡ some p
      → apply_outcome env callback (some p) w ≡ (ok tt, w')
      → (q : Payment) × IsOutcome callback p q × Replaced w.db w'.db p q
  unfolding apply_outcome
  settle_found callback p w w' there h = elim (Bool-cases (is_success callback)) [
    | inl success ↦ complete-Replaced p callback w w' success there (rw success at h)
    | inr failure ↦ fail-Replaced p callback w w' failure there (rw failure at h)
  ]
