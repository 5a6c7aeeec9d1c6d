-- ===== src/Repository/Marks.antt =====
-- What the updates of the repository have done once they return.
use daraja_payment_wrapper.Prelude.{ℕ, Text, ◌≡◌, inl, inr, Option, arith}
use daraja_payment_wrapper.Errors.{ok}
use daraja_payment_wrapper.Exec.{Result-cases}
use daraja_payment_wrapper.Payment.{Decimal}
use daraja_payment_wrapper.Json.{Value}
use daraja_payment_wrapper.Repository.{paid_value, bind_text, completed_values, mark_completed}
use daraja_payment_wrapper.Database.{Database}

module _ (pg : Database) (decimal : Text → Option Decimal) where
  -- The values that an update to COMPLETED has bound, and the update that it has made.
  pub record Marked (i : Text) (receipt amount : Value) (date : Option ℕ) (s s' : pg.Session)
      : Type 0 where
    pub text : Option Text
    pub paid : Option Decimal
    pub bound : bind_text receipt ≡ ok text
    pub valued : paid_value decimal amount ≡ ok paid
    pub updated : pg.update i (completed_values text paid date (pg.utcnow s)) s ≡ (ok tt, s')

  pub mark_completed-Marked :
      (i : Text) (receipt amount : Value) (date : Option ℕ) (s s' : pg.Session)
      → mark_completed pg decimal i receipt amount date s ≡ (ok tt, s')
      → Marked i receipt amount date s s'
  unfolding mark_completed
  mark_completed-Marked i receipt amount date s s' h =
      elim (Result-cases (paid_value decimal amount)) [
        | inr (x, bad) ↦ absurd (ground arith)
        | inl (paid, e) ↦ elim (Result-cases (bind_text receipt)) [
          | inr (x, bad) ↦ absurd (ground arith)
          | inl (text, e') ↦ record {
            text = text;
            paid = paid;
            bound = e';
            valued = e;
            updated = ground arith;
          }
        ]
      ]
