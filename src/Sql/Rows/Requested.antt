-- ===== src/Sql/Rows/Requested.antt =====
-- The record of a request that passed validation, and the table.
use native.Mathlib.Nat.{one-le-pow, div-eq_of_lt-le}
use daraja_payment_wrapper.Prelude.{
  ℕ, zero, suc, ◌+◌, ◌*◌, ◌/◌, ◌^◌, ◌≤◌, Text, length, all, ◌==◌, true, false, ◌&&◌, ltb, leb, ◌≡◌,
  refl, ap, ◌∙◌, [], ◌∷◌, arith,
}
use daraja_payment_wrapper.Prelude.Int.{ℤ, pos}
use daraja_payment_wrapper.Errors.{ok}
use daraja_payment_wrapper.Payment.{Decimal, status_value}
use daraja_payment_wrapper.Schemas.{StkPushInitiateRequest}
use daraja_payment_wrapper.Schemas.Phone.{is_msisdn, is_decimal}
use daraja_payment_wrapper.Schemas.Request.{shillings, is_safe, validate}
use daraja_payment_wrapper.Schemas.Request.Valid.{validate-IsValid}
use daraja_payment_wrapper.Service.Initiate.{new_payment}
use daraja_payment_wrapper.Sql.{sql_numeric}
use daraja_payment_wrapper.Sql.Models.{payments}
use daraja_payment_wrapper.Sql.Rows.{
  magnitude, coerced, stored, number_value, is_above_zero, has_no_nul, is_uuid, rounded, fits_type,
  fits, value, meets, takes, row_of,
}

scaled : (n q : ℕ) → 1 ≤ q → (n * q * 10000 * 2 + q) / (2 * q) ≡ n * 10000
scaled n q h = div-eq_of_lt-le (2 * q) (grind arith) (grind arith)

-- Whole shillings are stored as they are.
rounded_whole :
    (d : Decimal)
    → d.coefficient ≡ pos (shillings d * 10 ^ d.places)
    → rounded 4 d ≡ shillings d * 10000
unfolding rounded
rounded_whole d whole =
    ap (λ (c : ℤ). (magnitude c * 10000 * 2 + 10 ^ d.places) / (2 * 10 ^ d.places)) whole
    ∙ scaled (shillings d) (10 ^ d.places) (one-le-pow d.places 10 (omega arith))

safe-no_nul : (s : Text) → all is_safe s ≡ true → has_no_nul s ≡ true
unfolding is_safe has_no_nul
safe-no_nul [] h = refl
safe-no_nul (c ∷ s) h = ground (arith, safe-no_nul s)

digit-no_nul : (c : ℕ) → is_decimal c ≡ true → (c == 0) ≡ false
unfolding is_decimal
digit-no_nul zero h = cc
digit-no_nul (suc c) h = ground arith

digits-no_nul : (s : Text) → all is_decimal s ≡ true → has_no_nul s ≡ true
unfolding has_no_nul
digits-no_nul [] h = refl
digits-no_nul (c ∷ s) h = ground (arith, digit-no_nul c, digits-no_nul s)

msisdn-no_nul : (s : Text) → is_msisdn s ≡ true → has_no_nul s ≡ true
unfolding is_msisdn has_no_nul
msisdn-no_nul [] h = refl
msisdn-no_nul (a ∷ []) h = ground arith
msisdn-no_nul (a ∷ b ∷ []) h = ground arith
msisdn-no_nul (a ∷ b ∷ c ∷ []) h = ground arith
msisdn-no_nul (a ∷ b ∷ c ∷ d ∷ s) h = ground (arith, digits-no_nul s)

msisdn-short : (s : Text) → is_msisdn s ≡ true → length s ≤ 15
unfolding is_msisdn
msisdn-short s h = ground arith

positive_stored :
    (d : Decimal) (n : ℕ)
    → d.coefficient ≡ pos n
    → 1 ≤ rounded 4 d
    → is_above_zero (coerced (sql_numeric 19 4) (number_value d)) ≡ true
unfolding coerced
positive_stored d n positive low = ground (arith, positive)

positive_whole :
    (d : Decimal)
    → d.coefficient ≡ pos (shillings d * 10 ^ d.places)
    → 1 ≤ shillings d
    → is_above_zero (coerced (sql_numeric 19 4) (number_value d)) ≡ true
positive_whole d whole low =
    positive_stored d (shillings d * 10 ^ d.places) whole (omega (arith, rounded_whole d whole))

new_payment_taken :
    (r : StkPushInitiateRequest) (id : Text) (now : ℕ)
    → takes payments (row_of (new_payment r id now)) ≡ (
        is_uuid id
        && ((leb (length r.phone_number) 15 && has_no_nul r.phone_number)
            && (ltb (rounded 4 r.amount) (10 ^ 19)
                && ((leb (length r.account_reference) 12 && has_no_nul r.account_reference)
                    && ((leb (length r.transaction_desc) 13 && has_no_nul r.transaction_desc)
                        && ((leb (length r.idempotency_key) 64 && has_no_nul r.idempotency_key)
                            && true)))))
        && (is_above_zero (coerced (sql_numeric 19 4) (number_value r.amount)) && true))
unfolding takes row_of stored coerced fits fits_type value meets new_payment status_value has_no_nul
new_payment_taken r id now = refl

-- The record of a request that passed validation is one that the table takes, unless the description or
-- the idempotency key holds the character zero.
pub requested_taken :
    (raw r : StkPushInitiateRequest) (id : Text) (now : ℕ)
    → validate raw ≡ ok r
    → is_uuid id ≡ true
    → takes payments (row_of (new_payment r id now))
      ≡ (has_no_nul r.transaction_desc && has_no_nul r.idempotency_key)
requested_taken raw r id now h uuid =
    let v = validate-IsValid raw r h in
    new_payment_taken r id now
    ∙ ground (
      arith,
      rounded_whole r.amount v.whole,
      positive_whole r.amount v.whole v.amount_low,
      msisdn-no_nul r.phone_number v.phone,
      msisdn-short r.phone_number v.phone,
      safe-no_nul r.account_reference v.reference_safe,
    )
