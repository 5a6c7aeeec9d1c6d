-- ===== src/Sql/Rows/Updated.antt =====
-- The updates of a payment, and the table.
use mathlib.Core.Bool
use daraja_payment_wrapper.Prelude.{
  ℕ, ◌^◌, Text, length, leb, ltb, Bool, true, ◌&&◌, ◌||◌, Option, none, some, if◌then◌else◌, ◌≡◌,
  refl, arith, ◌∙◌,
}
use daraja_payment_wrapper.Prelude.Int.{ℤ}
use daraja_payment_wrapper.Payment.{
  Decimal, Payment, PaymentType, stk_push, c2b, b2c, PaymentStatus, pending, completed, failed,
  cancelled, reversed, status_value,
}
use daraja_payment_wrapper.Repository.{completed_values, failed_values, daraja_values}
use daraja_payment_wrapper.Sql.{
  ColumnType, sql_string, sql_numeric, sql_text, sql_integer, sql_datetime,
}
use daraja_payment_wrapper.Sql.Models.{payments}
use daraja_payment_wrapper.Sql.Rows.{
  SqlValue, coerced, stored, is_null, is_above_zero, is_int4, number_value, optional_text,
  optional_number, optional_integer, optional_time, payment_type_value, has_no_nul, is_uuid,
  rounded, fits_type, fits, value, meets, takes, row_of,
}

abbrev pub nullable : ColumnType → SqlValue → Bool
nullable type v = if is_null v then true else fits_type type v

abbrev pub limited : ℕ → Text → Bool
limited limit s = leb (length s) limit && has_no_nul s

-- What stays as it is in every update.
abbrev pub fixed : Payment → Bool
fixed p =
    is_uuid p.id
    && (limited 15 p.phone
        && (ltb (rounded 4 p.amount) (10 ^ 19)
            && (limited 12 p.account_reference
                && (limited 13 p.transaction_desc && limited 64 p.idempotency_key))))

abbrev pub daraja_ids : Payment → Bool
daraja_ids p =
    nullable (sql_string 100) (optional_text p.checkout_request_id)
    && nullable (sql_string 100) (optional_text p.merchant_request_id)

abbrev pub outcome : Payment → Bool
outcome p =
    nullable (sql_string 20) (optional_text p.mpesa_receipt)
    && nullable (sql_numeric 19 4) (optional_number p.amount_paid)

abbrev pub failure : Payment → Bool
failure p =
    nullable sql_text (optional_text p.failure_reason)
    && nullable sql_integer (optional_integer p.result_code)

abbrev pub checks : Payment → Bool
checks p =
    is_above_zero (coerced (sql_numeric 19 4) (number_value p.amount))
    && (is_null (coerced (sql_numeric 19 4) (optional_number p.amount_paid))
        || is_above_zero (coerced (sql_numeric 19 4) (optional_number p.amount_paid)))

abbrev pub receipt_fits : Option Text → Bool
receipt_fits none = true
receipt_fits (some s) = limited 20 s

abbrev pub amount_fits : Option Decimal → Bool
amount_fits none = true
amount_fits (some d) =
    ltb (rounded 4 d) (10 ^ 19) && is_above_zero (coerced (sql_numeric 19 4) (number_value d))

types_fit : (t : PaymentType) → limited 20 (payment_type_value t) ≡ true
unfolding has_no_nul
types_fit stk_push = refl
types_fit c2b = refl
types_fit b2c = refl

statuses_fit : (s : PaymentStatus) → limited 20 (status_value s) ≡ true
unfolding has_no_nul status_value
statuses_fit pending = refl
statuses_fit completed = refl
statuses_fit failed = refl
statuses_fit cancelled = refl
statuses_fit reversed = refl

dates_fit : (o : Option ℕ) → nullable sql_datetime (optional_time o) ≡ true
unfolding fits_type
dates_fit none = refl
dates_fit (some t) = refl

takes_parts :
    (p : Payment)
    → takes payments (row_of p)
      ≡ (fixed p && (daraja_ids p && (outcome p && failure p)) && checks p)
unfolding takes row_of stored fits value meets
takes_parts p =
    rw (types_fit p.payment_type, statuses_fit p.status, dates_fit p.mpesa_transaction_date)
      (simp (Bool.and_assoc, Bool.and-true) refl)

pub updates_taken :
    (p : Payment)
    → takes payments (row_of p) ≡ true
    → ((checkout merchant : Text) (now : ℕ)
        → takes payments (row_of (daraja_values checkout merchant now p))
          ≡ (limited 100 checkout && limited 100 merchant))
      × ((receipt : Option Text) (paid : Option Decimal) (date : Option ℕ) (now : ℕ)
          → takes payments (row_of (completed_values receipt paid date now p))
            ≡ (receipt_fits receipt && amount_fits paid))
      × ((reason : Text) (code : ℤ) (now : ℕ)
          → takes payments (row_of (failed_values reason code now p))
            ≡ (has_no_nul reason && is_int4 code))
unfolding daraja_values completed_values failed_values fits_type coerced
updates_taken p h =
    let parts = takes_parts p in
    (
      λ checkout merchant now. takes_parts (daraja_values checkout merchant now p) ∙ ground arith,
      λ receipt paid date now.
          takes_parts (completed_values receipt paid date now p) ∙ ground arith,
      λ reason code now. takes_parts (failed_values reason code now p) ∙ ground arith,
    )
