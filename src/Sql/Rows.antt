-- ===== src/Sql/Rows.antt =====
-- A payment as a row of the `payments` table: what PostgreSQL takes into a column, and what the checks
-- let pass. The driver refuses a text with the character zero.
pub mod Requested
pub mod Updated
use daraja_payment_wrapper.Prelude.{
  ℕ, zero, ◌+◌, ◌*◌, ◌/◌, ◌^◌, suc, Text, codes, text_eq, length, all, ltb, leb, ◌==◌, Bool, true,
  false, not, ◌&&◌, ◌||◌, Option, none, some, List, [], ◌∷◌, if◌then◌else◌,
}
use daraja_payment_wrapper.Prelude.Int.{ℤ, pos, negsuc}
use daraja_payment_wrapper.Payment.{Decimal, Payment, PaymentType, stk_push, c2b, b2c, status_value}
use daraja_payment_wrapper.Sql.{
  ColumnType, sql_uuid, sql_text, sql_integer, sql_datetime, sql_string, sql_numeric, Column,
  Condition, is_positive, is_null_or_positive, CheckConstraint, Table,
}

pub data SqlValue : Type 0 where
  sql_null : SqlValue
  text_value : Text → SqlValue
  number_value : Decimal → SqlValue
  integer_value : ℤ → SqlValue
  time_value : ℕ → SqlValue

abbrev pub Row : Type 0
Row = List (Text × SqlValue)

unfoldable pub has_no_nul : Text → Bool
has_no_nul s = all (λ c. not (c == 0)) s

abbrev is_hex : ℕ → Bool
is_hex c = (leb b'0' c && leb c b'9') || (leb b'a' c && leb c b'f')

abbrev is_uuid_from : ℕ → Text → Bool
is_uuid_from i [] = i == 36
is_uuid_from i (c ∷ s) =
    (if i == 8 || i == 13 || i == 18 || i == 23 then c == b'-' else is_hex c)
    && is_uuid_from (suc i) s

-- The form in which `str(uuid.uuid4())` is.
unfoldable pub is_uuid : Text → Bool
is_uuid s = is_uuid_from 0 s

-- `abs(d)` in units of the last place, rounded half up
abbrev pub magnitude : ℤ → ℕ
magnitude (pos n) = n
magnitude (negsuc n) = suc n

unfoldable pub rounded : ℕ → Decimal → ℕ
rounded scale d = (magnitude d.coefficient * 10 ^ scale * 2 + 10 ^ d.places) / (2 * 10 ^ d.places)

abbrev pub is_int4 : ℤ → Bool
is_int4 (pos n) = ltb n 2147483648
is_int4 (negsuc n) = ltb n 2147483648

unfoldable pub fits_type : ColumnType → SqlValue → Bool
fits_type sql_uuid (text_value s) = is_uuid s
fits_type sql_text (text_value s) = has_no_nul s
fits_type (sql_string limit) (text_value s) = leb (length s) limit && has_no_nul s
fits_type (sql_numeric precision scale) (number_value d) = ltb (rounded scale d) (10 ^ precision)
fits_type sql_integer (integer_value n) = is_int4 n
fits_type sql_datetime (time_value t) = true
fits_type _ _ = false

abbrev pub is_null : SqlValue → Bool
is_null sql_null = true
is_null _ = false

unfoldable pub fits : Column → SqlValue → Bool
unfolding fits_type
fits c v = if is_null v then c.nullable else fits_type c.type v

unfoldable pub value : Text → Row → SqlValue
value name [] = sql_null
value name ((n, v) ∷ row) = if text_eq n name then v else value name row

abbrev pub is_above_zero : SqlValue → Bool
is_above_zero (number_value d) = elim d.coefficient [ pos n ↦ ltb 0 n | negsuc _ ↦ false ]
is_above_zero _ = false

-- The sign of a number, and a magnitude.
abbrev pub signed : ℤ → ℕ → ℤ
signed (pos _) m = pos m
signed (negsuc _) zero = pos 0
signed (negsuc _) (suc m) = negsuc m

-- What a column stores of a value: a number is rounded to the column's places.
unfoldable pub coerced : ColumnType → SqlValue → SqlValue
coerced (sql_numeric precision scale) (number_value d) =
    number_value (record { coefficient = signed d.coefficient (rounded scale d); places = scale })
coerced _ v = v

unfoldable pub stored : List Column → Row → Row
unfolding coerced value
stored [] row = []
stored (c ∷ columns) row = (c.name, coerced c.type (value c.name row)) ∷ stored columns row

-- A check that is neither true nor false, at a null, lets the row pass.
unfoldable pub meets : Condition → Row → Bool
unfolding value
meets (is_positive name) row = is_null (value name row) || is_above_zero (value name row)
meets (is_null_or_positive name) row = is_null (value name row) || is_above_zero (value name row)

-- The table takes the row, as far as the row alone decides. The checks read what is stored.
unfoldable pub takes : Table → Row → Bool
unfolding fits value meets stored
takes t row =
    all (λ (c : Column). fits c (value c.name row)) t.columns
    && all (λ (check : CheckConstraint). meets check.condition (stored t.columns row)) t.checks

abbrev pub payment_type_value : PaymentType → Text
payment_type_value stk_push = codes "stk_push"
payment_type_value c2b = codes "c2b"
payment_type_value b2c = codes "b2c"

abbrev pub optional_text : Option Text → SqlValue
optional_text none = sql_null
optional_text (some s) = text_value s

abbrev pub optional_number : Option Decimal → SqlValue
optional_number none = sql_null
optional_number (some d) = number_value d

abbrev pub optional_integer : Option ℤ → SqlValue
optional_integer none = sql_null
optional_integer (some n) = integer_value n

abbrev pub optional_time : Option ℕ → SqlValue
optional_time none = sql_null
optional_time (some t) = time_value t

-- The attributes of a `Payment`, by the names of their columns.
unfoldable pub row_of : Payment → Row
row_of p =
    (codes "id", text_value p.id)
    ∷ (codes "payment_type", text_value (payment_type_value p.payment_type))
    ∷ (codes "status", text_value (status_value p.status))
    ∷ (codes "phone", text_value p.phone)
    ∷ (codes "amount", number_value p.amount)
    ∷ (codes "account_reference", text_value p.account_reference)
    ∷ (codes "transaction_desc", text_value p.transaction_desc)
    ∷ (codes "idempotency_key", text_value p.idempotency_key)
    ∷ (codes "checkout_request_id", optional_text p.checkout_request_id)
    ∷ (codes "merchant_request_id", optional_text p.merchant_request_id)
    ∷ (codes "mpesa_receipt", optional_text p.mpesa_receipt)
    ∷ (codes "amount_paid", optional_number p.amount_paid)
    ∷ (codes "mpesa_transaction_date", optional_time p.mpesa_transaction_date)
    ∷ (codes "failure_reason", optional_text p.failure_reason)
    ∷ (codes "result_code", optional_integer p.result_code)
    ∷ (codes "created_at", time_value p.created_at)
    ∷ (codes "updated_at", time_value p.updated_at)
    ∷ []
