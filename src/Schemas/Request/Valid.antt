-- ===== src/Schemas/Request/Valid.antt =====
-- What validation guarantees.
use native.Mathlib.Nat.{div-add-mod', div-le_of_le-mul, pow-suc}
use daraja_payment_wrapper.Prelude.{
  Bool-cases, inl, inr, ℕ, zero, suc, ◌*◌, ◌/◌, ◌%◌, ◌^◌, ◌≤◌, Text, true, ◌≡◌, refl, arith,
}
use daraja_payment_wrapper.Prelude.Int.{ℤ, pos, negsuc}
use daraja_payment_wrapper.Errors.{Result, ok, err}
use daraja_payment_wrapper.Payment.{Decimal}
use daraja_payment_wrapper.Schemas.{StkPushInitiateRequest}
use daraja_payment_wrapper.Schemas.Phone.{is_msisdn, normalise_phone}
use daraja_payment_wrapper.Schemas.Phone.Formats.{normalise_phone-is_msisdn}
use daraja_payment_wrapper.Schemas.Request.{
  shillings, is_valid_amount, str_strip_whitespace, stripped, with_phone, has_valid_fields,
  validate, IsValid,
}

pow_pos : (n : ℕ) → 1 ≤ 10 ^ n
pow_pos zero = omega arith
pow_pos (suc n) = omega (arith, pow_pos n, pow-suc 10 n)

whole_amount :
    (n q : ℕ)
    → 1 ≤ q
    → 1 ≤ n
    → n ≤ 300000 * q
    → n % q ≡ 0
    → (n ≡ n / q * q) × (1 ≤ n / q) × (n / q ≤ 300000)
whole_amount n q hq hn hi hz = (
  omega (arith, div-add-mod' n q),
  grind (arith, div-add-mod' n q),
  div-le_of_le-mul q (omega arith),
)

amount_parts :
    (c : ℤ) (k : ℕ)
    → let d : Decimal = record { coefficient = c; places = k } in
      is_valid_amount d ≡ true
      → (c ≡ pos (shillings d * 10 ^ k)) × (1 ≤ shillings d) × (shillings d ≤ 300000)
unfolding is_valid_amount shillings
amount_parts (pos n) k h = ground (arith, pow_pos k, whole_amount n (10 ^ k))
amount_parts (negsuc n) k h = cc

with_phone-IsValid :
    (s : StkPushInitiateRequest) (o : Result Text) (r : StkPushInitiateRequest)
    → ((n : Text) → o ≡ ok n → is_msisdn n ≡ true)
    → has_valid_fields s ≡ true
    → with_phone s o ≡ ok r
    → IsValid r
unfolding with_phone has_valid_fields
with_phone-IsValid s (ok n) r good v e =
    ground (arith, good n refl, amount_parts s.amount.coefficient s.amount.places)
with_phone-IsValid s (err x) r good v e = cc

-- A request that passes validation is within every limit that the schema declares: a normalised
-- number, of 2547 or 2541 and eight decimal digits of any script, whole shillings from 1 to 300000, a
-- reference of 1 to 12 safe characters, a description of 1 to 13 characters and an idempotency key
-- of 8 to 64.
pub validate-IsValid : (raw r : StkPushInitiateRequest) → validate raw ≡ ok r → IsValid r
unfolding validate
validate-IsValid raw r h = elim (Bool-cases (has_valid_fields (stripped raw))) [
  | inl v ↦
      with_phone-IsValid (stripped raw) (normalise_phone (str_strip_whitespace raw.phone_number)) r
        (normalise_phone-is_msisdn (str_strip_whitespace raw.phone_number)) v (ground arith)
  | inr bad ↦ cc (rw bad at h)
]
