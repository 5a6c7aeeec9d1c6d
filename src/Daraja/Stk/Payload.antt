-- ===== src/Daraja/Stk/Payload.antt =====
-- The payload of a request that has passed validation.
use daraja_payment_wrapper.Prelude.{ℕ, ◌*◌, ◌^◌, Text, codes, take_all, ◌≡◌, refl, ap, some}
use daraja_payment_wrapper.Prelude.Int.{ℤ, pos, negsuc}
use daraja_payment_wrapper.Json.{int, str, lookup}
use daraja_payment_wrapper.Payment.{Decimal}
use daraja_payment_wrapper.Schemas.{StkPushInitiateRequest}
use daraja_payment_wrapper.Schemas.Request.{IsValid, shillings}
use daraja_payment_wrapper.Daraja.{Platform}
use daraja_payment_wrapper.Daraja.Stk.{int_amount, stk_payload}
use daraja_payment_wrapper.Service.Initiate.{args}

int_amount_whole :
    (c : ℤ) (k m : ℕ)
    → let d : Decimal = record { coefficient = c; places = k } in
      c ≡ pos m → int_amount d ≡ pos (shillings d)
unfolding int_amount shillings
int_amount_whole (pos n) k m h = refl
int_amount_whole (negsuc n) k m h = cc

-- Daraja is sent the phone, the amount, the reference and the description of a valid request as
-- they are: neither the truncation to 12 and 13 characters nor that to whole shillings loses
-- anything.
pub stk_payload_complete :
    (env : Platform) (r : StkPushInitiateRequest) (password : Text × Text)
    → IsValid r
    → let payload = stk_payload env (args r) password in
      (lookup (codes "PhoneNumber") payload ≡ some (str r.phone_number))
      × (lookup (codes "Amount") payload ≡ some (int (pos (shillings r.amount))))
      × (r.amount.coefficient ≡ pos (shillings r.amount * 10 ^ r.amount.places))
      × (lookup (codes "AccountReference") payload ≡ some (str r.account_reference))
      × (lookup (codes "TransactionDesc") payload ≡ some (str r.transaction_desc))
unfolding stk_payload lookup
stk_payload_complete env r (password, timestamp) v = (
  refl,
  ap (λ n. some (int n)) (int_amount_whole r.amount.coefficient r.amount.places _ v.whole),
  v.whole,
  ap (λ t. some (str t)) (take_all 12 r.account_reference v.reference),
  ap (λ t. some (str t)) (take_all 13 r.transaction_desc v.description),
)
