-- ===== src/Service/Sample/Json.antt =====
-- A text form of `STKPushInitiateResponse` that is read back: each text behind its length.
use daraja_payment_wrapper.Prelude.{
  ℕ, Text, length, take, drop, ◌≡◌, ◌≢◌, refl, ◌==◌, if◌then◌else◌, [], ◌∷◌, ◌++◌, arith,
}
use daraja_payment_wrapper.Errors.{Result, ok, err, value_error}
use daraja_payment_wrapper.Payment.{PaymentStatus, pending, completed, failed, cancelled, reversed}
use daraja_payment_wrapper.Schemas.{StkPushInitiateResponse}

abbrev status_code : PaymentStatus → ℕ
status_code pending = 0
status_code completed = 1
status_code failed = 2
status_code cancelled = 3
status_code reversed = 4

abbrev status_of : ℕ → PaymentStatus
status_of n =
    if n == 0
    then pending
    else if n == 1
    then completed
    else if n == 2
    then failed
    else if n == 3
    then cancelled
    else reversed

abbrev write : Text → Text → Text
write s t = length s ∷ (s ++ t)

abbrev read : Text → Text × Text
read [] = ([], [])
read (n ∷ t) = (take n t, drop n t)

abbrev pub dump : StkPushInitiateResponse → Text
dump r =
    status_code r.status
    ∷ write r.payment_id (
        write r.checkout_request_id
          (write r.merchant_request_id (write r.response_code (write r.customer_message []))))

abbrev pub load : Text → Result StkPushInitiateResponse
load [] = err value_error
load (c ∷ t) =
    let (a, t1) = read t in
    let (b, t2) = read t1 in
    let (m, t3) = read t2 in
    let (k, t4) = read t3 in
    let (e, t5) = read t4 in
    ok (record {
      payment_id = a;
      checkout_request_id = b;
      merchant_request_id = m;
      response_code = k;
      customer_message = e;
      status = status_of c;
    })

take-append : (s t : Text) → take (length s) (s ++ t) ≡ s
take-append [] t = refl
take-append (c ∷ s) t = ground (arith, take-append s t)

drop-append : (s t : Text) → drop (length s) (s ++ t) ≡ t
drop-append [] t = refl
drop-append (c ∷ s) t = drop-append s t

status_of-status_code : (s : PaymentStatus) → status_of (status_code s) ≡ s
status_of-status_code pending = refl
status_of-status_code completed = refl
status_of-status_code failed = refl
status_of-status_code cancelled = refl
status_of-status_code reversed = refl

pub dump-ne-nil : (r : StkPushInitiateResponse) → dump r ≢ []
dump-ne-nil r h = cc

pub load-dump : (r : StkPushInitiateResponse) → load (dump r) ≡ ok r
load-dump r = simp (take-append, drop-append, status_of-status_code)
