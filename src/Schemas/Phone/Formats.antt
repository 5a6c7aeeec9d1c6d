-- ===== src/Schemas/Phone/Formats.antt =====
-- The formats that `normalise_phone` accepts, and what it makes of them.
use daraja_payment_wrapper.Prelude.{
  ℕ, inl, inr, ◌⊎◌, Text, codes, starts_with, length, all, true, false, not, [], ◌∷◌, ◌++◌, ◌≡◌,
  refl, arith,
}
use daraja_payment_wrapper.Errors.{ok}
use daraja_payment_wrapper.Schemas.Phone.{
  is_decimal, is_separator, remove, unsigned, normalise_raw, check_msisdn, is_msisdn,
  normalise_phone,
}
use daraja_payment_wrapper.Schemas.Phone.Digits.{remove_nothing, is_msisdn-all_decimal}

-- What passes is `2547` or `2541` and eight decimal digits, twelve characters in all.
pub normalise_phone-is_msisdn : (v n : Text) → normalise_phone v ≡ ok n → is_msisdn n ≡ true
unfolding normalise_phone check_msisdn
normalise_phone-is_msisdn v n h = ground arith

starts_with_of_append : (p q s : Text) → starts_with s (p ++ q) ≡ true → starts_with s p ≡ true
starts_with_of_append [] q s h = refl
starts_with_of_append (b ∷ p) q [] h = h
starts_with_of_append (b ∷ p) q (a ∷ s) h = ground (arith, starts_with_of_append p q s)

unsigned_msisdn : (s : Text) → is_msisdn s ≡ true → unsigned s ≡ s
unfolding is_msisdn unsigned
unsigned_msisdn [] h = refl
unsigned_msisdn (c ∷ s) h = ground arith

normalise_raw_msisdn : (s : Text) → is_msisdn s ≡ true → normalise_raw s ≡ ok s
unfolding is_msisdn normalise_raw
normalise_raw_msisdn s h = ground (
  arith,
  starts_with_of_append (codes "254") (codes "7") s,
  starts_with_of_append (codes "254") (codes "1") s,
)

-- A number that passed is left as it is by a second pass.
pub normalise_phone_idem : (v n : Text) → normalise_phone v ≡ ok n → normalise_phone n ≡ ok n
unfolding normalise_phone check_msisdn
normalise_phone_idem v n h =
    let m = normalise_phone-is_msisdn v n h in
    rw (remove_nothing n (is_msisdn-all_decimal n m))
      (rw (unsigned_msisdn n m) (rw (normalise_raw_msisdn n m) (rw m refl)))

plain :
    (is_separator b'+' ≡ false)
    × (all (λ c. not (is_separator c)) (codes "02547") ≡ true)
    × (is_separator b'1' ≡ false)
    × (all is_decimal (codes "0123456789") ≡ true)
unfolding is_separator is_decimal
plain = (refl, refl, refl, refl)

-- Eight decimal digits behind `7` or `1` are read in each of the four formats.
pub normalise_phone_formats :
    (b : ℕ) (d : Text)
    → (b ≡ b'7') ⊎ (b ≡ b'1')
    → all is_decimal d ≡ true
    → length d ≡ 8
    → (normalise_phone (codes "0" ++ b ∷ d) ≡ ok (codes "254" ++ b ∷ d))
      × (normalise_phone (b ∷ d) ≡ ok (codes "254" ++ b ∷ d))
      × (normalise_phone (codes "254" ++ b ∷ d) ≡ ok (codes "254" ++ b ∷ d))
      × (normalise_phone (codes "+254" ++ b ∷ d) ≡ ok (codes "254" ++ b ∷ d))
unfolding normalise_phone check_msisdn remove unsigned normalise_raw is_msisdn
normalise_phone_formats b d (inl h) k l = rw h (ground (arith, remove_nothing d k, plain))
normalise_phone_formats b d (inr h) k l = rw h (ground (arith, remove_nothing d k, plain))
