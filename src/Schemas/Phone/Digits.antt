-- ===== src/Schemas/Phone/Digits.antt =====
-- A number that passes holds decimal digits only, so that no separator is removed from it.
use daraja_payment_wrapper.Prelude.{
  ℕ, zero, suc, ◌+◌, ◌≤◌, ◌<◌, inl, inr, Bool-cases, Text, codes, starts_with, length, drop, any,
  all, Bool, true, false, not, ◌&&◌, List, [], ◌∷◌, ltb, leb, ◌==◌, ◌≡◌, refl, arith,
}
use daraja_payment_wrapper.Schemas.Phone.{
  decimal_zeros, is_decimal, is_separator, remove, is_msisdn,
}

-- No block of ten digits holds a separator: a check by evaluation.
is_clear : ℕ → ℕ → Bool
is_clear z zero = true
is_clear z (suc k) = not (is_separator (z + k)) && is_clear z k

is_clear_sound : (z k c : ℕ) → is_clear z k ≡ true → z ≤ c → c < z + k → is_separator c ≡ false
unfolding is_clear
is_clear_sound z zero c h lo hi = absurd (omega arith)
is_clear_sound z (suc k) c h lo hi = elim (Bool-cases (c == z + k)) [
  | inl last ↦ let e : c ≡ z + k = ground arith in rw e (ground arith)
  | inr before ↦ is_clear_sound z k c (ground arith) lo (ground arith)
]

any-not-is_separator :
    (zs : List ℕ) (c : ℕ)
    → all (λ z. is_clear z 10) zs ≡ true
    → any (λ z. leb z c && ltb c (z + 10)) zs ≡ true
    → is_separator c ≡ false
any-not-is_separator [] c clear h = cc
any-not-is_separator (z ∷ zs) c clear h =
    ground (arith, any-not-is_separator zs c, is_clear_sound z 10 c)

decimal_zeros_clear : all (λ z. is_clear z 10) decimal_zeros ≡ true
unfolding is_clear is_separator
decimal_zeros_clear = refl

is_decimal-not-is_separator : (c : ℕ) → is_decimal c ≡ true → is_separator c ≡ false
unfolding is_decimal
is_decimal-not-is_separator c h = any-not-is_separator decimal_zeros c decimal_zeros_clear h

pub remove_nothing : (s : Text) → all is_decimal s ≡ true → remove is_separator s ≡ s
unfolding remove
remove_nothing [] h = refl
remove_nothing (c ∷ s) h = ground (arith, is_decimal-not-is_separator c, remove_nothing s)

-- A test that holds of a prefix and of what follows it holds of the whole.
all_of_prefix :
    (test : ℕ → Bool) (p s : Text)
    → starts_with s p ≡ true
    → all test p ≡ true
    → all test (drop (length p) s) ≡ true
    → all test s ≡ true
all_of_prefix test [] s h k l = l
all_of_prefix test (b ∷ p) [] h k l = refl
all_of_prefix test (b ∷ p) (a ∷ s) h k l = ground (arith, all_of_prefix test p s)

digits : (all is_decimal (codes "2547") ≡ true) × (all is_decimal (codes "2541") ≡ true)
unfolding is_decimal
digits = (refl, refl)

pub is_msisdn-all_decimal : (s : Text) → is_msisdn s ≡ true → all is_decimal s ≡ true
unfolding is_msisdn
is_msisdn-all_decimal s h = ground (
  arith,
  all_of_prefix is_decimal (codes "2547") s,
  all_of_prefix is_decimal (codes "2541") s,
  digits,
)
