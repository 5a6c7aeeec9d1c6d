-- ===== src/Observability/Redacts.antt =====
-- What the processors hide, and what they do not.
use mathlib.Core.Option
use daraja_payment_wrapper.Prelude.{
  ℕ, zero, suc, Text, codes, text_eq, text_eq_iff, starts_with, take, drop, all, any, ◌≡◌, refl, ap,
  ◌∙◌, Bool, true, false, not, ◌&&◌, Option, none, some, List, [], ◌∷◌, ◌==◌, if◌then◌else◌, arith,
  inl, inr, Bool-cases,
}
use daraja_payment_wrapper.Json.{Value, null, int, float, str, other, Dict, lookup, lookup-put}
use daraja_payment_wrapper.Schemas.Phone.{is_decimal}
use daraja_payment_wrapper.Observability.{
  follows_word, is_sensitive, redacted, is_phone_at, sub_phone, clean, strip_pii_from_logs, pop,
  pop_all, sensitive_headers, sentry_before_send, setdefault, add_service_context,
}

module _ (is_word : ℕ → Bool) (lower : Text → Text) where
  pub lookup-strip_pii :
      (k : Text) (d : Dict)
      → lookup k (strip_pii_from_logs is_word lower d)
        ≡ Option.map (clean is_word lower k) (lookup k d)
  unfolding strip_pii_from_logs lookup
  lookup-strip_pii k [] = refl
  lookup-strip_pii k ((j, v) ∷ d) = elim (Bool-cases (text_eq j k)) [
    | inl same ↦ rw (same, (text_eq_iff j k).0 same) refl
    | inr differ ↦ rw differ (lookup-strip_pii k d)
  ]

  clean_sensitive :
      (k : Text) (v : Value) → is_sensitive (lower k) ≡ true → clean is_word lower k v ≡ redacted
  unfolding clean
  clean_sensitive k (str s) h = rw h refl
  clean_sensitive k null h = rw h refl
  clean_sensitive k (int n) h = rw h refl
  clean_sensitive k (float x) h = rw h refl
  clean_sensitive k (other b) h = rw h refl

  -- Under a sensitive key a log event has nothing, or the word of the redaction.
  pub strip_pii_redacts :
      (k : Text) (d : Dict)
      → is_sensitive (lower k) ≡ true
      → lookup k (strip_pii_from_logs is_word lower d) ≡ Option.map (λ v. redacted) (lookup k d)
  strip_pii_redacts k d h = lookup-strip_pii k d ∙ map_same (lookup k d)
    where
      map_same :
          (o : Option Value) → Option.map (clean is_word lower k) o ≡ Option.map (λ v. redacted) o
      map_same none = refl
      map_same (some v) = ap some (clean_sensitive k v h)

  unfoldable pub braceless : Text → Bool
  braceless = all (λ c. not (c == b'}'))

  braceless-drop :
      (n : ℕ) (s : Text) → braceless s ≡ true → starts_with (drop n s) (codes "}") ≡ false
  unfolding braceless
  braceless-drop zero [] h = refl
  braceless-drop zero (c ∷ s) h = ground arith
  braceless-drop (suc n) [] h = refl
  braceless-drop (suc n) (c ∷ s) h = braceless-drop n s (ground arith)

  last_false : (a b c d : Bool) → d ≡ false → (a && b && c && d) ≡ false
  last_false a b c d h = ground arith

  no_phone :
      (before : Option ℕ) (s : Text)
      → starts_with (drop 12 s) (codes "}") ≡ false
      → is_phone_at is_word before s ≡ false
  unfolding is_phone_at
  no_phone before s h =
      last_false (not (follows_word is_word before)) (starts_with s (codes "2547"))
        (all is_decimal (take 8 (drop 4 s))) (starts_with (drop 12 s) (codes "}")) h

  pub sub_phone-braceless :
      (before : Option ℕ) (s : Text) → braceless s ≡ true → sub_phone is_word zero before s ≡ s
  unfolding sub_phone braceless
  sub_phone-braceless before [] h = refl
  sub_phone-braceless before (c ∷ s) h =
      let tail : braceless s ≡ true = ground arith in
      let rest = sub_phone-braceless (some c) s tail in
      let no_brace = braceless-drop 12 (c ∷ s) h in
      rw (no_phone before (c ∷ s) no_brace) (ap (λ t. c ∷ t) rest)

  -- A text without a closing brace is logged as it is, under every key that is not sensitive, whatever
  -- phone numbers it has: the pattern asks for a brace after the number.
  pub strip_pii_keeps_phones :
      (k s : Text) (d : Dict)
      → is_sensitive (lower k) ≡ false
      → all (λ c. not (c == b'}')) s ≡ true
      → lookup k d ≡ some (str s)
      → lookup k (strip_pii_from_logs is_word lower d) ≡ some (str s)
  unfolding clean braceless
  strip_pii_keeps_phones k s d open_key plain there =
      lookup-strip_pii k d
      ∙ ap (Option.map (clean is_word lower k)) there
      ∙ rw open_key (ap (λ t. some (str t)) (sub_phone-braceless none s plain))

-- A key is not there after it is popped; the others are as before.
lookup-pop :
    (key j : Text) (d : Dict) → lookup j (pop key d) ≡ (if text_eq key j then none else lookup j d)
unfolding lookup pop
lookup-pop key j [] = ground arith
lookup-pop key j ((k, v) ∷ d) =
    ground (arith, lookup-pop key j d, text_eq_iff k key, text_eq_iff k j, text_eq_iff key j)

lookup-pop_all :
    (ks : List Text) (j : Text) (d : Dict)
    → lookup j (pop_all ks d) ≡ (if any (λ k. text_eq k j) ks then none else lookup j d)
unfolding pop_all
lookup-pop_all [] j d = refl
lookup-pop_all (k ∷ ks) j d = ground (arith, lookup-pop_all ks j (pop k d), lookup-pop k j d)

-- What goes to Sentry has no header under one of the six spellings, and every other header as it was.
pub sentry_before_send_lem :
    (j : Text) (headers : Dict)
    → lookup j (sentry_before_send headers)
      ≡ (if any (λ k. text_eq k j) sensitive_headers then none else lookup j headers)
unfolding sentry_before_send
sentry_before_send_lem j headers = lookup-pop_all sensitive_headers j headers

-- The value of a key, or else a default if the key is the one that has it.
abbrev pub or_default : Option Value → Bool → Text → Option Value
or_default (some v) is_key default = some v
or_default none true default = some (str default)
or_default none false default = none

lookup-setdefault :
    (key value j : Text) (d : Dict)
    → lookup j (setdefault key value d) ≡ or_default (lookup j d) (text_eq key j) value
unfolding setdefault
lookup-setdefault key value j d = ground (arith, lookup-put j key (str value) d, text_eq_iff key j)

-- The service's name and environment are in every log event; what the event says itself under the two
-- names is left, and so is everything else.
pub add_service_context_lem :
    (service_name environment : Text) (j : Text) (d : Dict)
    → lookup j (add_service_context service_name environment d)
      ≡ or_default
          (or_default (lookup j d) (text_eq (codes "service") j) service_name)
          (text_eq (codes "environment") j)
          environment
unfolding add_service_context
add_service_context_lem service_name environment j d =
    lookup-setdefault (codes "environment") environment j
      (setdefault (codes "service") service_name d)
    ∙ ap (λ o. or_default o (text_eq (codes "environment") j) environment)
        (lookup-setdefault (codes "service") service_name j d)
