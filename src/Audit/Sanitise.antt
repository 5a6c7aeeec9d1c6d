-- ===== src/Audit/Sanitise.antt =====
-- What the sanitised payload hides.
use daraja_payment_wrapper.Prelude.{
  Text, codes, text_eq, text_eq_iff, ◌≡◌, ◌⊎◌, refl, ap, ◌∙◌, true, none, some, [], ◌∷◌, inl, inr,
  Bool-cases,
}
use daraja_payment_wrapper.Json.{str, Dict, lookup}
use daraja_payment_wrapper.Audit.{is_sensitive, sanitise}

-- Under a sensitive key the sanitised payload has nothing or the word of the redaction, whatever
-- the payload holds.
pub sanitise_redacts :
    (k : Text) (payload : Dict)
    → is_sensitive k ≡ true
    → (lookup k (sanitise payload) ≡ none)
      ⊎ (lookup k (sanitise payload) ≡ some (str (codes "***REDACTED***")))
unfolding lookup sanitise
sanitise_redacts k [] h = inl refl
sanitise_redacts k ((j, v) ∷ payload) h = elim (Bool-cases (text_eq j k)) [
  | inl same ↦
      let e : j ≡ k = (text_eq_iff j k).0 same in
      let sensitive : is_sensitive j ≡ true = ap is_sensitive e ∙ h in
      inr (rw same (rw sensitive refl))
  | inr different ↦ rw different (sanitise_redacts k payload h)
]
