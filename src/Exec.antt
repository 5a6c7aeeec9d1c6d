-- ===== src/Exec.antt =====
-- Code that changes a state and may raise. What was written before a raise stays written, so the
-- state comes back beside the error too.
pub mod Keeps
use daraja_payment_wrapper.Prelude.{◌≡◌, ◌⊎◌, inl, inr, refl, Bool, if◌then◌else◌}
use daraja_payment_wrapper.Errors.{Error, Result, ok, err}

abbrev pub Exec : Type 0 → Type 0 → Type 0
Exec S A = S → Result A × S

abbrev pub pure : {S A : Type 0} → A → Exec S A
pure a s = (ok a, s)

abbrev pub raise : {S A : Type 0} → Error → Exec S A
raise e s = (err e, s)

abbrev pub gets : {S A : Type 0} → (S → A) → Exec S A
gets f s = (ok (f s), s)

infixl 10 ◌>>=◌ ◌>>◌
abbrev pub ◌>>=◌ : {S A B : Type 0} → Exec S A → (A → Exec S B) → Exec S B
◌>>=◌ m f s = let (r, s') = m s in elim r [ ok a ↦ f a s' | err e ↦ (err e, s') ]

abbrev pub ◌>>◌ : {S A B : Type 0} → Exec S A → Exec S B → Exec S B
m >> n = m >>= λ _. n

-- `try: m  except: handler`
abbrev pub catch : {S A : Type 0} → Exec S A → (Error → Exec S A) → Exec S A
catch m handler s = let (r, s') = m s in elim r [ ok a ↦ (ok a, s') | err e ↦ handler e s' ]

-- `try: m  except C: handler`, where `matches` says which errors belong to the class.
abbrev pub catch_if : {S A : Type 0} → (Error → Bool) → Exec S A → (Error → Exec S A) → Exec S A
catch_if matches m handler = catch m (λ e. if matches e then handler e else raise e)

-- `try: m  finally: last`, where `last` raises nothing.
abbrev pub finally : {S A : Type 0} → Exec S A → (S → S) → Exec S A
finally m last s = let (r, s') = m s in (r, last s')

pub Result-cases {ℓ} :
    {A : Type ℓ} (r : Result A) → ((a : A) × (r ≡ ok a)) ⊎ ((e : Error) × (r ≡ err e))
Result-cases (ok a) = inl (a, refl)
Result-cases (err e) = inr (e, refl)
