-- ===== src/Exec/Keeps.antt =====
-- Invariants of actions: one rule for each way to build an action.
use daraja_payment_wrapper.Prelude.{inl, inr, Bool, true, false, if◌then◌else◌}
use daraja_payment_wrapper.Errors.{Error}
use daraja_payment_wrapper.Exec.{Exec, pure, raise, catch, catch_if, ◌>>=◌, Result-cases}

-- The action `m` keeps `P`, whether it returns or raises.
pub record Keeps {S A : Type 0} (P : S → Type 0) (m : Exec S A) : Type 0 where
  pub at : (s : S) → P s → P (m s).1

module _ {S A : Type 0} {P : S → Type 0} where
  pub Keeps-pure : (a : A) → Keeps P (pure a)
  Keeps-pure a = record { at = λ s h. h }

  pub Keeps-raise : (e : Error) → Keeps P (raise {A = A} e)
  Keeps-raise e = record { at = λ s h. h }

  pub Keeps-if : (b : Bool) (m n : Exec S A) → Keeps P m → Keeps P n → Keeps P (if b then m else n)
  Keeps-if true m n km kn = km
  Keeps-if false m n km kn = kn

  pub Keeps-catch :
      (m : Exec S A) (h : Error → Exec S A)
      → Keeps P m
      → ((e : Error) → Keeps P (h e))
      → Keeps P (catch m h)
  Keeps-catch m h km kh = record {
    at = λ s p. elim (Result-cases (m s).0) [
      | inl (a, e) ↦ rw (e, catch) (km.at s p)
      | inr (x, e) ↦ rw (e, catch) ((kh x).at (m s).1 (km.at s p))
    ];
  }

  pub Keeps-catch_if :
      (c : Error → Bool) (m : Exec S A) (h : Error → Exec S A)
      → Keeps P m
      → ((e : Error) → Keeps P (h e))
      → Keeps P (catch_if c m h)
  Keeps-catch_if c m h km kh =
      Keeps-catch m (λ e. if c e then h e else raise e) km
        (λ e. Keeps-if (c e) (h e) (raise e) (kh e) (Keeps-raise e))

module _ {S A B : Type 0} {P : S → Type 0} where
  pub Keeps-bind :
      (m : Exec S A) (f : A → Exec S B) → Keeps P m → ((a : A) → Keeps P (f a)) → Keeps P (m >>= f)
  Keeps-bind m f km kf = record {
    at = λ s p. elim (Result-cases (m s).0) [
      | inl (a, e) ↦ rw (e, ◌>>=◌) ((kf a).at (m s).1 (km.at s p))
      | inr (x, e) ↦ rw (e, ◌>>=◌) (km.at s p)
    ];
  }
