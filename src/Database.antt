-- ===== src/Database.antt =====
-- The PostgreSQL session behind SQLAlchemy, as the code uses it: an interface that is not part of
-- the repository. A session sees its own uncommitted writes (`row`); other sessions, and this one
-- after a crash, see what is committed (`durable`). Each statement may raise. The laws state the
-- documented effect of a statement that succeeds, the primary key and the UNIQUE constraint on
-- `idempotency_key` included.
pub mod Rows
pub mod Memory
use mathlib.Core.Option
use daraja_payment_wrapper.Prelude.{
  ℕ, Text, text_eq, ◌≡◌, ◌≢◌, ◌⊎◌, Option, none, some, if◌then◌else◌,
}
use daraja_payment_wrapper.Errors.{Error, ok, err}
use daraja_payment_wrapper.Exec.{Exec}
use daraja_payment_wrapper.Payment.{Payment}

-- A statement that raised has committed nothing, and leaves each row visible as it was or as it is
-- committed.
abbrev pub Raised :
    {S : Type 0} → (S → Text → Option Payment) → (S → Text → Option Payment) → S → S → Type 0
Raised row durable s s' =
    (i : Text) → ((row s' i ≡ row s i) ⊎ (row s' i ≡ durable s i)) × (durable s' i ≡ durable s i)

-- After a COMMIT that raised, what is committed is each row as it was or as it was visible.
abbrev pub InDoubt :
    {S : Type 0} → (S → Text → Option Payment) → (S → Text → Option Payment) → S → S → Type 0
InDoubt row durable s s' =
    (i : Text)
    → ((row s' i ≡ row s i) ⊎ (row s' i ≡ durable s i))
      × ((durable s' i ≡ durable s i) ⊎ (durable s' i ≡ row s i))

pub record Database : Type 1 where
  pub Session : Type 0
  pub row : Session → Text → Option Payment
  pub durable : Session → Text → Option Payment
  -- `datetime.now(timezone.utc)`
  pub utcnow : Session → ℕ
  -- `session.add` and `session.flush`
  pub insert : Payment → Exec Session (Unit {0})
  -- SELECT ... WHERE id, idempotency_key or checkout_request_id is the text
  pub select_by_id : Text → Exec Session (Option Payment)
  pub select_by_idempotency_key : Text → Exec Session (Option Payment)
  pub select_by_checkout_request_id : Text → Exec Session (Option Payment)
  -- UPDATE ... WHERE id is the text
  pub update : Text → (Payment → Payment) → Exec Session (Unit {0})
  pub commit : Exec Session (Unit {0})
  pub rollback : Exec Session (Unit {0})
  -- the primary key
  pub row_id : (s : Session) (i : Text) (p : Payment) → row s i ≡ some p → p.id ≡ i
  pub select_by_id_ok :
      (i : Text) (s s' : Session) (o : Option Payment)
      → select_by_id i s ≡ (ok o, s')
      → (o ≡ row s i)
        × ((j : Text) → row s' j ≡ row s j)
        × ((j : Text) → durable s' j ≡ durable s j)
  pub select_key_some :
      (k : Text) (s s' : Session) (p : Payment)
      → select_by_idempotency_key k s ≡ (ok (some p), s')
      → (row s p.id ≡ some p) × (p.idempotency_key ≡ k)
  pub select_key_none :
      (k : Text) (s s' : Session)
      → select_by_idempotency_key k s ≡ (ok none, s')
      → (i : Text) (p : Payment) → row s i ≡ some p
      → p.idempotency_key ≢ k
  pub select_key_keeps :
      (k : Text) (s s' : Session) (o : Option Payment)
      → select_by_idempotency_key k s ≡ (ok o, s')
      → ((j : Text) → row s' j ≡ row s j) × ((j : Text) → durable s' j ≡ durable s j)
  pub select_checkout_some :
      (k : Text) (s s' : Session) (p : Payment)
      → select_by_checkout_request_id k s ≡ (ok (some p), s')
      → (row s p.id ≡ some p) × (p.checkout_request_id ≡ some k)
  pub select_checkout_none :
      (k : Text) (s s' : Session)
      → select_by_checkout_request_id k s ≡ (ok none, s')
      → (i : Text) (p : Payment) → row s i ≡ some p
      → p.checkout_request_id ≢ some k
  pub select_checkout_keeps :
      (k : Text) (s s' : Session) (o : Option Payment)
      → select_by_checkout_request_id k s ≡ (ok o, s')
      → ((j : Text) → row s' j ≡ row s j) × ((j : Text) → durable s' j ≡ durable s j)
  pub insert_unique :
      (p : Payment) (s s' : Session)
      → insert p s ≡ (ok tt, s')
      → (row s p.id ≡ none)
        × ((i : Text) (q : Payment) → row s i ≡ some q → q.idempotency_key ≢ p.idempotency_key)
  pub insert_ok :
      (p : Payment) (s s' : Session)
      → insert p s ≡ (ok tt, s')
      → ((i : Text) → row s' i ≡ (if text_eq p.id i then some p else row s i))
        × ((i : Text) → durable s' i ≡ durable s i)
  pub update_ok :
      (k : Text) (f : Payment → Payment) (s s' : Session)
      → ((p : Payment) → (f p).id ≡ p.id)
      → update k f s ≡ (ok tt, s')
      → ((i : Text) → row s' i ≡ (if text_eq k i then Option.map f (row s i) else row s i))
        × ((i : Text) → durable s' i ≡ durable s i)
  pub commit_ok :
      (s s' : Session)
      → commit s ≡ (ok tt, s')
      → ((i : Text) → row s' i ≡ row s i) × ((i : Text) → durable s' i ≡ row s i)
  pub rollback_ok :
      (s s' : Session)
      → rollback s ≡ (ok tt, s')
      → ((i : Text) → row s' i ≡ durable s i) × ((i : Text) → durable s' i ≡ durable s i)
  pub select_by_id_err :
      (i : Text) (s s' : Session) (e : Error)
      → select_by_id i s ≡ (err e, s')
      → Raised row durable s s'
  pub select_key_err :
      (k : Text) (s s' : Session) (e : Error)
      → select_by_idempotency_key k s ≡ (err e, s')
      → Raised row durable s s'
  pub select_checkout_err :
      (k : Text) (s s' : Session) (e : Error)
      → select_by_checkout_request_id k s ≡ (err e, s')
      → Raised row durable s s'
  pub insert_err :
      (p : Payment) (s s' : Session) (e : Error)
      → insert p s ≡ (err e, s')
      → Raised row durable s s'
  pub update_err :
      (k : Text) (f : Payment → Payment) (s s' : Session) (e : Error)
      → update k f s ≡ (err e, s')
      → Raised row durable s s'
  pub commit_err : (s s' : Session) (e : Error) → commit s ≡ (err e, s') → InDoubt row durable s s'
  pub rollback_err :
      (s s' : Session) (e : Error) → rollback s ≡ (err e, s') → Raised row durable s s'
