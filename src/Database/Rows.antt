-- ===== src/Database/Rows.antt =====
-- A table as a list of rows: lookup by id, search by a test, and assignment to a row.
use mathlib.Core.Option
use daraja_payment_wrapper.Prelude.{
  Text, text_eq, text_eq_iff, text_eq_refl, ◌≡◌, Bool, true, false, Option, none, some, List, [],
  ◌∷◌, arith, if◌then◌else◌, any,
}
use daraja_payment_wrapper.Payment.{Payment}

abbrev pub by_id : List Payment → Text → Option Payment
by_id [] i = none
by_id (p ∷ l) i = if text_eq p.id i then some p else by_id l i

pub by_id-id : (l : List Payment) (i : Text) (p : Payment) → by_id l i ≡ some p → p.id ≡ i
by_id-id [] i p h = cc
by_id-id (q ∷ l) i p h = ground (arith, by_id-id l i p, text_eq_iff q.id i)

-- The first row that meets the test and is not hidden by an earlier row of the same id.
abbrev pub find : (Payment → Bool) → List Text → List Payment → Option Payment
find test seen [] = none
find test seen (p ∷ l) =
    if any (text_eq p.id) seen
    then find test seen l
    else if test p
    then some p
    else find test (p.id ∷ seen) l

pub find-some :
    (test : Payment → Bool) (seen : List Text) (l : List Payment) (p : Payment)
    → find test seen l ≡ some p
    → (by_id l p.id ≡ some p) × (test p ≡ true) × (any (text_eq p.id) seen ≡ false)
find-some test seen [] p h = cc
find-some test seen (q ∷ l) p h = ground (
  arith,
  find-some test seen l p,
  find-some test (q.id ∷ seen) l p,
  text_eq_iff q.id p.id,
  text_eq_iff p.id q.id,
  text_eq_refl q.id,
)

pub find-none :
    (test : Payment → Bool) (seen : List Text) (l : List Payment) (i : Text) (p : Payment)
    → find test seen l ≡ none
    → any (text_eq i) seen ≡ false
    → by_id l i ≡ some p
    → test p ≡ false
find-none test seen [] i p h k e = cc
find-none test seen (q ∷ l) i p h k e = ground (
  arith,
  find-none test seen l i p,
  find-none test (q.id ∷ seen) l i p,
  text_eq_iff q.id i,
  text_eq_iff i q.id,
)

abbrev pub assign : Text → (Payment → Payment) → List Payment → List Payment
assign k f [] = []
assign k f (p ∷ l) = (if text_eq p.id k then f p else p) ∷ assign k f l

pub by_id-assign :
    (k : Text) (f : Payment → Payment) (l : List Payment) (i : Text)
    → ((p : Payment) → (f p).id ≡ p.id)
    → by_id (assign k f l) i ≡ (if text_eq k i then Option.map f (by_id l i) else by_id l i)
by_id-assign k f [] i keep = ground arith
by_id-assign k f (p ∷ l) i keep = ground (
  arith,
  keep p,
  by_id-assign k f l i keep,
  text_eq_iff p.id k,
  text_eq_iff p.id i,
  text_eq_iff k i,
)
