-- ===== src/Database/Memory.antt =====
-- A database that fits the interface: the visible and the committed rows as lists.
use mathlib.Core.Option
use daraja_payment_wrapper.Prelude.{
  ap, ℕ, Text, text_eq, text_eq_iff, ◌≡◌, ◌≢◌, ◌↔◌, inl, inr, Bool, true, false, ◌&&◌, Option, none,
  some, List, [], ◌∷◌, arith, if◌then◌else◌, Option-cases,
}
use daraja_payment_wrapper.Errors.{Error, ok, err, db_failure}
use daraja_payment_wrapper.Exec.{Exec}
use daraja_payment_wrapper.Payment.{Payment}
use daraja_payment_wrapper.Database.{Database, Raised, InDoubt}
use daraja_payment_wrapper.Database.Rows.{
  by_id, by_id-id, find, find-some, find-none, assign, by_id-assign,
}

pub record Tables : Type 0 where
  pub up : Bool
  pub clock : ℕ
  pub rows : List Payment
  pub saved : List Payment

abbrev pub select : (Payment → Bool) → Exec Tables (Option Payment)
select test s = if s.up then (ok (find test [] s.rows), s) else (err db_failure, s)

abbrev pub select_by_id : Text → Exec Tables (Option Payment)
select_by_id i s = if s.up then (ok (by_id s.rows i), s) else (err db_failure, s)

abbrev pub has_key : Text → Payment → Bool
has_key k p = text_eq p.idempotency_key k

abbrev pub has_checkout : Text → Payment → Bool
has_checkout k p = elim p.checkout_request_id [ none ↦ false | some c ↦ text_eq c k ]

-- The primary key and the UNIQUE constraint on the idempotency key.
abbrev pub is_fresh : Payment → List Payment → Bool
is_fresh p l = elim (by_id l p.id) [
  | some _ ↦ false
  | none ↦ elim (find (has_key p.idempotency_key) [] l) [ none ↦ true | some _ ↦ false ]
]

abbrev pub insert : Payment → Exec Tables (Unit {0})
insert p s =
    if s.up && is_fresh p s.rows
    then (ok tt, record s { rows = p ∷ s.rows })
    else (err db_failure, s)

abbrev pub update : Text → (Payment → Payment) → Exec Tables (Unit {0})
update k f s = if s.up then (ok tt, record s { rows = assign k f s.rows }) else (err db_failure, s)

abbrev pub commit : Exec Tables (Unit {0})
commit s = if s.up then (ok tt, record s { saved = s.rows }) else (err db_failure, s)

abbrev pub rollback : Exec Tables (Unit {0})
rollback s = if s.up then (ok tt, record s { rows = s.saved }) else (err db_failure, s)

pub select_by_id_ok :
    (i : Text) (s s' : Tables) (o : Option Payment)
    → select_by_id i s ≡ (ok o, s')
    → (o ≡ by_id s.rows i)
      × ((j : Text) → by_id s'.rows j ≡ by_id s.rows j)
      × ((j : Text) → by_id s'.saved j ≡ by_id s.saved j)
select_by_id_ok i s s' o h = (ground arith, λ j. ground arith, λ j. ground arith)

pub select-some :
    (test : Payment → Bool) (s s' : Tables) (p : Payment)
    → select test s ≡ (ok (some p), s')
    → (by_id s.rows p.id ≡ some p) × (test p ≡ true)
select-some test s s' p h = ground (arith, find-some test [] s.rows p)

pub select-none :
    (test : Payment → Bool) (s s' : Tables) (i : Text) (p : Payment)
    → select test s ≡ (ok none, s')
    → by_id s.rows i ≡ some p
    → test p ≡ false
select-none test s s' i p h e = ground (arith, find-none test [] s.rows i p)

pub select_keeps :
    (test : Payment → Bool) (s s' : Tables) (o : Option Payment)
    → select test s ≡ (ok o, s')
    → ((j : Text) → by_id s'.rows j ≡ by_id s.rows j)
      × ((j : Text) → by_id s'.saved j ≡ by_id s.saved j)
select_keeps test s s' o h = (λ j. ground arith, λ j. ground arith)

pub has_checkout_iff :
    (k : Text) (p : Payment) → (has_checkout k p ≡ true) ↔ (p.checkout_request_id ≡ some k)
has_checkout_iff k p = elim (Option-cases p.checkout_request_id) [
  | inl e ↦ ground arith
  | inr (c, e) ↦ ground (arith, text_eq_iff c k)
]

pub select-some_key :
    (k : Text) (s s' : Tables) (p : Payment)
    → select (has_key k) s ≡ (ok (some p), s')
    → (by_id s.rows p.id ≡ some p) × (p.idempotency_key ≡ k)
select-some_key k s s' p h =
    let (there, test) = select-some (has_key k) s s' p h in (there, (text_eq_iff _ _).0 test)

pub select-none_key :
    (k : Text) (s s' : Tables)
    → select (has_key k) s ≡ (ok none, s')
    → (i : Text) (p : Payment) → by_id s.rows i ≡ some p
    → p.idempotency_key ≢ k
select-none_key k s s' h i p e same =
    ground (arith, select-none (has_key k) s s' i p h e, text_eq_iff p.idempotency_key k)

pub select-some_checkout :
    (k : Text) (s s' : Tables) (p : Payment)
    → select (has_checkout k) s ≡ (ok (some p), s')
    → (by_id s.rows p.id ≡ some p) × (p.checkout_request_id ≡ some k)
select-some_checkout k s s' p h =
    let (there, test) = select-some (has_checkout k) s s' p h in
    (there, (has_checkout_iff k p).0 test)

pub select-none_checkout :
    (k : Text) (s s' : Tables)
    → select (has_checkout k) s ≡ (ok none, s')
    → (i : Text) (p : Payment) → by_id s.rows i ≡ some p
    → p.checkout_request_id ≢ some k
select-none_checkout k s s' h i p e same =
    ground (arith, select-none (has_checkout k) s s' i p h e, (has_checkout_iff k p).1 same)

pub insert_unique :
    (p : Payment) (s s' : Tables)
    → insert p s ≡ (ok tt, s')
    → (by_id s.rows p.id ≡ none)
      × ((i : Text) (q : Payment) → by_id s.rows i ≡ some q → q.idempotency_key ≢ p.idempotency_key)
insert_unique p s s' h = (
  ground arith,
  λ i q e k. ground (
    arith,
    find-none (has_key p.idempotency_key) [] s.rows i q,
    text_eq_iff q.idempotency_key p.idempotency_key,
  ),
)

pub insert_ok :
    (p : Payment) (s s' : Tables)
    → insert p s ≡ (ok tt, s')
    → ((i : Text) → by_id s'.rows i ≡ (if text_eq p.id i then some p else by_id s.rows i))
      × ((i : Text) → by_id s'.saved i ≡ by_id s.saved i)
insert_ok p s s' h = (λ i. ground arith, λ i. ground arith)

pub update_ok :
    (k : Text) (f : Payment → Payment) (s s' : Tables)
    → ((p : Payment) → (f p).id ≡ p.id)
    → update k f s ≡ (ok tt, s')
    → ((i : Text)
        → by_id s'.rows i ≡ (if text_eq k i then Option.map f (by_id s.rows i) else by_id s.rows i))
      × ((i : Text) → by_id s'.saved i ≡ by_id s.saved i)
update_ok k f s s' keep h = (λ i. ground (arith, by_id-assign k f s.rows i keep), λ i. ground arith)

pub commit_ok :
    (s s' : Tables)
    → commit s ≡ (ok tt, s')
    → ((i : Text) → by_id s'.rows i ≡ by_id s.rows i)
      × ((i : Text) → by_id s'.saved i ≡ by_id s.rows i)
commit_ok s s' h = (λ i. ground arith, λ i. ground arith)

pub rollback_ok :
    (s s' : Tables)
    → rollback s ≡ (ok tt, s')
    → ((i : Text) → by_id s'.rows i ≡ by_id s.saved i)
      × ((i : Text) → by_id s'.saved i ≡ by_id s.saved i)
rollback_ok s s' h = (λ i. ground arith, λ i. ground arith)

-- Where a statement raises, nothing has changed.
pub raised :
    (s s' : Tables) → s' ≡ s → Raised (λ (t : Tables). by_id t.rows) (λ t. by_id t.saved) s s'
raised s s' h i =
    (inl (ap (λ (t : Tables). by_id t.rows i) h), ap (λ (t : Tables). by_id t.saved i) h)

pub select_by_id-Raised :
    (i : Text) (s s' : Tables) (e : Error)
    → select_by_id i s ≡ (err e, s')
    → Raised (λ (t : Tables). by_id t.rows) (λ t. by_id t.saved) s s'
select_by_id-Raised i s s' e h = raised s s' (ground arith)

pub select-Raised :
    (test : Payment → Bool) (s s' : Tables) (e : Error)
    → select test s ≡ (err e, s')
    → Raised (λ (t : Tables). by_id t.rows) (λ t. by_id t.saved) s s'
select-Raised test s s' e h = raised s s' (ground arith)

pub insert-Raised :
    (p : Payment) (s s' : Tables) (e : Error)
    → insert p s ≡ (err e, s')
    → Raised (λ (t : Tables). by_id t.rows) (λ t. by_id t.saved) s s'
insert-Raised p s s' e h = raised s s' (ground arith)

pub update-Raised :
    (k : Text) (f : Payment → Payment) (s s' : Tables) (e : Error)
    → update k f s ≡ (err e, s')
    → Raised (λ (t : Tables). by_id t.rows) (λ t. by_id t.saved) s s'
update-Raised k f s s' e h = raised s s' (ground arith)

pub rollback-Raised :
    (s s' : Tables) (e : Error)
    → rollback s ≡ (err e, s')
    → Raised (λ (t : Tables). by_id t.rows) (λ t. by_id t.saved) s s'
rollback-Raised s s' e h = raised s s' (ground arith)

pub commit-InDoubt :
    (s s' : Tables) (e : Error)
    → commit s ≡ (err e, s')
    → InDoubt (λ (t : Tables). by_id t.rows) (λ t. by_id t.saved) s s'
commit-InDoubt s s' e h i = (inl (ground arith), inl (ground arith))

abbrev pub memory : Database
memory = record {
  Session = Tables;
  row = λ s. by_id s.rows;
  durable = λ s. by_id s.saved;
  utcnow = λ s. s.clock;
  insert = insert;
  select_by_id = select_by_id;
  select_by_idempotency_key = λ k. select (has_key k);
  select_by_checkout_request_id = λ k. select (has_checkout k);
  update = update;
  commit = commit;
  rollback = rollback;
  row_id = λ s. by_id-id s.rows;
  select_by_id_ok = select_by_id_ok;
  select_key_some = λ k s s' p h. select-some_key k s s' p h;
  select_key_none = λ k s s' h i p e. select-none_key k s s' h i p e;
  select_key_keeps = λ k. select_keeps (has_key k);
  select_checkout_some = select-some_checkout;
  select_checkout_none = select-none_checkout;
  select_checkout_keeps = λ k. select_keeps (has_checkout k);
  insert_unique = insert_unique;
  insert_ok = insert_ok;
  update_ok = update_ok;
  commit_ok = commit_ok;
  rollback_ok = rollback_ok;
  select_by_id_err = select_by_id-Raised;
  select_key_err = λ k. select-Raised (has_key k);
  select_checkout_err = λ k. select-Raised (has_checkout k);
  insert_err = insert-Raised;
  update_err = update-Raised;
  commit_err = commit-InDoubt;
  rollback_err = rollback-Raised;
}
