-- ===== src/Sql/Ddl/Tables.antt =====
-- The tables of a PostgreSQL schema and the indexes of their constraints.
use daraja_payment_wrapper.Prelude.{
  ℕ, Text, text_eq, text_eq_iff, ◌≡◌, false, some, List, [], ◌∷◌, ◌++◌, refl, ◌∙◌, arith,
}
use daraja_payment_wrapper.Sql.{Table, table}
use daraja_payment_wrapper.Sql.Ddl.{
  Relations, is_table, without_table, primary_index, unique_indexes, with_indexes, with_table,
  AllFree,
}

-- No index has the name.
abbrev pub AllDiffer : Text → List (Text × List Text) → Type 0
AllDiffer i [] = Unit {0}
AllDiffer i ((name, columns) ∷ indexes) = (text_eq name i ≡ false) × AllDiffer i indexes

longer_differs : (s : Text) (c : ℕ) (t : Text) → text_eq (s ++ c ∷ t) s ≡ false
longer_differs [] c t = refl
longer_differs (d ∷ s) c t = ground (arith, longer_differs s c t)

pub primary_index-AllDiffer :
    (name : Text) (columns : List Text) → AllDiffer name (primary_index name columns)
primary_index-AllDiffer name [] = tt
primary_index-AllDiffer name (column ∷ columns) = (longer_differs name _ _, tt)

pub unique_indexes-AllDiffer :
    (name : Text) (columns : List Text) → AllDiffer name (unique_indexes name columns)
unique_indexes-AllDiffer name [] = tt
unique_indexes-AllDiffer name (column ∷ columns) =
    (longer_differs name _ _, unique_indexes-AllDiffer name columns)

pub with_indexes_elsewhere :
    (on : Text) (indexes : List (Text × List Text)) (rel : Relations) (i : Text)
    → AllDiffer i indexes
    → with_indexes on indexes rel i ≡ rel i
with_indexes_elsewhere on [] rel i h = refl
with_indexes_elsewhere on ((name, columns) ∷ indexes) rel i (h, hs) =
    rw h (with_indexes_elsewhere on indexes rel i hs)

-- The table itself is there.
pub with_table_itself :
    (name : Text) (t : Table) (rel : Relations) → with_table name t rel name ≡ some (table t)
with_table_itself name t rel =
    with_indexes_elsewhere name (primary_index name t.primary_key) _ name
      (primary_index-AllDiffer name t.primary_key)
    ∙ with_indexes_elsewhere name (unique_indexes name t.uniques) _ name
        (unique_indexes-AllDiffer name t.uniques)
    ∙ ground (arith, text_eq_iff name name)

-- The indexes of a table go with it.
pub without-with_indexes :
    (on : Text) (indexes : List (Text × List Text)) (rel before : Relations)
    → AllFree indexes before
    → ((i : Text) → without_table on rel i ≡ before i)
    → (i : Text) → without_table on (with_indexes on indexes rel) i ≡ before i
without-with_indexes on [] rel before free same i = same i
without-with_indexes on ((name, columns) ∷ indexes) rel before (free, frees) same i = ground (
  arith,
  text_eq_iff name i,
  text_eq_iff on on,
  without-with_indexes on indexes rel before frees same i,
)

-- An index where no table is makes no table.
pub with_indexes-no_table :
    (on : Text) (indexes : List (Text × List Text)) (rel : Relations) (i : Text)
    → is_table (rel i) ≡ false
    → is_table (with_indexes on indexes rel i) ≡ false
with_indexes-no_table on [] rel i h = h
with_indexes-no_table on ((name, columns) ∷ indexes) rel i h =
    ground (arith, with_indexes-no_table on indexes rel i h)
