-- ===== src/Sql/Ddl.antt =====
-- Alembic's operations on a PostgreSQL database that answers: an interface that is not part of the
-- repository. The laws state what CREATE and DROP do, where their names are free or taken. A table
-- comes with the indexes of its primary key and of its UNIQUE constraints, and goes with all of its
-- indexes.
pub mod Tables
pub mod Memory
use daraja_payment_wrapper.Prelude.{
  codes, [], ◌∷◌, ◌++◌, Text, text_eq, ◌≡◌, Bool, true, false, not, Option, none, some, List,
  if◌then◌else◌,
}
use daraja_payment_wrapper.Errors.{ok}
use daraja_payment_wrapper.Exec.{Exec}
use daraja_payment_wrapper.Sql.{Table, Relation, table, index}

-- The relations of a database by their names.
abbrev pub Relations : Type 0
Relations = Text → Option Relation

abbrev pub is_table : Option Relation → Bool
is_table (some (table _)) = true
is_table (some (index _ _)) = false
is_table none = false

abbrev pub is_index_on : Text → Option Relation → Bool
is_index_on t none = false
is_index_on t (some (table _)) = false
is_index_on t (some (index on _)) = text_eq on t

abbrev pub with_relation : Text → Option Relation → Relations → Relations
with_relation name r relations i = if text_eq name i then r else relations i

-- A table goes with its indexes.
abbrev pub without_table : Text → Relations → Relations
without_table name relations i =
    if text_eq name i then none else if is_index_on name (relations i) then none else relations i

-- The indexes of the primary key and of the UNIQUE constraints, by the names that PostgreSQL gives them
-- where they are free.
abbrev pub primary_index : Text → List Text → List (Text × List Text)
primary_index name [] = []
primary_index name (column ∷ columns) = (name ++ codes "_pkey", column ∷ columns) ∷ []

abbrev pub unique_indexes : Text → List Text → List (Text × List Text)
unique_indexes name [] = []
unique_indexes name (column ∷ columns) =
    (name ++ b'_' ∷ (column ++ codes "_key"), column ∷ []) ∷ unique_indexes name columns

abbrev pub with_indexes : Text → List (Text × List Text) → Relations → Relations
with_indexes on [] relations = relations
with_indexes on ((name, columns) ∷ indexes) relations =
    with_relation name (some (index on columns)) (with_indexes on indexes relations)

-- A table comes with the indexes of its constraints.
abbrev pub with_table : Text → Table → Relations → Relations
with_table name t relations = with_indexes name (primary_index name t.primary_key) (
    with_indexes name (unique_indexes name t.uniques)
      (with_relation name (some (table t)) relations))

abbrev pub AllFree : List (Text × List Text) → Relations → Type 0
AllFree [] relations = Unit {0}
AllFree ((name, columns) ∷ indexes) relations = (relations name ≡ none) × AllFree indexes relations

-- The name of the table and those of its constraints' indexes are free.
pub record IsFree (name : Text) (t : Table) (relations : Relations) : Type 0 where
  pub itself : relations name ≡ none
  pub primary : AllFree (primary_index name t.primary_key) relations
  pub uniques : AllFree (unique_indexes name t.uniques) relations

pub record Ddl : Type 1 where
  pub Catalog : Type 0
  pub relations : Catalog → Relations
  pub create_table : Text → Table → Exec Catalog (Unit {0})
  -- name, table, columns
  pub create_index : Text → Text → List Text → Exec Catalog (Unit {0})
  pub drop_index : Text → Text → Exec Catalog (Unit {0})
  pub drop_table : Text → Exec Catalog (Unit {0})
  -- an index is one of a table that is there
  pub index_table :
      (c : Catalog) (i on : Text) (columns : List Text)
      → relations c i ≡ some (index on columns)
      → is_table (relations c on) ≡ true
  pub create_table_lem :
      (name : Text) (t : Table) (c : Catalog)
      → IsFree name t (relations c)
      → (c' : Catalog) × (create_table name t c ≡ (ok tt, c'))
        × ((i : Text) → relations c' i ≡ with_table name t (relations c) i)
  pub create_index_lem :
      (name on : Text) (columns : List Text) (c : Catalog)
      → relations c name ≡ none
      → is_table (relations c on) ≡ true
      → (c' : Catalog) × (create_index name on columns c ≡ (ok tt, c'))
        × ((i : Text)
            → relations c' i ≡ with_relation name (some (index on columns)) (relations c) i)
  pub drop_index_lem :
      (name on : Text) (columns : List Text) (c : Catalog)
      → relations c name ≡ some (index on columns)
      → (c' : Catalog) × (drop_index name on c ≡ (ok tt, c'))
        × ((i : Text) → relations c' i ≡ with_relation name none (relations c) i)
  pub drop_table_lem :
      (name : Text) (c : Catalog)
      → is_table (relations c name) ≡ true
      → (c' : Catalog) × (drop_table name c ≡ (ok tt, c'))
        × ((i : Text) → relations c' i ≡ without_table name (relations c) i)
