-- ===== src/Sql/Ddl/Memory.antt =====
-- Operations that fit the interface: the relations as a function of their names, with the fact that
-- the table of every index is there.
use daraja_payment_wrapper.Prelude.{
  Text, text_eq_iff, ◌≡◌, ◌⊎◌, Bool, true, false, Option, none, some, List, [], ◌∷◌, ◌&&◌, ap, ◌∙◌,
  if◌then◌else◌, refl, inl, inr, Bool-cases, arith,
}
use daraja_payment_wrapper.Errors.{Result, ok, err, db_failure}
use daraja_payment_wrapper.Exec.{Exec}
use daraja_payment_wrapper.Sql.{Table, Relation, table, index}
use daraja_payment_wrapper.Sql.Ddl.{
  Ddl, Relations, is_table, with_relation, without_table, primary_index, unique_indexes,
  with_indexes, with_table, AllFree, IsFree,
}
use daraja_payment_wrapper.Sql.Ddl.Tables.{
  AllDiffer, primary_index-AllDiffer, unique_indexes-AllDiffer, with_indexes_elsewhere,
  with_indexes-no_table,
}

abbrev IsClosed : Relations → Type 0
IsClosed rel =
    (i on : Text) (columns : List Text) → rel i ≡ some (index on columns) → is_table (rel on) ≡ true

pub record Catalog : Type 0 where
  pub relations : Relations
  pub index_table : IsClosed relations

abbrev is_free : Option Relation → Bool
is_free none = true
is_free (some _) = false

abbrev is_index : Option Relation → Bool
is_index (some (index _ _)) = true
is_index (some (table _)) = false
is_index none = false

pub free-no_table : (o : Option Relation) → is_free o ≡ true → is_table o ≡ false
free-no_table none h = refl
free-no_table (some r) h = cc

pub created_table-IsClosed :
    (name : Text) (t : Table) (rel : Relations)
    → IsClosed rel
    → IsClosed (with_relation name (some (table t)) rel)
created_table-IsClosed name t rel closed i on columns h = ground (arith, closed i on columns)

pub created_index-IsClosed :
    (name to : Text) (cs : List Text) (rel : Relations)
    → IsClosed rel
    → is_table (rel name) ≡ false
    → is_table (rel to) ≡ true
    → IsClosed (with_relation name (some (index to cs)) rel)
created_index-IsClosed name to cs rel closed free there i on columns h =
    ground (arith, closed i on columns, text_eq_iff name on)

-- No table has the name of one of the indexes.
abbrev NoTables : List (Text × List Text) → Relations → Type 0
NoTables [] rel = Unit {0}
NoTables ((name, columns) ∷ indexes) rel = (is_table (rel name) ≡ false) × NoTables indexes rel

with_indexes-IsClosed :
    (on : Text) (indexes : List (Text × List Text)) (rel : Relations)
    → IsClosed rel
    → is_table (rel on) ≡ true
    → AllDiffer on indexes
    → NoTables indexes rel
    → IsClosed (with_indexes on indexes rel)
with_indexes-IsClosed on [] rel closed there ds ns = closed
with_indexes-IsClosed on ((name, columns) ∷ indexes) rel closed there (d, ds) (n, ns) =
    created_index-IsClosed name on columns (with_indexes on indexes rel)
      (with_indexes-IsClosed on indexes rel closed there ds ns)
      (with_indexes-no_table on indexes rel name n)
      (ap is_table (with_indexes_elsewhere on indexes rel on ds) ∙ there)

AllFree-NoTables :
    (name : Text) (t : Table) (indexes : List (Text × List Text)) (rel : Relations)
    → AllFree indexes rel
    → AllDiffer name indexes
    → NoTables indexes (with_relation name (some (table t)) rel)
AllFree-NoTables name t [] rel h ds = tt
AllFree-NoTables name t ((n, columns) ∷ indexes) rel (h, hs) (d, ds) = (
  ground (arith, text_eq_iff name n, text_eq_iff n name),
  AllFree-NoTables name t indexes rel hs ds,
)

with_indexes-NoTables :
    (on : Text) (added indexes : List (Text × List Text)) (rel : Relations)
    → NoTables indexes rel
    → NoTables indexes (with_indexes on added rel)
with_indexes-NoTables on added [] rel h = tt
with_indexes-NoTables on added ((n, columns) ∷ indexes) rel (h, hs) =
    (with_indexes-no_table on added rel n h, with_indexes-NoTables on added indexes rel hs)

pub with_table-IsClosed :
    (name : Text) (t : Table) (rel : Relations)
    → IsClosed rel
    → IsFree name t rel
    → IsClosed (with_table name t rel)
with_table-IsClosed name t rel closed free =
    let uniques = unique_indexes name t.uniques in
    let primary = primary_index name t.primary_key in
    let itself = with_relation name (some (table t)) rel in
    let there : is_table (itself name) ≡ true = ground (arith, text_eq_iff name name) in
    let differ = unique_indexes-AllDiffer name t.uniques in
    with_indexes-IsClosed name primary (with_indexes name uniques itself)
      (with_indexes-IsClosed name uniques itself (created_table-IsClosed name t rel closed) there
        differ (AllFree-NoTables name t uniques rel free.uniques differ))
      (ap is_table (with_indexes_elsewhere name uniques itself name differ) ∙ there)
      (primary_index-AllDiffer name t.primary_key)
      (with_indexes-NoTables name uniques primary itself (
        AllFree-NoTables name t primary rel free.primary
          (primary_index-AllDiffer name t.primary_key)))

pub dropped_index-IsClosed :
    (name : Text) (rel : Relations)
    → IsClosed rel
    → is_index (rel name) ≡ true
    → IsClosed (with_relation name none rel)
dropped_index-IsClosed name rel closed there i on columns h =
    ground (arith, closed i on columns, text_eq_iff name on)

pub dropped_table-IsClosed :
    (name : Text) (rel : Relations) → IsClosed rel → IsClosed (without_table name rel)
dropped_table-IsClosed name rel closed i on columns h =
    ground (arith, closed i on columns, text_eq_iff name on, text_eq_iff on name)

abbrev are_free : List (Text × List Text) → Relations → Bool
are_free [] rel = true
are_free ((name, columns) ∷ indexes) rel = is_free (rel name) && are_free indexes rel

free-none : (o : Option Relation) → is_free o ≡ true → o ≡ none
free-none none h = refl
free-none (some r) h = cc

are_free-AllFree :
    (indexes : List (Text × List Text)) (rel : Relations)
    → are_free indexes rel ≡ true
    → AllFree indexes rel
are_free-AllFree [] rel h = tt
are_free-AllFree ((name, columns) ∷ indexes) rel h =
    (free-none (rel name) (ground arith), are_free-AllFree indexes rel (ground arith))

AllFree-are_free :
    (indexes : List (Text × List Text)) (rel : Relations)
    → AllFree indexes rel
    → are_free indexes rel ≡ true
AllFree-are_free [] rel h = refl
AllFree-are_free ((name, columns) ∷ indexes) rel (h, hs) = rw h (AllFree-are_free indexes rel hs)

module _ (name : Text) (t : Table) (c : Catalog) where
  abbrev can_create : Bool
  can_create =
      is_free (c.relations name)
      && (are_free (primary_index name t.primary_key) c.relations
          && are_free (unique_indexes name t.uniques) c.relations)

  pub can_create-IsFree : can_create ≡ true → IsFree name t c.relations
  can_create-IsFree h = record {
    itself = free-none (c.relations name) (ground arith);
    primary = are_free-AllFree (primary_index name t.primary_key) c.relations (ground arith);
    uniques = are_free-AllFree (unique_indexes name t.uniques) c.relations (ground arith);
  }

  IsFree-can_create : IsFree name t c.relations → can_create ≡ true
  IsFree-can_create free = ground (
    arith,
    free.itself,
    AllFree-are_free (primary_index name t.primary_key) c.relations free.primary,
    AllFree-are_free (unique_indexes name t.uniques) c.relations free.uniques,
  )

  abbrev pub table_created :
      (can_create ≡ true) ⊎ (can_create ≡ false) → Result (Unit {0}) × Catalog
  table_created (inr taken) = (err db_failure, c)
  table_created (inl free) = (
    ok tt,
    record {
      relations = with_table name t c.relations;
      index_table = with_table-IsClosed name t c.relations c.index_table (can_create-IsFree free);
    },
  )

  pub table_created_lem :
      (free : (can_create ≡ true) ⊎ (can_create ≡ false))
      → IsFree name t c.relations
      → (c' : Catalog) × (table_created free ≡ (ok tt, c'))
        × ((i : Text) → c'.relations i ≡ with_table name t c.relations i)
  table_created_lem (inl free) h = ((table_created (inl free)).1, refl, λ i. refl)
  table_created_lem (inr taken) h = absurd (ground (arith, IsFree-can_create h))

abbrev create_table : Text → Table → Exec Catalog (Unit {0})
create_table name t c = table_created name t c (Bool-cases (can_create name t c))

module _ (name on : Text) (columns : List Text) (c : Catalog) where
  abbrev index_created :
      (is_free (c.relations name) ≡ true) ⊎ (is_free (c.relations name) ≡ false)
      → (is_table (c.relations on) ≡ true) ⊎ (is_table (c.relations on) ≡ false)
      → Result (Unit {0}) × Catalog
  index_created (inl free) (inl there) = (
    ok tt,
    record {
      relations = with_relation name (some (index on columns)) c.relations;
      index_table =
          created_index-IsClosed name on columns c.relations c.index_table (free-no_table _ free)
            there;
    },
  )
  index_created (inl free) (inr absent) = (err db_failure, c)
  index_created (inr taken) _ = (err db_failure, c)

  pub created_index_lem :
      (free : (is_free (c.relations name) ≡ true) ⊎ (is_free (c.relations name) ≡ false))
      (there : (is_table (c.relations on) ≡ true) ⊎ (is_table (c.relations on) ≡ false))
      → c.relations name ≡ none
      → is_table (c.relations on) ≡ true
      → (c' : Catalog) × (index_created free there ≡ (ok tt, c'))
        × ((i : Text) → c'.relations i ≡ with_relation name (some (index on columns)) c.relations i)
  created_index_lem (inl free) (inl there) h t =
      ((index_created (inl free) (inl there)).1, refl, λ i. refl)
  created_index_lem (inl free) (inr absent) h t = absurd (ground arith)
  created_index_lem (inr taken) there h t = absurd (ground arith)

module _ (name : Text) (c : Catalog) where
  abbrev index_dropped :
      (is_index (c.relations name) ≡ true) ⊎ (is_index (c.relations name) ≡ false)
      → Result (Unit {0}) × Catalog
  index_dropped (inr absent) = (err db_failure, c)
  index_dropped (inl there) = (
    ok tt,
    record {
      relations = with_relation name none c.relations;
      index_table = dropped_index-IsClosed name c.relations c.index_table there;
    },
  )

  pub dropped_index_lem :
      (on : Text) (columns : List Text)
      (there : (is_index (c.relations name) ≡ true) ⊎ (is_index (c.relations name) ≡ false))
      → c.relations name ≡ some (index on columns)
      → (c' : Catalog) × (index_dropped there ≡ (ok tt, c'))
        × ((i : Text) → c'.relations i ≡ with_relation name none c.relations i)
  dropped_index_lem on columns (inl there) h = ((index_dropped (inl there)).1, refl, λ i. refl)
  dropped_index_lem on columns (inr absent) h = absurd (ground arith)

abbrev create_index : Text → Text → List Text → Exec Catalog (Unit {0})
create_index name on columns c =
    index_created name on columns c (Bool-cases (is_free (c.relations name)))
      (Bool-cases (is_table (c.relations on)))

abbrev drop_index : Text → Text → Exec Catalog (Unit {0})
drop_index name on c = index_dropped name c (Bool-cases (is_index (c.relations name)))

abbrev drop_table : Text → Exec Catalog (Unit {0})
drop_table name c =
    if is_table (c.relations name)
    then (
      ok tt,
      record {
        relations = without_table name c.relations;
        index_table = dropped_table-IsClosed name c.relations c.index_table;
      },
    )
    else (err db_failure, c)

pub drop_table_lem :
    (name : Text) (c : Catalog)
    → is_table (c.relations name) ≡ true
    → (c' : Catalog) × (drop_table name c ≡ (ok tt, c'))
      × ((i : Text) → c'.relations i ≡ without_table name c.relations i)
drop_table_lem name c there = ((drop_table name c).1, rw (there) refl, λ i. rw (there) refl)

-- It answers always, and refuses a name that is taken, or not there.
abbrev pub memory : Ddl
memory = record {
  Catalog = Catalog;
  relations = λ (c : Catalog). c.relations;
  create_table = create_table;
  create_index = create_index;
  drop_index = drop_index;
  drop_table = drop_table;
  index_table = λ (c : Catalog). c.index_table;
  create_table_lem = λ name t c. table_created_lem name t c _;
  create_index_lem = λ name on columns c. created_index_lem name on columns c _ _;
  drop_index_lem = λ name on columns c. dropped_index_lem name c on columns _;
  drop_table_lem = drop_table_lem;
}
