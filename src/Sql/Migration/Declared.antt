-- ===== src/Sql/Migration/Declared.antt =====
-- The migration against the models.
use mathlib.Core.List.{Perm}
use mathlib.Core.List.Perm
use daraja_payment_wrapper.Prelude.{
  Text, text_eq, any, ◌≡◌, Bool, false, Option, some, List, [], ◌∷◌, ◌++◌, refl, ◌∙◌, inl, inr,
  Bool-cases,
}
use daraja_payment_wrapper.Errors.{ok}
use daraja_payment_wrapper.Sql.{Table, Relation, table, index}
use daraja_payment_wrapper.Sql.Models.{payment_relations, audit_relations}
use daraja_payment_wrapper.Sql.Ddl.{Ddl, Relations, primary_index, unique_indexes, with_table}
use daraja_payment_wrapper.Sql.Ddl.Tables.{AllDiffer, with_indexes_elsewhere}
use daraja_payment_wrapper.Sql.Migration.{
  Operation, create_table, create_index, drop_index, drop_table, perform_all, upgrade,
}
use daraja_payment_wrapper.Sql.Migration.Undo.{
  AreFree, upgrade_creates, CreateAll, create_all, applied, applied_all,
}

-- The same columns in the same order, and the same constraints, those of the unique columns in any
-- order.
abbrev pub AgreeTables : Table → Table → Type 0
AgreeTables t t' =
    (t.columns ≡ t'.columns)
    × (t.primary_key ≡ t'.primary_key)
    × (t.checks ≡ t'.checks)
    × Perm t.uniques t'.uniques

abbrev pub Agree : Option Relation → Relation → Type 0
Agree (some (table t)) (table t') = AgreeTables t t'
Agree (some (index on columns)) (index on' columns') = (on ≡ on') × (columns ≡ columns')
Agree _ _ = ⊥

abbrev pub HoldsAll : Relations → List (Text × Relation) → Type 0
HoldsAll rel [] = Unit {0}
HoldsAll rel ((name, r) ∷ declared) = Agree (rel name) r × HoldsAll rel declared

abbrev pub index_names : List (Text × List Text) → List Text → List Text
index_names [] rest = rest
index_names ((name, columns) ∷ indexes) rest = name ∷ index_names indexes rest

-- The names of a table and of the indexes of its constraints.
abbrev pub table_names : Text → Table → List Text → List Text
table_names name t rest =
    name
    ∷ index_names (primary_index name t.primary_key)
        (index_names (unique_indexes name t.uniques) rest)

abbrev pub names : List (Text × Relation) → List Text
names [] = []
names ((name, table t) ∷ declared) = table_names name t (names declared)
names ((name, index on columns) ∷ declared) = name ∷ names declared

abbrev pub is_declared : Text → List (Text × Relation) → Bool
is_declared i declared = any (λ name. text_eq name i) (names declared)

upgrade_holds :
    (rel : Relations) → HoldsAll (applied_all upgrade rel) (audit_relations ++ payment_relations)
unfolding upgrade
upgrade_holds rel = (
  (refl, refl, refl, Perm.refl []),
  (
    (refl, refl),
    (
      (refl, refl),
      (
        (refl, refl),
        (
          (refl, refl, refl, Perm.swap _ _ []),
          (
            (refl, refl),
            ((refl, refl), ((refl, refl), ((refl, refl), ((refl, refl), ((refl, refl), tt))))),
          ),
        ),
      ),
    ),
  ),
)

-- The name is none of these.
abbrev NoneIs : Text → List Text → Type 0
NoneIs i [] = Unit {0}
NoneIs i (name ∷ names) = (text_eq name i ≡ false) × NoneIs i names

any-NoneIs : (i : Text) (ns : List Text) → any (λ n. text_eq n i) ns ≡ false → NoneIs i ns
any-NoneIs i [] h = tt
any-NoneIs i (n ∷ ns) h = elim (Bool-cases (text_eq n i)) [
  | inl same ↦ cc (rw (same) at h)
  | inr differ ↦ (differ, any-NoneIs i ns (rw (differ) at h))
]

index_names-AllDiffer :
    (i : Text) (indexes : List (Text × List Text)) (rest : List Text)
    → NoneIs i (index_names indexes rest)
    → AllDiffer i indexes × NoneIs i rest
index_names-AllDiffer i [] rest h = (tt, h)
index_names-AllDiffer i ((name, columns) ∷ indexes) rest (h, hs) =
    let (differ, others) = index_names-AllDiffer i indexes rest hs in ((h, differ), others)

with_table_elsewhere :
    (name : Text) (t : Table) (rel : Relations) (i : Text) (rest : List Text)
    → NoneIs i (table_names name t rest)
    → (with_table name t rel i ≡ rel i) × NoneIs i rest
with_table_elsewhere name t rel i rest (n, ns) =
    let (primary, others) = index_names-AllDiffer i (primary_index name t.primary_key) _ ns in
    let (uniques, last) = index_names-AllDiffer i (unique_indexes name t.uniques) rest others in
    (
      with_indexes_elsewhere name (primary_index name t.primary_key) _ i primary
          ∙ with_indexes_elsewhere name (unique_indexes name t.uniques) _ i uniques
          ∙ rw n refl,
      last,
    )

abbrev names_of : List Operation → List Text
names_of [] = []
names_of (create_table name t ∷ os) = table_names name t (names_of os)
names_of (create_index name on columns ∷ os) = name ∷ names_of os
names_of (_ ∷ os) = names_of os

applied_all_leaves :
    (os : List Operation) (rel : Relations) (i : Text)
    → CreateAll os rel
    → NoneIs i (names_of os)
    → applied_all os rel i ≡ rel i
applied_all_leaves [] rel i h n = refl
applied_all_leaves (create_table name t ∷ os) rel i (h, hs) n =
    let (same, ns) = with_table_elsewhere name t rel i (names_of os) n in
    applied_all_leaves os (applied (create_table name t) rel) i hs ns ∙ same
applied_all_leaves (create_index name on columns ∷ os) rel i (h, hs) (n, ns) =
    applied_all_leaves os (applied (create_index name on columns) rel) i hs ns ∙ rw (n) refl
applied_all_leaves (drop_index name on ∷ os) rel i (h, hs) n = absurd h
applied_all_leaves (drop_table name ∷ os) rel i (h, hs) n = absurd h

upgrade_leaves :
    (rel : Relations) (i : Text)
    → AreFree rel
    → is_declared i (audit_relations ++ payment_relations) ≡ false
    → applied_all upgrade rel i ≡ rel i
unfolding upgrade
upgrade_leaves rel i free h =
    let (
      a,
      (
        ak,
        (
          a_payment,
          (
            a_event,
            (
              a_created,
              (
                p,
                (
                  pk,
                  (
                    ik,
                    (
                      ck,
                      (
                        p_checkout,
                        (p_status, (p_phone, (p_receipt, (p_created, (p_status_created, end))))),
                      ),
                    ),
                  ),
                ),
              ),
            ),
          ),
        ),
      ),
    ) =
      any-NoneIs i (names (audit_relations ++ payment_relations)) h in
    applied_all_leaves upgrade rel i (upgrade_creates rel free) (
      a,
      (
        ak,
        (
          a_created,
          (
            a_event,
            (
              a_payment,
              (
                p,
                (
                  pk,
                  (
                    ck,
                    (
                      ik,
                      (
                        p_checkout,
                        (p_created, (p_receipt, (p_phone, (p_status, (p_status_created, tt))))),
                      ),
                    ),
                  ),
                ),
              ),
            ),
          ),
        ),
      ),
    )

module _ (op : Ddl) where
  -- On a database where none of its names is taken, `upgrade` runs; every table and index that the
  -- models declare is then there as they declare it, and every other relation is what it was, but for
  -- the indexes of the primary keys and of the UNIQUE constraints.
  pub upgrade_declares :
      (c : op.Catalog)
      → AreFree (op.relations c)
      → (c' : op.Catalog) × (perform_all op upgrade c ≡ (ok tt, c'))
        × HoldsAll (op.relations c') (audit_relations ++ payment_relations)
        × ((i : Text)
            → is_declared i (audit_relations ++ payment_relations) ≡ false
            → op.relations c' i ≡ op.relations c i)
  upgrade_declares c free =
      let (c', ran, rel) = create_all op upgrade c (upgrade_creates (op.relations c) free) in
      (
        c',
        ran,
        rw (rel) (upgrade_holds (op.relations c)),
        λ i new. rw (rel) (upgrade_leaves (op.relations c) i free new),
      )
