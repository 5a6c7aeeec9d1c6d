-- ===== src/Sql/Migration/Undo.antt =====
-- A migration whose downgrade takes back the operations of its upgrade, the last one first.
use mathlib.Core.Path.{fun_ext}
use daraja_payment_wrapper.Prelude.{
  Text, text_eq_iff, text_eq_refl, ◌≡◌, true, none, some, List, [], ◌∷◌, ◌++◌, refl, sym, ◌∙◌,
  subst, ap, inl, inr, Option-cases, arith, codes,
}
use daraja_payment_wrapper.Errors.{ok}
use daraja_payment_wrapper.Sql.{Table, Relation, table, index}
use daraja_payment_wrapper.Sql.Ddl.{
  Ddl, Relations, is_table, with_relation, without_table, primary_index, unique_indexes, with_table,
  IsFree,
}
use daraja_payment_wrapper.Sql.Ddl.Tables.{with_table_itself, without-with_indexes}
use daraja_payment_wrapper.Sql.Migration.{
  Operation, create_table, create_index, drop_index, drop_table, perform, perform_all, upgrade,
  downgrade,
}

-- What an operation makes of the relations.
abbrev pub applied : Operation → Relations → Relations
applied (create_table name t) rel = with_table name t rel
applied (create_index name on columns) rel = with_relation name (some (index on columns)) rel
applied (drop_index name on) rel = with_relation name none rel
applied (drop_table name) rel = without_table name rel

-- The operation creates something, and can.
abbrev pub Creates : Operation → Relations → Type 0
Creates (create_table name t) rel = IsFree name t rel
Creates (create_index name on columns) rel = (rel name ≡ none) × (is_table (rel on) ≡ true)
Creates (drop_index name on) rel = ⊥
Creates (drop_table name) rel = ⊥

abbrev pub CreateAll : List Operation → Relations → Type 0
CreateAll [] rel = Unit {0}
CreateAll (o ∷ os) rel = Creates o rel × CreateAll os (applied o rel)

abbrev pub applied_all : List Operation → Relations → Relations
applied_all [] rel = rel
applied_all (o ∷ os) rel = applied_all os (applied o rel)

abbrev pub undo : Operation → Operation
undo (create_table name t) = drop_table name
undo (create_index name on columns) = drop_index name on
undo o = o

abbrev pub undo_all : List Operation → List Operation
undo_all [] = []
undo_all (o ∷ os) = undo_all os ++ (undo o ∷ [])

-- None of the names that `upgrade` creates is taken, those of the constraints' indexes included.
abbrev pub AreFree : Relations → Type 0
AreFree rel =
    (rel (codes "payment_audit_log") ≡ none)
    × (rel (codes "ix_audit_created_at") ≡ none)
    × (rel (codes "ix_audit_event_type") ≡ none)
    × (rel (codes "ix_audit_payment_id") ≡ none)
    × (rel (codes "payments") ≡ none)
    × (rel (codes "ix_payments_checkout_request_id") ≡ none)
    × (rel (codes "ix_payments_created_at") ≡ none)
    × (rel (codes "ix_payments_mpesa_receipt") ≡ none)
    × (rel (codes "ix_payments_phone") ≡ none)
    × (rel (codes "ix_payments_status") ≡ none)
    × (rel (codes "ix_payments_status_created_at") ≡ none)
    × (rel (codes "payment_audit_log_pkey") ≡ none)
    × (rel (codes "payments_pkey") ≡ none)
    × (rel (codes "payments_checkout_request_id_key") ≡ none)
    × (rel (codes "payments_idempotency_key_key") ≡ none)

pub upgrade_creates : (rel : Relations) → AreFree rel → CreateAll upgrade rel
unfolding upgrade
upgrade_creates rel (a, a1, a2, a3, p, p1, p2, p3, p4, p5, p6, ak, pk, ck, ik) = (
  record { itself = a; primary = (ak, tt); uniques = tt },
  (
    (a1, refl),
    (
      (a2, refl),
      (
        (a3, refl),
        (
          record { itself = p; primary = (pk, tt); uniques = (ck, (ik, tt)) },
          ((p1, refl), ((p2, refl), ((p3, refl), ((p4, refl), ((p5, refl), ((p6, refl), tt)))))),
        ),
      ),
    ),
  ),
)

downgrade-undo_all : downgrade ≡ undo_all upgrade
unfolding upgrade downgrade
downgrade-undo_all = refl

module _ (op : Ddl) where
  -- The operations run, and leave these relations.
  abbrev pub Leaves : List Operation → op.Catalog → Relations → Type 0
  Leaves os c rel =
      (c' : op.Catalog) × (perform_all op os c ≡ (ok tt, c')) × (op.relations c' ≡ rel)

  perform-Creates :
      (o : Operation) (c : op.Catalog)
      → Creates o (op.relations c)
      → (c' : op.Catalog) × (perform op o c ≡ (ok tt, c'))
        × (op.relations c' ≡ applied o (op.relations c))
  unfolding perform
  perform-Creates (create_table name t) c free =
      let (c', ran, rel) = op.create_table_lem name t c free in (c', ran, fun_ext rel)
  perform-Creates (create_index name on columns) c (free, there) =
      let (c', ran, rel) = op.create_index_lem name on columns c free there in
      (c', ran, fun_ext rel)
  perform-Creates (drop_index name on) c h = absurd h
  perform-Creates (drop_table name) c h = absurd h

  perform_all-cons :
      (o : Operation) (os : List Operation) (c c' : op.Catalog)
      → perform op o c ≡ (ok tt, c')
      → perform_all op (o ∷ os) c ≡ perform_all op os c'
  unfolding perform_all
  perform_all-cons o os c c' ran = ground arith

  perform_all-append :
      (os os' : List Operation) (c c' : op.Catalog)
      → perform_all op os c ≡ (ok tt, c')
      → perform_all op (os ++ os') c ≡ perform_all op os' c'
  unfolding perform_all
  perform_all-append [] os' c c' ran = ground arith
  perform_all-append (o ∷ os) os' c c' ran =
      ground (arith, perform_all-append os os' (perform op o c).1 c')

  pub create_all :
      (os : List Operation) (c : op.Catalog)
      → CreateAll os (op.relations c)
      → Leaves os c (applied_all os (op.relations c))
  unfolding perform_all
  create_all [] c h = (c, refl, refl)
  create_all (o ∷ os) c (h, hs) =
      let (c', ran, rel) = perform-Creates o c h in
      let (c'', rans, rels) = create_all os c' (subst (CreateAll os) (sym rel) hs) in
      (c'', perform_all-cons o os c c' ran ∙ rans, rels ∙ ap (applied_all os) rel)

  -- No index is left of a table that is not there.
  without-with_relation :
      (name : Text) (t : Table) (c : op.Catalog)
      → op.relations c name ≡ none
      → (i : Text)
      → without_table name (with_relation name (some (table t)) (op.relations c)) i
        ≡ op.relations c i
  without-with_relation name t c free i = elim (Option-cases (op.relations c i)) [
    | inl absent ↦ ground arith
    | inr (table t', there) ↦ ground (arith, text_eq_iff name i)
    | inr (index on columns, there) ↦
        ground (arith, text_eq_iff name i, text_eq_iff on name, op.index_table c i on columns there)
  ]

  without-with_table :
      (name : Text) (t : Table) (c : op.Catalog)
      → IsFree name t (op.relations c)
      → (i : Text) → without_table name (with_table name t (op.relations c)) i ≡ op.relations c i
  without-with_table name t c free =
      without-with_indexes name (primary_index name t.primary_key) _ (op.relations c) free.primary (
        without-with_indexes name (unique_indexes name t.uniques) _ (op.relations c) free.uniques
          (without-with_relation name t c free.itself))

  with_relation_twice :
      (name : Text) (r : Relation) (rel : Relations)
      → rel name ≡ none
      → (i : Text) → with_relation name none (with_relation name (some r) rel) i ≡ rel i
  with_relation_twice name r rel free i = ground (arith, text_eq_iff name i)

  perform-undo :
      (o : Operation) (c c' : op.Catalog)
      → Creates o (op.relations c)
      → op.relations c' ≡ applied o (op.relations c)
      → (c'' : op.Catalog) × (perform op (undo o) c' ≡ (ok tt, c''))
        × (op.relations c'' ≡ op.relations c)
  unfolding perform
  perform-undo (create_table name t) c c' free same =
      let there : is_table (op.relations c' name) ≡ true =
        rw same (ap is_table (with_table_itself name t (op.relations c))) in
      let (c'', ran, rel) = op.drop_table_lem name c' there in
      (c'', ran, fun_ext (λ i. rel i ∙ rw (same) (without-with_table name t c free i)))
  perform-undo (create_index name on columns) c c' (free, there) same =
      let made : op.relations c' name ≡ some (index on columns) =
        rw (same, text_eq_refl name) refl in
      let (c'', ran, rel) = op.drop_index_lem name on columns c' made in
      (
        c'',
        ran,
        fun_ext (λ i.
            rel i
            ∙ rw (same) (with_relation_twice name (index on columns) (op.relations c) free i)),
      )
  perform-undo (drop_index name on) c c' h same = absurd h
  perform-undo (drop_table name) c c' h same = absurd h

  undo_creations :
      (os : List Operation) (c c' : op.Catalog)
      → CreateAll os (op.relations c)
      → op.relations c' ≡ applied_all os (op.relations c)
      → Leaves (undo_all os) c' (op.relations c)
  unfolding perform_all
  undo_creations [] c c' h same = (c', refl, same)
  undo_creations (o ∷ os) c c' (h, hs) same =
      let (c1, ran1, rel1) = perform-Creates o c h in
      let (c2, ran2, rel2) =
        undo_creations os c1 c' (subst (CreateAll os) (sym rel1) hs)
          (same ∙ ap (applied_all os) (sym rel1)) in
      let (c3, ran3, rel3) = perform-undo o c c2 h (rel2 ∙ rel1) in
      (
        c3,
        perform_all-append (undo_all os) (undo o ∷ []) c' c2 ran2
            ∙ perform_all-cons (undo o) [] c2 c3 ran3,
        rel3,
      )

  -- On a database where none of its names is taken, `upgrade` runs, `downgrade` runs after it, and the
  -- tables and indexes are then what they were.
  pub downgrade-upgrade :
      (c : op.Catalog)
      → AreFree (op.relations c)
      → (c' : op.Catalog) × (perform_all op upgrade c ≡ (ok tt, c'))
        × (c'' : op.Catalog) × (perform_all op downgrade c' ≡ (ok tt, c''))
        × (op.relations c'' ≡ op.relations c)
  downgrade-upgrade c free =
      let creates = upgrade_creates (op.relations c) free in
      let (c', ran, rel) = create_all upgrade c creates in
      let (c'', ran', rel') = undo_creations upgrade c c' creates rel in
      (c', ran, c'', rw downgrade-undo_all ran', rel')
