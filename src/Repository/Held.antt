-- ===== src/Repository/Held.antt =====
-- A key that a payment holds for good: it is in a row that the session sees and that is committed.
-- Every statement of the repository keeps it so, whether it returns or raises.
use mathlib.Core.Option
use daraja_payment_wrapper.Prelude.{
  ℕ, Text, text_eq, text_eq_iff, ◌≡◌, ◌⊎◌, inl, inr, sym, refl, subst, ◌∙◌, Bool-cases, Option,
  none, some, arith,
}
use daraja_payment_wrapper.Prelude.Int.{ℤ}
use daraja_payment_wrapper.Exec.{Result-cases}
use daraja_payment_wrapper.Exec.Keeps.{Keeps, Keeps-bind, Keeps-pure}
use daraja_payment_wrapper.Payment.{Payment, Decimal}
use daraja_payment_wrapper.Json.{Value}
use daraja_payment_wrapper.Repository.{
  create, get_by_id, get_by_idempotency_key, get_by_checkout_request_id, update_daraja_ids,
  mark_completed, mark_failed, daraja_values, completed_values, failed_values, paid_value,
  bind_text,
}
use daraja_payment_wrapper.Database.{Database, Raised}

abbrev pub HasKey : Text → Option Payment → Type 0
HasKey k none = ⊥
HasKey k (some p) = p.idempotency_key ≡ k

HasKey-map :
    (k : Text) (f : Payment → Payment) (o : Option Payment)
    → ((p : Payment) → (f p).idempotency_key ≡ p.idempotency_key)
    → HasKey k o
    → HasKey k (Option.map f o)
HasKey-map k f none keep h = absurd h
HasKey-map k f (some p) keep h = keep p ∙ h

pub HasKey-some :
    (k : Text) (o : Option Payment)
    → HasKey k o
    → (p : Payment) × (o ≡ some p) × (p.idempotency_key ≡ k)
HasKey-some k none h = absurd h
HasKey-some k (some p) h = (p, refl, h)

module _ (pg : Database) (k : Text) where
  pub record Held (s : pg.Session) : Type 0 where
    pub id : Text
    pub seen : HasKey k (pg.row s id)
    pub saved : HasKey k (pg.durable s id)

  along :
      (s s' : pg.Session) (i : Text)
      → ((pg.row s' i ≡ pg.row s i) ⊎ (pg.row s' i ≡ pg.durable s i))
      → ((pg.durable s' i ≡ pg.durable s i) ⊎ (pg.durable s' i ≡ pg.row s i))
      → HasKey k (pg.row s i)
      → HasKey k (pg.durable s i)
      → Held s'
  along s s' i a b h h' = record {
    id = i;
    seen = elim a [ inl e ↦ subst (HasKey k) (sym e) h | inr e ↦ subst (HasKey k) (sym e) h' ];
    saved = elim b [ inl e ↦ subst (HasKey k) (sym e) h' | inr e ↦ subst (HasKey k) (sym e) h ];
  }

  Raised-Held : (s s' : pg.Session) → Raised pg.row pg.durable s s' → Held s → Held s'
  Raised-Held s s' r h = along s s' h.id (r h.id).0 (inl (r h.id).1) h.seen h.saved

  same-Held :
      (s s' : pg.Session)
      → ((j : Text) → pg.row s' j ≡ pg.row s j) × ((j : Text) → pg.durable s' j ≡ pg.durable s j)
      → Held s
      → Held s'
  same-Held s s' r h = along s s' h.id (inl (r.0 h.id)) (inl (r.1 h.id)) h.seen h.saved

  select_by_id-Held : (i : Text) → Keeps Held (pg.select_by_id i)
  select_by_id-Held i = record {
    at = λ s h. elim (Result-cases (pg.select_by_id i s).0) [
      | inl (o, e) ↦
          let (same, rows, saved) =
            pg.select_by_id_ok i s (pg.select_by_id i s).1 o (ground arith) in
          same-Held s (pg.select_by_id i s).1 (rows, saved) h
      | inr (x, e) ↦ Raised-Held s _ (pg.select_by_id_err i s _ x (ground arith)) h
    ];
  }

  pub get_by_id-Held : (i : Text) → Keeps Held (get_by_id pg i)
  unfolding get_by_id
  get_by_id-Held i = Keeps-bind _ _ (select_by_id-Held i) (λ o. Keeps-pure _)

  pub get_by_idempotency_key-Held : (i : Text) → Keeps Held (get_by_idempotency_key pg i)
  unfolding get_by_idempotency_key
  get_by_idempotency_key-Held i = record {
    at = λ s h. elim (Result-cases (pg.select_by_idempotency_key i s).0) [
      | inl (o, e) ↦ same-Held s _ (pg.select_key_keeps i s _ o (ground arith)) h
      | inr (x, e) ↦ Raised-Held s _ (pg.select_key_err i s _ x (ground arith)) h
    ];
  }

  pub get_by_checkout_request_id-Held : (i : Text) → Keeps Held (get_by_checkout_request_id pg i)
  unfolding get_by_checkout_request_id
  get_by_checkout_request_id-Held i = record {
    at = λ s h. elim (Result-cases (pg.select_by_checkout_request_id i s).0) [
      | inl (o, e) ↦ same-Held s _ (pg.select_checkout_keeps i s _ o (ground arith)) h
      | inr (x, e) ↦ Raised-Held s _ (pg.select_checkout_err i s _ x (ground arith)) h
    ];
  }

  pub commit-Held : Keeps Held pg.commit
  commit-Held = record {
    at = λ s h. elim (Result-cases (pg.commit s).0) [
      | inl (u, e) ↦
          let done = pg.commit_ok s (pg.commit s).1 (ground arith) in
          along s _ h.id (inl (done.0 h.id)) (inr (done.1 h.id)) h.seen h.saved
      | inr (x, e) ↦
          let doubt = pg.commit_err s (pg.commit s).1 x (ground arith) in
          along s _ h.id (doubt h.id).0 (doubt h.id).1 h.seen h.saved
    ];
  }

  pub rollback-Held : Keeps Held pg.rollback
  rollback-Held = record {
    at = λ s h. elim (Result-cases (pg.rollback s).0) [
      | inl (u, e) ↦
          let done = pg.rollback_ok s (pg.rollback s).1 (ground arith) in
          along s _ h.id (inr (done.0 h.id)) (inl (done.1 h.id)) h.seen h.saved
      | inr (x, e) ↦ Raised-Held s _ (pg.rollback_err s _ x (ground arith)) h
    ];
  }

  pub create-Held : (p : Payment) → Keeps Held (create pg p)
  unfolding create
  create-Held p = record {
    at = λ s h. elim (Result-cases (pg.insert p s).0) [
      | inl (u, e) ↦
          let s' = (pg.insert p s).1 in
          let done = pg.insert_ok p s s' (ground arith) in
          let (fresh, unique) = pg.insert_unique p s s' (ground arith) in
          let (q, there, key) = HasKey-some k (pg.row s h.id) h.seen in
          along s s' h.id (inl (done.0 h.id ∙ ground (arith, text_eq_iff p.id h.id)))
            (inl (done.1 h.id)) h.seen h.saved
      | inr (x, e) ↦ Raised-Held s _ (pg.insert_err p s _ x (ground arith)) h
    ];
  }

  update-Held :
      (i : Text) (f : Payment → Payment)
      → ((p : Payment) → (f p).id ≡ p.id)
      → ((p : Payment) → (f p).idempotency_key ≡ p.idempotency_key)
      → Keeps Held (pg.update i f)
  update-Held i f id key = record {
    at = λ s h. elim (Result-cases (pg.update i f s).0) [
      | inl (u, e) ↦
          let done = pg.update_ok i f s (pg.update i f s).1 id (ground arith) in
          record {
            id = h.id;
            seen = subst (HasKey k) (sym (done.0 h.id)) (elim (Bool-cases (text_eq i h.id)) [
              | inl e ↦ rw e (HasKey-map k f (pg.row s h.id) key h.seen)
              | inr e ↦ rw e h.seen
            ]);
            saved = subst (HasKey k) (sym (done.1 h.id)) h.saved;
          }
      | inr (x, e) ↦ Raised-Held s _ (pg.update_err i f s _ x (ground arith)) h
    ];
  }

  pub update_daraja_ids-Held : (i c m : Text) → Keeps Held (update_daraja_ids pg i c m)
  unfolding update_daraja_ids daraja_values
  update_daraja_ids-Held i c m = record {
    at = λ s h. (update-Held i (daraja_values c m (pg.utcnow s)) (λ p. refl) (λ p. refl)).at s h;
  }

  pub mark_failed-Held : (i reason : Text) (code : ℤ) → Keeps Held (mark_failed pg i reason code)
  unfolding mark_failed failed_values
  mark_failed-Held i reason code = record {
    at = λ s h.
        (update-Held i (failed_values reason code (pg.utcnow s)) (λ p. refl) (λ p. refl)).at s h;
  }

  pub mark_completed-Held :
      (decimal : Text → Option Decimal) (i : Text) (receipt amount : Value) (date : Option ℕ)
      → Keeps Held (mark_completed pg decimal i receipt amount date)
  unfolding mark_completed completed_values
  mark_completed-Held decimal i receipt amount date = record {
    at = λ s h. elim (Result-cases (paid_value decimal amount)) [
      | inr (x, e) ↦ rw (e, mark_completed) h
      | inl (paid, e) ↦ elim (Result-cases (bind_text receipt)) [
        | inr (x, e') ↦ rw (e, e', mark_completed) h
        | inl (text, e') ↦
            rw (e, e', mark_completed)
              ((update-Held i (completed_values text paid date (pg.utcnow s)) (λ p. refl)
                  (λ p. refl)).at
                s h)
      ]
    ];
  }
