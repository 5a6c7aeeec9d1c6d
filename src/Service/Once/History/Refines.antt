-- ===== src/Service/Once/History/Refines.antt =====
-- Every history keeps to the ledger: a key is spent once at most.
use daraja_payment_wrapper.Prelude.{
  ℕ, ◌+◌, ◌≤◌, Text, text_eq, text_eq_iff, ◌≡◌, refl, sym, subst, inl, inr, List, [], ◌∷◌,
  Bool-cases, arith,
}
use daraja_payment_wrapper.Schemas.{StkPushInitiateRequest}
use daraja_payment_wrapper.Repository.Held.{Held, rollback-Held}
use daraja_payment_wrapper.Daraja.Stk.{StkArgs}
use daraja_payment_wrapper.Service.{Environment, World, Initiator}
use daraja_payment_wrapper.Service.Once.Outcome.{initiate-Held, initiate_spends, initiate_quiet}
use daraja_payment_wrapper.Service.Once.Ledger.{
  Entry, unspent, spent, Move, Moves, idle, spend, done, next, Moves-within,
}
use daraja_payment_wrapper.Service.Once.History.{
  Event, requested, called_back, queried, session_ended, redis_changed, happen, happen_all, charged,
  charges, Describes,
}
use daraja_payment_wrapper.Service.Once.History.Kept.{
  process_callback-HeldIn, get_payment_status-HeldIn,
}

module _ (env : Environment) where
  open env use {database as pg}

  module _ (calls : env.Daraja → ℕ) (limit : ℕ) (f : Initiator env)
      (only_client : (a : StkArgs) (w : World env) → (f a w).1.db ≡ w.db)
      (once : (a : StkArgs) (w : World env) → calls (f a w).1.daraja ≤ calls w.daraja + limit)
      (k : Text) where
    Held-happens :
        (e : Event env) (w : World env) → Held pg k w.db → Held pg k (happen env f e w).db
    unfolding happen
    Held-happens (requested r) w h = initiate-Held env calls limit f only_client once r k w h
    Held-happens (called_back callback) w h = (process_callback-HeldIn env k callback).at w h
    Held-happens (queried i) w h = (get_payment_status-HeldIn env k i).at w h
    Held-happens session_ended w h = (rollback-Held pg k).at w.db h
    Held-happens (redis_changed s) w h = h

    Describes-happens :
        (l : Entry) (e : Event env) (w : World env)
        → Describes env l k w
        → Describes env l k (happen env f e w)
    Describes-happens unspent e w h = tt
    Describes-happens spent e w h = Held-happens e w h

    abbrev Refined : Entry → Event env → World env → Type 0
    Refined l e w =
        (l' : Entry) × Move limit l (charged env calls f k e w) l'
        × Describes env l' k (happen env f e w)

    unmoved :
        (l : Entry) (e : Event env) (w : World env)
        → Describes env l k w
        → charged env calls f k e w ≡ 0
        → Refined l e w
    unmoved l e w h free =
        (l, subst (λ n. Move limit l n l) (sym free) idle, Describes-happens l e w h)

    request_refines :
        (l : Entry) (r : StkPushInitiateRequest) (w : World env)
        → r.idempotency_key ≡ k
        → Describes env l k w
        → Refined l (requested r) w
    unfolding charged happen
    request_refines spent r w same h =
        let quiet =
          initiate_quiet env calls limit f only_client once r w
            (subst (λ t. Held pg t w.db) (sym same) h) in
        unmoved spent (requested r) w h
          (rw ((text_eq_iff r.idempotency_key k).1 same, charged) (omega (arith, quiet)))
    request_refines unspent r w same h =
        elim (initiate_spends env calls limit f only_client once r w) [
          | inl quiet ↦
              unmoved unspent (requested r) w h
                (rw ((text_eq_iff r.idempotency_key k).1 same, charged) (omega (arith, quiet)))
          | inr (held, within) ↦ (
            spent,
            rw ((text_eq_iff r.idempotency_key k).1 same, charged) (spend (omega (arith, within))),
            subst (λ t. Held pg t (happen env f (requested r) w).db) same held,
          )
        ]

    event_refines :
        (l : Entry) (e : Event env) (w : World env) → Describes env l k w → Refined l e w
    unfolding charged
    event_refines l (requested r) w h = elim (Bool-cases (text_eq r.idempotency_key k)) [
      | inl same ↦ request_refines l r w ((text_eq_iff r.idempotency_key k).0 same) h
      | inr other ↦ unmoved l (requested r) w h (rw (other, charged) refl)
    ]
    event_refines l (called_back callback) w h = unmoved l (called_back callback) w h refl
    event_refines l (queried i) w h = unmoved l (queried i) w h refl
    event_refines l session_ended w h = unmoved l session_ended w h refl
    event_refines l (redis_changed s) w h = unmoved l (redis_changed s) w h refl

    -- If the initiator leaves the database's session alone, and each call of it asks Daraja `limit`
    -- times at most, then every history of events refines the ledger entry of every key.
    pub history_refines :
        (l : Entry) (events : List (Event env)) (w : World env)
        → Describes env l k w
        → (l' : Entry) × Moves limit l (charges env calls f k events w) l'
          × Describes env l' k (happen_all env f events w)
    unfolding charges happen_all
    history_refines l [] w h = (l, done, h)
    history_refines l (e ∷ events) w h =
        let (l1, move, h1) = event_refines l e w h in
        let (l2, moves, h2) = history_refines l1 events (happen env f e w) h1 in
        (l2, next move moves, h2)

    -- Under the same conditions no history, however requests, callbacks, queries and crashes follow
    -- each other, and whatever Redis holds or loses, has more than `limit` requests to Daraja for a key.
    pub charges_within :
        (events : List (Event env)) (w : World env) → charges env calls f k events w ≤ limit
    charges_within events w =
        let (l, moves, h) = history_refines unspent events w tt in
        omega (arith, Moves-within limit moves)
