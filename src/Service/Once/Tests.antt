-- ===== src/Service/Once/Tests.antt =====
-- The theorems on histories at a concrete one: two requests with a key, a callback and a crash.
use daraja_payment_wrapper.Prelude.{codes, refl, none, List, [], ◌∷◌, arith}
use daraja_payment_wrapper.Service.Once.Ledger.{Entry, unspent, Moves}
use daraja_payment_wrapper.Service.Once.History.{
  Event, requested, called_back, queried, session_ended, redis_changed, happen_all, charges,
  Describes,
}
use daraja_payment_wrapper.Service.Once.History.Refines.{history_refines}
use daraja_payment_wrapper.Service.Sample.{env, rejecting, request, fresh, callback, server}

-- Redis loses everything between the two requests.
abbrev events : List (Event env)
events =
    requested request
    ∷ redis_changed (server (λ k. none))
    ∷ session_ended
    ∷ called_back callback
    ∷ requested (record request { account_reference = codes "INV-2" })
    ∷ queried (codes "id-0")
    ∷ []

history_refines_example :
    (l : Entry) × Moves 1 unspent
      (charges env (λ n. n) rejecting (codes "order-00001") events fresh)
      l
    × Describes env l (codes "order-00001") (happen_all env rejecting events fresh)
history_refines_example =
    history_refines env (λ n. n) 1 rejecting (λ a w. refl) (λ a w. omega arith)
      (codes "order-00001") unspent events fresh tt
