-- ===== src/Tasks/Celery/Delivered.antt =====
-- Where the tasks go.
use daraja_payment_wrapper.Prelude.{
  Text, codes, text_eq, starts_with, ◌≡◌, refl, false, inl, inr, Bool-cases, [], ◌∷◌,
}
use daraja_payment_wrapper.Tasks.Celery.{queues, task_routes, queue_of, delivered}

-- Every task, whatever its name, is delivered to one queue, once: that of its route, which is not the
-- queue of the dead letters.
pub delivered_once :
    (task : Text)
    → (delivered task ≡ queue_of task ∷ [])
      × (text_eq (queue_of task) (codes "dead_letter") ≡ false)
unfolding delivered queue_of queues task_routes
delivered_once task = elim (Bool-cases (starts_with task (codes "app.tasks.stk_tasks."))) [
  | inl a ↦ rw (a) (refl, refl)
  | inr a ↦ elim (Bool-cases (starts_with task (codes "app.tasks.c2b_tasks."))) [
    | inl b ↦ rw (a, b) (refl, refl)
    | inr b ↦ elim (Bool-cases (starts_with task (codes "app.tasks.reconciliation_tasks."))) [
      | inl c ↦ rw (a, b, c) (refl, refl)
      | inr c ↦ rw (a, b, c) (refl, refl)
    ]
  ]
]
