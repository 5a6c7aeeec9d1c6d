-- ===== src/Tasks/Celery.antt =====
-- app/tasks/celery.py: the queues and their routes, the schedule, and the handler of failed tasks. The
-- broker, and Celery's lookup of a route by the beginning of a task's name, are Celery's.
pub mod Delivered
pub mod DeadLetter
mod Tests
use daraja_payment_wrapper.Prelude.{
  ℕ, leb, Text, codes, text_eq, starts_with, any, Bool, true, false, ◌&&◌, ◌≡◌, Option, none, some,
  List, [], ◌∷◌, ◌++◌, if◌then◌else◌,
}
use daraja_payment_wrapper.Errors.{Error, Result, ok, err, type_error}
use daraja_payment_wrapper.Exec.{Exec, pure, ◌>>=◌}
use daraja_payment_wrapper.Json.{Value, str, other, Dict}

pub record Queue : Type 0 where
  pub name : Text
  pub exchange : Text
  pub routing_key : Text

-- `QUEUES`; every exchange is direct.
unfoldable pub queues : List Queue
queues =
    record { name = codes "default"; exchange = codes "default"; routing_key = codes "default" }
    ∷ record {
      name = codes "callbacks";
      exchange = codes "callbacks";
      routing_key = codes "callbacks";
    }
    ∷ record {
      name = codes "reconciliation";
      exchange = codes "default";
      routing_key = codes "reconciliation";
    }
    ∷ record {
      name = codes "dead_letter";
      exchange = codes "dead_letter";
      routing_key = codes "dead_letter";
    }
    ∷ []

-- The patterns of `task_routes`, each without the star at its end.
unfoldable pub task_routes : List (Text × Text)
task_routes =
    (codes "app.tasks.stk_tasks.", codes "callbacks")
    ∷ (codes "app.tasks.c2b_tasks.", codes "callbacks")
    ∷ (codes "app.tasks.reconciliation_tasks.", codes "reconciliation")
    ∷ []

abbrev pub first_route : List (Text × Text) → Text → Text
first_route [] task = codes "default"
first_route ((pattern, queue) ∷ routes) task =
    if starts_with task pattern then queue else first_route routes task

-- The name of the queue that a task is sent to.
unfoldable pub queue_of : Text → Text
unfolding task_routes
queue_of task = first_route task_routes task

-- The names of the queues that a direct exchange passes a message on to.
abbrev pub bound_queues : List Queue → Text → Text → List Text
bound_queues [] exchange key = []
bound_queues (q ∷ qs) exchange key =
    if text_eq q.exchange exchange && text_eq q.routing_key key
    then q.name ∷ bound_queues qs exchange key
    else bound_queues qs exchange key

-- A message for a queue goes to the exchange of the queue, with its key; without such a queue, nowhere.
abbrev pub publish : List Queue → List Queue → Text → List Text
publish all [] queue = []
publish all (q ∷ qs) queue =
    if text_eq q.name queue then bound_queues all q.exchange q.routing_key else publish all qs queue

unfoldable pub delivered : Text → List Text
unfolding queues
delivered task = publish queues queues (queue_of task)

-- The names of the tasks that the modules of the application declare.
abbrev pub registered : List Text
registered =
    codes "app.tasks.stk_tasks.process_stk_callback"
    ∷ codes "app.tasks.stk_tasks.initiate_stk_push_async"
    ∷ codes "app.tasks.reconciliation_tasks.expire_stale_pending_payments"
    ∷ []

-- The tasks of `beat_schedule`, with their periods in seconds.
abbrev pub beat_schedule : List (Text × ℕ)
beat_schedule =
    (codes "app.tasks.reconciliation_tasks.expire_stale_pending_payments", 300)
    ∷ (codes "app.tasks.reconciliation_tasks.check_account_balance", 3600)
    ∷ []

-- A message that waits in a queue.
pub record Message : Type 0 where
  pub task : Text
  pub kwargs : Dict
  pub queue : Text

abbrev pub Broker : Type 0
Broker = List Message

abbrev pub send_task : Text → Dict → Text → Exec Broker (Unit {0})
send_task task kwargs queue sent =
    (ok tt, sent ++ record { task = task; kwargs = kwargs; queue = queue } ∷ [])

-- The task that failed; `retries` is absent with its request.
pub record Sender : Type 0 where
  pub name : Text
  pub retries : Option ℕ
  pub max_retries : ℕ

pub record Failure : Type 0 where
  pub sender : Option Sender
  pub task_id : Value
  pub exception : Text
  pub has_args : Bool
  pub kwargs : Option Dict

abbrev pub retries_of : Option Sender → ℕ
retries_of none = 0
retries_of (some s) = elim s.retries [ none ↦ 0 | some n ↦ n ]

abbrev pub max_retries_of : Option Sender → ℕ
max_retries_of none = 3
max_retries_of (some s) = s.max_retries

abbrev pub name_of : Option Sender → Text
name_of none = codes "unknown"
name_of (some s) = s.name

abbrev pub has_kwargs : Option Dict → Bool
has_kwargs none = false
has_kwargs (some []) = false
has_kwargs (some (_ ∷ _)) = true

abbrev pub original : Failure → Dict
original f =
    (codes "original_task_name", str (name_of f.sender))
    ∷ (codes "original_task_id", f.task_id)
    ∷ (codes "exception_str", str f.exception)
    ∷ (codes "original_args", other f.has_args)
    ∷ (codes "original_kwargs", other (has_kwargs f.kwargs))
    ∷ []

-- `kwargs - {...}`: neither a dictionary nor None has a difference with a dictionary.
unfoldable pub minus : Option Dict → Dict → Result Dict
minus kwargs d = err type_error

unfoldable pub handle_task_falure : Failure → Exec Broker (Unit {0})
handle_task_falure f =
    if leb (max_retries_of f.sender) (retries_of f.sender)
    then ((λ sent. (minus f.kwargs (original f), sent)) >>= λ kwargs.
        send_task (codes "app.tasks.reconciliation_tasks.dead_letter_inspect") kwargs
          (codes "dead_letter"))
    else pure tt

-- The failures of the tasks one after the other. Celery logs what a handler raises, and goes on.
unfoldable pub handle_all : List Failure → Broker → Broker
handle_all [] sent = sent
handle_all (f ∷ fs) sent = handle_all fs (handle_task_falure f sent).1
