-- ===== src/Engine/Actions.antt =====
-- src/z4j_celery/engine.py: the actions of the adapter, as the brain's commands name them.
pub mod Documented
pub mod Publishing
pub mod Purging
pub mod Answers
use z4j_celery.Prelude.{String, Bool, true, false, Option, none, List, [], ◌∷◌}
use z4j_celery.Prelude.Int.{ℤ}
use z4j_celery.Prelude.Text.{concat}
use z4j_celery.Python.{
  Value, null, str, Dict, Exception, exception, adapter_error, not_found_error, Io, pure, raise,
  try_then, Runtime,
}
use z4j_celery.Command.{CommandResult}
use z4j_celery.Actions.Retry.{Request, retry_task_action}
use z4j_celery.Actions.Purge.{Tokens, purge_queue_action}
use z4j_celery.Actions.Control.{
  cancel_task_action, restart_worker_action, rate_limit_action, pool_grow, pool_shrink,
  add_consumer, cancel_consumer, requeue_dead_letter_action,
}
use z4j_celery.Engine.Submit.{Submission, submit_task, bulk_retry}
use Prim.Native.Char.{Char}

-- The actions with their arguments.
pub data Action : Type 0 where
  create : Submission → Action
  retry : Request → Action
  cancel : (task_id : String) → Action
  retry_bulk : (filter : Dict Value) (max : ℤ) → Action
  purge : (queue_name : String) (confirm_token : Option String) (force : Bool) → Action
  requeue : (task_id : String) → Action
  list_dead : Action
  restart : (worker_id : String) → Action
  grow shrink : (worker_name : String) (delta : ℤ) → Action
  consume stop_consuming : (worker_name queue : String) → Action
  limit : (task_name rate : String) (worker_name : Option String) → Action

-- The name of an action in `capabilities`.
abbrev pub capability : Action → String
capability (create s) = "submit_task"
capability (retry req) = "retry_task"
capability (cancel task_id) = "cancel_task"
capability (retry_bulk filter max) = "bulk_retry"
capability (purge queue_name confirm_token force) = "purge_queue"
capability (requeue task_id) = "requeue_dead_letter"
capability list_dead = "list_dead_letters"
capability (restart worker_id) = "restart_worker"
capability (grow worker_name delta) = "pool_grow"
capability (shrink worker_name delta) = "pool_shrink"
capability (consume worker_name queue) = "add_consumer"
capability (stop_consuming worker_name queue) = "cancel_consumer"
capability (limit task_name rate worker_name) = "rate_limit"

-- `is_digit` is `\d`.
module _ (rt : Runtime) (tokens : Tokens (Runtime.World rt)) (is_digit : Char → Bool)
    (celery_app : Value) where
  open rt use {World, call, py_repr}

  unfoldable pub retry_task : Request → Io World CommandResult
  retry_task req = retry_task_action rt celery_app req

  -- The defaults of `cancel_task_action`.
  unfoldable pub cancel_task : String → Io World CommandResult
  cancel_task task_id = cancel_task_action rt celery_app task_id true "SIGTERM"

  unfoldable pub purge_queue : String → Option String → Bool → Io World CommandResult
  purge_queue queue_name confirm_token force =
      purge_queue_action rt tokens celery_app queue_name confirm_token force

  unfoldable pub requeue_dead_letter : String → Io World CommandResult
  requeue_dead_letter task_id = requeue_dead_letter_action rt celery_app task_id

  -- `A` is z4j_core's `DeadLetterPage`, which is never made.
  unfoldable pub list_dead_letters : {A : Type 0} → Io World A
  list_dead_letters = raise (
      exception adapter_error "AdapterError"
        "z4j-celery cannot list dead letters: Celery has no first-class dead-letter store (user-defined DLQ routing is broker-specific)")

  unfoldable pub restart_worker : String → Io World CommandResult
  restart_worker worker_id = restart_worker_action rt celery_app worker_id

  unfoldable pub rate_limit : String → String → Option String → Io World CommandResult
  rate_limit task_name rate worker_name =
      rate_limit_action rt celery_app is_digit task_name rate worker_name

  abbrev pub not_found : String → Exception
  not_found task_id =
      exception not_found_error "NotFoundError"
        (concat ("task " ∷ py_repr (str task_id) ∷ " not found" ∷ []))

  -- There is never a task: the brain's own database is the view of tasks.
  unfoldable pub get_task : String → Io World Value
  get_task task_id =
      try_then (call celery_app "AsyncResult" (str task_id ∷ []) []) (λ _. pure null)
        (λ _. raise (not_found task_id))

  unfoldable pub perform : Action → Io World CommandResult
  unfolding retry_task cancel_task purge_queue requeue_dead_letter list_dead_letters restart_worker
      rate_limit
  perform (create s) = submit_task rt celery_app s
  perform (retry req) = retry_task req
  perform (cancel task_id) = cancel_task task_id
  perform (retry_bulk filter max) = bulk_retry rt celery_app filter max
  perform (purge queue_name confirm_token force) = purge_queue queue_name confirm_token force
  perform (requeue task_id) = requeue_dead_letter task_id
  perform list_dead = list_dead_letters
  perform (restart worker_id) = restart_worker worker_id
  perform (grow worker_name delta) = pool_grow rt celery_app worker_name delta
  perform (shrink worker_name delta) = pool_shrink rt celery_app worker_name delta
  perform (consume worker_name queue) = add_consumer rt celery_app worker_name queue
  perform (stop_consuming worker_name queue) = cancel_consumer rt celery_app worker_name queue
  perform (limit task_name rate worker_name) = rate_limit task_name rate worker_name
