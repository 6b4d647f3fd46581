-- ===== src/Actions/Control.antt =====
-- The control broadcasts: src/z4j_celery/actions/cancel.py, worker.py, rate_limit.py and dlq.py, and
-- the pool and consumer methods of the adapter in src/z4j_celery/engine.py.
pub mod Rate
pub mod Answers
use z4j_celery.Prelude.{
  ℕ, String, Bool, true, false, Option, none, some, List, [], ◌∷◌, if◌then◌else◌,
}
use z4j_celery.Prelude.Int.{ℤ}
use z4j_celery.Prelude.Text.{concat, is_empty}
use z4j_celery.Python.{
  Value, null, bool, int, str, list, dict, values, fields, of_option_str, Dict, Exception, Kind,
  offload_timeout_error, Io, pure, try_then, ◌>>=◌, Runtime,
}
use z4j_celery.Command.{CommandResult, succeeded, refused}
use z4j_celery.Offload.{offload, indeterminate_timeout_result}
use Rate.{is_rate}
use Prim.Native.Char.{Char}

abbrev pub broadcast_timeout : ℕ
broadcast_timeout = 10

abbrev pub broadcast_failed : String → String → (Exception → String) → Exception → CommandResult
broadcast_failed operation hint failure e = elim e.kind [
  | offload_timeout_error ↦ indeterminate_timeout_result operation broadcast_timeout hint
  | _ ↦ refused (failure e)
]

abbrev pub class_failure : String → Exception → String
class_failure what e = concat (what ∷ " broadcast failed: " ∷ e.name ∷ [])

abbrev pub destination : String → Value
destination worker_name = list (values (str worker_name ∷ []))

module _ (rt : Runtime) (celery_app : Value) where
  open rt use {World, attribute, call, py_repr}

  -- `celery_app.control.method(*args, **kwargs)`
  abbrev pub control : String → List Value → Dict Value → Io World Value
  control method args kwargs = do c ← attribute celery_app "control"; call c method args kwargs

  -- The same on the offload pool: only the call itself runs under the timeout.
  abbrev pub offload_control : String → List Value → Dict Value → Io World Value
  offload_control method args kwargs = do
    c ← attribute celery_app "control"
    offload rt broadcast_timeout (call c method args kwargs)

  unfoldable pub cancel_task_action : String → Bool → String → Io World CommandResult
  cancel_task_action task_id terminate signal =
      try_then
        (offload_control "revoke" (str task_id ∷ [])
          (("terminate", bool terminate) ∷ ("signal", str signal) ∷ []))
        (λ _. pure (succeeded (("task_id", str task_id) ∷ ("terminated", bool terminate) ∷ [])))
        (λ e. pure (
          broadcast_failed "celery_app.control.revoke" "the task may still be revoked"
            (λ x. concat ("celery_app.control.revoke failed: " ∷ x.text ∷ [])) e))

  unfoldable pub restart_worker_action : String → Io World CommandResult
  restart_worker_action worker_name =
      try_then
        (offload_control "broadcast" (str "pool_restart" ∷ []) (
          ("destination", destination worker_name)
          ∷ ("arguments", dict (fields (("reload", bool true) ∷ [])))
          ∷ []))
        (λ _. pure (succeeded (("worker", str worker_name) ∷ [])))
        (λ e. pure (
          broadcast_failed "worker restart broadcast" "the pool restart may still be delivered"
            (class_failure "worker restart") e))

  abbrev pub optional_destination : Option String → Value
  optional_destination none = null
  optional_destination (some name) = if is_empty name then null else destination name

  abbrev pub send_rate : String → String → Option String → Io World CommandResult
  send_rate task_name rate worker_name =
      try_then
        (offload_control "rate_limit" (str task_name ∷ str rate ∷ [])
          (("destination", optional_destination worker_name) ∷ []))
        (λ _. pure (
          succeeded (
            ("task_name", str task_name)
            ∷ ("rate", str rate)
            ∷ ("worker", of_option_str worker_name)
            ∷ [])))
        (λ e. pure (
          broadcast_failed "rate_limit broadcast"
            "the rate limit may still be applied to some workers" (class_failure "rate_limit") e))

  -- `is_digit` is `\d`.
  unfoldable pub rate_limit_action :
      (Char → Bool) → String → String → Option String → Io World CommandResult
  unfolding is_rate
  rate_limit_action is_digit task_name rate worker_name =
      if is_empty task_name
      then pure (refused "rate_limit: task_name is required")
      else if is_rate is_digit rate
      then send_rate task_name rate worker_name
      else pure (
          refused (
            concat (
              "rate_limit: invalid rate "
              ∷ py_repr (str rate)
              ∷ " - use '0' to clear, or '<n>', '<n>/s', '<n>/m', '<n>/h'"
              ∷ [])))

  -- `pool_grow`, `pool_shrink`, `add_consumer` and `cancel_consumer`: they run on the caller's loop.
  abbrev pub direct : String → String → String → String → Value → Io World CommandResult
  direct method key worker_name failure argument =
      try_then (control method (argument ∷ []) (("destination", destination worker_name) ∷ []))
        (λ _. pure (succeeded (("worker", str worker_name) ∷ (key, argument) ∷ [])))
        (λ e. pure (refused (concat (failure ∷ e.text ∷ []))))

  unfoldable pub pool_grow : String → ℤ → Io World CommandResult
  pool_grow worker_name delta =
      direct "pool_grow" "delta" worker_name "pool_grow failed: " (int delta)

  unfoldable pub pool_shrink : String → ℤ → Io World CommandResult
  pool_shrink worker_name delta =
      direct "pool_shrink" "delta" worker_name "pool_shrink failed: " (int delta)

  unfoldable pub add_consumer : String → String → Io World CommandResult
  add_consumer worker_name queue =
      direct "add_consumer" "queue" worker_name "add_consumer failed: " (str queue)

  unfoldable pub cancel_consumer : String → String → Io World CommandResult
  cancel_consumer worker_name queue =
      direct "cancel_consumer" "queue" worker_name "cancel_consumer failed: " (str queue)

  -- Refused without touching Celery or its broker.
  unfoldable pub requeue_dead_letter_action : String → Io World CommandResult
  requeue_dead_letter_action task_id = pure (
      refused
        "z4j-celery cannot safely requeue a broker-specific dead-letter entry: use tooling that can atomically consume/ack that DLQ and preserve its original routing")
