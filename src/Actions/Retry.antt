-- ===== src/Actions/Retry.antt =====
-- `retry_task_action` of src/z4j_celery/actions/retry.py.
pub mod Priority
pub mod Eta
pub mod Answers
pub mod Arguments
pub mod Limits
pub mod Reads
pub mod Once
pub mod Closed
pub mod Asked
pub mod Asks
use z4j_celery.Prelude.{
  ℕ, String, Bool, true, false, Option, none, some, List, [], ◌∷◌, if◌then◌else◌, ◌++◌,
}
use z4j_celery.Prelude.Int.{ℤ}
use z4j_celery.Prelude.Text.{concat}
use z4j_celery.Python.{
  Value, null, str, int, tuple, dict, values, fields, truthy, of_option_int, Dict, Exception, Kind,
  exception, retry_error, value_error, offload_timeout_error, Io, pure, raise, try_then, ◌>>=◌,
  Runtime, getattr,
}
use z4j_celery.Command.{CommandResult, succeeded, refused}
use z4j_celery.Offload.{offload, indeterminate_timeout_result}
use Priority.{resolve_priority}
use Eta.{eta_from_timestamp}
use Arguments.{is_placeholder, supplied_name, resolve_task_name, resolve_args}

abbrev pub retry_timeout : ℕ
retry_timeout = 10

abbrev pub retry_failure : String → Exception
retry_failure text = exception retry_error "_RetryError" text

-- What a retry is asked to do.
pub record Request : Type 0 where
  pub task_id : String
  pub task_name : Option String
  pub override_args : Option (List Value)
  pub override_kwargs : Option (Dict Value)
  pub eta : Value
  pub priority : Value

-- `{"args": …, "kwargs": …, "eta": …}`, with a priority if there is one.
abbrev pub send_kwargs : List Value → Dict Value → Value → Option ℤ → Dict Value
send_kwargs args kwargs eta_dt priority_int =
    ("args", tuple (values args))
    ∷ ("kwargs", dict (fields kwargs))
    ∷ ("eta", eta_dt)
    ∷ elim priority_int [ none ↦ [] | some n ↦ ("priority", int n) ∷ [] ]

abbrev pub retried : String × String × Option ℤ → CommandResult
retried (name, new_task_id, priority_int) = succeeded (
    ("new_task_id", str new_task_id)
    ∷ ("task_name", str name)
    ∷ ("priority", of_option_int priority_int)
    ∷ [])

abbrev pub retry_failed : Exception → CommandResult
retry_failed e = elim e.kind [
  | offload_timeout_error ↦
      indeterminate_timeout_result "retry" retry_timeout "the task may still have been re-enqueued"
  | retry_error ↦ refused e.text
  | _ ↦ refused (concat ("send_task failed: " ∷ e.text ∷ []))
]

module _ (rt : Runtime) (celery_app : Value) where
  open rt use {World, call, py_str, py_repr}

  abbrev pub unresolved : String → Exception
  unresolved task_id =
      retry_failure (concat ("could not resolve task name for " ∷ py_repr (str task_id) ∷ []))

  abbrev no_arguments : String → Exception
  no_arguments task_id = retry_failure (
      concat (
        "cannot retry "
        ∷ py_repr (str task_id)
        ∷ ": no operator override_args / override_kwargs, and the Celery result backend did not store the original arguments (result_extended is off by default). Enable result_extended so Celery preserves the arguments, or use 'retry with different inputs' to supply them explicitly."
        ∷ []))

  abbrev pub real_name : String → Option String → Io World String
  real_name task_id none = raise (unresolved task_id)
  real_name task_id (some s) = if is_placeholder s then raise (unresolved task_id) else pure s

  abbrev pub name_source : Option String → Value → Io World (Option String)
  name_source (some s) async_result = pure (some s)
  name_source none async_result = resolve_task_name rt async_result

  -- `supplied_name or _resolve_task_name(async_result)`, refused if it is none or a placeholder
  unfoldable pub retry_name : Request → Value → Io World String
  retry_name req async_result =
      name_source (supplied_name req.task_name) async_result >>= real_name req.task_id

  -- `new_async.id or new_async.task_id`, with `None` for a missing one
  abbrev pub sent_id : Value → Io World Value
  sent_id new_async = getattr rt new_async "id" >>= λ id.
      if truthy id then pure id else getattr rt new_async "task_id"

  abbrev pub id_text : Value → Io World String
  id_text new_id =
      if truthy new_id
      then pure (py_str new_id)
      else raise (retry_failure "send_task returned without a task id")

  -- The publish, and the new task's id.
  unfoldable pub publish : String → Dict Value → Io World String
  publish name kwargs = do
    new_async ← call celery_app "send_task" (str name ∷ []) kwargs
    new_id ← sent_id new_async
    id_text new_id

  abbrev pub publish_resolved :
      Request
      → String
      → Value
      → Option ℤ
      → Option (List Value × Dict Value)
      → Io World (String × String × Option ℤ)
  publish_resolved req name eta_dt priority_int none = raise (no_arguments req.task_id)
  publish_resolved req name eta_dt priority_int (some (args, kwargs)) = do
    new_task_id ← publish name (send_kwargs args kwargs eta_dt priority_int)
    pure (name, new_task_id, priority_int)

  unfoldable pub do_retry_io : Request → Value → Io World (String × String × Option ℤ)
  do_retry_io req eta_dt = do
    priority_int ← resolve_priority rt celery_app req.priority
    async_result ← call celery_app "AsyncResult" (str req.task_id ∷ []) []
    name ← retry_name req async_result
    resolved ← resolve_args rt async_result req.override_args req.override_kwargs
    publish_resolved req name eta_dt priority_int resolved

  abbrev pub retry_at : Request → Value → Io World CommandResult
  retry_at req eta_dt =
      try_then (offload rt retry_timeout (do_retry_io req eta_dt)) (λ r. pure (retried r))
        (λ e. pure (retry_failed e))

  abbrev pub is_value_error : Exception → Bool
  is_value_error e = elim e.kind [ value_error ↦ true | _ ↦ false ]

  abbrev pub refuse_eta : Exception → Io World CommandResult
  refuse_eta e =
      if is_value_error e then pure (refused (concat ("invalid eta: " ∷ e.text ∷ []))) else raise e

  unfoldable pub retry_task_action : Request → Io World CommandResult
  retry_task_action req = try_then (eta_from_timestamp rt req.eta) (retry_at req) refuse_eta
