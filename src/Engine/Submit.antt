-- ===== src/Engine/Submit.antt =====
-- `submit_task` and `bulk_retry` of `CeleryEngineAdapter` in src/z4j_celery/engine.py.
pub mod Reads
pub mod Asks
use z4j_celery.Prelude.{
  ℕ, String, Bool, true, false, Option, none, some, List, [], ◌∷◌, ◌++◌, map, if◌then◌else◌,
}
use z4j_celery.Prelude.Int.{ℤ}
use z4j_celery.Prelude.Text.{is_empty}
use z4j_celery.Python.{
  Value, null, int, str, time, tuple, dict, list, elements, values, fields, truthy, is_none,
  as_dict, Dict, get_value, Exception, exception, type_error, Outcome, raised,
  offload_timeout_error, Io, pure, lift, try_then, ◌>>=◌, Runtime, getattr,
}
use z4j_celery.Command.{CommandResult, succeeded, refused}
use z4j_celery.Offload.{offload, indeterminate_timeout_result}
use z4j_celery.Actions.Bulk.{bulk_retry_action}
use mathlib.Core.Option

abbrev pub submit_timeout : ℕ
submit_timeout = 10

-- What a task is enqueued with.
pub record Submission : Type 0 where
  pub name : String
  pub args : List Value
  pub kwargs : Dict Value
  pub queue : Option String
  pub eta : Value
  pub priority : Option ℤ

abbrev pub queue_option : Option String → Dict Value
queue_option none = []
queue_option (some q) = if is_empty q then [] else ("queue", str q) ∷ []

abbrev pub priority_option : Option ℤ → Dict Value
priority_option none = []
priority_option (some n) = ("priority", int n) ∷ []

module _ (rt : Runtime) (celery_app : Value) where
  open rt use {World, call, from_timestamp}

  -- `datetime.fromtimestamp(eta, tz=UTC)`: no text is taken for a number.
  abbrev pub timestamp_of : Value → Outcome ℤ
  timestamp_of (str s) =
      raised (exception type_error "TypeError" "'str' object cannot be interpreted as an integer")
  timestamp_of eta = from_timestamp eta

  abbrev pub eta_option : Value → Io World (Dict Value)
  eta_option eta =
      if is_none eta then pure [] else lift (timestamp_of eta) >>= λ t. pure (("eta", time t) ∷ [])

  abbrev pub send_kwargs : Submission → Dict Value → Dict Value
  send_kwargs s eta =
      ("args", tuple (values s.args)) ∷ ("kwargs", dict (fields s.kwargs)) ∷ queue_option s.queue
      ++ eta
      ++ priority_option s.priority

  abbrev pub registered : Value → String → Io World Value
  registered tasks name =
      if is_none tasks
      then pure (Value.bool false)
      else call tasks "__contains__" (str name ∷ []) []

  abbrev pub new_id : Value → Io World Value
  new_id result = do
    id ← getattr rt result "id"
    if truthy id then pure id else getattr rt result "task_id"

  -- A task that this process has is applied, and any other is sent by its name.
  abbrev pub send : Submission → Dict Value → Value → Bool → Io World Value
  send s eta tasks true = do
    task ← call tasks "__getitem__" (str s.name ∷ []) []
    call task "apply_async" [] (send_kwargs s eta)
  send s eta tasks false = call celery_app "send_task" (str s.name ∷ []) (send_kwargs s eta)

  unfoldable pub submit : Submission → Io World Value
  submit s = do
    eta ← eta_option s.eta
    tasks ← getattr rt celery_app "tasks"
    known ← registered tasks s.name
    result ← send s eta tasks (truthy known)
    new_id result

  abbrev pub submit_failed : Exception → CommandResult
  submit_failed e = elim e.kind [
    | offload_timeout_error ↦
        indeterminate_timeout_result "celery.submit_task" submit_timeout
          "the task may still be enqueued"
    | _ ↦ refused e.text
  ]

  unfoldable pub submit_task : Submission → Io World CommandResult
  unfolding submit
  submit_task s =
      try_then (offload rt submit_timeout (submit s))
        (λ id. pure (succeeded (("task_id", id) ∷ ("engine", str "celery") ∷ [])))
        (λ e. pure (submit_failed e))

  -- `bulk_retry` of the adapter, which reads the ids and the priorities from the filter.
  abbrev pub task_ids_of : Dict Value → List String
  task_ids_of filter = elim (get_value "task_ids" filter) [
    | list ids ↦ map rt.py_str (elements ids)
    | _ ↦ []
  ]

  abbrev pub task_priorities_of : Dict Value → Dict Value
  task_priorities_of filter = Option.get_or (as_dict (get_value "task_priorities" filter)) []

  unfoldable pub bulk_retry : Dict Value → ℤ → Io World CommandResult
  bulk_retry filter max =
      bulk_retry_action rt celery_app filter max (task_ids_of filter) (task_priorities_of filter)
