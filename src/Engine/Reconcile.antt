-- ===== src/Engine/Reconcile.antt =====
-- `reconcile_task` of src/z4j_celery/engine.py: what Celery's result backend says of a task.
pub mod Answers
use z4j_celery.Prelude.{
  ℕ, String, Bool, true, false, Option, none, some, List, [], ◌∷◌, ◌≡◌, refl, ◌⊎◌, inl, inr, ◌==◌,
  if◌then◌else◌,
}
use z4j_celery.Prelude.Text.{concat}
use z4j_celery.Python.{
  Value, null, str, truthy, is_none, of_option_str, Dict, get, Exception, Outcome, returned, raised,
  Io, pure, try_then, handle, continue, ◌>>=◌, Runtime, getattr,
}
use z4j_celery.Command.{CommandResult, succeeded, Status, success}
use z4j_celery.Events.Mapper.Traceback.{traceback_tail}
use mathlib.Core.Option

abbrev pub state_map : Dict String
state_map =
    ("PENDING", "pending")
    ∷ ("RECEIVED", "pending")
    ∷ ("STARTED", "started")
    ∷ ("SUCCESS", "success")
    ∷ ("FAILURE", "failure")
    ∷ ("RETRY", "pending")
    ∷ ("REVOKED", "failure")
    ∷ []

unfoldable pub engine_state : String → String
engine_state state = Option.get_or (get state state_map) "unknown"

abbrev pub answer : String → String → Value → Value → CommandResult
answer task_id state finished_at exc_info = succeeded (
    ("task_id", str task_id)
    ∷ ("engine_state", str state)
    ∷ ("finished_at", finished_at)
    ∷ ("exception", exc_info)
    ∷ [])

module _ (rt : Runtime) (celery_app : Value) where
  open rt use {World, attribute, call, py_str}

  -- `_safe_str_attr(obj, name, default)`
  unfoldable pub safe_str_attr : Value → String → String → Io World String
  safe_str_attr obj name default =
      try_then (getattr rt obj name) (λ v. pure (if is_none v then default else py_str v))
        (λ e. pure default)

  -- Reading on a best-effort basis: an exception gives `None`.
  abbrev pub best_effort : Io World Value → Io World Value
  best_effort m = try_then m pure (λ e. pure null)

  abbrev pub failure_text : Value → Io World Value
  failure_text res = best_effort (do
    traceback ← attribute res "traceback"
    pure (
        if truthy traceback
        then of_option_str (traceback_tail (some (py_str traceback)) 2000)
        else null))

  abbrev pub date_done : Value → Io World Value
  date_done res = best_effort (do
    done ← attribute res "date_done"
    if is_none done then pure null else call done "isoformat" [] [])

  abbrev pub probe : String → Io World (Value × String × Value)
  probe task_id = do
    res ← call celery_app "AsyncResult" (str task_id ∷ []) []
    raw ← safe_str_attr res "state" "UNKNOWN"
    exc_info ← if engine_state raw == "failure" then failure_text res else pure null
    pure (res, engine_state raw, exc_info)

  abbrev pub finish : String → Value × String × Value → Io World CommandResult
  finish task_id (res, state, exc_info) = do
    finished_at ←
        if state == "success"
        then date_done res
        else if state == "failure"
        then date_done res
        else pure null
    pure (answer task_id state finished_at exc_info)

  unfoldable pub reconcile_task : String → Io World CommandResult
  unfolding safe_str_attr
  reconcile_task task_id = try_then (probe task_id) (finish task_id) (λ e.
      pure
        (answer task_id "unknown" null (str (concat ("reconcile probe failed: " ∷ e.text ∷ [])))))
