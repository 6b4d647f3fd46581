-- ===== src/Actions/Retry/Arguments.antt =====
-- The task's name and its arguments for a retry, from src/z4j_celery/actions/retry.py.
use z4j_celery.Prelude.{
  String, Bool, ◌||◌, Option, none, some, List, ◌==◌, starts_with, if◌then◌else◌,
}
use z4j_celery.Prelude.Text.{is_empty}
use z4j_celery.Python.{
  Value, str, dict, items, as_str, as_dict, as_sequence, py_or, get_value, Dict, Io, pure, ◌>>=◌,
  Runtime, getattr,
}

-- A name that only stands for an unknown one.
unfoldable pub is_placeholder : String → Bool
is_placeholder name = is_empty name || starts_with name "<unknown" || name == "unknown"

-- The caller's name, unless it is missing or a placeholder.
unfoldable pub supplied_name : Option String → Option String
unfolding is_placeholder
supplied_name none = none
supplied_name (some name) = if is_placeholder name then none else some name

abbrev pub nonempty_str : Value → Option String
nonempty_str (str s) = if is_empty s then none else some s
nonempty_str _ = none

abbrev pub info_name : Value → Option String
info_name (dict fs) = as_str (py_or (get_value "name" (items fs)) (get_value "task" (items fs)))
info_name _ = none

abbrev pub override_or : {A : Type 0} → Option A → Option A → Option A
override_or (some a) stored = some a
override_or none stored = stored

abbrev pub both : {A B : Type 0} → Option A → Option B → Option (A × B)
both (some a) (some b) = some (a, b)
both _ _ = none

module _ (rt : Runtime) where
  open rt use {World}

  abbrev pub name_or_info : Value → Option String → Io World (Option String)
  name_or_info async_result (some s) = pure (some s)
  name_or_info async_result none = do info ← getattr rt async_result "info"; pure (info_name info)

  unfoldable pub resolve_task_name : Value → Io World (Option String)
  resolve_task_name async_result = do
    name ← getattr rt async_result "name"
    name_or_info async_result (nonempty_str name)

  -- Each half is the operator's, or what Celery's backend stored; `none` when a half has neither.
  unfoldable pub resolve_args :
      Value
      → Option (List Value)
      → Option (Dict Value)
      → Io World (Option (List Value × Dict Value))
  resolve_args async_result override_args override_kwargs = do
    stored ← getattr rt async_result "args"
    stored_kwargs ← getattr rt async_result "kwargs"
    pure (
        both (override_or override_args (as_sequence stored))
          (override_or override_kwargs (as_dict stored_kwargs)))
