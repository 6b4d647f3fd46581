-- ===== src/Bootstrap/Framework.antt =====
-- src/z4j_celery/worker_bootstrap.py: which framework labels the worker, and the limits after which
-- its pool replaces its children.
use z4j_celery.Prelude.{String, Bool, List, [], ◌∷◌, if◌then◌else◌}
use z4j_celery.Prelude.Text.{contains}
use z4j_celery.Python.{
  Value, null, str, truthy, is_none, Dict, put, Exception, Io, pure, raise, try_then, ◌>>=◌,
  Runtime, getattr, getattr_or,
}

-- Importing a name from a module, which may raise, an `ImportError` among others.
pub record Imports (W : Type 0) : Type 0 where
  pub import_from : String → String → Io W Value
  pub is_import_error : Exception → Bool

module _ {W : Type 0} (imports : Imports W) where
  abbrev pub next_framework : Io W Value → Exception → Io W Value
  next_framework rest e = if imports.is_import_error e then rest else raise e

  -- The first of them that is installed, and else the bare one.
  unfoldable pub first_installed : Value → List (String × String) → Io W Value
  first_installed bare [] = pure bare
  first_installed bare ((module_name, name) ∷ rest) =
      let later = first_installed bare rest in
      try_then (imports.import_from module_name name) pure (next_framework later)

  abbrev pub frameworks : List (String × String)
  frameworks =
      ("z4j_fastapi.framework", "FastAPIFrameworkAdapter")
      ∷ ("z4j_flask.framework", "FlaskFrameworkAdapter")
      ∷ ("z4j_django.framework", "DjangoFrameworkAdapter")
      ∷ []

  abbrev pub specific_or : Value → Io W Value
  specific_or bare = first_installed bare frameworks

  unfoldable pub resolve_framework_adapter : Io W Value
  unfolding first_installed
  resolve_framework_adapter =
      imports.import_from "z4j_bare.framework" "BareFrameworkAdapter" >>= specific_or

module _ (rt : Runtime) where
  open rt use {World, call, py_str}

  abbrev pub name_of_pool : Value → Io World Value
  name_of_pool (str s) = pure (str s)
  name_of_pool pool_cls = getattr_or rt pool_cls "__module__" (str "")

  abbrev pub ask_conf : Value → String → Io World Value
  ask_conf conf name = try_then (call conf "get" (str name ∷ []) []) pure (λ _. pure null)

  -- The controller's limit, or else the one of the settings.
  abbrev pub limit_or_conf : Value → String → Value → Io World Value
  limit_or_conf conf name null = if is_none conf then pure null else ask_conf conf name
  limit_or_conf conf name value = pure value

  abbrev pub put_limit : String → Value → Dict Value → Dict Value
  put_limit name value limits = if truthy value then put name value limits else limits

  -- An attribute of the controller, and the setting of the same limit.
  unfoldable pub read_limits :
      Value → Value → List (String × String) → Dict Value → Io World (Dict Value)
  read_limits controller conf [] limits = pure limits
  read_limits controller conf ((attribute_name, name) ∷ rest) limits = do
    own ← getattr rt controller attribute_name
    value ← limit_or_conf conf name own
    read_limits controller conf rest (put_limit name value limits)

  abbrev pub limit_names : List (String × String)
  limit_names =
      ("max_tasks_per_child", "worker_max_tasks_per_child")
      ∷ ("max_memory_per_child", "worker_max_memory_per_child")
      ∷ []

  abbrev pub forking_limits : Value → Value → Value → Io World (Dict Value)
  forking_limits celery_app controller pool_name =
      if contains "prefork" (py_str pool_name)
      then (getattr rt celery_app "conf" >>= λ conf. read_limits controller conf limit_names [])
      else pure []

  abbrev pub controller_limits : Value → Value → Io World (Dict Value)
  controller_limits celery_app controller = do
    pool_cls ← getattr rt controller "pool_cls"
    pool_name ← name_of_pool pool_cls
    forking_limits celery_app controller pool_name

  unfoldable pub pool_recycle_limits : Value → Value → Io World (Dict Value)
  unfolding read_limits
  pool_recycle_limits sender celery_app = getattr rt sender "controller" >>= λ controller.
      if is_none controller then pure [] else controller_limits celery_app controller
