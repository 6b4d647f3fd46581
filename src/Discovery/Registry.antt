-- ===== src/Discovery/Registry.antt =====
-- src/z4j_celery/discovery/runtime.py: the tasks in the registry of a Celery application.
pub mod Loaded
use z4j_celery.Prelude.{
  String, Bool, true, false, Option, none, some, List, [], ◌∷◌, starts_with, if◌then◌else◌,
}
use z4j_celery.Prelude.Text.{is_empty}
use z4j_celery.Python.{
  Value, Values, null, str, is_none, as_dict, as_sequence, get_value, Dict, Exception, exception,
  Kind, attribute_error, type_error, value_error, Outcome, returned, raised, Io, pure, raise, lift,
  try_then, ◌>>=◌, Runtime, getattr, getattr_or,
}
use z4j_celery.Discovery.{TaskDefinition, engine_name}
use z4j_celery.Discovery.Syntax.{cut}

-- `isinstance(v, str) and v`
abbrev pub nonempty_str : Value → Option String
nonempty_str (str s) = if is_empty s then none else some s
nonempty_str _ = none

-- `list(v)`
abbrev pub to_list : Option (List Value) → Outcome (List Value)
to_list (some l) = returned l
to_list none = raised (exception type_error "TypeError" "object is not iterable")

-- `name, task_obj = item`
abbrev pub unpack : Option (List Value) → Outcome (Value × Value)
unpack (some (name ∷ task_obj ∷ [])) = returned (name, task_obj)
unpack (some _) = raised (exception value_error "ValueError" "wrong number of values to unpack")
unpack none = raised (exception type_error "TypeError" "cannot unpack non-iterable object")

-- A name has the method `startswith` if it is a text.
abbrev pub to_name : Value → Outcome String
to_name (str s) = returned s
to_name _ = raised (exception attribute_error "AttributeError" "startswith")

module _ (rt : Runtime) where
  open rt use {World, attribute, call}

  unfoldable pub get_module : Value → Io World (Option String)
  get_module task_obj = do
    target ← getattr_or rt task_obj "run" task_obj
    module_name ← getattr rt target "__module__"
    pure (nonempty_str module_name)

  abbrev pub queue_option : Option (Dict Value) → Option String
  queue_option none = none
  queue_option (some options) = nonempty_str (get_value "queue" options)

  abbrev pub queue_or_option : Value → Option String → Io World (Option String)
  queue_or_option task_obj (some queue) = pure (some queue)
  queue_or_option task_obj none = do
    options ← getattr rt task_obj "options"
    pure (queue_option (as_dict options))

  unfoldable pub get_default_queue : Value → Io World (Option String)
  get_default_queue task_obj = do
    queue ← getattr rt task_obj "queue"
    queue_or_option task_obj (nonempty_str queue)

  -- `inspect` is `str(inspect.signature(target))`, which may raise.
  module _ (inspect : Value → Outcome String) where
    abbrev pub no_signature : Exception → Io World (Option String)
    no_signature e = elim e.kind [ type_error ↦ pure none | value_error ↦ pure none | _ ↦ raise e ]

    unfoldable pub get_signature : Value → Io World (Option String)
    get_signature task_obj = do
      target ← getattr_or rt task_obj "run" task_obj
      try_then (lift (inspect target)) (λ rendered. pure (some (cut rendered))) no_signature

  -- src/z4j_celery/meta.py, of an object.
  abbrev pub meta_of : Value → Io World Value
  meta_of func = do target ← getattr_or rt func "run" func; getattr rt target "__z4j_meta__"

  unfoldable pub get_meta_object : Value → Io World Value
  get_meta_object func = if is_none func then pure null else meta_of func

  abbrev pub tags_of : Value → Io World (List Value)
  tags_of meta = do tags ← attribute meta "tags"; lift (to_list (as_sequence tags))

  abbrev pub tags_or_none : Value → Io World (List Value)
  tags_or_none meta = if is_none meta then pure [] else tags_of meta

  module _ (inspect : Value → Outcome String)
      (accepts : TaskDefinition → Outcome TaskDefinition) where
    unfoldable pub definition_for : String → Value → Io World TaskDefinition
    unfolding get_module get_default_queue get_signature get_meta_object
    definition_for name task_obj = do
      module_name ← get_module task_obj
      queue ← get_default_queue task_obj
      signature ← get_signature inspect task_obj
      meta ← get_meta_object task_obj
      tags ← tags_or_none meta
      lift (
          accepts (record {
            name = name;
            module_name = module_name;
            engine = engine_name;
            queue = queue;
            signature = signature;
            declared_in = none;
            loaded = true;
            tags = tags;
          }))

    abbrev pub is_internal : String → Bool
    is_internal name = starts_with name "celery."

    abbrev pub prepend :
        Io World (List TaskDefinition) → TaskDefinition → Io World (List TaskDefinition)
    prepend rest definition = do result ← rest; pure (definition ∷ result)

    -- One turn of the loop, before the turns of the `rest`.
    abbrev pub add_task :
        Io World (List TaskDefinition) → String → Value → Io World (List TaskDefinition)
    add_task rest name task_obj =
        if is_internal name
        then rest
        else try_then (definition_for name task_obj) (prepend rest) (λ _. rest)

    abbrev pub add_item : Io World (List TaskDefinition) → Value → Io World (List TaskDefinition)
    add_item rest item = do
      pair ← lift (unpack (as_sequence item))
      name ← lift (to_name pair.0)
      add_task rest name pair.1

    unfoldable pub add_items : List Value → Io World (List TaskDefinition)
    unfolding definition_for
    add_items [] = pure []
    add_items (item ∷ items) = add_item (add_items items) item

    abbrev pub list_items : Value → Io World (List Value)
    list_items tasks = do items ← call tasks "items" [] []; lift (to_list (as_sequence items))

    abbrev pub from_registry : Value → Io World (List TaskDefinition)
    from_registry tasks =
        if is_none tasks then pure [] else try_then (list_items tasks) add_items (λ _. pure [])

    unfoldable pub discover_runtime : Value → Io World (List TaskDefinition)
    unfolding add_items
    discover_runtime celery_app = do tasks ← getattr rt celery_app "tasks"; from_registry tasks
