-- ===== src/Events/Signals.antt =====
-- src/z4j_celery/events/signals.py: the handlers of Celery's signals, and their subscription. What
-- Celery passes to a handler is one constructor of `Signal`.
pub mod Wiring
pub mod Safe
use z4j_celery.Prelude.{
  String, Bool, true, false, Option, none, some, List, [], ◌∷◌, ◌==◌, if◌then◌else◌,
}
use z4j_celery.Python.{
  Value, Fields, items, null, str, dict, truthy, is_none, as_str, as_dict, get_value, Dict, get,
  py_or, Io, pure, raise, lift, try_then, ◌>>=◌, Outcome, Exception, Runtime, hasattr, getattr,
  getattr_or,
}
use z4j_celery.Events.Mapper.{
  Event, Stamp, About, build_task_received_event, build_task_started_event,
  build_task_succeeded_event, build_task_failed_event, build_task_retried_event,
  build_task_revoked_event,
}
use z4j_celery.Events.Mapper.Names.{Task}
use mathlib.Core.Option

-- What the handlers use of other code.
pub record Hooks (W : Type 0) : Type 0 where
  pub scrub : Value → Value
  pub sink : Event → Io W Unit
  -- the ids and the time of the next event
  pub stamp : W → Stamp
  -- whether `safe_boundary` absorbs an exception
  pub absorbs : Exception → Bool
  -- what the mapper reads of a task
  pub task_of : Value → Io W Task
  -- `type(exception).__name__`
  pub type_name : Value → String
  -- `isinstance(v, TracebackType)`
  pub is_traceback : Value → Bool
  -- `"".join(traceback.format_exception(…))`, with the traceback or the exception alone
  pub format_traceback : Value → Value → String
  pub format_exception : Value → String

pub data Signal : Type 0 where
  task_received : (request : Value) → Signal
  task_prerun : (sender task_id task args kwargs : Value) → Signal
  task_postrun : (sender task_id task retval state : Value) → Signal
  task_failure : (sender task_id exception traceback einfo : Value) → Signal
  task_retry : (sender request reason einfo : Value) (kwargs : Dict Value) → Signal
  task_revoked : (sender request terminated signum expired : Value) → Signal

abbrev pub is_success : Value → Bool
is_success (str s) = s == "SUCCESS"
is_success _ = false

module _ (rt : Runtime) (hooks : Hooks (Runtime.World rt)) where
  open rt use {World, attribute, call, py_str}

  abbrev pub from_dict : Option (Dict Value) → String → Value → Value
  from_dict none name default = default
  from_dict (some d) name default = Option.get_or (get name d) default

  abbrev pub get_present : Value → String → Value → Bool → Io World Value
  get_present obj name default true = getattr_or rt obj name default
  get_present obj name default false = pure (from_dict (as_dict obj) name default)

  -- `_get`
  unfoldable pub get_field : Value → String → Value → Io World Value
  get_field obj name default =
      if is_none obj then pure default else hasattr rt obj name >>= get_present obj name default

  -- `_get(request, "id", _get(request, "task_id", ""))`
  abbrev pub get_id : Value → Io World Value
  get_id request = do default ← get_field request "task_id" (str ""); get_field request "id" default

  abbrev pub emit : Event → Io World Unit
  emit = hooks.sink

  abbrev pub new_stamp : Io World Stamp
  new_stamp w = pure (hooks.stamp w) w

  -- What an event is about; the signals' events name no worker.
  abbrev pub about : Value → Value → Option String → Io World About
  about task_id task queue = do
    read ← hooks.task_of task
    pure (record { task_id = py_str task_id; task = read; queue = queue; worker = none })

  -- The common end of the handlers: what the event is about, its stamp, and the event.
  abbrev pub with_about :
      Value → Value → Option String → (About → Stamp → Io World Unit) → Io World Unit
  with_about task_id task queue f = do a ← about task_id task queue; stamp ← new_stamp; f a stamp

  abbrev pub emit_built : Outcome Event → Io World Unit
  emit_built built = lift built >>= emit

  -- `obj.get("routing_key")`
  abbrev pub routing_key : Value → Io World Value
  routing_key (dict fs) = pure (get_value "routing_key" (items fs))
  routing_key obj = call obj "get" (str "routing_key" ∷ []) []

  abbrev pub queue_if_dict : Value → Option (Dict Value) → Io World Value
  queue_if_dict request none = pure null
  queue_if_dict request (some d) = do
    delivery_info ← get_field request "delivery_info" (dict Fields.end)
    routing_key delivery_info

  abbrev pub queue_of : Value → Io World Value
  queue_of request = do
    delivery_info ← get_field request "delivery_info" (dict Fields.end)
    queue_if_dict request (as_dict delivery_info)

  -- `str(v) if v else None`
  abbrev pub text_if : Value → Option String
  text_if v = if truthy v then some (py_str v) else none

  abbrev pub send_received :
      Value → Value → Option String → Option String → About → Stamp → Io World Unit
  send_received args kwargs parent_id root_id a stamp =
      emit_built (build_task_received_event hooks.scrub stamp a args kwargs parent_id root_id)

  unfoldable pub received_request : Value → Io World Unit
  unfolding get_field
  received_request request = do
    task_id ← get_id request
    task ← get_field request "task" null
    args ← get_field request "args" null
    kwargs ← get_field request "kwargs" null
    queue ← queue_of request
    parent_id ← get_field request "parent_id" null
    root_id ← get_field request "root_id" null
    with_about task_id task (as_str queue)
        (send_received args kwargs (text_if parent_id) (text_if root_id))

  unfoldable pub on_received : Value → Io World Unit
  unfolding received_request
  on_received request = if is_none request then pure tt else received_request request

  abbrev pub send_started : Value → Value → About → Stamp → Io World Unit
  send_started args kwargs a stamp =
      emit_built (build_task_started_event hooks.scrub stamp a args kwargs)

  unfoldable pub on_prerun : Value → Value → Value → Value → Value → Io World Unit
  on_prerun sender task_id task args kwargs =
      with_about (py_or task_id (str "")) (py_or task sender) none (send_started args kwargs)

  abbrev pub send_succeeded : Value → About → Stamp → Io World Unit
  send_succeeded retval a stamp = emit (build_task_succeeded_event hooks.scrub stamp a retval none)

  abbrev pub succeeded_run : Value → Value → Value → Value → Io World Unit
  succeeded_run sender task_id task retval =
      with_about (py_or task_id (str "")) (py_or task sender) none (send_succeeded retval)

  unfoldable pub on_postrun : Value → Value → Value → Value → Value → Io World Unit
  on_postrun sender task_id task retval state =
      if is_success state then succeeded_run sender task_id task retval else pure tt

  abbrev pub own_traceback : Value → Value → Option String
  own_traceback exception null = none
  own_traceback exception tb = some (hooks.format_exception exception)

  abbrev pub read_own_traceback : Value → Io World (Option String)
  read_own_traceback exception = do
    tb ← attribute exception "__traceback__"
    pure (own_traceback exception tb)

  abbrev pub text_or_own : Value → Option String → Io World (Option String)
  text_or_own exception (some text) = pure (some text)
  text_or_own exception none = read_own_traceback exception

  -- `traceback`, if it is one, or the exception's own.
  abbrev pub given_traceback : Value → Value → Io World (Option String)
  given_traceback exception traceback =
      if hooks.is_traceback traceback
      then pure (some (hooks.format_traceback exception traceback))
      else text_or_own exception (as_str traceback)

  abbrev pub einfo_traceback : Value → Value → Value → Option String → Io World (Option String)
  einfo_traceback exception traceback einfo none = given_traceback exception traceback
  einfo_traceback exception traceback einfo (some text) = do
    tb ← attribute einfo "traceback"
    pure (as_str tb)

  unfoldable pub traceback_text : Value → Value → Value → Io World (Option String)
  traceback_text exception traceback einfo =
      if is_none einfo
      then given_traceback exception traceback
      else getattr rt einfo "traceback" >>= λ tb.
          einfo_traceback exception traceback einfo (as_str tb)

  abbrev pub send_failed : Value → Option String → About → Stamp → Io World Unit
  send_failed exception tb_str a stamp = emit (
      build_task_failed_event hooks.scrub stamp a (hooks.type_name exception) (py_str exception)
        none tb_str)

  abbrev pub failed_run : Value → Value → Value → Value → Value → Io World Unit
  failed_run sender task_id exception traceback einfo = do
    tb_str ← traceback_text exception traceback einfo
    with_about (py_or task_id (str "")) sender none (send_failed exception tb_str)

  unfoldable pub on_failure : Value → Value → Value → Value → Value → Io World Unit
  unfolding traceback_text
  on_failure sender task_id exception traceback einfo =
      if is_none exception then pure tt else failed_run sender task_id exception traceback einfo

  -- `str(einfo)`, if there is one
  abbrev pub text_of : Value → Option String
  text_of v = if is_none v then none else some (py_str v)

  abbrev pub send_retried : Value → Value → About → Stamp → Io World Unit
  send_retried reason einfo a stamp =
      emit (build_task_retried_event hooks.scrub stamp a reason (text_of einfo))

  unfoldable pub on_retry : Value → Value → Value → Value → Dict Value → Io World Unit
  unfolding get_field
  on_retry sender request reason einfo kwargs = do
    task_id ← get_id request
    with_about (py_or (py_or task_id (get_value "task_id" kwargs)) (str "")) sender none
        (send_retried reason einfo)

  abbrev pub send_revoked : Value → Value → Value → About → Stamp → Io World Unit
  send_revoked terminated signum expired a stamp =
      emit (build_task_revoked_event hooks.scrub stamp a terminated signum expired)

  unfoldable pub on_revoked : Value → Value → Value → Value → Value → Io World Unit
  unfolding get_field
  on_revoked sender request terminated signum expired = do
    task_id ← get_id request
    with_about task_id sender none (send_revoked terminated signum expired)

  abbrev pub run_handler : Signal → Io World Unit
  run_handler (task_received request) = on_received request
  run_handler (task_prerun sender task_id task args kwargs) =
      on_prerun sender task_id task args kwargs
  run_handler (task_postrun sender task_id task retval state) =
      on_postrun sender task_id task retval state
  run_handler (task_failure sender task_id exception traceback einfo) =
      on_failure sender task_id exception traceback einfo
  run_handler (task_retry sender request reason einfo kwargs) =
      on_retry sender request reason einfo kwargs
  run_handler (task_revoked sender request terminated signum expired) =
      on_revoked sender request terminated signum expired

  -- `@safe_boundary`
  unfoldable pub handle_signal : Signal → Io World Unit
  unfolding on_received on_prerun on_postrun on_failure on_retry on_revoked
  handle_signal signal =
      try_then (run_handler signal) pure (λ e. if hooks.absorbs e then pure tt else raise e)
