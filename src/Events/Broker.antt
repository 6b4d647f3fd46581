-- ===== src/Events/Broker.antt =====
-- src/z4j_celery/events/broker.py: the receiver of Celery's broker events. The sink, the message's
-- acknowledgement, the hostname filter and the boundary of a handler belong to other code.
pub mod NameCache
pub mod ClassName
pub mod Keeps
pub mod Dispatch
pub mod Coerce
pub mod Receiver
use z4j_celery.Prelude.{
  ℕ, ◌+◌, String, Bool, true, false, Option, none, some, List, [], ◌∷◌, ◌&&◌, if◌then◌else◌, ◌≡◌,
  refl,
}
use z4j_celery.Prelude.Int.{ℤ}
use z4j_celery.Prelude.Text.{take, is_empty}
use z4j_celery.Python.{
  Value, Values, null, bool, str, list, dict, values, elements, truthy, as_str, as_dict, get_value,
  Dict, get, remove, Io, pure, raise, lift, try_then, ◌>>=◌, Outcome, returned, raised, Exception,
  exception, attribute_error, type_error, other,
}
use z4j_celery.Events.Mapper.{
  Event, Stamp, About, build_task_started_event, build_task_succeeded_event,
  build_task_failed_event, build_task_retried_event, build_task_revoked_event,
}
use z4j_celery.Events.Mapper.Names.{Task, no_task, named}
use NameCache.{Cache, cache_name, resolve_name}
use ClassName.{class_name}
use Prim.Native.Char.{Char}
use mathlib.Core.Option

-- What the monitor uses: the other side of the sink is the world `W`.
pub record Host (W : Type 0) : Type 0 where
  pub scrub : Value → Value
  pub sink : Event → Io W Unit
  pub ack : Io W Unit
  -- the ids and the time of the next event
  pub stamp : W → Stamp
  -- `self._hostname_filter`, which may raise
  pub hostname_filter : Option (Value → Outcome Bool)
  -- whether `safe_boundary` absorbs an exception
  pub absorbs : Exception → Bool
  -- `int(float(runtime) * 1000)`, which may raise
  pub milliseconds : Value → Outcome ℤ
  pub py_str : Value → String
  -- `\w`
  pub is_word : Char → Bool

pub record Monitor (W : Type 0) : Type 0 where
  pub name_cache : Cache
  pub poison_drop_count : ℕ
  pub world : W

-- `hash(v)` is defined, for a dictionary's key.
unfoldable mutual
  pub is_hashable : Value → Bool
  is_hashable (list vs) = false
  is_hashable (dict fs) = false
  is_hashable (Value.tuple vs) = are_hashable vs
  is_hashable _ = true

  pub are_hashable : Values → Bool
  are_hashable Values.nil = true
  are_hashable (Values.cons v vs) = is_hashable v && are_hashable vs

-- `d.get(key, default)`
abbrev pub get_default : String → Value → Dict Value → Value
get_default key default d = Option.get_or (get key d) default

pub data Handler : Type 0 where
  on_started on_succeeded on_failed on_retried on_revoked : Handler

abbrev pub type_handlers : Dict Handler
type_handlers =
    ("task-started", on_started)
    ∷ ("task-succeeded", on_succeeded)
    ∷ ("task-failed", on_failed)
    ∷ ("task-retried", on_retried)
    ∷ ("task-revoked", on_revoked)
    ∷ []

-- `type_handlers.get(ev.get("type", ""))`
abbrev pub handler_of : Value → Outcome (Option Handler)
handler_of (str s) = returned (get s type_handlers)
handler_of v =
    if is_hashable v
    then returned none
    else raised (exception type_error "TypeError" "unhashable type")

abbrev pub as_task : Option String → Task
as_task none = no_task
as_task (some s) = named s

-- An event's task id is a text: another value does not validate.
abbrev pub task_id_of : Dict Value → Outcome String
task_id_of ev = elim (get_default "uuid" (str "") ev) [
  | str s ↦ returned s
  | _ ↦ raised (exception other "ValidationError" "task_id")
]

module _ {W : Type 0} (host : Host W) (max : ℕ) where
  abbrev pub emit : Event → Io (Monitor W) Unit
  emit e s = let (r, w) = host.sink e s.world in (r, record s { world = w })

  abbrev pub learn : Dict Value → Io (Monitor W) Unit
  learn ev s = (returned tt, record s { name_cache = cache_name max ev s.name_cache })

  abbrev pub name_of : Dict Value → Io (Monitor W) (Option String)
  name_of ev s =
      let (name, c) = resolve_name ev s.name_cache in (returned name, record s { name_cache = c })

  abbrev pub forget : String → Io (Monitor W) Unit
  forget task_id s = (returned tt, record s { name_cache = remove task_id s.name_cache })

  abbrev pub new_stamp : Io (Monitor W) Stamp
  new_stamp s = (returned (host.stamp s.world), s)

  -- What the handlers pass to the mapper. A worker that is no text counts as missing.
  abbrev pub about_named : Dict Value → Option String → Io (Monitor W) About
  about_named ev name = lift (task_id_of ev) >>= λ task_id. pure (record {
    task_id = task_id;
    task = as_task name;
    queue = none;
    worker = as_str (get_value "hostname" ev);
  })

  abbrev pub about_of : Dict Value → Io (Monitor W) About
  about_of ev = name_of ev >>= about_named ev

  -- The common part of the handlers: what the event is about, and its stamp.
  abbrev pub with_about : Dict Value → (About → Stamp → Io (Monitor W) Unit) → Io (Monitor W) Unit
  with_about ev f = do about ← about_of ev; stamp ← new_stamp; f about stamp

  -- The last event of a task: its name is not needed any more.
  abbrev pub emit_last : (About → Stamp → Event) → About → Stamp → Io (Monitor W) Unit
  emit_last e about stamp = do _ ← emit (e about stamp); forget about.task_id

  abbrev pub emit_started : About → Stamp → Io (Monitor W) Unit
  emit_started about stamp =
      lift (build_task_started_event host.scrub stamp about null null) >>= emit

  unfoldable pub run_started : Dict Value → Io (Monitor W) Unit
  run_started ev = do _ ← learn ev; with_about ev emit_started

  abbrev pub runtime_of : Value → Outcome (Option ℤ)
  runtime_of null = returned none
  runtime_of v = elim (host.milliseconds v) [ returned n ↦ returned (some n) | raised e ↦ raised e ]

  abbrev pub succeeded_event : Dict Value → Option ℤ → About → Stamp → Event
  succeeded_event ev runtime_ms about stamp =
      build_task_succeeded_event host.scrub stamp about (get_value "result" ev) runtime_ms

  unfoldable pub run_succeeded : Dict Value → Io (Monitor W) Unit
  run_succeeded ev = do
    runtime_ms ← lift (runtime_of (get_value "runtime" ev))
    with_about ev (emit_last (succeeded_event ev runtime_ms))

  abbrev pub exc_str : Dict Value → String
  exc_str ev =
      let exc = get_value "exception" ev in if truthy exc then host.py_str exc else "Unknown error"

  -- The type's name is read from the text's first 256 characters.
  abbrev pub exception_type : String → String
  exception_type text = Option.get_or (class_name host.is_word (take 256 text)) "Exception"

  -- The exception is a text.
  abbrev pub failed_event : Dict Value → About → Stamp → Event
  failed_event ev about stamp =
      build_task_failed_event host.scrub stamp about "str" (exc_str ev)
        (some (exception_type (exc_str ev))) (as_str (get_value "traceback" ev))

  unfoldable pub run_failed : Dict Value → Io (Monitor W) Unit
  run_failed ev = with_about ev (emit_last (failed_event ev))

  abbrev pub emit_retried : Dict Value → About → Stamp → Io (Monitor W) Unit
  emit_retried ev about stamp =
      emit (build_task_retried_event host.scrub stamp about (get_value "exception" ev) none)

  unfoldable pub run_retried : Dict Value → Io (Monitor W) Unit
  run_retried ev = with_about ev (emit_retried ev)

  abbrev pub revoked_event : Dict Value → About → Stamp → Event
  revoked_event ev about stamp =
      build_task_revoked_event host.scrub stamp about (get_default "terminated" (bool false) ev)
        (get_value "signum" ev) (get_default "expired" (bool false) ev)

  unfoldable pub run_revoked : Dict Value → Io (Monitor W) Unit
  run_revoked ev = with_about ev (emit_last (revoked_event ev))

  abbrev pub run_handler : Handler → Dict Value → Io (Monitor W) Unit
  run_handler on_started = run_started
  run_handler on_succeeded = run_succeeded
  run_handler on_failed = run_failed
  run_handler on_retried = run_retried
  run_handler on_revoked = run_revoked

  -- `@safe_boundary`
  abbrev pub guarded : Io (Monitor W) Unit → Io (Monitor W) Unit
  guarded m = try_then m pure (λ e. if host.absorbs e then pure tt else raise e)

  abbrev pub accepts : Dict Value → Outcome Bool
  accepts ev = elim host.hostname_filter [
    | none ↦ returned true
    | some f ↦ f (get_default "hostname" (str "") ev)
  ]

  abbrev pub run_optional : Dict Value → Option Handler → Io (Monitor W) Unit
  run_optional ev none = pure tt
  run_optional ev (some h) = guarded (run_handler h ev)

  abbrev pub handle_accepted : Dict Value → Io (Monitor W) Unit
  handle_accepted ev = lift (handler_of (get_default "type" (str "") ev)) >>= run_optional ev

  abbrev pub handle_event : Dict Value → Io (Monitor W) Unit
  handle_event ev =
      lift (accepts ev) >>= λ accepted. if accepted then handle_accepted ev else pure tt

  -- One element of a message: only a dictionary has a `get`.
  abbrev pub handle_element : Option (Dict Value) → Io (Monitor W) Unit
  handle_element none = raise (exception attribute_error "AttributeError" "get")
  handle_element (some ev) = handle_event ev

  unfoldable pub dispatch_one : Value → Io (Monitor W) Unit
  dispatch_one v = handle_element (as_dict v)

  unfoldable pub dispatch_all : List Value → Io (Monitor W) Unit
  dispatch_all [] = pure tt
  dispatch_all (v ∷ vs) = do _ ← dispatch_one v; dispatch_all vs

  -- `with contextlib.suppress(Exception): message.ack()`
  abbrev pub ack_quietly : Io (Monitor W) Unit
  ack_quietly s = (returned tt, record s { world = (host.ack s.world).1 })

  abbrev pub poisoned : Monitor W → Monitor W
  poisoned s = record s { poison_drop_count = s.poison_drop_count + 1 }

  -- A batch is a list of events.
  abbrev pub events_of : Value → List Value
  events_of (list vs) = elements vs
  events_of v = v ∷ []

  unfoldable pub dispatch : Value → Io (Monitor W) Unit
  dispatch body =
      try_then (dispatch_all (events_of body)) (λ _. ack_quietly)
        (λ e. λ s. ack_quietly (poisoned s))
