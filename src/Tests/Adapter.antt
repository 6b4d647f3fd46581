-- ===== src/Tests/Adapter.antt =====
-- The adapter's report and the handlers of the signals, at concrete inputs.
use z4j_celery.Prelude.{
  ℕ, String, true, false, none, some, List, [], ◌∷◌, ◌++◌, ◌≡◌, refl, inr, ◌==◌, ◌||◌,
  if◌then◌else◌,
}
use z4j_celery.Prelude.Int.{pos}
use z4j_celery.Python.{
  Value, null, str, int, dict, object, Fields, get, put, getattr, keep_keys, returned, raised,
  exception, attribute_error, value_error, Runtime,
}
use z4j_celery.Engine.WorkerConf.{redact_worker_conf}
use z4j_celery.Engine.Workers.{get_worker_details}
use z4j_celery.Engine.Workers.Redacted.{HidesSettings, get_worker_details-Hides}
use z4j_celery.Engine.Health.Reached.{IsHonest}
use z4j_celery.Engine.Health.{Cache, Health, get_health}
use z4j_celery.Engine.Health.Cached.{IsShort, Shows, get_health-Reports}
use z4j_celery.Events.Mapper.{Event}
use z4j_celery.Events.Mapper.Names.{no_task}
use z4j_celery.Events.Signals.{Hooks, Signal, task_postrun, handle_signal}
use z4j_celery.Events.Signals.Safe.Reads.{Observed}
use z4j_celery.Events.Signals.Safe.{reported, Reports, handle_signal_adds}
use z4j_celery.Events.Signals.Wiring.{
  SignalName, received, prerun, postrun, failure, retry, revoked, Celery, Call, to_connect,
  to_disconnect, new_hooks, serve, subscribe, subscribe_all, disconnect,
}
use z4j_celery.Events.Signals.Wiring.Registered.{Registers, serve_registers, TakenAway}
use z4j_celery.Prelude.{Bool, true, false, eqb, ℕ, if◌then◌else◌, arith}
use z4j_celery.Tests.Demo.{demo, app, demo_stamp}

abbrev ten : Value
ten = object 10

-- A worker that answers with its settings, a password among them, and nothing else.
abbrev settings : Value
settings = dict (
    Fields.field "broker_url" (str "redis://:secret@host")
      (Fields.field "timezone" (str "UTC") Fields.end))

abbrev answer : String → Value
answer method =
    if method == "conf"
    then dict (Fields.field "celery@a" settings Fields.end)
    else if method == "inspect" || method == "connection_for_write"
    then object 2
    else null

abbrev inspected : Runtime
inspected = record demo { call = λ obj method args kwargs log. (returned (answer method), log) }

shown :
    (get_worker_details inspected ten ten ten app (some "celery@a") []).0
    ≡ ("celery@a", ("conf", dict (Fields.field "timezone" (str "UTC") Fields.end)) ∷ []) ∷ []
unfolding get_worker_details getattr put get redact_worker_conf keep_keys
shown = refl

get_worker_details-Hides_example :
    HidesSettings (get_worker_details inspected ten ten ten app (some "celery@a") []).0
get_worker_details-Hides_example =
    get_worker_details-Hides inspected ten ten ten app (some "celery@a") []

abbrev no_stats : Cache
no_stats = record { last_worker_stats_at = 0; cached_worker_stats = [] }

abbrev clock : List String → ℕ
clock w = 70000

nothing_hidden : HidesSettings []
unfolding get
nothing_hidden worker = tt

get_health-Reports_example :
    (health : Health) × (cache' : Cache) × ((get_health inspected ten ten ten clock
        (some "celery@a")
        app
        no_stats
        []).0
      ≡ returned (health, cache'))
    × IsShort health.broker_error
    × Shows health.worker_details
    × HidesSettings cache'.cached_worker_stats
    × IsHonest inspected health.broker
    × (health.broker_error ≡ none → health.broker.broker_connected ≡ true)
get_health-Reports_example =
    get_health-Reports inspected ten ten ten clock (some "celery@a") app no_stats [] nothing_hidden

-- A run that has failed, where the world is the events that the sink has taken.
abbrev quiet : Runtime
quiet = record {
  World = List Event;
  attribute = λ obj name events. (raised (exception attribute_error "AttributeError" name), events);
  call = λ obj method args kwargs events. (returned null, events);
  py_str = λ v. "id";
  to_int = λ v. returned (pos 0);
  py_repr = λ v. "id";
  outlives = λ timeout before after. false;
  sleep = λ events. events;
  now = λ events. pos 0;
  from_timestamp = λ v. returned (pos 0);
  environ = λ events name. none;
}

abbrev hooks : Hooks (List Event)
hooks = record {
  scrub = λ v. v;
  sink = λ event events. (returned tt, events ++ event ∷ []);
  stamp = λ events. demo_stamp;
  absorbs = λ e. true;
  task_of = λ task events. (returned no_task, events);
  type_name = λ e. "ValueError";
  is_traceback = λ v. false;
  format_traceback = λ e tb. "traceback";
  format_exception = λ e. "traceback";
}

seen : Observed quiet hooks (λ events. events)
seen = record {
  attributes = λ obj name w. refl;
  calls = λ obj name args kwargs w. refl;
  tasks = λ task w. refl;
  sinks = λ e w. inr refl;
}

abbrev succeeded : Signal
succeeded = task_postrun (object 1) (str "id") (object 2) (int (pos 5)) (str "SUCCESS")

handle_signal_adds_example :
    Reports (reported succeeded) [] (handle_signal quiet hooks succeeded []).1
handle_signal_adds_example = handle_signal_adds quiet hooks (λ events. events) seen succeeded []

abbrev number : SignalName → ℕ
number received = 0
number prerun = 1
number postrun = 2
number failure = 3
number retry = 4
number revoked = 5

abbrev set : SignalName → Bool → (SignalName → Bool) → SignalName → Bool
set name b w n = if eqb (number n) (number name) then b else w n

-- The world is which signals have the handler; one of them raises when it is taken away.
abbrev celery : Celery (SignalName → Bool)
celery = record {
  load = λ w. (returned tt, w);
  connect_signal = λ name w. (returned tt, set name true w);
  disconnect_signal = λ name w. (
    if eqb (number name) 4 then raised (exception value_error "ValueError" "no") else returned tt,
    set name false w,
  );
}

set_same : (n : SignalName) (b : Bool) (w : SignalName → Bool) → set n b w n ≡ b
set_same n b w = ground arith

set_keeps : (name n : SignalName) (b : Bool) (w : SignalName → Bool) → w n ≡ b → set name b w n ≡ b
set_keeps name n b w h = ground (arith, h)

registers : Registers celery (λ w n. w n)
registers = record {
  loads = λ n w. refl;
  connects = λ n w _. set_same n true w;
  connects_other = λ name n w h. set_keeps name n true w h;
  disconnects = λ n w _. set_same n false w;
  disconnects_other = λ name n w h. set_keeps name n false w h;
}

abbrev requests : List Call
requests = to_connect ∷ to_disconnect ∷ to_connect ∷ []

abbrev nothing_set : SignalName → Bool
nothing_set n = false

reconnected : (serve celery requests (new_hooks nothing_set)).connected ≡ true
unfolding serve subscribe_all subscribe
reconnected = refl

serve_registers_example :
    ((serve celery requests (new_hooks nothing_set)).world revoked ≡ true)
    × TakenAway celery
        (λ w n. w n)
        registers
        revoked
        (disconnect celery (serve celery requests (new_hooks nothing_set))).world
serve_registers_example =
    serve_registers celery (λ w n. w n) registers requests nothing_set reconnected revoked
