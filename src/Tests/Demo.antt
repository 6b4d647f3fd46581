-- ===== src/Tests/Demo.antt =====
-- Concrete objects for the tests: a Celery application whose broker logs each call, a host for the
-- monitor of broker events, and small inputs.
use z4j_celery.Prelude.{
  ◌*◌, String, Bool, true, false, none, some, List, [], ◌∷◌, ◌++◌, ◌==◌, ◌≡◌, ◌≢◌, eq_iff, arith,
  if◌then◌else◌,
}
use z4j_celery.Prelude.Int.{ℤ, pos}
use z4j_celery.Python.{
  Value, Values, Fields, int, str, tuple, dict, object, Dict, Outcome, returned, raised, exception,
  value_error, Runtime,
}
use z4j_celery.Actions.Purge.{Tokens}
use z4j_celery.Actions.Retry.{Request}
use z4j_celery.Meta.{TaskMeta}
use z4j_celery.Events.Mapper.{Stamp, About}
use z4j_celery.Events.Mapper.Names.{task_object}
use z4j_celery.Events.Broker.{Host, Monitor}
use z4j_celery.Bootstrap.Lifecycle.{Ready}

abbrev attributes : Dict Value
attributes =
    ("id", str "new-task")
    ∷ ("name", str "app.add")
    ∷ ("args", tuple Values.nil)
    ∷ ("kwargs", dict Fields.end)
    ∷ ("state", str "FAILURE")
    ∷ ("traceback", str "Traceback: boom")
    ∷ ("driver_type", str "redis")
    ∷ ("message_count", int (pos 5))
    ∷ []

abbrev find : String → Dict Value → Value
find name [] = object 1
find name ((k, v) ∷ d) = if k == name then v else find name d

abbrev pub timestamp : Value → Outcome ℤ
timestamp (int (pos n)) = returned (pos (n * 1000000))
timestamp _ = raised (exception value_error "ValueError" "no number")

abbrev text : Value → String
text (str s) = s
text _ = "object"

-- `slow` is whether every offloaded call outlives its timeout.
abbrev pub demo_with : Bool → Runtime
demo_with slow = record {
  World = List String;
  attribute = λ obj. λ name. λ log. (returned (find name attributes), log);
  call = λ obj. λ method. λ args. λ kwargs. λ log. (returned (object 2), log ++ method ∷ []);
  py_str = text;
  to_int = timestamp;
  py_repr = text;
  outlives = λ timeout. λ before. λ after. slow;
  sleep = λ log. log;
  now = λ log. pos 0;
  from_timestamp = timestamp;
  environ = λ log. λ name. none;
}

abbrev pub demo : Runtime
demo = demo_with false

abbrev pub demo_slow : Runtime
demo_slow = demo_with true

abbrev pub app : Value
app = object 7

-- A token is accepted if it is the queue's name.
abbrev pub demo_tokens : Tokens (List String)
demo_tokens = record {
  decode_agent_hmac_secret = λ raw. returned raw;
  compute_purge_confirm_token = λ secret. λ queue. λ depth. queue;
  legacy_purge_confirm_token = λ queue. λ depth. queue;
  verify_purge_confirm_token =
      λ provided. λ queue. λ depth. λ secret. λ legacy. (provided == queue, false);
  accept_legacy_from_env = λ log. false;
}

abbrev pub demo_request : Request
demo_request = record {
  task_id = "task-1";
  task_name = some "<unknown:default>";
  override_args = none;
  override_kwargs = none;
  eta = str "tomorrow";
  priority = str "High";
}

abbrev pub demo_meta : TaskMeta
demo_meta = record {
  redact_kwargs = "password" ∷ [];
  keep_kwargs = some ("user" ∷ "password" ∷ []);
  redact_result = true;
  tags = "billing" ∷ [];
  priority = some "high";
  expected_duration_ms = some (pos 20);
  deadline_ms = none;
  skip = false;
  sample_rate = pos 1000000;
}

abbrev pub demo_kwargs : Dict Value
demo_kwargs = ("user", str "ada") ∷ ("password", str "x") ∷ ("card", str "y") ∷ []

abbrev pub demo_stamp : Stamp
demo_stamp = record { id = "e"; project_id = "p"; agent_id = "a"; occurred_at = pos 1 }

abbrev pub demo_about : About
demo_about = record {
  task_id = "task-1";
  task = task_object (some "app.charge") none (some demo_meta);
  queue = some "default";
  worker = some "celery@one";
}

abbrev pub demo_scrub : Value → Value
demo_scrub v = str "scrubbed"

abbrev pub from_here : Value → Outcome Bool
from_here (str s) = returned (s == "celery@one")
from_here _ = returned false

-- The world counts the events that the sink got and the messages that were acknowledged.
abbrev pub demo_host : Host (List String)
demo_host = record {
  scrub = demo_scrub;
  sink = λ event. λ log. (returned tt, log ++ event.task_id ∷ []);
  ack = λ log. (returned tt, log ++ "ack" ∷ []);
  stamp = λ log. demo_stamp;
  hostname_filter = some from_here;
  absorbs = λ e. true;
  milliseconds = timestamp;
  py_str = text;
  is_word = λ c. true;
}

abbrev pub demo_monitor : Monitor (List String)
demo_monitor = record { name_cache = ("task-0", "app.old") ∷ []; poison_drop_count = 0; world = [] }

abbrev pub started_fields : Fields
started_fields = Fields.field "type" (str "task-started") (
    Fields.field "uuid" (str "task-1") (
      Fields.field "name" (str "app.charge")
        (Fields.field "hostname" (str "celery@one") Fields.end)))

abbrev pub foreign_fields : Fields
foreign_fields =
    Fields.field "type" (str "task-started")
      (Fields.field "uuid" (str "task-9") (Fields.field "hostname" (str "celery@two") Fields.end))

abbrev pub demo_ready : Ready
demo_ready = record {
  disabled = none;
  argv = "/usr/bin/celery" ∷ "-A" ∷ "app" ∷ "worker" ∷ [];
  celery_app = returned 1;
  install_agent = returned 42;
}

pub differ : (s t : String) → (s == t) ≡ false → s ≢ t
differ s t h = ground (arith, h, eq_iff s t)
