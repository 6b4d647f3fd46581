-- ===== src/Tests/Publish.antt =====
-- A retry against a broker whose world counts the publishes, and the receiving thread against one
-- from which nothing comes.
use z4j_celery.Prelude.{
  ℕ, ◌+◌, ◌-◌, eqb, String, Bool, true, none, ◌≡◌, refl, ◌||◌, ◌==◌, eq_iff, arith, Bool-cases, inl,
  inr, if◌then◌else◌,
}
use z4j_celery.Prelude.Int.{pos}
use z4j_celery.Python.{
  Value, null, str, tuple, object, Values, Fields, Outcome, returned, raised, exception,
  timeout_error, Runtime, getattr,
}
use z4j_celery.Offload.{offload}
use z4j_celery.Actions.Retry.{Request, retry_task_action, do_retry_io, retry_name, publish}
use z4j_celery.Actions.Retry.Eta.{eta_from_timestamp}
use z4j_celery.Actions.Retry.Priority.{resolve_priority}
use z4j_celery.Actions.Retry.Arguments.{supplied_name, resolve_task_name, resolve_args}
use z4j_celery.Actions.Retry.Once.{Counted}
use z4j_celery.Events.Broker.Receiver.{run, stopped}
use z4j_celery.Events.Broker.Receiver.Statements.{Stopping}
use z4j_celery.Events.Broker.Receiver.Stops.{run_stops}
use z4j_celery.Tests.Demo.{app, demo_request}

-- Every object has a name, stored arguments and a new id.
abbrev answer : String → Value
answer name =
    if name == "name" || name == "id"
    then str "app.add"
    else if name == "args"
    then tuple Values.nil
    else if name == "kwargs"
    then Value.dict Fields.end
    else null

abbrev counting : Runtime
counting = record {
  World = ℕ;
  attribute = λ obj name sends. (returned (answer name), sends);
  call = λ obj name args kwargs sends.
      (returned (object 2), if name == "send_task" then sends + 1 else sends);
  py_str = λ v. "id";
  to_int = λ v. returned (pos 0);
  py_repr = λ v. "id";
  outlives = λ timeout before after. true;
  sleep = λ sends. sends;
  now = λ sends. pos 0;
  from_timestamp = λ v. returned (pos 0);
  environ = λ sends name. none;
}

counted : Counted counting app (λ sends. sends)
counted = record {
  observed = record {
    attributes = λ obj name w. refl;
    calls = λ obj name args kwargs other w. elim (Bool-cases (name == "send_task")) [
      | inl e ↦ absurd (other (ground (arith, eq_iff name "send_task", e)))
      | inr e ↦ rw e refl
    ];
  };
  send = λ args kwargs w. omega arith;
}

abbrev due : Request
due = record demo_request { eta = null }

published : (retry_task_action counting app due 4).1 ≡ 5
unfolding retry_task_action eta_from_timestamp offload do_retry_io resolve_priority getattr
    retry_name supplied_name resolve_task_name resolve_args publish
published = refl

-- A broker from which no event comes: `drain_events` times out, twice before the thread is to stop.
abbrev silent : Runtime
silent = record counting {
  call = λ obj name args kwargs left. (
    if name == "drain_events"
        then raised (exception timeout_error "TimeoutError" "")
        else returned (object 2),
    if name == "drain_events" then left - 1 else left,
  );
}

abbrev is_set : ℕ → Bool
is_set left = eqb left 0

abbrev wait : ℕ → Outcome (Unit {0}) × ℕ
wait left = (returned tt, left - 1)

stopping : Stopping silent is_set wait (λ left. left)
stopping = record {
  attributes = λ obj name w. (omega arith, λ e. e);
  calls = λ obj name args kwargs w. elim (Bool-cases (name == "drain_events")) [
    | inl e ↦ rw e (omega arith, λ k. ground (arith, k))
    | inr e ↦ rw e (omega arith, λ k. k)
  ];
  drains = λ conn kwargs w. omega arith;
  waits = λ w. (refl, omega arith);
  comes = λ w e. ground (arith, e);
}

run_stops_example : (run silent null is_set wait null app 4 2).0 ≡ returned stopped
run_stops_example =
    run_stops silent null is_set wait null app (λ left. left) stopping 4 2 (omega arith)
