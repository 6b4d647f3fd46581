-- ===== src/Tests/Sending.antt =====
-- What is published and what is not, and an event's way into the queue, at concrete inputs.
use z4j_celery.Prelude.{
  ◌++◌, String, ℕ, ◌+◌, false, none, some, List, [], ◌∷◌, ◌≡◌, refl, ◌==◌, eq_iff, arith,
  Bool-cases, inl, inr, if◌then◌else◌,
}
use z4j_celery.Prelude.Int.{pos}
use z4j_celery.Python.{
  list, values, fields, IsDistinct, Dict, get, Value, null, str, int, null, str, object, dict,
  returned, Runtime, Holds,
}
use z4j_celery.Actions.Retry.{Request, retry_task_action}
use z4j_celery.Actions.Retry.Reads
use z4j_celery.Actions.Bulk.{bulk_retry_action, selected, hints_of}
use z4j_celery.Actions.Bulk.Theorems.{Answers}
use z4j_celery.Actions.Bulk.Asks.{Resends}
use z4j_celery.Actions.Bulk.Publishes.{bulk_retry_asks}
use mathlib.Core.List.{Memᴰ}
use z4j_celery.Actions.Retry.Asked
use z4j_celery.Actions.Retry.Asks
use z4j_celery.Actions.Retry.Closed.{LacksArguments, IsFailed, retry_fails_closed}
use z4j_celery.Engine.EventQueue.{event_queue_maxsize}
use z4j_celery.Engine.Submit.{Submission, submit_task}
use z4j_celery.Engine.Submit.Reads.{is_publish}
use z4j_celery.Engine.Submit.Asks.{Publication, Logged, AsksFor, submit_asks}
use z4j_celery.Offload.Publishing.{Settled}
use z4j_celery.Engine.Pipeline.{Op, message, turn, take, new_pipe}
use z4j_celery.Engine.Pipeline.Delivery.{Ends, run_pipe_delivers}
use z4j_celery.Tests.Demo.{differ, app, demo_request, demo_host, started_fields}

-- The world counts the publishes; every object has an id and nothing else.
abbrev publishing : Runtime
publishing = record {
  World = ℕ;
  attribute = λ obj name sends. (returned (if name == "id" then str "id" else null), sends);
  call = λ obj name args kwargs sends.
      (returned (object 2), if is_publish name then sends + 1 else sends);
  py_str = λ v. "id";
  to_int = λ v. returned (pos 0);
  py_repr = λ v. "id";
  outlives = λ timeout before after. false;
  sleep = λ sends. sends;
  now = λ sends. pos 0;
  from_timestamp = λ v. returned (pos 0);
  environ = λ sends name. none;
}

abbrev submission : Submission
submission = record {
  name = "app.add";
  args = [];
  kwargs = [];
  queue = none;
  eta = null;
  priority = none;
}

-- The world is the log. A task of the registry is its own name.
abbrev task_name : Value → String
task_name (str s) = s
task_name _ = ""

abbrev first : List Value → Value
first [] = null
first (v ∷ vs) = v

abbrev logging : Runtime
logging = record {
  World = List Publication;
  attribute = λ obj name log. (returned (object 9), log);
  call = λ obj name args kwargs log.
      if name == "send_task"
      then (returned (object 2), log ++ (task_name (first args), kwargs) ∷ [])
      else if name == "apply_async"
      then (returned (object 2), log ++ (task_name obj, kwargs) ∷ [])
      else (returned (if name == "__getitem__" then first args else object 3), log);
  py_str = λ v. "id";
  to_int = λ v. returned (pos 0);
  py_repr = λ v. "id";
  outlives = λ timeout before after. false;
  sleep = λ log. log;
  now = λ log. pos 0;
  from_timestamp = λ v. returned (pos 7);
  environ = λ log name. none;
}

logged : Logged logging app (λ log. log) task_name (object 9)
unfolding z4j_celery.Python.getattr
logged = record {
  observed = record {
    attributes = λ obj name w. refl;
    calls = λ obj name args kwargs other w. elim (Bool-cases (name == "send_task")) [
      | inl e ↦ absurd (ground (arith, e, other))
      | inr e ↦ elim (Bool-cases (name == "apply_async")) [
        | inl d ↦ absurd (ground (arith, e, d, other))
        | inr d ↦ rw (e, d) refl
      ]
    ];
  };
  sends = λ name kwargs w. refl;
  applies = λ task kwargs w. refl;
  registry = λ w. refl;
  lookups = λ name w. refl;
}

abbrev delayed : Submission
delayed = record submission { queue = some "fast"; eta = int (pos 7) }

submit_asks_example :
    Settled logging
      (λ log. log)
      (AsksFor logging app delayed)
      (submit_task logging app delayed []).0
      []
      (submit_task logging app delayed []).1
submit_asks_example = submit_asks logging app (λ log. log) task_name (object 9) logged delayed []

-- The same, where a retry's publish is the only one.
abbrev resending : Runtime
resending = record logging {
  call = λ obj name args kwargs log. (
    returned (object 2),
    if name == "send_task" then log ++ (task_name (first args), kwargs) ∷ [] else log,
  );
}

resent : Asks.Logged resending app (λ log. log)
resent = record {
  observed = record {
    attributes = λ obj name w. refl;
    calls = λ obj name args kwargs other w. elim (Bool-cases (name == "send_task")) [
      | inl e ↦ absurd (other (ground (arith, eq_iff name "send_task", e)))
      | inr e ↦ rw e refl
    ];
  };
  sends = λ name kwargs w. refl;
}

abbrev overriding : Request
overriding = record demo_request {
  task_name = some "app.add";
  override_args = some (int (pos 1) ∷ []);
  override_kwargs = some [];
  eta = int (pos 0);
}

retry_asks_example :
    Settled resending
      (λ log. log)
      (Asked.AsksFor resending app overriding (pos 0))
      (retry_task_action resending app overriding []).0
      []
      (retry_task_action resending app overriding []).1
retry_asks_example = Asks.retry_asks resending app (λ log. log) resent overriding []

-- The same with a backend that stored the name and the arguments.
abbrev restoring : Runtime
restoring = record resending {
  attribute = λ obj name log. (
    returned (
        if name == "args"
        then list (values [])
        else if name == "kwargs"
        then dict (fields [])
        else str "app.add"),
    log,
  );
}

restored : Asks.Logged restoring app (λ log. log)
restored = record {
  observed = record { attributes = λ obj name w. refl; calls = resent.observed.calls };
  sends = λ name kwargs w. refl;
}

abbrev resent_ids : List String
resent_ids = "b" ∷ []

two_ids : IsDistinct ("a" ∷ resent_ids)
two_ids = ((differ "a" "b" refl, tt), (tt, tt))

bulk_retry_asks_example :
    (d : Dict Value) × (s : ℕ) × (f : ℕ) × Answers restoring app [] (pos 5) "a" resent_ids [] [] d
    × (get "succeeded" d ≡ some (int (pos s)))
    × (get "failed" d ≡ some (int (pos f)))
    × Resends restoring app
        (hints_of [] [])
        (λ tid. Memᴰ tid (selected (pos 5) ("a" ∷ resent_ids)))
        []
        (bulk_retry_action restoring app [] (pos 5) ("a" ∷ resent_ids) [] []).1
        s
        (s + f)
bulk_retry_asks_example =
    bulk_retry_asks restoring app (λ log. log) restored (λ log. refl) [] (pos 5) "a" resent_ids []
      [] two_ids

-- A broker that only `send_task` publishes on, and a backend that stored nothing.
abbrev bare : Runtime
bare = record publishing {
  call = λ obj name args kwargs sends.
      (returned (object 2), if name == "send_task" then sends + 1 else sends);
}

unseen : Reads.Observed bare app (λ sends. sends)
unseen = record {
  attributes = λ obj name w. refl;
  calls = λ obj name args kwargs other w. elim (Bool-cases (name == "send_task")) [
    | inl e ↦ absurd (other (ground (arith, eq_iff name "send_task", e)))
    | inr e ↦ rw e refl
  ];
}

lacking : LacksArguments bare demo_request
lacking = inl (refl, λ obj w. refl)

retry_fails_closed_example :
    ((retry_task_action bare app demo_request 4).1 ≡ 4)
    × Holds IsFailed (retry_task_action bare app demo_request 4).0
retry_fails_closed_example =
    retry_fails_closed bare app demo_request lacking (λ sends. sends) unseen 4

abbrev ops : List Op
ops = message (dict started_fields) ∷ turn ∷ take ∷ []

run_pipe_delivers_example :
    Ends demo_host 5 event_queue_maxsize 1 1 none
      (some 1)
      ops
      (new_pipe demo_host 5 event_queue_maxsize 1 1 none (some 1) [])
      []
run_pipe_delivers_example =
    run_pipe_delivers demo_host 5 event_queue_maxsize 1 1 none (some 1) ops [] (omega arith)
