-- ===== src/Tests/Broker.antt =====
-- The monitor of broker events, at concrete inputs.
use z4j_celery.Prelude.{
  ◌≢◌, ◌==◌, eq_iff, false, if◌then◌else◌, String, List, ◌≡◌, refl, arith, none, some, [], ◌∷◌,
  ◌++◌,
}
use z4j_celery.Python.{
  items, Value, str, list, dict, values, Dict, get, Outcome, returned, raised, exception,
  value_error,
}
use z4j_celery.Events.Broker.{
  Host, dispatch, dispatch_one, dispatch_all, run_started, events_of, poisoned, ack_quietly,
}
use z4j_celery.Events.Broker.Dispatch.{
  Settles, dispatch-Settles, dispatch-IsWellFormed, dispatch_malformed,
}
use z4j_celery.Events.Broker.NameCache.{Cache, resolve_name, cache_name}
use z4j_celery.Events.Broker.NameCache.Entries.{IsWellFormed}
use z4j_celery.Events.Broker.NameCache.Remembered.{
  Use, learning, asking, use_all, resolve_name-use_all,
}
use z4j_celery.Events.Mapper.{build_task_started_event}
use z4j_celery.Events.Mapper.Scrub.{scrub_args, scrub_kwargs}
use z4j_celery.Events.Broker.Coerce.{IsArgs, coerce_args, coerce_args-IsArgs}
use z4j_celery.Events.Broker.Dispatch.{handled}
use z4j_celery.Engine.Wiring.{local_hostname, filter_for, first_named, is_ours, worker_filter}
use z4j_celery.Prelude.Text.{strip}
use z4j_celery.Tests.Demo.{demo_host, demo_monitor, started_fields, foreign_fields, differ}

-- A started event and then a number.
abbrev batch : Value
batch = list (values (dict started_fields ∷ Value.object 3 ∷ dict started_fields ∷ []))

dispatch-Settles_example :
    Settles demo_host 2
      (dispatch_all demo_host 2 (events_of demo_host 2 batch) demo_monitor).0
      (dispatch_all demo_host 2 (events_of demo_host 2 batch) demo_monitor).1
      demo_monitor
      (dispatch demo_host 2 batch demo_monitor)
dispatch-Settles_example = dispatch-Settles demo_host 2 batch demo_monitor

demo-IsWellFormed : IsWellFormed 2 (("task-0", "app.old") ∷ [])
demo-IsWellFormed = record { distinct = (tt, tt); bounded = omega arith }

dispatch-IsWellFormed_example :
    IsWellFormed 2 (dispatch demo_host 2 batch demo_monitor).1.name_cache
dispatch-IsWellFormed_example =
    dispatch-IsWellFormed demo_host 2 batch demo_monitor demo-IsWellFormed

started_returns : (dispatch_all demo_host 2 (dict started_fields ∷ []) demo_monitor).0 ≡ returned tt
unfolding dispatch_all dispatch_one run_started build_task_started_event get scrub_args scrub_kwargs
started_returns = refl

dispatch_malformed_example :
    dispatch demo_host 2
      (list (values ((dict started_fields ∷ []) ++ Value.object 3 ∷ dict started_fields ∷ [])))
      demo_monitor
    ≡ ack_quietly demo_host 2
        (poisoned demo_host 2 (dispatch_all demo_host 2 (dict started_fields ∷ []) demo_monitor).1)
dispatch_malformed_example =
    dispatch_malformed demo_host 2 (dict started_fields ∷ []) (dict started_fields ∷ [])
      (Value.object 3) demo_monitor started_returns refl

-- The same monitor where CELERY_HOSTNAME names the worker.
abbrev named_host : Host (List String)
named_host = record demo_host {
  hostname_filter = filter_for (local_hostname none (some " celery@one "));
}

worker_filter_example : dispatch named_host 2 (dict foreign_fields) demo_monitor ≡ (
    if is_ours (first_named (none ∷ some " celery@one " ∷ [])) (items foreign_fields)
    then handled named_host 2 (items foreign_fields) demo_monitor
    else ack_quietly named_host 2 demo_monitor)
worker_filter_example =
    worker_filter named_host 2 none (some " celery@one ") foreign_fields demo_monitor refl

foreign : is_ours (first_named (none ∷ some " celery@one " ∷ [])) (items foreign_fields) ≡ false
unfolding strip get
foreign = refl

abbrev two_names : Cache
two_names = ("a", "app.a") ∷ ("b", "app.b") ∷ []

two-IsWellFormed : IsWellFormed 2 two_names
two-IsWellFormed = record {
  distinct = ((differ "a" "b" refl, tt), (tt, tt));
  bounded = omega arith;
}

abbrev earlier : Dict Value
earlier = ("uuid", str "task-1") ∷ ("name", str "app.charge") ∷ []

abbrev later : Dict Value
later = ("uuid", str "task-1") ∷ []

no_uuid : (s : String) → (s == "task-1") ≡ false → some s ≢ some "task-1"
no_uuid s h = ground (arith, h, eq_iff s "task-1")

-- Three uses by others: one fills the cache of four, one drops an entry of it, one moves an entry.
abbrev meanwhile : List Use
meanwhile =
    learning (("uuid", str "task-2") ∷ ("name", str "app.refund") ∷ [])
    ∷ learning (("uuid", str "task-3") ∷ ("name", str "app.report") ∷ [])
    ∷ asking (("uuid", str "b") ∷ [])
    ∷ []

in_four : IsWellFormed 4 two_names
in_four = record { distinct = two-IsWellFormed.distinct; bounded = omega arith }

resolve_name-use_all_example :
    (resolve_name later (use_all 4 meanwhile (cache_name 4 earlier two_names))).0
    ≡ some "app.charge"
unfolding get
resolve_name-use_all_example =
    resolve_name-use_all 4 earlier later meanwhile "task-1" "app.charge" two_names (omega arith)
      (no_uuid "task-2" refl, (no_uuid "task-3" refl, (tt, tt))) in_four refl refl refl refl

-- A parser that finds no literal.
abbrev no_literal : String → Outcome Value
no_literal s = raised (exception value_error "ValueError" s)

coerce_args-IsArgs_example : IsArgs no_literal (coerce_args no_literal (str "f(1)"))
coerce_args-IsArgs_example = coerce_args-IsArgs no_literal (str "f(1)")
