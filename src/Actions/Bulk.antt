-- ===== src/Actions/Bulk.antt =====
-- `bulk_retry_action` of src/z4j_celery/actions/retry.py.
pub mod Accounting
pub mod Theorems
pub mod Breaker
pub mod Asks
pub mod Publishes
use z4j_celery.Prelude.{
  ℕ, zero, suc, ◌+◌, ◌-◌, ◌/◌, String, Bool, true, false, Option, none, some, List, [], ◌∷◌, map,
  leb, if◌then◌else◌, length, take, drop,
}
use z4j_celery.Prelude.Int.{ℤ, pos, negsuc, ◌-ℤ◌, ltb_ℤ, min_ℤ}
use z4j_celery.Prelude.Text.{is_empty}
use z4j_celery.Python.{
  Value, null, bool, int, str, dict, fields, truthy, as_dict, as_str, get_value, Dict, put, Io,
  pure, ◌>>=◌, Runtime,
}
use z4j_celery.Command.{Status, success, failed, CommandResult, succeeded, refused}
use z4j_celery.Actions.Retry.{Request, retry_task_action}
use mathlib.Core.Option

abbrev pub bulk_retry_hard_cap : ℕ
bulk_retry_hard_cap = 10000

abbrev pub circuit_break_after : ℕ
circuit_break_after = 3

-- `ids[:n]`: a negative `n` counts from the end.
abbrev pub slice_to : {A : Type 0} → ℤ → List A → List A
slice_to (pos n) ids = take n ids
slice_to (negsuc n) ids = take (length ids - suc n) ids

-- `min(int(max), _BULK_RETRY_HARD_CAP)`
abbrev pub effective_cap : ℤ → ℤ
effective_cap max = min_ℤ max (pos bulk_retry_hard_cap)

abbrev pub is_capped : ℤ → List String → Bool
is_capped max ids = ltb_ℤ (effective_cap max) (pos (length ids))

-- The ids that are retried.
abbrev pub selected : ℤ → List String → List String
selected max ids = if is_capped max ids then slice_to (effective_cap max) ids else ids

-- The variables of the loop.
pub record Progress : Type 0 where
  pub new_task_ids : Dict String
  pub failures : Dict String
  pub consecutive_timeouts : ℕ
  pub broker_unhealthy : Bool
  pub processed : ℕ

abbrev pub start : Progress
start = record {
  new_task_ids = [];
  failures = [];
  consecutive_timeouts = 0;
  broker_unhealthy = false;
  processed = 0;
}

abbrev pub result_of : CommandResult → Dict Value
result_of single = Option.get_or single.result []

abbrev pub is_success : Status → Bool
is_success success = true
is_success failed = false

-- `single.result and single.result.get("indeterminate")`
abbrev pub is_indeterminate : CommandResult → Bool
is_indeterminate single = truthy (get_value "indeterminate" (result_of single))

-- Only a success resets the counter, and only a timeout raises it.
unfoldable pub count_timeout : CommandResult → ℕ → ℕ
count_timeout single n =
    if is_indeterminate single then n + 1 else if is_success single.status then 0 else n

-- `single.error or "unknown error"`
abbrev pub error_text : Option String → String
error_text none = "unknown error"
error_text (some s) = if is_empty s then "unknown error" else s

-- The new task's id, or why there is none.
unfoldable pub outcome_of : CommandResult → Option String × String
outcome_of single = elim single.status [
  | failed ↦ (none, error_text single.error)
  | success ↦ elim single.result [
    | none ↦ (none, error_text single.error)
    | some d ↦ (as_str (get_value "new_task_id" d), "missing new_task_id")
  ]
]

abbrev pub put_outcome : String → Option String × String → Progress → Progress
put_outcome tid (none, why) p = record p { failures = put tid why p.failures }
put_outcome tid (some id, why) p = record p { new_task_ids = put tid id p.new_task_ids }

unfoldable pub note : String → CommandResult → Progress → Progress
unfolding count_timeout outcome_of
note tid single p =
    let timeouts = count_timeout single p.consecutive_timeouts in
    record (put_outcome tid (outcome_of single) p) {
      consecutive_timeouts = timeouts;
      broker_unhealthy = leb circuit_break_after timeouts;
      processed = p.processed + 1;
    }

-- What the command carries for the tasks: their names and priorities, by id.
pub record Hints : Type 0 where
  pub task_names : Dict Value
  pub task_priorities : Dict Value

abbrev pub hints_of : Dict Value → Dict Value → Hints
hints_of filter task_priorities = record {
  task_names = Option.get_or (as_dict (get_value "task_names" filter)) [];
  task_priorities = task_priorities;
}

-- The retry of one id of the batch.
abbrev pub request_for : Hints → String → Request
request_for hints tid = record {
  task_id = tid;
  task_name = as_str (get_value tid hints.task_names);
  override_args = none;
  override_kwargs = none;
  eta = null;
  priority = get_value tid hints.task_priorities;
}

-- `for batch_start in range(0, len(ids), 100)`
abbrev pub rounds : List String → ℕ
rounds ids = (length ids + 99) / 100

abbrev pub bulk_result : Dict Value → List String → Bool → Progress → Dict Value
bulk_result filter ids capped p =
    ("filter", dict (fields filter))
    ∷ ("requested", int (pos (length ids)))
    ∷ ("succeeded", int (pos (length p.new_task_ids)))
    ∷ ("failed", int (pos (length p.failures)))
    ∷ ("skipped", int (pos (length ids) -ℤ pos p.processed))
    ∷ ("circuit_broken", bool p.broker_unhealthy)
    ∷ ("capped", bool capped)
    ∷ ("hard_cap", int (pos bulk_retry_hard_cap))
    ∷ ("new_task_ids", dict (fields (texts p.new_task_ids)))
    ∷ ("failures", dict (fields (texts p.failures)))
    ∷ []
  where
    texts : Dict String → Dict Value
    texts d = map (λ e. (e.0, str e.1)) d

module _ (rt : Runtime) (celery_app : Value) (hints : Hints) where
  open rt use {World, sleep}

  -- The inner loop, which breaks when the broker is seen to be unhealthy.
  unfoldable pub run_batch : List String → Progress → Io World Progress
  run_batch [] p = pure p
  run_batch (tid ∷ ids) p = do
    single ← retry_task_action rt celery_app (request_for hints tid)
    let p' = note tid single p
    elim p'.broker_unhealthy [ true ↦ pure p' | false ↦ run_batch ids p' ]

  -- The outer loop over batches of 100, with a turn for the event loop before each.
  unfoldable pub run_batches : ℕ → List String → Progress → Io World Progress
  run_batches zero ids p = pure p
  run_batches (suc n) ids p = elim p.broker_unhealthy [
    | true ↦ pure p
    | false ↦ λ w. (run_batch (take 100 ids) p >>= run_batches n (drop 100 ids)) (sleep w)
  ]

-- `ids` is empty where the command has no list.
unfoldable pub bulk_retry_action :
    (rt : Runtime)
    → Value
    → Dict Value
    → ℤ
    → List String
    → Dict Value
    → Io (Runtime.World rt) CommandResult
bulk_retry_action rt celery_app filter max [] task_priorities = pure (
    refused
      "bulk_retry requires an explicit task_ids list in v1; the brain should supply one based on the filter. Broker-walking support lands in Phase 2.")
bulk_retry_action rt celery_app filter max (first ∷ more) task_priorities =
    let ids = selected max (first ∷ more) in
    let capped = is_capped max (first ∷ more) in
    do
      p ← run_batches rt celery_app (hints_of filter task_priorities) (rounds ids) ids start
      pure (succeeded (bulk_result filter ids capped p))
