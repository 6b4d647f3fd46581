-- ===== src/Engine/WorkerConf.antt =====
-- The allowlist of worker settings, `_redact_worker_conf` of src/z4j_celery/engine.py: a setting
-- that is not on it never leaves the worker, credentials among them.
use z4j_celery.Prelude.{
  String, Bool, true, false, Option, none, some, List, [], ◌∷◌, ◌≡◌, refl, if◌then◌else◌,
}
use z4j_celery.Python.{Value, as_dict, Dict, get, keep_keys, member, get-keep_keys}

abbrev pub conf_allowlist : List String
conf_allowlist =
    "task_serializer" ∷ "result_serializer" ∷ "accept_content" ∷ "task_default_queue"
    ∷ "worker_concurrency" ∷ "worker_prefetch_multiplier" ∷ "worker_max_tasks_per_child"
    ∷ "worker_max_memory_per_child" ∷ "task_acks_late" ∷ "task_reject_on_worker_lost"
    ∷ "task_time_limit" ∷ "task_soft_time_limit" ∷ "broker_pool_limit" ∷ "broker_heartbeat"
    ∷ "timezone" ∷ "enable_utc" ∷ []

abbrev pub is_allowed : String → Bool
is_allowed k = member k conf_allowlist

abbrev pub redact_dict : Option (Dict Value) → Dict Value
redact_dict none = []
redact_dict (some cfg) = keep_keys is_allowed cfg

unfoldable pub redact_worker_conf : Value → Dict Value
redact_worker_conf cfg = redact_dict (as_dict cfg)

-- What a setting is before the redaction; what is no dictionary has no settings.
abbrev pub setting : String → Option (Dict Value) → Option Value
setting k none = none
setting k (some cfg) = get k cfg

either : (b : Bool) → none ≡ if◌then◌else◌ {A = Option Value} b none none
either true = refl
either false = refl

redact_dict_lem :
    (cfg : Option (Dict Value)) (k : String)
    → get k (redact_dict cfg) ≡ (if is_allowed k then setting k cfg else none)
unfolding get
redact_dict_lem none k = either (is_allowed k)
redact_dict_lem (some cfg) k = get-keep_keys is_allowed k cfg

-- A setting on the allowlist is passed on as it is, and every other is gone, whatever the worker
-- answered.
pub redact_worker_conf_lem :
    (cfg : Value) (k : String)
    → get k (redact_worker_conf cfg) ≡ (if is_allowed k then setting k (as_dict cfg) else none)
unfolding redact_worker_conf
redact_worker_conf_lem cfg k = redact_dict_lem (as_dict cfg) k
