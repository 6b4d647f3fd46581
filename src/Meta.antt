-- ===== src/Meta.antt =====
-- src/z4j_celery/meta.py: the metadata that `@z4j_meta` attaches to a task. The sample rate is in
-- millionths.
use z4j_celery.Prelude.{String, Bool, true, ◌||◌, Option, none, some, List, ◌==◌, if◌then◌else◌}
use z4j_celery.Prelude.Int.{ℤ, pos, ltb_ℤ}
use z4j_celery.Python.{exception, value_error, Outcome, returned, raised}

pub record TaskMeta : Type 0 where
  pub redact_kwargs : List String
  pub keep_kwargs : Option (List String)
  pub redact_result : Bool
  pub tags : List String
  pub priority : Option String
  pub expected_duration_ms : Option ℤ
  pub deadline_ms : Option ℤ
  pub skip : Bool
  pub sample_rate : ℤ

unfoldable pub is_priority : Option String → Bool
is_priority none = true
is_priority (some p) = p == "critical" || p == "high" || p == "normal" || p == "low"

-- `py_repr` writes the set of levels and the bad one into the message.
unfoldable pub z4j_meta : (Option String → String) → TaskMeta → Outcome TaskMeta
unfolding is_priority
z4j_meta message meta =
    if ltb_ℤ meta.sample_rate (pos 0) || ltb_ℤ (pos 1000000) meta.sample_rate
    then raised (exception value_error "ValueError" "sample_rate must be in [0.0, 1.0]")
    else if is_priority meta.priority
    then returned meta
    else raised (exception value_error "ValueError" (message meta.priority))
