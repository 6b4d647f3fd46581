-- ===== src/Events/Mapper.antt =====
-- src/z4j_celery/events/mapper.py: the brain's events. The redaction engine is z4j_core's. A task
-- is given by what the mapper reads of it.
pub mod Names
pub mod Scrub
pub mod Traceback
pub mod Data
pub mod Redaction
use z4j_celery.Prelude.{
  ℕ, String, Bool, true, false, Option, none, some, List, [], ◌∷◌, map, if◌then◌else◌,
}
use z4j_celery.Prelude.Int.{ℤ}
use z4j_celery.Prelude.Text.{is_empty}
use z4j_celery.Python.{
  Value, null, bool, int, str, list, values, of_option_str, of_option_int, Dict, put, update,
  Outcome, returned, raised,
}
use z4j_celery.Meta.{TaskMeta}
use Names.{Task, get_meta, resolve_task_name}
use Scrub.{scrub_args, scrub_kwargs}
use Traceback.{traceback_tail, traceback_max_chars}
use mathlib.Core.Option

pub data EventKind : Type 0 where
  task_received task_started task_succeeded task_failed task_retried task_revoked : EventKind

-- The ids and the time that `uuid4()` and the clock give to an event.
pub record Stamp : Type 0 where
  pub id : String
  pub project_id : String
  pub agent_id : String
  pub occurred_at : ℤ

pub record Event : Type 0 where
  pub stamp : Stamp
  pub engine : String
  pub task_id : String
  pub kind : EventKind
  pub content : Dict Value

abbrev pub put_some : String → Value → Bool → Dict Value → Dict Value
put_some key value here d = if here then put key value d else d

abbrev pub is_some : {A : Type 0} → Option A → Bool
is_some none = false
is_some (some a) = true

abbrev pub nonempty : {A : Type 0} → List A → Bool
nonempty [] = false
nonempty (x ∷ xs) = true

abbrev meta_data : Option TaskMeta → Dict Value → Dict Value
meta_data none d = d
meta_data (some m) d =
    put_some "deadline_ms" (of_option_int m.deadline_ms) (is_some m.deadline_ms) (
      put_some "expected_duration_ms" (of_option_int m.expected_duration_ms)
        (is_some m.expected_duration_ms)
        (put_some "priority" (of_option_str m.priority) (is_some m.priority)
          (put_some "tags" (list (values (map str m.tags))) (nonempty m.tags) d)))

unfoldable pub base_data :
    String → Option String → Option String → Option TaskMeta → Dict Value → Dict Value
base_data task_name queue worker meta extra =
    update
      (meta_data meta (
        ("task_name", str task_name)
        ∷ ("queue", of_option_str queue)
        ∷ ("worker", of_option_str worker)
        ∷ []))
      extra

-- What all events share.
pub record About : Type 0 where
  pub task_id : String
  pub task : Task
  pub queue : Option String
  pub worker : Option String

abbrev pub event : Stamp → EventKind → About → Dict Value → Event
event stamp kind about extra =
    let name = resolve_task_name about.task none about.task_id about.queue in
    record {
      stamp = stamp;
      engine = "celery";
      task_id = about.task_id;
      kind = kind;
      content = base_data name about.queue about.worker (get_meta about.task) extra;
    }

abbrev pub optional_text : String → Option String → Dict Value
optional_text key none = []
optional_text key (some s) = if is_empty s then [] else (key, str s) ∷ []

abbrev pub then_event : Outcome Value → Outcome Value → (Value → Value → Event) → Outcome Event
then_event (raised e) kwargs f = raised e
then_event (returned args) (raised e) f = raised e
then_event (returned args) (returned kwargs) f = returned (f args kwargs)

module _ (scrub : Value → Value) (stamp : Stamp) (about : About) where
  -- `worker` is `None` in this event.
  unfoldable pub build_task_received_event :
      Value → Value → Option String → Option String → Outcome Event
  build_task_received_event args kwargs parent_task_id root_task_id =
      then_event (scrub_args scrub args (get_meta about.task))
        (scrub_kwargs scrub kwargs (get_meta about.task))
        (λ scrubbed_args scrubbed_kwargs.
          event stamp task_received (record about { worker = none })
            (update
              (update (("args", scrubbed_args) ∷ ("kwargs", scrubbed_kwargs) ∷ [])
                (optional_text "parent_task_id" parent_task_id))
              (optional_text "root_task_id" root_task_id)))

  unfoldable pub build_task_started_event : Value → Value → Outcome Event
  build_task_started_event args kwargs =
      then_event (scrub_args scrub args (get_meta about.task))
        (scrub_kwargs scrub kwargs (get_meta about.task))
        (λ scrubbed_args scrubbed_kwargs.
          event stamp task_started about
            (("args", scrubbed_args) ∷ ("kwargs", scrubbed_kwargs) ∷ []))

  abbrev pub redacts_result : Option TaskMeta → Bool
  redacts_result none = false
  redacts_result (some m) = m.redact_result

  abbrev pub scrub_present : Value → Value
  scrub_present null = null
  scrub_present v = scrub v

  unfoldable pub build_task_succeeded_event : Value → Option ℤ → Event
  build_task_succeeded_event result runtime_ms = event stamp task_succeeded about (
      (
        "result",
        if redacts_result (get_meta about.task) then str "[REDACTED]" else scrub_present result,
      )
      ∷ ("runtime_ms", of_option_int runtime_ms)
      ∷ [])

  -- `type_name` is `type(exception).__name__` and `message` is `str(exception)`.
  unfoldable pub build_task_failed_event : String → String → Option String → Option String → Event
  build_task_failed_event type_name message exception_type traceback =
      event stamp task_failed about (
        (
          "exception",
          str (elim exception_type [
            | none ↦ type_name
            | some t ↦ if is_empty t then type_name else t
          ]),
        )
        ∷ ("exception_message", scrub (str message))
        ∷ (
          "traceback",
          scrub_present (of_option_str (traceback_tail traceback traceback_max_chars)),
        )
        ∷ [])

  -- `einfo` is `str(einfo)`, if there is one.
  unfoldable pub build_task_retried_event : Value → Option String → Event
  build_task_retried_event reason einfo =
      event stamp task_retried about
        (("reason", scrub_present (elim reason [ null ↦ of_option_str einfo | r ↦ r ])) ∷ [])

  unfoldable pub build_task_revoked_event : Value → Value → Value → Event
  build_task_revoked_event terminated signum expired =
      event stamp task_revoked about
        (("terminated", terminated) ∷ ("signum", signum) ∷ ("expired", expired) ∷ [])
