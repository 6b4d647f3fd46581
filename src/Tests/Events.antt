-- ===== src/Tests/Events.antt =====
-- The mapper's events and the worker's settings, at concrete inputs.
use Prim.Native.String.{◌++◌}
use z4j_celery.Prelude.{◌+◌, ◌≤◌, ◌<◌, ◌≡◌, arith, String, some, [], ◌∷◌, refl}
use z4j_celery.Prelude.Int.{pos}
use z4j_celery.Prelude.Text.{length}
use z4j_celery.Python.{Value, int, str, dict, fields, Dict, get}
use z4j_celery.Events.Mapper.{build_task_succeeded_event}
use z4j_celery.Events.Mapper.Names.{get_meta}
use z4j_celery.Events.Mapper.Scrub.{prepare_kwargs, disclosed, get-prepare_kwargs}
use z4j_celery.Events.Mapper.Redaction.{Shown, both_hidden, result_redacted}
use z4j_celery.Events.Mapper.Traceback.{
  traceback_tail, traceback_truncated_marker, traceback_tail_lem,
}
use z4j_celery.Tests.Demo.{demo_meta, demo_kwargs, demo_scrub, demo_stamp, demo_about}

get-prepare_kwargs_example :
    get "password" (prepare_kwargs (some demo_meta) demo_kwargs)
    ≡ disclosed (some demo_meta) demo_kwargs "password"
get-prepare_kwargs_example = get-prepare_kwargs (some demo_meta) demo_kwargs "password"

abbrev conf : Value
conf = dict (fields (("broker_url", str "redis://:pw@host") ∷ ("timezone", str "UTC") ∷ []))

meta_of_demo : get_meta demo_about.task ≡ some demo_meta
unfolding get_meta
meta_of_demo = refl

result_redacted_example :
    ((shown : Value) × Shown demo_scrub (get_meta demo_about.task) (str "token") shown
      × (get "result"
            (build_task_succeeded_event demo_scrub demo_stamp demo_about
              (str "token")
              (some (pos 3))).content
          ≡ some shown))
    × (build_task_succeeded_event demo_scrub demo_stamp demo_about (str "token") (some (pos 3))
        ≡ build_task_succeeded_event demo_scrub demo_stamp demo_about (str "other") (some (pos 3)))
result_redacted_example =
    result_redacted demo_scrub demo_stamp demo_about (str "token") (str "other") (some (pos 3))
      (both_hidden demo_meta meta_of_demo refl)

traceback_tail_lem_example :
    (length "abcdef" ≤ 2 → traceback_tail (some "abcdef") 2 ≡ some "abcdef")
    × (2 < length "abcdef"
        → (front : String) × (back : String) × (front ++ back ≡ "abcdef")
          × (length back ≡ 2)
          × (traceback_tail (some "abcdef") 2 ≡ some (traceback_truncated_marker ++ back))
          × (length (traceback_truncated_marker ++ back) ≡ 2 + 30))
traceback_tail_lem_example = traceback_tail_lem "abcdef" 2 (omega arith)

abbrev extra : Dict Value
extra = ("runtime_ms", int (pos 3)) ∷ []
