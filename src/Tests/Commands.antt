-- ===== src/Tests/Commands.antt =====
-- The commands, at concrete inputs.
use Prim.Native.Char.{Char}
use z4j_celery.Prelude.{
  ◌++◌, arith, zero, suc, ap, ◌<◌, ℕ, ◌+◌, ◌≡◌, refl, String, Bool, true, false, Option, some, List,
  [], ◌∷◌, length,
}
use z4j_celery.Prelude.Int.{negsuc, ℤ, pos}
use z4j_celery.Command.{CommandResult, failed}
use z4j_celery.Python.{Runtime, Value, int, bool, time, Dict, get, returned, IsDistinct, member}
use z4j_celery.Command.{succeeded}
use z4j_celery.Actions.Bulk.{bulk_retry_action, selected}
use z4j_celery.Actions.Bulk.Theorems.{Answers, ids, bulk_retry-counts, selected_negative}
use z4j_celery.Actions.Bulk.Breaker.{NeverAnswers, breaker_trips}
use z4j_celery.Actions.Purge.{probe, purge_step}
use z4j_celery.Actions.Purge.Guard.{IsAuthorised, LeavesAlone, unforced, purge_unforced}
use z4j_celery.Actions.Retry.{Request, retry_task_action}
use z4j_celery.Actions.Retry.Eta.{within_window}
use z4j_celery.Actions.Retry.Limits.{late, retry_refuses_eta}
use z4j_celery.Actions.Control.Rate.{is_rate, after_digit}
use z4j_celery.Engine.Reconcile.{reconcile_task, answer}
use z4j_celery.Engine.Reconcile.Answers.{engine_states, reconcile_answers}
use z4j_celery.Tests.Demo.{demo, demo_slow, app, demo_tokens, demo_request, differ}

two_tasks : IsDistinct ("a" ∷ "b" ∷ [])
two_tasks = ((differ "a" "b" refl, tt), (tt, tt))

bulk_retry-counts_example :
    (d : Dict Value) × (s : ℕ) × (f : ℕ) × (k : ℕ) × Answers demo app []
      (pos 5)
      "a"
      ("b" ∷ [])
      []
      []
      d
    × (get "requested" d ≡ some (int (pos (length (ids demo app [] (pos 5) "a" ("b" ∷ []) [] [])))))
    × (get "succeeded" d ≡ some (int (pos s)))
    × (get "failed" d ≡ some (int (pos f)))
    × (get "skipped" d ≡ some (int (pos k)))
    × (s + f + k ≡ length (ids demo app [] (pos 5) "a" ("b" ∷ []) [] []))
    × (get "circuit_broken" d ≡ some (bool false) → k ≡ 0)
bulk_retry-counts_example = bulk_retry-counts demo app [] (pos 5) "a" ("b" ∷ []) [] [] two_tasks

always : NeverAnswers demo_slow app
always timeout before after = refl

breaker_trips_example :
    (d : Dict Value) × ((bulk_retry_action demo_slow app []
        (pos 10)
        ("a" ∷ "b" ∷ "c" ∷ "d" ∷ [])
        []
        []).0
      ≡ returned (succeeded d))
    × (get "circuit_broken" d ≡ some (bool true))
    × (get "skipped" d ≡ some (int (pos 1)))
breaker_trips_example =
    breaker_trips demo_slow app always [] (pos 10) "a" ("b" ∷ "c" ∷ "d" ∷ []) [] [] "a" "b" "c"
      ("d" ∷ []) refl

purge_unforced_example :
    (depth : Option ℤ) × (w : List String) × (probe demo demo_tokens app "celery" []
      ≡ (returned depth, w))
    × (IsAuthorised demo demo_tokens app "celery" (some "celery") depth w
        → unforced demo demo_tokens app "celery" (some "celery") []
          ≡ purge_step demo demo_tokens app "celery" depth false w)
    × (¬ IsAuthorised demo demo_tokens app "celery" (some "celery") depth w
        → LeavesAlone demo demo_tokens app "celery" (some "celery") [] w)
purge_unforced_example = purge_unforced demo demo_tokens app "celery" (some "celery") []

-- One microsecond more than a year ahead of the demonstration's clock.
abbrev too_late : Request
too_late = record demo_request { eta = time (pos 31536000000001) }

abbrev far : Runtime
far = record demo { from_timestamp = λ v. returned (pos 31536000000001) }

retry_refuses_eta_example :
    (c : CommandResult) × (retry_task_action far app too_late [] ≡ (returned c, []))
    × (c.status ≡ failed)
retry_refuses_eta_example =
    retry_refuses_eta far app too_late [] refl (late (pos 31536000000001) refl (omega arith))

in_an_hour : within_window demo (pos 3600000000) (pos 0) ≡ returned (time (pos 3600000000))
unfolding within_window
in_an_hour = refl

abbrev no_digit : Char → Bool
no_digit c = false

bad_rate : is_rate no_digit "7/d" ≡ false
unfolding is_rate after_digit
bad_rate = refl

reconcile_answers_example :
    (state : String) × (finished_at : Value) × (exc_info : Value) × ((member state engine_states
        ≡ true)
      × ((reconcile_task demo app "task-1" []).0
          ≡ returned (answer "task-1" state finished_at exc_info)))
reconcile_answers_example = reconcile_answers demo app "task-1" []

fill : ℕ → List String
fill zero = []
fill (suc n) = "task" ∷ fill n

length-fill : (n : ℕ) → length (fill n) ≡ n
unfolding fill
length-fill zero = refl
length-fill (suc n) = ap suc (length-fill n)

selected_negative_example :
    (dropped : List String) × (selected (negsuc 0) (fill 10002) ++ dropped ≡ fill 10002)
    × (length dropped ≡ 1)
    × (10000 < length (selected (negsuc 0) (fill 10002)))
selected_negative_example = selected_negative 0 (fill 10002) (omega (arith, length-fill 10002))
