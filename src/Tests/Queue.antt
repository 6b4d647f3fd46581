-- ===== src/Tests/Queue.antt =====
-- The event queue at concrete inputs.
use z4j_celery.Prelude.{ℕ, ◌≡◌, arith, none, some, List, [], ◌∷◌}
use z4j_celery.Engine.EventQueue.{Adapter}
use z4j_celery.Engine.EventQueue.Loss.{Op, put, take, run, fresh, arrived, Accounts, run-Accounts}
use z4j_celery.Engine.EventQueue.Window.{Refines, replay, empty, run-Refines}

abbrev arrivals : List (Op ℕ)
arrivals = put 1 ∷ put 2 ∷ put 3 ∷ take ∷ []

run-Accounts_example :
    (a : Adapter ℕ) × (taken : List ℕ) × (run 2 7 arrivals (fresh 2 7) [] ≡ some (a, taken))
    × Accounts 2 7 (arrived arrivals) taken a
run-Accounts_example = run-Accounts 2 7 arrivals (omega arith)

run-Refines_example :
    (a : Adapter ℕ) × (taken : List ℕ) × (run 2 7 arrivals (fresh 2 7) [] ≡ some (a, taken))
    × Refines 2 7 a taken (replay 2 arrivals empty)
run-Refines_example = run-Refines 2 7 arrivals (omega arith)

-- In a child of the process 7, whose counter and lock are inherited.
abbrev full : Adapter ℕ
full = record {
  events = 1 ∷ 2 ∷ [];
  event_loss_pid = 7;
  event_loss_lock = none;
  dropped_event_count = 3;
}
