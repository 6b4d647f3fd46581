-- ===== src/Offload/Pool.antt =====
-- The module-level pool of src/z4j_celery/_offload.py: a lazy executor behind a lock, and its
-- reset in a forked child. A thread is a number; a pool is known by the process that made it.
use z4j_celery.Prelude.{ℕ, Option, none, some}

pub record Executor : Type 0 where
  pub pid : ℕ
  pub max_workers : ℕ

pub record Globals : Type 0 where
  pub executor : Option Executor
  -- the thread that holds `_lock`
  pub lock : Option ℕ

abbrev pub max_workers : ℕ
max_workers = 8

pub data Got : Type 0 where
  got : Executor → Got
  blocked : Got

-- A caller that finds the lock held waits: `blocked` until the holder goes on.
unfoldable pub get_executor : ℕ → Globals → Got × Globals
get_executor pid g = elim g.executor [
  | some e ↦ (got e, g)
  | none ↦ elim g.lock [
    | some holder ↦ (blocked, g)
    | none ↦
        let e : Executor = record { pid = pid; max_workers = max_workers } in
        (got e, record g { executor = some e })
  ]
]

-- Runs in the child of a fork, which has a copy of the globals and only the forking thread.
unfoldable pub reset_offload_executor : Globals → Globals
reset_offload_executor g = record { executor = none; lock = none }
