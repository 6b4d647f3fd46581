-- ===== src/Discovery/Watching.antt =====
-- src/z4j_celery/engine.py: `subscribe_registry_changes` and `_start_fs_watcher`, with the callback
-- of a development setup's file watcher. The watcher itself is z4j_bare's.
pub mod Watched
use z4j_celery.Prelude.{
  ℕ, ◌+◌, ◌≤◌, String, Bool, true, false, not, ◌&&◌, Option, none, some, List, [], ◌∷◌, ◌++◌, ◌≡◌,
  refl, inl, inr, arith, Bool-cases, Option-cases, length, length-append, ltb, if◌then◌else◌,
}
use z4j_celery.Prelude.Text.{lower}
use z4j_celery.Python.{
  Value, member, Exception, Outcome, returned, raised, Io, pure, ◌>>=◌, Runtime, Settles, settled,
  Settles-then,
}
use z4j_celery.Discovery.{TaskDefinition}
use z4j_celery.Discovery.Paths.{FilePath}
use z4j_celery.Discovery.Static.{Scan, done, failed, endless}
use z4j_celery.Discovery.Tasks.{
  Sources, Registry, Delta, discover_tasks, cache_hints, delta_queue_maxsize, put_delta, get_delta,
  report, rediscover_with, on_tasks_file_changed,
}
use mathlib.Core.Option

-- z4j_bare's watcher and the running loop.
pub record Watcher (W : Type 0) : Type 0 where
  -- `from z4j_bare.watcher import TasksFileWatcher`
  pub load : Io W Unit
  pub has_running_loop : W → Bool
  -- `TasksFileWatcher(app_paths=…, on_change=…)` and its `start`
  pub start_watcher : List FilePath → Io W Bool

-- The adapter's registry and whether `_fs_watcher` is set, how many watchers have been started, and
-- the world.
pub record Watching (W : Type 0) : Type 0 where
  pub registry : Registry
  pub has_watcher : Bool
  pub started : ℕ
  pub world : W

abbrev pub new_watching : {W : Type 0} → W → Watching W
new_watching w = record {
  registry = record { discovery_hints = none; has_loop = false; delta_queue = [] };
  has_watcher = false;
  started = 0;
  world = w;
}

abbrev pub dev_values : List String
dev_values = "1" ∷ "true" ∷ "yes" ∷ "on" ∷ []

-- `os.environ.get("Z4J_DEV_MODE", "").lower() in (…)`
abbrev pub is_dev_mode : Option String → Bool
is_dev_mode value = member (lower (Option.get_or value "")) dev_values

abbrev pub has_paths : Option (List FilePath) → Bool
has_paths none = false
has_paths (some []) = false
has_paths (some (path ∷ paths)) = true

module _ (rt : Runtime) (watcher : Watcher (Runtime.World rt)) where
  open rt use {World, environ}

  abbrev pub on_world : {A : Type 0} → Io World A → Io (Watching World) A
  on_world m s = let (r, w) = m s.world in (r, record s { world = w })

  abbrev pub keep_loop : Io (Watching World) Unit
  keep_loop s = (returned tt, record s { registry = record s.registry { has_loop = true } })

  abbrev pub keep_watcher : Bool → Io (Watching World) Unit
  keep_watcher true s = (returned tt, record s { has_watcher = true; started = s.started + 1 })
  keep_watcher false s = (returned tt, record s { has_watcher = false })

  abbrev pub start_with_loop : Io (Watching World) Unit
  start_with_loop s =
      (do
        _ ← keep_loop
        is_started ← on_world (watcher.start_watcher (Option.get_or s.registry.discovery_hints []))
        keep_watcher is_started)
        s

  unfoldable pub start_fs_watcher : Io (Watching World) Unit
  start_fs_watcher = do
    _ ← on_world watcher.load
    λ s. if watcher.has_running_loop s.world then start_with_loop s else (returned tt, s)

  -- The beginning of `subscribe_registry_changes`, before it waits for deltas.
  unfoldable pub subscribe_registry_changes : Io (Watching World) Unit
  unfolding start_fs_watcher
  subscribe_registry_changes s =
      if is_dev_mode (environ s.world "Z4J_DEV_MODE")
        && has_paths s.registry.discovery_hints
        && not s.has_watcher
      then start_fs_watcher s
      else (returned tt, s)
