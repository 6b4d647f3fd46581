-- ===== src/Discovery/Tasks.antt =====
-- src/z4j_celery/engine.py: `discover_tasks`, which asks both discoveries, and the deltas that the
-- watcher of a development setup reports.
pub mod Flags
pub mod Deltas
use z4j_celery.Prelude.{
  ℕ, suc, String, Bool, true, false, not, ◌&&◌, ◌||◌, Option, none, some, List, [], ◌∷◌, ◌++◌,
  length, ltb, ◌==◌, if◌then◌else◌,
}
use z4j_celery.Python.{Value, Exception, Outcome, returned, raised, Runtime}
use z4j_celery.Discovery.{TaskDefinition, merge_discoveries}
use z4j_celery.Discovery.Paths.{FilePath}
use z4j_celery.Discovery.Static.{Scan, done, failed, endless, Files, discover_static}
use z4j_celery.Discovery.Registry.{discover_runtime}

-- What the discovery runs on besides Celery: the files, their texts, and `inspect.signature`.
pub record Sources : Type 0 where
  pub files : Files
  pub read_text : FilePath → Outcome String
  pub inspect : Value → Outcome String

-- `if hints is not None and hints.app_paths`, with `None` for no hints.
abbrev pub static_tasks : Sources → Option (List FilePath) → Scan (List TaskDefinition)
static_tasks sources none = done []
static_tasks sources (some app_paths) = discover_static sources.files sources.read_text app_paths

abbrev pub merge_scan :
    List TaskDefinition → Scan (List TaskDefinition) → Scan (List TaskDefinition)
merge_scan runtime (done static) = done (merge_discoveries runtime static)
merge_scan runtime (failed e) = failed e
merge_scan runtime endless = endless

abbrev pub merge_outcome :
    Outcome (List TaskDefinition) → Scan (List TaskDefinition) → Scan (List TaskDefinition)
merge_outcome (returned runtime) static = merge_scan runtime static
merge_outcome (raised e) static = failed e

-- The hints that the adapter keeps.
abbrev pub cache_hints : Option (List FilePath) → Option (List FilePath) → Option (List FilePath)
cache_hints none cached = cached
cache_hints (some hints) cached = some hints

module _ (rt : Runtime) (sources : Sources) (celery_app : Value) where
  open rt use {World}

  unfoldable pub discover_tasks :
      Option (List FilePath)
      → Option (List FilePath)
      → World
      → Scan (List TaskDefinition) × Option (List FilePath) × World
  discover_tasks hints cached w =
      let (found, w') = discover_runtime rt sources.inspect sources.files.accepts celery_app w in
      (merge_outcome found (static_tasks sources hints), cache_hints hints cached, w')

-- z4j_core's `TaskRegistryDelta`, of this engine.
pub record Delta : Type 0 where
  pub added : List TaskDefinition
  pub removed : List TaskDefinition
  pub updated : List TaskDefinition

-- What the adapter keeps for the watcher: its hints, whether the loop is known, and the deltas that
-- wait for `subscribe_registry_changes`.
pub record Registry : Type 0 where
  pub discovery_hints : Option (List FilePath)
  pub has_loop : Bool
  pub delta_queue : List Delta

-- `asyncio.Queue(maxsize=100)`
abbrev pub delta_queue_maxsize : ℕ
delta_queue_maxsize = 100

-- `put_nowait`: a delta for a full queue is dropped.
unfoldable pub put_delta : Delta → Registry → Registry
put_delta delta r =
    if ltb (length r.delta_queue) delta_queue_maxsize
    then record r { delta_queue = r.delta_queue ++ delta ∷ [] }
    else r

-- `await self._registry_delta_queue.get()`: on an empty queue the consumer waits.
abbrev pub take_delta : Registry → List Delta → Option Delta × Registry
take_delta r [] = (none, r)
take_delta r (delta ∷ rest) = (some delta, record r { delta_queue = rest })

unfoldable pub get_delta : Registry → Option Delta × Registry
get_delta r = take_delta r r.delta_queue

abbrev pub report : Registry → Scan (List TaskDefinition) → Scan Registry
report r (done defs) = done (put_delta (record { added = defs; removed = []; updated = [] }) r)
report r (failed e) = done r
report r endless = endless

module _ (rt : Runtime) (sources : Sources) (celery_app : Value) where
  open rt use {World}

  abbrev pub rediscover_with : Registry → List FilePath → World → Scan Registry × World
  rediscover_with r hints w =
      let (found, cached, w') = discover_tasks rt sources celery_app (some hints) (some hints) w in
      (report r found, w')

  abbrev pub changed_with : Option (List FilePath) → Registry → World → Scan Registry × World
  changed_with none r w = (done r, w)
  changed_with (some hints) r w = if r.has_loop then rediscover_with r hints w else (done r, w)

  -- The callback of the watcher, and the coroutine that it schedules on the loop.
  unfoldable pub on_tasks_file_changed : Registry → World → Scan Registry × World
  unfolding put_delta discover_tasks
  on_tasks_file_changed r w = changed_with r.discovery_hints r w
