-- ===== src/Tests/Lifecycle.antt =====
-- The adapter's actions, its sources of events and its file watcher, at concrete inputs.
use z4j_celery.Prelude.{
  ◌≤◌, String, Bool, true, false, some, List, [], ◌∷◌, ◌++◌, ◌≡◌, refl, ◌⊎◌, inl, length, eqb,
  if◌then◌else◌,
}
use z4j_celery.Prelude.Int.{pos, negsuc}
use z4j_celery.Prelude.Text.{lower}
use z4j_celery.Python.{
  Value, null, bool, int, str, list, tuple, dict, time, object, returned, raised, exception,
  value_error, Runtime, Raises,
}
use z4j_celery.Engine.Actions.{retry}
use z4j_celery.Engine.Actions.Documented.{Documented, IsTimestampError}
use z4j_celery.Engine.Actions.Answers.{Kept, perform-Kept}
use z4j_celery.Events.Signals.Wiring.{Celery, Call, to_connect, to_disconnect}
use z4j_celery.Engine.Lifecycle.{new_sources, serve_calls}
use z4j_celery.Engine.Lifecycle.Releases.{Left, ends_connected, serve_calls_releases}
use z4j_celery.Discovery.Paths.{FilePath}
use z4j_celery.Discovery.Tasks.{discover_tasks, delta_queue_maxsize}
use z4j_celery.Discovery.Watching.{Watcher, Watching, new_watching, subscribe_registry_changes}
use z4j_celery.Discovery.Watching.Watched.{
  Reachable, initial, next, discovers, subscribes, discovered, count, Rediscovers,
  reachable_watched,
}
use z4j_celery.Tests.Demo.{demo, timestamp, app, demo_tokens, demo_request}
use z4j_celery.Tests.Scan.{sources}
use Prim.Native.Char.{Char}

read_timestamps : (eta : Value) → Raises IsTimestampError (timestamp eta)
read_timestamps null = inl refl
read_timestamps (bool b) = inl refl
read_timestamps (int (pos n)) = tt
read_timestamps (int (negsuc n)) = inl refl
read_timestamps (str s) = inl refl
read_timestamps (list vs) = inl refl
read_timestamps (tuple vs) = inl refl
read_timestamps (dict fs) = inl refl
read_timestamps (time t) = inl refl
read_timestamps (object n) = inl refl

documented : Documented demo demo_tokens
documented = record { timestamps = read_timestamps; ints = λ s. refl; secrets = λ raw. tt }

abbrev no_digit : Char → Bool
no_digit c = false

perform-Kept_example : Kept demo demo_tokens app no_digit (retry demo_request) []
perform-Kept_example = perform-Kept demo demo_tokens app no_digit documented (retry demo_request) []

-- Signals of which the third is refused.
abbrev celery : Celery (List String)
celery = record {
  load = λ log. (returned tt, log);
  connect_signal = λ name log. (
    if eqb (length log) 2 then raised (exception value_error "ValueError" "no") else returned tt,
    log ++ "connect" ∷ [],
  );
  disconnect_signal = λ name log. (returned tt, log);
}

abbrev calls : List Call
calls = to_connect ∷ to_disconnect ∷ to_disconnect ∷ to_connect ∷ []

serve_calls_releases_example :
    Left demo celery app
      (ends_connected false calls)
      (serve_calls demo celery app calls (new_sources []))
serve_calls_releases_example = serve_calls_releases demo celery app calls [] (refl, (refl, tt))

abbrev watcher : Watcher (List String)
watcher = record {
  load = λ log. (returned tt, log);
  has_running_loop = λ log. true;
  start_watcher = λ paths log. (returned true, log ++ "start" ∷ []);
}

abbrev dev : Runtime
dev = record demo { environ = λ log name. some "TRUE" }

abbrev paths : List FilePath
paths = record { absolute = true; parts = "app" ∷ [] } ∷ []

abbrev hinted : Watching (List String)
hinted = discovered dev sources watcher app (some paths) (new_watching [])

watching : Reachable dev sources watcher app (subscribe_registry_changes dev watcher hinted).1
watching = next (next (initial []) (discovers (some paths))) subscribes

reachable_watched_example :
    (length (subscribe_registry_changes dev watcher hinted).1.registry.delta_queue
      ≤ delta_queue_maxsize)
    × ((subscribe_registry_changes dev watcher hinted).1.started
        ≡ count (subscribe_registry_changes dev watcher hinted).1.has_watcher)
    × (((subscribe_registry_changes dev watcher hinted).1.has_watcher ≡ false)
        ⊎ Rediscovers dev sources watcher app (subscribe_registry_changes dev watcher hinted).1)
reachable_watched_example = reachable_watched dev sources watcher app watching

is_watching : (subscribe_registry_changes dev watcher hinted).1.started ≡ 1
unfolding subscribe_registry_changes lower discover_tasks
is_watching = refl
