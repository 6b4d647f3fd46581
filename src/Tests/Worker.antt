-- ===== src/Tests/Worker.antt =====
-- The worker's command line and its agent, at concrete inputs.
use z4j_celery.Prelude.{◌≡◌, ◌↔◌, refl, String, true, false, none, List, [], ◌∷◌, ◌++◌}
use z4j_celery.Bootstrap.Argv.{
  argv_has_worker_subcommand, is_celery_worker_invocation, path_name, scan_options, probe,
}
use z4j_celery.Bootstrap.Argv.Launch.{
  IsWorker, argv_has_worker_subcommand-IsWorker, invocation_wrapped,
}
use z4j_celery.Bootstrap.Lifecycle.{
  Process, Reachable, initial, next, registers, ready, shuts_down, IsBalanced, reachable-IsBalanced,
  on_worker_ready, on_worker_shutdown, register_worker_bootstrap,
}
use z4j_celery.Tests.Demo.{demo_ready}

abbrev tokens : List String
tokens = "-A" ∷ "worker" ∷ "--quiet" ∷ "worker" ∷ "-l" ∷ "info" ∷ []

argv_has_worker_subcommand-IsWorker_example :
    (argv_has_worker_subcommand tokens ≡ true) ↔ IsWorker tokens
argv_has_worker_subcommand-IsWorker_example = argv_has_worker_subcommand-IsWorker tokens

invocation_wrapped_example :
    is_celery_worker_invocation ("/usr/bin/uv" ∷ ("run" ∷ "--frozen" ∷ []) ++ "celery" ∷ tokens)
    ≡ is_celery_worker_invocation ("celery" ∷ tokens)
unfolding path_name
invocation_wrapped_example =
    invocation_wrapped "/usr/bin/uv" ("run" ∷ "--frozen" ∷ []) tokens refl refl

abbrev python_line : List String
python_line = "-m" ∷ "celery" ∷ tokens

python_starts : is_celery_worker_invocation ("/usr/bin/python3" ∷ python_line) ≡ true
unfolding is_celery_worker_invocation argv_has_worker_subcommand scan_options path_name probe
python_starts = refl

inspect_does_not : is_celery_worker_invocation ("celery" ∷ "inspect" ∷ "worker" ∷ []) ≡ false
unfolding is_celery_worker_invocation argv_has_worker_subcommand scan_options path_name probe
inspect_does_not = refl

abbrev first : Process
first = record {
  runtime = none;
  signal_connected = false;
  connections = 0;
  started = [];
  stopped = [];
}

-- Registered twice, started, and shut down.
shut_down : Reachable (
    on_worker_shutdown (
      on_worker_ready demo_ready
        (register_worker_bootstrap true (register_worker_bootstrap true first))))
shut_down =
    next (next (next (next initial (registers true _)) (registers true _)) (ready demo_ready _))
      (shuts_down _)

reachable-IsBalanced_example : IsBalanced (
    on_worker_shutdown (
      on_worker_ready demo_ready
        (register_worker_bootstrap true (register_worker_bootstrap true first))))
reachable-IsBalanced_example = reachable-IsBalanced shut_down
