-- ===== src/Lib.antt =====
-- The agent adapter between a Celery application and the z4j brain: it runs the operator's commands
-- against the broker, turns Celery's events into the brain's events, and starts with the worker.
--
-- Parts and files (paths from the repository's root):
--
-- Python: what the program uses of Python. Objects are the values that it inspects, Dicts its
-- dictionaries in insertion order, Effects statements that return or raise, Host the foreign code
-- that it runs against (Celery, kombu, the loop's wait_for, the clock, the environment): a record
-- Runtime over an abstract world, a parameter of every definition that uses it. An object of Celery
-- is opaque; its attributes and calls may do I/O and may raise. Prelude: lists, texts and integers
-- over the native numbers.
--
-- Offload: src/z4j_celery/_offload.py. offload runs a call on the pool under a timeout; the thread
-- is not cancelled, so the world after a timeout is the one that the call leaves; World says what
-- that means for it, and Publishing what an answer then says of a publish. Offload.Pool is the pool
-- behind its lock, and reset_offload_executor in a forked child.
--
-- Actions.Retry: retry_task_action of src/z4j_celery/actions/retry.py, with do_retry_io for the
-- work on the pool; Priority, Eta and Arguments are its helpers, Asked, Asks, Once and Closed say
-- what is published. Times are microseconds. Actions.Bulk: bulk_retry_action of the same file. Its
-- two loops are run_batches, on as many rounds as there are batches of 100 (rounds is the number
-- that the source's range has), and run_batch, on the ids; Asks follows the publishes through them.
-- Actions.Purge: src/z4j_celery/actions/purge.py; z4j_core's confirm tokens are a parameter.
-- Actions.Control: cancel.py, worker.py, rate_limit.py and dlq.py of the same folder, and the pool
-- and consumer methods of src/z4j_celery/engine.py.
--
-- Engine.EventQueue: the bounded queue of events and its loss counter in src/z4j_celery/engine.py
-- (_enqueue_event and the methods around it). The three attempts are recursion on 3. A held lock is
-- a call that waits: none. Its Window is the abstract view, the last events and how many were lost.
-- Engine.Submit: submit_task, whose Asks says what it publishes, and bulk_retry. Engine.Reconcile:
-- reconcile_task. Engine.WorkerConf: _redact_worker_conf.
--
-- Meta: src/z4j_celery/meta.py. Events.Mapper: src/z4j_celery/events/mapper.py; the redaction
-- engine of z4j_core is the parameter scrub, and a task is what the mapper reads of it (its name,
-- its __name__, its metadata). Events.Broker: src/z4j_celery/events/broker.py; dispatch is
-- _dispatch, run_started to run_revoked are the handlers, NameCache is the cache of names, whose
-- Remembered says how long. The sink, the acknowledgement, the hostname filter and safe_boundary
-- are the record Host. An id, a name or a worker's name that is no text counts as missing; the
-- cache's largest size is a parameter, 50,000 in the source.
--
-- Events.Broker.Receiver: the receiving thread of broker.py, on fuel, one step per wait for events
-- or per connection; Stops says how much is enough, from what Statements says of each statement.
-- Events.Broker.Coerce: the handler and the coercion that no event type leads to. Events.Signals:
-- src/z4j_celery/events/signals.py; what Celery passes to a handler is a Signal, Celery's objects
-- are asked through the Runtime. Its Wiring is the subscription, whose Registered says which
-- handlers Celery has, its Safe what a signal adds to the events.
--
-- Engine.Workers: the inspection of the workers in engine.py; a Query is what a best-effort query
-- has found when it ends, also by an exception. Engine.Health: get_health and its cache, whose
-- Reached is about the broker's depths; a clock is in milliseconds. Engine.Wiring: the sink's loop
-- and the hostname filter of connect_signals. Engine.Lifecycle: connect_signals and
-- disconnect_signals, over the hooks and the monitor that they make and drop; Releases says what is
-- left of these. Engine.Pipeline: dispatch, the sink, the loop's callbacks in their order, and the
-- queue, composed; Delivery follows an event through all of them. Engine.Actions: the adapter's
-- methods for the brain's commands, one constructor of Action each; Documented is what they rely on
-- of Python and z4j_core, Publishing and Purging say which of them answer.
--
-- Bootstrap.Framework: the framework's detection and the pool's recycling limits. Bootstrap.Argv:
-- the command line in src/z4j_celery/worker_bootstrap.py. Bootstrap.Lifecycle: the signals'
-- handlers there, as steps of a process. Discovery: src/z4j_celery/discovery/merger.py.
-- Discovery.Static: static.py of the same folder, over one snapshot of the files (a record Files,
-- with Python's parser and unparser and the constructor of a definition, which may refuse); Paths
-- is pathlib's pure paths, Syntax the syntax trees and what is read of them. The walk up the
-- directories is on fuel, one step per part of the path and one more: each level is asked once, and
-- an anchor is its own parent, so a walk that is not over then never is (endless).
-- Discovery.Registry: runtime.py. Discovery.Tasks: discover_tasks of engine.py and the deltas
-- behind the file watcher. Discovery.Watching: subscribe_registry_changes and _start_fs_watcher,
-- and the steps between them and the watcher's callback; the watcher, which is z4j_bare's, is the
-- record Watcher. Tests: a demonstration runtime, and the theorems at concrete inputs.
--
-- The parts meet where the source's do: Actions.Bulk calls Actions.Retry, whose work runs in
-- Offload; Engine.Actions and Engine.Submit call all of these; Engine.Pipeline joins Events.Broker
-- to Engine.EventQueue; Events.Broker builds its events with Events.Mapper, which reads Meta;
-- Bootstrap.Lifecycle decides by Bootstrap.Argv.
--
-- Not modelled: log lines; which loop and thread an event crosses beyond sink_loop; a change of the
-- files during one static scan; the wait of the monitor's stop for its thread, which is Python's;
-- the methods list_queues and list_workers, which return an empty list; the entry points, which
-- only import and call other packages.
pub mod Prelude
pub mod Python
pub mod Command
pub mod Offload
pub mod Actions
pub mod Engine
pub mod Events
pub mod Meta
pub mod Bootstrap
pub mod Discovery
mod Tests
