-- ===== src/Engine/Lifecycle.antt =====
-- src/z4j_celery/engine.py: `connect_signals` and `disconnect_signals`, which compose the signal
-- hooks with the monitor of broker events. The adapter's objects are kept beside the world: those
-- that its fields name, and those that no field names any more.
pub mod Releases
use z4j_celery.Prelude.{Bool, false, ◌||◌, Option, none, some, List, [], ◌∷◌, ◌++◌}
use z4j_celery.Python.{Value, Io, Outcome, returned, ◌>>=◌, Runtime}
use z4j_celery.Events.Signals.Wiring.{
  SignalName, Celery, Wiring, Call, to_connect, to_disconnect, connect, disconnect,
}
use z4j_celery.Events.Broker.Receiver.{Thread, start, stop}
use z4j_celery.Engine.Health.{detect_pool_type}
use z4j_celery.Engine.Wiring.{filter_for, local_hostname}

-- A `CelerySignalHooks` and a `CeleryBrokerEventsMonitor`.
pub record SignalHooks : Type 0 where
  pub connected : Bool
  pub handlers : List SignalName

pub record BrokerMonitor : Type 0 where
  pub hostname_filter : Option (Value → Outcome Bool)
  pub has_thread : Bool
  pub stop_set : Bool
  -- whether it has ever had a thread, which the source does not keep
  pub has_run : Bool

-- `_signal_hooks` and `_broker_monitor`, and the objects that they named before.
pub record EventSources (W : Type 0) : Type 0 where
  pub signal_hooks : Option SignalHooks
  pub broker_monitor : Option BrokerMonitor
  pub dropped_hooks : List SignalHooks
  pub dropped_monitors : List BrokerMonitor
  pub world : W

abbrev pub listed : {A : Type 0} → Option A → List A
listed none = []
listed (some a) = a ∷ []

abbrev pub new_sources : {W : Type 0} → W → EventSources W
new_sources w = record {
  signal_hooks = none;
  broker_monitor = none;
  dropped_hooks = [];
  dropped_monitors = [];
  world = w;
}

abbrev pub wiring : {W : Type 0} → SignalHooks → W → Wiring W
wiring h w = record { connected = h.connected; handlers = h.handlers; world = w }

abbrev pub hooks_of : {W : Type 0} → Wiring W → SignalHooks
hooks_of s = record { connected = s.connected; handlers = s.handlers }

abbrev pub thread : {W : Type 0} → BrokerMonitor → W → Thread W
thread m w = record { has_thread = m.has_thread; stop_set = m.stop_set; world = w }

abbrev pub monitor_of : {W : Type 0} → BrokerMonitor → Thread W → BrokerMonitor
monitor_of m t = record m {
  has_thread = t.has_thread;
  stop_set = t.stop_set;
  has_run = m.has_run || t.has_thread;
}

-- `celery` is Celery's signals.
module _ (rt : Runtime) (celery : Celery (Runtime.World rt)) (celery_app : Value) where
  open rt use {World, environ}

  -- `self._signal_hooks = CelerySignalHooks(…)`, and its `connect`
  unfoldable pub connect_hooks : Io (EventSources World) Unit
  connect_hooks s =
      let (r, t) = connect celery (wiring (record { connected = false; handlers = [] }) s.world) in
      (
        r,
        record s {
          signal_hooks = some (hooks_of t);
          dropped_hooks = s.dropped_hooks ++ listed s.signal_hooks;
          world = t.world;
        },
      )

  -- The pool's type is only logged.
  abbrev pub ask_pool_type : Io (EventSources World) Unit
  ask_pool_type s = (returned tt, record s { world = (detect_pool_type rt celery_app s.world).1 })

  abbrev pub new_monitor : World → BrokerMonitor
  new_monitor w = record {
    hostname_filter =
        filter_for
          (local_hostname (environ w "Z4J_CELERY_LOCAL_HOSTNAME") (environ w "CELERY_HOSTNAME"));
    has_thread = false;
    stop_set = false;
    has_run = false;
  }

  -- `self._broker_monitor = CeleryBrokerEventsMonitor(…)`, and its `start`
  unfoldable pub start_monitor : Io (EventSources World) Unit
  start_monitor s =
      let m = new_monitor s.world in
      let (r, t) = start rt celery_app (thread m s.world) in
      (
        r,
        record s {
          broker_monitor = some (monitor_of m t);
          dropped_monitors = s.dropped_monitors ++ listed s.broker_monitor;
          world = t.world;
        },
      )

  unfoldable pub connect_signals : Io (EventSources World) Unit
  unfolding connect_hooks start_monitor
  connect_signals = do _ ← connect_hooks; _ ← ask_pool_type; start_monitor

  abbrev pub drop_hooks : Option SignalHooks → EventSources World → EventSources World
  drop_hooks none s = s
  drop_hooks (some h) s =
      let t = disconnect celery (wiring h s.world) in
      record s {
        signal_hooks = none;
        dropped_hooks = s.dropped_hooks ++ hooks_of t ∷ [];
        world = t.world;
      }

  abbrev pub drop_monitor : Option BrokerMonitor → EventSources World → EventSources World
  drop_monitor none s = s
  drop_monitor (some m) s =
      let t = stop rt celery_app (thread m s.world) in
      record s {
        broker_monitor = none;
        dropped_monitors = s.dropped_monitors ++ monitor_of m t ∷ [];
        world = t.world;
      }

  unfoldable pub disconnect_signals : EventSources World → EventSources World
  disconnect_signals s = let s' = drop_hooks s.signal_hooks s in drop_monitor s'.broker_monitor s'

  -- What the agent's runtime asks for, one call after another; it survives an exception.
  unfoldable pub serve_calls : List Call → EventSources World → EventSources World
  unfolding connect_signals disconnect_signals
  serve_calls [] s = s
  serve_calls (to_connect ∷ calls) s = serve_calls calls (connect_signals s).1
  serve_calls (to_disconnect ∷ calls) s = serve_calls calls (disconnect_signals s)
