-- ===== src/Engine/Pipeline.antt =====
-- src/z4j_celery/engine.py with src/z4j_celery/events/broker.py: the way of an event from a broker's
-- message through the monitor, the sink of `connect_signals` and the loop into the queue, from
-- which the transport takes it. The loop's callbacks are kept in the order in which they came.
pub mod Delivery
use z4j_celery.Prelude.{ℕ, Option, none, some, List, [], ◌∷◌, ◌++◌}
use z4j_celery.Python.{Value, Io, Outcome, returned}
use z4j_celery.Events.Mapper.{Event}
use z4j_celery.Events.Broker.{Host, Monitor, dispatch}
use z4j_celery.Engine.EventQueue.{Adapter, enqueue_event, get_event}
use z4j_celery.Engine.EventQueue.Loss.{fresh, to_list}
use z4j_celery.Engine.Wiring.{sink_loop}

-- The callbacks that the loop has still to run, the adapter, what the transport has taken, all that
-- the sink gave to the loop, and the world outside.
pub record Pipe (W : Type 0) : Type 0 where
  pub scheduled : List Event
  pub adapter : Adapter Event
  pub taken : List Event
  pub given : List Event
  pub outside : W

pub data Op : Type 0 where
  message : (body : Value) → Op
  turn take : Op

-- `call_soon_threadsafe(self._enqueue_event, event)` of the loop, if there is one
abbrev pub schedule : {W : Type 0} → Option ℕ → Event → Io (Pipe W) Unit
schedule none event p = (returned tt, p)
schedule (some loop) event p =
    (returned tt, record p { scheduled = p.scheduled ++ event ∷ []; given = p.given ++ event ∷ [] })

abbrev pub outside : {W : Type 0} → Io W Unit → Io (Pipe W) Unit
outside m p = let (r, w) = m p.outside in (r, record p { outside = w })

-- The monitor's host with the adapter's sink.
abbrev pub piped : {W : Type 0} → Option ℕ → Host W → Host (Pipe W)
piped loop host = record {
  scrub = host.scrub;
  sink = schedule loop;
  ack = outside host.ack;
  stamp = λ p. host.stamp p.outside;
  hostname_filter = host.hostname_filter;
  absorbs = host.absorbs;
  milliseconds = host.milliseconds;
  py_str = host.py_str;
  is_word = host.is_word;
}

-- `max` and `maxsize` bound the monitor's cache and the queue.
module _ {W : Type 0} (host : Host W) (max maxsize : ℕ) (connect_pid pid : ℕ)
    (target_loop running_loop : Option ℕ) where
  abbrev pub pipe_host : Host (Pipe W)
  pipe_host = piped (sink_loop connect_pid pid target_loop running_loop) host

  -- One turn of the loop runs the oldest callback; `none` is a loop that waits for a lock.
  abbrev pub run_callback : List Event → Pipe W → Option (Pipe W)
  run_callback [] p = some p
  run_callback (event ∷ rest) p = elim (enqueue_event maxsize pid event p.adapter) [
    | none ↦ none
    | some a ↦ some (record p { scheduled = rest; adapter = a })
  ]

  abbrev pub take_event : Pipe W → Pipe W
  take_event p =
      let (event, a) = get_event p.adapter in
      record p { adapter = a; taken = p.taken ++ to_list event }

  abbrev pub with_pipe : Monitor (Pipe W) → Option (Pipe W) → Option (Monitor (Pipe W))
  with_pipe s none = none
  with_pipe s (some p) = some (record s { world = p })

  abbrev pub step : Op → Monitor (Pipe W) → Option (Monitor (Pipe W))
  step (message body) s = some (dispatch pipe_host max body s).1
  step turn s = with_pipe s (run_callback s.world.scheduled s.world)
  step take s = some (record s { world = take_event s.world })

  unfoldable pub run_pipe : List Op → Monitor (Pipe W) → Option (Monitor (Pipe W))
  run_pipe [] s = some s
  run_pipe (op ∷ ops) s = elim (step op s) [ none ↦ none | some s' ↦ run_pipe ops s' ]

  -- A new monitor of a new adapter.
  abbrev pub new_pipe : W → Monitor (Pipe W)
  new_pipe w = record {
    name_cache = [];
    poison_drop_count = 0;
    world = record {
      scheduled = [];
      adapter = fresh maxsize pid;
      taken = [];
      given = [];
      outside = w;
    };
  }
