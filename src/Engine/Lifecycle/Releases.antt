-- ===== src/Engine/Lifecycle/Releases.antt =====
-- What the adapter leaves behind of its sources of events.
use z4j_celery.Prelude.{
  Bool, true, false, Option, none, some, List, [], ◌∷◌, ◌++◌, ◌≡◌, refl, ◌⊎◌, arith, inl, inr,
  subst, Bool-cases,
}
use z4j_celery.Python.{
  All-snoc, Value, Outcome, returned, raised, Runtime, All, Settles, settled, Settles-then,
}
use z4j_celery.Events.Signals.Wiring.{Celery, Wiring, Call, to_connect, to_disconnect, disconnect}
use z4j_celery.Events.Broker.Receiver.{stop}
use z4j_celery.Engine.Lifecycle.{
  SignalHooks, BrokerMonitor, EventSources, listed, new_sources, wiring, thread, monitor_of,
  connect_hooks, ask_pool_type, start_monitor, connect_signals, drop_hooks, drop_monitor,
  disconnect_signals, serve_calls,
}

-- Whether the runtime is between a connect and a disconnect, behind the calls.
abbrev pub ends_connected : Bool → List Call → Bool
ends_connected held [] = held
ends_connected held (to_connect ∷ calls) = ends_connected true calls
ends_connected held (to_disconnect ∷ calls) = ends_connected false calls

-- No connect comes behind another without a disconnect between.
abbrev pub Alternates : Bool → List Call → Type 0
Alternates held [] = Unit
Alternates held (to_connect ∷ calls) = (held ≡ false) × Alternates true calls
Alternates held (to_disconnect ∷ calls) = Alternates false calls

-- A monitor that keeps no thread, and that has told the one that it had to stop.
abbrev pub IsStopped : BrokerMonitor → Type 0
IsStopped m = (m.has_thread ≡ false) × (m.has_run ≡ true → m.stop_set ≡ true)

-- A monitor that has had a thread still has it.
abbrev pub RunsOn : BrokerMonitor → Type 0
RunsOn m = m.has_run ≡ true → m.has_thread ≡ true

abbrev pub AllRunOn : Option BrokerMonitor → Type 0
AllRunOn none = Unit
AllRunOn (some m) = RunsOn m

abbrev pub IsUnconnected : SignalHooks → Type 0
IsUnconnected h = h.connected ≡ false

abbrev pub IsNone : {A : Type 0} → Option A → Type 0
IsNone o = o ≡ none

All-listed :
    {A : Type 0} (P : A → Type 0) (xs : List A) (o : Option A)
    → All P xs
    → IsNone o
    → All P (xs ++ listed o)
All-listed {A} P xs o h e = rw e (All-nil xs h)
  where
    All-nil : (xs : List A) → All P xs → All P (xs ++ [])
    All-nil [] h = h
    All-nil (x ∷ xs) h = (h.0, All-nil xs h.1)

module _ (rt : Runtime) (celery : Celery (Runtime.World rt)) (celery_app : Value) where
  open rt use {World}

  abbrev pub IsReleased : EventSources World → Type 0
  IsReleased s =
      All IsStopped s.dropped_monitors
      × All IsUnconnected s.dropped_hooks
      × AllRunOn s.broker_monitor

  abbrev IsUnmonitored : EventSources World → Type 0
  IsUnmonitored s = IsReleased s × IsNone s.broker_monitor

  abbrev IsIdle : EventSources World → Type 0
  IsIdle s = IsUnmonitored s × IsNone s.signal_hooks

  connect_hooks-Settles :
      (s : EventSources World)
      → IsIdle s
      → Settles IsUnmonitored IsReleased (connect_hooks rt celery celery_app s)
  unfolding connect_hooks
  connect_hooks-Settles s h =
      let hooks = All-listed IsUnconnected s.dropped_hooks s.signal_hooks h.0.0.1 h.1 in
      settled IsUnmonitored IsReleased _ _ ((h.0.0.0, hooks, h.0.0.2), h.0.1)
        (h.0.0.0, hooks, h.0.0.2)

  start_monitor-Settles :
      (s : EventSources World)
      → IsUnmonitored s
      → Settles IsReleased IsReleased (start_monitor rt celery celery_app s)
  unfolding start_monitor
  start_monitor-Settles s h =
      let monitors = All-listed IsStopped s.dropped_monitors s.broker_monitor h.0.0 h.1 in
      settled IsReleased IsReleased _ _ (monitors, h.0.1, λ e. e) (monitors, h.0.1, λ e. e)

  connect_signals-IsReleased :
      (s : EventSources World) → IsIdle s → IsReleased (connect_signals rt celery celery_app s).1
  unfolding connect_signals
  connect_signals-IsReleased s h =
      either (connect_signals rt celery celery_app s).0 (connect_signals rt celery celery_app s).1 (
        Settles-then IsUnmonitored IsReleased IsReleased (connect_hooks rt celery celery_app) _ s
          (connect_hooks-Settles s h)
          (λ a s' k.
            Settles-then IsUnmonitored IsReleased IsReleased (ask_pool_type rt celery celery_app) _
              s' k (λ b s'' l. start_monitor-Settles s'' l)))
    where
      either :
          (r : Outcome Unit) (s : EventSources World)
          → Settles IsReleased IsReleased (r, s)
          → IsReleased s
      either (returned a) s h = h
      either (raised e) s h = h

  disconnect-IsUnconnected : (t : Wiring World) → (disconnect celery t).connected ≡ false
  unfolding disconnect
  disconnect-IsUnconnected t = elim (Bool-cases t.connected) [
    | inl e ↦ rw e refl
    | inr e ↦ rw e refl
  ]

  stop-IsStopped :
      (m : BrokerMonitor) (w : World)
      → RunsOn m
      → IsStopped (monitor_of m (stop rt celery_app (thread m w)))
  unfolding stop
  stop-IsStopped m w runs = elim (Bool-cases m.has_thread) [
    | inl e ↦ rw e (refl, λ _. refl)
    | inr e ↦ (ground (arith, e), λ k. absurd (ground (arith, e, k, runs)))
  ]

  drop_hooks-IsReleased :
      (o : Option SignalHooks) (s : EventSources World)
      → s.signal_hooks ≡ o
      → IsReleased s
      → IsReleased (drop_hooks rt celery celery_app o s)
        × IsNone (drop_hooks rt celery celery_app o s).signal_hooks
  drop_hooks-IsReleased none s e h = (h, e)
  drop_hooks-IsReleased (some k) s e h = (
    (
      h.0,
      All-snoc IsUnconnected s.dropped_hooks _ h.1 (disconnect-IsUnconnected (wiring k s.world)),
      h.2,
    ),
    refl,
  )

  drop_monitor-IsReleased :
      (o : Option BrokerMonitor) (s : EventSources World)
      → s.broker_monitor ≡ o
      → IsReleased s × IsNone s.signal_hooks
      → IsIdle (drop_monitor rt celery celery_app o s)
  drop_monitor-IsReleased none s e h = ((h.0, e), h.1)
  drop_monitor-IsReleased (some m) s e h = (
    (
      (
        All-snoc IsStopped s.dropped_monitors _ h.0.0
            (stop-IsStopped m s.world (subst AllRunOn e h.0.2)),
        h.0.1,
        tt,
      ),
      refl,
    ),
    h.1,
  )

  disconnect_signals-IsIdle :
      (s : EventSources World) → IsReleased s → IsIdle (disconnect_signals rt celery celery_app s)
  unfolding disconnect_signals
  disconnect_signals-IsIdle s h =
      let s' = drop_hooks rt celery celery_app s.signal_hooks s in
      drop_monitor-IsReleased s'.broker_monitor s' refl
        (drop_hooks-IsReleased s.signal_hooks s refl h)

  abbrev IsEmpty : EventSources World → Type 0
  IsEmpty s = IsNone s.broker_monitor × IsNone s.signal_hooks

  abbrev pub Left : Bool → EventSources World → Type 0
  Left held s = IsReleased s × ((held ≡ true) ⊎ IsEmpty s)

  Left-IsIdle : (held : Bool) (s : EventSources World) → held ≡ false → Left held s → IsIdle s
  Left-IsIdle held s h (released, inl e) = absurd (ground (arith, h, e))
  Left-IsIdle held s h (released, inr empty) = ((released, empty.0), empty.1)

  serve_calls-Left :
      (held : Bool) (calls : List Call) (s : EventSources World)
      → Alternates held calls
      → Left held s
      → Left (ends_connected held calls) (serve_calls rt celery celery_app calls s)
  unfolding serve_calls
  serve_calls-Left held [] s a h = h
  serve_calls-Left held (to_connect ∷ calls) s a h =
      serve_calls-Left true calls (connect_signals rt celery celery_app s).1 a.1
        (connect_signals-IsReleased s (Left-IsIdle held s a.0 h), inl refl)
  serve_calls-Left held (to_disconnect ∷ calls) s a h =
      let idle = disconnect_signals-IsIdle s h.0 in
      serve_calls-Left false calls (disconnect_signals rt celery celery_app s) a
        (idle.0.0, inr (idle.0.1, idle.1))

  -- As long as no connect comes behind another without a disconnect between, and however the calls
  -- end: each monitor that the adapter no longer names keeps no thread, and has set its stop flag if
  -- it ever had one; of the hooks that it no longer names none counts as connected; and behind a
  -- disconnect it names neither.
  pub serve_calls_releases :
      (calls : List Call) (w : World)
      → Alternates false calls
      → Left (ends_connected false calls) (serve_calls rt celery celery_app calls (new_sources w))
  serve_calls_releases calls w a =
      serve_calls-Left false calls (new_sources w) a ((tt, tt, tt), inr (refl, refl))
