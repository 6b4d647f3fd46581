-- ===== src/Events/Signals/Wiring.antt =====
-- src/z4j_celery/events/signals.py: how the handlers are subscribed and unsubscribed. Celery's
-- signals are a parameter; each call of theirs may raise.
pub mod Registered
use z4j_celery.Prelude.{Bool, true, false, List, [], ◌∷◌, ◌++◌, if◌then◌else◌}
use z4j_celery.Python.{Io, pure, ◌>>=◌, returned}

pub data SignalName : Type 0 where
  received prerun postrun failure retry revoked : SignalName

-- The subscriptions of `connect`, in order.
abbrev pub all_signals : List SignalName
all_signals = received ∷ prerun ∷ postrun ∷ failure ∷ retry ∷ revoked ∷ []

pub record Celery (W : Type 0) : Type 0 where
  -- `from celery import signals`
  pub load : Io W Unit
  -- `signal.connect(handler, sender=…, weak=False)` and `signal.disconnect(handler)`
  pub connect_signal : SignalName → Io W Unit
  pub disconnect_signal : SignalName → Io W Unit

-- `_connected` and `_handlers`, beside the world that Celery's signals live in.
pub record Wiring (W : Type 0) : Type 0 where
  pub connected : Bool
  pub handlers : List SignalName
  pub world : W

-- What the runtime asks of the hooks.
pub data Call : Type 0 where
  to_connect to_disconnect : Call

-- The hooks as they are constructed.
abbrev pub new_hooks : {W : Type 0} → W → Wiring W
new_hooks w = record { connected = false; handlers = []; world = w }

module _ {W : Type 0} (celery : Celery W) where
  abbrev pub on_world : Io W Unit → Io (Wiring W) Unit
  on_world m s = let (r, w) = m s.world in (r, record s { world = w })

  abbrev pub append_handler : SignalName → Io (Wiring W) Unit
  append_handler name s = (returned tt, record s { handlers = s.handlers ++ name ∷ [] })

  unfoldable pub subscribe : SignalName → Io (Wiring W) Unit
  subscribe name = do _ ← on_world (celery.connect_signal name); append_handler name

  unfoldable pub subscribe_all : List SignalName → Io (Wiring W) Unit
  subscribe_all [] = pure tt
  subscribe_all (name ∷ names) = subscribe name >>= λ _. subscribe_all names

  abbrev pub set_connected : Io (Wiring W) Unit
  set_connected s = (returned tt, record s { connected = true })

  abbrev pub connect_all : Io (Wiring W) Unit
  connect_all = do _ ← on_world celery.load; _ ← subscribe_all all_signals; set_connected

  unfoldable pub connect : Io (Wiring W) Unit
  connect s = if s.connected then (returned tt, s) else connect_all s

  -- An exception of one handler does not keep the others subscribed.
  unfoldable pub unsubscribe_all : List SignalName → W → W
  unsubscribe_all [] w = w
  unsubscribe_all (name ∷ names) w = unsubscribe_all names (celery.disconnect_signal name w).1

  unfoldable pub disconnect : Wiring W → Wiring W
  disconnect s =
      if s.connected
      then record s { connected = false; handlers = []; world = unsubscribe_all s.handlers s.world }
      else s

  unfoldable pub serve : List Call → Wiring W → Wiring W
  unfolding connect disconnect
  serve [] s = s
  serve (to_connect ∷ requests) s = serve requests (connect s).1
  serve (to_disconnect ∷ requests) s = serve requests (disconnect s)
