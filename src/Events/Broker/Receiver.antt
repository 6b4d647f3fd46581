-- ===== src/Events/Broker/Receiver.antt =====
-- src/z4j_celery/events/broker.py: the receiving thread, its start and its stop. The loop is on
-- fuel, one step per wait for events or connection; `still_running` is a loop that has not ended, and
-- says nothing of the world.
pub mod Statements
pub mod Stops
use z4j_celery.Prelude.{
  ℕ, zero, suc, String, Bool, true, false, Option, none, some, List, [], ◌∷◌, if◌then◌else◌,
}
use z4j_celery.Python.{
  Value, Values, bool, str, list, Exception, Kind, timeout_error, os_error, Io, pure, raise, lift,
  try_then, ◌>>=◌, Outcome, returned, raised, Runtime, with_context,
}

-- How a loop ends, or that it has not.
pub data LoopEnd : Type 0 where
  stopped broken still_running : LoopEnd

-- What a call of `drain_events` means to the inner loop: `TimeoutError` is an `OSError`, and is
-- told apart first.
pub data Drained : Type 0 where
  again leave : Drained

abbrev pub is_broken : Exception → Bool
is_broken e = elim e.kind [ os_error ↦ true | _ ↦ false ]

abbrev pub is_timeout : Exception → Bool
is_timeout e = elim e.kind [ timeout_error ↦ true | _ ↦ false ]

-- `timeout` is the float 1.0, `is_set` reads the stop flag, `wait` waits for it for two seconds, and
-- `callback` is `_dispatch`.
module _ (rt : Runtime) (timeout : Value) (is_set : Runtime.World rt → Bool)
    (wait : Io (Runtime.World rt) Unit) (callback : Value) (celery_app : Value) where
  open rt use {World, attribute, call}

  abbrev pub drained_or_raise : Exception → Io World Drained
  drained_or_raise e =
      if is_timeout e then pure again else if is_broken e then pure leave else raise e

  abbrev pub drain : Value → Io World Drained
  drain conn =
      try_then (call conn "drain_events" [] (("timeout", timeout) ∷ [])) (λ _. pure again)
        drained_or_raise

  abbrev pub go_on : Io World LoopEnd → Drained → Io World LoopEnd
  go_on rest again = rest
  go_on rest leave = pure broken

  -- `while not self._stop.is_set()`, inside a connection
  unfoldable pub receive : ℕ → Value → Io World LoopEnd
  receive zero conn = pure still_running
  receive (suc n) conn = λ w.
      let rest = receive n conn in
      if is_set w then (returned stopped, w) else (drain conn >>= go_on rest) w

  abbrev pub one : Value → Value
  one v = list (Values.cons v Values.nil)

  abbrev pub make_consumer : Value → Io World Value
  make_consumer conn = do
    events ← attribute celery_app "events"
    recv ← call events "Receiver" (conn ∷ []) []
    queue ← attribute recv "queue"
    call conn "Consumer" []
        (("queues", one queue) ∷ ("callbacks", one callback) ∷ ("no_ack", bool false) ∷ [])

  abbrev pub consume : ℕ → Value → Io World LoopEnd
  consume n conn = do consumer ← make_consumer conn; with_context rt consumer (λ _. receive n conn)

  -- One connection, from its start to its end.
  unfoldable pub session : ℕ → Io World LoopEnd
  unfolding receive
  session n = do
    connection ← call celery_app "connection_for_read" [] []
    with_context rt connection (consume n)

  -- Behind a connection that has ended, the outer loop looks at the flag again.
  abbrev pub after_session : Io World LoopEnd → LoopEnd → Io World LoopEnd
  after_session rest still_running = pure still_running
  after_session rest stopped = rest
  after_session rest broken = rest

  -- An exception ends the thread if it is to stop, and else there is a wait.
  abbrev pub recover : Io World LoopEnd → Exception → Io World LoopEnd
  recover rest e w = if is_set w then (returned stopped, w) else (wait >>= λ _. rest) w

  unfoldable pub run : ℕ → Io World LoopEnd
  unfolding session
  run zero = pure still_running
  run (suc n) = λ w.
      let rest = run n in
      if is_set w
      then (returned stopped, w)
      else try_then (session n) (after_session rest) (recover rest) w

-- `_thread` and the flag `_stop`; the thread's start and the wait for its end are Python's.
pub record Thread (W : Type 0) : Type 0 where
  pub has_thread : Bool
  pub stop_set : Bool
  pub world : W

module _ (rt : Runtime) (celery_app : Value) where
  open rt use {World, attribute, call}

  -- `self._app.conf.name = True`
  abbrev pub set_conf : String → Io World Unit
  set_conf name = do
    conf ← attribute celery_app "conf"
    _ ← call conf "__setattr__" (str name ∷ bool true ∷ []) []
    pure tt

  abbrev pub enable_events : Io World Unit
  enable_events = do
    control ← attribute celery_app "control"
    _ ← call control "enable_events" [] []
    pure tt

  abbrev pub announce : Io World Unit
  announce = do
    _ ← set_conf "worker_send_task_events"
    _ ← set_conf "task_send_sent_event"
    try_then enable_events pure (λ _. pure tt)

  abbrev pub started_with : Outcome (Unit {0}) → Thread World → Thread World
  started_with (returned a) t = record t { has_thread = true; stop_set = false }
  started_with (raised e) t = t

  unfoldable pub start : Io (Thread World) Unit
  start t =
      if t.has_thread
      then (returned tt, t)
      else (let (r, w) = announce t.world in (r, started_with r (record t { world = w })))

  unfoldable pub stop : Thread World → Thread World
  stop t = if t.has_thread then record t { has_thread = false; stop_set = true } else t
