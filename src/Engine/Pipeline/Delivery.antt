-- ===== src/Engine/Pipeline/Delivery.antt =====
-- What becomes of an event between a broker's message and the transport.
use z4j_celery.Prelude.{
  ℕ, zero, suc, ◌<◌, ◌≡◌, refl, ap, sym, subst, ◌∙◌, Option, none, some, List, [], ◌∷◌, ◌++◌,
}
use z4j_celery.Python.{Value}
use z4j_celery.Events.Mapper.{Event}
use z4j_celery.Events.Broker.{Host, Monitor, dispatch, dispatch_all, events_of}
use z4j_celery.Events.Broker.Keeps.{Basics, all-Keeps}
use z4j_celery.Events.Broker.Dispatch.{dispatch-Settles}
use z4j_celery.Engine.EventQueue.Loss.{Accounts, enqueue-Accounts, get-Accounts, fresh-Accounts}
use z4j_celery.Engine.Wiring.{sink_loop}
use z4j_celery.Engine.Pipeline.{
  Pipe, Op, message, turn, take, schedule, pipe_host, run_callback, take_event, with_pipe, step,
  run_pipe, new_pipe,
}
use mathlib.Core.List.{append_assoc}

-- How many messages came.
abbrev pub messages : List Op → ℕ
messages [] = 0
messages (message body ∷ ops) = suc (messages ops)
messages (turn ∷ ops) = messages ops
messages (take ∷ ops) = messages ops

-- The world outside after so many acknowledgements.
abbrev pub acknowledged : {W : Type 0} → Host W → ℕ → W → W
acknowledged host zero w = w
acknowledged host (suc n) w = acknowledged host n (host.ack w).1

module _ {W : Type 0} (host : Host W) (max maxsize : ℕ) (connect_pid pid : ℕ)
    (target_loop running_loop : Option ℕ) where
  -- What the sink gave to the loop is what has been enqueued and, behind it, what is scheduled; and
  -- the queue accounts for what has been enqueued.
  pub record Delivers (p : Pipe W) : Type 0 where
    pub enqueued : List Event
    pub order : p.given ≡ enqueued ++ p.scheduled
    pub accounts : Accounts maxsize pid enqueued p.taken p.adapter

  schedule-Delivers :
      (loop : Option ℕ) (event : Event) (p : Pipe W)
      → Delivers p
      → Delivers (schedule loop event p).1
  schedule-Delivers none event p h = h
  schedule-Delivers (some loop) event p h = record {
    enqueued = h.enqueued;
    order = ap (λ l. l ++ event ∷ []) h.order ∙ append_assoc h.enqueued p.scheduled (event ∷ []);
    accounts = h.accounts;
  }

  schedule-outside :
      (loop : Option ℕ) (event : Event) (p : Pipe W) → (schedule loop event p).1.outside ≡ p.outside
  schedule-outside none event p = refl
  schedule-outside (some loop) event p = refl

  abbrev the_host : Host (Pipe W)
  the_host = pipe_host host max maxsize connect_pid pid target_loop running_loop

  abbrev Kept : W → Monitor (Pipe W) → Type 0
  Kept w s = Delivers s.world × (s.world.outside ≡ w)

  basics : (w : W) → Basics the_host max (Kept w)
  basics w = record {
    keeps_emit = λ e s h.
        let loop = sink_loop connect_pid pid target_loop running_loop in
        (schedule-Delivers loop e s.world h.0, schedule-outside loop e s.world ∙ h.1);
    keeps_learn = λ ev s h. h;
    keeps_name = λ ev s h. h;
    keeps_forget = λ k s h. h;
  }

  message-Kept :
      (body : Value) (s : Monitor (Pipe W)) (w : W)
      → Kept w s
      → Kept (host.ack w).1 (dispatch the_host max body s).1
  message-Kept body s w h =
      let t = (dispatch_all the_host max (events_of the_host max body) s).1 in
      let kept = all-Keeps the_host max (Kept w) (basics w) (events_of the_host max body) s h in
      let settled = dispatch-Settles the_host max body s in
      subst (λ p. Delivers p × (p.outside ≡ (host.ack w).1)) (sym settled.acked_once)
        (
          record { enqueued = kept.0.enqueued; order = kept.0.order; accounts = kept.0.accounts },
          ap (λ u. (host.ack u).1) kept.1,
        )

  run_callback-Delivers :
      (events : List Event) (p : Pipe W)
      → 0 < maxsize
      → p.scheduled ≡ events
      → Delivers p
      → (p' : Pipe W) × (run_callback host max maxsize connect_pid pid target_loop running_loop
            events p
          ≡ some p')
        × Delivers p'
        × (p'.outside ≡ p.outside)
  run_callback-Delivers [] p pos e h = (p, refl, h, refl)
  run_callback-Delivers (event ∷ rest) p pos e h =
      let (a, enqueued, accounts) =
        enqueue-Accounts maxsize pid h.enqueued p.taken p.adapter event pos h.accounts in
      (
        record p { scheduled = rest; adapter = a },
        rw (enqueued, run_callback) refl,
        record {
          enqueued = h.enqueued ++ event ∷ [];
          order =
              h.order
              ∙ ap (λ l. h.enqueued ++ l) e
              ∙ sym (append_assoc h.enqueued (event ∷ []) rest);
          accounts = accounts;
        },
        refl,
      )

  take-Delivers :
      (p : Pipe W)
      → Delivers p
      → Delivers (take_event host max maxsize connect_pid pid target_loop running_loop p)
  take-Delivers p h = record {
    enqueued = h.enqueued;
    order = h.order;
    accounts = get-Accounts maxsize pid h.enqueued p.taken p.adapter h.accounts;
  }

  abbrev pub run_from : List Op → Monitor (Pipe W) → Option (Monitor (Pipe W))
  run_from = run_pipe host max maxsize connect_pid pid target_loop running_loop

  -- What a run leaves, which returns.
  abbrev pub Ends : List Op → Monitor (Pipe W) → W → Type 0
  Ends ops s w =
      (s' : Monitor (Pipe W)) × (run_from ops s ≡ some s')
      × Delivers s'.world
      × (s'.world.outside ≡ acknowledged host (messages ops) w)

  run-step :
      (op : Op) (ops : List Op) (s s' : Monitor (Pipe W))
      → step host max maxsize connect_pid pid target_loop running_loop op s ≡ some s'
      → run_from (op ∷ ops) s ≡ run_from ops s'
  unfolding run_pipe
  run-step op ops s s' h = rw (h, run_pipe) refl

  run-Ends : (ops : List Op) (s : Monitor (Pipe W)) (w : W) → 0 < maxsize → Kept w s → Ends ops s w
  unfolding run_pipe
  run-Ends [] s w pos h = (s, refl, h.0, h.1)
  run-Ends (message body ∷ ops) s w pos h =
      run-Ends ops (dispatch the_host max body s).1 (host.ack w).1 pos (message-Kept body s w h)
  run-Ends (turn ∷ ops) s w pos h =
      let (p, e, d, o) = run_callback-Delivers s.world.scheduled s.world pos refl h.0 in
      let (s', run, d', o') = run-Ends ops (record s { world = p }) w pos (d, o ∙ h.1) in
      (
        s',
        run-step turn ops s (record s { world = p })
              (ap (with_pipe host max maxsize connect_pid pid target_loop running_loop s) e)
            ∙ run,
        d',
        o',
      )
  run-Ends (take ∷ ops) s w pos h =
      run-Ends ops
        (record s {
          world = take_event host max maxsize connect_pid pid target_loop running_loop s.world;
        })
        w pos (take-Delivers s.world h.0, h.1)

  -- Through any messages, turns of the loop and reads by the transport, from a new monitor and a new
  -- adapter whose queue may hold anything: the loop never waits for a lock; what the sink gave to the
  -- loop is, in order, what has been enqueued and then what is scheduled; the queue never passes its
  -- size, and what is queued or taken is what was enqueued, in order, less as many events as the
  -- counter shows, up to its largest value; and each message is acknowledged once.
  pub run_pipe_delivers :
      (ops : List Op) (w : W)
      → 0 < maxsize
      → Ends ops (new_pipe host max maxsize connect_pid pid target_loop running_loop w) w
  run_pipe_delivers ops w pos =
      run-Ends ops (new_pipe host max maxsize connect_pid pid target_loop running_loop w) w pos
        (record { enqueued = []; order = refl; accounts = fresh-Accounts maxsize pid pos }, refl)
