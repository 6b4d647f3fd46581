-- ===== src/Events/Signals/Safe.antt =====
-- What a signal adds to the events.
pub mod Reads
use z4j_celery.Prelude.{
  String, Bool, true, false, not, Option, none, some, List, [], ◌∷◌, ◌++◌, ◌≡◌, refl, ◌⊎◌, inl, inr,
  arith, Bool-cases, if◌then◌else◌,
}
use z4j_celery.Python.{
  Value, get_value, str, dict, Dict, py_or, as_dict, as_str, is_none, null, Outcome, returned,
  raised, Io, pure, raise, Exception, Runtime, hasattr, Holds, Fields, ◌>>=◌, getattr, getattr_or,
  is_missing, if_missing, Quiet, Quiet-then, Quiet-try, Does, Does-then, Does-try,
}
use z4j_celery.Events.Mapper.{
  Event, EventKind, About, Stamp, then_event, build_task_received_event, build_task_started_event,
  build_task_succeeded_event, build_task_failed_event, build_task_retried_event,
  build_task_revoked_event,
}
use z4j_celery.Events.Mapper.Names.{get_meta}
use z4j_celery.Events.Mapper.Scrub.{scrub_args, scrub_kwargs}
use z4j_celery.Events.Signals.{
  Hooks, Signal, task_received, task_prerun, task_postrun, task_failure, task_retry, task_revoked,
  handle_signal, get_field, get_present, is_success, get_id, about, received_request, on_received,
  on_prerun, on_postrun, on_failure, on_retry, on_revoked, given_traceback, traceback_text,
  routing_key, queue_of, queue_if_dict, new_stamp, with_about, emit_built, send_received,
  send_started, send_succeeded, send_failed, send_retried, send_revoked, text_if, failed_run,
  run_handler, text_or_own, read_own_traceback, einfo_traceback,
}
use z4j_celery.Events.Signals.Safe.Reads.{
  Observed, get_present-Quiet, get_field-Quiet, get_id-Quiet, about-Quiet, routing_key-Quiet,
  queue_of-Quiet, read_own_traceback-Quiet, text_or_own-Quiet, given_traceback-Quiet,
  einfo_traceback-Quiet, traceback_text-Quiet, boundary-Quiet,
}

-- The kind of the event that a signal stands for.
abbrev pub kind_of : Signal → EventKind
kind_of (task_received request) = EventKind.task_received
kind_of (task_prerun sender task_id task args kwargs) = EventKind.task_started
kind_of (task_postrun sender task_id task retval state) = EventKind.task_succeeded
kind_of (task_failure sender task_id exception traceback einfo) = EventKind.task_failed
kind_of (task_retry sender request reason einfo kwargs) = EventKind.task_retried
kind_of (task_revoked sender request terminated signum expired) = EventKind.task_revoked

-- A signal that must not be reported: a received task without a request, a failure without an
-- exception, or a run that has ended otherwise than with success.
abbrev pub is_silent : Signal → Bool
is_silent (task_received request) = is_none request
is_silent (task_failure sender task_id exception traceback einfo) = is_none exception
is_silent (task_postrun sender task_id task retval state) = not (is_success state)
is_silent _ = false

-- Nothing is added, or one event of the kind.
abbrev pub Adds : EventKind → List Event → List Event → Type 0
Adds kind l l' = (l' ≡ l) ⊎ ((e : Event) × (l' ≡ l ++ e ∷ []) × (e.kind ≡ kind))

-- The kind of the one event that a signal may add, if any.
abbrev pub reported : Signal → Option EventKind
reported signal = if is_silent signal then none else some (kind_of signal)

abbrev pub Reports : Option EventKind → List Event → List Event → Type 0
Reports none l l' = l' ≡ l
Reports (some kind) l l' = Adds kind l l'

nothing : (kind : EventKind) (l : List Event) → Adds kind l l
nothing kind l = inl refl

module _ (rt : Runtime) (hooks : Hooks (Runtime.World rt)) where
  open rt use {World}

  module _ (events : World → List Event) (seen : Observed rt hooks events) where
    emit-Adds :
        (kind : EventKind) (e : Event)
        → e.kind ≡ kind
        → Does events (Adds kind) (nothing kind) (hooks.sink e)
    emit-Adds kind e k w = elim (seen.sinks e w) [ inl h ↦ inl h | inr h ↦ inr (e, h, k) ]

    -- An event of the kind, made and sent.
    abbrev AddsOne : {A : Type 0} → EventKind → Io World A → Type 0
    AddsOne kind m = Does events (Adds kind) (nothing kind) m

    emit_built-Adds :
        (kind : EventKind) (o : Outcome Event)
        → Holds (λ e. e.kind ≡ kind) o
        → AddsOne kind (emit_built rt hooks o)
    emit_built-Adds kind (returned e) h = emit-Adds kind e h
    emit_built-Adds kind (raised x) h = λ w. inl refl

    with_about-Adds :
        (kind : EventKind) (task_id task : Value) (queue : Option String)
        (f : About → Stamp → Io World Unit)
        → ((a : About) (stamp : Stamp) → AddsOne kind (f a stamp))
        → AddsOne kind (with_about rt hooks task_id task queue f)
    with_about-Adds kind task_id task queue f h =
        Does-then events (Adds kind) (nothing kind) (about rt hooks task_id task queue) _
          (about-Quiet seen task_id task queue)
          (λ a.
            Does-then events (Adds kind) (nothing kind) (new_stamp rt hooks) (f a) (λ w. refl)
              (h a))

    then_event-kind :
        (kind : EventKind) (a b : Outcome Value) (f : Value → Value → Event)
        → ((v w : Value) → (f v w).kind ≡ kind)
        → Holds (λ e. e.kind ≡ kind) (then_event a b f)
    then_event-kind kind (raised e) b f h = tt
    then_event-kind kind (returned v) (raised e) f h = tt
    then_event-kind kind (returned v) (returned w) f h = h v w

    -- A statement of a handler that is not its last one.
    after :
        (kind : EventKind) {A : Type 0} (m : Io World A) (f : A → Io World Unit)
        → Quiet events m
        → ((a : A) → AddsOne kind (f a))
        → AddsOne kind (m >>= f)
    after kind m f q h = Does-then events (Adds kind) (nothing kind) m f q h

    send_received-Adds :
        (args kwargs : Value) (parent_id root_id : Option String) (a : About) (stamp : Stamp)
        → AddsOne EventKind.task_received
            (send_received rt hooks args kwargs parent_id root_id a stamp)
    unfolding build_task_received_event
    send_received-Adds args kwargs parent_id root_id a stamp =
        emit_built-Adds EventKind.task_received
          (build_task_received_event hooks.scrub stamp a args kwargs parent_id root_id)
          (then_event-kind EventKind.task_received (scrub_args hooks.scrub args (get_meta a.task))
            (scrub_kwargs hooks.scrub kwargs (get_meta a.task)) _ (λ v w. refl))

    send_started-Adds :
        (args kwargs : Value) (a : About) (stamp : Stamp)
        → AddsOne EventKind.task_started (send_started rt hooks args kwargs a stamp)
    unfolding build_task_started_event
    send_started-Adds args kwargs a stamp =
        emit_built-Adds EventKind.task_started
          (build_task_started_event hooks.scrub stamp a args kwargs)
          (then_event-kind EventKind.task_started (scrub_args hooks.scrub args (get_meta a.task))
            (scrub_kwargs hooks.scrub kwargs (get_meta a.task)) _ (λ v w. refl))

    received_request-Adds :
        (request : Value) → AddsOne EventKind.task_received (received_request rt hooks request)
    unfolding received_request
    received_request-Adds request =
        let kind = EventKind.task_received in
        after kind (get_id rt hooks request) _ (get_id-Quiet seen request) (λ task_id.
          after kind (get_field rt hooks request "task" null) _
            (get_field-Quiet seen request "task" null)
            (λ task.
              after kind (get_field rt hooks request "args" null) _
                (get_field-Quiet seen request "args" null)
                (λ args.
                  after kind (get_field rt hooks request "kwargs" null) _
                    (get_field-Quiet seen request "kwargs" null)
                    (λ kwargs.
                      after kind (queue_of rt hooks request) _ (queue_of-Quiet seen request)
                        (λ queue.
                          after kind (get_field rt hooks request "parent_id" null) _
                            (get_field-Quiet seen request "parent_id" null)
                            (λ parent_id.
                              after kind (get_field rt hooks request "root_id" null) _
                                (get_field-Quiet seen request "root_id" null)
                                (λ root_id.
                                  with_about-Adds kind task_id task (as_str queue)
                                    (send_received rt hooks args kwargs (text_if rt hooks parent_id)
                                      (text_if rt hooks root_id))
                                    (send_received-Adds args kwargs (text_if rt hooks parent_id)
                                      (text_if rt hooks root_id)))))))))

    failed_run-Adds :
        (sender task_id exception traceback einfo : Value)
        → AddsOne EventKind.task_failed
            (failed_run rt hooks sender task_id exception traceback einfo)
    unfolding build_task_failed_event
    failed_run-Adds sender task_id exception traceback einfo =
        after EventKind.task_failed (traceback_text rt hooks exception traceback einfo) _
          (traceback_text-Quiet seen exception traceback einfo)
          (λ tb_str.
            with_about-Adds EventKind.task_failed (py_or task_id (str "")) sender none
              (send_failed rt hooks exception tb_str)
              (λ a stamp. emit-Adds EventKind.task_failed _ refl))

    -- What a test on the signal's arguments lets through.
    only_if :
        (kind : EventKind) (b : Bool) (m : Io World Unit)
        → (b ≡ false → AddsOne kind m)
        → AddsOne kind (if b then pure tt else m)
    only_if kind true m h = λ w. inl refl
    only_if kind false m h = h refl

    run_handler-Adds : (signal : Signal) → AddsOne (kind_of signal) (run_handler rt hooks signal)
    unfolding on_received on_prerun on_postrun on_failure on_retry on_revoked
        build_task_succeeded_event build_task_retried_event build_task_revoked_event
    run_handler-Adds (task_received request) =
        only_if EventKind.task_received (is_none request) (received_request rt hooks request)
          (λ _. received_request-Adds request)
    run_handler-Adds (task_prerun sender task_id task args kwargs) =
        with_about-Adds EventKind.task_started (py_or task_id (str "")) (py_or task sender) none
          (send_started rt hooks args kwargs) (send_started-Adds args kwargs)
    run_handler-Adds (task_postrun sender task_id task retval state) =
        elim (Bool-cases (is_success state)) [
          | inr h ↦ rw h (λ w. inl refl)
          | inl h ↦ rw h (
              with_about-Adds EventKind.task_succeeded (py_or task_id (str "")) (py_or task sender)
                none (send_succeeded rt hooks retval)
                (λ a stamp. emit-Adds EventKind.task_succeeded _ refl))
        ]
    run_handler-Adds (task_failure sender task_id exception traceback einfo) =
        only_if EventKind.task_failed (is_none exception)
          (failed_run rt hooks sender task_id exception traceback einfo)
          (λ _. failed_run-Adds sender task_id exception traceback einfo)
    run_handler-Adds (task_retry sender request reason einfo kwargs) =
        after EventKind.task_retried (get_id rt hooks request) _ (get_id-Quiet seen request)
          (λ task_id.
            with_about-Adds EventKind.task_retried
              (py_or (py_or task_id (get_value "task_id" kwargs)) (str "")) sender none
              (send_retried rt hooks reason einfo)
              (λ a stamp. emit-Adds EventKind.task_retried _ refl))
    run_handler-Adds (task_revoked sender request terminated signum expired) =
        after EventKind.task_revoked (get_id rt hooks request) _ (get_id-Quiet seen request)
          (λ task_id.
            with_about-Adds EventKind.task_revoked task_id sender none
              (send_revoked rt hooks terminated signum expired)
              (λ a stamp. emit-Adds EventKind.task_revoked _ refl))

    silent-Quiet :
        (signal : Signal) → is_silent signal ≡ true → Quiet events (run_handler rt hooks signal)
    unfolding on_received on_postrun on_failure
    silent-Quiet (task_received request) h = rw h (λ w. refl)
    silent-Quiet (task_prerun sender task_id task args kwargs) h = absurd (ground (arith, h))
    silent-Quiet (task_postrun sender task_id task retval state) h =
        let other : is_success state ≡ false = ground (arith, h) in rw other (λ w. refl)
    silent-Quiet (task_failure sender task_id exception traceback einfo) h = rw h (λ w. refl)
    silent-Quiet (task_retry sender request reason einfo kwargs) h = absurd (ground (arith, h))
    silent-Quiet (task_revoked sender request terminated signum expired) h =
        absurd (ground (arith, h))

    reported_lem :
        (signal : Signal) (w : World) (w' : World)
        → Adds (kind_of signal) (events w) (events w')
        → (is_silent signal ≡ true → events w' ≡ events w)
        → Reports (reported signal) (events w) (events w')
    reported_lem signal w w' h g = elim (Bool-cases (is_silent signal)) [
      | inl e ↦ rw e (g e)
      | inr e ↦ rw e h
    ]

    -- Where only the sink adds events, a signal adds at most one, of the signal's own kind, and none
    -- if a received task has no request, if a failure has no exception, or if a run has ended
    -- otherwise than with success.
    pub handle_signal_adds :
        (signal : Signal) (w : World)
        → Reports (reported signal) (events w) (events (handle_signal rt hooks signal w).1)
    unfolding handle_signal
    handle_signal_adds signal w =
        reported_lem signal w (handle_signal rt hooks signal w).1
          (Does-try events (Adds (kind_of signal)) (nothing (kind_of signal))
            (run_handler rt hooks signal) pure _ (run_handler-Adds signal) (λ a v. refl)
            (boundary-Quiet seen) w)
          (λ h.
            Quiet-try events (run_handler rt hooks signal) pure _ (silent-Quiet signal h)
              (λ a v. refl) (boundary-Quiet seen) w)
