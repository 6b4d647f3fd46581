-- ===== src/Events/Broker/Keeps.antt =====
-- What a message leaves unchanged in the monitor: a property that the four elementary effects of a
-- handler keep is kept by the processing of any message.
use z4j_celery.Prelude.{ℕ, Bool, true, false, none, some, [], ◌∷◌, if◌then◌else◌}
use z4j_celery.Python.{
  Value, null, str, get_value, as_dict, Dict, Io, pure, raise, continue, handle, ◌>>=◌, Outcome,
  returned, raised, Exception,
}
use z4j_celery.Events.Mapper.{
  Event, Stamp, About, build_task_started_event, build_task_retried_event,
}
use z4j_celery.Events.Broker.{
  Host, Monitor, emit, learn, name_of, forget, about_of, about_named, with_about, emit_last,
  emit_started, succeeded_event, failed_event, emit_retried, revoked_event, run_optional,
  handle_element, run_started, run_succeeded, run_failed, run_retried, run_revoked, run_handler,
  Handler, guarded, handle_event, handle_accepted, accepts, handler_of, get_default, dispatch_one,
  dispatch_all, runtime_of, task_id_of, on_started, on_succeeded, on_failed, on_retried, on_revoked,
}

module _ {S : Type 0} (P : S → Type 0) where
  abbrev pub Keeps : {A : Type 0} → Io S A → Type 0
  Keeps m = (s : S) → P s → P (m s).1

  abbrev pub KeepsAll : {A B : Type 0} → (A → Io S B) → Type 0
  KeepsAll {A = A} f = (a : A) → Keeps (f a)

  pub Keeps-continue :
      {A B : Type 0} (r : Outcome A) (f : A → Io S B)
      → KeepsAll f
      → (s : S) → P s
      → P (continue r f s).1
  Keeps-continue (returned a) f k s p = k a s p
  Keeps-continue (raised e) f k s p = p

  pub Keeps-then :
      {A B : Type 0} (m : Io S A) (f : A → Io S B) → Keeps m → KeepsAll f → Keeps (m >>= f)
  Keeps-then m f k l s p = Keeps-continue (m s).0 f l (m s).1 (k s p)

  pub Keeps-handle :
      {A B : Type 0} (r : Outcome A) (f : A → Io S B) (g : Exception → Io S B)
      → KeepsAll f
      → KeepsAll g
      → (s : S) → P s
      → P (handle r f g s).1
  Keeps-handle (returned a) f g k l s p = k a s p
  Keeps-handle (raised e) f g k l s p = l e s p

  pub Keeps-if :
      {A : Type 0} (b : Bool) (m n : Io S A) → Keeps m → Keeps n → Keeps (if b then m else n)
  Keeps-if true m n k l = k
  Keeps-if false m n k l = l

module _ {W : Type 0} (host : Host W) (max : ℕ) (P : Monitor W → Type 0) where
  -- The four elementary effects keep the property.
  pub record Basics : Type 0 where
    pub keeps_emit : KeepsAll P (emit host max)
    pub keeps_learn : KeepsAll P (learn host max)
    pub keeps_name : KeepsAll P (name_of host max)
    pub keeps_forget : KeepsAll P (forget host max)

  module _ (b : Basics) where
    about-Keeps : KeepsAll P (about_of host max)
    about-Keeps ev =
        Keeps-then P (name_of host max ev) (about_named host max ev) (b.keeps_name ev)
          (λ name. Keeps-continue P (task_id_of ev) _ (λ task_id. λ s p. p))

    with_about-Keeps :
        (ev : Dict Value) (f : About → Stamp → Io (Monitor W) Unit)
        → ((about : About) (stamp : Stamp) → Keeps P (f about stamp))
        → Keeps P (with_about host max ev f)
    with_about-Keeps ev f k =
        Keeps-then P (about_of host max ev) (λ about. λ s. f about (host.stamp s.world) s)
          (about-Keeps ev) (λ about. λ s. k about (host.stamp s.world) s)

    emit_last-Keeps :
        (e : About → Stamp → Event) (about : About) (stamp : Stamp)
        → Keeps P (emit_last host max e about stamp)
    emit_last-Keeps e about stamp =
        Keeps-then P (emit host max (e about stamp)) (λ _. forget host max about.task_id)
          (b.keeps_emit (e about stamp)) (λ _. b.keeps_forget about.task_id)

    started-Keeps : (about : About) (stamp : Stamp) → Keeps P (emit_started host max about stamp)
    started-Keeps about stamp =
        Keeps-continue P (build_task_started_event host.scrub stamp about null null) (emit host max)
          b.keeps_emit

    handler-Keeps : (h : Handler) → KeepsAll P (run_handler host max h)
    unfolding run_started run_succeeded run_failed run_retried run_revoked
    handler-Keeps on_started ev =
        Keeps-then P (learn host max ev) (λ _. with_about host max ev (emit_started host max))
          (b.keeps_learn ev) (λ _. with_about-Keeps ev (emit_started host max) started-Keeps)
    handler-Keeps on_succeeded ev =
        Keeps-continue P (runtime_of host max (get_value "runtime" ev))
          (λ runtime_ms.
            with_about host max ev (emit_last host max (succeeded_event host max ev runtime_ms)))
          (λ runtime_ms.
            with_about-Keeps ev (emit_last host max (succeeded_event host max ev runtime_ms))
              (emit_last-Keeps (succeeded_event host max ev runtime_ms)))
    handler-Keeps on_failed ev =
        with_about-Keeps ev (emit_last host max (failed_event host max ev))
          (emit_last-Keeps (failed_event host max ev))
    handler-Keeps on_retried ev = with_about-Keeps ev (emit_retried host max ev) (λ about. λ stamp.
        b.keeps_emit
          (build_task_retried_event host.scrub stamp about (get_value "exception" ev) none))
    handler-Keeps on_revoked ev =
        with_about-Keeps ev (emit_last host max (revoked_event host max ev))
          (emit_last-Keeps (revoked_event host max ev))

    guarded-Keeps : (m : Io (Monitor W) Unit) → Keeps P m → Keeps P (guarded host max m)
    guarded-Keeps m k s p =
        Keeps-handle P (m s).0 pure (λ e. if host.absorbs e then pure tt else raise e)
          (λ a. λ t q. q)
          (λ e. Keeps-if P (host.absorbs e) (pure tt) (raise e) (λ t q. q) (λ t q. q)) (m s).1
          (k s p)

    optional-Keeps : (ev : Dict Value) → KeepsAll P (run_optional host max ev)
    optional-Keeps ev none = λ s p. p
    optional-Keeps ev (some h) = guarded-Keeps (run_handler host max h ev) (handler-Keeps h ev)

    accepted-Keeps : KeepsAll P (handle_accepted host max)
    accepted-Keeps ev =
        Keeps-continue P (handler_of (get_default "type" (str "") ev)) (run_optional host max ev)
          (optional-Keeps ev)

    event-Keeps : KeepsAll P (handle_event host max)
    event-Keeps ev =
        Keeps-continue P (accepts host max ev)
          (λ ok. if ok then handle_accepted host max ev else pure tt)
          (λ ok.
            Keeps-if P ok (handle_accepted host max ev) (pure tt) (accepted-Keeps ev) (λ s p. p))

    element-Keeps : KeepsAll P (handle_element host max)
    element-Keeps none = λ s p. p
    element-Keeps (some ev) = event-Keeps ev

    one-Keeps : KeepsAll P (dispatch_one host max)
    unfolding dispatch_one
    one-Keeps v = element-Keeps (as_dict v)

    -- Then the elements of a message keep it, whatever they are.
    pub all-Keeps : KeepsAll P (dispatch_all host max)
    unfolding dispatch_all
    all-Keeps [] = λ s p. p
    all-Keeps (v ∷ vs) =
        Keeps-then P (dispatch_one host max v) (λ _. dispatch_all host max vs) (one-Keeps v)
          (λ _. all-Keeps vs)
