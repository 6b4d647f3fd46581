-- ===== src/Events/Broker/Receiver/Stops.antt =====
-- When the receiving thread ends.
use z4j_celery.Prelude.{
  ℕ, zero, suc, ◌+◌, ◌<◌, Bool, true, false, [], ◌∷◌, ◌≡◌, refl, sym, ap, subst, inl, inr, arith,
  Bool-cases, if◌then◌else◌,
}
use z4j_celery.Python.{
  Value, Exception, Outcome, returned, raised, Io, pure, handle, continue, Runtime,
}
use z4j_celery.Events.Broker.Receiver.{
  LoopEnd, stopped, broken, still_running, Drained, again, leave, drain, drained_or_raise,
  is_timeout, is_broken, go_on, receive, make_consumer, consume, session, after_session, recover,
  run,
}
use z4j_celery.Events.Broker.Receiver.Statements.{
  Stopping, Step, Ended, Ended-earlier, Ends, Steps, Ends-then, with_context-Ends, not_set,
  Steps-then,
}

module _ (rt : Runtime) (timeout : Value) (is_set : rt.World → Bool) (wait : Io rt.World Unit)
    (callback : Value) (celery_app : Value) where
  open rt use {World, attribute, call}

  module _ (left : World → ℕ) (stopping : Stopping rt is_set wait left) where
    abbrev drain_at : Value → Io World Drained
    drain_at conn = drain rt timeout is_set wait callback celery_app conn

    abbrev receive_at : ℕ → Value → Io World LoopEnd
    receive_at n conn = receive rt timeout is_set wait callback celery_app n conn

    abbrev run_at : ℕ → Io World LoopEnd
    run_at n = run rt timeout is_set wait callback celery_app n

    same_world :
        (r : Outcome Value) (v : World)
        → (handle r
            (λ _. pure again)
            (drained_or_raise rt timeout is_set wait callback celery_app)
            v).1
          ≡ v
    same_world (returned a) v = refl
    same_world (raised e) v = elim (Bool-cases (is_timeout e)) [
      | inl t ↦ rw t refl
      | inr t ↦ rw t (elim (Bool-cases (is_broken e)) [ inl b ↦ rw b refl | inr b ↦ rw b refl ])
    ]

    drain-Step : (conn : Value) → Steps stopping (drain_at conn)
    drain-Step conn w =
        subst (Step stopping w)
          (sym (
            same_world (call conn "drain_events" [] (("timeout", timeout) ∷ []) w).0
              (call conn "drain_events" [] (("timeout", timeout) ∷ []) w).1))
          (stopping.calls conn "drain_events" [] (("timeout", timeout) ∷ []) w)

    drain_shrinks :
        (conn : Value) (w : World) → is_set w ≡ false → left (drain_at conn w).1 < left w
    drain_shrinks conn w h =
        let args = ("timeout", timeout) ∷ [] in
        let same = ap left (
          same_world (call conn "drain_events" [] args w).0
            (call conn "drain_events" [] args w).1) in
        omega (arith, same, stopping.drains conn args w, not_set stopping w h)

    go_on-Ended :
        (r : Outcome Drained) (n : ℕ) (conn : Value) (w v : World)
        → Step stopping w v
        → left v < left w
        → left v < n
        → Ends stopping n (receive_at n conn)
        → Ended stopping w
            (continue r (go_on rt timeout is_set wait callback celery_app (receive_at n conn)) v).0
            (continue r (go_on rt timeout is_set wait callback celery_app (receive_at n conn)) v).1
    go_on-Ended (returned again) n conn w v h lt enough g =
        Ended-earlier stopping w v (receive_at n conn v).1 (receive_at n conn v).0 h (g v enough)
    go_on-Ended (returned leave) n conn w v h lt enough g = (h, lt)
    go_on-Ended (raised e) n conn w v h lt enough g = h

    either-Ended :
        (b : Bool) (x y : Outcome LoopEnd × World) (w : World)
        → (b ≡ true → Ended stopping w x.0 x.1)
        → (b ≡ false → Ended stopping w y.0 y.1)
        → Ended stopping w (if b then x else y).0 (if b then x else y).1
    either-Ended true x y w h g = h refl
    either-Ended false x y w h g = g refl

    receive-Ends : (n : ℕ) (conn : Value) → Ends stopping n (receive_at n conn)
    unfolding receive
    receive-Ends zero conn w lt = absurd (omega (arith, lt))
    receive-Ends (suc n) conn w lt =
        either-Ended (is_set w) (returned stopped, w) _ w (λ e. ((omega arith, λ k. k), e))
          (λ e.
            let v = (drain_at conn w).1 in
            go_on-Ended (drain_at conn w).0 n conn w v (drain-Step conn w) (drain_shrinks conn w e)
              (omega (arith, drain_shrinks conn w e, lt)) (receive-Ends n conn))

    make_consumer-Steps :
        (conn : Value)
        → Steps stopping (make_consumer rt timeout is_set wait callback celery_app conn)
    make_consumer-Steps conn =
        Steps-then stopping (attribute celery_app "events") _
          (stopping.attributes celery_app "events")
          (λ events.
            Steps-then stopping (call events "Receiver" (conn ∷ []) []) _
              (stopping.calls events "Receiver" (conn ∷ []) [])
              (λ recv.
                Steps-then stopping (attribute recv "queue") _ (stopping.attributes recv "queue")
                  (λ queue. stopping.calls conn "Consumer" [] _)))

    session-Ends : (n : ℕ) → Ends stopping n (session rt timeout is_set wait callback celery_app n)
    unfolding session
    session-Ends n =
        Ends-then stopping n (call celery_app "connection_for_read" [] []) _
          (stopping.calls celery_app "connection_for_read" [] [])
          (λ connection.
            with_context-Ends stopping n connection
              (consume rt timeout is_set wait callback celery_app n)
              (λ conn.
                Ends-then stopping n (make_consumer rt timeout is_set wait callback celery_app conn)
                  _ (make_consumer-Steps conn)
                  (λ consumer.
                    with_context-Ends stopping n consumer (λ _. receive_at n conn)
                      (λ _. receive-Ends n conn))))

    -- A loop that is told to stop ends with its next look at the flag.
    run_set : (n : ℕ) (w : World) → 0 < n → is_set w ≡ true → (run_at n w).0 ≡ returned stopped
    unfolding run
    run_set zero w pos h = absurd (omega arith)
    run_set (suc n) w pos h = rw h refl

    -- From any world that needs less fuel.
    abbrev Returns : ℕ → Type 0
    Returns n = (w : World) → left w + 1 < n → (run_at n w).0 ≡ returned stopped

    waited :
        (n : ℕ) (r : Outcome (Unit {0})) (w : World)
        → r ≡ returned tt
        → left w + 1 < n
        → Returns n
        → (continue r (λ _. run_at n) w).0 ≡ returned stopped
    waited n (returned a) w h lt g = g w lt
    waited n (raised e) w h lt g = absurd (ground (arith, h))

    recovered :
        (n : ℕ) (e : Exception) (w : World)
        → left w < n
        → Returns n
        → (recover rt timeout is_set wait callback celery_app (run_at n) e w).0 ≡ returned stopped
    recovered n e w lt g = elim (Bool-cases (is_set w)) [
      | inl s ↦ rw s refl
      | inr s ↦ rw s (
          waited n (wait w).0 (wait w).1 (stopping.waits w).0
            (omega (arith, (stopping.waits w).1, not_set stopping w s, lt)) g)
    ]

    after :
        (n : ℕ) (o : Outcome LoopEnd) (w v : World)
        → 0 < left w
        → left w < n
        → Ended stopping w o v
        → Returns n
        → (handle o
            (after_session rt timeout is_set wait callback celery_app (run_at n))
            (recover rt timeout is_set wait callback celery_app (run_at n))
            v).0
          ≡ returned stopped
    after n (returned stopped) w v pos lt h g = run_set n v (omega (arith, lt)) h.1
    after n (returned broken) w v pos lt h g = g v (omega (arith, h.1, lt))
    after n (returned still_running) w v pos lt h g = absurd h
    after n (raised e) w v pos lt h g = recovered n e v (omega (arith, h.0, lt)) g

    -- Where nothing takes the stop flag back and at most `left` more waits begin before it is set,
    -- the thread returns, and no exception leaves it, on any fuel of more than one beyond that:
    -- whatever the broker does, connecting, breaking off and raising included.
    pub run_stops :
        (n : ℕ) (w : World)
        → left w + 1 < n
        → (run rt timeout is_set wait callback celery_app n w).0 ≡ returned stopped
    unfolding run
    run_stops zero w lt = absurd (omega (arith, lt))
    run_stops (suc n) w lt = elim (Bool-cases (is_set w)) [
      | inl s ↦ rw s refl
      | inr s ↦ rw s (
          let o = session rt timeout is_set wait callback celery_app n w in
          after n o.0 w o.1 (not_set stopping w s) (omega (arith, lt))
            (session-Ends n w (omega (arith, lt))) (run_stops n))
    ]
