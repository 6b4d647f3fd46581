-- ===== src/Events/Signals/Wiring/Registered.antt =====
-- Which handlers Celery's signals have.
use z4j_celery.Prelude.{
  Bool, true, false, List, [], ◌∷◌, ◌++◌, ◌≡◌, refl, sym, subst, inl, inr, arith, Bool-cases,
  if◌then◌else◌, ◌⊎◌,
}
use z4j_celery.Python.{
  Exception, Outcome, returned, raised, continue, Settles, settled, Settles-then,
}
use z4j_celery.Events.Signals.Wiring.{
  SignalName, received, prerun, postrun, failure, retry, revoked, all_signals, Celery, Wiring, Call,
  to_connect, to_disconnect, new_hooks, on_world, append_handler, subscribe, subscribe_all,
  set_connected, connect_all, connect, unsubscribe_all, disconnect, serve,
}
use mathlib.Core.List.{Memᴰ}
use mathlib.Core.List.Memᴰ.{append_left}

module _ {W : Type 0} (celery : Celery W) (registered : W → SignalName → Bool) where
  -- `registered` shows which signals have the hooks' handler: a connect that returns adds it, a
  -- disconnect that returns takes it away, and no other signal's handler is touched, nor any by the
  -- import.
  pub record Registers : Type 0 where
    pub loads : (n : SignalName) (w : W) → registered (celery.load w).1 n ≡ registered w n
    pub connects :
        (n : SignalName) (w : W)
        → (celery.connect_signal n w).0 ≡ returned tt
        → registered (celery.connect_signal n w).1 n ≡ true
    pub connects_other :
        (name n : SignalName) (w : W)
        → registered w n ≡ true
        → registered (celery.connect_signal name w).1 n ≡ true
    pub disconnects :
        (n : SignalName) (w : W)
        → (celery.disconnect_signal n w).0 ≡ returned tt
        → registered (celery.disconnect_signal n w).1 n ≡ false
    pub disconnects_other :
        (name n : SignalName) (w : W)
        → registered w n ≡ false
        → registered (celery.disconnect_signal name w).1 n ≡ false

  abbrev pub IsKnown : SignalName → Wiring W → Type 0
  IsKnown n s = (registered s.world n ≡ true) × Memᴰ n s.handlers

  -- Not connected yet; the handlers of these signals are registered, and known for the disconnect.
  abbrev Pending : (SignalName → Type 0) → Wiring W → Type 0
  Pending P s = (s.connected ≡ false) × ((n : SignalName) → P n → IsKnown n s)

  abbrev Unconnected : Wiring W → Type 0
  Unconnected s = s.connected ≡ false

  -- Every handler there is.
  abbrev pub IsWired : Wiring W → Type 0
  IsWired s = s.connected ≡ true → (n : SignalName) → IsKnown n s

  last_member : (xs : List SignalName) (n name : SignalName) → n ≡ name → Memᴰ n (xs ++ name ∷ [])
  last_member [] n name e = Memᴰ.head e
  last_member (x ∷ xs) n name e = Memᴰ.tail (last_member xs n name e)

  module _ (registers : Registers) where
    abbrev Also : SignalName → (SignalName → Type 0) → SignalName → Type 0
    Also name P n = (n ≡ name) ⊎ P n

    subscribe-Settles :
        (name : SignalName) (P : SignalName → Type 0) (s : Wiring W)
        → Pending P s
        → Settles (Pending (Also name P)) Unconnected (subscribe celery name s)
    unfolding subscribe
    subscribe-Settles name P s h = called (celery.connect_signal name s.world).0 refl
      where
        w : W
        w = (celery.connect_signal name s.world).1

        known :
            (celery.connect_signal name s.world).0 ≡ returned tt
            → (n : SignalName) → Also name P n
            → IsKnown n (record s { handlers = s.handlers ++ name ∷ []; world = w })
        known e n (inl k) = (
          subst (λ m. registered w m ≡ true) (sym k) (registers.connects name s.world e),
          last_member s.handlers n name k,
        )
        known e n (inr p) = (
          registers.connects_other name n s.world (h.1 n p).0,
          append_left (name ∷ []) (h.1 n p).1,
        )

        called :
            (r : Outcome Unit)
            → (celery.connect_signal name s.world).0 ≡ r
            → Settles
                (Pending (Also name P))
                Unconnected
                (continue r (λ _. append_handler celery name) (record s { world = w }))
        called (returned u) e = (h.0, known e)
        called (raised x) e = h.0

    subscribe_all-Settles :
        (names : List SignalName) (P Q : SignalName → Type 0) (s : Wiring W)
        → ((n : SignalName) → Q n → Memᴰ n names ⊎ P n)
        → Pending P s
        → Settles (Pending Q) Unconnected (subscribe_all celery names s)
    unfolding subscribe_all
    subscribe_all-Settles [] P Q s f h = (h.0, λ n q. h.1 n (left n (f n q)))
      where
        left : (n : SignalName) → Memᴰ n [] ⊎ P n → P n
        left n (inl m) = elim m [ ]
        left n (inr p) = p
    subscribe_all-Settles (name ∷ names) P Q s f h =
        Settles-then (Pending (Also name P)) (Pending Q) Unconnected (subscribe celery name)
          (λ _. subscribe_all celery names) s (subscribe-Settles name P s h)
          (λ a s' g. subscribe_all-Settles names (Also name P) Q s' (λ n q. moved n (f n q)) g)
      where
        moved : (n : SignalName) → Memᴰ n (name ∷ names) ⊎ P n → Memᴰ n names ⊎ Also name P n
        moved n (inl (Memᴰ.head e)) = inr (inl e)
        moved n (inl (Memᴰ.tail m)) = inl m
        moved n (inr p) = inr (inr p)

    -- The six are all that there are.
    every : (n : SignalName) → Memᴰ n all_signals
    every received = Memᴰ.head refl
    every prerun = Memᴰ.tail (Memᴰ.head refl)
    every postrun = Memᴰ.tail (Memᴰ.tail (Memᴰ.head refl))
    every failure = Memᴰ.tail (Memᴰ.tail (Memᴰ.tail (Memᴰ.head refl)))
    every retry = Memᴰ.tail (Memᴰ.tail (Memᴰ.tail (Memᴰ.tail (Memᴰ.head refl))))
    every revoked = Memᴰ.tail (Memᴰ.tail (Memᴰ.tail (Memᴰ.tail (Memᴰ.tail (Memᴰ.head refl)))))

    unwired : (s : Wiring W) → s.connected ≡ false → IsWired s
    unwired s h k = absurd (ground (arith, h, k))

    connect_all-IsWired : (s : Wiring W) → s.connected ≡ false → IsWired (connect_all celery s).1
    connect_all-IsWired s h = either (connect_all celery s).0 (connect_all celery s).1 (
        Settles-then Unconnected IsWired Unconnected (on_world celery celery.load) _ s
          (settled Unconnected Unconnected (celery.load s.world).0 _ h h)
          (λ a s' g.
            Settles-then (Pending (λ n. Unit)) IsWired Unconnected
              (subscribe_all celery all_signals) (λ _. set_connected celery) s'
              (subscribe_all-Settles all_signals (λ n. ⊥) (λ n. Unit) s' (λ n _. inl (every n))
                (g, λ n p. absurd p))
              (λ b s'' k. λ _ n. k.1 n tt)))
      where
        either : (r : Outcome Unit) (s : Wiring W) → Settles IsWired Unconnected (r, s) → IsWired s
        either (returned a) s h = h
        either (raised e) s h = unwired s h

    connect-IsWired : (s : Wiring W) → IsWired s → IsWired (connect celery s).1
    unfolding connect
    connect-IsWired s h = chosen s.connected refl
      where
        chosen :
            (b : Bool)
            → s.connected ≡ b
            → IsWired (if b then (returned tt, s) else connect_all celery s).1
        chosen true e = h
        chosen false e = connect_all-IsWired s e

    disconnect-IsWired : (s : Wiring W) → IsWired (disconnect celery s)
    unfolding disconnect
    disconnect-IsWired s = elim (Bool-cases s.connected) [
      | inl e ↦ rw e (λ k. absurd (ground (arith, k)))
      | inr e ↦ rw e (λ k. absurd (ground (arith, k, e)))
    ]

    serve-IsWired :
        (requests : List Call) (s : Wiring W) → IsWired s → IsWired (serve celery requests s)
    unfolding serve
    serve-IsWired [] s h = h
    serve-IsWired (to_connect ∷ requests) s h =
        serve-IsWired requests (connect celery s).1 (connect-IsWired s h)
    serve-IsWired (to_disconnect ∷ requests) s h =
        serve-IsWired requests (disconnect celery s) (disconnect-IsWired s)

    kept_off :
        (handlers : List SignalName) (w : W) (n : SignalName)
        → registered w n ≡ false
        → registered (unsubscribe_all celery handlers w) n ≡ false
    unfolding unsubscribe_all
    kept_off [] w n h = h
    kept_off (name ∷ handlers) w n h =
        kept_off handlers (celery.disconnect_signal name w).1 n
          (registers.disconnects_other name n w h)

    -- The signal has no handler any more, or Celery has refused to take it away.
    abbrev pub TakenAway : SignalName → W → Type 0
    TakenAway n w =
        (registered w n ≡ false)
        ⊎ ((u : W) × (e : Exception) × ((celery.disconnect_signal n u).0 ≡ raised e))

    disconnect_one-TakenAway :
        (n : SignalName) (w : W) → TakenAway n (celery.disconnect_signal n w).1
    disconnect_one-TakenAway n w = ended (celery.disconnect_signal n w).0 refl
      where
        ended :
            (o : Outcome Unit)
            → (celery.disconnect_signal n w).0 ≡ o
            → TakenAway n (celery.disconnect_signal n w).1
        ended (returned tt) h = inl (registers.disconnects n w h)
        ended (raised e) h = inr (w, e, h)

    kept_away :
        (handlers : List SignalName) (w : W) (n : SignalName)
        → TakenAway n w
        → TakenAway n (unsubscribe_all celery handlers w)
    kept_away handlers w n (inl h) = inl (kept_off handlers w n h)
    kept_away handlers w n (inr refused) = inr refused

    unsubscribed :
        (handlers : List SignalName) (w : W) (n : SignalName)
        → Memᴰ n handlers
        → TakenAway n (unsubscribe_all celery handlers w)
    unfolding unsubscribe_all
    unsubscribed [] w n m = elim m [ ]
    unsubscribed (name ∷ handlers) w n (Memᴰ.head e) =
        kept_away handlers (celery.disconnect_signal name w).1 n (
          subst (λ m. TakenAway n (celery.disconnect_signal m w).1) e
            (disconnect_one-TakenAway n w))
    unsubscribed (name ∷ handlers) w n (Memᴰ.tail m) =
        unsubscribed handlers (celery.disconnect_signal name w).1 n m

    -- Where Celery's connects and disconnects register as documented, through any requests to connect
    -- and to disconnect, however Celery's calls end: while the hooks count as connected, Celery has
    -- the handler of each signal; and a disconnect then takes the handler of each signal away, unless
    -- Celery's own disconnect of that signal raises.
    pub serve_registers :
        (requests : List Call) (w : W)
        → (serve celery requests (new_hooks w)).connected ≡ true
        → (n : SignalName)
        → let s = serve celery requests (new_hooks w) in
          (registered s.world n ≡ true) × TakenAway n (disconnect celery s).world
    unfolding disconnect
    serve_registers requests w c n =
        let s = serve celery requests (new_hooks w) in
        let (on, known) = serve-IsWired requests (new_hooks w) (unwired (new_hooks w) refl) c n in
        (on, rw c (unsubscribed s.handlers s.world n known))
