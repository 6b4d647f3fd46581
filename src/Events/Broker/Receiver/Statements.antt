-- ===== src/Events/Broker/Receiver/Statements.antt =====
-- What the statements of a session keep, and how they end.
use z4j_celery.Prelude.{
  ℕ, zero, suc, ◌-◌, ◌≤◌, ◌<◌, String, Bool, true, false, List, [], ◌≡◌, refl, arith,
}
use z4j_celery.Python.{
  Value, Dict, Outcome, returned, raised, Io, pure, raise, ◌>>=◌, handle, continue, Runtime,
  with_context,
}
use z4j_celery.Events.Broker.Receiver.{LoopEnd, stopped, broken, still_running}

module _ (rt : Runtime) (is_set : rt.World → Bool) (wait : Io rt.World Unit) where
  open rt use {World, attribute, call}

  -- Nothing takes the stop flag back, and the flag comes: `left` bounds how many more waits, for
  -- events or after a failure, begin before it is set.
  pub record Stopping (left : World → ℕ) : Type 0 where
    pub attributes :
        (obj : Value) (name : String) (w : World)
        → (left (attribute obj name w).1 ≤ left w)
          × (is_set w ≡ true → is_set (attribute obj name w).1 ≡ true)
    pub calls :
        (obj : Value) (name : String) (args : List Value) (kwargs : Dict Value) (w : World)
        → (left (call obj name args kwargs w).1 ≤ left w)
          × (is_set w ≡ true → is_set (call obj name args kwargs w).1 ≡ true)
    pub drains :
        (conn : Value) (kwargs : Dict Value) (w : World)
        → left (call conn "drain_events" [] kwargs w).1 ≤ left w - 1
    pub waits : (w : World) → ((wait w).0 ≡ returned tt) × (left (wait w).1 ≤ left w - 1)
    pub comes : (w : World) → left w ≡ 0 → is_set w ≡ true

module _ {rt : Runtime} {is_set : Runtime.World rt → Bool} {wait : Io (Runtime.World rt) Unit}
    {left : Runtime.World rt → ℕ} (stopping : Stopping rt is_set wait left) where
  open rt use {World, attribute, call}

  abbrev pub Step : World → World → Type 0
  Step w w' = (left w' ≤ left w) × (is_set w ≡ true → is_set w' ≡ true)

  pub Step-trans : (u v w : World) → Step u v → Step v w → Step u w
  Step-trans u v w h g = (omega (arith, h.0, g.0), λ e. g.1 (h.1 e))

  -- How a connection ends that began at `w`.
  abbrev pub Ended : World → Outcome LoopEnd → World → Type 0
  Ended w (returned stopped) w' = Step w w' × (is_set w' ≡ true)
  Ended w (returned broken) w' = Step w w' × (left w' < left w)
  Ended w (returned still_running) w' = ⊥
  Ended w (raised e) w' = Step w w'

  pub Ended-earlier : (u v w : World) (o : Outcome LoopEnd) → Step u v → Ended v o w → Ended u o w
  Ended-earlier u v w (returned stopped) h g = (Step-trans u v w h g.0, g.1)
  Ended-earlier u v w (returned broken) h g = (Step-trans u v w h g.0, omega (arith, h.0, g.1))
  Ended-earlier u v w (returned still_running) h g = g
  Ended-earlier u v w (raised e) h g = Step-trans u v w h g

  pub Ended-later : (u v w : World) (o : Outcome LoopEnd) → Ended u o v → Step v w → Ended u o w
  Ended-later u v w (returned stopped) h g = (Step-trans u v w h.0 g, g.1 h.1)
  Ended-later u v w (returned broken) h g = (Step-trans u v w h.0 g, omega (arith, h.1, g.0))
  Ended-later u v w (returned still_running) h g = h
  Ended-later u v w (raised e) h g = Step-trans u v w h g

  -- With this fuel a statement ends.
  abbrev pub Ends : ℕ → Io World LoopEnd → Type 0
  Ends n m = (w : World) → left w < n → Ended w (m w).0 (m w).1

  abbrev pub Steps : {A : Type 0} → Io World A → Type 0
  Steps m = (w : World) → Step w (m w).1

  module _ {A : Type 0} (n : ℕ) where
    pub Ends-continue :
        (r : Outcome A) (f : A → Io World LoopEnd) (u v : World)
        → Step u v
        → left u < n
        → ((a : A) → Ends n (f a))
        → Ended u (continue r f v).0 (continue r f v).1
    Ends-continue (returned a) f u v h lt g =
        Ended-earlier u v (f a v).1 (f a v).0 h (g a v (omega (arith, h.0, lt)))
    Ends-continue (raised e) f u v h lt g = h

    pub Ends-then :
        (m : Io World A) (f : A → Io World LoopEnd)
        → Steps m
        → ((a : A) → Ends n (f a))
        → Ends n (m >>= f)
    Ends-then m f h g w lt = Ends-continue (m w).0 f w (m w).1 (h w) lt g

  pub Ended-Step : (u w : World) (o : Outcome LoopEnd) → Ended u o w → Step u w
  Ended-Step u w (returned stopped) h = h.0
  Ended-Step u w (returned broken) h = h.0
  Ended-Step u w (returned still_running) h = absurd h
  Ended-Step u w (raised e) h = h

  -- The exit of a context neither hides how it ends nor takes the flag back.
  pub closing :
      (r : Outcome Value) (o : Outcome LoopEnd) (u v w : World)
      → Ended u o v
      → Step v w
      → Ended u (continue r (λ _. λ x. (o, x)) w).0 (continue r (λ _. λ x. (o, x)) w).1
  closing (returned a) o u v w h g = Ended-later u v w o h g
  closing (raised e) o u v w h g = Step-trans u v w (Ended-Step u v o h) g

  pub closed :
      (o : Outcome LoopEnd) (exit : Io World Value) (u v : World)
      → Steps exit
      → Ended u o v
      → Ended u
          (handle o (λ a. exit >>= λ _. pure a) (λ e. exit >>= λ _. raise e) v).0
          (handle o (λ a. exit >>= λ _. pure a) (λ e. exit >>= λ _. raise e) v).1
  closed (returned a) exit u v h g = closing (exit v).0 (returned a) u v (exit v).1 g (h v)
  closed (raised e) exit u v h g = closing (exit v).0 (raised e) u v (exit v).1 g (h v)

  module _ (n : ℕ) where
    pub with_context-Ends :
        (obj : Value) (body : Value → Io World LoopEnd)
        → ((inner : Value) → Ends n (body inner))
        → Ends n (with_context rt obj body)
    unfolding with_context
    with_context-Ends obj body h =
        Ends-then n (call obj "__enter__" [] []) _ (stopping.calls obj "__enter__" [] [])
          (λ inner w lt.
            closed (body inner w).0 (call obj "__exit__" [] []) w (body inner w).1
              (stopping.calls obj "__exit__" [] []) (h inner w lt))

  -- One wait for events that is not told to stop.
  pub not_set : (w : World) → is_set w ≡ false → 0 < left w
  not_set w h = positive (left w) (λ e. ground (arith, stopping.comes w e, h))
    where
      positive : (n : ℕ) → (n ≡ 0 → ⊥) → 0 < n
      positive zero g = absurd (g refl)
      positive (suc n) g = omega arith

  module _ {A B : Type 0} where
    pub Steps-continue :
        (r : Outcome A) (f : A → Io World B) (u v : World)
        → Step u v
        → ((a : A) → Steps (f a))
        → Step u (continue r f v).1
    Steps-continue (returned a) f u v h g = Step-trans u v (f a v).1 h (g a v)
    Steps-continue (raised e) f u v h g = h

    pub Steps-then :
        (m : Io World A) (f : A → Io World B) → Steps m → ((a : A) → Steps (f a)) → Steps (m >>= f)
    Steps-then m f h g w = Steps-continue (m w).0 f w (m w).1 (h w) g
