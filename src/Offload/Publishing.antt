-- ===== src/Offload/Publishing.antt =====
-- An offloaded publish, and the answer that an action makes of it.
use z4j_celery.Prelude.{ℕ, List, ◌≡◌, subst, ◌⊎◌, inl, inr, Bool-cases}
use z4j_celery.Python.{
  Holds, Exception, Outcome, returned, raised, Io, pure, try_then, handle, Runtime, OneMore,
  Publishes, Sends, at_most,
}
use z4j_celery.Command.{CommandResult, failed}
use z4j_celery.Offload.{offload, translate}

module _ (rt : Runtime) {P : Type 0} (log : Runtime.World rt → List P) (Asked : P → Type 0) where
  open rt use {World}

  translated :
      {A : Type 0} (r : Outcome A) (before after : List P)
      → Publishes log Asked r before after
      → Publishes log Asked (translate r) before after
  translated (returned a) before after h = h
  translated (raised e) before after h = h

  pub offload-Sends :
      {A : Type 0} (timeout : ℕ) (m : Io World A)
      → Sends log Asked m
      → Sends log Asked (offload rt timeout m)
  unfolding offload
  offload-Sends timeout m h w = elim (Bool-cases (rt.outlives timeout w (m w).1)) [
    | inl e ↦ rw e (at_most log Asked (m w).0 _ _ (h w))
    | inr e ↦ rw e (translated (m w).0 _ _ (h w))
  ]

  -- An answer comes with one publish, as asked for, or is a failure that comes with none; and what
  -- raises comes with none.
  abbrev pub Settled : Outcome CommandResult → List P → List P → Type 0
  Settled (returned c) before after =
      OneMore Asked before after ⊎ ((c.status ≡ failed) × (after ≡ before))
  Settled (raised e) before after = after ≡ before

  pub Sends-Settled :
      {A : Type 0} (m : Io World A) (ok : A → CommandResult) (bad : Exception → CommandResult)
      → Sends log Asked m
      → ((e : Exception) → (bad e).status ≡ failed)
      → (w : World)
      → let r = try_then m (λ a. pure (ok a)) (λ e. pure (bad e)) w in Settled r.0 (log w) (log r.1)
  Sends-Settled {A} m ok bad h fails w = answer (m w).0 (h w)
    where
      answer :
          (r : Outcome A)
          → Publishes log Asked r (log w) (log (m w).1)
          → let t = handle r (λ a. pure (ok a)) (λ e. pure (bad e)) (m w).1 in
            Settled t.0 (log w) (log t.1)
      answer (returned a) p = inl p
      answer (raised e) (inl q) = inr (fails e, q)
      answer (raised e) (inr p) = inl p

  -- A quiet statement in front, for what it returned, and a handler of what it raised.
  pub Settled-try :
      {A : Type 0} (Q : A → Type 0) (m : Io World A) (f : A → Io World CommandResult)
      (g : Exception → Io World CommandResult) (w : World)
      → log (m w).1 ≡ log w
      → Holds Q (m w).0
      → ((a : A) → Q a → (u : World) → Settled (f a u).0 (log u) (log (f a u).1))
      → ((e : Exception) (u : World) → Settled (g e u).0 (log u) (log (g e u).1))
      → let r = try_then m f g w in Settled r.0 (log w) (log r.1)
  Settled-try {A} Q m f g w q k h l =
      subst
        (λ before.
          Settled (handle (m w).0 f g (m w).1).0 before (log (handle (m w).0 f g (m w).1).1))
        q (rest (m w).0 k)
    where
      rest :
          (r : Outcome A)
          → Holds Q r
          → let t = handle r f g (m w).1 in Settled t.0 (log (m w).1) (log t.1)
      rest (returned a) p = h a p (m w).1
      rest (raised e) p = l e (m w).1
