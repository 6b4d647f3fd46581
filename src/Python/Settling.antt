-- ===== src/Python/Settling.antt =====
-- The states that a statement of a component leaves, by how it ends.
use z4j_celery.Python.Effects.{Outcome, returned, raised, Io, ◌>>=◌, continue}

-- The state after a statement that has returned, and after one that has raised.
abbrev pub Settles : {S A : Type 0} → (S → Type 0) → (S → Type 0) → Outcome A × S → Type 0
Settles Q R (returned a, s) = Q s
Settles Q R (raised e, s) = R s

pub settled :
    {S A : Type 0} (Q R : S → Type 0) (r : Outcome A) (s : S) → Q s → R s → Settles Q R (r, s)
settled Q R (returned a) s q r = q
settled Q R (raised e) s q r = r

module _ {S A B : Type 0} (Q Q' R : S → Type 0) where
  continued :
      (r : Outcome A) (s : S) (f : A → Io S B)
      → Settles Q R (r, s)
      → ((a : A) (s' : S) → Q s' → Settles Q' R (f a s'))
      → Settles Q' R (continue r f s)
  continued (returned a) s f h g = g a s h
  continued (raised e) s f h g = h

  pub Settles-then :
      (m : Io S A) (f : A → Io S B) (s : S)
      → Settles Q R (m s)
      → ((a : A) (s' : S) → Q s' → Settles Q' R (f a s'))
      → Settles Q' R ((m >>= f) s)
  Settles-then m f s h g = continued (m s).0 (m s).1 f h g
