-- ===== src/Python/Publishing.antt =====
-- Statements that publish once when they return, and at most once when they raise.
use z4j_celery.Prelude.{List, [], ◌∷◌, ◌++◌, ◌≡◌, refl, sym, subst, ◌⊎◌, inl, inr}
use z4j_celery.Python.Effects.{Outcome, returned, raised, Io, ◌>>=◌, continue}
use z4j_celery.Python.Results.{Holds, Returns}
use z4j_celery.Python.Observing.{Quiet}

-- One publish more than before, of what was asked for.
pub record OneMore {P : Type 0} (Asked : P → Type 0) (before after : List P) : Type 0 where
  pub published : P
  pub is_asked : Asked published
  pub order : after ≡ before ++ published ∷ []

-- `log` is what has been published, `Asked` what was asked for.
module _ {W P : Type 0} (log : W → List P) (Asked : P → Type 0) where
  abbrev pub Publishes : {A : Type 0} → Outcome A → List P → List P → Type 0
  Publishes (returned a) before after = OneMore Asked before after
  Publishes (raised e) before after = (after ≡ before) ⊎ OneMore Asked before after

  abbrev pub Sends : {A : Type 0} → Io W A → Type 0
  Sends m = (w : W) → Publishes (m w).0 (log w) (log (m w).1)

  -- A quiet statement in front, for what it may return.
  pub Sends-then :
      {A B : Type 0} (Q : A → Type 0) (m : Io W A) (f : A → Io W B)
      → Quiet log m
      → Returns Q m
      → ((a : A) → Q a → Sends (f a))
      → Sends (m >>= f)
  Sends-then {A} {B} Q m f q k h w =
      subst (λ l. Publishes (continue (m w).0 f (m w).1).0 l (log (continue (m w).0 f (m w).1).1))
        (q w) (known (m w).0 (k w))
    where
      known :
          (r : Outcome A)
          → Holds Q r
          → Publishes (continue r f (m w).1).0 (log (m w).1) (log (continue r f (m w).1).1)
      known (returned a) p = h a p (m w).1
      known (raised e) p = inl refl

  pub once :
      {A : Type 0} (r : Outcome A) (before after : List P)
      → OneMore Asked before after
      → Publishes r before after
  once (returned a) before after h = h
  once (raised e) before after h = inr h

  pub at_most :
      {A : Type 0} (r : Outcome A) (before after : List P)
      → Publishes r before after
      → (after ≡ before) ⊎ OneMore Asked before after
  at_most (returned a) before after h = inr h
  at_most (raised e) before after h = h

  -- A quiet statement behind.
  pub Sends-before :
      {A B : Type 0} (m : Io W A) (f : A → Io W B)
      → Sends m
      → ((a : A) → Quiet log (f a))
      → Sends (m >>= f)
  Sends-before {A} {B} m f h q w = rest (m w).0 (h w)
    where
      rest :
          (r : Outcome A)
          → Publishes r (log w) (log (m w).1)
          → Publishes (continue r f (m w).1).0 (log w) (log (continue r f (m w).1).1)
      rest (returned a) p =
          once (f a (m w).1).0 (log w) _ (subst (OneMore Asked (log w)) (sym (q a (m w).1)) p)
      rest (raised e) p = p
