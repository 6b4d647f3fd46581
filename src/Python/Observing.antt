-- ===== src/Python/Observing.antt =====
-- Statements that leave an observation of the world as it was.
use z4j_celery.Prelude.{Bool, true, false, if◌then◌else◌, ◌≡◌, refl, sym, subst, ◌∙◌}
use z4j_celery.Python.Effects.{
  Exception, Outcome, returned, raised, Io, ◌>>=◌, continue, handle, try_then,
}
use z4j_celery.Python.Results.{Holds, Returns}

module _ {W L : Type 0} (log : W → L) where
  abbrev pub Quiet : {A : Type 0} → Io W A → Type 0
  Quiet m = (w : W) → log (m w).1 ≡ log w

  Quiet-continue :
      {A B : Type 0} (r : Outcome A) (f : A → Io W B)
      → ((a : A) → Quiet (f a))
      → Quiet (continue r f)
  Quiet-continue (returned a) f h w = h a w
  Quiet-continue (raised e) f h w = refl

  pub Quiet-then :
      {A B : Type 0} (m : Io W A) (f : A → Io W B)
      → Quiet m
      → ((a : A) → Quiet (f a))
      → Quiet (m >>= f)
  Quiet-then m f h g w = Quiet-continue (m w).0 f g (m w).1 ∙ h w

  -- A rest that is quiet for what the statement may return.
  pub Quiet-knowing :
      {A B : Type 0} (P : A → Type 0) (m : Io W A) (f : A → Io W B)
      → Quiet m
      → Returns P m
      → ((a : A) → P a → Quiet (f a))
      → Quiet (m >>= f)
  Quiet-knowing {A} {B} P m f h k g w = known (m w).0 (k w) ∙ h w
    where
      known : (r : Outcome A) → Holds P r → log (continue r f (m w).1).1 ≡ log (m w).1
      known (returned a) p = g a p (m w).1
      known (raised e) p = refl

  Quiet-handle :
      {A B : Type 0} (r : Outcome A) (f : A → Io W B) (g : Exception → Io W B)
      → ((a : A) → Quiet (f a))
      → ((e : Exception) → Quiet (g e))
      → Quiet (handle r f g)
  Quiet-handle (returned a) f g h k w = h a w
  Quiet-handle (raised e) f g h k w = k e w

  pub Quiet-try :
      {A B : Type 0} (m : Io W A) (f : A → Io W B) (g : Exception → Io W B)
      → Quiet m
      → ((a : A) → Quiet (f a))
      → ((e : Exception) → Quiet (g e))
      → Quiet (try_then m f g)
  Quiet-try m f g h k l w = Quiet-handle (m w).0 f g k l (m w).1 ∙ h w

  pub Quiet-if :
      {A : Type 0} (b : Bool) (m n : Io W A) → Quiet m → Quiet n → Quiet (if b then m else n)
  Quiet-if true m n h g = h
  Quiet-if false m n h g = g

  -- What a statement does to the observation, where doing nothing is a case of it: a quiet beginning
  -- does not matter.
  module _ (P : L → L → Type 0) (none : (l : L) → P l l) where
    abbrev pub Does : {A : Type 0} → Io W A → Type 0
    Does m = (w : W) → P (log w) (log (m w).1)

    Does-continue :
        {A B : Type 0} (r : Outcome A) (f : A → Io W B)
        → ((a : A) → Does (f a))
        → Does (continue r f)
    Does-continue (returned a) f h w = h a w
    Does-continue (raised e) f h w = none (log w)

    pub Does-then :
        {A B : Type 0} (m : Io W A) (f : A → Io W B)
        → Quiet m
        → ((a : A) → Does (f a))
        → Does (m >>= f)
    Does-then m f q h w =
        subst (λ l. P l (log (continue (m w).0 f (m w).1).1)) (q w)
          (Does-continue (m w).0 f h (m w).1)

    -- A quiet rest does not matter either.
    pub Does-before :
        {A B : Type 0} (m : Io W A) (f : A → Io W B)
        → Does m
        → ((a : A) → Quiet (f a))
        → Does (m >>= f)
    Does-before m f h q w = subst (P (log w)) (sym (Quiet-continue (m w).0 f q (m w).1)) (h w)

    pub Does-Quiet : {A : Type 0} (m : Io W A) → Quiet m → Does m
    Does-Quiet m q w = subst (λ l. P (log w) l) (sym (q w)) (none (log w))

    pub Does-try :
        {A B : Type 0} (m : Io W A) (f : A → Io W B) (g : Exception → Io W B)
        → Does m
        → ((a : A) → Quiet (f a))
        → ((e : Exception) → Quiet (g e))
        → Does (try_then m f g)
    Does-try m f g h k l w = subst (P (log w)) (sym (Quiet-handle (m w).0 f g k l (m w).1)) (h w)

    Does-handle :
        {A B : Type 0} (r : Outcome A) (f : A → Io W B) (g : Exception → Io W B)
        → ((a : A) → Does (f a))
        → ((e : Exception) → Does (g e))
        → Does (handle r f g)
    Does-handle (returned a) f g h k w = h a w
    Does-handle (raised e) f g h k w = k e w

    pub Does-try_after :
        {A B : Type 0} (m : Io W A) (f : A → Io W B) (g : Exception → Io W B)
        → Quiet m
        → ((a : A) → Does (f a))
        → ((e : Exception) → Does (g e))
        → Does (try_then m f g)
    Does-try_after m f g q h k w =
        subst (λ l. P l (log (handle (m w).0 f g (m w).1).1)) (q w)
          (Does-handle (m w).0 f g h k (m w).1)
