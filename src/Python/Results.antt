-- ===== src/Python/Results.antt =====
-- What a statement returns, whatever world it starts from.
use z4j_celery.Prelude.{Bool, true, false, List, [], ◌∷◌, ◌++◌, if◌then◌else◌}
use z4j_celery.Python.Effects.{
  Exception, Outcome, returned, raised, Io, ◌>>=◌, continue, handle, try_then,
}

-- A value, if there is one, has the property.
abbrev pub Holds : {A : Type 0} → (A → Type 0) → Outcome A → Type 0
Holds P (returned a) = P a
Holds P (raised e) = Unit

abbrev pub Returns : {W A : Type 0} → (A → Type 0) → Io W A → Type 0
Returns P m = (w : _) → Holds P (m w).0

-- Each element of a list has the property.
abbrev pub All : {A : Type 0} → (A → Type 0) → List A → Type 0
All P [] = Unit
All P (x ∷ xs) = P x × All P xs

pub All-snoc :
    {A : Type 0} (P : A → Type 0) (xs : List A) (x : A) → All P xs → P x → All P (xs ++ x ∷ [])
All-snoc P [] x h k = (k, tt)
All-snoc P (y ∷ xs) x h k = (h.0, All-snoc P xs x h.1 k)

module _ {W A B : Type 0} (P : A → Type 0) (Q : B → Type 0) where
  Returns-continue :
      (r : Outcome A) (f : A → Io W B)
      → Holds P r
      → ((a : A) → P a → Returns Q (f a))
      → Returns Q (continue r f)
  Returns-continue (returned a) f h k w = k a h w
  Returns-continue (raised e) f h k w = tt

  pub Returns-then :
      (m : Io W A) (f : A → Io W B)
      → Returns P m
      → ((a : A) → P a → Returns Q (f a))
      → Returns Q (m >>= f)
  Returns-then m f h k w = Returns-continue (m w).0 f (h w) k (m w).1

  Returns-handle :
      (r : Outcome A) (f : A → Io W B) (g : Exception → Io W B)
      → Holds P r
      → ((a : A) → P a → Returns Q (f a))
      → ((e : Exception) → Returns Q (g e))
      → Returns Q (handle r f g)
  Returns-handle (returned a) f g h k l w = k a h w
  Returns-handle (raised e) f g h k l w = l e w

  pub Returns-try :
      (m : Io W A) (f : A → Io W B) (g : Exception → Io W B)
      → Returns P m
      → ((a : A) → P a → Returns Q (f a))
      → ((e : Exception) → Returns Q (g e))
      → Returns Q (try_then m f g)
  Returns-try m f g h k l w = Returns-handle (m w).0 f g (h w) k l (m w).1

-- The same for statements of which nothing is known.
abbrev pub Any : {A : Type 0} → A → Type 0
Any a = Unit

pub Holds-all : {A : Type 0} (P : A → Type 0) → ((a : A) → P a) → (r : Outcome A) → Holds P r
Holds-all P h (returned a) = h a
Holds-all P h (raised e) = tt

pub Holds-Any : {A : Type 0} (r : Outcome A) → Holds Any r
Holds-Any (returned a) = tt
Holds-Any (raised e) = tt

module _ {W A B : Type 0} (Q : B → Type 0) where
  pub Returns-any :
      (m : Io W A) (f : A → Io W B) → ((a : A) → Returns Q (f a)) → Returns Q (m >>= f)
  Returns-any m f k = Returns-then Any Q m f (λ w. Holds-Any (m w).0) (λ a _. k a)

  pub Returns-any_try :
      (m : Io W A) (f : A → Io W B) (g : Exception → Io W B)
      → ((a : A) → Returns Q (f a))
      → ((e : Exception) → Returns Q (g e))
      → Returns Q (try_then m f g)
  Returns-any_try m f g k l = Returns-try Any Q m f g (λ w. Holds-Any (m w).0) (λ a _. k a) l

-- What is raised has the property.
abbrev pub Raises : {A : Type 0} → (Exception → Type 0) → Outcome A → Type 0
Raises R (returned a) = Unit
Raises R (raised e) = R e

-- A statement that raises nothing.
abbrev pub Never : Exception → Type 0
Never e = ⊥

abbrev pub Answers : {W A : Type 0} → Io W A → Type 0
Answers m = (w : _) → Raises Never (m w).0

module _ {W A B : Type 0} where
  Answers-continue :
      (r : Outcome A) (f : A → Io W B)
      → Raises Never r
      → ((a : A) → Answers (f a))
      → Answers (continue r f)
  Answers-continue (returned a) f h k w = k a w
  Answers-continue (raised e) f h k w = absurd h

  pub Answers-then :
      (m : Io W A) (f : A → Io W B) → Answers m → ((a : A) → Answers (f a)) → Answers (m >>= f)
  Answers-then m f h k w = Answers-continue (m w).0 f (h w) k (m w).1

  Answers-handle :
      (R : Exception → Type 0) (r : Outcome A) (f : A → Io W B) (g : Exception → Io W B)
      → Raises R r
      → ((a : A) → Answers (f a))
      → ((e : Exception) → R e → Answers (g e))
      → Answers (handle r f g)
  Answers-handle R (returned a) f g h k l w = k a w
  Answers-handle R (raised e) f g h k l w = l e h w

  -- A handler of the exceptions that the body raises.
  pub Answers-try :
      (R : Exception → Type 0) (m : Io W A) (f : A → Io W B) (g : Exception → Io W B)
      → ((w : W) → Raises R (m w).0)
      → ((a : A) → Answers (f a))
      → ((e : Exception) → R e → Answers (g e))
      → Answers (try_then m f g)
  Answers-try R m f g h k l w = Answers-handle R (m w).0 f g (h w) k l (m w).1

  -- A handler of every exception.
  pub Answers-catch :
      (m : Io W A) (f : A → Io W B) (g : Exception → Io W B)
      → ((a : A) → Answers (f a))
      → ((e : Exception) → Answers (g e))
      → Answers (try_then m f g)
  Answers-catch m f g k l = Answers-try (λ _. Unit) m f g (λ w. anything (m w).0) k (λ e _. l e)
    where
      anything : (r : Outcome A) → Raises (λ _. Unit) r
      anything (returned a) = tt
      anything (raised e) = tt

pub Answers-if :
    {W A : Type 0} (b : Bool) (m n : Io W A) → Answers m → Answers n → Answers (if b then m else n)
Answers-if true m n h k = h
Answers-if false m n h k = k
