-- ===== src/Python/Effects.antt =====
-- Statements that touch the world outside: each returns or raises, and leaves a new world. What was
-- done before a raise stays done.
use z4j_celery.Prelude.{String, ◌≡◌, refl, ◌⊎◌, inl, inr}

-- The exceptions that the code tells apart; `other` is any other subclass of `Exception`.
pub data Kind : Type 0 where
  timeout_error offload_timeout_error retry_error value_error type_error overflow_error : Kind
  attribute_error os_error syntax_error purge_unsupported adapter_error not_found_error other : Kind

-- `name` is `type(exc).__name__` and `text` is `str(exc)`.
pub record Exception : Type 0 where
  pub kind : Kind
  pub name : String
  pub text : String

pub data Outcome {ℓ} (A : Type ℓ) : Type ℓ where
  returned : A → Outcome A
  raised : Exception → Outcome A

abbrev pub Io : Type 0 → Type 0 → Type 0
Io W A = W → Outcome A × W

module _ {W A : Type 0} where
  abbrev pub pure : A → Io W A
  pure a w = (returned a, w)

  abbrev pub raise : Exception → Io W A
  raise e w = (raised e, w)

  abbrev pub lift : Outcome A → Io W A
  lift r w = (r, w)

module _ {W A B : Type 0} where
  abbrev pub continue : Outcome A → (A → Io W B) → Io W B
  continue (returned a) f w = f a w
  continue (raised e) f w = (raised e, w)

  infixl 5 ◌>>=◌ ◌>>◌
  abbrev pub ◌>>=◌ : Io W A → (A → Io W B) → Io W B
  ◌>>=◌ m f w = let (r, w') = m w in continue r f w'

  abbrev pub ◌>>◌ : Io W A → Io W B → Io W B
  m >> n = m >>= λ _. n

  -- `try: … except Exception as exc: …`, both ways.
  abbrev pub handle : Outcome A → (A → Io W B) → (Exception → Io W B) → Io W B
  handle (returned a) f g w = f a w
  handle (raised e) f g w = g e w

  abbrev pub try_then : Io W A → (A → Io W B) → (Exception → Io W B) → Io W B
  try_then m f g w = let (r, w') = m w in handle r f g w'

abbrev pub exception : Kind → String → String → Exception
exception kind name text = record { kind = kind; name = name; text = text }

pub Outcome-cases {ℓ} :
    {A : Type ℓ} (o : Outcome A) → ((a : A) × (o ≡ returned a)) ⊎ ((e : Exception) × (o ≡ raised e))
Outcome-cases (returned a) = inl (a, refl)
Outcome-cases (raised e) = inr (e, refl)
