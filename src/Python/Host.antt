-- ===== src/Python/Host.antt =====
-- What the program runs against and does not implement: Celery and kombu objects, the event loop's
-- `wait_for`, clocks and the environment.
use z4j_celery.Prelude.{ℕ, String, Bool, true, false, Option, List, [], if◌then◌else◌}
use z4j_celery.Prelude.Int.{ℤ}
use z4j_celery.Python.Objects.{Value, null}
use z4j_celery.Python.Dicts.{Dict}
use z4j_celery.Python.Effects.{
  Io, Exception, attribute_error, Outcome, pure, raise, try_then, ◌>>=◌,
}

pub record Runtime : Type 1 where
  pub World : Type 0
  -- `obj.name`, which may do I/O (a Celery result reads its backend)
  pub attribute : Value → String → Io World Value
  -- `obj.method(*args, **kwargs)`
  pub call : Value → String → List Value → Dict Value → Io World Value
  -- `str(obj)`
  pub py_str : Value → String
  -- `int(obj)`, which may raise
  pub to_int : Value → Outcome ℤ
  -- `repr(obj)`
  pub py_repr : Value → String
  -- whether a call that took the loop from one world to another outlived its timeout, in seconds
  pub outlives : ℕ → World → World → Bool
  -- `await asyncio.sleep(0)`: the other tasks of the loop run
  pub sleep : World → World
  -- `datetime.now(UTC)`, in microseconds
  pub now : World → ℤ
  -- `datetime.fromtimestamp(float(eta), tz=UTC)`, which may raise
  pub from_timestamp : Value → Outcome ℤ
  pub environ : World → String → Option String

abbrev pub is_missing : Exception → Bool
is_missing e = elim e.kind [ attribute_error ↦ true | _ ↦ false ]

-- `except AttributeError: return default`
abbrev pub if_missing : {W A : Type 0} → A → Exception → Io W A
if_missing default e = if is_missing e then pure default else raise e

module _ (rt : Runtime) where
  open rt use {World, attribute, call}

  -- `getattr(obj, name, None)`: only a missing attribute gives the default.
  unfoldable pub getattr : Value → String → Io World Value
  getattr obj name = try_then (attribute obj name) pure (if_missing null)

  -- `getattr(obj, name, default)`
  unfoldable pub getattr_or : Value → String → Value → Io World Value
  getattr_or obj name default = try_then (attribute obj name) pure (if_missing default)

  -- `with obj as inner: body`: the exit runs however the body ends, and kombu's exit suppresses
  -- no exception.
  unfoldable pub with_context : {A : Type 0} → Value → (Value → Io World A) → Io World A
  with_context obj body = do
    inner ← call obj "__enter__" [] []
    try_then (body inner) (λ a. do _ ← call obj "__exit__" [] []; pure a)
        (λ e. do _ ← call obj "__exit__" [] []; raise e)

  -- `hasattr(obj, name)`
  unfoldable pub hasattr : Value → String → Io World Bool
  hasattr obj name = try_then (attribute obj name) (λ _. pure true) (if_missing false)
