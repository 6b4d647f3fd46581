-- ===== src/Python/Reading.antt =====
-- Reading an object's attributes leaves an observation of the world as it was, where the plain
-- attributes do.
use z4j_celery.Prelude.{String, true, false, refl}
use z4j_celery.Python.Effects.{Exception, pure, raise}
use z4j_celery.Python.Objects.{Value, null}
use z4j_celery.Python.Host.{Runtime, is_missing, if_missing, getattr, getattr_or, hasattr}
use z4j_celery.Python.Observing.{Quiet, Quiet-try, Quiet-if}

module _ (rt : Runtime) {L : Type 0} (log : Runtime.World rt → L)
    (attributes : (obj : Value) (name : String) → Quiet log (rt.attribute obj name)) where
  if_missing-Quiet : {A : Type 0} (default : A) (e : Exception) → Quiet log (if_missing default e)
  if_missing-Quiet default e =
      Quiet-if log (is_missing e) (pure default) (raise e) (λ w. refl) (λ w. refl)

  pub getattr-Quiet : (obj : Value) (name : String) → Quiet log (getattr rt obj name)
  unfolding getattr
  getattr-Quiet obj name =
      Quiet-try log (rt.attribute obj name) pure (if_missing null) (attributes obj name)
        (λ v w. refl) (if_missing-Quiet null)

  pub getattr_or-Quiet :
      (obj : Value) (name : String) (default : Value) → Quiet log (getattr_or rt obj name default)
  unfolding getattr_or
  getattr_or-Quiet obj name default =
      Quiet-try log (rt.attribute obj name) pure (if_missing default) (attributes obj name)
        (λ v w. refl) (if_missing-Quiet default)

  pub hasattr-Quiet : (obj : Value) (name : String) → Quiet log (hasattr rt obj name)
  unfolding hasattr
  hasattr-Quiet obj name =
      Quiet-try log (rt.attribute obj name) (λ _. pure true) (if_missing false)
        (attributes obj name) (λ v w. refl) (if_missing-Quiet false)
