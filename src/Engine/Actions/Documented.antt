-- ===== src/Engine/Actions/Documented.antt =====
-- What the actions rely on of code that is not theirs.
use z4j_celery.Prelude.{String, ◌≡◌, refl, sym, subst, ◌⊎◌}
use z4j_celery.Python.{
  Value, str, Exception, value_error, type_error, os_error, overflow_error, Outcome, returned,
  raised, Io, Runtime, Raises, Never, Answers,
}
use z4j_celery.Command.{CommandResult}
use z4j_celery.Actions.Control.Answers as Control
use z4j_celery.Actions.Control.Answers.{
  try-Answers, cancel-Answers, restart-Answers, rate-Answers, pool-Answers, consumer-Answers,
}
use z4j_celery.Actions.Purge.{Tokens}

abbrev pub IsValueError : Exception → Type 0
IsValueError e = e.kind ≡ value_error

-- What `float` and `fromtimestamp` raise.
abbrev pub IsTimestampError : Exception → Type 0
IsTimestampError e =
    (e.kind ≡ value_error) ⊎ (e.kind ≡ type_error) ⊎ (e.kind ≡ os_error) ⊎ (e.kind ≡ overflow_error)

-- What the documentation of Python and of z4j_core says of the functions that may raise outside a
-- handler of every exception.
pub record Documented (rt : Runtime) (tokens : Tokens (Runtime.World rt)) : Type 0 where
  pub timestamps : (eta : Value) → Raises IsTimestampError (rt.from_timestamp eta)
  pub ints : (s : String) → Raises IsValueError (rt.to_int (str s))
  pub secrets : (raw : String) → Raises IsValueError (tokens.decode_agent_hmac_secret raw)

pub Raises-of :
    {A : Type 0} (R : Exception → Type 0) (o : Outcome A)
    → ((e : Exception) → o ≡ raised e → R e)
    → Raises R o
Raises-of R (returned a) h = tt
Raises-of R (raised e) h = h e refl

module _ (rt : Runtime) (celery_app : Value) where
  open rt use {World}

  -- An action of which an equation gives the answer.
  pub of_answer : {m : Io World CommandResult} → Control.Answers rt celery_app m → Answers m
  of_answer h w = let (c, w', e) = h w in subst (λ o. Raises Never o.0) (sym e) tt
