-- ===== src/Actions/Retry/Closed.antt =====
-- A retry without arguments to send.
use z4j_celery.Prelude.{
  String, Bool, true, false, Option, none, some, List, [], ◌∷◌, ◌≡◌, ◌⊎◌, refl, inl, inr,
  if◌then◌else◌,
}
use z4j_celery.Prelude.Int.{ℤ}
use z4j_celery.Prelude.Text.{concat}
use z4j_celery.Python.{
  Value, null, str, as_sequence, as_dict, Dict, Outcome, returned, raised, Exception, Io, pure,
  raise, Runtime, getattr, is_missing, if_missing, Quiet, Quiet-then, Quiet-try, Quiet-knowing,
  Holds, Returns, Returns-then, Returns-any, Returns-any_try, Returns-try,
}
use z4j_celery.Command.{CommandResult, failed, refused}
use z4j_celery.Offload.World.{offload-Quiet}
use z4j_celery.Offload.{offload, offload_timeout, translate}
use z4j_celery.Actions.Retry.{
  Request, retry_task_action, retry_at, refuse_eta, do_retry_io, publish_resolved, retry_name,
  is_value_error, retry_timeout,
}
use z4j_celery.Actions.Retry.Arguments.{resolve_args, both}
use z4j_celery.Actions.Retry.Priority.{resolve_priority}
use z4j_celery.Actions.Retry.Eta.{eta_from_timestamp}
use z4j_celery.Actions.Retry.Answers.{retry_failed-IsFailed}
use z4j_celery.Actions.Retry.Reads.{
  Observed, resolve_priority-Quiet, retry_name-Quiet, resolve_args-Quiet, eta_from_timestamp-Quiet,
  refuse_eta-Quiet, result-Quiet,
}

-- The attribute of this name is never a value that can be sent: Celery's backend stored none.
abbrev pub IsUnstored : {A : Type 0} → Runtime → String → (Value → Option A) → Type 0
IsUnstored rt name read = (obj : Value) → Returns (λ v. read v ≡ none) (rt.attribute obj name)

-- One half of the arguments has neither a value of the operator's nor one in the backend.
abbrev pub LacksArguments : Runtime → Request → Type 0
LacksArguments rt req =
    ((req.override_args ≡ none) × IsUnstored rt "args" as_sequence)
    ⊎ ((req.override_kwargs ≡ none) × IsUnstored rt "kwargs" as_dict)

abbrev IsNone : {A : Type 0} → Option A → Type 0
IsNone o = o ≡ none

abbrev pub IsFailed : CommandResult → Type 0
IsFailed c = c.status ≡ failed

both-none : {A B : Type 0} (o : Option A) → both {B = B} o none ≡ none
both-none none = refl
both-none (some a) = refl

module _ (rt : Runtime) (celery_app : Value) where
  open rt use {World, attribute, call}

  getattr-IsUnstored :
      {A : Type 0} (name : String) (read : Value → Option A)
      → read null ≡ none
      → IsUnstored rt name read
      → (obj : Value) → Returns (λ v. read v ≡ none) (getattr rt obj name)
  unfolding getattr
  getattr-IsUnstored name read e h obj =
      Returns-try (λ v. read v ≡ none) (λ v. read v ≡ none) (attribute obj name) pure
        (if_missing null) (h obj) (λ v k w. k) (λ x. missing (is_missing x) x)
    where
      missing :
          (b : Bool) (x : Exception)
          → Returns {W = World} (λ v. read v ≡ none) (if b then pure null else raise x)
      missing true x w = e
      missing false x w = tt

  resolve_args-IsNone :
      (async_result : Value) (args : Option (List Value)) (kwargs : Option (Dict Value))
      → ((args ≡ none) × IsUnstored rt "args" as_sequence)
        ⊎ ((kwargs ≡ none) × IsUnstored rt "kwargs" as_dict)
      → Returns IsNone (resolve_args rt async_result args kwargs)
  unfolding resolve_args
  resolve_args-IsNone async_result args kwargs (inl (e, h)) =
      Returns-then (λ v. as_sequence v ≡ none) IsNone (getattr rt async_result "args") _
        (getattr-IsUnstored "args" as_sequence refl h async_result)
        (λ stored k.
          Returns-any IsNone (getattr rt async_result "kwargs") _ (λ more w. rw (e, k) refl))
  resolve_args-IsNone async_result args kwargs (inr (e, h)) =
      Returns-any IsNone (getattr rt async_result "args") _ (λ stored.
        Returns-then (λ v. as_dict v ≡ none) IsNone (getattr rt async_result "kwargs") _
          (getattr-IsUnstored "kwargs" as_dict refl h async_result)
          (λ more k w. rw (e, k) (both-none _)))

  module _ (req : Request) (lacks : LacksArguments rt req) where
    publish_none-Returns :
        (name : String) (eta_dt : Value) (priority : Option ℤ)
        (resolved : Option (List Value × Dict Value))
        → resolved ≡ none
        → Returns (λ r. ⊥) (publish_resolved rt celery_app req name eta_dt priority resolved)
    publish_none-Returns name eta_dt priority none e w = tt
    publish_none-Returns name eta_dt priority (some r) e w = absurd (cc)

    do_retry_io-Returns : (eta_dt : Value) → Returns (λ r. ⊥) (do_retry_io rt celery_app req eta_dt)
    unfolding do_retry_io
    do_retry_io-Returns eta_dt =
        Returns-any (λ r. ⊥) (resolve_priority rt celery_app req.priority) _
          (λ priority.
            Returns-any (λ r. ⊥) (call celery_app "AsyncResult" (str req.task_id ∷ []) []) _
              (λ async_result.
                Returns-any (λ r. ⊥) (retry_name rt celery_app req async_result) _
                  (λ name.
                    Returns-then IsNone (λ r. ⊥)
                      (resolve_args rt async_result req.override_args req.override_kwargs) _
                      (resolve_args-IsNone async_result req.override_args req.override_kwargs lacks)
                      (publish_none-Returns name eta_dt priority))))

    offload-Returns :
        (m : Io World (String × String × Option ℤ))
        → Returns (λ r. ⊥) m
        → Returns (λ r. ⊥) (offload rt retry_timeout m)
    unfolding offload
    offload-Returns m h w = offloaded (rt.outlives retry_timeout w (m w).1) (m w).0 (m w).1 (h w)
      where
        offloaded :
            (b : Bool) (r : Outcome (String × String × Option ℤ)) (u : World)
            → Holds (λ x. ⊥) r
            → Holds {A = String × String × Option ℤ}
                (λ x. ⊥)
                (if◌then◌else◌ {A = Outcome (String × String × Option ℤ) × World} b
                  (raised offload_timeout, u)
                  (translate r, u)).0
        offloaded true r u h = tt
        offloaded false (returned x) u h = h
        offloaded false (raised e) u h = tt

    retry-IsFailed : Returns IsFailed (retry_task_action rt celery_app req)
    unfolding retry_task_action
    retry-IsFailed =
        Returns-any_try IsFailed (eta_from_timestamp rt req.eta) (retry_at rt celery_app req)
          (refuse_eta rt celery_app)
          (λ eta_dt.
            Returns-try (λ r. ⊥) IsFailed
              (offload rt retry_timeout (do_retry_io rt celery_app req eta_dt)) _ _
              (offload-Returns (do_retry_io rt celery_app req eta_dt) (do_retry_io-Returns eta_dt))
              (λ r h. absurd h) (λ e w. retry_failed-IsFailed e))
          (λ e. refused_if (is_value_error rt celery_app e) e)
      where
        refused_if :
            (b : Bool) (e : Exception)
            → Returns {W = World} IsFailed
                (if b then pure (refused (concat ("invalid eta: " ∷ e.text ∷ []))) else raise e)
        refused_if true e w = refl
        refused_if false e w = tt

    module _ {L : Type 0} (log : World → L) (observed : Observed rt celery_app log) where
      publish_none-Quiet :
          (name : String) (eta_dt : Value) (priority : Option ℤ)
          (resolved : Option (List Value × Dict Value))
          → resolved ≡ none
          → Quiet log (publish_resolved rt celery_app req name eta_dt priority resolved)
      publish_none-Quiet name eta_dt priority none e w = refl
      publish_none-Quiet name eta_dt priority (some r) e w = absurd (cc)

      do_retry_io-Quiet : (eta_dt : Value) → Quiet log (do_retry_io rt celery_app req eta_dt)
      unfolding do_retry_io
      do_retry_io-Quiet eta_dt =
          Quiet-then log (resolve_priority rt celery_app req.priority) _
            (resolve_priority-Quiet rt celery_app log observed req.priority)
            (λ priority.
              Quiet-then log (call celery_app "AsyncResult" (str req.task_id ∷ []) []) _
                (result-Quiet rt celery_app log observed req.task_id)
                (λ async_result.
                  Quiet-then log (retry_name rt celery_app req async_result) _
                    (retry_name-Quiet rt celery_app log observed req async_result)
                    (λ name.
                      Quiet-knowing log IsNone
                        (resolve_args rt async_result req.override_args req.override_kwargs) _
                        (resolve_args-Quiet rt celery_app log observed async_result
                          req.override_args req.override_kwargs)
                        (resolve_args-IsNone async_result req.override_args req.override_kwargs
                          lacks)
                        (publish_none-Quiet name eta_dt priority))))

      retry_at-Quiet : (eta_dt : Value) → Quiet log (retry_at rt celery_app req eta_dt)
      retry_at-Quiet eta_dt =
          Quiet-try log (offload rt retry_timeout (do_retry_io rt celery_app req eta_dt)) _ _
            (offload-Quiet rt log retry_timeout (do_retry_io rt celery_app req eta_dt)
              (do_retry_io-Quiet eta_dt))
            (λ r w. refl) (λ e w. refl)

      -- Where a publish is a call of send_task and nothing else is, and one half of the arguments,
      -- positional or by keyword, has neither a value of the operator's nor one that Celery's backend
      -- stored, a retry publishes nothing, whatever the broker does, and an answer of it is a failure.
      pub retry_fails_closed :
          (w : World)
          → (log (retry_task_action rt celery_app req w).1 ≡ log w)
            × Holds IsFailed (retry_task_action rt celery_app req w).0
      unfolding retry_task_action
      retry_fails_closed w = (
        Quiet-try log (eta_from_timestamp rt req.eta) (retry_at rt celery_app req)
            (refuse_eta rt celery_app) (eta_from_timestamp-Quiet rt celery_app log observed req.eta)
            retry_at-Quiet (refuse_eta-Quiet rt celery_app log observed) w,
        retry-IsFailed w,
      )
