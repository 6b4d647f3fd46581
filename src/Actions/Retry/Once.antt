-- ===== src/Actions/Retry/Once.antt =====
-- How often a retry publishes.
use z4j_celery.Prelude.{ℕ, ◌+◌, ◌≤◌, String, Option, none, some, List, [], ◌∷◌, refl, arith}
use z4j_celery.Prelude.Int.{ℤ}
use z4j_celery.Python.{
  Value, str, Dict, Io, pure, ◌>>=◌, Runtime, Quiet, Quiet-then, Does, Does-then, Does-before,
  Does-Quiet, Does-try, Does-try_after,
}
use z4j_celery.Offload.{offload}
use z4j_celery.Offload.World.{offload-Does}
use z4j_celery.Actions.Retry.{
  Request, retry_task_action, retry_at, refuse_eta, do_retry_io, publish_resolved, publish, sent_id,
  id_text, retry_name, retry_timeout, retried, retry_failed, send_kwargs,
}
use z4j_celery.Actions.Retry.Reads.{
  Observed, resolve_priority-Quiet, retry_name-Quiet, resolve_args-Quiet, sent_id-Quiet,
  id_text-Quiet, result-Quiet, eta_from_timestamp-Quiet, refuse_eta-Quiet,
}
use z4j_celery.Actions.Retry.Arguments.{resolve_args}
use z4j_celery.Actions.Retry.Priority.{resolve_priority}
use z4j_celery.Actions.Retry.Eta.{eta_from_timestamp}

module _ (rt : Runtime) (celery_app : Value) where
  open rt use {World, attribute, call}

  -- The publishes so far can be counted in the world, and only `send_task` makes one.
  pub record Counted (sends : World → ℕ) : Type 0 where
    pub observed : Observed rt celery_app sends
    pub send :
        (args : List Value) (kwargs : Dict Value) (w : World)
        → sends (call celery_app "send_task" args kwargs w).1 ≤ sends w + 1

  module _ (sends : World → ℕ) (counted : Counted sends) where
    abbrev OneMore : ℕ → ℕ → Type 0
    OneMore before after = after ≤ before + 1

    no_more : (n : ℕ) → OneMore n n
    no_more n = omega arith

    abbrev AtMostOnce : {A : Type 0} → Io World A → Type 0
    AtMostOnce m = Does sends OneMore no_more m

    publish-AtMostOnce :
        (name : String) (kwargs : Dict Value) → AtMostOnce (publish rt celery_app name kwargs)
    unfolding publish
    publish-AtMostOnce name kwargs =
        Does-before sends OneMore no_more (call celery_app "send_task" (str name ∷ []) kwargs) _
          (counted.send (str name ∷ []) kwargs)
          (λ new_async.
            Quiet-then sends (sent_id rt celery_app new_async) (id_text rt celery_app)
              (sent_id-Quiet rt celery_app sends counted.observed new_async)
              (id_text-Quiet rt celery_app sends counted.observed))

    publish_resolved-AtMostOnce :
        (req : Request) (name : String) (eta_dt : Value) (priority : Option ℤ)
        (resolved : Option (List Value × Dict Value))
        → AtMostOnce (publish_resolved rt celery_app req name eta_dt priority resolved)
    publish_resolved-AtMostOnce req name eta_dt priority none = λ w. omega arith
    publish_resolved-AtMostOnce req name eta_dt priority (some (args, kwargs)) =
        Does-before sends OneMore no_more
          (publish rt celery_app name (send_kwargs args kwargs eta_dt priority)) _
          (publish-AtMostOnce name (send_kwargs args kwargs eta_dt priority))
          (λ new_task_id w. refl)

    -- A statement of the retry that comes before the publish.
    before :
        {A B : Type 0} (m : Io World A) (f : A → Io World B)
        → Quiet sends m
        → ((a : A) → AtMostOnce (f a))
        → AtMostOnce (m >>= f)
    before m f q h = Does-then sends OneMore no_more m f q h

    do_retry_io-AtMostOnce :
        (req : Request) (eta_dt : Value) → AtMostOnce (do_retry_io rt celery_app req eta_dt)
    unfolding do_retry_io
    do_retry_io-AtMostOnce req eta_dt =
        before (resolve_priority rt celery_app req.priority) _
          (resolve_priority-Quiet rt celery_app sends counted.observed req.priority)
          (λ priority.
            before (call celery_app "AsyncResult" (str req.task_id ∷ []) []) _
              (result-Quiet rt celery_app sends counted.observed req.task_id)
              (λ async_result.
                before (retry_name rt celery_app req async_result) _
                  (retry_name-Quiet rt celery_app sends counted.observed req async_result)
                  (λ name.
                    before (resolve_args rt async_result req.override_args req.override_kwargs)
                      (publish_resolved rt celery_app req name eta_dt priority)
                      (resolve_args-Quiet rt celery_app sends counted.observed async_result
                        req.override_args req.override_kwargs)
                      (publish_resolved-AtMostOnce req name eta_dt priority))))

    retry_at-AtMostOnce :
        (req : Request) (eta_dt : Value) → AtMostOnce (retry_at rt celery_app req eta_dt)
    retry_at-AtMostOnce req eta_dt =
        Does-try sends OneMore no_more
          (offload rt retry_timeout (do_retry_io rt celery_app req eta_dt)) (λ r. pure (retried r))
          (λ e. pure (retry_failed e))
          (offload-Does rt sends OneMore no_more retry_timeout
            (do_retry_io rt celery_app req eta_dt) (do_retry_io-AtMostOnce req eta_dt))
          (λ r w. refl) (λ e w. refl)

    -- Where a publish is a call of `send_task` and nothing else is, a retry makes at most one,
    -- whatever it asks for, whatever the broker does, and also when it outlives its timeout.
    pub retry_publishes_once :
        (req : Request) (w : World) → sends (retry_task_action rt celery_app req w).1 ≤ sends w + 1
    unfolding retry_task_action
    retry_publishes_once req =
        Does-try_after sends OneMore no_more (eta_from_timestamp rt req.eta)
          (retry_at rt celery_app req) (refuse_eta rt celery_app)
          (eta_from_timestamp-Quiet rt celery_app sends counted.observed req.eta)
          (retry_at-AtMostOnce req)
          (λ e.
            Does-Quiet sends OneMore no_more (refuse_eta rt celery_app e)
              (refuse_eta-Quiet rt celery_app sends counted.observed e))
