-- ===== src/Actions/Retry/Answers.antt =====
-- When a retry answers.
use z4j_celery.Prelude.{◌≡◌, refl, arith}
use z4j_celery.Python.{Value, null, Outcome, returned, raised, Exception, Runtime, handle}
use z4j_celery.Command.{CommandResult, failed}
use z4j_celery.Actions.Retry.{
  Request, retry_task_action, do_retry_io, retry_failed, retried, retry_timeout,
}
use z4j_celery.Actions.Retry.Eta.{eta_from_timestamp}
use z4j_celery.Offload.{offload, indeterminate_timeout_result}

-- An exception of the publish makes a failure.
pub retry_failed-IsFailed : (e : Exception) → (retry_failed e).status ≡ failed
unfolding indeterminate_timeout_result
retry_failed-IsFailed e = ground arith

module _ (rt : Runtime) (celery_app : Value) where
  open rt use {World}

  -- Both ways out of the publishing step lead to a result.
  publish_answers :
      {A : Type 0} (r : Outcome A) (f : A → CommandResult) (g : Exception → CommandResult)
      (w : World)
      → (c : CommandResult) × (handle {W = World} r
            (λ a. λ w'. (returned (f a), w'))
            (λ e. λ w'. (returned (g e), w'))
            w
          ≡ (returned c, w))
  publish_answers (returned a) f g w = (f a, refl)
  publish_answers (raised e) f g w = (g e, refl)

  -- A retry with no delay, whatever else it asks for.
  pub retry_answers :
      (req : Request) (w : World)
      → (c : CommandResult) × (w' : World) × (retry_task_action rt celery_app
            (record req { eta = null })
            w
          ≡ (returned c, w'))
  unfolding retry_task_action eta_from_timestamp
  retry_answers req w =
      let (r, w') =
        offload rt retry_timeout (do_retry_io rt celery_app (record req { eta = null }) null) w in
      let (c, e) = publish_answers r retried retry_failed w' in (c, w', e)
