-- ===== src/Engine/Actions/Answers.antt =====
-- Which actions answer, and which refuse.
use z4j_celery.Prelude.{Bool, true, ◌≡◌, refl, if◌then◌else◌}
use z4j_celery.Python.{
  Value, member, adapter_error, Outcome, returned, raised, Runtime, Raises, Never,
}
use z4j_celery.Command.{CommandResult, failed}
use z4j_celery.Actions.Control.Answers.{
  cancel-Answers, restart-Answers, rate-Answers, pool-Answers, consumer-Answers,
}
use z4j_celery.Actions.Purge.{Tokens}
use z4j_celery.Actions.Control.{requeue_dead_letter_action}
use z4j_celery.Engine.Wiring.{default_capabilities}
use z4j_celery.Engine.Actions.{
  Action, create, retry, cancel, retry_bulk, purge, requeue, list_dead, restart, grow, shrink,
  consume, stop_consuming, limit, capability, perform, retry_task, cancel_task, purge_queue,
  restart_worker, rate_limit,
}
use Prim.Native.Char.{Char}
use z4j_celery.Engine.Actions.Documented.{Documented, of_answer}
use z4j_celery.Engine.Actions.Publishing.{submit-Answers, retry-Answers, bulk-Answers}
use z4j_celery.Engine.Actions.Purging.{purge-Answers}

abbrev pub IsRefused : Outcome CommandResult → Type 0
IsRefused (returned c) = c.status ≡ failed
IsRefused (raised e) = e.kind ≡ adapter_error

module _ (rt : Runtime) (tokens : Tokens (Runtime.World rt)) (celery_app : Value)
    (is_digit : Char → Bool) where
  open rt use {World}

  -- What is made of an action, by whether the adapter advertises it: an answer, or a refusal
  -- that leaves the world as it was.
  abbrev pub Kept : Action → World → Type 0
  Kept action w =
      if member (capability action) default_capabilities
      then Raises Never (perform rt tokens is_digit celery_app action w).0
      else (perform rt tokens is_digit celery_app action w).1 ≡ w
        × IsRefused (perform rt tokens is_digit celery_app action w).0

  module _ (documented : Documented rt tokens) where
    -- Where reading a timestamp, an integer and a secret raises only what is documented: each action
    -- that the adapter advertises answers, whatever the broker does, and no exception reaches the
    -- caller; any other action is refused, by a failure or an AdapterError, and the world is as it
    -- was.
    pub perform-Kept : (action : Action) (w : World) → Kept action w
    unfolding perform cancel_task purge_queue retry_task restart_worker rate_limit
        requeue_dead_letter_action
    perform-Kept (create s) w = submit-Answers rt tokens celery_app documented s w
    perform-Kept (retry req) w = retry-Answers rt tokens celery_app documented req w
    perform-Kept (cancel task_id) w =
        of_answer rt celery_app (cancel-Answers rt celery_app task_id "SIGTERM" true) w
    perform-Kept (retry_bulk filter max) w =
        bulk-Answers rt tokens celery_app documented filter max w
    perform-Kept (purge queue_name confirm_token force) w =
        purge-Answers rt tokens celery_app documented queue_name confirm_token force w
    perform-Kept (requeue task_id) w = (refl, refl)
    perform-Kept list_dead w = (refl, refl)
    perform-Kept (restart worker_id) w =
        of_answer rt celery_app (restart-Answers rt celery_app worker_id) w
    perform-Kept (grow worker_name delta) w =
        of_answer rt celery_app (pool-Answers rt celery_app worker_name delta).0 w
    perform-Kept (shrink worker_name delta) w =
        of_answer rt celery_app (pool-Answers rt celery_app worker_name delta).1 w
    perform-Kept (consume worker_name queue) w =
        of_answer rt celery_app (consumer-Answers rt celery_app worker_name queue).0 w
    perform-Kept (stop_consuming worker_name queue) w =
        of_answer rt celery_app (consumer-Answers rt celery_app worker_name queue).1 w
    perform-Kept (limit task_name rate worker_name) w =
        of_answer rt celery_app (rate-Answers rt celery_app is_digit task_name rate worker_name) w
