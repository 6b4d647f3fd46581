-- ===== src/Actions/Control/Answers.antt =====
-- Which control actions answer, and what a refused one touches.
use z4j_celery.Prelude.{
  String, Bool, true, false, Option, ◌≡◌, ◌⊎◌, inl, inr, refl, [], ◌∷◌, if◌then◌else◌,
}
use z4j_celery.Prelude.Text.{is_empty}
use z4j_celery.Prelude.Int.{ℤ}
use z4j_celery.Python.{
  Value, Io, Outcome, returned, raised, Exception, Runtime, pure, str, bool, handle, try_then,
}
use z4j_celery.Command.{CommandResult, failed}
use z4j_celery.Actions.Control.{
  cancel_task_action, restart_worker_action, rate_limit_action, pool_grow, pool_shrink,
  add_consumer, cancel_consumer, send_rate, broadcast_timeout,
}
use z4j_celery.Offload.{offload, indeterminate_timeout_result}
use z4j_celery.Actions.Control.Rate.{is_rate}
use Prim.Native.Char.{Char}

module _ (rt : Runtime) (celery_app : Value) where
  open rt use {World}

  -- An action that answers: a result, and never an exception.
  abbrev pub Answers : Io World CommandResult → Type 0
  Answers action = (w : World) → (c : CommandResult) × (w' : World) × (action w ≡ (returned c, w'))

  handle_answers :
      {A : Type 0} (r : Outcome A) (f : A → CommandResult) (g : Exception → CommandResult)
      (w : World)
      → (c : CommandResult) × (w' : World) × (handle {W = World} r
            (λ a. λ u. (returned (f a), u))
            (λ e. λ u. (returned (g e), u))
            w
          ≡ (returned c, w'))
  handle_answers (returned a) f g w = (f a, w, refl)
  handle_answers (raised e) f g w = (g e, w, refl)

  pub try-Answers :
      {A : Type 0} (m : Io World A) (f : A → CommandResult) (g : Exception → CommandResult)
      → Answers (try_then m (λ a. λ u. (returned (f a), u)) (λ e. λ u. (returned (g e), u)))
  try-Answers m f g w = handle_answers (m w).0 f g (m w).1

  if-Answers :
      (b : Bool) (m n : Io World CommandResult)
      → Answers m
      → Answers n
      → Answers (if b then m else n)
  if-Answers true m n k l = k
  if-Answers false m n k l = l

  pub cancel-Answers :
      (task_id signal : String) (terminate : Bool)
      → Answers (cancel_task_action rt celery_app task_id terminate signal)
  unfolding cancel_task_action
  cancel-Answers task_id signal terminate = try-Answers _ _ _

  pub restart-Answers :
      (worker_name : String) → Answers (restart_worker_action rt celery_app worker_name)
  unfolding restart_worker_action
  restart-Answers worker_name = try-Answers _ _ _

  send_rate-Answers :
      (task_name rate : String) (worker_name : Option String)
      → Answers (send_rate rt celery_app task_name rate worker_name)
  send_rate-Answers task_name rate worker_name = try-Answers _ _ _

  refused-Answers : (c : CommandResult) → Answers (pure c)
  refused-Answers c w = (c, w, refl)

  pub rate-Answers :
      (is_digit : Char → Bool) (task_name rate : String) (worker_name : Option String)
      → Answers (rate_limit_action rt celery_app is_digit task_name rate worker_name)
  unfolding rate_limit_action
  rate-Answers is_digit task_name rate worker_name =
      if-Answers (is_empty task_name) _ _ (refused-Answers _) (
        if-Answers (is_rate is_digit rate) _ _ (send_rate-Answers task_name rate worker_name)
          (refused-Answers _))

  pub pool-Answers :
      (worker_name : String) (delta : ℤ)
      → Answers (pool_grow rt celery_app worker_name delta)
        × Answers (pool_shrink rt celery_app worker_name delta)
  unfolding pool_grow pool_shrink
  pool-Answers worker_name delta = (try-Answers _ _ _, try-Answers _ _ _)

  pub consumer-Answers :
      (worker_name queue : String)
      → Answers (add_consumer rt celery_app worker_name queue)
        × Answers (cancel_consumer rt celery_app worker_name queue)
  unfolding add_consumer cancel_consumer
  consumer-Answers worker_name queue = (try-Answers _ _ _, try-Answers _ _ _)

  -- Whatever the broker does, a revoke, a pool restart, a rate limit, a change of a pool's size and a
  -- change of a worker's queues return a result; no exception reaches the caller.
  pub control-Answers :
      (is_digit : Char → Bool) (target detail : String) (flag : Bool) (delta : ℤ)
      (worker_name : Option String)
      → Answers (cancel_task_action rt celery_app target flag detail)
        × Answers (restart_worker_action rt celery_app target)
        × Answers (rate_limit_action rt celery_app is_digit target detail worker_name)
        × (Answers (pool_grow rt celery_app target delta)
            × Answers (pool_shrink rt celery_app target delta))
        × (Answers (add_consumer rt celery_app target detail)
            × Answers (cancel_consumer rt celery_app target detail))
  control-Answers is_digit target detail flag delta worker_name = (
    cancel-Answers target detail flag,
    restart-Answers target,
    rate-Answers is_digit target detail worker_name,
    pool-Answers target delta,
    consumer-Answers target detail,
  )

  refuse :
      (b r : Bool) (x y : CommandResult) (m : Io World CommandResult) (w : World)
      → x.status ≡ failed
      → y.status ≡ failed
      → (b ≡ true) ⊎ (r ≡ false)
      → (c : CommandResult) × (c.status ≡ failed)
        × ((if b then pure x else if r then m else pure y) w ≡ (returned c, w))
  refuse true r x y m w h k e = (x, h, refl)
  refuse false false x y m w h k e = (y, k, refl)
  refuse false true x y m w h k (inl e) = cc
  refuse false true x y m w h k (inr e) = cc

  -- A rate limit without a task's name, or with a rate outside the grammar, fails before the broker
  -- is asked: the world is as it was.
  pub rate_limit_invalid :
      (is_digit : Char → Bool) (task_name rate : String) (worker_name : Option String) (w : World)
      → (is_empty task_name ≡ true) ⊎ (is_rate is_digit rate ≡ false)
      → (c : CommandResult) × (c.status ≡ failed)
        × (rate_limit_action rt celery_app is_digit task_name rate worker_name w ≡ (returned c, w))
  unfolding rate_limit_action
  rate_limit_invalid is_digit task_name rate worker_name w e =
      refuse (is_empty task_name) (is_rate is_digit rate) _ _
        (send_rate rt celery_app task_name rate worker_name) w refl refl e

  -- A revoke that outlives its timeout, once the control object is found, is answered as
  -- indeterminate, and the world keeps whatever the call did to it.
  pub cancel_outlived :
      (task_id signal : String) (terminate : Bool) (c : Value) (w w1 : World)
      → rt.attribute celery_app "control" w ≡ (returned c, w1)
      → rt.outlives broadcast_timeout w1
          (rt.call c "revoke"
            (str task_id ∷ [])
            (("terminate", bool terminate) ∷ ("signal", str signal) ∷ [])
            w1).1
        ≡ true
      → cancel_task_action rt celery_app task_id terminate signal w ≡ (
        returned (
            indeterminate_timeout_result "celery_app.control.revoke" broadcast_timeout
              "the task may still be revoked"),
        (rt.call c "revoke"
            (str task_id ∷ [])
            (("terminate", bool terminate) ∷ ("signal", str signal) ∷ [])
            w1).1,
      )
  unfolding cancel_task_action offload
  cancel_outlived task_id signal terminate c w w1 h o = rw (h, o) refl
