-- ===== src/Engine/Actions/Publishing.antt =====
-- The answers of the submission, the retry and the bulk retry.
use z4j_celery.Prelude.{
  ℕ, zero, suc, String, Bool, true, false, List, [], ◌∷◌, arith, ◌≡◌, refl, inl, inr, take, drop,
}
use z4j_celery.Prelude.Int.{ℤ}
use z4j_celery.Python.{
  Value, null, str, Dict, Exception, Outcome, returned, raised, Io, pure, Runtime, Raises, Answers,
  Answers-then, Answers-try,
}
use z4j_celery.Actions.Control.Answers.{try-Answers}
use z4j_celery.Actions.Retry.{Request, retry_task_action, retry_at, refuse_eta}
use z4j_celery.Actions.Retry.Eta.{eta_from_timestamp, within_window, checked}
use z4j_celery.Actions.Bulk.{
  selected, hints_of, rounds, start, Hints, Progress, request_for, run_batch, run_batches,
  bulk_retry_action, note,
}
use z4j_celery.Actions.Purge.{Tokens}
use z4j_celery.Engine.Submit.{Submission, submit_task, bulk_retry, task_ids_of, task_priorities_of}
use z4j_celery.Engine.Actions.Documented.{
  IsValueError, IsTimestampError, Documented, Raises-of, of_answer,
}

module _ (rt : Runtime) (tokens : Tokens (Runtime.World rt)) (celery_app : Value)
    (documented : Documented rt tokens) where
  open rt use {World}

  window-IsValueError :
      (target current : ℤ) (e : Exception)
      → within_window rt target current ≡ raised e
      → IsValueError e
  unfolding within_window
  window-IsValueError target current e h = ground (arith, h)

  checked-Raises :
      (eta : Value) (o : Outcome ℤ) (w : World)
      → Raises IsTimestampError o
      → Raises IsValueError (checked rt eta o w).0
  checked-Raises eta (returned target) w h =
      Raises-of IsValueError (within_window rt target (rt.now w))
        (window-IsValueError target (rt.now w))
  checked-Raises eta (raised e) w (inl h) = rw h refl
  checked-Raises eta (raised e) w (inr (inl h)) = rw h refl
  checked-Raises eta (raised e) w (inr (inr (inl h))) = rw h refl
  checked-Raises eta (raised e) w (inr (inr (inr h))) = rw h refl

  timestamp-Raises :
      (eta : Value) (w : World) → Raises IsValueError (checked rt eta (rt.from_timestamp eta) w).0
  timestamp-Raises eta w = checked-Raises eta (rt.from_timestamp eta) w (documented.timestamps eta)

  eta-Raises : (eta : Value) (w : World) → Raises IsValueError (eta_from_timestamp rt eta w).0
  unfolding eta_from_timestamp
  eta-Raises null w = tt
  eta-Raises (Value.bool b) w = timestamp-Raises (Value.bool b) w
  eta-Raises (Value.int n) w = timestamp-Raises (Value.int n) w
  eta-Raises (str s) w = timestamp-Raises (str s) w
  eta-Raises (Value.list vs) w = timestamp-Raises (Value.list vs) w
  eta-Raises (Value.tuple vs) w = timestamp-Raises (Value.tuple vs) w
  eta-Raises (Value.dict fs) w = timestamp-Raises (Value.dict fs) w
  eta-Raises (Value.time t) w = timestamp-Raises (Value.time t) w
  eta-Raises (Value.object n) w = timestamp-Raises (Value.object n) w

  pub retry-Answers : (req : Request) → Answers (retry_task_action rt celery_app req)
  unfolding retry_task_action
  retry-Answers req =
      Answers-try IsValueError (eta_from_timestamp rt req.eta) (retry_at rt celery_app req)
        (refuse_eta rt celery_app) (eta-Raises req.eta)
        (λ eta. of_answer rt celery_app (try-Answers rt celery_app _ _ _)) (λ e h w. rw h tt)

  run_batch-Answers :
      (hints : Hints) (ids : List String) (p : Progress)
      → Answers (run_batch rt celery_app hints ids p)
  unfolding run_batch
  run_batch-Answers hints [] p = λ w. tt
  run_batch-Answers hints (tid ∷ ids) p =
      Answers-then (retry_task_action rt celery_app (request_for hints tid)) _
        (retry-Answers (request_for hints tid))
        (λ single.
          go_on (note tid single p).broker_unhealthy _ _ (λ w. tt)
            (run_batch-Answers hints ids (note tid single p)))
    where
      go_on :
          (b : Bool) (m n : Io World Progress)
          → Answers m
          → Answers n
          → Answers (elim b [ true ↦ m | false ↦ n ])
      go_on true m n h k = h
      go_on false m n h k = k

  run_batches-Answers :
      (hints : Hints) (n : ℕ) (ids : List String) (p : Progress)
      → Answers (run_batches rt celery_app hints n ids p)
  unfolding run_batches
  run_batches-Answers hints zero ids p = λ w. tt
  run_batches-Answers hints (suc n) ids p = go_on p.broker_unhealthy _ (λ w.
      Answers-then (run_batch rt celery_app hints (take 100 ids) p) _
        (run_batch-Answers hints (take 100 ids) p)
        (λ p'. run_batches-Answers hints n (drop 100 ids) p') (rt.sleep w))
    where
      go_on :
          (b : Bool) (n : Io World Progress)
          → Answers n
          → Answers (elim b [ true ↦ pure p | false ↦ n ])
      go_on true n k = λ w. tt
      go_on false n k = k

  pub bulk-Answers : (filter : Dict Value) (max : ℤ) → Answers (bulk_retry rt celery_app filter max)
  unfolding bulk_retry bulk_retry_action
  bulk-Answers filter max = bulk_ids-Answers (task_ids_of rt celery_app filter)
    where
      bulk_ids-Answers :
          (ids : List String)
          → Answers (
              bulk_retry_action rt celery_app filter max ids
                (task_priorities_of rt celery_app filter))
      bulk_ids-Answers [] = λ w. tt
      bulk_ids-Answers (first ∷ more) =
          let ids = selected max (first ∷ more) in
          let hints = hints_of filter (task_priorities_of rt celery_app filter) in
          Answers-then (run_batches rt celery_app hints (rounds ids) ids start) _
            (run_batches-Answers hints (rounds ids) ids start) (λ p w. tt)

  pub submit-Answers : (s : Submission) → Answers (submit_task rt celery_app s)
  unfolding submit_task
  submit-Answers s = of_answer rt celery_app (try-Answers rt celery_app _ _ _)
