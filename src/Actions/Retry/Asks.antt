-- ===== src/Actions/Retry/Asks.antt =====
-- What a retry publishes.
use z4j_celery.Prelude.{
  String, Bool, true, false, Option, none, some, List, [], ◌∷◌, ◌++◌, ◌≡◌, refl, if◌then◌else◌, inl,
  inr, ◌∙◌, ap,
}
use z4j_celery.Prelude.Int.{ℤ}
use z4j_celery.Python.{
  Value, int, str, Dict, Exception, pure, raise, Io, Runtime, Quiet-then, Any, Holds-Any, Sends,
  Sends-then, Sends-before, once,
}
use z4j_celery.Prelude.Text.{concat}
use z4j_celery.Command.{refused}
use z4j_celery.Offload.{offload}
use z4j_celery.Offload.Publishing.{Settled, Settled-try, offload-Sends, Sends-Settled}
use z4j_celery.Actions.Retry.{
  Request, retry_task_action, retry_at, refuse_eta, do_retry_io, publish_resolved, publish, sent_id,
  id_text, retry_name, retry_timeout, retried, retry_failed, is_value_error, send_kwargs,
}
use z4j_celery.Actions.Retry.Answers.{retry_failed-IsFailed}
use z4j_celery.Actions.Retry.Reads.{
  Observed, resolve_priority-Quiet, retry_name-Quiet, resolve_args-Quiet, sent_id-Quiet,
  id_text-Quiet, result-Quiet, eta_from_timestamp-Quiet,
}
use z4j_celery.Actions.Retry.Arguments.{supplied_name, resolve_args}
use z4j_celery.Actions.Retry.Priority.{resolve_priority}
use z4j_celery.Actions.Retry.Eta.{eta_from_timestamp}
use z4j_celery.Actions.Retry.Limits.{retry_name-IsReal, IsReal, coerce_priority-IsByte}
use mathlib.Core.Option
use z4j_celery.Actions.Retry.Asked.{
  Publication, Respects, IsDelay, AsksFor, get-send_kwargs, ResolvedBy, resolve_args-ResolvedBy,
  Numbers, resolve_priority-Numbers, eta_from_timestamp-IsDelay,
}

module _ (rt : Runtime) (celery_app : Value) where
  open rt use {World, call}

  -- `log` shows the publishes so far.
  pub record Logged (log : World → List Publication) : Type 0 where
    pub observed : Observed rt celery_app log
    pub sends :
        (name : String) (kwargs : Dict Value) (w : World)
        → log (call celery_app "send_task" (str name ∷ []) kwargs w).1
          ≡ log w ++ (name, kwargs) ∷ []

  module _ (log : World → List Publication) (logged : Logged log) (req : Request)
      (current : ℤ) where
    abbrev Asking : {A : Type 0} → Io World A → Type 0
    Asking m = Sends log (AsksFor rt celery_app req current) m

    publish-Sends :
        (name : String) (kwargs : Dict Value)
        → AsksFor rt celery_app req current (name, kwargs)
        → Asking (publish rt celery_app name kwargs)
    unfolding publish
    publish-Sends name kwargs asked =
        Sends-before log (AsksFor rt celery_app req current)
          (call celery_app "send_task" (str name ∷ []) kwargs) _
          (λ w.
            once log (AsksFor rt celery_app req current)
              (call celery_app "send_task" (str name ∷ []) kwargs w).0 (log w)
              (log (call celery_app "send_task" (str name ∷ []) kwargs w).1)
              (record {
                published = (name, kwargs);
                is_asked = asked;
                order = logged.sends name kwargs w;
              }))
          (λ new_async.
            Quiet-then log (sent_id rt celery_app new_async) (id_text rt celery_app)
              (sent_id-Quiet rt celery_app log logged.observed new_async)
              (id_text-Quiet rt celery_app log logged.observed))

    publish_resolved-Sends :
        (name : String) (eta : Value) (n : Option ℤ) (resolved : Option (List Value × Dict Value))
        → IsReal rt name
        → Respects (supplied_name req.task_name) name
        → IsDelay rt celery_app req.eta current eta
        → Numbers rt celery_app req.priority n
        → ResolvedBy rt celery_app req.override_args req.override_kwargs resolved
        → Asking (publish_resolved rt celery_app req name eta n resolved)
    publish_resolved-Sends name eta n none real named delay numbers resolved = λ w. inl refl
    publish_resolved-Sends name eta n (some (args, kwargs)) real named delay numbers (a, k) =
        Sends-before log (AsksFor rt celery_app req current)
          (publish rt celery_app name (send_kwargs args kwargs eta n)) _
          (publish-Sends name (send_kwargs args kwargs eta n) (
            let (has_args, has_kwargs, has_eta, has_priority) =
              get-send_kwargs rt celery_app args kwargs eta n in
            record {
              is_real = real;
              name = named;
              args = args;
              has_args = has_args;
              respects_args = a;
              kwargs = kwargs;
              has_kwargs = has_kwargs;
              respects_kwargs = k;
              eta = eta;
              has_eta = has_eta;
              is_delay = delay;
              driver_type = numbers.driver_type;
              has_priority = has_priority ∙ ap (Option.map int) numbers.is_coerced;
              is_byte = coerce_priority-IsByte req.priority numbers.driver_type;
            }))
          (λ new_task_id w. refl)

    do_retry_io-Sends :
        (eta : Value)
        → IsDelay rt celery_app req.eta current eta
        → Asking (do_retry_io rt celery_app req eta)
    unfolding do_retry_io
    do_retry_io-Sends eta delay =
        Sends-then log (AsksFor rt celery_app req current) (Numbers rt celery_app req.priority)
          (resolve_priority rt celery_app req.priority) _
          (resolve_priority-Quiet rt celery_app log logged.observed req.priority)
          (resolve_priority-Numbers rt celery_app req.priority)
          (λ n numbers.
            Sends-then log (AsksFor rt celery_app req current) Any
              (call celery_app "AsyncResult" (str req.task_id ∷ []) []) _
              (result-Quiet rt celery_app log logged.observed req.task_id)
              (λ w. Holds-Any (call celery_app "AsyncResult" (str req.task_id ∷ []) [] w).0)
              (λ async_result _.
                Sends-then log (AsksFor rt celery_app req current)
                  (λ name. IsReal rt name × Respects (supplied_name req.task_name) name)
                  (retry_name rt celery_app req async_result) _
                  (retry_name-Quiet rt celery_app log logged.observed req async_result)
                  (retry_name-IsReal rt celery_app req async_result)
                  (λ name named.
                    Sends-then log (AsksFor rt celery_app req current)
                      (ResolvedBy rt celery_app req.override_args req.override_kwargs)
                      (resolve_args rt async_result req.override_args req.override_kwargs) _
                      (resolve_args-Quiet rt celery_app log logged.observed async_result
                        req.override_args req.override_kwargs)
                      (resolve_args-ResolvedBy rt celery_app async_result req.override_args
                        req.override_kwargs)
                      (λ resolved.
                        publish_resolved-Sends name eta n resolved named.0 named.1 delay numbers))))

    retry_at-Settled :
        (eta : Value)
        → IsDelay rt celery_app req.eta current eta
        → (w : World)
        → let r = retry_at rt celery_app req eta w in
          Settled rt log (AsksFor rt celery_app req current) r.0 (log w) (log r.1)
    retry_at-Settled eta delay =
        Sends-Settled rt log (AsksFor rt celery_app req current)
          (offload rt retry_timeout (do_retry_io rt celery_app req eta)) retried retry_failed
          (offload-Sends rt log (AsksFor rt celery_app req current) retry_timeout
            (do_retry_io rt celery_app req eta) (do_retry_io-Sends eta delay))
          (λ e. retry_failed-IsFailed e)

    refuse_eta-Settled :
        (e : Exception) (w : World)
        → let r = refuse_eta rt celery_app e w in
          Settled rt log (AsksFor rt celery_app req current) r.0 (log w) (log r.1)
    refuse_eta-Settled e w = refused_if (is_value_error rt celery_app e)
      where
        refused_if :
            (b : Bool)
            → let r =
                (if b then pure (refused (concat ("invalid eta: " ∷ e.text ∷ []))) else raise e)
                  w in
              Settled rt log (AsksFor rt celery_app req current) r.0 (log w) (log r.1)
        refused_if true = inr (refl, refl)
        refused_if false = refl

  -- Where the log shows each call of send_task with the task's name and the options, and nothing else
  -- changes it, an answer of a retry comes with one publish or is a failure that comes with none, and
  -- an exception comes with none. The publish has the caller's name, if that is a real one, and else
  -- some real name; the caller's arguments, of each kind, if given; no delay if none was given, and
  -- else the given one, at most 60 seconds in the past and 365 days ahead; and the given priority as
  -- some transport numbers it, at most 255.
  pub retry_asks :
      (log : World → List Publication)
      → Logged log
      → (req : Request) (w : World)
      → let r = retry_task_action rt celery_app req w in
        Settled rt log (AsksFor rt celery_app req (rt.now w)) r.0 (log w) (log r.1)
  unfolding retry_task_action
  retry_asks log logged req w =
      Settled-try rt log (AsksFor rt celery_app req (rt.now w))
        (IsDelay rt celery_app req.eta (rt.now w)) (eta_from_timestamp rt req.eta)
        (retry_at rt celery_app req) (refuse_eta rt celery_app) w
        (eta_from_timestamp-Quiet rt celery_app log logged.observed req.eta w)
        (eta_from_timestamp-IsDelay rt celery_app req.eta w)
        (retry_at-Settled log logged req (rt.now w)) (refuse_eta-Settled log logged req (rt.now w))
