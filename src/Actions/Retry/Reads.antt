-- ===== src/Actions/Retry/Reads.antt =====
-- What a retry does beside its publish.
use z4j_celery.Prelude.{
  String, false, Option, none, some, List, [], ◌∷◌, ◌≡◌, ◌≢◌, refl, arith, ◌==◌, eq_iff,
  if◌then◌else◌,
}
use z4j_celery.Prelude.Int.{ℤ}
use z4j_celery.Python.{
  Value, null, str, truthy, Dict, Outcome, returned, raised, Exception, pure, Runtime, getattr,
  Quiet, Quiet-then, Quiet-try, Quiet-if, getattr-Quiet,
}
use z4j_celery.Actions.Retry.{
  Request, refuse_eta, sent_id, id_text, retry_name, name_source, real_name, is_value_error,
}
use z4j_celery.Actions.Retry.Arguments.{
  resolve_task_name, name_or_info, nonempty_str, resolve_args, supplied_name, is_placeholder,
}
use z4j_celery.Actions.Retry.Priority.{resolve_priority, write_transport_driver_type, write_driver}
use z4j_celery.Actions.Retry.Eta.{eta_from_timestamp, checked}

another : (name : String) → (name == "send_task") ≡ false → name ≢ "send_task"
another name h e = ground (arith, eq_iff name "send_task", h, e)

module _ (rt : Runtime) (celery_app : Value) where
  open rt use {World, attribute, call}

  -- The publishes so far can be read from the world, and only `send_task` changes them.
  pub record Observed {L : Type 0} (log : World → L) : Type 0 where
    pub attributes : (obj : Value) (name : String) → Quiet log (attribute obj name)
    pub calls :
        (obj : Value) (name : String) (args : List Value) (kwargs : Dict Value)
        → name ≢ "send_task"
        → Quiet log (call obj name args kwargs)

  module _ {L : Type 0} (log : World → L) (observed : Observed log) where
    write_driver-Quiet : Quiet log (write_driver rt celery_app)
    unfolding write_driver
    write_driver-Quiet =
        Quiet-then log (call celery_app "connection_for_write" [] []) _
          (observed.calls celery_app "connection_for_write" [] []
            (another "connection_for_write" refl))
          (λ connection.
            Quiet-then log (attribute connection "transport")
              (λ transport. getattr rt transport "driver_type")
              (observed.attributes connection "transport")
              (λ transport. getattr-Quiet rt log observed.attributes transport "driver_type"))

    pub resolve_priority-Quiet : (raw : Value) → Quiet log (resolve_priority rt celery_app raw)
    unfolding resolve_priority write_transport_driver_type
    resolve_priority-Quiet raw =
        Quiet-then log (write_transport_driver_type rt celery_app) _
          (Quiet-try log (write_driver rt celery_app) _ (λ e. pure none) write_driver-Quiet
            (λ a w. refl) (λ e w. refl))
          (λ d w. refl)

    name_or_info-Quiet :
        (async_result : Value) (name : Option String)
        → Quiet log (name_or_info rt async_result name)
    name_or_info-Quiet async_result (some s) = λ w. refl
    name_or_info-Quiet async_result none =
        Quiet-then log (getattr rt async_result "info") _
          (getattr-Quiet rt log observed.attributes async_result "info") (λ info w. refl)

    resolve_task_name-Quiet : (async_result : Value) → Quiet log (resolve_task_name rt async_result)
    unfolding resolve_task_name
    resolve_task_name-Quiet async_result =
        Quiet-then log (getattr rt async_result "name")
          (λ name. name_or_info rt async_result (nonempty_str name))
          (getattr-Quiet rt log observed.attributes async_result "name")
          (λ name. name_or_info-Quiet async_result (nonempty_str name))

    name_source-Quiet :
        (supplied : Option String) (async_result : Value)
        → Quiet log (name_source rt celery_app supplied async_result)
    name_source-Quiet (some s) async_result = λ w. refl
    name_source-Quiet none async_result = resolve_task_name-Quiet async_result

    pub real_name-Quiet :
        (task_id : String) (name : Option String) → Quiet log (real_name rt celery_app task_id name)
    real_name-Quiet task_id none = λ w. refl
    real_name-Quiet task_id (some s) =
        Quiet-if log (is_placeholder s) _ (pure s) (λ w. refl) (λ w. refl)

    pub retry_name-Quiet :
        (req : Request) (async_result : Value)
        → Quiet log (retry_name rt celery_app req async_result)
    unfolding retry_name
    retry_name-Quiet req async_result =
        Quiet-then log (name_source rt celery_app (supplied_name req.task_name) async_result)
          (real_name rt celery_app req.task_id)
          (name_source-Quiet (supplied_name req.task_name) async_result)
          (real_name-Quiet req.task_id)

    pub resolve_args-Quiet :
        (async_result : Value) (args : Option (List Value)) (kwargs : Option (Dict Value))
        → Quiet log (resolve_args rt async_result args kwargs)
    unfolding resolve_args
    resolve_args-Quiet async_result args kwargs =
        Quiet-then log (getattr rt async_result "args") _
          (getattr-Quiet rt log observed.attributes async_result "args")
          (λ stored.
            Quiet-then log (getattr rt async_result "kwargs") _
              (getattr-Quiet rt log observed.attributes async_result "kwargs") (λ more w. refl))

    pub sent_id-Quiet : (new_async : Value) → Quiet log (sent_id rt celery_app new_async)
    sent_id-Quiet new_async =
        Quiet-then log (getattr rt new_async "id")
          (λ id. if truthy id then pure id else getattr rt new_async "task_id")
          (getattr-Quiet rt log observed.attributes new_async "id")
          (λ id.
            Quiet-if log (truthy id) (pure id) (getattr rt new_async "task_id") (λ w. refl)
              (getattr-Quiet rt log observed.attributes new_async "task_id"))

    pub id_text-Quiet : (new_id : Value) → Quiet log (id_text rt celery_app new_id)
    id_text-Quiet new_id = Quiet-if log (truthy new_id) _ _ (λ w. refl) (λ w. refl)

    pub refuse_eta-Quiet : (e : Exception) → Quiet log (refuse_eta rt celery_app e)
    refuse_eta-Quiet e = Quiet-if log (is_value_error rt celery_app e) _ _ (λ w. refl) (λ w. refl)

    checked-Quiet : (eta : Value) (o : Outcome ℤ) → Quiet log (checked rt eta o)
    checked-Quiet eta (returned target) = λ w. refl
    checked-Quiet eta (raised e) = λ w. refl

    pub eta_from_timestamp-Quiet : (eta : Value) → Quiet log (eta_from_timestamp rt eta)
    unfolding eta_from_timestamp
    eta_from_timestamp-Quiet null = λ w. refl
    eta_from_timestamp-Quiet (Value.bool b) = checked-Quiet _ _
    eta_from_timestamp-Quiet (Value.int n) = checked-Quiet _ _
    eta_from_timestamp-Quiet (str s) = checked-Quiet _ _
    eta_from_timestamp-Quiet (Value.list vs) = checked-Quiet _ _
    eta_from_timestamp-Quiet (Value.tuple vs) = checked-Quiet _ _
    eta_from_timestamp-Quiet (Value.dict fs) = checked-Quiet _ _
    eta_from_timestamp-Quiet (Value.time t) = checked-Quiet _ _
    eta_from_timestamp-Quiet (Value.object n) = checked-Quiet _ _

    pub result-Quiet :
        (task_id : String) → Quiet log (call celery_app "AsyncResult" (str task_id ∷ []) [])
    result-Quiet task_id =
        observed.calls celery_app "AsyncResult" (str task_id ∷ []) [] (another "AsyncResult" refl)
