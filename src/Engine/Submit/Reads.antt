-- ===== src/Engine/Submit/Reads.antt =====
-- What a submission does beside its publish.
use z4j_celery.Prelude.{String, Bool, List, [], ◌∷◌, ◌≡◌, refl, ◌==◌, ◌||◌, false}
use z4j_celery.Python.{
  Value, str, truthy, is_none, Dict, pure, lift, time, Runtime, getattr, Quiet, Quiet-then,
  Quiet-if, getattr-Quiet,
}
use z4j_celery.Engine.Submit.{eta_option, timestamp_of, registered, new_id}

-- `send_task` of the application, and `apply_async` of a task.
abbrev pub is_publish : String → Bool
is_publish name = name == "send_task" || name == "apply_async"

module _ (rt : Runtime) (celery_app : Value) where
  open rt use {World, attribute, call}

  -- The publishes so far can be read from the world, and nothing else changes them.
  pub record Observed {L : Type 0} (log : World → L) : Type 0 where
    pub attributes : (obj : Value) (name : String) → Quiet log (attribute obj name)
    pub calls :
        (obj : Value) (name : String) (args : List Value) (kwargs : Dict Value)
        → is_publish name ≡ false
        → Quiet log (call obj name args kwargs)

  module _ {L : Type 0} (log : World → L) (observed : Observed log) where
    pub eta_option-Quiet : (eta : Value) → Quiet log (eta_option rt celery_app eta)
    eta_option-Quiet eta =
        Quiet-if log (is_none eta) (pure []) _ (λ w. refl)
          (Quiet-then log (lift (timestamp_of rt celery_app eta)) (λ t. pure (("eta", time t) ∷ []))
            (λ w. refl) (λ t w. refl))

    pub tasks-Quiet : Quiet log (getattr rt celery_app "tasks")
    tasks-Quiet = getattr-Quiet rt log observed.attributes celery_app "tasks"

    pub registered-Quiet :
        (tasks : Value) (name : String) → Quiet log (registered rt celery_app tasks name)
    registered-Quiet tasks name =
        Quiet-if log (is_none tasks) (pure (Value.bool false)) _ (λ w. refl)
          (observed.calls tasks "__contains__" (str name ∷ []) [] refl)

    pub lookup-Quiet :
        (tasks : Value) (name : String) → Quiet log (call tasks "__getitem__" (str name ∷ []) [])
    lookup-Quiet tasks name = observed.calls tasks "__getitem__" (str name ∷ []) [] refl

    pub new_id-Quiet : (result : Value) → Quiet log (new_id rt celery_app result)
    new_id-Quiet result =
        Quiet-then log (getattr rt result "id") _
          (getattr-Quiet rt log observed.attributes result "id")
          (λ id.
            Quiet-if log (truthy id) (pure id) _ (λ w. refl)
              (getattr-Quiet rt log observed.attributes result "task_id"))
