-- ===== src/Discovery/Registry/Loaded.antt =====
-- What the runtime discovery reports.
use z4j_celery.Prelude.{
  String, true, false, List, [], ◌∷◌, ◌≡◌, refl, ap, ◌∙◌, inl, inr, starts_with, Bool-cases,
}
use z4j_celery.Python.{
  Value, Outcome, returned, raised, Io, Runtime, Holds, Returns, Returns-then, Returns-any,
  Returns-any_try, Returns-try, All, as_sequence, getattr, pure, is_none, lift,
}
use z4j_celery.Discovery.{TaskDefinition}
use z4j_celery.Discovery.Registry.{
  definition_for, add_items, add_item, add_task, discover_runtime, from_registry, get_module,
  get_default_queue, get_signature, get_meta_object, tags_or_none, list_items, unpack, to_name,
  prepend,
}

-- A definition that is accepted keeps its name and its flag.
abbrev pub AcceptsFaithfully : (TaskDefinition → Outcome TaskDefinition) → Type 0
AcceptsFaithfully accepts =
    (t u : TaskDefinition) → accepts t ≡ returned u → (u.name ≡ t.name) × (u.loaded ≡ t.loaded)

-- A task that this process can run, and not one of Celery's own.
abbrev pub IsLoaded : TaskDefinition → Type 0
IsLoaded t = (t.loaded ≡ true) × (starts_with t.name "celery." ≡ false)

module _ (rt : Runtime) (inspect : Value → Outcome String)
    (accepts : TaskDefinition → Outcome TaskDefinition) (faithful : AcceptsFaithfully accepts) where
  open rt use {World}

  accepted-IsLoaded :
      (t : TaskDefinition) (o : Outcome TaskDefinition)
      → IsLoaded t
      → accepts t ≡ o
      → Holds IsLoaded o
  accepted-IsLoaded t (returned u) h e =
      let (same_name, same_flag) = faithful t u e in
      (same_flag ∙ h.0, ap (λ n. starts_with n "celery.") same_name ∙ h.1)
  accepted-IsLoaded t (raised x) h e = tt

  definition_for-IsLoaded :
      (name : String) (task_obj : Value)
      → starts_with name "celery." ≡ false
      → Returns IsLoaded (definition_for rt inspect accepts name task_obj)
  unfolding definition_for
  definition_for-IsLoaded name task_obj h =
      Returns-any IsLoaded (get_module rt task_obj) _ (λ module_name.
        Returns-any IsLoaded (get_default_queue rt task_obj) _ (λ queue.
          Returns-any IsLoaded (get_signature rt inspect task_obj) _ (λ signature.
            Returns-any IsLoaded (get_meta_object rt task_obj) _ (λ meta.
              Returns-any IsLoaded (tags_or_none rt meta) _
                (λ tags w. accepted-IsLoaded _ _ (refl, h) refl)))))

  module _ (rest : Io World (List TaskDefinition)) (h : Returns (All IsLoaded) rest) where
    prepend-IsLoaded :
        (t : TaskDefinition)
        → IsLoaded t
        → Returns (All IsLoaded) (prepend rt inspect accepts rest t)
    prepend-IsLoaded t k =
        Returns-then (All IsLoaded) (All IsLoaded) rest (λ result. pure (t ∷ result)) h
          (λ result l w. (k, l))

    add_task-IsLoaded :
        (name : String) (task_obj : Value)
        → Returns (All IsLoaded) (add_task rt inspect accepts rest name task_obj)
    add_task-IsLoaded name task_obj = elim (Bool-cases (starts_with name "celery.")) [
      | inl e ↦ rw e h
      | inr e ↦ rw e (
          Returns-try IsLoaded (All IsLoaded) (definition_for rt inspect accepts name task_obj)
            (prepend rt inspect accepts rest) (λ _. rest) (definition_for-IsLoaded name task_obj e)
            prepend-IsLoaded (λ _. h))
    ]

    add_item-IsLoaded :
        (item : Value) → Returns (All IsLoaded) (add_item rt inspect accepts rest item)
    add_item-IsLoaded item =
        Returns-any (All IsLoaded) (lift (unpack (as_sequence item))) _ (λ pair.
          Returns-any (All IsLoaded) (lift (to_name pair.0)) _
            (λ name. add_task-IsLoaded name pair.1))

  add_items-IsLoaded :
      (items : List Value) → Returns (All IsLoaded) (add_items rt inspect accepts items)
  unfolding add_items
  add_items-IsLoaded [] = λ w. tt
  add_items-IsLoaded (item ∷ items) =
      add_item-IsLoaded (add_items rt inspect accepts items) (add_items-IsLoaded items) item

  from_registry-IsLoaded :
      (tasks : Value) → Returns (All IsLoaded) (from_registry rt inspect accepts tasks)
  from_registry-IsLoaded tasks = elim (Bool-cases (is_none tasks)) [
    | inl e ↦ rw e (λ w. tt)
    | inr e ↦ rw e (
        Returns-any_try (All IsLoaded) (list_items rt inspect accepts tasks)
          (add_items rt inspect accepts) (λ _. pure []) add_items-IsLoaded (λ _ w. tt))
  ]

  -- Whatever the application's registry holds and however its tasks behave, each definition that
  -- the runtime discovery returns is marked as loaded and is none of Celery's own, as long as the
  -- constructor of a definition keeps the name and the flag that it is given.
  pub discover_runtime-IsLoaded :
      (celery_app : Value) → Returns (All IsLoaded) (discover_runtime rt inspect accepts celery_app)
  unfolding discover_runtime
  discover_runtime-IsLoaded celery_app =
      Returns-any (All IsLoaded) (getattr rt celery_app "tasks") (from_registry rt inspect accepts)
        from_registry-IsLoaded
