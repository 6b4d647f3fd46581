-- ===== src/Engine/Reconcile/Answers.antt =====
-- What a reconciliation answers.
use z4j_celery.Prelude.{
  String, Bool, true, false, Option, some, List, [], ◌∷◌, ◌≡◌, refl, ◌==◌, if◌then◌else◌,
}
use z4j_celery.Prelude.Text.{concat}
use z4j_celery.Python.{
  Value, null, str, Dict, get, member, Outcome, returned, raised, Io, pure, handle, continue, ◌>>=◌,
  Runtime,
}
use z4j_celery.Command.{CommandResult}
use z4j_celery.Engine.Reconcile.{
  reconcile_task, engine_state, state_map, answer, failure_text, date_done, probe, finish,
  safe_str_attr,
}
use mathlib.Core.Option

-- The brain's taxonomy.
abbrev pub engine_states : List String
engine_states = "pending" ∷ "started" ∷ "success" ∷ "failure" ∷ "unknown" ∷ []

abbrev IsState : String → Type 0
IsState s = member s engine_states ≡ true

abbrev AllStates : Dict String → Type 0
AllStates [] = Unit
AllStates ((k, v) ∷ d) = IsState v × AllStates d

IsState-if :
    (b : Bool) (v : String) (o : Option String)
    → IsState v
    → IsState (Option.get_or o "unknown")
    → IsState (Option.get_or (if b then some v else o) "unknown")
IsState-if true v o h k = h
IsState-if false v o h k = k

IsState-get :
    (k : String) (d : Dict String) → AllStates d → IsState (Option.get_or (get k d) "unknown")
unfolding get
IsState-get k [] h = refl
IsState-get k ((j, v) ∷ d) h = IsState-if (j == k) v (get k d) h.0 (IsState-get k d h.1)

IsState-engine_state : (raw : String) → IsState (engine_state raw)
unfolding engine_state
IsState-engine_state raw =
    IsState-get raw state_map (refl, (refl, (refl, (refl, (refl, (refl, (refl, tt)))))))

module _ (rt : Runtime) (celery_app : Value) where
  open rt use {World, call}

  abbrev HasState : Outcome (Value × String × Value) → Type 0
  HasState (returned (res, state, exc_info)) = IsState state
  HasState (raised e) = Unit

  -- A property that every run of `f` ends with holds after what precedes `f`.
  after :
      {A : Type 0} (r : Outcome A) (f : A → Io World (Value × String × Value)) (w : World)
      → ((a : A) (u : World) → HasState (f a u).0)
      → HasState (continue r f w).0
  after (returned a) f w k = k a w
  after (raised e) f w k = tt

  abbrev described : Value → String → Io World (Value × String × Value)
  described res raw = do
    exc_info ← if engine_state raw == "failure" then failure_text rt celery_app res else pure null
    pure (res, engine_state raw, exc_info)

  probe-HasState : (task_id : String) (w : World) → HasState (probe rt celery_app task_id w).0
  probe-HasState task_id w =
      let (r, u) = call celery_app "AsyncResult" (str task_id ∷ []) [] w in
      after r (λ res. safe_str_attr rt celery_app res "state" "UNKNOWN" >>= described res) u
        (λ res. λ u.
          let (q, v) = safe_str_attr rt celery_app res "state" "UNKNOWN" u in
          after q (described res) v (λ raw. λ x.
            let (y, z) =
              (if engine_state raw == "failure" then failure_text rt celery_app res else pure null)
                x in
            after y (λ exc_info. pure (res, engine_state raw, exc_info)) z
              (λ a. λ b. IsState-engine_state raw)))

  abbrev Answered : String → Outcome CommandResult × World → Type 0
  Answered task_id out =
      (state : String) × (finished_at : Value) × (exc_info : Value) × (IsState state
        × (out.0 ≡ returned (answer task_id state finished_at exc_info)))

  -- A step that cannot raise.
  abbrev Returns : Io World Value → Type 0
  Returns m = (w : World) → (v : Value) × ((m w).0 ≡ returned v)

  effort-Returns :
      (r : Outcome Value) (w : World)
      → (v : Value) × ((handle {W = World} r pure (λ e. pure null) w).0 ≡ returned v)
  effort-Returns (returned v) w = (v, refl)
  effort-Returns (raised e) w = (null, refl)

  if-Returns :
      (b : Bool) (m n : Io World Value) → Returns m → Returns n → Returns (if b then m else n)
  if-Returns true m n k l = k
  if-Returns false m n k l = l

  abbrev finished : Value → String → Io World Value
  finished res state =
      if state == "success"
      then date_done rt celery_app res
      else if state == "failure"
      then date_done rt celery_app res
      else pure null

  finished-Returns : (res : Value) (state : String) → Returns (finished res state)
  finished-Returns res state =
      let done : Returns (date_done rt celery_app res) = λ w. effort-Returns _ _ in
      if-Returns (state == "success") (date_done rt celery_app res) _ done (
        if-Returns (state == "failure") (date_done rt celery_app res) (pure null) done
          (λ w. (null, refl)))

  answer-continue :
      (task_id state : String) (exc_info : Value) (r : Outcome Value) (w : World)
      → IsState state
      → (v : Value) × (r ≡ returned v)
      → Answered task_id
          (continue r (λ finished_at. pure (answer task_id state finished_at exc_info)) w)
  answer-continue task_id state exc_info (returned v) w h k = (state, v, exc_info, (h, refl))
  answer-continue task_id state exc_info (raised e) w h (v, k) = cc

  ending :
      (task_id : String) (r : Outcome (Value × String × Value)) (w : World)
      → HasState r
      → Answered task_id (
          handle r
            (finish rt celery_app task_id)
            (λ e. pure (
              answer task_id "unknown" null
                (str (concat ("reconcile probe failed: " ∷ e.text ∷ [])))))
            w)
  ending task_id (returned (res, state, exc_info)) w h =
      answer-continue task_id state exc_info (finished res state w).0 (finished res state w).1 h
        (finished-Returns res state w)
  ending task_id (raised e) w h = ("unknown", null, _, (refl, refl))

  -- Whatever Celery's backend does, a reconciliation answers, and the state that it answers is one of
  -- the brain's five.
  pub reconcile_answers :
      (task_id : String) (w : World)
      → (state : String) × (finished_at : Value) × (exc_info : Value) × ((member state engine_states
            ≡ true)
          × ((reconcile_task rt celery_app task_id w).0
              ≡ returned (answer task_id state finished_at exc_info)))
  unfolding reconcile_task
  reconcile_answers task_id w =
      let (r, u) = probe rt celery_app task_id w in ending task_id r u (probe-HasState task_id w)
