-- ===== src/Events/Signals/Safe/Reads.antt =====
-- What a handler reads of a signal.
use z4j_celery.Prelude.{
  String, Bool, true, false, Option, none, some, List, [], ◌∷◌, ◌++◌, ◌≡◌, refl, ◌⊎◌, inl, inr,
  Bool-cases, if◌then◌else◌,
}
use z4j_celery.Python.{
  getattr-Quiet, getattr_or-Quiet, hasattr-Quiet, Value, str, dict, Dict, as_dict, as_str, is_none,
  null, pure, raise, Exception, Runtime, hasattr, Fields, getattr, Quiet, Quiet-then,
}
use z4j_celery.Events.Mapper.{Event}
use z4j_celery.Events.Signals.{
  Hooks, get_field, get_present, get_id, about, given_traceback, traceback_text, routing_key,
  queue_of, queue_if_dict, text_or_own, read_own_traceback, einfo_traceback,
}

module _ (rt : Runtime) (hooks : Hooks (Runtime.World rt)) where
  open rt use {World, attribute, call}

  -- The events that the sink has taken so far can be seen in the world, and only the sink adds one:
  -- Celery's objects do not.
  pub record Observed (events : World → List Event) : Type 0 where
    pub attributes : (obj : Value) (name : String) → Quiet events (attribute obj name)
    pub calls :
        (obj : Value) (name : String) (args : List Value) (kwargs : Dict Value)
        → Quiet events (call obj name args kwargs)
    pub tasks : (task : Value) → Quiet events (hooks.task_of task)
    pub sinks :
        (e : Event) (w : World)
        → (events (hooks.sink e w).1 ≡ events w) ⊎ (events (hooks.sink e w).1 ≡ events w ++ e ∷ [])

module _ {rt : Runtime} {hooks : Hooks (Runtime.World rt)} {events : Runtime.World rt → List Event}
    (seen : Observed rt hooks events) where
  open rt use {World, attribute, call}

  pub get_present-Quiet :
      (obj : Value) (name : String) (default : Value) (here : Bool)
      → Quiet events (get_present rt hooks obj name default here)
  get_present-Quiet obj name default true =
      getattr_or-Quiet rt events seen.attributes obj name default
  get_present-Quiet obj name default false = λ w. refl

  pub get_field-Quiet :
      (obj : Value) (name : String) (default : Value)
      → Quiet events (get_field rt hooks obj name default)
  unfolding get_field
  get_field-Quiet obj name default = elim (Bool-cases (is_none obj)) [
    | inl h ↦ rw h (λ w. refl)
    | inr h ↦ rw h (
        Quiet-then events (hasattr rt obj name) (get_present rt hooks obj name default)
          (hasattr-Quiet rt events seen.attributes obj name) (get_present-Quiet obj name default))
  ]

  pub get_id-Quiet : (request : Value) → Quiet events (get_id rt hooks request)
  get_id-Quiet request =
      Quiet-then events (get_field rt hooks request "task_id" (str ""))
        (get_field rt hooks request "id") (get_field-Quiet request "task_id" (str ""))
        (get_field-Quiet request "id")

  pub about-Quiet :
      (task_id task : Value) (queue : Option String)
      → Quiet events (about rt hooks task_id task queue)
  about-Quiet task_id task queue =
      Quiet-then events (hooks.task_of task) _ (seen.tasks task) (λ read w. refl)

  pub routing_key-Quiet : (v : Value) → Quiet events (routing_key rt hooks v)
  routing_key-Quiet (dict fs) = λ w. refl
  routing_key-Quiet null = seen.calls _ _ _ _
  routing_key-Quiet (Value.bool b) = seen.calls _ _ _ _
  routing_key-Quiet (Value.int n) = seen.calls _ _ _ _
  routing_key-Quiet (str s) = seen.calls _ _ _ _
  routing_key-Quiet (Value.list vs) = seen.calls _ _ _ _
  routing_key-Quiet (Value.tuple vs) = seen.calls _ _ _ _
  routing_key-Quiet (Value.time t) = seen.calls _ _ _ _
  routing_key-Quiet (Value.object n) = seen.calls _ _ _ _

  pub queue_of-Quiet : (request : Value) → Quiet events (queue_of rt hooks request)
  queue_of-Quiet request =
      Quiet-then events (get_field rt hooks request "delivery_info" (dict Fields.end)) _
        (get_field-Quiet request "delivery_info" (dict Fields.end))
        (λ v. queue_if_dict-Quiet request (as_dict v))
    where
      queue_if_dict-Quiet :
          (request : Value) (d : Option (Dict Value))
          → Quiet events (queue_if_dict rt hooks request d)
      queue_if_dict-Quiet request none = λ w. refl
      queue_if_dict-Quiet request (some d) =
          Quiet-then events (get_field rt hooks request "delivery_info" (dict Fields.end))
            (routing_key rt hooks) (get_field-Quiet request "delivery_info" (dict Fields.end))
            routing_key-Quiet

  -- A text, a traceback or the exception's own.
  pub read_own_traceback-Quiet :
      (exception : Value) → Quiet events (read_own_traceback rt hooks exception)
  read_own_traceback-Quiet exception =
      Quiet-then events (attribute exception "__traceback__") _
        (seen.attributes exception "__traceback__") (λ tb w. refl)

  pub text_or_own-Quiet :
      (exception : Value) (text : Option String)
      → Quiet events (text_or_own rt hooks exception text)
  text_or_own-Quiet exception (some text) = λ w. refl
  text_or_own-Quiet exception none = read_own_traceback-Quiet exception

  pub given_traceback-Quiet :
      (exception traceback : Value) → Quiet events (given_traceback rt hooks exception traceback)
  given_traceback-Quiet exception traceback = elim (Bool-cases (hooks.is_traceback traceback)) [
    | inl h ↦ rw h (λ w. refl)
    | inr h ↦ rw h (text_or_own-Quiet exception (as_str traceback))
  ]

  pub einfo_traceback-Quiet :
      (exception traceback einfo : Value) (text : Option String)
      → Quiet events (einfo_traceback rt hooks exception traceback einfo text)
  einfo_traceback-Quiet exception traceback einfo none = given_traceback-Quiet exception traceback
  einfo_traceback-Quiet exception traceback einfo (some text) =
      Quiet-then events (attribute einfo "traceback") _ (seen.attributes einfo "traceback")
        (λ tb w. refl)

  pub traceback_text-Quiet :
      (exception traceback einfo : Value)
      → Quiet events (traceback_text rt hooks exception traceback einfo)
  unfolding traceback_text
  traceback_text-Quiet exception traceback einfo = elim (Bool-cases (is_none einfo)) [
    | inl h ↦ rw h (given_traceback-Quiet exception traceback)
    | inr h ↦ rw h (
        Quiet-then events (getattr rt einfo "traceback")
          (λ tb. einfo_traceback rt hooks exception traceback einfo (as_str tb))
          (getattr-Quiet rt events seen.attributes einfo "traceback")
          (λ tb. einfo_traceback-Quiet exception traceback einfo (as_str tb)))
  ]

  pub boundary-Quiet : (e : Exception) → Quiet events (if hooks.absorbs e then pure tt else raise e)
  boundary-Quiet e = elim (Bool-cases (hooks.absorbs e)) [
    | inl h ↦ rw h (λ w. refl)
    | inr h ↦ rw h (λ w. refl)
  ]
