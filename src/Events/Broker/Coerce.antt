-- ===== src/Events/Broker/Coerce.antt =====
-- src/z4j_celery/events/broker.py: the arguments that a `task-received` event carries as text, and
-- its handler.
use z4j_celery.Prelude.{ℕ, String, Bool, true, false, ◌≡◌, refl, ◌⊎◌, inl, inr, none, if◌then◌else◌}
use z4j_celery.Prelude.Text.{is_empty}
use z4j_celery.Python.{
  Value, Values, null, str, list, tuple, dict, Dict, get_value, as_str, Io, ◌>>=◌, lift, Outcome,
  returned, raised,
}
use z4j_celery.Events.Mapper.{Event, Stamp, About, build_task_received_event}
use z4j_celery.Events.Broker.{Host, Monitor, emit, learn, with_about}

-- `literal` is `ast.literal_eval`; the exceptions that the code catches are all that it raises.
module _ (literal : String → Outcome Value) where
  abbrev pub or_none : Outcome Value → Value
  or_none (returned v) = v
  or_none (raised e) = null

  unfoldable pub safe_literal_eval : String → Value
  safe_literal_eval value = or_none (literal value)

  abbrev pub list_of : Value → Value
  list_of (list vs) = list vs
  list_of (tuple vs) = list vs
  list_of _ = null

  abbrev pub dict_of : Value → Value
  dict_of (dict fs) = dict fs
  dict_of _ = null

  unfoldable pub coerce_args : Value → Value
  unfolding safe_literal_eval
  coerce_args (list vs) = list vs
  coerce_args (tuple vs) = list vs
  coerce_args (str s) = if is_empty s then null else list_of (safe_literal_eval s)
  coerce_args _ = null

  unfoldable pub coerce_kwargs : Value → Value
  unfolding safe_literal_eval
  coerce_kwargs (dict fs) = dict fs
  coerce_kwargs (str s) = if is_empty s then null else dict_of (safe_literal_eval s)
  coerce_kwargs _ = null

  module _ {W : Type 0} (host : Host W) (max : ℕ) where
    abbrev pub received_event : Dict Value → About → Stamp → Outcome Event
    received_event ev about stamp =
        build_task_received_event host.scrub stamp
          (record about { queue = as_str (get_value "queue" ev) })
          (coerce_args (get_value "args" ev)) (coerce_kwargs (get_value "kwargs" ev)) none none

    abbrev pub emit_received : Dict Value → About → Stamp → Io (Monitor W) Unit
    emit_received ev about stamp = lift (received_event ev about stamp) >>= emit host max

    -- No event type leads to this handler.
    unfoldable pub run_received : Dict Value → Io (Monitor W) Unit
    unfolding coerce_args coerce_kwargs
    run_received ev = learn host max ev >>= λ _. with_about host max ev (emit_received ev)

  -- `None`, or a list
  abbrev pub IsArgs : Value → Type 0
  IsArgs v = (v ≡ null) ⊎ ((vs : Values) × (v ≡ list vs))

  either-IsArgs : (b : Bool) (v : Value) → IsArgs v → IsArgs (if b then null else v)
  either-IsArgs true v h = inl refl
  either-IsArgs false v h = h

  list_of-IsArgs : (v : Value) → IsArgs (list_of v)
  list_of-IsArgs (list vs) = inr (vs, refl)
  list_of-IsArgs (tuple vs) = inr (vs, refl)
  list_of-IsArgs null = inl refl
  list_of-IsArgs (Value.bool b) = inl refl
  list_of-IsArgs (Value.int n) = inl refl
  list_of-IsArgs (str s) = inl refl
  list_of-IsArgs (dict fs) = inl refl
  list_of-IsArgs (Value.time t) = inl refl
  list_of-IsArgs (Value.object n) = inl refl

  -- Whatever a broker sends as positional arguments, and whatever the literal parser makes of a
  -- text, the coercion gives `None` or a list.
  pub coerce_args-IsArgs : (v : Value) → IsArgs (coerce_args v)
  unfolding coerce_args
  coerce_args-IsArgs (list vs) = inr (vs, refl)
  coerce_args-IsArgs (tuple vs) = inr (vs, refl)
  coerce_args-IsArgs (str s) =
      either-IsArgs (is_empty s) (list_of (safe_literal_eval s))
        (list_of-IsArgs (safe_literal_eval s))
  coerce_args-IsArgs null = inl refl
  coerce_args-IsArgs (Value.bool b) = inl refl
  coerce_args-IsArgs (Value.int n) = inl refl
  coerce_args-IsArgs (dict fs) = inl refl
  coerce_args-IsArgs (Value.time t) = inl refl
  coerce_args-IsArgs (Value.object n) = inl refl
