-- ===== src/Actions/Retry/Priority.antt =====
-- Priorities of src/z4j_celery/actions/retry.py: labels and integers, by the write transport.
use z4j_celery.Prelude.{
  String, Bool, false, ◌||◌, Option, none, some, [], ◌∷◌, ◌==◌, leb, if◌then◌else◌,
}
use z4j_celery.Prelude.Int.{ℤ, pos}
use z4j_celery.Prelude.Text.{contains, is_empty, strip, lower}
use z4j_celery.Python.{
  Value, int, str, truthy, Dict, get, Io, pure, try_then, ◌>>=◌, Runtime, getattr,
}

abbrev pub amqp_priorities : Dict ℤ
amqp_priorities = ("critical", pos 9) ∷ ("high", pos 6) ∷ ("normal", pos 3) ∷ ("low", pos 0) ∷ []

abbrev pub redis_priorities : Dict ℤ
redis_priorities = ("critical", pos 0) ∷ ("high", pos 3) ∷ ("normal", pos 6) ∷ ("low", pos 9) ∷ []

abbrev pub is_redis : Option String → Bool
is_redis none = false
is_redis (some s) = s == "redis"

unfoldable pub coerce_priority : Value → Option String → Option ℤ
coerce_priority (int (pos n)) driver_type = if leb n 255 then some (pos n) else none
coerce_priority (str raw) driver_type =
    get (lower (strip raw)) (if is_redis driver_type then redis_priorities else amqp_priorities)
coerce_priority _ driver_type = none

unfoldable pub normalise_driver : String → Option String
normalise_driver value =
    if contains "redis" value
    then some "redis"
    else if value == "amqp" || value == "pyamqp" || value == "librabbitmq" || value == "rabbitmq"
    then some "amqp"
    else if is_empty value
    then none
    else some value

module _ (rt : Runtime) (celery_app : Value) where
  open rt use {World, attribute, call, py_str}

  unfoldable pub write_driver : Io World Value
  write_driver = do
    connection ← call celery_app "connection_for_write" [] []
    transport ← attribute connection "transport"
    getattr rt transport "driver_type"

  -- The text of what the transport says, or `None` when asking raised.
  unfoldable pub write_transport_driver_type : Io World (Option String)
  unfolding write_driver normalise_driver
  write_transport_driver_type =
      try_then write_driver
        (λ raw.
          let text = if truthy raw then py_str raw else "" in
          pure (normalise_driver (lower (strip text))))
        (λ e. pure none)

  -- The warning about an unknown transport is a log line.
  unfoldable pub resolve_priority : Value → Io World (Option ℤ)
  unfolding write_transport_driver_type coerce_priority
  resolve_priority raw = do
    driver_type ← write_transport_driver_type
    pure (coerce_priority raw driver_type)
