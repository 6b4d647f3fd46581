-- ===== src/Engine/Workers.antt =====
-- src/z4j_celery/engine.py: what Celery's inspection says of the workers, over a connection of the
-- agent's own. A reply that is no dictionary has no items.
pub mod Redacted
use z4j_celery.Prelude.{
  ℕ, String, Bool, true, false, not, ◌&&◌, Option, none, some, List, [], ◌∷◌, ◌==◌, if◌then◌else◌,
}
use z4j_celery.Prelude.Int.{pos}
use z4j_celery.Python.{
  Value, Values, null, bool, str, list, dict, fields, items, is_none, truthy, as_dict, Dict, get,
  put, Exception, exception, attribute_error, Io, pure, raise, lift, try_then, ◌>>=◌, Outcome,
  returned, Runtime, getattr,
}
use z4j_celery.Engine.WorkerConf.{redact_worker_conf}
use mathlib.Core.Option

-- What a best-effort query has found when it ends, also by an exception.
pub record Query (R W : Type 0) : Type 0 where
  pub found : R
  pub world : W

abbrev pub on_world : {R W A : Type 0} → Io W A → Io (Query R W) A
on_world m s = let (r, w) = m s.world in (r, record s { world = w })

-- `except Exception: pass`, around a query.
abbrev pub best_effort : {R W : Type 0} → Io (Query R W) Unit → R → W → R × W
best_effort m start w = let (r, s) = m (record { found = start; world = w }) in (s.found, s.world)

abbrev pub Details : Type 0
Details = Dict (Dict Value)

-- `result.setdefault(worker, {})[key] = value`
abbrev pub set_detail : String → String → Value → Details → Details
set_detail key worker value result =
    put worker (put key value (Option.get_or (get worker result) [])) result

abbrev pub set_details : String → (Value → Value) → Dict Value → Details → Details
set_details key shown [] result = result
set_details key shown ((worker, info) ∷ rest) result =
    set_details key shown rest (set_detail key worker (shown info) result)

-- `v or {}`, and its items
abbrev pub reply_items : Value → Option (Dict Value)
reply_items reply = if truthy reply then as_dict reply else some []

abbrev pub as_is : Value → Value
as_is v = v

abbrev pub redacted : Value → Value
redacted cfg = dict (fields (redact_worker_conf cfg))

module _ (rt : Runtime) where
  open rt use {World, attribute, call}

  abbrev pub is_redis_type : Value → Bool
  is_redis_type (str s) = s == "redis"
  is_redis_type _ = false

  abbrev pub driver_is_redis : Value → Io World Bool
  driver_is_redis conn = do
    transport ← attribute conn "transport"
    driver_type ← getattr rt transport "driver_type"
    pure (is_redis_type driver_type)

  unfoldable pub is_redis : Value → Io World Bool
  is_redis conn = try_then (driver_is_redis conn) pure (λ _. pure false)

  -- `timeout` is 10.0 seconds as a Python float, an object.
  module _ (timeout : Value) where
    abbrev pub has_no_timeout : Option Value → Bool
    has_no_timeout none = true
    has_no_timeout (some v) = false

    abbrev pub set_timeout : Value → Dict Value → Bool → Io World Unit
    set_timeout conn options redis =
        if redis
        then (do
          _ ←
              call conn "__setattr__"
                (str "transport_options"
                  ∷ dict (fields (put "socket_timeout" timeout options))
                  ∷ [])
                []
          pure tt)
        else pure tt

    abbrev pub limit_options : Value → Option (Dict Value) → Io World Unit
    limit_options conn none = pure tt
    limit_options conn (some options) =
        if has_no_timeout (get "socket_timeout" options)
        then is_redis conn >>= set_timeout conn options
        else pure tt

    abbrev pub limit_wait : Value → Io World Unit
    limit_wait conn = do
      options ← getattr rt conn "transport_options"
      limit_options conn (as_dict options)

    -- `with contextlib.suppress(Exception): conn.release()`
    abbrev pub release : Value → Io World Unit
    release conn = try_then (call conn "release" [] []) (λ _. pure tt) (λ _. pure tt)

    -- `with _agent_broker_connection(celery_app) as conn: body`
    unfoldable pub agent_broker_connection :
        {R A : Type 0} → Value → (Value → Io (Query R World) A) → Io (Query R World) A
    unfolding is_redis
    agent_broker_connection celery_app body = do
      conn ← on_world (call celery_app "connection_for_write" [] [])
      _ ← on_world (limit_wait conn)
      try_then (body conn) (λ a. on_world (release conn) >>= λ _. pure a)
          (λ e. on_world (release conn) >>= λ _. raise e)

  abbrev pub store_details :
      String → (Value → Value) → Option (Dict Value) → Io (Query Details World) Unit
  store_details key shown none = raise (exception attribute_error "AttributeError" "items")
  store_details key shown (some replies) =
      λ s. (returned tt, record s { found = set_details key shown replies s.found })

  -- One broadcast: its replies, worker by worker, under their key.
  unfoldable pub inspect_into :
      Value → String → String → Dict Value → (Value → Value) → Io (Query Details World) Unit
  inspect_into inspector command key kwargs shown = do
    reply ← on_world (call inspector command [] kwargs)
    store_details key shown (reply_items reply)

  abbrev pub inspect_all : Value → Io (Query Details World) Unit
  inspect_all inspector = do
    _ ← inspect_into inspector "stats" "stats" [] as_is
    _ ← inspect_into inspector "active" "active" [] as_is
    _ ← inspect_into inspector "active_queues" "active_queues" [] as_is
    _ ← inspect_into inspector "registered" "registered" [] as_is
    inspect_into inspector "conf" "conf" (("with_defaults", bool true) ∷ []) redacted

  abbrev pub get_inspector : Value → Dict Value → Io World Value
  get_inspector celery_app kwargs = do
    control ← attribute celery_app "control"
    call control "inspect" [] kwargs

  -- `[hostname] if hostname else None`
  abbrev pub destination : Option String → Value
  destination none = null
  destination (some hostname) =
      if truthy (str hostname) then list (Values.cons (str hostname) Values.nil) else null

  -- The timeouts are Python floats: of a Redis socket, of one broadcast, and of the cheap probe.
  module _ (socket_timeout long short : Value) where
    abbrev pub detail_query : Value → Option String → Value → Io (Query Details World) Unit
    detail_query celery_app hostname conn = do
      inspector ← on_world (
          get_inspector celery_app
            (("destination", destination hostname) ∷ ("timeout", long) ∷ ("connection", conn) ∷ []))
      inspect_all inspector

    unfoldable pub get_worker_details : Value → Option String → World → Details × World
    unfolding agent_broker_connection inspect_into
    get_worker_details celery_app hostname =
        best_effort
          (agent_broker_connection socket_timeout celery_app (detail_query celery_app hostname)) []

    abbrev pub basic_query : Value → Value → Io (Query Details World) Value
    basic_query celery_app conn = do
      inspector ←
          on_world (get_inspector celery_app (("timeout", short) ∷ ("connection", conn) ∷ []))
      on_world (call inspector "stats" [] [])

    -- The replies are read behind the connection's release.
    unfoldable pub worker_stats_basic : Value → World → Details × World
    unfolding agent_broker_connection
    worker_stats_basic celery_app =
        best_effort
          (agent_broker_connection socket_timeout celery_app (basic_query celery_app) >>= λ stats.
            store_details "stats" as_is (reply_items stats))
          []
