-- ===== src/Engine/Health.antt =====
-- src/z4j_celery/engine.py: the health report of the heartbeat, with its cache of worker details.
-- A clock's time is in milliseconds. A queue's depth stands under the text of its name.
pub mod Reached
pub mod Cached
use z4j_celery.Prelude.{
  ℕ, ◌+◌, String, Bool, true, false, ◌||◌, Option, none, some, List, [], ◌∷◌, map, ltb,
  if◌then◌else◌,
}
use z4j_celery.Prelude.Text.{take, lower, contains, is_empty}
use z4j_celery.Python.{
  Value, null, bool, str, items, keys, dict, is_none, truthy, py_or, as_sequence, Dict, put,
  Exception, exception, type_error, value_error, Io, pure, raise, lift, try_then, ◌>>=◌, Outcome,
  returned, raised, Runtime, getattr, getattr_or, hasattr,
}
use z4j_celery.Engine.Workers.{Query, on_world, Details, get_worker_details, worker_stats_basic}

abbrev pub type_in_url : String → String
type_in_url url =
    if contains "redis" url
    then "redis"
    else if contains "amqp" url || contains "rabbit" url
    then "amqp"
    else if contains "sqs" url
    then "sqs"
    else "unknown"

-- `list(v)` of what is no dictionary.
abbrev pub sequence_or_raise : Option (List Value) → Outcome (List Value)
sequence_or_raise (some l) = returned l
sequence_or_raise none = raised (exception type_error "TypeError" "object is not iterable")

-- `_, count, _ = answer`
abbrev pub middle_of : Option (List Value) → Outcome Value
middle_of (some (a ∷ count ∷ b ∷ [])) = returned count
middle_of (some _) = raised (exception value_error "ValueError" "wrong number of values to unpack")
middle_of none = raised (exception type_error "TypeError" "cannot unpack non-iterable object")

-- What the report says of the broker.
pub record Broker : Type 0 where
  pub broker_connected : Bool
  pub queue_depths : Dict Value

pub record Health : Type 0 where
  pub broker_type : String
  pub broker : Broker
  pub broker_error : Option String
  pub worker_details : Option Details

-- `_last_worker_stats_at` and `_cached_worker_stats`
pub record Cache : Type 0 where
  pub last_worker_stats_at : ℕ
  pub cached_worker_stats : Details

abbrev pub error_of : Outcome (Unit {0}) → Option String
error_of (returned a) = none
error_of (raised e) = some (take 200 e.text)

abbrev pub shown_details : Details → Option Details
shown_details [] = none
shown_details (d ∷ ds) = some (d ∷ ds)

abbrev pub no_depths : Broker
no_depths = record { broker_connected = false; queue_depths = [] }

abbrev pub report_of : String → Outcome (Unit {0}) → Broker → Cache → Health
report_of broker_type outcome broker cache = record {
  broker_type = broker_type;
  broker = broker;
  broker_error = error_of outcome;
  worker_details = shown_details cache.cached_worker_stats;
}

module _ (rt : Runtime) where
  open rt use {World, attribute, call, py_str}

  abbrev pub broker_url : Value → Io World Value
  broker_url celery_app = do conf ← attribute celery_app "conf"; attribute conf "broker_url"

  unfoldable pub detect_broker_type : Value → Io World String
  detect_broker_type celery_app =
      try_then (broker_url celery_app)
        (λ url. pure (type_in_url (lower (py_str (py_or url (str "")))))) (λ _. pure "unknown")

  -- `for q in queues`: a dictionary gives its keys; only lists and tuples have elements besides.
  abbrev pub iterate : Value → Io World (List Value)
  iterate (dict fs) = pure (map str (keys (items fs)))
  iterate v = lift (sequence_or_raise (as_sequence v))

  abbrev pub queue_name : Value → Io World Value
  queue_name q = getattr_or rt q "name" (str (py_str q))

  unfoldable pub queue_names : List Value → Io World (List Value)
  queue_names [] = pure []
  queue_names (q ∷ qs) = do name ← queue_name q; names ← queue_names qs; pure (name ∷ names)

  abbrev pub default_queue : Value → Io World (List Value)
  default_queue celery_app = do
    conf ← attribute celery_app "conf"
    default ← call conf "get" (str "task_default_queue" ∷ str "celery" ∷ []) []
    pure (default ∷ [])

  abbrev pub configured_queues : Value → Value → Io World (List Value)
  configured_queues celery_app queues =
      if truthy queues then iterate queues >>= queue_names else default_queue celery_app

  abbrev pub read_queues : Value → Io World (List Value)
  read_queues celery_app = do
    conf ← attribute celery_app "conf"
    queues ← call conf "get" (str "task_queues" ∷ []) []
    configured_queues celery_app queues

  unfoldable pub known_queues : Value → Io World (List Value)
  unfolding queue_names
  known_queues celery_app = try_then (read_queues celery_app) pure (λ _. pure (str "celery" ∷ []))

  abbrev pub pool_name : Value → String
  pool_name null = "prefork"
  pool_name pool =
      let pool_str = lower (py_str pool) in if contains "solo" pool_str then "solo" else pool_str

  abbrev pub read_pool : Value → Io World Value
  read_pool celery_app = do
    conf ← attribute celery_app "conf"
    call conf "get" (str "worker_pool" ∷ str "prefork" ∷ []) []

  unfoldable pub detect_pool_type : Value → Io World String
  detect_pool_type celery_app =
      try_then (read_pool celery_app) (λ pool. pure (pool_name pool)) (λ _. pure "prefork")

  abbrev pub Probe : Type 0 → Type 0
  Probe A = Io (Query Broker World) A

  abbrev pub set_connected : Probe Unit
  set_connected s = (returned tt, record s { found = record s.found { broker_connected = true } })

  abbrev pub set_depth : Value → Value → Probe Unit
  set_depth name depth s = (
    returned tt,
    record s {
      found = record s.found { queue_depths = put (py_str name) depth s.found.queue_depths };
    },
  )

  -- One queue's depth, if it can be had; `depth_of` asks the broker.
  abbrev pub probe_queue : (Value → Io World Value) → Value → Probe Unit
  probe_queue depth_of name =
      try_then (on_world (depth_of name) >>= set_depth name) pure (λ _. pure tt)

  unfoldable pub probe_queues : (Value → Io World Value) → List Value → Probe Unit
  probe_queues depth_of [] = pure tt
  probe_queues depth_of (name ∷ names) =
      probe_queue depth_of name >>= λ _. probe_queues depth_of names

  abbrev pub redis_depth : Value → Value → Io World Value
  redis_depth client name = call client "llen" (name ∷ []) []

  abbrev pub amqp_depth : Value → Value → Io World Value
  amqp_depth channel name = do
    answer ← call channel "queue_declare" [] (("queue", name) ∷ ("passive", bool true) ∷ [])
    lift (middle_of (as_sequence answer))

  abbrev pub probe_redis : Value → Value → Probe Unit
  probe_redis celery_app transport = do
    client ← on_world (attribute transport "client")
    names ← on_world (known_queues celery_app)
    probe_queues (redis_depth client) names

  abbrev pub probe_channel : Value → Value → Probe Unit
  probe_channel celery_app conn = do
    channel ← on_world (call conn "channel" [] [])
    names ← on_world (known_queues celery_app)
    probe_queues (amqp_depth channel) names

  abbrev pub probe_amqp : Value → Value → Bool → Probe Unit
  probe_amqp celery_app conn false = pure tt
  probe_amqp celery_app conn true = try_then (probe_channel celery_app conn) pure (λ _. pure tt)

  abbrev pub probe_depths : Value → Value → Value → Bool → Probe Unit
  probe_depths celery_app conn transport true = probe_redis celery_app transport
  probe_depths celery_app conn transport false =
      on_world (hasattr rt conn "channel") >>= probe_amqp celery_app conn

  abbrev pub probe_connection : Value → Value → Probe Unit
  probe_connection celery_app conn = do
    _ ← set_connected
    transport ← on_world (attribute conn "transport")
    redis ← on_world (hasattr rt transport "client")
    probe_depths celery_app conn transport redis

  -- `with celery_app.connection_for_read() as conn`: kombu's exit suppresses no exception.
  abbrev pub probe_inside : Value → Value → Probe Unit
  probe_inside celery_app outer = do
    conn ← on_world (call outer "__enter__" [] [])
    try_then (probe_connection celery_app conn)
        (λ _. on_world (call outer "__exit__" [] []) >>= λ _. pure tt)
        (λ e. on_world (call outer "__exit__" [] []) >>= λ _. raise e)

  unfoldable pub probe_broker : Value → Probe Unit
  unfolding probe_queues known_queues
  probe_broker celery_app =
      on_world (call celery_app "connection_for_read" [] []) >>= probe_inside celery_app

  module _ (socket_timeout long short : Value) (monotonic : World → ℕ)
      (worker_hostname : Option String) where
    -- The details come with every failure of the inspection passed over.
    abbrev pub fresh_stats : Value → Option String → World → Details × World
    fresh_stats celery_app none = worker_stats_basic rt socket_timeout long short celery_app
    fresh_stats celery_app (some hostname) =
        if is_empty hostname
        then worker_stats_basic rt socket_timeout long short celery_app
        else get_worker_details rt socket_timeout long short celery_app (some hostname)

    unfoldable pub refresh_worker_stats : Value → ℕ → Cache → World → Cache × World
    refresh_worker_stats celery_app now cache w =
        let (details, w') = fresh_stats celery_app worker_hostname w in
        (record { last_worker_stats_at = now; cached_worker_stats = details }, w')

    abbrev pub refresh_if_old : Value → Cache → World → Cache × World
    refresh_if_old celery_app cache w =
        let now = monotonic w in
        if ltb (cache.last_worker_stats_at + 60000) now
        then refresh_worker_stats celery_app now cache w
        else (cache, w)

    abbrev pub report_with : Value → Cache → String → Io World (Health × Cache)
    report_with celery_app cache broker_type w =
        let (outcome, s) = probe_broker celery_app (record { found = no_depths; world = w }) in
        let (cache', w') = refresh_if_old celery_app cache s.world in
        (returned (report_of broker_type outcome s.found cache', cache'), w')

    unfoldable pub get_health : Value → Cache → Io World (Health × Cache)
    unfolding detect_broker_type probe_broker refresh_worker_stats
    get_health celery_app cache = detect_broker_type celery_app >>= report_with celery_app cache
