-- ===== src/Engine/Health/Cached.antt =====
-- What the heartbeat gets for a report, and what it discloses.
use z4j_celery.Prelude.{
  ℕ, ◌+◌, ◌≤◌, String, Option, none, some, [], ◌∷◌, ◌≡◌, refl, true, inl, inr, Bool-cases, ltb,
}
use z4j_celery.Prelude.Text.{lower, length, is_empty, length-take}
use z4j_celery.Python.{Value, str, py_or, pure, Outcome, returned, raised, Runtime, handle, Settles}
use z4j_celery.Engine.Workers.{Details, Query}
use z4j_celery.Engine.Workers.Redacted.{
  HidesSettings, get_worker_details-Hides, worker_stats_basic-Hides,
}
use z4j_celery.Engine.Health.Reached.{IsHonest, probe_broker-Reached}
use z4j_celery.Engine.Health.{
  Broker, Health, Cache, detect_broker_type, get_health, refresh_worker_stats, fresh_stats,
  shown_details, refresh_if_old, report_of, no_depths, error_of, probe_broker, broker_url,
  type_in_url,
}

-- What the report shows of the workers hides their settings.
abbrev pub Shows : Option Details → Type 0
Shows none = Unit
Shows (some details) = HidesSettings details

-- The text of an error, if there is one, is cut.
abbrev pub IsShort : Option String → Type 0
IsShort none = Unit
IsShort (some text) = length text ≤ 200

error_of-IsShort : (o : Outcome (Unit {0})) → IsShort (error_of o)
error_of-IsShort (returned a) = tt
error_of-IsShort (raised e) = length-take 200 e.text

-- Every exception is answered with a default.
caught :
    {W A B : Type 0} (r : Outcome A) (f : A → B) (default : B) (w : W)
    → (b : B) × ((handle r (λ a. pure (f a)) (λ e. pure default) w).0 ≡ returned b)
caught (returned a) f default w = (f a, refl)
caught (raised e) f default w = (default, refl)

module _ (rt : Runtime) (socket_timeout long short : Value) (monotonic : rt.World → ℕ)
    (worker_hostname : Option String) where
  open rt use {World}

  detect_broker_type-returns :
      (celery_app : Value) (w : World)
      → (text : String) × ((detect_broker_type rt celery_app w).0 ≡ returned text)
  unfolding detect_broker_type
  detect_broker_type-returns celery_app w =
      let asked = broker_url rt celery_app w in
      caught asked.0 (λ url. type_in_url (lower (rt.py_str (py_or url (str ""))))) "unknown" asked.1

  fresh_stats-Hides :
      (celery_app : Value) (hostname : Option String) (w : World)
      → HidesSettings
          (fresh_stats rt socket_timeout long short monotonic worker_hostname celery_app hostname
            w).0
  fresh_stats-Hides celery_app none w =
      worker_stats_basic-Hides rt socket_timeout long short celery_app w
  fresh_stats-Hides celery_app (some hostname) w = elim (Bool-cases (is_empty hostname)) [
    | inl e ↦ rw e (worker_stats_basic-Hides rt socket_timeout long short celery_app w)
    | inr e ↦
        rw e (get_worker_details-Hides rt socket_timeout long short celery_app (some hostname) w)
  ]

  refresh_if_old-Hides :
      (celery_app : Value) (cache : Cache) (w : World)
      → HidesSettings cache.cached_worker_stats
      → HidesSettings
          (refresh_if_old rt socket_timeout long short monotonic worker_hostname celery_app cache
            w).0.cached_worker_stats
  unfolding refresh_worker_stats
  refresh_if_old-Hides celery_app cache w h =
      elim (Bool-cases (ltb (cache.last_worker_stats_at + 60000) (monotonic w))) [
        | inl e ↦ rw e (fresh_stats-Hides celery_app worker_hostname w)
        | inr e ↦ rw e h
      ]

  shown_details-Shows : (details : Details) → HidesSettings details → Shows (shown_details details)
  shown_details-Shows [] h = tt
  shown_details-Shows (d ∷ ds) h = h

  reached :
      (o : Outcome (Unit {0}) × Query Broker World)
      → Settles (λ s. s.found.broker_connected ≡ true) (λ s. IsHonest rt s.found) o
      → IsHonest rt o.1.found × (error_of o.0 ≡ none → o.1.found.broker_connected ≡ true)
  reached (returned a, s) h = (λ e. absurd (cc), λ _. h)
  reached (raised x, s) h = (h, λ e. absurd (cc))

  -- Whatever Celery and the broker do, the heartbeat gets a report: no exception reaches it. Its text
  -- of a broker's error has at most 200 characters, and the workers' details that it shows and keeps
  -- hide their settings but for the allowlist, as long as those kept before do. Without an error the
  -- broker counts as connected, and a broker that does not has no queue depths.
  pub get_health-Reports :
      (celery_app : Value) (cache : Cache) (w : World)
      → HidesSettings cache.cached_worker_stats
      → (health : Health) × (cache' : Cache) × ((get_health rt socket_timeout long short monotonic
            worker_hostname celery_app cache w).0
          ≡ returned (health, cache'))
        × IsShort health.broker_error
        × Shows health.worker_details
        × HidesSettings cache'.cached_worker_stats
        × IsHonest rt health.broker
        × (health.broker_error ≡ none → health.broker.broker_connected ≡ true)
  unfolding get_health
  get_health-Reports celery_app cache w h =
      let (broker_type, typed) = detect_broker_type-returns celery_app w in
      let w1 = (detect_broker_type rt celery_app w).1 in
      let probed = probe_broker rt celery_app (record { found = no_depths; world = w1 }) in
      let cache' =
        (refresh_if_old rt socket_timeout long short monotonic worker_hostname celery_app cache
          probed.1.world).0 in
      let honest = reached probed (probe_broker-Reached rt celery_app w1) in
      let hides = refresh_if_old-Hides celery_app cache probed.1.world h in
      (
        report_of broker_type probed.0 probed.1.found cache',
        cache',
        rw typed refl,
        error_of-IsShort probed.0,
        shown_details-Shows cache'.cached_worker_stats hides,
        hides,
        honest.0,
        honest.1,
      )
