-- ===== src/Engine/Workers/Redacted.antt =====
-- What the workers' details disclose of their settings.
use z4j_celery.Prelude.{
  Bool, true, false, if◌then◌else◌, String, true, false, Option, none, some, [], ◌∷◌, ◌≡◌, refl,
  inl, inr, arith, ◌==◌, eq_iff, Bool-cases,
}
use z4j_celery.Python.{
  Value, dict, fields, bool, Dict, get, put, get-put, Io, Outcome, returned, raised, Exception,
  Runtime, Settles, settled, Settles-then, ◌>>=◌, handle,
}
use z4j_celery.Engine.WorkerConf.{redact_worker_conf, is_allowed, redact_worker_conf_lem}
use z4j_celery.Engine.Workers.{
  Query, on_world, agent_broker_connection, limit_wait, release, Details, set_detail, set_details,
  reply_items, store_details, inspect_into, as_is, redacted, inspect_all, get_inspector,
  destination, detail_query, basic_query, worker_stats_basic, get_worker_details,
}
use mathlib.Core.Option

-- A dictionary of settings on the allowlist alone.
abbrev pub IsRedacted : Value → Type 0
IsRedacted v =
    (d : Dict Value) × (v ≡ dict (fields d))
    × ((k : String) → get k d ≡ (if is_allowed k then get k d else none))

abbrev pub Hidden : Option Value → Type 0
Hidden none = Unit
Hidden (some v) = IsRedacted v

-- The settings of a worker, if its details have any.
abbrev pub conf_of : Option (Dict Value) → Option Value
conf_of none = none
conf_of (some info) = get "conf" info

-- Wherever a worker's details have settings, they are redacted.
abbrev pub HidesSettings : Dict (Dict Value) → Type 0
HidesSettings details = (worker : String) → Hidden (conf_of (get worker details))

filtered :
    (b : Bool) (x y : Option Value) → x ≡ (if b then y else none) → x ≡ (if b then x else none)
filtered true x y h = refl
filtered false x y h = h

redacted-IsRedacted : (cfg : Value) → IsRedacted (redacted cfg)
redacted-IsRedacted cfg =
    (redact_worker_conf cfg, refl, λ k. filtered (is_allowed k) _ _ (redact_worker_conf_lem cfg k))

earlier-Hidden :
    (o : Option (Dict Value)) → Hidden (conf_of o) → Hidden (get "conf" (Option.get_or o []))
unfolding get
earlier-Hidden none h = tt
earlier-Hidden (some info) h = h

set_detail-Hides :
    (key worker : String) (value : Value) (details : Dict (Dict Value))
    → (key ≡ "conf" → IsRedacted value)
    → HidesSettings details
    → HidesSettings (set_detail key worker value details)
set_detail-Hides key worker value details ok h w =
    let old = Option.get_or (get worker details) [] in
    elim (Bool-cases (worker == w)) [
      | inr e ↦ rw (get-put worker w (put key value old) details, e) (h w)
      | inl e ↦
          rw (get-put worker w (put key value old) details, e, get-put key "conf" value old)
            (elim (Bool-cases (key == "conf")) [
              | inl k ↦ rw k (ok (ground (arith, eq_iff key "conf", k)))
              | inr k ↦ rw k (earlier-Hidden (get worker details) (h worker))
            ])
    ]

set_details-Hides :
    (key : String) (shown : Value → Value) (replies : Dict Value) (details : Dict (Dict Value))
    → (key ≡ "conf" → (v : Value) → IsRedacted (shown v))
    → HidesSettings details
    → HidesSettings (set_details key shown replies details)
set_details-Hides key shown [] details ok h = h
set_details-Hides key shown ((worker, info) ∷ rest) details ok h =
    set_details-Hides key shown rest (set_detail key worker (shown info) details) ok
      (set_detail-Hides key worker (shown info) details (λ e. ok e info) h)

module _ (rt : Runtime) where
  open rt use {World}

  -- A query whose findings hide the settings, however it ends.
  abbrev Safe : Query Details World → Type 0
  Safe s = HidesSettings s.found

  abbrev Stays : {A : Type 0} → Io (Query Details World) A → Type 0
  Stays m = (s : Query Details World) → Safe s → Settles Safe Safe (m s)

  Stays-on_world : {A : Type 0} (m : Io World A) → Stays (on_world m)
  Stays-on_world m s h = settled Safe Safe (m s.world).0 (record s { world = (m s.world).1 }) h h

  Stays-then :
      {A B : Type 0} (m : Io (Query Details World) A) (f : A → Io (Query Details World) B)
      → Stays m
      → ((a : A) → Stays (f a))
      → Stays (m >>= f)
  Stays-then m f h g s p = Settles-then Safe Safe Safe m f s (h s p) (λ a s' q. g a s' q)

  Stays-handle :
      {A B : Type 0} (r : Outcome A) (f : A → Io (Query Details World) B)
      (g : Exception → Io (Query Details World) B) (s : Query Details World)
      → ((a : A) → Stays (f a))
      → ((e : Exception) → Stays (g e))
      → Settles Safe Safe (r, s)
      → Settles Safe Safe (handle r f g s)
  Stays-handle (returned a) f g s h k p = h a s p
  Stays-handle (raised e) f g s h k p = k e s p

  Stays-pure : {A : Type 0} (r : Outcome A) → Stays (λ s. (r, s))
  Stays-pure r s h = settled Safe Safe r s h h

  connection-Stays :
      (timeout app : Value) {A : Type 0} (body : Value → Io (Query Details World) A)
      → ((conn : Value) → Stays (body conn))
      → Stays (agent_broker_connection rt timeout app body)
  unfolding agent_broker_connection
  connection-Stays timeout app {A = A} body h =
      Stays-then (on_world (rt.call app "connection_for_write" [] [])) _ (Stays-on_world _) (λ conn.
        Stays-then (on_world (limit_wait rt timeout conn)) _ (Stays-on_world _) (λ _ s p.
          Stays-handle (body conn s).0
            (λ a. on_world (release rt timeout conn) >>= λ _. (λ t. (returned a, t)))
            (λ e. on_world (release rt timeout conn) >>= λ _. (λ t. (raised e, t))) (body conn s).1
            (λ a.
              Stays-then (on_world (release rt timeout conn)) _ (Stays-on_world _)
                (λ _. Stays-pure {A = A} (returned a)))
            (λ e.
              Stays-then (on_world (release rt timeout conn)) _ (Stays-on_world _)
                (λ _. Stays-pure {A = A} (raised e)))
            (h conn s p)))

  store_details-Stays :
      (key : String) (shown : Value → Value) (replies : Option (Dict Value))
      → (key ≡ "conf" → (v : Value) → IsRedacted (shown v))
      → Stays (store_details rt key shown replies)
  store_details-Stays key shown none ok s h = h
  store_details-Stays key shown (some replies) ok s h =
      set_details-Hides key shown replies s.found ok h

  inspect_into-Stays :
      (inspector : Value) (command key : String) (kwargs : Dict Value) (shown : Value → Value)
      → (key ≡ "conf" → (v : Value) → IsRedacted (shown v))
      → Stays (inspect_into rt inspector command key kwargs shown)
  unfolding inspect_into
  inspect_into-Stays inspector command key kwargs shown ok =
      Stays-then (on_world (rt.call inspector command [] kwargs))
        (λ reply. store_details rt key shown (reply_items reply)) (Stays-on_world _)
        (λ reply. store_details-Stays key shown (reply_items reply) ok)

  other_key :
      (key : String) → (key == "conf") ≡ false → key ≡ "conf" → (v : Value) → IsRedacted (as_is v)
  other_key key h e v = absurd (ground (arith, eq_iff key "conf", h, e))

  inspect_all-Stays : (inspector : Value) → Stays (inspect_all rt inspector)
  inspect_all-Stays inspector =
      Stays-then (inspect_into rt inspector "stats" "stats" [] as_is) _
        (inspect_into-Stays inspector "stats" "stats" [] as_is (other_key "stats" refl))
        (λ _.
          Stays-then (inspect_into rt inspector "active" "active" [] as_is) _
            (inspect_into-Stays inspector "active" "active" [] as_is (other_key "active" refl))
            (λ _.
              Stays-then (inspect_into rt inspector "active_queues" "active_queues" [] as_is) _
                (inspect_into-Stays inspector "active_queues" "active_queues" [] as_is
                  (other_key "active_queues" refl))
                (λ _.
                  Stays-then (inspect_into rt inspector "registered" "registered" [] as_is) _
                    (inspect_into-Stays inspector "registered" "registered" [] as_is
                      (other_key "registered" refl))
                    (λ _.
                      inspect_into-Stays inspector "conf" "conf" (("with_defaults", bool true) ∷ [])
                        redacted (λ e v. redacted-IsRedacted v)))))

  ended : {A : Type 0} (r : Outcome A) (s : Query Details World) → Settles Safe Safe (r, s) → Safe s
  ended (returned a) s h = h
  ended (raised e) s h = h

  -- A query that starts from nothing and hides the settings.
  best_effort-Hides :
      {A : Type 0} (m : Io (Query Details World) A) (w : World)
      → Stays m
      → HidesSettings (m (record { found = []; world = w })).1.found
  unfolding get
  best_effort-Hides m w h =
      let start : Query Details World = record { found = []; world = w } in
      ended (m start).0 (m start).1 (h start (λ worker. tt))

  detail_query-Stays :
      (socket_timeout long short app : Value) (hostname : Option String) (conn : Value)
      → Stays (detail_query rt socket_timeout long short app hostname conn)
  detail_query-Stays socket_timeout long short app hostname conn =
      Stays-then
        (on_world (
          get_inspector rt app (
            ("destination", destination rt hostname)
            ∷ ("timeout", long)
            ∷ ("connection", conn)
            ∷ [])))
        (inspect_all rt) (Stays-on_world _) inspect_all-Stays

  basic_query-Stays :
      (socket_timeout long short app conn : Value)
      → Stays (basic_query rt socket_timeout long short app conn)
  basic_query-Stays socket_timeout long short app conn =
      Stays-then (on_world (get_inspector rt app (("timeout", short) ∷ ("connection", conn) ∷ [])))
        _ (Stays-on_world _) (λ inspector. Stays-on_world (rt.call inspector "stats" [] []))

  -- Whatever the workers answer, and wherever the inspection breaks off, the settings of a worker in
  -- the details are a dictionary that has no key outside the allowlist.
  pub get_worker_details-Hides :
      (socket_timeout long short : Value) (celery_app : Value) (hostname : Option String)
      (w : World)
      → HidesSettings (get_worker_details rt socket_timeout long short celery_app hostname w).0
  unfolding get_worker_details
  get_worker_details-Hides socket_timeout long short celery_app hostname w =
      best_effort-Hides
        (agent_broker_connection rt socket_timeout celery_app
          (detail_query rt socket_timeout long short celery_app hostname))
        w
        (connection-Stays socket_timeout celery_app
          (detail_query rt socket_timeout long short celery_app hostname)
          (detail_query-Stays socket_timeout long short celery_app hostname))

  pub worker_stats_basic-Hides :
      (socket_timeout long short celery_app : Value) (w : World)
      → HidesSettings (worker_stats_basic rt socket_timeout long short celery_app w).0
  unfolding worker_stats_basic
  worker_stats_basic-Hides socket_timeout long short celery_app w =
      best_effort-Hides
        (agent_broker_connection rt socket_timeout celery_app
            (basic_query rt socket_timeout long short celery_app)
          >>= λ stats. store_details rt "stats" as_is (reply_items stats))
        w
        (Stays-then
          (agent_broker_connection rt socket_timeout celery_app
            (basic_query rt socket_timeout long short celery_app))
          _
          (connection-Stays socket_timeout celery_app
            (basic_query rt socket_timeout long short celery_app)
            (basic_query-Stays socket_timeout long short celery_app))
          (λ stats. store_details-Stays "stats" as_is (reply_items stats) (other_key "stats" refl)))
