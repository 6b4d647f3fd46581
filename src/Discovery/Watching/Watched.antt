-- ===== src/Discovery/Watching/Watched.antt =====
-- What holds while the adapter watches files: of its watcher, its deltas, its loop and its hints.
use z4j_celery.Prelude.{
  inl, inr, ℕ, ◌≤◌, ◌≢◌, Bool, true, false, not, ◌&&◌, Option, none, some, List, [], ◌≡◌, ◌⊎◌, refl,
  Bool-cases, ◌∙◌, ap, subst, arith, length, if◌then◌else◌,
}
use z4j_celery.Python.{Value, Outcome, returned, raised, Runtime, Settles, settled, Settles-then}
use z4j_celery.Discovery.Paths.{FilePath}
use z4j_celery.Discovery.Static.{done}
use z4j_celery.Discovery.Tasks.{
  Sources, Registry, discover_tasks, cache_hints, delta_queue_maxsize, changed_with, get_delta,
  rediscover_with, on_tasks_file_changed,
}
use z4j_celery.Discovery.Tasks.Deltas.{Keeps, get_delta-Keeps, ScanKeeps, changed-ScanKeeps}
use z4j_celery.Discovery.Watching.{
  Watcher, Watching, new_watching, is_dev_mode, has_paths, on_world, keep_loop, keep_watcher,
  start_with_loop, start_fs_watcher, subscribe_registry_changes,
}
use mathlib.Core.Option

-- How many watchers run.
abbrev pub count : Bool → ℕ
count false = 0
count true = 1

module _ (rt : Runtime) (sources : Sources) (watcher : Watcher (Runtime.World rt))
    (celery_app : Value) where
  open rt use {World}

  abbrev pub discovered : Option (List FilePath) → Watching World → Watching World
  discovered hints s =
      let (found, cached, w) =
        discover_tasks rt sources celery_app hints s.registry.discovery_hints s.world in
      record s { registry = record s.registry { discovery_hints = cached }; world = w }

  -- What may happen, in any order: a subscription, a discovery, a saved file, and a delta that a
  -- subscriber takes.
  pub data Step (s : Watching World) : Watching World → Type 0 where
    subscribes : Step s (subscribe_registry_changes rt watcher s).1
    discovers : (hints : Option (List FilePath)) → Step s (discovered hints s)
    changes :
        (r : Registry) (w : World)
        → on_tasks_file_changed rt sources celery_app s.registry s.world ≡ (done r, w)
        → Step s (record s { registry = r; world = w })
    takes : Step s (record s { registry = (get_delta s.registry).1 })

  pub data Reachable : Watching World → Type 0 where
    initial : (w : World) → Reachable (new_watching w)
    next : {s t : Watching World} → Reachable s → Step s t → Reachable t

  abbrev pub IsKnown : Registry → Type 0
  IsKnown r = (r.has_loop ≡ true) × (r.discovery_hints ≢ none)

  pub record IsWatched (s : Watching World) : Type 0 where
    pub bounded : length s.registry.delta_queue ≤ delta_queue_maxsize
    pub single : s.started ≡ count s.has_watcher
    pub known : s.has_watcher ≡ true → IsKnown s.registry

  -- A statement of the start: it keeps the deltas, and begins where no watcher runs.
  abbrev Unwatched : Watching World → Type 0
  Unwatched s =
      (length s.registry.delta_queue ≤ delta_queue_maxsize)
      × (s.has_watcher ≡ false)
      × (s.started ≡ 0)
      × (s.registry.discovery_hints ≢ none)

  abbrev Looped : Watching World → Type 0
  Looped s = Unwatched s × (s.registry.has_loop ≡ true)

  unwatched : (s : Watching World) → Unwatched s → IsWatched s
  unwatched s h = record {
    bounded = h.0;
    single = rw h.1 h.2;
    known = λ e. absurd (ground (arith, e, h.1));
  }

  start_with_loop-Settles :
      (s : Watching World)
      → Unwatched s
      → Settles IsWatched IsWatched (start_with_loop rt watcher s)
  start_with_loop-Settles s h =
      Settles-then Looped IsWatched IsWatched (keep_loop rt watcher) _ s (h, refl)
        (λ a s' k.
          Settles-then Looped IsWatched IsWatched
            (on_world rt watcher
              (watcher.start_watcher (Option.get_or s.registry.discovery_hints [])))
            (keep_watcher rt watcher) s' (settled Looped IsWatched _ _ k (unwatched _ k.0))
            keep_watcher-IsWatched)
    where
      keep_watcher-IsWatched :
          (b : Bool) (s : Watching World)
          → Looped s
          → Settles IsWatched IsWatched (keep_watcher rt watcher b s)
      keep_watcher-IsWatched false s h = unwatched _ (h.0.0, refl, h.0.2, h.0.3)
      keep_watcher-IsWatched true s h = record {
        bounded = h.0.0;
        single = omega (arith, h.0.2);
        known = λ e. (h.1, h.0.3);
      }

  always :
      (P : Watching World → Type 0) (r : Outcome Unit) (s : Watching World)
      → Settles P P (r, s)
      → P s
  always P (returned a) s h = h
  always P (raised e) s h = h

  if-Settles :
      (b : Bool) (x y : Outcome Unit × Watching World)
      → (b ≡ true → Settles IsWatched IsWatched x)
      → Settles IsWatched IsWatched y
      → Settles IsWatched IsWatched (if b then x else y)
  if-Settles true x y h k = h refl
  if-Settles false x y h k = k

  start_fs_watcher-Settles :
      (s : Watching World)
      → Unwatched s
      → Settles IsWatched IsWatched (start_fs_watcher rt watcher s)
  unfolding start_fs_watcher
  start_fs_watcher-Settles s h =
      Settles-then Unwatched IsWatched IsWatched (on_world rt watcher watcher.load) _ s
        (settled Unwatched IsWatched _ _ h (unwatched _ h))
        (λ a s' k.
          if-Settles (watcher.has_running_loop s'.world) _ _ (λ _. start_with_loop-Settles s' k)
            (unwatched s' k))

  has_paths_ne : (o : Option (List FilePath)) → has_paths o ≡ true → o ≢ none
  has_paths_ne none h = absurd (ground (arith, h))
  has_paths_ne (some paths) h = λ e. cc

  guarded : (a b c : Bool) → (a && b && not c) ≡ true → (b ≡ true) × (c ≡ false)
  guarded true true false h = (refl, refl)
  guarded true true true h = cc
  guarded true false c h = cc
  guarded false b c h = cc

  subscribe-IsWatched :
      (s : Watching World) → IsWatched s → IsWatched (subscribe_registry_changes rt watcher s).1
  unfolding subscribe_registry_changes
  subscribe-IsWatched s h =
      let dev = is_dev_mode (rt.environ s.world "Z4J_DEV_MODE") in
      always IsWatched (subscribe_registry_changes rt watcher s).0
        (subscribe_registry_changes rt watcher s).1
        (if-Settles (dev && has_paths s.registry.discovery_hints && not s.has_watcher)
          (start_fs_watcher rt watcher s) (returned tt, s)
          (λ e.
            let (paths, none_yet) =
              guarded dev (has_paths s.registry.discovery_hints) s.has_watcher e in
            start_fs_watcher-Settles s (
              h.bounded,
              none_yet,
              ground (arith, h.single, none_yet),
              has_paths_ne s.registry.discovery_hints paths,
            ))
          h)

  kept :
      (s : Watching World) (r : Registry) (w : World)
      → Keeps rt sources celery_app s.registry r
      → IsWatched s
      → IsWatched (record s { registry = r; world = w })
  kept s r w k h = record {
    bounded = k.2 h.bounded;
    single = h.single;
    known = λ e. let (l, n) = h.known e in (k.0 ∙ l, k.1 n);
  }

  cache_hints_ne :
      (hints cached : Option (List FilePath)) → cached ≢ none → cache_hints hints cached ≢ none
  cache_hints_ne none cached h = h
  cache_hints_ne (some paths) cached h = λ e. cc

  Step-IsWatched : {s t : Watching World} → Step s t → IsWatched s → IsWatched t
  unfolding discover_tasks on_tasks_file_changed
  Step-IsWatched {s} subscribes h = subscribe-IsWatched s h
  Step-IsWatched {s} (discovers hints) h =
      kept s _ _ (refl, cache_hints_ne hints s.registry.discovery_hints, λ b. b) h
  Step-IsWatched {s} (changes r w e) h =
      kept s r w
        (subst (λ p. ScanKeeps rt sources celery_app s.registry p.0) e
          (changed-ScanKeeps rt sources celery_app s.registry.discovery_hints s.registry s.world))
        h
  Step-IsWatched {s} takes h =
      kept s (get_delta s.registry).1 s.world (get_delta-Keeps rt sources celery_app s.registry) h

  pub reachable-IsWatched : {s : Watching World} → Reachable s → IsWatched s
  reachable-IsWatched (initial w) = record {
    bounded = omega arith;
    single = refl;
    known = λ e. absurd (ground (arith, e));
  }
  reachable-IsWatched (next r st) = Step-IsWatched st (reachable-IsWatched r)

  abbrev pub Rediscovers : Watching World → Type 0
  Rediscovers s =
      (hints : List FilePath) × (s.registry.discovery_hints ≡ some hints)
      × (on_tasks_file_changed rt sources celery_app s.registry s.world
          ≡ rediscover_with rt sources celery_app s.registry hints s.world)

  rediscovers :
      (o : Option (List FilePath)) (s : Watching World)
      → s.registry.discovery_hints ≡ o
      → IsKnown s.registry
      → Rediscovers s
  unfolding on_tasks_file_changed
  rediscovers none s e h = absurd (h.1 e)
  rediscovers (some hints) s e h = (
    hints,
    e,
    ap (λ o. changed_with rt sources celery_app o s.registry s.world) e
        ∙ ap
            (λ b.
              if b
              then rediscover_with rt sources celery_app s.registry hints s.world
              else (done s.registry, s.world))
            h.0,
  )

  -- In every state that subscriptions, discoveries, saved files and taken deltas lead to, however the
  -- starts end: at most a hundred deltas wait; a watcher runs exactly if one has been started, and
  -- never a second one; and while one runs, a saved file is followed by a discovery with the hints.
  pub reachable_watched :
      {s : Watching World}
      → Reachable s
      → (length s.registry.delta_queue ≤ delta_queue_maxsize)
        × (s.started ≡ count s.has_watcher)
        × ((s.has_watcher ≡ false) ⊎ Rediscovers s)
  reachable_watched {s} r =
      let h = reachable-IsWatched r in
      (
        h.bounded,
        h.single,
        elim (Bool-cases s.has_watcher) [
          | inl e ↦ inr (rediscovers s.registry.discovery_hints s refl (h.known e))
          | inr e ↦ inl e
        ],
      )
