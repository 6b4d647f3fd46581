-- ===== src/Events/Broker/NameCache/Remembered.antt =====
-- How long the cache of names remembers one, whatever it is used for meanwhile.
use z4j_celery.Prelude.{
  ℕ, suc, ◌+◌, ◌≤◌, ◌<◌, ◌≡◌, ◌≢◌, ◌⊎◌, ◌∙◌, refl, ap, sym, subst, inl, inr, arith, String, Option,
  none, some, List, [], ◌∷◌, ◌++◌, length, length-append, ltb, eq_iff, ◌==◌, Option-cases,
  Bool-cases,
}
use z4j_celery.Python.{Value, as_str, get_value, Dict, get, remove}
use z4j_celery.Events.Broker.NameCache.{
  Cache, store, evict, move_to_end, resolve_name, cached_name, cache_name, cache_pair, text_at,
}
use mathlib.Core.Option
use z4j_celery.Events.Broker.NameCache.Entries.{
  IsWellFormed, get-remove_self, move_absent, move_present,
}
use z4j_celery.Events.Broker.NameCache.Recency.{store_absent, store_again}
use z4j_celery.Events.Broker.NameCache.Bounded.{
  remove_bound, cache_name-IsWellFormed, resolve_name-IsWellFormed, remove-IsWellFormed,
}

-- What a handler does with the cache: an event's name is learned, an event's name is asked for, or
-- a task is forgotten.
pub data Use : Type 0 where
  learning : Dict Value → Use
  asking : Dict Value → Use
  forgetting : String → Use

abbrev pub use_one : ℕ → Use → Cache → Cache
use_one max (learning event) c = cache_name max event c
use_one max (asking event) c = (resolve_name event c).1
use_one max (forgetting task_id) c = remove task_id c

abbrev pub use_all : ℕ → List Use → Cache → Cache
use_all max [] c = c
use_all max (u ∷ uses) c = use_all max uses (use_one max u c)

-- Neither another name for the task, nor its end.
abbrev pub Spares : String → Use → Type 0
Spares uuid (learning event) = text_at "uuid" event ≢ some uuid
Spares uuid (asking event) = Unit
Spares uuid (forgetting task_id) = task_id ≢ uuid

abbrev pub AllSpare : String → List Use → Type 0
AllSpare uuid [] = Unit
AllSpare uuid (u ∷ uses) = Spares uuid u × AllSpare uuid uses

module _ (uuid name : String) where
  -- The id has the name, and at most `n` entries are more recent.
  abbrev Recent : ℕ → Cache → Type 0
  Recent n [] = ⊥
  Recent n ((j, v) ∷ c) = ((j ≡ uuid) × (v ≡ name) × (length c ≤ n)) ⊎ ((j ≢ uuid) × Recent n c)

  get-Recent : (n : ℕ) (c : Cache) → Recent n c → get uuid c ≡ some name
  unfolding get
  get-Recent n [] r = elim r [ ]
  get-Recent n ((j, v) ∷ c) (inl (k, e, l)) = ground (arith, k, e, eq_iff j uuid)
  get-Recent n ((j, v) ∷ c) (inr (k, r)) = ground (arith, get-Recent n c r, k, eq_iff j uuid)

  Recent-more : (n m : ℕ) (c : Cache) → n ≤ m → Recent n c → Recent m c
  Recent-more n m [] le r = elim r [ ]
  Recent-more n m ((j, v) ∷ c) le (inl (k, e, l)) = inl (k, e, omega (arith, le, l))
  Recent-more n m ((j, v) ∷ c) le (inr (k, r)) = inr (k, Recent-more n m c le r)

  Recent-append :
      (n : ℕ) (j v : String) (c : Cache) → Recent n c → Recent (suc n) (c ++ (j, v) ∷ [])
  Recent-append n j v [] r = elim r [ ]
  Recent-append n j v ((i, w) ∷ c) (inl (k, e, l)) =
      inl (k, e, omega (arith, l, length-append c ((j, v) ∷ [])))
  Recent-append n j v ((i, w) ∷ c) (inr (k, r)) = inr (k, Recent-append n j v c r)

  Recent-last : (c : Cache) → get uuid c ≡ none → Recent 0 (c ++ (uuid, name) ∷ [])
  unfolding get
  Recent-last [] h = inl (refl, refl, omega arith)
  Recent-last ((j, w) ∷ c) h = inr (ground (arith, eq_iff j uuid), Recent-last c (ground arith))

  Recent-remove : (n : ℕ) (j : String) (c : Cache) → j ≢ uuid → Recent n c → Recent n (remove j c)
  unfolding remove
  Recent-remove n j [] ne r = elim r [ ]
  Recent-remove n j ((i, w) ∷ c) ne r = elim (Bool-cases (i == j)) [
    | inl e ↦ rw e (elim r [
      | inl (k, _, _) ↦ elim (ne (ground (arith, eq_iff i j, e, k))) [ ]
      | inr (_, q) ↦ q
    ])
    | inr e ↦ rw e (elim r [
      | inl (k, v, l) ↦ inl (k, v, omega (arith, l, remove_bound j c))
      | inr (k, q) ↦ inr (k, Recent-remove n j c ne q)
    ])
  ]

  Recent-evict : (max n : ℕ) (c : Cache) → n < max → Recent n c → Recent n (evict max c)
  unfolding evict
  Recent-evict max n [] lt r = elim r [ ]
  Recent-evict max n ((i, w) ∷ c) lt r = elim (Bool-cases (ltb max (suc (length c)))) [
    | inl e ↦ rw e (elim r [
      | inl (k, v, l) ↦ ground (arith, e, l, lt)
      | inr (k, q) ↦ Recent-evict max n c lt q
    ])
    | inr e ↦ rw e r
  ]

  module _ (max : ℕ) where
    move_other :
        (n : ℕ) (j : String) (c : Cache) → j ≢ uuid → Recent n c → Recent (suc n) (move_to_end j c)
    move_other n j c ne r = elim (Option-cases (get j c)) [
      | inl e ↦
          subst (Recent (suc n)) (sym (move_absent j c e)) (Recent-more n (suc n) c (omega arith) r)
      | inr (v, e) ↦
          subst (Recent (suc n)) (sym (move_present j v c e))
            (Recent-append n j v (remove j c) (Recent-remove n j c ne r))
    ]

    -- Asking for the task's own name makes it the most recent one.
    move_own : (n : ℕ) (c : Cache) → IsWellFormed max c → Recent n c → Recent 0 (move_to_end uuid c)
    move_own n c wf r =
        subst (Recent 0) (sym (move_present uuid name c (get-Recent n c r)))
          (Recent-last (remove uuid c) (get-remove_self uuid c wf.distinct))

    move-Recent :
        (n : ℕ) (j : String) (c : Cache)
        → IsWellFormed max c
        → Recent n c
        → Recent (suc n) (move_to_end j c)
    move-Recent n j c wf r = elim (Bool-cases (j == uuid)) [
      | inl e ↦
          subst (λ k. Recent (suc n) (move_to_end k c))
            (ground (arith, e, eq_iff uuid j, eq_iff j uuid))
            (Recent-more 0 (suc n) (move_to_end uuid c) (omega arith) (move_own n c wf r))
      | inr e ↦ move_other n j c (ground (arith, e, eq_iff j uuid)) r
    ]

    store_other :
        (n : ℕ) (j v : String) (c : Cache)
        → suc n < max
        → j ≢ uuid
        → IsWellFormed max c
        → Recent n c
        → Recent (suc n) (store max j v c)
    store_other n j v c lt ne wf r = elim (Option-cases (get j c)) [
      | inl e ↦
          subst (Recent (suc n)) (sym (store_absent max j v c e))
            (Recent-evict max (suc n) (c ++ (j, v) ∷ []) lt (Recent-append n j v c r))
      | inr (w, e) ↦
          subst (Recent (suc n)) (sym (store_again max j v w c wf e))
            (Recent-append n j v (remove j c) (Recent-remove n j c ne r))
    ]

    store_own : (c : Cache) → 0 < max → IsWellFormed max c → Recent 0 (store max uuid name c)
    store_own c lt wf = elim (Option-cases (get uuid c)) [
      | inl e ↦
          subst (Recent 0) (sym (store_absent max uuid name c e))
            (Recent-evict max 0 (c ++ (uuid, name) ∷ []) lt (Recent-last c e))
      | inr (w, e) ↦
          subst (Recent 0) (sym (store_again max uuid name w c wf e))
            (Recent-last (remove uuid c) (get-remove_self uuid c wf.distinct))
    ]

    pair_other :
        (n : ℕ) (j v : Option String) (c : Cache)
        → suc n < max
        → j ≢ some uuid
        → IsWellFormed max c
        → Recent n c
        → Recent (suc n) (cache_pair max j v c)
    pair_other n (some j) (some v) c lt ne wf r = store_other n j v c lt (λ e. ne (ap some e)) wf r
    pair_other n none _ c lt ne wf r = Recent-more n (suc n) c (omega arith) r
    pair_other n (some j) none c lt ne wf r = Recent-more n (suc n) c (omega arith) r

    asked :
        (n : ℕ) (v : Option String) (j : String) (c : Cache)
        → IsWellFormed max c
        → Recent n c
        → Recent (suc n) (cached_name v j c).1
    asked n (some v) j c wf r = Recent-more n (suc n) c (omega arith) r
    asked n none j c wf r = move-Recent n j c wf r

    use_one-Recent :
        (n : ℕ) (u : Use) (c : Cache)
        → suc n < max
        → Spares uuid u
        → IsWellFormed max c
        → Recent n c
        → IsWellFormed max (use_one max u c) × Recent (suc n) (use_one max u c)
    unfolding cache_name resolve_name
    use_one-Recent n (learning event) c lt p wf r = (
      cache_name-IsWellFormed max event c wf,
      pair_other n (text_at "uuid" event) (text_at "name" event) c lt p wf r,
    )
    use_one-Recent n (asking event) c lt p wf r = (
      resolve_name-IsWellFormed max event c wf,
      asked n (text_at "name" event) (Option.get_or (as_str (get_value "uuid" event)) "") c wf r,
    )
    use_one-Recent n (forgetting j) c lt p wf r = (
      remove-IsWellFormed max j c wf,
      Recent-more n (suc n) (remove j c) (omega arith) (Recent-remove n j c p r),
    )

    get-use_all :
        (n : ℕ) (uses : List Use) (c : Cache)
        → n + length uses < max
        → AllSpare uuid uses
        → IsWellFormed max c
        → Recent n c
        → get uuid (use_all max uses c) ≡ some name
    get-use_all n [] c lt p wf r = get-Recent n c r
    get-use_all n (u ∷ uses) c lt p wf r =
        let (wf', r') = use_one-Recent n u c (omega (arith, lt)) p.0 wf r in
        get-use_all (suc n) uses (use_one max u c) (omega (arith, lt)) p.1 wf' r'

remembered :
    (max : ℕ) (uuid name : Option String) (u n : String) (uses : List Use) (c : Cache)
    → length uses < max
    → AllSpare u uses
    → IsWellFormed max c
    → uuid ≡ some u
    → name ≡ some n
    → IsWellFormed max (cache_pair max uuid name c)
    → get u (use_all max uses (cache_pair max uuid name c)) ≡ some n
remembered max uuid name u n uses c lt p wf a b wf' =
    get-use_all u n max 0 uses (cache_pair max uuid name c) (omega (arith, lt)) p wf' (
      subst (λ o. Recent u n 0 (cache_pair max o name c)) (sym a)
        (subst (λ o. Recent u n 0 (cache_pair max (some u) o c)) (sym b)
          (store_own u n max c (omega (arith, lt)) wf)))

-- An event that carries no name gets the one that an earlier event of the same task left in the
-- cache, if the cache has been used fewer times since than it may hold names, and none of these uses
-- learned a name for the task or forgot it: whatever else was learned, asked for or forgotten.
pub resolve_name-use_all :
    (max : ℕ) (earlier later : Dict Value) (uses : List Use) (uuid name : String) (c : Cache)
    → length uses < max
    → AllSpare uuid uses
    → IsWellFormed max c
    → text_at "uuid" earlier ≡ some uuid
    → text_at "name" earlier ≡ some name
    → as_str (get_value "uuid" later) ≡ some uuid
    → text_at "name" later ≡ none
    → (resolve_name later (use_all max uses (cache_name max earlier c))).0 ≡ some name
unfolding resolve_name cache_name
resolve_name-use_all max earlier later uses uuid name c lt p wf a b u n =
    let c' = use_all max uses (cache_name max earlier c) in
    ap (λ o. (cached_name o (Option.get_or (as_str (get_value "uuid" later)) "") c').0) n
    ∙ ap (λ o. get (Option.get_or o "") c') u
    ∙ remembered max (text_at "uuid" earlier) (text_at "name" earlier) uuid name uses c lt p wf a b
        (cache_name-IsWellFormed max earlier c wf)
