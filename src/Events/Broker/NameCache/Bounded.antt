-- ===== src/Events/Broker/NameCache/Bounded.antt =====
-- The size of the cache of names, and its ids.
use z4j_celery.Prelude.{
  ℕ, ◌≤◌, inl, inr, arith, String, Option, none, some, [], ◌∷◌, ◌++◌, length, length-append,
  Option-cases, subst, sym,
}
use z4j_celery.Python.{Value, as_str, get_value, Dict, get, remove}
use z4j_celery.Events.Broker.NameCache.{
  Cache, store, move_to_end, resolve_name, cached_name, cache_name, cache_pair, text_at,
}
use mathlib.Core.Option
use z4j_celery.Events.Broker.NameCache.Entries.{
  IsWellFormed, length-evict, get-remove_self, length-remove, IsDistinct-remove, IsDistinct-append,
  IsDistinct-evict, move_absent, move_present,
}
use z4j_celery.Events.Broker.NameCache.Recency.{store_absent, store_again}

move_to_end-IsWellFormed :
    (max : ℕ) (uuid : String) (c : Cache)
    → IsWellFormed max c
    → IsWellFormed max (move_to_end uuid c)
move_to_end-IsWellFormed max uuid c wf = elim (Option-cases (get uuid c)) [
  | inl e ↦ subst (IsWellFormed max) (sym (move_absent uuid c e)) wf
  | inr (v, e) ↦ subst (IsWellFormed max) (sym (move_present uuid v c e)) record {
    distinct =
        IsDistinct-append uuid v (remove uuid c) (IsDistinct-remove uuid c wf.distinct)
          (get-remove_self uuid c wf.distinct);
    bounded = ground (
      arith,
      length-append (remove uuid c) ((uuid, v) ∷ []),
      length-remove uuid v c e,
      wf.bounded,
    );
  }
]

store-IsWellFormed :
    (max : ℕ) (uuid name : String) (c : Cache)
    → IsWellFormed max c
    → IsWellFormed max (store max uuid name c)
store-IsWellFormed max uuid name c wf = elim (Option-cases (get uuid c)) [
  | inl e ↦ subst (IsWellFormed max) (sym (store_absent max uuid name c e)) record {
    distinct =
        IsDistinct-evict max (c ++ (uuid, name) ∷ []) (IsDistinct-append uuid name c wf.distinct e);
    bounded = length-evict max (c ++ (uuid, name) ∷ []);
  }
  | inr (v, e) ↦ subst (IsWellFormed max) (sym (store_again max uuid name v c wf e)) record {
    distinct =
        IsDistinct-append uuid name (remove uuid c) (IsDistinct-remove uuid c wf.distinct)
          (get-remove_self uuid c wf.distinct);
    bounded = ground (
      arith,
      length-append (remove uuid c) ((uuid, name) ∷ []),
      length-remove uuid v c e,
      wf.bounded,
    );
  }
]

pub remove_bound : (uuid : String) (c : Cache) → length (remove uuid c) ≤ length c
unfolding remove
remove_bound uuid [] = omega arith
remove_bound uuid ((j, w) ∷ c) = ground (arith, remove_bound uuid c)

pub remove-IsWellFormed :
    (max : ℕ) (uuid : String) (c : Cache) → IsWellFormed max c → IsWellFormed max (remove uuid c)
remove-IsWellFormed max uuid c wf = record {
  distinct = IsDistinct-remove uuid c wf.distinct;
  bounded = omega (arith, remove_bound uuid c, wf.bounded);
}

cache_pair-IsWellFormed :
    (max : ℕ) (uuid name : Option String) (c : Cache)
    → IsWellFormed max c
    → IsWellFormed max (cache_pair max uuid name c)
cache_pair-IsWellFormed max (some uuid) (some name) c wf = store-IsWellFormed max uuid name c wf
cache_pair-IsWellFormed max none _ c wf = wf
cache_pair-IsWellFormed max (some uuid) none c wf = wf

-- `_cache_name` keeps the cache well-formed, whatever the event.
pub cache_name-IsWellFormed :
    (max : ℕ) (event : Dict Value) (c : Cache)
    → IsWellFormed max c
    → IsWellFormed max (cache_name max event c)
unfolding cache_name
cache_name-IsWellFormed max event c wf =
    cache_pair-IsWellFormed max (text_at "uuid" event) (text_at "name" event) c wf

cached_name-IsWellFormed :
    (max : ℕ) (name : Option String) (uuid : String) (c : Cache)
    → IsWellFormed max c
    → IsWellFormed max (cached_name name uuid c).1
cached_name-IsWellFormed max (some name) uuid c wf = wf
cached_name-IsWellFormed max none uuid c wf = move_to_end-IsWellFormed max uuid c wf

-- `_resolve_name` keeps the cache well-formed, whatever the event.
pub resolve_name-IsWellFormed :
    (max : ℕ) (event : Dict Value) (c : Cache)
    → IsWellFormed max c
    → IsWellFormed max (resolve_name event c).1
unfolding resolve_name
resolve_name-IsWellFormed max event c wf =
    cached_name-IsWellFormed max (text_at "name" event)
      (Option.get_or (as_str (get_value "uuid" event)) "") c wf
