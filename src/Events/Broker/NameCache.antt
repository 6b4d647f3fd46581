-- ===== src/Events/Broker/NameCache.antt =====
-- The cache from task ids to task names of src/z4j_celery/events/broker.py, an `OrderedDict`: the
-- least recently used entry first. An id or a name that is no text counts as missing.
pub mod Entries
pub mod Recency
pub mod Bounded
pub mod Remembered
use z4j_celery.Prelude.{
  ℕ, suc, ◌+◌, ◌≤◌, ◌<◌, ◌≡◌, refl, arith, String, Bool, true, false, Option, none, some, List, [],
  ◌∷◌, ◌++◌, length, length-append, ltb, if◌then◌else◌, eq_iff, ◌==◌, eq_refl,
}
use z4j_celery.Prelude.Text.{is_empty}
use z4j_celery.Python.{Value, as_str, Dict, get, put, remove, keys, get_value, IsAbsent, IsDistinct}
use mathlib.Core.Option

abbrev pub name_cache_max : ℕ
name_cache_max = 50000

abbrev pub Cache : Type 0
Cache = Dict String

-- `event.get(key)`, if it is a text that is not empty
abbrev pub text_at : String → Dict Value → Option String
text_at key event = elim (get_value key event) [
  | Value.str s ↦ if is_empty s then none else some s
  | _ ↦ none
]

unfoldable pub move_to_end : String → Cache → Cache
move_to_end uuid c = elim (get uuid c) [ none ↦ c | some name ↦ remove uuid c ++ (uuid, name) ∷ [] ]

-- `while len(cache) > max: cache.popitem(last=False)`
unfoldable pub evict : ℕ → Cache → Cache
evict max [] = []
evict max (e ∷ c) = let rest = evict max c in if ltb max (suc (length c)) then rest else e ∷ c

unfoldable pub store : ℕ → String → String → Cache → Cache
unfolding move_to_end evict
store max uuid name c = evict max (put uuid name (move_to_end uuid c))

abbrev pub cache_pair : ℕ → Option String → Option String → Cache → Cache
cache_pair max (some uuid) (some name) c = store max uuid name c
cache_pair max _ _ c = c

unfoldable pub cache_name : ℕ → Dict Value → Cache → Cache
cache_name max event c = cache_pair max (text_at "uuid" event) (text_at "name" event) c

abbrev pub cached_name : Option String → String → Cache → Option String × Cache
cached_name (some name) uuid c = (some name, c)
cached_name none uuid c = (get uuid c, move_to_end uuid c)

-- The event's own name, or the cached one, whose entry is touched.
unfoldable pub resolve_name : Dict Value → Cache → Option String × Cache
unfolding move_to_end
resolve_name event c =
    cached_name (text_at "name" event) (Option.get_or (as_str (get_value "uuid" event)) "") c
