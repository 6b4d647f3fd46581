-- ===== src/Events/Broker/NameCache/Recency.antt =====
-- What is in the cache of names once a name has been stored.
use z4j_celery.Prelude.{ℕ, ◌≡◌, ap, ◌∙◌, arith, String, none, some, [], ◌∷◌, ◌++◌, length-append}
use z4j_celery.Python.{get, put, remove}
use z4j_celery.Events.Broker.NameCache.{Cache, store, evict}
use z4j_celery.Events.Broker.NameCache.Entries.{
  IsWellFormed, evict_small, put_absent, put_last, get-remove_self, length-remove, move_absent,
  move_present,
}

-- In a well-formed cache, an id that it has becomes the most recent one, with its new name, and
-- nothing is dropped.
pub store_again :
    (max : ℕ) (uuid name old : String) (c : Cache)
    → IsWellFormed max c
    → get uuid c ≡ some old
    → store max uuid name c ≡ remove uuid c ++ (uuid, name) ∷ []
unfolding store
store_again max uuid name old c wf h =
    ap (λ d. evict max (put uuid name d)) (move_present uuid old c h)
    ∙ ap (evict max) (put_last uuid name old (remove uuid c) (get-remove_self uuid c wf.distinct))
    ∙ evict_small max (remove uuid c ++ (uuid, name) ∷ []) (
        ground (
          arith,
          length-append (remove uuid c) ((uuid, name) ∷ []),
          length-remove uuid old c h,
          wf.bounded,
        ))

pub store_absent :
    (max : ℕ) (uuid name : String) (c : Cache)
    → get uuid c ≡ none
    → store max uuid name c ≡ evict max (c ++ (uuid, name) ∷ [])
unfolding store
store_absent max uuid name c h =
    ap (λ d. evict max (put uuid name d)) (move_absent uuid c h)
    ∙ ap (evict max) (put_absent uuid name c h)
