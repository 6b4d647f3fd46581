-- ===== src/Events/Broker/NameCache/Entries.antt =====
-- The entries of the cache of names, their ids and their number.
use z4j_celery.Prelude.{
  ℕ, suc, ◌+◌, ◌≤◌, ◌≡◌, ◌≢◌, refl, inl, inr, arith, String, none, some, [], ◌∷◌, ◌++◌, length, ltb,
  eq_iff, ◌==◌, eq_refl, Bool-cases,
}
use z4j_celery.Python.{get, put, remove, keys, IsAbsent, IsDistinct}
use z4j_celery.Events.Broker.NameCache.{Cache, evict, move_to_end}

pub length-evict : (max : ℕ) (c : Cache) → length (evict max c) ≤ max
unfolding evict
length-evict max [] = omega arith
length-evict max (e ∷ c) = ground (arith, length-evict max c)

pub evict_small : (max : ℕ) (c : Cache) → length c ≤ max → evict max c ≡ c
unfolding evict
evict_small max [] h = refl
evict_small max (e ∷ c) h = ground arith

pub put_absent : (k v : String) (c : Cache) → get k c ≡ none → put k v c ≡ c ++ (k, v) ∷ []
unfolding get put
put_absent k v [] h = refl
put_absent k v ((j, w) ∷ c) h = ground (arith, put_absent k v c)

pub put_last :
    (k v w : String) (c : Cache) → get k c ≡ none → put k v (c ++ (k, w) ∷ []) ≡ c ++ (k, v) ∷ []
unfolding get put
put_last k v w [] h = ground (arith, eq_refl k)
put_last k v w ((j, x) ∷ c) h = ground (arith, put_last k v w c)

pub get_of_absent : (k : String) (c : Cache) → IsAbsent k (keys c) → get k c ≡ none
unfolding get
get_of_absent k [] h = refl
get_of_absent k ((j, w) ∷ c) h = ground (arith, get_of_absent k c h.1, eq_iff j k)

pub get-remove_self : (k : String) (c : Cache) → IsDistinct (keys c) → get k (remove k c) ≡ none
unfolding get remove
get-remove_self k [] h = refl
get-remove_self k ((j, w) ∷ c) h =
    ground (arith, get-remove_self k c h.1, eq_iff j k, get_of_absent j c h.0)

pub length-remove :
    (k v : String) (c : Cache) → get k c ≡ some v → length (remove k c) + 1 ≡ length c
unfolding get remove
length-remove k v [] h = cc
length-remove k v ((j, w) ∷ c) h = ground (arith, length-remove k v c)

-- At most `max` entries, under different ids.
pub record IsWellFormed (max : ℕ) (c : Cache) : Type 0 where
  pub distinct : IsDistinct (keys c)
  pub bounded : length c ≤ max

pub IsAbsent-append :
    (k j v : String) (c : Cache)
    → IsAbsent k (keys c)
    → k ≢ j
    → IsAbsent k (keys (c ++ (j, v) ∷ []))
IsAbsent-append k j v [] h ne = (ne, tt)
IsAbsent-append k j v ((i, w) ∷ c) h ne = (h.0, IsAbsent-append k j v c h.1 ne)

pub IsAbsent-remove :
    (k j : String) (c : Cache) → IsAbsent k (keys c) → IsAbsent k (keys (remove j c))
unfolding remove
IsAbsent-remove k j [] h = h
IsAbsent-remove k j ((i, w) ∷ c) h = elim (Bool-cases (i == j)) [
  | inl e ↦ rw e h.1
  | inr e ↦ rw e (h.0, IsAbsent-remove k j c h.1)
]

pub IsDistinct-remove :
    (j : String) (c : Cache) → IsDistinct (keys c) → IsDistinct (keys (remove j c))
unfolding remove
IsDistinct-remove j [] h = h
IsDistinct-remove j ((i, w) ∷ c) h = elim (Bool-cases (i == j)) [
  | inl e ↦ rw e h.1
  | inr e ↦ rw e (IsAbsent-remove i j c h.0, IsDistinct-remove j c h.1)
]

pub IsDistinct-append :
    (j v : String) (c : Cache)
    → IsDistinct (keys c)
    → get j c ≡ none
    → IsDistinct (keys (c ++ (j, v) ∷ []))
unfolding get
IsDistinct-append j v [] h e = (tt, tt)
IsDistinct-append j v ((i, w) ∷ c) h e = (
  IsAbsent-append i j v c h.0 (ground (arith, eq_iff i j)),
  IsDistinct-append j v c h.1 (ground arith),
)

pub IsDistinct-evict : (max : ℕ) (c : Cache) → IsDistinct (keys c) → IsDistinct (keys (evict max c))
unfolding evict
IsDistinct-evict max [] h = h
IsDistinct-evict max (e ∷ c) h = elim (Bool-cases (ltb max (suc (length c)))) [
  | inl t ↦ rw t (IsDistinct-evict max c h.1)
  | inr f ↦ rw f h
]

pub move_absent : (k : String) (c : Cache) → get k c ≡ none → move_to_end k c ≡ c
unfolding move_to_end
move_absent k c h = ground (arith, h)

pub move_present :
    (k v : String) (c : Cache) → get k c ≡ some v → move_to_end k c ≡ remove k c ++ (k, v) ∷ []
unfolding move_to_end
move_present k v c h = ground (arith, h)
