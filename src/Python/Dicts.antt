-- ===== src/Python/Dicts.antt =====
-- A `dict` with text keys, in insertion order.
use z4j_celery.Prelude.{
  String, Bool, false, ◌||◌, eq_refl, ◌+◌, ◌≡◌, ◌≢◌, refl, length, Bool, Option, none, some, List,
  [], ◌∷◌, arith, ◌==◌, eq_iff, if◌then◌else◌,
}

abbrev pub Dict {ℓ} : Type ℓ → Type ℓ
Dict V = List (String × V)

module _ {ℓ} {V : Type ℓ} where
  -- `d.get(k)`
  unfoldable pub get : String → Dict V → Option V
  get k [] = none
  get k ((j, v) ∷ d) = if j == k then some v else get k d

  -- `d[k] = v`: a key that is there keeps its place.
  unfoldable pub put : String → V → Dict V → Dict V
  put k v [] = (k, v) ∷ []
  put k v ((j, w) ∷ d) = if j == k then (j, v) ∷ d else (j, w) ∷ put k v d

  -- `d.pop(k, None)`
  unfoldable pub remove : String → Dict V → Dict V
  remove k [] = []
  remove k ((j, v) ∷ d) = if j == k then d else (j, v) ∷ remove k d

  -- `{**d, **e}` and `d.update(e)`
  unfoldable pub update : Dict V → Dict V → Dict V
  unfolding put
  update d [] = d
  update d ((k, v) ∷ e) = update (put k v d) e

  -- `{k: v for k, v in d.items() if keep(k)}`
  unfoldable pub keep_keys : (String → Bool) → Dict V → Dict V
  keep_keys keep [] = []
  keep_keys keep ((k, v) ∷ d) =
      let rest = keep_keys keep d in if keep k then (k, v) ∷ rest else rest

  pub get-put :
      (k j : String) (v : V) (d : Dict V) → get j (put k v d) ≡ (if k == j then some v else get j d)
  unfolding get put
  get-put k j v [] = refl
  get-put k j v ((i, w) ∷ d) = ground (arith, eq_iff k j, eq_iff i k, eq_iff i j, get-put k j v d)

  pub get-keep_keys :
      (keep : String → Bool) (k : String) (d : Dict V)
      → get k (keep_keys keep d) ≡ (if keep k then get k d else none)
  unfolding get keep_keys
  get-keep_keys keep k [] = ground arith
  get-keep_keys keep k ((i, w) ∷ d) = ground (arith, eq_iff i k, get-keep_keys keep k d)

  pub get-put_ne : (k j : String) (v : V) (d : Dict V) → k ≢ j → get j (put k v d) ≡ get j d
  get-put_ne k j v d h = ground (arith, get-put k j v d, eq_iff k j)

  pub length-put_new :
      (k : String) (v : V) (d : Dict V) → get k d ≡ none → length (put k v d) ≡ length d + 1
  unfolding get put
  length-put_new k v [] h = refl
  length-put_new k v ((j, w) ∷ d) h = ground (arith, length-put_new k v d)

  pub get-put_self : (k : String) (v : V) (d : Dict V) → get k (put k v d) ≡ some v
  get-put_self k v d = rw (get-put k k v d, eq_refl k)

  -- `list(d)`
  abbrev pub keys : Dict V → List String
  keys [] = []
  keys ((k, v) ∷ d) = k ∷ keys d

  pub get-update_absent :
      (k : String) (d e : Dict V) → get k e ≡ none → get k (update d e) ≡ get k d
  unfolding get update
  get-update_absent k d [] h = refl
  get-update_absent k d ((j, v) ∷ e) h =
      ground (arith, eq_iff j k, get-update_absent k (put j v d) e, get-put j k v d)

-- `x in xs`
abbrev pub member : String → List String → Bool
member x [] = false
member x (y ∷ ys) = x == y || member x ys

-- No text stands in the list twice.
abbrev pub IsAbsent : String → List String → Type 0
IsAbsent k [] = Unit
IsAbsent k (x ∷ xs) = (k ≢ x) × IsAbsent k xs

abbrev pub IsDistinct : List String → Type 0
IsDistinct [] = Unit
IsDistinct (x ∷ xs) = IsAbsent x xs × IsDistinct xs
