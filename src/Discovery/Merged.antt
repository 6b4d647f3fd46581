-- ===== src/Discovery/Merged.antt =====
-- Which definition of a task the merge keeps.
use Prim.Native.Nat.{Ordering}
use Prim.Native.String.{compare}
use z4j_celery.Prelude.{
  String, ◌≡◌, refl, arith, Option, none, some, List, [], ◌∷◌, ◌==◌, eq_iff, if◌then◌else◌, ap, ◌∙◌,
  Bool-cases, inl, inr,
}
use z4j_celery.Python.{Dict, get, put, get-put}
use z4j_celery.Discovery.{TaskDefinition, index, insert, sort, definitions, merge_discoveries}

-- The first definition of that name in a list.
abbrev pub find : String → List TaskDefinition → Option TaskDefinition
find n [] = none
find n (t ∷ ts) = if t.name == n then some t else find n ts

abbrev pub or_else : Option TaskDefinition → Option TaskDefinition → Option TaskDefinition
or_else (some t) other = some t
or_else none other = other

-- The last one, which a later entry of the same name replaces.
abbrev pub find_last : String → List TaskDefinition → Option TaskDefinition
find_last n [] = none
find_last n (t ∷ ts) = or_else (find_last n ts) (if t.name == n then some t else none)

get-index :
    (n : String) (ts : List TaskDefinition) (d : Dict TaskDefinition)
    → get n (index ts d) ≡ or_else (find_last n ts) (get n d)
unfolding index
get-index n [] d = refl
get-index n (t ∷ ts) d = ground (arith, get-index n ts (put t.name t d), get-put t.name n t d)

get-insert :
    (n k : String) (t : TaskDefinition) (d : Dict TaskDefinition)
    → get k d ≡ none
    → get n (insert k t d) ≡ (if k == n then some t else get n d)
unfolding insert get
get-insert n k t [] h = refl
get-insert n k t ((j, u) ∷ d) h =
    ground (arith, get-insert n k t d, eq_iff k n, eq_iff j n, eq_iff j k)

-- Each entry stands under its own name, and no name stands twice.
abbrev IsKeyed : Dict TaskDefinition → Type 0
IsKeyed [] = Unit
IsKeyed ((k, t) ∷ d) = (t.name ≡ k) × (get k d ≡ none) × IsKeyed d

IsKeyed-put : (t : TaskDefinition) (d : Dict TaskDefinition) → IsKeyed d → IsKeyed (put t.name t d)
unfolding put get
IsKeyed-put t [] h = (refl, refl, tt)
IsKeyed-put t ((j, u) ∷ d) h = elim (Bool-cases (j == t.name)) [
  | inl e ↦ rw e (ground (arith, eq_iff j t.name), h.1, h.2)
  | inr e ↦ rw e (
    h.0,
    get-put t.name j t d ∙ ground (arith, h.1, eq_iff t.name j, eq_iff j t.name),
    IsKeyed-put t d h.2,
  )
]

IsKeyed-index :
    (ts : List TaskDefinition) (d : Dict TaskDefinition) → IsKeyed d → IsKeyed (index ts d)
unfolding index
IsKeyed-index [] d h = h
IsKeyed-index (t ∷ ts) d h = IsKeyed-index ts (put t.name t d) (IsKeyed-put t d h)

get-sort : (n : String) (d : Dict TaskDefinition) → IsKeyed d → get n (sort d) ≡ get n d
unfolding sort get
get-sort n [] h = refl
get-sort n ((k, t) ∷ d) h =
    get-insert n k t (sort d) (get-sort k d h.2 ∙ h.1)
    ∙ ap (λ o. if k == n then some t else o) (get-sort n d h.2)

abbrev HasNames : Dict TaskDefinition → Type 0
HasNames [] = Unit
HasNames ((k, t) ∷ d) = (t.name ≡ k) × HasNames d

HasNames-insert :
    (k : String) (t : TaskDefinition) (d : Dict TaskDefinition)
    → t.name ≡ k
    → HasNames d
    → HasNames (insert k t d)
unfolding insert
HasNames-insert k t [] e h = (e, tt)
HasNames-insert k t ((j, u) ∷ d) e h = go (compare k j) (HasNames-insert k t d e h.1)
  where
    go :
        (o : Ordering)
        → HasNames (insert k t d)
        → HasNames (elim o [ Ordering.gt ↦ (j, u) ∷ insert k t d | _ ↦ (k, t) ∷ (j, u) ∷ d ])
    go Ordering.gt ih = (h.0, ih)
    go Ordering.lt ih = (e, h)
    go Ordering.eq ih = (e, h)

HasNames-sort : (d : Dict TaskDefinition) → IsKeyed d → HasNames (sort d)
unfolding sort
HasNames-sort [] h = tt
HasNames-sort ((k, t) ∷ d) h = HasNames-insert k t (sort d) h.0 (HasNames-sort d h.2)

find-definitions :
    (n : String) (d : Dict TaskDefinition) → HasNames d → find n (definitions d) ≡ get n d
unfolding get
find-definitions n [] h = refl
find-definitions n ((k, t) ∷ d) h =
    ap (λ m. if m == n then some t else find n (definitions d)) h.0
    ∙ ap (λ o. if k == n then some t else o) (find-definitions n d h.1)

or_else-none : (o : Option TaskDefinition) → or_else o none ≡ o
or_else-none none = refl
or_else-none (some t) = refl

-- Under each name the merge has the runtime's definition, the last one if there are several, and
-- the static one only where the runtime has none.
pub find-merge_discoveries :
    (n : String) (runtime static : List TaskDefinition)
    → find n (merge_discoveries runtime static) ≡ or_else (find_last n runtime) (find_last n static)
unfolding merge_discoveries get
find-merge_discoveries n runtime static =
    let s = index static [] in
    let d = index runtime s in
    let keyed = IsKeyed-index runtime s (IsKeyed-index static [] tt) in
    find-definitions n (sort d) (HasNames-sort d keyed)
    ∙ get-sort n d keyed
    ∙ get-index n runtime s
    ∙ ap (or_else (find_last n runtime)) (get-index n static [] ∙ or_else-none (find_last n static))
