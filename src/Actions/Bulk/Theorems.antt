-- ===== src/Actions/Bulk/Theorems.antt =====
-- What a bulk retry answers: its counts, its cap, and its circuit breaker.
use Prim.Native.Nat.{min}
use z4j_celery.Prelude.{
  ℕ, suc, ◌+◌, ◌-◌, ◌≤◌, ◌<◌, String, ◌≡◌, refl, Bool, true, false, some, List, [], ◌∷◌, arith,
  length, take, drop, ◌++◌, take-append-drop, length-drop, length-take, ap, if◌then◌else◌, ◌∙◌,
}
use z4j_celery.Prelude.Int.{ℤ, pos, negsuc, min_ℤ, ltb_ℤ}
use z4j_celery.Python.{IsDistinct, Value, int, bool, Dict, get, returned, Runtime}
use z4j_celery.Command.{succeeded}
use z4j_celery.Actions.Bulk.{
  Progress, start, selected, effective_cap, slice_to, is_capped, bulk_result, bulk_retry_action,
  rounds, hints_of,
}
use z4j_celery.Actions.Bulk.Accounting.{IsFresh, IsCounted, take-IsDistinct, run_batches-BatchesEnd}

slice_to-IsDistinct : (n : ℤ) (ids : List String) → IsDistinct ids → IsDistinct (slice_to n ids)
slice_to-IsDistinct (pos n) ids h = take-IsDistinct n ids h
slice_to-IsDistinct (negsuc n) ids h = take-IsDistinct (length ids - suc n) ids h

if-IsDistinct :
    (b : Bool) (xs ys : List String)
    → IsDistinct xs
    → IsDistinct ys
    → IsDistinct (if b then xs else ys)
if-IsDistinct true xs ys h k = h
if-IsDistinct false xs ys h k = k

pub selected-IsDistinct :
    (max : ℤ) (ids : List String) → IsDistinct ids → IsDistinct (selected max ids)
selected-IsDistinct max ids h =
    if-IsDistinct (is_capped max ids) (slice_to (effective_cap max) ids) ids
      (slice_to-IsDistinct (effective_cap max) ids h) h

pub start-IsFresh : (ids : List String) → IsFresh start ids
unfolding get
start-IsFresh [] = tt
start-IsFresh (x ∷ ids) = (refl, refl, start-IsFresh ids)

module _ (rt : Runtime) (celery_app : Value) (filter : Dict Value) (max : ℤ) (first : String)
    (more : List String) (task_priorities : Dict Value) (w : Runtime.World rt) where
  -- What the action answers, and the result dictionary that it answers with.
  abbrev pub Answers : Dict Value → Type 0
  Answers d =
      (bulk_retry_action rt celery_app filter max (first ∷ more) task_priorities w).0
      ≡ returned (succeeded d)

  abbrev pub ids : List String
  ids = selected max (first ∷ more)

  answers :
      IsDistinct (first ∷ more)
      → (p : Progress) × Answers (bulk_result filter ids (is_capped max (first ∷ more)) p)
        × IsCounted p
        × (p.processed ≤ length ids)
        × (p.broker_unhealthy ≡ false → p.processed ≡ length ids)
  unfolding bulk_retry_action
  answers distinct =
      let (p, w', e, c, le, all) =
        run_batches-BatchesEnd rt celery_app (hints_of filter task_priorities) (rounds ids) ids
          start w (omega arith) (selected-IsDistinct max (first ∷ more) distinct)
          (start-IsFresh ids) refl refl in
      (p, ground arith, c, omega arith, λ h. omega (arith, all h))

  -- With no id twice in the command, whatever the broker does: the action answers, and each
  -- selected id is counted once, as succeeded, as failed, or as skipped. None is skipped unless the
  -- circuit breaker tripped.
  pub bulk_retry-counts :
      IsDistinct (first ∷ more)
      → (d : Dict Value) × (s : ℕ) × (f : ℕ) × (k : ℕ) × Answers d
        × (get "requested" d ≡ some (int (pos (length ids))))
        × (get "succeeded" d ≡ some (int (pos s)))
        × (get "failed" d ≡ some (int (pos f)))
        × (get "skipped" d ≡ some (int (pos k)))
        × (s + f + k ≡ length ids)
        × (get "circuit_broken" d ≡ some (bool false) → k ≡ 0)
  unfolding get
  bulk_retry-counts distinct =
      let (p, e, c, le, all) = answers distinct in
      let k : ℕ = length ids - p.processed in
      (
        bulk_result filter ids (is_capped max (first ∷ more)) p,
        length p.new_task_ids,
        length p.failures,
        k,
        e,
        refl,
        refl,
        refl,
        ground arith,
        omega arith,
        λ h. ground (arith, all),
      )

-- The same at any hard cap.
clamp : ℕ → ℤ → List String → List String
clamp hard max l =
    let cap = min_ℤ max (pos hard) in if ltb_ℤ cap (pos (length l)) then slice_to cap l else l

length-clamp :
    (hard m : ℕ) (l : List String) → length (clamp hard (pos m) l) ≡ min (min m hard) (length l)
unfolding clamp
length-clamp hard m l = ground (arith, length-take m l, length-take hard l)

clamp_negative :
    (hard n : ℕ) (l : List String) → clamp hard (negsuc n) l ≡ take (length l - suc n) l
unfolding clamp
clamp_negative hard n l = ground arith

selected-eq-clamp : (max : ℤ) (l : List String) → selected max l ≡ clamp 10000 max l
unfolding clamp
selected-eq-clamp max l = refl

-- A cap that is not negative is a cap: as many ids are retried as there are, but no more than the
-- command's cap and no more than ten thousand.
pub length-selected :
    (m : ℕ) (l : List String) → length (selected (pos m) l) ≡ min (min m 10000) (length l)
length-selected m l = ap length (selected-eq-clamp (pos m) l) ∙ length-clamp 10000 m l

-- A negative cap is no cap: of a list that has more than n + 10000 ids, `ids[:-n]` drops the last n
-- and no others, and keeps more than ten thousand.
pub selected_negative :
    (n : ℕ) (l : List String)
    → 10000 + suc n < length l
    → (dropped : List String) × (selected (negsuc n) l ++ dropped ≡ l)
      × (length dropped ≡ suc n)
      × (10000 < length (selected (negsuc n) l))
selected_negative n l h =
    let kept = selected-eq-clamp (negsuc n) l ∙ clamp_negative 10000 n l in
    (
      drop (length l - suc n) l,
      ap (λ k. k ++ drop (length l - suc n) l) kept ∙ take-append-drop (length l - suc n) l,
      omega (arith, length-drop (length l - suc n) l),
      omega (arith, ap length kept ∙ length-take (length l - suc n) l),
    )
