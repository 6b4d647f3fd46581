-- ===== src/Actions/Bulk/Accounting.antt =====
-- How a bulk retry counts its ids.
use z4j_celery.Prelude.{
  ℕ, zero, suc, ◌+◌, ◌*◌, ◌≤◌, String, ◌≡◌, ◌⊎◌, refl, true, false, Option, none, some, List, [],
  ◌∷◌, ◌++◌, arith, Bool-cases, length, take, drop, take-append-drop, length-append, length-drop,
  sym, ap, inl, inr, ◌∙◌,
}
use z4j_celery.Python.{
  IsAbsent, IsDistinct, get, get-put_ne, length-put_new, returned, Runtime, Value,
}
use mathlib.Core.Path.{subst}
use z4j_celery.Command.{CommandResult}
use z4j_celery.Actions.Bulk.{
  Progress, note, put_outcome, outcome_of, Hints, run_batch, run_batches, request_for,
}
use z4j_celery.Actions.Retry.{retry_task_action}
use z4j_celery.Actions.Retry.Answers.{retry_answers}

pub take-IsAbsent : (k : String) (n : ℕ) (xs : List String) → IsAbsent k xs → IsAbsent k (take n xs)
take-IsAbsent k zero xs h = tt
take-IsAbsent k (suc n) [] h = tt
take-IsAbsent k (suc n) (x ∷ xs) h = (h.0, take-IsAbsent k n xs h.1)

pub take-IsDistinct : (n : ℕ) (xs : List String) → IsDistinct xs → IsDistinct (take n xs)
take-IsDistinct zero xs h = tt
take-IsDistinct (suc n) [] h = tt
take-IsDistinct (suc n) (x ∷ xs) h = (take-IsAbsent x n xs h.0, take-IsDistinct n xs h.1)

-- None of these ids has been answered yet.
abbrev pub IsFresh : Progress → List String → Type 0
IsFresh p [] = Unit
IsFresh p (x ∷ xs) = (get x p.new_task_ids ≡ none) × (get x p.failures ≡ none) × IsFresh p xs

abbrev pub IsCounted : Progress → Type 0
IsCounted p = length p.new_task_ids + length p.failures ≡ p.processed

-- The answer to one new id is counted once, and touches no other id.
put_outcome-IsCounted :
    (tid : String) (o : Option String × String) (p : Progress)
    → get tid p.new_task_ids ≡ none
    → get tid p.failures ≡ none
    → length (put_outcome tid o p).new_task_ids + length (put_outcome tid o p).failures
      ≡ length p.new_task_ids + length p.failures + 1
put_outcome-IsCounted tid (none, why) p a b = omega (arith, length-put_new tid why p.failures b)
put_outcome-IsCounted tid (some id, why) p a b =
    omega (arith, length-put_new tid id p.new_task_ids a)

put_outcome-IsFresh :
    (tid : String) (o : Option String × String) (p : Progress) (xs : List String)
    → IsAbsent tid xs
    → IsFresh p xs
    → IsFresh (put_outcome tid o p) xs
put_outcome-IsFresh tid o p [] a h = tt
put_outcome-IsFresh tid (none, why) p (x ∷ xs) a h = (
  h.0,
  get-put_ne tid x why p.failures a.0 ∙ h.1,
  put_outcome-IsFresh tid (none, why) p xs a.1 h.2,
)
put_outcome-IsFresh tid (some id, why) p (x ∷ xs) a h = (
  get-put_ne tid x id p.new_task_ids a.0 ∙ h.0,
  h.1,
  put_outcome-IsFresh tid (some id, why) p xs a.1 h.2,
)

-- Freshness reads the two dictionaries only.
IsFresh-note :
    (tid : String) (single : CommandResult) (p : Progress) (xs : List String)
    → IsFresh (put_outcome tid (outcome_of single) p) xs
    → IsFresh (note tid single p) xs
unfolding note
IsFresh-note tid single p [] h = tt
IsFresh-note tid single p (x ∷ xs) h = (h.0, h.1, IsFresh-note tid single p xs h.2)

note-IsCounted :
    (tid : String) (single : CommandResult) (p : Progress)
    → get tid p.new_task_ids ≡ none
    → get tid p.failures ≡ none
    → IsCounted p
    → IsCounted (note tid single p)
unfolding note
note-IsCounted tid single p a b h =
    omega (arith, put_outcome-IsCounted tid (outcome_of single) p a b)

note-IsFresh :
    (tid : String) (single : CommandResult) (p : Progress) (xs : List String)
    → IsAbsent tid xs
    → IsFresh p xs
    → IsFresh (note tid single p) xs
note-IsFresh tid single p xs a h =
    IsFresh-note tid single p xs (put_outcome-IsFresh tid (outcome_of single) p xs a h)

-- Where a run over `n` ids has got to: it broke off, or went through all of them and left the
-- ids `ys` unanswered.
abbrev pub Ended : Progress → ℕ → List String → Progress → Type 0
Ended p n ys p' =
    ((p'.broker_unhealthy ≡ true) × (p'.processed ≤ p.processed + n))
    ⊎ ((p'.broker_unhealthy ≡ false)
        × (p'.processed ≡ p.processed + n)
        × IsFresh p' ys
        × IsDistinct ys)

module _ (rt : Runtime) (celery_app : Value) (hints : Hints) where
  open rt use {World, sleep}

  abbrev pub BatchEnds : List String → List String → Progress → World → Type 0
  BatchEnds xs ys p w =
      (p' : Progress) × (w' : World) × (run_batch rt celery_app hints xs p w ≡ (returned p', w'))
      × IsCounted p'
      × Ended p (length xs) ys p'

  module _ (tid : String) (xs : List String) (p : Progress) (w : World) {w' : World}
      {single : CommandResult}
      (e : retry_task_action rt celery_app (request_for hints tid) w ≡ (returned single, w')) where
    run_batch_breaks :
        (note tid single p).broker_unhealthy ≡ true
        → run_batch rt celery_app hints (tid ∷ xs) p w ≡ (returned (note tid single p), w')
    unfolding run_batch
    run_batch_breaks h = ground arith

    run_batch_goes_on :
        (note tid single p).broker_unhealthy ≡ false
        → run_batch rt celery_app hints (tid ∷ xs) p w
          ≡ run_batch rt celery_app hints xs (note tid single p) w'
    unfolding run_batch
    run_batch_goes_on h = ground arith

  run_batch-BatchEnds :
      (xs ys : List String) (p : Progress) (w : World)
      → IsDistinct (xs ++ ys)
      → IsFresh p (xs ++ ys)
      → IsCounted p
      → p.broker_unhealthy ≡ false
      → BatchEnds xs ys p w
  run_batch-BatchEnds [] ys p w d f c h =
      unfold run_batch in (p, w, refl, c, inr (h, omega arith, f, d))
  run_batch-BatchEnds (tid ∷ xs) ys p w d f c h =
      let (single, w', e) = retry_answers rt celery_app (request_for hints tid) w in
      let p' : Progress = note tid single p in
      let c' : IsCounted p' = note-IsCounted tid single p f.0 f.1 c in
      let one : p'.processed ≡ p.processed + 1 = unfold note in refl in
      elim (Bool-cases p'.broker_unhealthy) [
        | inl broke ↦ (p', w', run_batch_breaks tid xs p w e broke, c', inl (broke, omega arith))
        | inr well ↦
            let fresh = note-IsFresh tid single p (xs ++ ys) d.0 f.2 in
            let (p'', w'', e'', c'', end) = run_batch-BatchEnds xs ys p' w' d.1 fresh c' well in
            (p'', w'', run_batch_goes_on tid xs p w e well ∙ e'', c'', ground arith)
      ]

  abbrev pub BatchesEnd : List String → Progress → World → ℕ → Type 0
  BatchesEnd ids p w n =
      (p' : Progress) × (w' : World) × (run_batches rt celery_app hints n ids p w
        ≡ (returned p', w'))
      × IsCounted p'
      × (p'.processed ≤ p.processed + length ids)
      × (p'.broker_unhealthy ≡ false → p'.processed ≡ p.processed + length ids)

  run_batches_stops :
      (n : ℕ) (ids : List String) (p : Progress) (w : World)
      → p.broker_unhealthy ≡ true
      → run_batches rt celery_app hints n ids p w ≡ (returned p, w)
  unfolding run_batches
  run_batches_stops zero ids p w h = refl
  run_batches_stops (suc n) ids p w h = ground arith

  module _ (n : ℕ) (ids : List String) (p : Progress) (w : World) where
    run_batches_goes_on :
        {p' : Progress} {w' : World}
        → p.broker_unhealthy ≡ false
        → run_batch rt celery_app hints (take 100 ids) p (sleep w) ≡ (returned p', w')
        → run_batches rt celery_app hints (suc n) ids p w
          ≡ run_batches rt celery_app hints n (drop 100 ids) p' w'
    unfolding run_batches
    run_batches_goes_on h e = ground arith

  pub run_batches-BatchesEnd :
      (n : ℕ) (ids : List String) (p : Progress) (w : World)
      → length ids ≤ n * 100
      → IsDistinct ids
      → IsFresh p ids
      → IsCounted p
      → p.broker_unhealthy ≡ false
      → BatchesEnd ids p w n
  run_batches-BatchesEnd zero [] p w l d f c h =
      unfold run_batches in (p, w, refl, c, omega arith, λ _. omega arith)
  run_batches-BatchesEnd zero (x ∷ ids) p w l d f c h = absurd (omega arith)
  run_batches-BatchesEnd (suc n) ids p w l d f c h =
      let split = take-append-drop 100 ids in
      let (p', w', e, c', end) =
        run_batch-BatchEnds (take 100 ids) (drop 100 ids) p (sleep w)
          (subst IsDistinct (sym split) d) (subst (IsFresh p) (sym split) f) c h in
      let go = run_batches_goes_on n ids p w h e in
      let sizes : length ids ≡ length (take 100 ids) + length (drop 100 ids) =
        ap length (sym split) ∙ length-append (take 100 ids) (drop 100 ids) in
      elim end [
        | inl (broke, le) ↦ (
          p',
          w',
          go ∙ run_batches_stops n (drop 100 ids) p' w' broke,
          c',
          omega arith,
          λ well. absurd (cc),
        )
        | inr (well, all, fresh, distinct) ↦
            let (p'', w'', e'', c'', le, same) =
              run_batches-BatchesEnd n (drop 100 ids) p' w' (omega (arith, length-drop 100 ids))
                distinct fresh c' well in
            (p'', w'', go ∙ e'', c'', omega arith, λ h'. omega (arith, same h'))
      ]
