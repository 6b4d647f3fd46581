-- ===== src/Actions/Bulk/Breaker.antt =====
-- The circuit breaker of a bulk retry, against a broker that never answers in time.
use z4j_celery.Prelude.{
  ℕ, zero, suc, ◌<◌, String, ◌≡◌, refl, true, false, Option, some, List, ◌∷◌, arith, length, take,
  drop, ap, ◌∙◌, if◌then◌else◌,
}
use z4j_celery.Prelude.Int.{ℤ, pos}
use z4j_celery.Python.{
  Value, null, int, bool, Dict, get, Outcome, returned, raised, continue, handle, Io, pure, Runtime,
}
use z4j_celery.Command.{CommandResult, succeeded}
use z4j_celery.Offload.{offload, offload_timeout, translate, indeterminate_timeout_result}
use z4j_celery.Actions.Retry.{retry_task_action, do_retry_io, retry_failed, retried, retry_timeout}
use z4j_celery.Actions.Retry.Eta.{eta_from_timestamp}
use z4j_celery.Actions.Bulk.{
  Progress, Hints, start, selected, is_capped, bulk_result, bulk_retry_action, rounds, hints_of,
  request_for, run_batch, run_batches, note, count_timeout, outcome_of,
}

module _ (rt : Runtime) (celery_app : Value) where
  open rt use {World}

  -- Every offloaded call outlives its timeout.
  abbrev pub NeverAnswers : Type 0
  NeverAnswers = (timeout : ℕ) (before after : World) → rt.outlives timeout before after ≡ true

  abbrev timed_out : CommandResult
  timed_out = retry_failed offload_timeout

  abbrev tripped : String → String → String → Progress
  tripped a b c = note c timed_out (note b timed_out (note a timed_out start))

  abbrev answered : Outcome (String × String × Option ℤ) × World → Outcome CommandResult × World
  answered (r, w) = handle r (λ x. pure (retried x)) (λ e. pure (retry_failed e)) w

  module _ (never : NeverAnswers) (hints : Hints) where
    retry_times_out :
        (tid : String) (w : World)
        → (w' : World) × (retry_task_action rt celery_app (request_for hints tid) w
            ≡ (returned timed_out, w'))
    unfolding retry_task_action eta_from_timestamp offload
    retry_times_out tid w =
        let (r, w') = do_retry_io rt celery_app (request_for hints tid) null w in
        (
          w',
          ap
              (λ b. answered (
                if◌then◌else◌ {A = Outcome (String × String × Option ℤ) × World} b
                  (raised offload_timeout, w') (translate r, w')))
              (never retry_timeout w w'),
        )

    abbrev go_on : String → List String → Progress → CommandResult → Io World Progress
    go_on tid ids p single =
        let p' = note tid single p in
        elim p'.broker_unhealthy [ true ↦ pure p' | false ↦ run_batch rt celery_app hints ids p' ]

    batch_step :
        (tid : String) (ids : List String) (p : Progress) (w : World)
        → (w' : World) × (run_batch rt celery_app hints (tid ∷ ids) p w
            ≡ go_on tid ids p timed_out w')
    unfolding run_batch
    batch_step tid ids p w =
        let (w', e) = retry_times_out tid w in
        (w', ap (λ out. let (q, u) = out in continue q (go_on tid ids p) u) e)

    batch_trips :
        (a b c : String) (ids : List String) (w : World)
        → (w' : World) × (run_batch rt celery_app hints (a ∷ b ∷ c ∷ ids) start w
            ≡ (returned (tripped a b c), w'))
    unfolding note count_timeout outcome_of get indeterminate_timeout_result
    batch_trips a b c ids w =
        let (u, d) = batch_step a (b ∷ c ∷ ids) start w in
        let (v, e) = batch_step b (c ∷ ids) (note a timed_out start) u in
        let (x, f) = batch_step c ids (note b timed_out (note a timed_out start)) v in
        (x, d ∙ e ∙ f)

    batches_stop :
        (n : ℕ) (ids : List String) (p : Progress) (w : World)
        → p.broker_unhealthy ≡ true
        → run_batches rt celery_app hints n ids p w ≡ (returned p, w)
    unfolding run_batches
    batches_stop zero ids p w h = refl
    batches_stop (suc n) ids p w h = rw h refl

    batches_trip :
        (n : ℕ) (a b c : String) (ids : List String) (w : World)
        → (run_batches rt celery_app hints (suc n) (a ∷ b ∷ c ∷ ids) start w).0
          ≡ returned (tripped a b c)
    unfolding run_batches note count_timeout outcome_of get indeterminate_timeout_result
    batches_trip n a b c ids w =
        let (u, e) = batch_trips a b c (take 97 ids) (rt.sleep w) in
        ap (λ out. (continue out.0 (run_batches rt celery_app hints n (drop 97 ids)) out.1).0) e
        ∙ ap (λ out. out.0) (batches_stop n (drop 97 ids) (tripped a b c) u refl)

  suc_of : (n : ℕ) → 0 < n → (m : ℕ) × (n ≡ suc m)
  suc_of zero h = absurd (omega arith)
  suc_of (suc m) h = (m, refl)

  -- If the broker never answers in time, a bulk retry of three ids or more asks it three times: the
  -- action answers, its circuit breaker has tripped, and all ids but three are skipped.
  pub breaker_trips :
      NeverAnswers
      → (filter : Dict Value) (max : ℤ) (first : String) (more : List String)
        (task_priorities : Dict Value) (w : World) (a b c : String) (rest : List String)
      → selected max (first ∷ more) ≡ a ∷ b ∷ c ∷ rest
      → (d : Dict Value) × ((bulk_retry_action rt celery_app filter max
            (first ∷ more)
            task_priorities
            w).0
          ≡ returned (succeeded d))
        × (get "circuit_broken" d ≡ some (bool true))
        × (get "skipped" d ≡ some (int (pos (length rest))))
  unfolding bulk_retry_action get note count_timeout outcome_of indeterminate_timeout_result
  breaker_trips never filter max first more task_priorities w a b c rest h =
      let hints = hints_of filter task_priorities in
      let (n, e) = suc_of (rounds (a ∷ b ∷ c ∷ rest)) (omega arith) in
      let p = tripped a b c in
      let capped = is_capped max (first ∷ more) in
      let answer : List String → Outcome Progress → World → Outcome CommandResult =
        λ l. λ r. λ u. (continue r (λ q. pure (succeeded (bulk_result filter l capped q))) u).0 in
      let run : List String → ℕ → Outcome Progress × World =
        λ l. λ m. run_batches rt celery_app hints m l start w in
      let ids = a ∷ b ∷ c ∷ rest in
      (
        bulk_result filter (a ∷ b ∷ c ∷ rest) (is_capped max (first ∷ more)) p,
        ap (λ l. answer l (run l (rounds l)).0 (run l (rounds l)).1) h
            ∙ ap (λ m. answer ids (run ids m).0 (run ids m).1) e
            ∙ ap (λ r. answer ids r (run ids (suc n)).1) (batches_trip never hints n a b c rest w),
        refl,
        ground arith,
      )
