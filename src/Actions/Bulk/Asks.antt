-- ===== src/Actions/Bulk/Asks.antt =====
-- What a bulk retry publishes.
use z4j_celery.Prelude.{
  ℕ, zero, suc, ◌+◌, ◌≤◌, String, ◌≡◌, ◌⊎◌, refl, Bool, true, false, Option, none, some, List, [],
  ◌∷◌, ◌++◌, arith, length, take, drop, length-append, sym, ap, subst, inl, inr, ◌∙◌,
}
use z4j_celery.Prelude.Int.{ℤ}
use z4j_celery.Python.{
  Value, pure, ◌>>=◌, Dict, put, Outcome, returned, raised, Io, Runtime, OneMore, All, All-snoc,
  continue, pure, ◌>>=◌,
}
use z4j_celery.Command.{CommandResult, failed}
use z4j_celery.Offload.Publishing.{Settled}
use z4j_celery.Actions.Retry.{retry_task_action}
use z4j_celery.Actions.Retry.Asked.{Publication, AsksFor}
use z4j_celery.Actions.Retry.Asks.{Logged, retry_asks}
use z4j_celery.Actions.Bulk.{
  Progress, note, put_outcome, outcome_of, Hints, run_batch, run_batches, request_for,
}
use mathlib.Core.List.{append_assoc}

All-take : {A : Type 0} (P : A → Type 0) (n : ℕ) (xs : List A) → All P xs → All P (take n xs)
All-take P zero xs h = tt
All-take P (suc n) [] h = tt
All-take P (suc n) (x ∷ xs) h = (h.0, All-take P n xs h.1)

All-drop : {A : Type 0} (P : A → Type 0) (n : ℕ) (xs : List A) → All P xs → All P (drop n xs)
All-drop P zero xs h = h
All-drop P (suc n) [] h = tt
All-drop P (suc n) (x ∷ xs) h = All-drop P n xs h.1

module _ (rt : Runtime) (celery_app : Value) (hints : Hints) (S : String → Type 0) where
  open rt use {World, sleep}

  -- The publish of a retry of one of the ids, which began at some time.
  pub record IsResent (q : Publication) : Type 0 where
    pub tid : String
    pub is_selected : S tid
    pub current : ℤ
    pub asks : AsksFor rt celery_app (request_for hints tid) current q

  -- What has been published since `before`, and how much of it at least and at most.
  pub record Resends (before after : List Publication) (least most : ℕ) : Type 0 where
    pub published : List Publication
    pub order : after ≡ before ++ published
    pub lower : least ≤ length published
    pub upper : length published ≤ most
    pub asked : All IsResent published

  abbrev pub Sent : List Publication → Progress → List Publication → Type 0
  Sent before p after = Resends before after (length p.new_task_ids) p.processed

  length-put : (k v : String) (d : Dict String) → length (put k v d) ≤ length d + 1
  unfolding put
  length-put k v [] = omega arith
  length-put k v ((j, w) ∷ d) = ground (arith, length-put k v d)

  length-put_outcome :
      (tid : String) (o : Option String × String) (p : Progress)
      → length (put_outcome tid o p).new_task_ids ≤ length p.new_task_ids + 1
  length-put_outcome tid (none, why) p = omega arith
  length-put_outcome tid (some id, why) p = length-put tid id p.new_task_ids

  processed-put_outcome :
      (tid : String) (o : Option String × String) (p : Progress)
      → (put_outcome tid o p).processed ≡ p.processed
  processed-put_outcome tid (none, why) p = refl
  processed-put_outcome tid (some id, why) p = refl

  -- A failure gives no new id.
  failed_note :
      (tid : String) (single : CommandResult) (p : Progress)
      → single.status ≡ failed
      → length (note tid single p).new_task_ids ≡ length p.new_task_ids
  unfolding note outcome_of
  failed_note tid single p h = ground (arith, h)

  note-Sent :
      (before now after : List Publication) (tid : String) (single : CommandResult) (p : Progress)
      (current : ℤ)
      → S tid
      → Sent before p now
      → OneMore (AsksFor rt celery_app (request_for hints tid) current) now after
        ⊎ ((single.status ≡ failed) × (after ≡ now))
      → Sent before (note tid single p) after
  unfolding note
  note-Sent before now after tid single p current h s (inl one) = record {
    published = s.published ++ one.published ∷ [];
    order =
        one.order
        ∙ ap (λ l. l ++ one.published ∷ []) s.order
        ∙ append_assoc before s.published (one.published ∷ []);
    lower = omega (
      arith,
      s.lower,
      length-append s.published (one.published ∷ []),
      length-put_outcome tid (outcome_of single) p,
    );
    upper = omega (
      arith,
      s.upper,
      length-append s.published (one.published ∷ []),
      processed-put_outcome tid (outcome_of single) p,
    );
    asked =
        All-snoc IsResent s.published one.published s.asked
          (record { tid = tid; is_selected = h; current = current; asks = one.is_asked });
  }
  note-Sent before now after tid single p current h s (inr (fails, same)) = record {
    published = s.published;
    order = same ∙ s.order;
    lower = omega (arith, s.lower, failed_note tid single p fails);
    upper = omega (arith, s.upper, processed-put_outcome tid (outcome_of single) p);
    asked = s.asked;
  }

  module _ (log : World → List Publication) (logged : Logged rt celery_app log)
      (sleeps : (w : World) → log (sleep w) ≡ log w) (before : List Publication) where
    abbrev pub Kept : Outcome Progress × World → Type 0
    Kept (returned p, w) = Sent before p (log w)
    Kept (raised e, w) = Unit

    run_batch-Kept :
        (ids : List String) (p : Progress) (w : World)
        → All S ids
        → Sent before p (log w)
        → Kept (run_batch rt celery_app hints ids p w)
    unfolding run_batch
    run_batch-Kept [] p w h s = s
    run_batch-Kept (tid ∷ ids) p w h s =
        answered (retry_task_action rt celery_app (request_for hints tid) w).0
          (λ p' s'.
            run_batch-Kept ids p' (retry_task_action rt celery_app (request_for hints tid) w).1 h.1
              s')
          (retry_asks rt celery_app log logged (request_for hints tid) w)
      where
        u : World
        u = (retry_task_action rt celery_app (request_for hints tid) w).1

        MoreIsKept : Type 0
        MoreIsKept =
            (p' : Progress) → Sent before p' (log u) → Kept (run_batch rt celery_app hints ids p' u)

        go_on :
            (b : Bool) (p' : Progress)
            → MoreIsKept
            → Sent before p' (log u)
            → Kept (
                (elim b as (λ _. Io World Progress) [
                  | true ↦ pure p'
                  | false ↦ run_batch rt celery_app hints ids p'
                ])
                  u)
        go_on true p' more s' = s'
        go_on false p' more s' = more p' s'

        answered :
            (r : Outcome CommandResult)
            → MoreIsKept
            → Settled rt log
                (AsksFor rt celery_app (request_for hints tid) (rt.now w))
                r
                (log w)
                (log u)
            → Kept (
                continue r
                  (λ single.
                    let p' = note tid single p in
                    elim p'.broker_unhealthy as (λ _. Io World Progress) [
                      | true ↦ pure p'
                      | false ↦ run_batch rt celery_app hints ids p'
                    ])
                  u)
        answered (returned single) more o =
            go_on (note tid single p).broker_unhealthy (note tid single p) more
              (note-Sent before (log w) (log u) tid single p (rt.now w) h.0 s o)
        answered (raised e) more o = tt

    pub run_batches-Kept :
        (n : ℕ) (ids : List String) (p : Progress) (w : World)
        → All S ids
        → Sent before p (log w)
        → Kept (run_batches rt celery_app hints n ids p w)
    unfolding run_batches
    run_batches-Kept zero ids p w h s = s
    run_batches-Kept (suc n) ids p w h s =
        go_on p.broker_unhealthy
          (λ p' u k. run_batches-Kept n (drop 100 ids) p' u (All-drop S 100 ids h) k)
      where
        MoreAreKept : Type 0
        MoreAreKept =
            (p' : Progress) (u : World)
            → Sent before p' (log u)
            → Kept (run_batches rt celery_app hints n (drop 100 ids) p' u)

        rest :
            MoreAreKept
            → (o : Outcome Progress × World) → Kept o
            → Kept (continue o.0 (run_batches rt celery_app hints n (drop 100 ids)) o.1)
        rest more (returned p', u) k = more p' u k
        rest more (raised e, u) k = tt

        go_on :
            (b : Bool)
            → MoreAreKept
            → Kept (
                (elim b as (λ _. Io World Progress) [
                  | true ↦ pure p
                  | false ↦ λ v.
                      (run_batch rt celery_app hints (take 100 ids) p
                          >>= run_batches rt celery_app hints n (drop 100 ids))
                        (sleep v)
                ])
                  w)
        go_on true more = s
        go_on false more = rest more (run_batch rt celery_app hints (take 100 ids) p (sleep w)) (
            run_batch-Kept (take 100 ids) p (sleep w) (All-take S 100 ids h)
              (subst (Sent before p) (sym (sleeps w)) s))
