-- ===== src/Actions/Bulk/Publishes.antt =====
-- The answer of a bulk retry, and what it has published.
use z4j_celery.Prelude.{ℕ, ◌+◌, String, ◌≡◌, refl, arith, List, [], ◌∷◌, length, sym, some, ap}
use z4j_celery.Prelude.Int.{ℤ, pos}
use z4j_celery.Python.{
  Value, int, Dict, Outcome, raised, continue, pure, IsDistinct, get, returned, Runtime, All,
}
use z4j_celery.Command.{CommandResult, succeeded}
use z4j_celery.Actions.Retry.Asked.{Publication}
use z4j_celery.Actions.Retry.Asks.{Logged}
use z4j_celery.Actions.Bulk.{
  Progress, start, selected, is_capped, bulk_result, bulk_retry_action, rounds, hints_of,
  run_batches,
}
use z4j_celery.Actions.Bulk.Accounting.{IsCounted, run_batches-BatchesEnd}
use z4j_celery.Actions.Bulk.Theorems.{Answers, selected-IsDistinct, start-IsFresh}
use z4j_celery.Actions.Bulk.Asks.{Resends, Sent, Kept, run_batches-Kept}
use mathlib.Core.List.{Memᴰ, append-nil}

among : (ids xs : List String) → ((t : String) → Memᴰ t xs → Memᴰ t ids) → All (λ t. Memᴰ t ids) xs
among ids [] h = tt
among ids (x ∷ xs) h = (h x (Memᴰ.head refl), among ids xs (λ t m. h t (Memᴰ.tail m)))

module _ (rt : Runtime) (celery_app : Value) (log : Runtime.World rt → List Publication)
    (logged : Logged rt celery_app log) (sleeps : (w : Runtime.World rt) → log (rt.sleep w) ≡ log w)
    (filter : Dict Value) (max : ℤ) (first : String) (more : List String)
    (task_priorities : Dict Value) (w : Runtime.World rt) where
  open rt use {World}

  abbrev pub IsSelected : String → Type 0
  IsSelected tid = Memᴰ tid (selected max (first ∷ more))

  start-Sent : Sent rt celery_app (hints_of filter task_priorities) IsSelected (log w) start (log w)
  start-Sent = record {
    published = [];
    order = sym (append-nil (log w));
    lower = omega arith;
    upper = omega arith;
    asked = tt;
  }

  abbrev Resent : World → ℕ → ℕ → Type 0
  Resent u least most =
      Resends rt celery_app (hints_of filter task_priorities) IsSelected (log w) (log u) least most

  -- What the loop leaves, for the counts of the answer.
  counted_end :
      (o : Outcome Progress × World) (p : Progress) (u : World) (f : Progress → CommandResult)
      → o ≡ (returned p, u)
      → IsCounted p
      → Kept rt celery_app (hints_of filter task_priorities) IsSelected log logged sleeps (log w) o
      → Resent
          (continue o.0 (λ p'. pure (f p')) o.1).1
          (length p.new_task_ids)
          (length p.new_task_ids + length p.failures)
  counted_end (raised x, v) p u f e c k = absurd (cc)
  counted_end (returned p', v) p u f e c k = counted p' v (cc) k
    where
      counted :
          (p' : Progress) (v : World)
          → p ≡ p'
          → Sent rt celery_app (hints_of filter task_priorities) IsSelected (log w) p' (log v)
          → Resent v (length p.new_task_ids) (length p.new_task_ids + length p.failures)
      counted p' v e k = record {
        published = k.published;
        order = k.order;
        lower = rw e k.lower;
        upper = omega (arith, k.upper, c, ap (λ q. q.processed) e);
        asked = k.asked;
      }

  -- With no id twice in the command, and a log as for a single retry, that waiting does not change: a
  -- bulk retry answers; it has published at least as often as it counts ids as succeeded, and at most
  -- as often as it counts ids as succeeded or failed; and each publish is one that the retry of a
  -- selected id asks for.
  pub bulk_retry_asks :
      IsDistinct (first ∷ more)
      → (d : Dict Value) × (s : ℕ) × (f : ℕ) × Answers rt celery_app filter max first more
          task_priorities w d
        × (get "succeeded" d ≡ some (int (pos s)))
        × (get "failed" d ≡ some (int (pos f)))
        × Resends rt celery_app
            (hints_of filter task_priorities)
            IsSelected
            (log w)
            (log (bulk_retry_action rt celery_app filter max (first ∷ more) task_priorities w).1)
            s
            (s + f)
  unfolding get bulk_retry_action
  bulk_retry_asks distinct =
      let ids = selected max (first ∷ more) in
      let hints = hints_of filter task_priorities in
      let (p, w', e, c, le, all) =
        run_batches-BatchesEnd rt celery_app hints (rounds ids) ids start w (omega arith)
          (selected-IsDistinct max (first ∷ more) distinct) (start-IsFresh ids) refl refl in
      let kept =
        run_batches-Kept rt celery_app hints IsSelected log logged sleeps (log w) (rounds ids) ids
          start w (among ids ids (λ t m. m)) start-Sent in
      (
        bulk_result filter ids (is_capped max (first ∷ more)) p,
        length p.new_task_ids,
        length p.failures,
        ground arith,
        refl,
        refl,
        counted_end (run_batches rt celery_app hints (rounds ids) ids start w) p w'
            (λ q. succeeded (bulk_result filter ids (is_capped max (first ∷ more)) q)) e c kept,
      )
