-- ===== src/Engine/EventQueue/Window.antt =====
-- What the queue promises, without its counter, its lock and its retries: a window over the last
-- events. The adapter refines it.
use Prim.Native.Nat.{min}
use mathlib.Core.List.{append-nil}
use z4j_celery.Prelude.{
  ℕ, zero, suc, ◌+◌, ◌-◌, ◌≤◌, ◌<◌, ◌≡◌, refl, sym, ap, ◌∙◌, subst, inl, inr, arith, none, some,
  List, [], ◌∷◌, ◌++◌, length, length-append, drop, ltb, Bool-cases,
}
use z4j_celery.Engine.EventQueue.{Adapter, max_count, enqueue_event, get_event}
use z4j_celery.Engine.EventQueue.Step.{
  IsUsable, counted, counted-own, counted-events, get_event_empty, get_event_first,
  enqueue_with_room, enqueue_when_full,
}
use z4j_celery.Engine.EventQueue.Loss.{
  Op, put, take, run, run-put, fresh, to_list, list_cases, uncons,
}

-- The events in the window, those that were taken, in order, and how many were lost.
pub record Window (E : Type 0) : Type 0 where
  pub items : List E
  pub taken : List E
  pub lost : ℕ

module _ {E : Type 0} where
  -- What a list has too much for the window.
  abbrev pub excess : ℕ → List E → ℕ
  excess maxsize l = length l - maxsize

  -- The last `maxsize` events stay.
  unfoldable pub offer : ℕ → E → Window E → Window E
  offer maxsize e w =
      let all = w.items ++ e ∷ [] in
      record w { items = drop (excess maxsize all) all; lost = w.lost + excess maxsize all }

  abbrev pub take_from : List E → Window E → Window E
  take_from [] w = w
  take_from (e ∷ rest) w = record w { items = rest; taken = w.taken ++ e ∷ [] }

  unfoldable pub replay : ℕ → List (Op E) → Window E → Window E
  unfolding offer
  replay maxsize [] w = w
  replay maxsize (put e ∷ ops) w = replay maxsize ops (offer maxsize e w)
  replay maxsize (take ∷ ops) w = replay maxsize ops (take_from w.items w)

  abbrev pub empty : Window E
  empty = record { items = []; taken = []; lost = 0 }

  drop_none : (n : ℕ) (l : List E) → n ≡ 0 → drop n l ≡ l
  drop_none zero l h = refl
  drop_none (suc n) l h = absurd (omega arith)

  drop_one : (n : ℕ) (x : E) (l : List E) → n ≡ 1 → drop n (x ∷ l) ≡ l
  drop_one zero x l h = absurd (omega arith)
  drop_one (suc n) x l h = drop_none n l (omega arith)

module _ {E : Type 0} (maxsize : ℕ) (pid : ℕ) where
  -- The adapter shows the window.
  pub record Refines (a : Adapter E) (taken : List E) (w : Window E) : Type 0 where
    pub items : a.events ≡ w.items
    pub taken_items : taken ≡ w.taken
    pub shown : counted pid a ≡ min w.lost max_count
    pub bounded : length a.events ≤ maxsize
    pub usable : IsUsable pid a

  enqueue-Refines :
      (a : Adapter E) (taken : List E) (w : Window E) (e : E)
      → 0 < maxsize
      → Refines a taken w
      → (a' : Adapter E) × (enqueue_event maxsize pid e a ≡ some a')
        × Refines a' taken (offer maxsize e w)
  unfolding offer
  enqueue-Refines a taken w e pos h = elim (Bool-cases (ltb (length a.events) maxsize)) [
    | inl room ↦
        let all = w.items ++ e ∷ [] in
        let none_lost : excess maxsize all ≡ 0 =
          ground (arith, length-append w.items (e ∷ []), ap length h.items) in
        (
          record a { events = a.events ++ e ∷ [] },
          enqueue_with_room maxsize pid e a (ground arith),
          record {
            items =
                ap (λ l. l ++ e ∷ []) h.items ∙ sym (drop_none (excess maxsize all) all none_lost);
            taken_items = h.taken_items;
            shown = counted-events pid a (a.events ++ e ∷ []) ∙ h.shown ∙ omega (arith, none_lost);
            bounded = ground (arith, length-append a.events (e ∷ []));
            usable = h.usable;
          },
        )
    | inr full ↦
        let size : length a.events ≡ maxsize = ground (arith, h.bounded) in
        let (oldest, rest, split) = uncons a.events (omega arith) in
        let a' : Adapter E = record a {
          events = rest ++ e ∷ [];
          event_loss_lock = none;
          event_loss_pid = pid;
          dropped_event_count = min (counted pid a + 1) max_count;
        } in
        let all = w.items ++ e ∷ [] in
        let one_lost : excess maxsize all ≡ 1 =
          omega (arith, length-append w.items (e ∷ []), ap length h.items, size) in
        (
          a',
          enqueue_when_full maxsize pid e oldest rest a split size h.usable,
          record {
            items =
                sym (drop_one (excess maxsize all) oldest (rest ++ e ∷ []) one_lost)
                ∙ ap (λ l. drop (excess maxsize all) (l ++ e ∷ [])) (sym split ∙ h.items);
            taken_items = h.taken_items;
            shown = counted-own pid a' refl ∙ omega (arith, h.shown, one_lost);
            bounded = omega (arith, length-append rest (e ∷ []), ap length split, size);
            usable = inl refl;
          },
        )
  ]

  get-Refines :
      (a : Adapter E) (taken : List E) (w : Window E)
      → Refines a taken w
      → Refines (get_event a).1 (taken ++ to_list (get_event a).0) (take_from w.items w)
  get-Refines a taken w h = elim (list_cases a.events) [
    | inl e ↦
        rw (get_event_empty a e, append-nil)
          (subst (λ l. Refines a taken (take_from l w)) (sym e ∙ h.items) h)
    | inr (x, rest, e) ↦
        let first : Refines (record a { events = rest }) (taken ++ x ∷ [])
            (take_from (x ∷ rest) w) =
          record {
            items = refl;
            taken_items = ap (λ l. l ++ x ∷ []) h.taken_items;
            shown = counted-events pid a rest ∙ h.shown;
            bounded = omega (arith, h.bounded, ap length e);
            usable = h.usable;
          } in
        rw (get_event_first a e) (
          subst (λ l. Refines (record a { events = rest }) (taken ++ x ∷ []) (take_from l w))
            (sym e ∙ h.items) first)
  ]

  run-Refines_from :
      (ops : List (Op E)) (a : Adapter E) (taken : List E) (w : Window E)
      → 0 < maxsize
      → Refines a taken w
      → (a' : Adapter E) × (taken' : List E) × (run maxsize pid ops a taken ≡ some (a', taken'))
        × Refines a' taken' (replay maxsize ops w)
  unfolding run replay
  run-Refines_from [] a taken w pos h = (a, taken, refl, h)
  run-Refines_from (put e ∷ ops) a taken w pos h =
      let (a', step, h') = enqueue-Refines a taken w e pos h in
      let (a'', taken'', rest, h'') = run-Refines_from ops a' taken (offer maxsize e w) pos h' in
      (a'', taken'', run-put maxsize pid e ops a taken step ∙ rest, h'')
  run-Refines_from (take ∷ ops) a taken w pos h =
      run-Refines_from ops (get_event a).1 (taken ++ to_list (get_event a).0) (take_from w.items w)
        pos (get-Refines a taken w h)

  -- The queue refines a window over the last `maxsize` events: after any arrivals and reads from a
  -- new adapter of positive size no call has waited, the queued events are the window's, the taken
  -- events are those taken from the window, in that order, and the counter shows the window's
  -- losses, up to its largest value.
  pub run-Refines :
      (ops : List (Op E))
      → 0 < maxsize
      → (a : Adapter E) × (taken : List E) × (run maxsize pid ops (fresh maxsize pid) []
          ≡ some (a, taken))
        × Refines a taken (replay maxsize ops empty)
  run-Refines ops pos = run-Refines_from ops (fresh maxsize pid) [] empty pos (record {
    items = refl;
    taken_items = refl;
    shown = counted-own pid (fresh maxsize pid) refl ∙ omega arith;
    bounded = omega arith;
    usable = inl refl;
  })
