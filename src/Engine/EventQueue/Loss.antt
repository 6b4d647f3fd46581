-- ===== src/Engine/EventQueue/Loss.antt =====
-- The queue over a whole run of enqueues and reads: what is lost, and what is counted.
use Prim.Native.Nat.{min}
use mathlib.Core.Path.{subst}
use mathlib.Core.List.Sublist
use mathlib.Core.List.{Sublist, append_assoc, append-nil}
use z4j_celery.Prelude.{
  ℕ, suc, ◌+◌, ◌≤◌, ◌<◌, ◌≡◌, ◌⊎◌, refl, arith, Option, none, some, List, [], ◌∷◌, ◌++◌, length,
  length-append, inl, inr, Bool-cases, ltb, ap, sym, ◌∙◌,
}
use z4j_celery.Engine.EventQueue.{Adapter, max_count, enqueue_event, get_event}
use z4j_celery.Engine.EventQueue.Step.{
  IsUsable, counted, counted-own, counted-events, get_event_empty, get_event_first,
  enqueue_with_room, enqueue_when_full,
}

-- What happens to the queue: an event arrives, or the transport takes one.
pub data Op (E : Type 0) : Type 0 where
  put : E → Op E
  take : Op E

module _ {E : Type 0} where
  -- The events that arrived.
  abbrev pub arrived : List (Op E) → List E
  arrived [] = []
  arrived (put e ∷ ops) = e ∷ arrived ops
  arrived (take ∷ ops) = arrived ops

  abbrev pub to_list : Option E → List E
  to_list none = []
  to_list (some e) = e ∷ []

pub list_cases : {E : Type 0} (l : List E) → (l ≡ []) ⊎ ((x : E) × (rest : List E) × (l ≡ x ∷ rest))
list_cases [] = inl refl
list_cases (x ∷ rest) = inr (x, rest, refl)

pub uncons : {E : Type 0} (l : List E) → 0 < length l → (x : E) × (rest : List E) × (l ≡ x ∷ rest)
uncons [] h = absurd (omega arith)
uncons (x ∷ rest) h = (x, rest, refl)

module _ {E : Type 0} (maxsize : ℕ) (pid : ℕ) where
  -- The state after the operations, and the events that were taken, in order.
  unfoldable pub run : List (Op E) → Adapter E → List E → Option (Adapter E × List E)
  run [] a taken = some (a, taken)
  run (put e ∷ ops) a taken = elim (enqueue_event maxsize pid e a) [
    | none ↦ none
    | some a' ↦ run ops a' taken
  ]
  run (take ∷ ops) a taken = run ops (get_event a).1 (taken ++ to_list (get_event a).0)

  -- After the events `sent` have arrived: what is queued or taken is what was sent, in order, less
  -- `lost` events, and the counter shows those, up to its largest value.
  pub record Accounts (sent taken : List E) (a : Adapter E) : Type 0 where
    pub lost : ℕ
    pub bounded : length a.events ≤ maxsize
    pub usable : IsUsable pid a
    pub shown : counted pid a ≡ min lost max_count
    pub total : length sent ≡ length taken + length a.events + lost
    pub order : Sublist (taken ++ a.events) sent

  pub enqueue-Accounts :
      (sent taken : List E) (a : Adapter E) (e : E)
      → 0 < maxsize
      → Accounts sent taken a
      → (a' : Adapter E) × (enqueue_event maxsize pid e a ≡ some a')
        × Accounts (sent ++ e ∷ []) taken a'
  enqueue-Accounts sent taken a e pos h = elim (Bool-cases (ltb (length a.events) maxsize)) [
    | inl room ↦ (
      record a { events = a.events ++ e ∷ [] },
      enqueue_with_room maxsize pid e a (ground arith),
      record {
        lost = h.lost;
        bounded = ground (arith, length-append a.events (e ∷ []));
        usable = h.usable;
        shown = counted-events pid a (a.events ++ e ∷ []) ∙ h.shown;
        total =
            omega (arith, h.total, length-append a.events (e ∷ []), length-append sent (e ∷ []));
        order =
            rw (← append_assoc taken a.events (e ∷ []))
              (Sublist.append h.order (Sublist.refl (e ∷ [])));
      },
    )
    | inr full ↦
        let size : length a.events ≡ maxsize = ground (arith, h.bounded) in
        let (oldest, rest, split) = uncons a.events (omega arith) in
        let a' : Adapter E = record a {
          events = rest ++ e ∷ [];
          event_loss_lock = none;
          event_loss_pid = pid;
          dropped_event_count = min (counted pid a + 1) max_count;
        } in
        let kept : Sublist (taken ++ rest) (taken ++ a.events) =
          subst (λ l. Sublist (taken ++ rest) (taken ++ l)) (sym split)
            (Sublist.append (Sublist.refl taken) (Sublist.cons oldest (Sublist.refl rest))) in
        let sizes : length a.events ≡ suc (length rest) = ap length split in
        (
          a',
          enqueue_when_full maxsize pid e oldest rest a split size h.usable,
          record {
            lost = h.lost + 1;
            bounded = omega (arith, length-append rest (e ∷ []));
            usable = inl refl;
            shown = counted-own pid a' refl ∙ omega (arith, h.shown);
            total =
                omega (arith, h.total, length-append rest (e ∷ []), length-append sent (e ∷ []));
            order =
                rw (← append_assoc taken rest (e ∷ []))
                  (Sublist.append (Sublist.trans kept h.order) (Sublist.refl (e ∷ [])));
          },
        )
  ]

  pub get-Accounts :
      (sent taken : List E) (a : Adapter E)
      → Accounts sent taken a
      → Accounts sent (taken ++ to_list (get_event a).0) (get_event a).1
  get-Accounts sent taken a h = elim (list_cases a.events) [
    | inl e ↦ rw (get_event_empty a e, append-nil) h
    | inr (x, rest, e) ↦
        let order : Sublist (taken ++ x ∷ rest) sent = rw e at h.order in
        let sizes : length a.events ≡ suc (length rest) = ap length e in
        rw (get_event_first a e) (record {
          lost = h.lost;
          bounded = omega (arith, h.bounded);
          usable = h.usable;
          shown = counted-events pid a rest ∙ h.shown;
          total = omega (arith, h.total, length-append taken (x ∷ []));
          order = rw (append_assoc taken (x ∷ []) rest) order;
        })
  ]

  pub run-put :
      (e : E) (ops : List (Op E)) (a : Adapter E) (taken : List E) {a' : Adapter E}
      → enqueue_event maxsize pid e a ≡ some a'
      → run (put e ∷ ops) a taken ≡ run ops a' taken
  unfolding run
  run-put e ops a taken h = ground arith

  run-Accounts_from :
      (ops : List (Op E)) (sent taken : List E) (a : Adapter E)
      → 0 < maxsize
      → Accounts sent taken a
      → (a' : Adapter E) × (taken' : List E) × (run ops a taken ≡ some (a', taken'))
        × Accounts (sent ++ arrived ops) taken' a'
  unfolding run
  run-Accounts_from [] sent taken a pos h = (a, taken, refl, rw append-nil h)
  run-Accounts_from (put e ∷ ops) sent taken a pos h =
      let (a', step, h') = enqueue-Accounts sent taken a e pos h in
      let (a'', taken'', rest, h'') = run-Accounts_from ops (sent ++ e ∷ []) taken a' pos h' in
      (
        a'',
        taken'',
        run-put e ops a taken step ∙ rest,
        rw (append_assoc sent (e ∷ []) (arrived ops)) at h'',
      )
  run-Accounts_from (take ∷ ops) sent taken a pos h =
      run-Accounts_from ops sent (taken ++ to_list (get_event a).0) (get_event a).1 pos
        (get-Accounts sent taken a h)

  -- The adapter as it is constructed.
  abbrev pub fresh : Adapter E
  fresh = record {
    events = [];
    event_loss_pid = pid;
    event_loss_lock = none;
    dropped_event_count = 0;
  }

  pub fresh-Accounts : 0 < maxsize → Accounts [] [] fresh
  fresh-Accounts pos = record {
    lost = 0;
    bounded = omega arith;
    usable = inl refl;
    shown = counted-own pid fresh refl ∙ omega arith;
    total = omega arith;
    order = Sublist.refl [];
  }

  -- Through any arrivals and reads from a new adapter: no call waits, the queue never passes its
  -- size, the queued and taken events are the arrived ones in order less those lost, and the
  -- counter shows how many were lost, up to its largest value.
  pub run-Accounts :
      (ops : List (Op E))
      → 0 < maxsize
      → (a : Adapter E) × (taken : List E) × (run ops fresh [] ≡ some (a, taken))
        × Accounts (arrived ops) taken a
  run-Accounts ops pos = run-Accounts_from ops [] [] fresh pos (fresh-Accounts pos)
