-- ===== src/Engine/EventQueue/Step.antt =====
-- One enqueue: what it keeps, what it loses, and what it counts.
use Prim.Native.Nat.{min}
use z4j_celery.Prelude.{
  ℕ, suc, ◌+◌, ◌<◌, ◌≡◌, ◌≢◌, ◌⊎◌, arith, none, some, List, [], ◌∷◌, ◌++◌, length,
}
use z4j_celery.Engine.EventQueue.{
  Adapter, max_count, attempt, enqueue_event, record_event_drop, reset_inherited_loss_counter,
  get_event,
}

module _ {E : Type 0} (pid : ℕ) where
  -- The loss counter can be used: its lock is free, or it is another process's and is replaced.
  abbrev pub IsUsable : Adapter E → Type 0
  IsUsable a = (a.event_loss_lock ≡ none) ⊎ (a.event_loss_pid ≢ pid)

  -- What this process has counted so far.
  abbrev pub counted : Adapter E → ℕ
  counted a = (reset_inherited_loss_counter pid a).dropped_event_count

  -- A drop can always be counted in such a state; the child of a fork starts from zero.
  pub record_event_drop_lem :
      (a : Adapter E)
      → IsUsable a
      → record_event_drop pid a
        ≡ some (record a {
          event_loss_lock = none;
          event_loss_pid = pid;
          dropped_event_count = min (counted a + 1) max_count;
        })
  unfolding record_event_drop
  record_event_drop_lem a h = ground arith

  pub counted-own : (a : Adapter E) → a.event_loss_pid ≡ pid → counted a ≡ a.dropped_event_count
  unfolding reset_inherited_loss_counter
  counted-own a h = ground arith

  pub counted-events : (a : Adapter E) (l : List E) → counted (record a { events = l }) ≡ counted a
  unfolding reset_inherited_loss_counter
  counted-events a l = ground arith

module _ {E : Type 0} where
  pub get_event_empty : (a : Adapter E) → a.events ≡ [] → get_event a ≡ (none, a)
  unfolding get_event
  get_event_empty a h = ground arith

  pub get_event_first :
      (a : Adapter E) {event : E} {rest : List E}
      → a.events ≡ event ∷ rest
      → get_event a ≡ (some event, record a { events = rest })
  unfolding get_event
  get_event_first a h = ground arith

module _ {E : Type 0} (maxsize : ℕ) (pid : ℕ) where
  attempt_with_room :
      (n : ℕ) (event : E) (a : Adapter E)
      → length a.events < maxsize
      → attempt maxsize pid (suc n) event a ≡ some (record a { events = a.events ++ event ∷ [] })
  unfolding attempt
  attempt_with_room n event a h = ground arith

  -- With room, the event is appended and nothing is counted.
  pub enqueue_with_room :
      (event : E) (a : Adapter E)
      → length a.events < maxsize
      → enqueue_event maxsize pid event a ≡ some (record a { events = a.events ++ event ∷ [] })
  unfolding enqueue_event
  enqueue_with_room event a h = attempt_with_room 2 event a h

  -- A full queue that is not empty loses its oldest event and takes the new one, and one loss is
  -- counted, where the loss counter can be used.
  pub enqueue_when_full :
      (event oldest : E) (rest : List E) (a : Adapter E)
      → a.events ≡ oldest ∷ rest
      → length a.events ≡ maxsize
      → IsUsable pid a
      → enqueue_event maxsize pid event a
        ≡ some (record a {
          events = rest ++ event ∷ [];
          event_loss_lock = none;
          event_loss_pid = pid;
          dropped_event_count = min (counted pid a + 1) max_count;
        })
  unfolding attempt enqueue_event
  enqueue_when_full event oldest rest a e full h = ground (
    arith,
    record_event_drop_lem pid (record a { events = rest }) h,
    attempt_with_room 1 event (record a {
      events = rest;
      event_loss_lock = none;
      event_loss_pid = pid;
      dropped_event_count = min (counted pid a + 1) max_count;
    }),
  )
