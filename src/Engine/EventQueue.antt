-- ===== src/Engine/EventQueue.antt =====
-- The bounded event queue of `CeleryEngineAdapter` and its loss counter, which a forked child must
-- not inherit. A process and a thread are numbers; `none` means that the caller waits for a lock.
pub mod Step
pub mod Loss
pub mod Window
use Prim.Native.Nat.{min}
use z4j_celery.Prelude.{
  ℕ, zero, suc, ◌+◌, ◌-◌, ◌^◌, Option, none, some, List, [], ◌∷◌, ◌++◌, length, ltb, eqb,
  if◌then◌else◌,
}

-- `asyncio.Queue(maxsize=10_000)`
abbrev pub event_queue_maxsize : ℕ
event_queue_maxsize = 10000

abbrev pub max_count : ℕ
max_count = 2 ^ 53 - 1

pub record Adapter (E : Type 0) : Type 0 where
  -- oldest first
  pub events : List E
  pub event_loss_pid : ℕ
  -- the thread that holds `_event_loss_lock`
  pub event_loss_lock : Option ℕ
  pub dropped_event_count : ℕ

module _ {E : Type 0} (pid : ℕ) where
  -- In a forked child: a new lock, and a count of its own.
  unfoldable pub reset_inherited_loss_counter : Adapter E → Adapter E
  reset_inherited_loss_counter a =
      if eqb a.event_loss_pid pid
      then a
      else record a { event_loss_lock = none; dropped_event_count = 0; event_loss_pid = pid }

  abbrev pub count_drop : Adapter E → Option (Adapter E)
  count_drop a = elim a.event_loss_lock [
    | some holder ↦ none
    | none ↦ some (record a { dropped_event_count = min (a.dropped_event_count + 1) max_count })
  ]

  unfoldable pub record_event_drop : Adapter E → Option (Adapter E)
  unfolding reset_inherited_loss_counter
  record_event_drop a = count_drop (reset_inherited_loss_counter a)

  abbrev pub read_count : Adapter E → Option (ℕ × Adapter E)
  read_count a = elim a.event_loss_lock [
    | some holder ↦ none
    | none ↦ some (a.dropped_event_count, a)
  ]

  -- The property `dropped_event_count`.
  unfoldable pub get_dropped_event_count : Adapter E → Option (ℕ × Adapter E)
  unfolding reset_inherited_loss_counter
  get_dropped_event_count a = read_count (reset_inherited_loss_counter a)

  -- `get_nowait` on a full queue, counted as a loss; `QueueEmpty` is passed over.
  abbrev pub drop_oldest : Adapter E → Option (Adapter E)
  drop_oldest a = elim a.events [
    | [] ↦ some a
    | dropped ∷ rest ↦ record_event_drop (record a { events = rest })
  ]

module _ {E : Type 0} (maxsize : ℕ) (pid : ℕ) where
  abbrev pub next : Option (Adapter E) → (Adapter E → Option (Adapter E)) → Option (Adapter E)
  next none f = none
  next (some a) f = f a

  -- `for _attempt in range(3)`, and the loss of the new event behind it.
  unfoldable pub attempt : ℕ → E → Adapter E → Option (Adapter E)
  unfolding record_event_drop
  attempt zero event a = record_event_drop pid a
  attempt (suc n) event a =
      let again = attempt n event in
      if ltb (length a.events) maxsize
      then some (record a { events = a.events ++ event ∷ [] })
      else next (drop_oldest pid a) again

  unfoldable pub enqueue_event : E → Adapter E → Option (Adapter E)
  unfolding attempt
  enqueue_event event a = attempt 3 event a

module _ {E : Type 0} where
  -- `await self._event_queue.get()`: on an empty queue the consumer waits.
  unfoldable pub get_event : Adapter E → Option E × Adapter E
  get_event a = elim a.events [
    | [] ↦ (none, a)
    | event ∷ rest ↦ (some event, record a { events = rest })
  ]
