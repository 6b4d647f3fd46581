-- ===== src/Engine/Wiring.antt =====
-- src/z4j_celery/engine.py: how the adapter is wired to its sources of events in `connect_signals`:
-- where an event goes, and which workers' events the monitor takes.
use z4j_celery.Prelude.{
  ℕ, String, Bool, true, false, Bool-cases, inl, inr, arith, eq_iff, Option, none, some, List, [],
  ◌∷◌, ◌≡◌, refl, ap, sym, ◌∙◌, ◌==◌, eqb, if◌then◌else◌,
}
use z4j_celery.Prelude.Text.{strip, is_empty}
use z4j_celery.Python.{Value, null, Dict, get, Fields, str, dict, items, Outcome, returned}
use z4j_celery.Events.Broker.{Host, Monitor, dispatch, ack_quietly, accepts}
use z4j_celery.Events.Broker.Dispatch.{handled, dispatch_accepting}
use mathlib.Core.Option

-- `sink`: the loop that is to enqueue an event. In a forked child there is none; without a loop of
-- its own the adapter takes the running one, if there is one.
abbrev pub target_or_running : Option ℕ → Option ℕ → Option ℕ
target_or_running (some loop) running = some loop
target_or_running none running = running

unfoldable pub sink_loop : (connect_pid pid : ℕ) (target_loop running_loop : Option ℕ) → Option ℕ
sink_loop connect_pid pid target_loop running_loop =
    if eqb pid connect_pid then target_or_running target_loop running_loop else none

-- `os.environ.get(name, "").strip()` of Z4J_CELERY_LOCAL_HOSTNAME, or else of CELERY_HOSTNAME
abbrev pub stripped : Option String → String
stripped value = strip (Option.get_or value "")

unfoldable pub local_hostname : (own celery : Option String) → String
local_hostname own celery = if is_empty (stripped own) then stripped celery else stripped own

-- `host == _local`
abbrev pub is_local : String → Value → Bool
is_local local (str host) = host == local
is_local local _ = false

unfoldable pub filter_for : String → Option (Value → Outcome Bool)
filter_for local = if is_empty local then none else some (λ host. returned (is_local local host))

-- The first value that names a worker, blanks apart.
abbrev pub first_named : List (Option String) → Option String
first_named [] = none
first_named (none ∷ more) = first_named more
first_named (some value ∷ more) =
    if is_empty (strip value) then first_named more else some (strip value)

abbrev pub is_text : String → Option Value → Bool
is_text local (some (str host)) = host == local
is_text local _ = false

-- Whether an event is one of the worker's, or of any where none is named.
abbrev pub is_ours : Option String → Dict Value → Bool
is_ours none ev = true
is_ours (some local) ev = is_text local (get "hostname" ev)

first_named_nonempty :
    (values : List (Option String)) (local : String)
    → first_named values ≡ some local
    → is_empty local ≡ false
first_named_nonempty [] local h = absurd (cc)
first_named_nonempty (none ∷ more) local h = first_named_nonempty more local h
first_named_nonempty (some value ∷ more) local h =
    chosen (is_empty (strip value)) refl (first_named_nonempty more local) h
  where
    chosen :
        (b : Bool)
        → is_empty (strip value) ≡ b
        → (first_named more ≡ some local → is_empty local ≡ false)
        → (if b then first_named more else some (strip value)) ≡ some local
        → is_empty local ≡ false
    chosen true e more_named k = more_named k
    chosen false e more_named k = ground (arith, e, k)

abbrev filter_of : Option String → Option (Value → Outcome Bool)
filter_of none = none
filter_of (some local) = some (λ host. returned (is_local local host))

-- What is left of one value.
filter_for-stripped :
    (value : Option String) → filter_for (stripped value) ≡ filter_of (first_named (value ∷ []))
unfolding filter_for strip
filter_for-stripped none = refl
filter_for-stripped (some value) = chosen (is_empty (strip value))
  where
    chosen :
        (b : Bool)
        → (if b then none else some (λ host. returned (is_local (strip value) host)))
          ≡ filter_of (if b then none else some (strip value))
    chosen true = refl
    chosen false = refl

filter_for-local_hostname :
    (own celery : Option String)
    → filter_for (local_hostname own celery) ≡ filter_of (first_named (own ∷ celery ∷ []))
unfolding filter_for local_hostname
filter_for-local_hostname none celery = unfold strip in filter_for-stripped celery
filter_for-local_hostname (some value) celery = elim (Bool-cases (is_empty (strip value))) [
  | inl e ↦ rw e (filter_for-stripped celery)
  | inr e ↦ rw (e, e) refl
]

not_blank : (local : String) → is_empty local ≡ false → ("" == local) ≡ false
not_blank local h = elim (Bool-cases ("" == local)) [
  | inl e ↦ absurd (false_is_not_true (sym h ∙ ap is_empty (sym (same e))))
  | inr e ↦ e
]
  where
    same : ("" == local) ≡ true → "" ≡ local
    same e = ground (arith, eq_iff "" local, e)

    false_is_not_true : ◌≡◌ {A = Bool} false true → ⊥
    false_is_not_true e = cc

is_local-is_text :
    (local : String) (o : Option Value)
    → is_empty local ≡ false
    → is_local local (Option.get_or o (str "")) ≡ is_text local o
is_local-is_text local none h = not_blank local h
is_local-is_text local (some null) h = refl
is_local-is_text local (some (Value.bool b)) h = refl
is_local-is_text local (some (Value.int n)) h = refl
is_local-is_text local (some (str s)) h = refl
is_local-is_text local (some (Value.list vs)) h = refl
is_local-is_text local (some (Value.tuple vs)) h = refl
is_local-is_text local (some (dict fs)) h = refl
is_local-is_text local (some (Value.time t)) h = refl
is_local-is_text local (some (Value.object n)) h = refl

module _ {W : Type 0} (host : Host W) (max : ℕ) where
  accepts-is_ours :
      (named : Option String) (ev : Dict Value)
      → ((local : String) → named ≡ some local → is_empty local ≡ false)
      → host.hostname_filter ≡ filter_of named
      → accepts host max ev ≡ returned (is_ours named ev)
  accepts-is_ours none ev nonempty h = rw h refl
  accepts-is_ours (some local) ev nonempty h =
      rw h (ap returned (is_local-is_text local (get "hostname" ev) (nonempty local refl)))

  -- With the filter that the environment names, an event is handled if neither variable names a
  -- worker, blanks apart, or if its hostname is the text that the first of them that does names; of
  -- any other event only the message is acknowledged: the monitor, its cache and its count stay.
  pub worker_filter :
      (own celery : Option String) (ev : Fields) (s : Monitor W)
      → host.hostname_filter ≡ filter_for (local_hostname own celery)
      → dispatch host max (dict ev) s ≡ (
          if is_ours (first_named (own ∷ celery ∷ [])) (items ev)
          then handled host max (items ev) s
          else ack_quietly host max s)
  worker_filter own celery ev s h =
      dispatch_accepting host max ev (is_ours (first_named (own ∷ celery ∷ [])) (items ev)) s (
        accepts-is_ours (first_named (own ∷ celery ∷ [])) (items ev)
          (first_named_nonempty (own ∷ celery ∷ [])) (h ∙ filter_for-local_hostname own celery))

-- src/z4j_celery/capabilities.py
abbrev pub default_capabilities : List String
default_capabilities =
    "submit_task" ∷ "retry_task" ∷ "cancel_task" ∷ "bulk_retry" ∷ "purge_queue" ∷ "restart_worker"
    ∷ "pool_grow" ∷ "pool_shrink" ∷ "add_consumer" ∷ "cancel_consumer" ∷ "rate_limit" ∷ []
