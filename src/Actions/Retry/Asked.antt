-- ===== src/Actions/Retry/Asked.antt =====
-- What a retry is to ask Celery for, and which of the request's steps see to what of it.
use z4j_celery.Prelude.{◌+◌, ◌≤◌, String, Option, none, some, List, ◌≡◌, refl}
use z4j_celery.Prelude.Int.{ℤ, pos_part, neg_part, ◌-ℤ◌}
use z4j_celery.Python.{
  Value, null, int, str, time, tuple, dict, values, fields, Dict, get, Outcome, returned, raised,
  Runtime, Returns, Holds, Returns-any, getattr, as_sequence, as_dict,
}
use z4j_celery.Actions.Retry.{Request, send_kwargs}
use z4j_celery.Actions.Retry.Arguments.{supplied_name, resolve_args, both, override_or}
use z4j_celery.Actions.Retry.Priority.{
  resolve_priority, coerce_priority, write_transport_driver_type,
}
use z4j_celery.Actions.Retry.Eta.{
  eta_from_timestamp, checked, within_window, microseconds, eta_max_past_seconds,
  eta_max_future_seconds,
}
use z4j_celery.Actions.Retry.Limits.{IsByte, IsReal, within_window_lem}
use mathlib.Core.Option

-- A publish: the task's name, and the options.
abbrev pub Publication : Type 0
Publication = String × Dict Value

-- What was given is taken as it is.
abbrev pub Respects : {A : Type 0} → Option A → A → Type 0
Respects {A} given a = (b : A) → given ≡ some b → a ≡ b

module _ (rt : Runtime) (celery_app : Value) where
  open rt use {World, call, from_timestamp}

  -- The delay that was asked for, which at `current` lies within the window.
  pub record InWindow (eta : Value) (current : ℤ) (sent : Value) : Type 0 where
    pub target : ℤ
    pub reads : from_timestamp eta ≡ returned target
    pub is_sent : sent ≡ time target
    pub not_early :
        neg_part (target -ℤ current)
        ≤ pos_part (target -ℤ current) + microseconds eta_max_past_seconds
    pub not_late :
        pos_part (target -ℤ current)
        ≤ neg_part (target -ℤ current) + microseconds eta_max_future_seconds

  abbrev pub IsDelay : Value → ℤ → Value → Type 0
  IsDelay null current sent = sent ≡ null
  IsDelay eta current sent = InWindow eta current sent

  -- The publish of a retry that begins at `current`.
  pub record AsksFor (req : Request) (current : ℤ) (p : Publication) : Type 0 where
    pub is_real : IsReal rt p.0
    pub name : Respects (supplied_name req.task_name) p.0
    pub args : List Value
    pub has_args : get "args" p.1 ≡ some (tuple (values args))
    pub respects_args : Respects req.override_args args
    pub kwargs : Dict Value
    pub has_kwargs : get "kwargs" p.1 ≡ some (dict (fields kwargs))
    pub respects_kwargs : Respects req.override_kwargs kwargs
    pub eta : Value
    pub has_eta : get "eta" p.1 ≡ some eta
    pub is_delay : IsDelay req.eta current eta
    pub driver_type : Option String
    pub has_priority :
        get "priority" p.1 ≡ Option.map int (coerce_priority req.priority driver_type)
    pub is_byte : IsByte (coerce_priority req.priority driver_type)

  pub get-send_kwargs :
      (args : List Value) (kwargs : Dict Value) (eta : Value) (n : Option ℤ)
      → let sent = send_kwargs args kwargs eta n in
        (get "args" sent ≡ some (tuple (values args)))
        × (get "kwargs" sent ≡ some (dict (fields kwargs)))
        × (get "eta" sent ≡ some eta)
        × (get "priority" sent ≡ Option.map int n)
  unfolding get
  get-send_kwargs args kwargs eta none = (refl, refl, refl, refl)
  get-send_kwargs args kwargs eta (some n) = (refl, refl, refl, refl)

  -- The arguments, if there are any, respect the overrides.
  abbrev pub ResolvedBy :
      Option (List Value) → Option (Dict Value) → Option (List Value × Dict Value) → Type 0
  ResolvedBy given given_kwargs none = Unit
  ResolvedBy given given_kwargs (some (args, kwargs)) =
      Respects given args × Respects given_kwargs kwargs

  both-ResolvedBy :
      (given stored : Option (List Value)) (given_kwargs stored_kwargs : Option (Dict Value))
      → ResolvedBy given given_kwargs
          (both (override_or given stored) (override_or given_kwargs stored_kwargs))
  both-ResolvedBy (some a) x (some k) y = (λ b h. cc, λ b h. cc)
  both-ResolvedBy (some a) x none none = tt
  both-ResolvedBy (some a) x none (some y) = (λ b h. cc, λ b h. absurd (cc))
  both-ResolvedBy none none given y = tt
  both-ResolvedBy none (some x) (some k) y = (λ b h. absurd (cc), λ b h. cc)
  both-ResolvedBy none (some x) none none = tt
  both-ResolvedBy none (some x) none (some y) = (λ b h. absurd (cc), λ b h. absurd (cc))

  pub resolve_args-ResolvedBy :
      (async_result : Value) (given : Option (List Value)) (given_kwargs : Option (Dict Value))
      → Returns (ResolvedBy given given_kwargs) (resolve_args rt async_result given given_kwargs)
  unfolding resolve_args
  resolve_args-ResolvedBy async_result given given_kwargs =
      Returns-any (ResolvedBy given given_kwargs) (getattr rt async_result "args") _ (λ stored.
        Returns-any (ResolvedBy given given_kwargs) (getattr rt async_result "kwargs") _
          (λ stored_kwargs w.
            both-ResolvedBy given (as_sequence stored) given_kwargs (as_dict stored_kwargs)))

  pub record Numbers (raw : Value) (n : Option ℤ) : Type 0 where
    pub driver_type : Option String
    pub is_coerced : n ≡ coerce_priority raw driver_type

  pub resolve_priority-Numbers :
      (raw : Value) → Returns (Numbers raw) (resolve_priority rt celery_app raw)
  unfolding resolve_priority
  resolve_priority-Numbers raw =
      Returns-any (Numbers raw) (write_transport_driver_type rt celery_app) _
        (λ driver_type w. record { driver_type = driver_type; is_coerced = refl })

  window-InWindow :
      (eta : Value) (target current : ℤ)
      → from_timestamp eta ≡ returned target
      → (r : Outcome Value) → within_window rt target current ≡ r
      → Holds (InWindow eta current) r
  window-InWindow eta target current h (returned sent) e =
      let (is_sent, early, late) = within_window_lem rt target current sent e in
      record { target = target; reads = h; is_sent = is_sent; not_early = early; not_late = late }
  window-InWindow eta target current h (raised x) e = tt

  checked-InWindow :
      (eta : Value) (w : World) (o : Outcome ℤ)
      → from_timestamp eta ≡ o
      → Holds (InWindow eta (rt.now w)) (checked rt eta o w).0
  checked-InWindow eta w (returned target) h =
      window-InWindow eta target (rt.now w) h (within_window rt target (rt.now w)) refl
  checked-InWindow eta w (raised e) h = tt

  pub eta_from_timestamp-IsDelay :
      (eta : Value) (w : World) → Holds (IsDelay eta (rt.now w)) (eta_from_timestamp rt eta w).0
  unfolding eta_from_timestamp
  eta_from_timestamp-IsDelay null w = refl
  eta_from_timestamp-IsDelay (Value.bool b) w =
      checked-InWindow (Value.bool b) w (from_timestamp (Value.bool b)) refl
  eta_from_timestamp-IsDelay (int n) w = checked-InWindow (int n) w (from_timestamp (int n)) refl
  eta_from_timestamp-IsDelay (str s) w = checked-InWindow (str s) w (from_timestamp (str s)) refl
  eta_from_timestamp-IsDelay (Value.list vs) w =
      checked-InWindow (Value.list vs) w (from_timestamp (Value.list vs)) refl
  eta_from_timestamp-IsDelay (tuple vs) w =
      checked-InWindow (tuple vs) w (from_timestamp (tuple vs)) refl
  eta_from_timestamp-IsDelay (dict fs) w =
      checked-InWindow (dict fs) w (from_timestamp (dict fs)) refl
  eta_from_timestamp-IsDelay (time t) w = checked-InWindow (time t) w (from_timestamp (time t)) refl
  eta_from_timestamp-IsDelay (Value.object n) w =
      checked-InWindow (Value.object n) w (from_timestamp (Value.object n)) refl
