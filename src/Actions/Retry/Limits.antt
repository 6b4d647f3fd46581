-- ===== src/Actions/Retry/Limits.antt =====
-- What a retry may send: its priority, its delay, and its name.
use z4j_celery.Prelude.{
  ℕ, ◌+◌, ◌≤◌, ◌<◌, ◌⊎◌, ap, ◌∙◌, ◌≡◌, refl, arith, String, Bool, true, false, Option, none, some,
  Bool-cases, inl, inr, leb, ltb, sym, subst, if◌then◌else◌, [], ◌∷◌, ◌==◌,
}
use z4j_celery.Prelude.Int.{ℤ, pos, negsuc, pos_part, neg_part, ◌-ℤ◌}
use z4j_celery.Prelude.Text.{strip, lower, concat}
use z4j_celery.Python.{
  Value, null, bool, int, str, list, tuple, dict, time, object, Dict, get, Exception, Kind,
  value_error, overflow_error, os_error, type_error, is_none, Outcome, Io, returned, raised,
  Runtime, Returns, Returns-then, Holds-all, Holds, pure, raise,
}
use z4j_celery.Command.{CommandResult, refused, failed}
use z4j_celery.Actions.Retry.{
  Request, retry_task_action, retry_name, real_name, name_source, unresolved,
}
use z4j_celery.Actions.Retry.Priority.{coerce_priority, amqp_priorities, redis_priorities, is_redis}
use z4j_celery.Actions.Retry.Eta.{
  within_window, checked, unparsed, eta_from_timestamp, microseconds, eta_max_past_seconds,
  eta_max_future_seconds,
}
use z4j_celery.Actions.Retry.Arguments.{is_placeholder, supplied_name}

abbrev pub IsByte : Option ℤ → Type 0
IsByte none = Unit
IsByte (some (pos n)) = n ≤ 255
IsByte (some (negsuc n)) = ⊥

IsByte-if : (b : Bool) (o p : Option ℤ) → IsByte o → IsByte p → IsByte (if b then o else p)
IsByte-if true o p h k = h
IsByte-if false o p h k = k

abbrev AllBytes : Dict ℤ → Type 0
AllBytes [] = Unit
AllBytes ((k, n) ∷ d) = IsByte (some n) × AllBytes d

IsByte-get : (k : String) (d : Dict ℤ) → AllBytes d → IsByte (get k d)
unfolding get
IsByte-get k [] h = tt
IsByte-get k ((j, n) ∷ d) h = IsByte-if (j == k) (some n) (get k d) h.0 (IsByte-get k d h.1)

IsByte-leb : (n : ℕ) → IsByte (if leb n 255 then some (pos n) else none)
IsByte-leb n = elim (Bool-cases (leb n 255)) [
  | inl e ↦ subst (λ b. IsByte (if b then some (pos n) else none)) (sym e) (ground (arith, e))
  | inr e ↦ subst (λ b. IsByte (if b then some (pos n) else none)) (sym e) tt
]

IsByte-label :
    (b : Bool) (s : String) → IsByte (get s (if b then redis_priorities else amqp_priorities))
IsByte-label true s =
    IsByte-get s redis_priorities (omega arith, (omega arith, (omega arith, (omega arith, tt))))
IsByte-label false s =
    IsByte-get s amqp_priorities (omega arith, (omega arith, (omega arith, (omega arith, tt))))

-- A priority that is sent lies between 0 and 255, whatever the caller gave and whatever the
-- transport is.
pub coerce_priority-IsByte :
    (raw : Value) (driver_type : Option String) → IsByte (coerce_priority raw driver_type)
unfolding coerce_priority
coerce_priority-IsByte null d = tt
coerce_priority-IsByte (bool b) d = tt
coerce_priority-IsByte (int (pos n)) d = IsByte-leb n
coerce_priority-IsByte (int (negsuc n)) d = tt
coerce_priority-IsByte (str s) d = IsByte-label (is_redis d) (lower (strip s))
coerce_priority-IsByte (list vs) d = tt
coerce_priority-IsByte (tuple vs) d = tt
coerce_priority-IsByte (dict fs) d = tt
coerce_priority-IsByte (time t) d = tt
coerce_priority-IsByte (object n) d = tt

-- The two transports order the labels in opposite directions: what is `n` on AMQP is `9 - n` on
-- Redis, and no other label is known to either.
abbrev pub Mirrored : Option ℤ → Option ℤ → Type 0
Mirrored none none = Unit
Mirrored (some (pos a)) (some (pos b)) = a + b ≡ 9
Mirrored _ _ = ⊥

Mirrored-if :
    (b : Bool) (o p : ℤ) (q r : Option ℤ)
    → Mirrored (some o) (some p)
    → Mirrored q r
    → Mirrored (if b then some o else q) (if b then some p else r)
Mirrored-if true o p q r h k = h
Mirrored-if false o p q r h k = k

labels-Mirrored : (s : String) → Mirrored (get s amqp_priorities) (get s redis_priorities)
unfolding get
labels-Mirrored s = Mirrored-if ("critical" == s) (pos 9) (pos 0) _ _ refl (
    Mirrored-if ("high" == s) (pos 6) (pos 3) _ _ refl (
      Mirrored-if ("normal" == s) (pos 3) (pos 6) _ _ refl
        (Mirrored-if ("low" == s) (pos 0) (pos 9) _ _ refl tt)))

-- A label has mirrored priorities on AMQP and on Redis, or is unknown to both.
pub coerce_priority-Mirrored :
    (label : String)
    → Mirrored
        (coerce_priority (str label) (some "amqp"))
        (coerce_priority (str label) (some "redis"))
unfolding coerce_priority
coerce_priority-Mirrored label = labels-Mirrored (lower (strip label))

within :
    (b c : Bool) (x y : Exception) (t v : Value)
    → (if b then raised x else if c then raised y else returned t) ≡ returned v
    → (b ≡ false) × (c ≡ false) × (v ≡ t)
within true c x y t v h = cc
within false true x y t v h = cc
within false false x y t v h = (refl, refl, cc)

not_below : (a b : ℕ) → ltb a b ≡ false → b ≤ a
not_below a b h = ground (arith, h)

-- What a text or a number that is no time raises.
abbrev pub is_unreadable : Kind → Bool
is_unreadable overflow_error = true
is_unreadable os_error = true
is_unreadable type_error = true
is_unreadable value_error = true
is_unreadable _ = false

module _ (rt : Runtime) where
  open rt use {World}

  -- An accepted delay is the one that was asked for, at most 60 seconds in the past and at most 365
  -- days ahead.
  pub within_window_lem :
      (target current : ℤ) (v : Value)
      → within_window rt target current ≡ returned v
      → (v ≡ time target)
        × (neg_part (target -ℤ current)
            ≤ pos_part (target -ℤ current) + microseconds eta_max_past_seconds)
        × (pos_part (target -ℤ current)
            ≤ neg_part (target -ℤ current) + microseconds eta_max_future_seconds)
  unfolding within_window
  within_window_lem target current v h =
      let (b, c, e) = within _ _ _ _ (time target) v h in (e, not_below _ _ b, not_below _ _ c)

  refused_before :
      (celery_app : Value) (req : Request) (w : World) (e : Exception)
      → eta_from_timestamp rt req.eta w ≡ (raised e, w)
      → e.kind ≡ value_error
      → retry_task_action rt celery_app req w
        ≡ (returned (refused (concat ("invalid eta: " ∷ e.text ∷ []))), w)
  unfolding retry_task_action
  refused_before celery_app req w e h k = rw (h, k) refl

  -- A delay that cannot be read as a time, or that lies more than 60 seconds in the past or more
  -- than 365 days ahead.
  pub data Unacceptable (eta : Value) (current : ℤ) : Type 0 where
    unreadable :
        (e : Exception)
        → rt.from_timestamp eta ≡ raised e
        → is_unreadable e.kind ≡ true
        → Unacceptable eta current
    early :
        (target : ℤ)
        → rt.from_timestamp eta ≡ returned target
        → pos_part (target -ℤ current) + 60000000 < neg_part (target -ℤ current)
        → Unacceptable eta current
    late :
        (target : ℤ)
        → rt.from_timestamp eta ≡ returned target
        → neg_part (target -ℤ current) + 31536000000000 < pos_part (target -ℤ current)
        → Unacceptable eta current

  asked_of :
      (eta : Value)
      → is_none eta ≡ false
      → eta_from_timestamp rt eta ≡ checked rt eta (rt.from_timestamp eta)
  unfolding eta_from_timestamp
  asked_of null h = absurd (ground (arith, h))
  asked_of (bool b) h = refl
  asked_of (int n) h = refl
  asked_of (str s) h = refl
  asked_of (list vs) h = refl
  asked_of (tuple vs) h = refl
  asked_of (dict fs) h = refl
  asked_of (time t) h = refl
  asked_of (object n) h = refl

  window_raises :
      (target current : ℤ) (e : Exception)
      → within_window rt target current ≡ raised e
      → e.kind ≡ value_error
  unfolding within_window
  window_raises target current e h = ground (arith, h)

  outside :
      (target current : ℤ)
      → (pos_part (target -ℤ current) + 60000000 < neg_part (target -ℤ current))
        ⊎ (neg_part (target -ℤ current) + 31536000000000 < pos_part (target -ℤ current))
      → (e : Exception) × (within_window rt target current ≡ raised e) × (e.kind ≡ value_error)
  outside target current h = known (within_window rt target current) refl
    where
      known :
          (o : Outcome Value)
          → within_window rt target current ≡ o
          → (e : Exception) × (within_window rt target current ≡ raised e) × (e.kind ≡ value_error)
      known (returned v) e =
          let (t, past, ahead) = within_window_lem target current v e in absurd (ground arith)
      known (raised x) e = (x, e, window_raises target current x e)

  unparsed_kind :
      (eta : Value) (e : Exception)
      → is_unreadable e.kind ≡ true
      → (unparsed rt eta e).kind ≡ value_error
  unparsed_kind eta e h = ground (arith, h)

  refused_eta :
      (eta : Value) (w : World)
      → Unacceptable eta (rt.now w)
      → (e : Exception) × (checked rt eta (rt.from_timestamp eta) w ≡ (raised e, w))
        × (e.kind ≡ value_error)
  refused_eta eta w (unreadable e h k) = (unparsed rt eta e, rw h refl, unparsed_kind eta e k)
  refused_eta eta w (early target h out) =
      let (e, k, v) = outside target (rt.now w) (inl out) in (e, rw (h, k) refl, v)
  refused_eta eta w (late target h out) =
      let (e, k, v) = outside target (rt.now w) (inr out) in (e, rw (h, k) refl, v)

  -- A delay that cannot be read as a time, or that lies more than 60 seconds in the past or more than
  -- 365 days ahead, makes a failure before anything is sent: the world is as it was.
  pub retry_refuses_eta :
      (celery_app : Value) (req : Request) (w : World)
      → is_none req.eta ≡ false
      → Unacceptable req.eta (rt.now w)
      → (c : CommandResult) × (retry_task_action rt celery_app req w ≡ (returned c, w))
        × (c.status ≡ failed)
  retry_refuses_eta celery_app req w asks out =
      let (e, h, k) = refused_eta req.eta w out in
      (
        refused (concat ("invalid eta: " ∷ e.text ∷ [])),
        refused_before celery_app req w e
            (ap (λ (m : Io World Value). m w) (asked_of req.eta asks) ∙ h) k,
        refl,
      )

  abbrev pub IsReal : String → Type 0
  IsReal s = is_placeholder s ≡ false

  -- A name that is found is the one of its source, and a real one.
  real_name-IsReal :
      (celery_app : Value) (task_id : String) (source : Option String)
      → Returns
          (λ name. IsReal name × (source ≡ some name))
          (real_name rt celery_app task_id source)
  real_name-IsReal celery_app task_id none w = tt
  real_name-IsReal celery_app task_id (some s) w = chosen (is_placeholder s) refl
    where
      chosen :
          (b : Bool)
          → is_placeholder s ≡ b
          → Holds
              (λ name. IsReal name × (some s ≡ some name))
              ((if b then raise (unresolved rt celery_app task_id) else pure s) w).0
      chosen true e = tt
      chosen false e = (e, refl)

  name_source-Respects :
      (celery_app : Value) (supplied : Option String) (async_result : Value)
      → Returns
          (λ source. (s : String) → supplied ≡ some s → source ≡ some s)
          (name_source rt celery_app supplied async_result)
  name_source-Respects celery_app (some t) async_result w = λ s h. h
  name_source-Respects celery_app none async_result w =
      Holds-all (λ source. (s : String) → none ≡ some s → source ≡ some s)
        (λ source s h. absurd (cc)) (name_source rt celery_app none async_result w).0

  -- The name that a retry is sent under, if one is found, is neither empty nor a placeholder, from
  -- whichever source it comes; and it is the caller's if that is a real one.
  pub retry_name-IsReal :
      (celery_app : Value) (req : Request) (async_result : Value)
      → Returns
          (λ name. IsReal name × ((s : String) → supplied_name req.task_name ≡ some s → name ≡ s))
          (retry_name rt celery_app req async_result)
  unfolding retry_name
  retry_name-IsReal celery_app req async_result =
      Returns-then (λ source. (s : String) → supplied_name req.task_name ≡ some s → source ≡ some s)
        (λ name. IsReal name × ((s : String) → supplied_name req.task_name ≡ some s → name ≡ s))
        (name_source rt celery_app (supplied_name req.task_name) async_result) _
        (name_source-Respects celery_app (supplied_name req.task_name) async_result)
        (λ source h w.
          followed source h (real_name rt celery_app req.task_id source w).0
            (real_name-IsReal celery_app req.task_id source w))
    where
      followed :
          (source : Option String)
          → ((s : String) → supplied_name req.task_name ≡ some s → source ≡ some s)
          → (r : Outcome String) → Holds (λ name. IsReal name × (source ≡ some name)) r
          → Holds
              (λ name.
                IsReal name × ((s : String) → supplied_name req.task_name ≡ some s → name ≡ s))
              r
      followed source h (returned name) (k, e) = (k, λ s i. ground (arith, h s i, e))
      followed source h (raised e) k = tt
