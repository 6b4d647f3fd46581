-- ===== src/Events/Broker/Dispatch.antt =====
-- What `_dispatch` guarantees for a message, whatever its body and whatever its handlers do.
use z4j_celery.Prelude.{
  if◌then◌else◌, ℕ, ◌+◌, ◌≡◌, ◌⊎◌, inl, inr, refl, ap, ◌∙◌, Bool, true, false, none, List, [], ◌∷◌,
  ◌++◌,
}
use z4j_celery.Python.{
  Value, list, dict, elements, values, items, as_dict, Io, continue, handle, Outcome, returned,
  raised, Exception, exception, Fields, pure, try_then, attribute_error, Dict,
}
use z4j_celery.Events.Broker.{
  Host, Monitor, dispatch, dispatch_one, dispatch_all, events_of, handle_element, handle_accepted,
  accepts, poisoned, ack_quietly,
}
use z4j_celery.Events.Broker.NameCache.Entries.{IsWellFormed}
use z4j_celery.Events.Broker.NameCache.Bounded.{
  cache_name-IsWellFormed, resolve_name-IsWellFormed, remove-IsWellFormed,
}
use z4j_celery.Events.Broker.Keeps.{Basics, all-Keeps}

-- How a message's events end.
abbrev pub Result : Type 0
Result = Outcome {0} (Unit {0})

module _ {W : Type 0} (host : Host W) (max : ℕ) where
  abbrev HasCache : Monitor W → Type 0
  HasCache s = IsWellFormed max s.name_cache

  abbrev HasCount : ℕ → Monitor W → Type 0
  HasCount n s = s.poison_drop_count ≡ n

  cache_basics : Basics host max HasCache
  cache_basics = record {
    keeps_emit = λ e. λ s p. p;
    keeps_learn = λ ev. λ s p. cache_name-IsWellFormed max ev s.name_cache p;
    keeps_name = λ ev. λ s p. resolve_name-IsWellFormed max ev s.name_cache p;
    keeps_forget = λ k. λ s p. remove-IsWellFormed max k s.name_cache p;
  }

  count_basics : (n : ℕ) → Basics host max (HasCount n)
  count_basics n = record {
    keeps_emit = λ e. λ s p. p;
    keeps_learn = λ ev. λ s p. p;
    keeps_name = λ ev. λ s p. p;
    keeps_forget = λ k. λ s p. p;
  }

  ending-HasCache :
      (r : Outcome Unit) (s : Monitor W)
      → HasCache s
      → HasCache
          (handle r
            (λ _. ack_quietly host max)
            (λ e. λ t. ack_quietly host max (poisoned host max t))
            s).1
  ending-HasCache (returned a) s p = p
  ending-HasCache (raised e) s p = p

  -- A message keeps the cache of names well-formed: bounded, and with no id twice.
  pub dispatch-IsWellFormed :
      (body : Value) (s : Monitor W)
      → IsWellFormed max s.name_cache
      → IsWellFormed max (dispatch host max body s).1.name_cache
  unfolding dispatch
  dispatch-IsWellFormed body s p =
      let (r, t) = dispatch_all host max (events_of host max body) s in
      ending-HasCache r t (all-Keeps host max HasCache cache_basics (events_of host max body) s p)

  -- What a message leaves, where `r` and `t` say how its events ended and `s` is the state before it:
  -- its acknowledgement is sent once, behind the events, and it is counted as poisoned if and only if
  -- an exception reached the callback.
  pub record Settles (r : Result) (t s : Monitor W) (out : Result × Monitor W) : Type 0 where
    pub returns : out.0 ≡ returned tt
    pub acked_once : out.1.world ≡ (host.ack t.world).1
    pub cached : out.1.name_cache ≡ t.name_cache
    pub counted :
        ((r ≡ returned tt) × (out.1.poison_drop_count ≡ s.poison_drop_count))
        ⊎ (((e : Exception) × (r ≡ raised e)) × (out.1.poison_drop_count ≡ s.poison_drop_count + 1))

  ending-Settles :
      (r : Outcome Unit) (t s : Monitor W)
      → t.poison_drop_count ≡ s.poison_drop_count
      → Settles r t s (
          handle r
            (λ _. ack_quietly host max)
            (λ e. λ u. ack_quietly host max (poisoned host max u))
            t)
  ending-Settles (returned tt) t s h = record {
    returns = refl;
    acked_once = refl;
    cached = refl;
    counted = inl (refl, h);
  }
  ending-Settles (raised e) t s h = record {
    returns = refl;
    acked_once = refl;
    cached = refl;
    counted = inr ((e, refl), ap (λ n. n + 1) h);
  }

  -- Whatever a message holds, the callback returns, acknowledges it once, behind its events, and
  -- counts it as poisoned if and only if an exception reached the callback.
  pub dispatch-Settles :
      (body : Value) (s : Monitor W)
      → Settles
          (dispatch_all host max (events_of host max body) s).0
          (dispatch_all host max (events_of host max body) s).1
          s
          (dispatch host max body s)
  unfolding dispatch
  dispatch-Settles body s =
      let (r, t) = dispatch_all host max (events_of host max body) s in
      ending-Settles r t s (
        all-Keeps host max (HasCount s.poison_drop_count) (count_basics s.poison_drop_count)
          (events_of host max body) s refl)

  continue_assoc :
      (r : Outcome Unit) (m n : Io (Monitor W) Unit) (s : Monitor W)
      → continue r (λ _. λ t. continue (m t).0 (λ _. n) (m t).1) s
        ≡ (let (q, t) = continue r (λ _. m) s in continue q (λ _. n) t)
  continue_assoc (returned a) m n s = refl
  continue_assoc (raised e) m n s = refl

  all-append :
      (vs us : List Value) (s : Monitor W)
      → dispatch_all host max (vs ++ us) s
        ≡ (let (q, t) = dispatch_all host max vs s in continue q (λ _. dispatch_all host max us) t)
  unfolding dispatch_all
  all-append [] us s = refl
  all-append (v ∷ vs) us s =
      let (q, t) = dispatch_one host max v s in
      ap (λ f. continue q (λ _. f) t) (λ i. λ u. all-append vs us u i)
      ∙ continue_assoc q (dispatch_all host max vs) (dispatch_all host max us) t

  elements-values : (vs : List Value) → elements (values vs) ≡ vs
  elements-values [] = refl
  elements-values (v ∷ vs) = ap (λ us. v ∷ us) (elements-values vs)

  bad_first :
      (bad : Value) (rest : List Value) (t : Monitor W)
      → as_dict bad ≡ none
      → dispatch_all host max (bad ∷ rest) t
        ≡ (raised (exception attribute_error "AttributeError" "get"), t)
  unfolding dispatch_all dispatch_one
  bad_first bad rest t e =
      ap
        (λ d.
          let (q, u) = handle_element host max d t in
          continue q (λ _. dispatch_all host max rest) u)
        e

  abbrev settle : Result × Monitor W → Result × Monitor W
  settle (r, t) =
      handle r (λ _. ack_quietly host max) (λ e. λ u. ack_quietly host max (poisoned host max u)) t

  -- An element that is no dictionary ends its batch, if no element before it raised: those before it
  -- have been handled, those behind it are lost with the message, which is counted once and
  -- acknowledged.
  pub dispatch_malformed :
      (good rest : List Value) (bad : Value) (s : Monitor W)
      → (dispatch_all host max good s).0 ≡ returned tt
      → as_dict bad ≡ none
      → dispatch host max (list (values (good ++ bad ∷ rest))) s
        ≡ ack_quietly host max (poisoned host max (dispatch_all host max good s).1)
  unfolding dispatch
  dispatch_malformed good rest bad s h e =
      let t = (dispatch_all host max good s).1 in
      ap (λ vs. settle (dispatch_all host max vs s)) (elements-values (good ++ bad ∷ rest))
      ∙ ap settle (all-append good (bad ∷ rest) s)
      ∙ ap (λ q. settle (continue q (λ _. dispatch_all host max (bad ∷ rest)) t)) h
      ∙ ap settle (bad_first bad rest t e)

  -- An event that is handled, and its message acknowledged.
  abbrev pub handled : Dict Value → Io (Monitor W) Unit
  handled ev =
      try_then (handle_accepted host max ev) (λ _. ack_quietly host max)
        (λ e. λ t. ack_quietly host max (poisoned host max t))

  accepted_or_not :
      (b : Bool) (ev : Dict Value) (s : Monitor W)
      → settle (
          let (q, u) =
            continue (returned b) (λ ok. if ok then handle_accepted host max ev else pure tt) s in
          continue q (λ _. pure tt) u)
        ≡ (if b then handled ev s else ack_quietly host max s)
  accepted_or_not false ev s = refl
  accepted_or_not true ev s = settled_unit (handle_accepted host max ev s).0
    where
      settled_unit :
          (q : Outcome Unit)
          → settle (continue q (λ _. pure tt) (handle_accepted host max ev s).1)
            ≡ settle (q, (handle_accepted host max ev s).1)
      settled_unit (returned u) = refl
      settled_unit (raised e) = refl

  -- A single event is handled or passed over, as the hostname filter says.
  pub dispatch_accepting :
      (ev : Fields) (b : Bool) (s : Monitor W)
      → accepts host max (items ev) ≡ returned b
      → dispatch host max (dict ev) s ≡ (if b then handled (items ev) s else ack_quietly host max s)
  unfolding dispatch dispatch_all dispatch_one
  dispatch_accepting ev b s e =
      ap
        (λ (o : Outcome Bool).
          let (q, u) =
            continue o (λ ok. if ok then handle_accepted host max (items ev) else pure tt) s in
          settle (continue q (λ _. pure tt) u))
        e
      ∙ accepted_or_not b (items ev) s
