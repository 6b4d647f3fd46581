-- ===== src/Engine/Actions/Purging.antt =====
-- The answers of the purge.
use z4j_celery.Prelude.{
  String, Bool, true, false, Option, none, some, inl, inr, Option-cases, if◌then◌else◌,
}
use z4j_celery.Prelude.Int.{ℤ, ltb_ℤ}
use z4j_celery.Prelude.Text.{is_empty}
use z4j_celery.Python.{
  Value, str, Outcome, returned, raised, Io, pure, raise, Runtime, Raises, Never, Answers,
  Answers-then, Answers-catch, Answers-if,
}
use z4j_celery.Offload.{offload}
use z4j_celery.Command.{CommandResult, refused}
use z4j_celery.Actions.Control.Answers.{try-Answers}
use z4j_celery.Actions.Purge.{
  at_least_one, decoded, default_purge_threshold, Tokens, purge_queue_action, purge_step,
  purge_timeout, measure_depth, probe, refusal, purge_threshold, resolve_agent_secret,
}
use z4j_celery.Engine.Actions.Documented.{IsValueError, Documented, of_answer}

module _ (rt : Runtime) (tokens : Tokens (Runtime.World rt)) (celery_app : Value)
    (documented : Documented rt tokens) where
  open rt use {World}

  Never-elim :
      {A B : Type 0} (o : Outcome A) (f : A → Outcome B)
      → Raises Never o
      → ((a : A) → Raises Never (f a))
      → Raises Never (elim o [ raised e ↦ raised e | returned a ↦ f a ])
  Never-elim (returned a) f h k = k a
  Never-elim (raised e) f h k = h

  Never-if :
      {A : Type 0} (b : Bool) (x y : Outcome A)
      → Raises Never x
      → Raises Never y
      → Raises Never (if b then x else y)
  Never-if true x y h k = h
  Never-if false x y h k = k

  at_least_one-Raises : (o : Outcome ℤ) → Raises IsValueError o → Raises Never (at_least_one o)
  at_least_one-Raises (returned n) h = tt
  at_least_one-Raises (raised e) h = rw h tt

  threshold-Raises : (w : World) → Raises Never (purge_threshold rt tokens w)
  unfolding purge_threshold
  threshold-Raises w = elim (Option-cases (rt.environ w "Z4J_PURGE_THRESHOLD")) [
    | inl e ↦ rw (e, Raises) tt
    | inr (raw, e) ↦
        rw (e, Raises)
          (Never-if (is_empty raw) (returned default_purge_threshold)
            (at_least_one (rt.to_int (str raw))) tt
            (at_least_one-Raises (rt.to_int (str raw)) (documented.ints raw)))
  ]

  decoded-Raises : (o : Outcome String) → Raises IsValueError o → Raises Never (decoded rt tokens o)
  decoded-Raises (returned s) h = tt
  decoded-Raises (raised e) h = rw h tt

  secret-Raises : (w : World) → Raises Never (resolve_agent_secret rt tokens w)
  unfolding resolve_agent_secret
  secret-Raises w = elim (Option-cases (rt.environ w "Z4J_HMAC_SECRET")) [
    | inl e ↦ rw (e, Raises) tt
    | inr (raw, e) ↦
        rw (e, Raises)
          (Never-if (is_empty raw) (returned none)
            (decoded rt tokens (tokens.decode_agent_hmac_secret raw)) tt
            (decoded-Raises (tokens.decode_agent_hmac_secret raw) (documented.secrets raw)))
  ]

  refusal-Raises :
      (queue_name : String) (token : Option String) (depth : Option ℤ) (w : World)
      → Raises Never (refusal rt tokens queue_name token depth w)
  unfolding refusal
  refusal-Raises queue_name none depth w = tt
  refusal-Raises queue_name (some token) none w = tt
  refusal-Raises queue_name (some token) (some depth) w =
      Never-elim (purge_threshold rt tokens w) _ (threshold-Raises w) (λ threshold.
        Never-if (ltb_ℤ threshold depth) _ _ tt (
          Never-elim (resolve_agent_secret rt tokens w) _ (secret-Raises w) (λ secret.
            Never-if
              (tokens.verify_purge_confirm_token token queue_name depth secret
                (tokens.accept_legacy_from_env w)).0
              _ _ tt tt)))

  purge_step-Answers :
      (queue_name : String) (depth : Option ℤ) (force : Bool)
      → Answers (purge_step rt tokens celery_app queue_name depth force)
  unfolding purge_step
  purge_step-Answers queue_name depth force =
      of_answer rt celery_app (try-Answers rt celery_app _ _ _)

  -- What the action makes of the refusal.
  abbrev decide :
      Io World CommandResult → World → Outcome (Option String) → Outcome CommandResult × World
  decide m w o = elim o [
    | raised e ↦ raise e w
    | returned (some error) ↦ pure (refused error) w
    | returned none ↦ m w
  ]

  decide-Answers :
      (o : Outcome (Option String)) (m : Io World CommandResult) (w : World)
      → Raises Never o
      → Answers m
      → Raises Never (decide m w o).0
  decide-Answers (returned none) m w h k = k w
  decide-Answers (returned (some error)) m w h k = tt
  decide-Answers (raised e) m w h k = h

  probe-Answers : (queue_name : String) → Answers (probe rt tokens celery_app queue_name)
  unfolding probe
  probe-Answers queue_name =
      Answers-catch (offload rt purge_timeout (measure_depth rt tokens celery_app queue_name))
        (λ depth. pure depth) (λ _. pure none) (λ depth w. tt) (λ e w. tt)

  pub purge-Answers :
      (queue_name : String) (token : Option String) (force : Bool)
      → Answers (purge_queue_action rt tokens celery_app queue_name token force)
  unfolding purge_queue_action
  purge-Answers queue_name token force =
      Answers-then (probe rt tokens celery_app queue_name) _ (probe-Answers queue_name) (λ depth.
        Answers-if force (purge_step rt tokens celery_app queue_name depth true) _
          (purge_step-Answers queue_name depth true)
          (λ w.
            decide-Answers (refusal rt tokens queue_name token depth w)
              (purge_step rt tokens celery_app queue_name depth false) w
              (refusal-Raises queue_name token depth w)
              (purge_step-Answers queue_name depth false)))
