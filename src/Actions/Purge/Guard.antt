-- ===== src/Actions/Purge/Guard.antt =====
-- When a queue may be purged.
use z4j_celery.Prelude.{String, ◌≡◌, ◌≢◌, true, false, Option, none, some, arith, refl, inl, inr}
use z4j_celery.Prelude.Int.{ℤ, ◌≤ℤ◌}
use z4j_celery.Python.{Value, Outcome, Outcome-cases, returned, raised, handle, pure, Runtime}
use z4j_celery.Command.{CommandResult, failed}
use z4j_celery.Offload.{offload}
use z4j_celery.Actions.Purge.{
  Tokens, purge_timeout, measure_depth, purge_threshold, resolve_agent_secret, refusal, probe,
  purge_step, purge_queue_action,
}

module _ (rt : Runtime) (tokens : Tokens (Runtime.World rt)) (celery_app : Value)
    (queue_name : String) where
  open rt use {World}

  -- A measured depth within the threshold, and a token that z4j_core accepts for that queue at that
  -- depth.
  pub record IsAuthorised (confirm_token : Option String) (depth : Option ℤ) (w : World)
      : Type 0 where
    pub token : String
    pub measured : ℤ
    pub threshold : ℤ
    pub secret : Option String
    pub supplied : confirm_token ≡ some token
    pub known : depth ≡ some measured
    pub limit : purge_threshold rt tokens w ≡ returned threshold
    pub keyed : resolve_agent_secret rt tokens w ≡ returned secret
    pub small : measured ≤ℤ threshold
    pub accepted :
        (tokens.verify_purge_confirm_token token queue_name measured secret
          (tokens.accept_legacy_from_env w)).0
        ≡ true

  -- The probe's way out is a depth, known or not.
  probe_returns :
      (w : World)
      → (depth : Option ℤ) × (w' : World) × (probe rt tokens celery_app queue_name w
          ≡ (returned depth, w'))
  unfolding probe
  probe_returns w =
      settle (offload rt purge_timeout (measure_depth rt tokens celery_app queue_name) w)
    where
      settle :
          (o : Outcome (Option ℤ) × World)
          → (depth : Option ℤ) × (w' : World) × (handle {W = World} o.0 pure (λ _. pure none) o.1
              ≡ (returned depth, w'))
      settle (returned d, w') = (d, w', refl)
      settle (raised e, w') = (none, w', refl)

  refusal-IsAuthorised :
      (confirm_token : Option String) (depth : Option ℤ) (w : World)
      → refusal rt tokens queue_name confirm_token depth w ≡ returned none
      → IsAuthorised confirm_token depth w
  unfolding refusal
  refusal-IsAuthorised none depth w h = cc
  refusal-IsAuthorised (some t) none w h = cc
  refusal-IsAuthorised (some t) (some d) w h = elim (Outcome-cases (purge_threshold rt tokens w)) [
    | inr (e, raises) ↦ absurd (ground arith)
    | inl (threshold, limit) ↦ elim (Outcome-cases (resolve_agent_secret rt tokens w)) [
      | inr (e, raises) ↦ absurd (ground arith)
      | inl (secret, keyed) ↦ record {
        token = t;
        measured = d;
        threshold = threshold;
        secret = secret;
        supplied = refl;
        known = refl;
        limit = limit;
        keyed = keyed;
        small = ground arith;
        accepted = ground arith;
      }
    ]
  ]

  IsAuthorised-refusal :
      (confirm_token : Option String) (depth : Option ℤ) (w : World)
      → IsAuthorised confirm_token depth w
      → refusal rt tokens queue_name confirm_token depth w ≡ returned none
  unfolding refusal
  IsAuthorised-refusal confirm_token depth w a =
      rw (a.supplied, a.known) (ground (arith, a.limit, a.keyed, a.small, a.accepted))

  abbrev pub unforced : Option String → World → Outcome CommandResult × World
  unforced confirm_token = purge_queue_action rt tokens celery_app queue_name confirm_token false

  unforced-step :
      (confirm_token : Option String) (w : World) (depth : Option ℤ) (w' : World)
      → probe rt tokens celery_app queue_name w ≡ (returned depth, w')
      → refusal rt tokens queue_name confirm_token depth w' ≡ returned none
      → unforced confirm_token w ≡ purge_step rt tokens celery_app queue_name depth false w'
  unfolding purge_queue_action
  unforced-step confirm_token w depth w' e h = ground arith

  -- What an unforced call does when it purges nothing.
  abbrev pub LeavesAlone : Option String → World → World → Type 0
  LeavesAlone confirm_token w w' =
      ((unforced confirm_token w).1 ≡ w')
      × ((c : CommandResult) → (unforced confirm_token w).0 ≡ returned c → c.status ≡ failed)

  unforced-LeavesAlone :
      (confirm_token : Option String) (w : World) (depth : Option ℤ) (w' : World)
      → probe rt tokens celery_app queue_name w ≡ (returned depth, w')
      → refusal rt tokens queue_name confirm_token depth w' ≢ returned none
      → LeavesAlone confirm_token w w'
  unfolding purge_queue_action
  unforced-LeavesAlone confirm_token w depth w' e h = (ground arith, λ c p. ground arith)

  -- Without force the depth is measured first. The purge is then attempted exactly when that depth
  -- is known, is within the threshold, and has a token that z4j_core accepts for it. In every other
  -- case the broker is left as the probe left it, and the answer, if there is one, is a failure.
  pub purge_unforced :
      (confirm_token : Option String) (w : World)
      → (depth : Option ℤ) × (w' : World) × (probe rt tokens celery_app queue_name w
          ≡ (returned depth, w'))
        × (IsAuthorised confirm_token depth w'
            → unforced confirm_token w ≡ purge_step rt tokens celery_app queue_name depth false w')
        × (¬ IsAuthorised confirm_token depth w' → LeavesAlone confirm_token w w')
  purge_unforced confirm_token w =
      let (depth, w', e) = probe_returns w in
      (
        depth,
        w',
        e,
        λ a.
            unforced-step confirm_token w depth w' e
              (IsAuthorised-refusal confirm_token depth w' a),
        λ n.
            unforced-LeavesAlone confirm_token w depth w' e
              (λ h. n (refusal-IsAuthorised confirm_token depth w' h)),
      )
