-- ===== src/Actions/Purge.antt =====
-- src/z4j_celery/actions/purge.py: the guarded purge of a queue.
pub mod Guard
use z4j_celery.Prelude.{
  ℕ, String, Bool, true, false, Option, none, some, List, [], ◌∷◌, if◌then◌else◌, not,
}
use z4j_celery.Prelude.Int.{ℤ, pos, ltb_ℤ, max_ℤ, show_ℤ}
use z4j_celery.Prelude.Text.{concat, is_empty}
use z4j_celery.Python.{
  Value, bool, str, as_int, of_option_int, is_callable, is_none, Dict, Kind, value_error,
  offload_timeout_error, attribute_error, purge_unsupported, Exception, exception, Outcome,
  returned, raised, Io, pure, raise, lift, try_then, ◌>>=◌, Runtime, getattr, hasattr, with_context,
}
use z4j_celery.Command.{CommandResult, succeeded, refused}
use z4j_celery.Offload.{offload, indeterminate_timeout_result}

abbrev pub purge_timeout : ℕ
purge_timeout = 10

abbrev pub default_purge_threshold : ℤ
default_purge_threshold = pos 1000

-- z4j_core's confirm tokens: the secret is raw bytes.
pub record Tokens (W : Type 0) : Type 0 where
  pub decode_agent_hmac_secret : String → Outcome String
  pub compute_purge_confirm_token : String → String → ℤ → String
  pub legacy_purge_confirm_token : String → ℤ → String
  -- provided, queue, depth, secret, accept_legacy: accepted, and by a legacy token
  pub verify_purge_confirm_token : String → String → ℤ → Option String → Bool → Bool × Bool
  pub accept_legacy_from_env : W → Bool

-- `if secret:` an empty one counts as none
unfoldable pub expected_confirm_token :
    {W : Type 0} → Tokens W → String → ℤ → Option String → String
expected_confirm_token tokens queue_name queue_depth none =
    tokens.legacy_purge_confirm_token queue_name queue_depth
expected_confirm_token tokens queue_name queue_depth (some secret) =
    if is_empty secret
    then tokens.legacy_purge_confirm_token queue_name queue_depth
    else tokens.compute_purge_confirm_token secret queue_name queue_depth

abbrev pub at_least_one : Outcome ℤ → Outcome ℤ
at_least_one (returned n) = returned (max_ℤ (pos 1) n)
at_least_one (raised e) = elim e.kind [
  | value_error ↦ returned default_purge_threshold
  | _ ↦ raised e
]

module _ (rt : Runtime) (tokens : Tokens (Runtime.World rt)) where
  open rt use {World, attribute, call, to_int, environ}

  abbrev pub decoded : Outcome String → Outcome (Option String)
  decoded (returned s) = returned (some s)
  decoded (raised e) = elim e.kind [ value_error ↦ returned none | _ ↦ raised e ]

  unfoldable pub resolve_agent_secret : World → Outcome (Option String)
  resolve_agent_secret w = elim (environ w "Z4J_HMAC_SECRET") [
    | none ↦ returned none
    | some raw ↦
        if is_empty raw then returned none else decoded (tokens.decode_agent_hmac_secret raw)
  ]

  unfoldable pub purge_threshold : World → Outcome ℤ
  purge_threshold w = elim (environ w "Z4J_PURGE_THRESHOLD") [
    | none ↦ returned default_purge_threshold
    | some raw ↦
        if is_empty raw then returned default_purge_threshold else at_least_one (to_int (str raw))
  ]

  -- The Redis channel's `LLEN`.
  measure_llen : Value → String → Io World (Option ℤ)
  measure_llen channel queue_name = do
    client ← getattr rt channel "client"
    if is_none client then pure none else do
      has ← hasattr rt client "llen"
      if not has then pure none else do
        n ← call client "llen" (str queue_name ∷ []) []
        depth ← lift (to_int n)
        pure (some depth)

  measure_channel : String → Value → Io World (Option ℤ)
  unfolding measure_llen
  measure_channel queue_name conn = do
    channel ← attribute conn "default_channel"
    queue_decl ← getattr rt channel "queue_declare"
    if not (is_callable queue_decl) then measure_llen channel queue_name else do
      resp ← call channel "queue_declare" (str queue_name ∷ []) (("passive", bool true) ∷ [])
      msg_count ← getattr rt resp "message_count"
      elim (as_int msg_count) [ some n ↦ pure (some n) | none ↦ measure_llen channel queue_name ]

  -- Any exception means that the depth is not known.
  unfoldable pub measure_depth : Value → String → Io World (Option ℤ)
  unfolding measure_channel
  measure_depth celery_app queue_name =
      try_then
        (do
          conn ← call celery_app "connection_for_read" [] []
          with_context rt conn (measure_channel queue_name))
        pure (λ _. pure none)

  -- A channel with no `queue_purge` is refused: the queue is never deleted instead.
  unfoldable pub do_purge : Value → String → Io World (Option ℤ)
  do_purge celery_app queue_name = do
    conn ← call celery_app "connection_for_write" [] []
    with_context rt conn (λ inner. do
      channel ← attribute inner "default_channel"
      purged ← try_then (call channel "queue_purge" (str queue_name ∷ []) []) pure (λ e.
          elim e.kind [
            | attribute_error ↦ raise (exception purge_unsupported "_PurgeUnsupported" "")
            | _ ↦ raise e
          ])
      pure (as_int purged))

  -- Why the purge is refused, if it is.
  unfoldable pub refusal : String → Option String → Option ℤ → World → Outcome (Option String)
  refusal queue_name none depth w = returned (
      some
        "purge_queue: missing confirm_token. The brain must compute HMAC(queue_name, current_depth) and include it in the command.")
  refusal queue_name (some token) none w = returned (
      some
        "purge_queue: cannot measure current depth - refusing to purge without confirmation. Pass force=True if absolutely necessary.")
  refusal queue_name (some token) (some depth) w = elim (purge_threshold w) [
    | raised e ↦ raised e
    | returned threshold ↦
        if ltb_ℤ threshold depth
        then returned (
            some (
              concat (
                "purge_queue: depth "
                ∷ show_ℤ depth
                ∷ " exceeds threshold "
                ∷ show_ℤ threshold
                ∷ "; refusing to mass-delete. Raise Z4J_PURGE_THRESHOLD or use force=True."
                ∷ [])))
        else elim (resolve_agent_secret w) [
          | raised e ↦ raised e
          | returned secret ↦
              if (tokens.verify_purge_confirm_token token queue_name depth secret
                (tokens.accept_legacy_from_env w)).0
              then returned none
              else returned (
                  some
                    "purge_queue: confirm_token mismatch. The queue depth changed between brain issue and agent execution, or the command is replayed. Re-issue the command.")
        ]
  ]

  abbrev purge_failed : Exception → CommandResult
  purge_failed e = elim e.kind [
    | purge_unsupported ↦
        refused
          "purge_queue: kombu channel does not support queue_purge; refusing to fall back to queue_delete (would destroy bindings)"
    | offload_timeout_error ↦
        indeterminate_timeout_result "purge_queue" purge_timeout "the queue may still be purged"
    | _ ↦ refused (concat ("purge_queue failed: " ∷ e.name ∷ []))
  ]

  abbrev purge_done : String → Option ℤ → Bool → Option ℤ → CommandResult
  purge_done queue_name depth force purged = succeeded (
      ("queue", str queue_name)
      ∷ ("depth_before", of_option_int depth)
      ∷ ("purged", of_option_int purged)
      ∷ ("force", bool force)
      ∷ [])

  -- The purge and its report.
  unfoldable pub purge_step : Value → String → Option ℤ → Bool → Io World CommandResult
  purge_step celery_app queue_name depth force =
      try_then (offload rt purge_timeout (do_purge celery_app queue_name))
        (λ purged. pure (purge_done queue_name depth force purged)) (λ e. pure (purge_failed e))

  -- The depth probe: a timeout, like any failure, leaves the depth unknown.
  unfoldable pub probe : Value → String → Io World (Option ℤ)
  probe celery_app queue_name =
      try_then (offload rt purge_timeout (measure_depth celery_app queue_name)) pure
        (λ _. pure none)

  unfoldable pub purge_queue_action : Value → String → Option String → Bool → Io World CommandResult
  purge_queue_action celery_app queue_name confirm_token force = do
    depth ← probe celery_app queue_name
    if force then purge_step celery_app queue_name depth true else (λ w.
        elim (refusal queue_name confirm_token depth w) [
          | raised e ↦ raise e w
          | returned (some error) ↦ pure (refused error) w
          | returned none ↦ purge_step celery_app queue_name depth false w
        ])
