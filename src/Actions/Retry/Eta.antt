-- ===== src/Actions/Retry/Eta.antt =====
-- The window of a delayed retry, `_eta_from_timestamp` of src/z4j_celery/actions/retry.py, in
-- microseconds.
use z4j_celery.Prelude.{ℕ, ◌+◌, ◌*◌, ◌/◌, ◌%◌, String, [], ◌∷◌, ltb, eqb, if◌then◌else◌}
use z4j_celery.Prelude.Int.{ℤ, pos_part, neg_part, ◌-ℤ◌}
use z4j_celery.Prelude.Text.{concat, show}
use z4j_celery.Python.{
  Value, null, time, Exception, exception, value_error, type_error, os_error, overflow_error,
  Outcome, returned, raised, Io, pure, Runtime,
}

abbrev pub eta_max_past_seconds : ℕ
eta_max_past_seconds = 60

abbrev pub eta_max_future_seconds : ℕ
eta_max_future_seconds = 365 * 24 * 3600

abbrev pub microseconds : ℕ → ℕ
microseconds s = s * 1000000

-- `f"{x:.0f}"` of a positive number of microseconds: whole seconds, a half to the even side.
abbrev pub whole_seconds : ℕ → ℕ
whole_seconds us =
    let q = us / 1000000 in
    let r = us % 1000000 in
    if ltb (r * 2) 1000000 then q else if eqb (r * 2) 1000000 then q + q % 2 else q + 1

abbrev pub eta_error : String → Exception
eta_error text = exception value_error "ValueError" text

module _ (rt : Runtime) where
  open rt use {World, now, from_timestamp, py_repr}

  abbrev pub unparsed : Value → Exception → Exception
  unparsed eta e =
      let refused =
        eta_error
          (concat ("retry eta " ∷ py_repr eta ∷ " cannot be parsed as a POSIX timestamp" ∷ [])) in
      elim e.kind [
        | overflow_error ↦ refused
        | os_error ↦ refused
        | type_error ↦ refused
        | value_error ↦ refused
        | _ ↦ e
      ]

  unfoldable pub within_window : ℤ → ℤ → Outcome Value
  within_window target current =
      let delta = target -ℤ current in
      if ltb (pos_part delta + microseconds eta_max_past_seconds) (neg_part delta)
      then raised (
          eta_error (
            concat (
              "retry eta is "
              ∷ show (whole_seconds (neg_part delta))
              ∷ "s in the past (max allowed: 60s)"
              ∷ [])))
      else if ltb (neg_part delta + microseconds eta_max_future_seconds) (pos_part delta)
      then raised (
          eta_error (
            concat (
              "retry eta is "
              ∷ show (whole_seconds (pos_part delta))
              ∷ "s in the future (max allowed: 31536000s = 365 days)"
              ∷ [])))
      else returned (time target)

  abbrev pub checked : Value → Outcome ℤ → Io World Value
  checked eta (raised e) w = (raised (unparsed eta e), w)
  checked eta (returned target) w = (within_window target (now w), w)

  -- `None` is no delay.
  unfoldable pub eta_from_timestamp : Value → Io World Value
  unfolding within_window
  eta_from_timestamp null = pure null
  eta_from_timestamp eta = checked eta (from_timestamp eta)
