-- ===== src/Offload.antt =====
-- src/z4j_celery/_offload.py: broker calls on a bounded pool, under a timeout. The pool itself is
-- in the child module. Timeouts are whole seconds.
pub mod Pool
pub mod World
pub mod Publishing
use z4j_celery.Prelude.{ℕ, String, true, some, [], ◌∷◌, if◌then◌else◌}
use z4j_celery.Prelude.Text.{concat, is_empty, show}
use z4j_celery.Python.{
  Value, bool, str, Io, Kind, timeout_error, offload_timeout_error, Exception, Outcome, returned,
  raised, Runtime,
}
use z4j_celery.Command.{CommandResult, failed}

abbrev pub offload_timeout : Exception
offload_timeout = record { kind = offload_timeout_error; name = "OffloadTimeoutError"; text = "" }

-- `except TimeoutError`: also a `TimeoutError` that the call itself raised.
abbrev pub translate : {A : Type 0} → Outcome A → Outcome A
translate (returned a) = returned a
translate (raised e) = raised (elim e.kind [ timeout_error ↦ offload_timeout | _ ↦ e ])

-- The thread is not cancelled: what the call did to the world is done, also after a timeout.
unfoldable pub offload :
    (rt : Runtime) {A : Type 0} → ℕ → Io (Runtime.World rt) A → Io (Runtime.World rt) A
offload rt timeout fn w =
    let (r, w') = fn w in
    if rt.outlives timeout w w' then (raised offload_timeout, w') else (translate r, w')

-- `hint` is "" where the source leaves it out.
unfoldable pub indeterminate_timeout_result : String → ℕ → String → CommandResult
indeterminate_timeout_result operation timeout hint =
    let tail = if is_empty hint then "" else concat (" -- " ∷ hint ∷ []) in
    record {
      status = failed;
      error = some (
          concat (
            operation
            ∷ ": INDETERMINATE -- the broker call timed out after "
            ∷ show timeout
            ∷ "s. The operation MAY have already completed on the broker (the agent cannot cancel an in-flight broker call). Do NOT blindly retry (risk of a duplicate side effect)"
            ∷ tail
            ∷ "; verify broker state first."
            ∷ []));
      result = some (("indeterminate", bool true) ∷ ("operation", str operation) ∷ []);
    }
