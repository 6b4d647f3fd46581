-- ===== src/Discovery/Syntax/Rendered.antt =====
-- The size of a rendered signature.
use Prim.Native.String.{◌++◌}
use z4j_celery.Prelude.{◌≤◌, String, arith, ltb, Bool-cases, inl, inr}
use z4j_celery.Prelude.Text.{length, take, length-append, length-take}
use z4j_celery.Python.{Outcome}
use z4j_celery.Discovery.Paths.{join}
use z4j_celery.Discovery.Syntax.{Expr, Function, cut, rendered_parts, render_signature}

pub cut-bound : (s : String) → length (cut s) ≤ 2000
cut-bound s = elim (Bool-cases (ltb 2000 (length s))) [
  | inl e ↦ rw e (omega (arith, length-append (take 1997 s) "...", length-take 1997 s))
  | inr e ↦ rw e (ground arith)
]

-- A signature is at most 2,000 characters long, whatever its annotations.
pub length-render_signature :
    (unparse : Expr → Outcome String) (node : Function)
    → length (render_signature unparse node) ≤ 2000
unfolding render_signature
length-render_signature unparse node =
    cut-bound ("(" ++ join ", " (rendered_parts unparse node.args) ++ ")")
