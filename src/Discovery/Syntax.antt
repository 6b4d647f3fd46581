-- ===== src/Discovery/Syntax.antt =====
-- src/z4j_celery/discovery/static.py: what the static scan reads of a function's syntax tree. The
-- trees are those of Python's `ast`; `other` is a node of any other class.
pub mod Dotted
pub mod Rendered
use Prim.Native.String.{[], ◌∷◌, ◌++◌}
use z4j_celery.Prelude.{
  ℕ, String, Bool, true, false, ◌||◌, Option, none, some, List, map, ◌==◌, ltb, starts_with,
  if◌then◌else◌,
}
use z4j_celery.Prelude.Text.{length, take, contains}
use z4j_celery.Python.{Value, as_str, Outcome, returned, raised}
use z4j_celery.Discovery.Paths.{join}
use mathlib.Core.List
use mathlib.Core.List.{reverse}

mutual
  pub data Expr : Type 0 where
    name : String → Expr
    attribute : Expr → String → Expr
    call : Expr → Keywords → Expr
    constant : Value → Expr
    other : ℕ → Expr

  -- `keyword(arg, value)`: `arg` is `None` for `**value`.
  pub data Keywords : Type 0 where
    end : Keywords
    keyword : Option String → Expr → Keywords → Keywords

pub record Arg : Type 0 where
  pub arg : String
  pub annotation : Option Expr

pub record Arguments : Type 0 where
  pub posonlyargs : List Arg
  pub args : List Arg
  pub vararg : Option Arg
  pub kwonlyargs : List Arg
  pub kwarg : Option Arg

-- `FunctionDef | AsyncFunctionDef`
pub record Function : Type 0 where
  pub name : String
  pub decorator_list : List Expr
  pub args : Arguments

-- `s.rsplit(".", 1)[-1]`
unfoldable pub behind_last_dot : String → String
behind_last_dot [] = []
behind_last_dot (c ∷ s) =
    let later = behind_last_dot s in
    if contains "." s then later else if starts_with (c ∷ s) "." then s else c ∷ s

-- The names of a chain of attributes, the last one first; any other root has no name.
abbrev pub chain : Expr → List String
chain (name id) = List.◌∷◌ id List.[]
chain (attribute value attr) = List.◌∷◌ attr (chain value)
chain _ = List.[]

abbrev pub decorator_name : Expr → Option String
decorator_name (call func keywords) = decorator_name func
decorator_name (name id) = some id
decorator_name (attribute value attr) = some (join "." (reverse (List.◌∷◌ attr (chain value))))
decorator_name _ = none

-- `short in {"shared_task", "task"}`
abbrev pub is_task_name : String → Bool
is_task_name short = short == "shared_task" || short == "task"

abbrev pub is_named_task : Option String → Bool
is_named_task none = false
is_named_task (some dotted) = is_task_name (behind_last_dot dotted)

abbrev pub any_task : List Expr → Bool
any_task List.[] = false
any_task (List.◌∷◌ decorator rest) = is_named_task (decorator_name decorator) || any_task rest

abbrev pub has_task_decorator : Function → Bool
has_task_decorator node = any_task node.decorator_list

-- `keyword.arg == "queue" and isinstance(keyword.value, ast.Constant)`, of a text.
abbrev pub constant_text : Expr → Option String
constant_text (constant value) = as_str value
constant_text _ = none

abbrev pub queue_text : Option String → Expr → Option String
queue_text none value = none
queue_text (some arg) value = if arg == "queue" then constant_text value else none

abbrev pub or_else {ℓ} : {A : Type ℓ} → Option A → Option A → Option A
or_else (some a) later = some a
or_else none later = later

abbrev pub queue_in : Keywords → Option String
queue_in end = none
queue_in (keyword arg value rest) = or_else (queue_text arg value) (queue_in rest)

abbrev pub queue_of : Expr → Option String
queue_of (call func keywords) = queue_in keywords
queue_of _ = none

abbrev pub first_queue : List Expr → Option String
first_queue List.[] = none
first_queue (List.◌∷◌ decorator rest) = or_else (queue_of decorator) (first_queue rest)

abbrev pub queue_from_decorator : Function → Option String
queue_from_decorator node = first_queue node.decorator_list

-- A text of more than 2,000 characters is cut.
abbrev pub cut : String → String
cut rendered = if ltb 2000 (length rendered) then take 1997 rendered ++ "..." else rendered

-- `ast.unparse` may raise.
module _ (unparse : Expr → Outcome String) where
  abbrev pub annotated : String → Outcome String → String
  annotated arg (returned annotation) = arg ++ ": " ++ annotation
  annotated arg (raised e) = arg

  abbrev pub render_annotation : String → Option Expr → String
  render_annotation arg none = arg
  render_annotation arg (some annotation) = annotated arg (unparse annotation)

  abbrev pub render_arg : Arg → String
  render_arg arg = render_annotation arg.arg arg.annotation

  abbrev pub starred : String → Option Arg → List String
  starred stars none = List.[]
  starred stars (some arg) = List.◌∷◌ (stars ++ arg.arg) List.[]

  abbrev pub rendered_parts : Arguments → List String
  rendered_parts args = List.◌++◌ (map render_arg (List.◌++◌ args.posonlyargs args.args)) (
      List.◌++◌ (starred "*" args.vararg)
        (List.◌++◌ (map render_arg args.kwonlyargs) (starred "**" args.kwarg)))

  unfoldable pub render_signature : Function → String
  render_signature node = cut ("(" ++ join ", " (rendered_parts node.args) ++ ")")
