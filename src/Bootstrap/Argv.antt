-- ===== src/Bootstrap/Argv.antt =====
-- Whether the command line is a `celery worker`, from src/z4j_celery/worker_bootstrap.py. Paths are
-- POSIX paths.
pub mod Launch
use z4j_celery.Prelude.{
  ℕ, String, Bool, true, false, Option, none, some, List, [], ◌∷◌, ◌&&◌, ◌||◌, ◌==◌, eqb,
  starts_with, if◌then◌else◌,
}
use z4j_celery.Prelude.Text.{is_empty, lower}
use z4j_celery.Python.{member, Runtime}
use mathlib.Core.Option
use Prim.Native.Char.{code}
use Prim.Native.String

-- The last component that is not empty and not ".".
abbrev pub last_component : String → String → String
last_component current last = if is_empty current || current == "." then last else current

unfoldable pub name_from : String → String → String → String
name_from current last String.[] = last_component current last
name_from current last (String.◌∷◌ c s) =
    let next = name_from "" (last_component current last) s in
    let more = name_from (String.◌++◌ current (String.◌∷◌ c String.[])) last s in
    if eqb (code c) 47 then next else more

-- `Path(s).name`
unfoldable pub path_name : String → String
unfolding name_from
path_name s = name_from "" "" s

abbrev pub options_with_separate_value : List String
options_with_separate_value =
    "-A" ∷ "--app" ∷ "-b" ∷ "--broker" ∷ "--result-backend" ∷ "--loader" ∷ "--config" ∷ "--workdir"
    ∷ []

-- `while index < len(remaining)`; in the state `true` the token is the value of an option.
unfoldable pub scan_options : Bool → List String → Bool
scan_options skip [] = false
scan_options true (value ∷ rest) = scan_options false rest
scan_options false (arg ∷ rest) =
    let after_value = scan_options true rest in
    let after_flag = scan_options false rest in
    if member arg options_with_separate_value
    then after_value
    else if starts_with arg "-"
    then after_flag
    else arg == "worker"

unfoldable pub argv_has_worker_subcommand : List String → Bool
unfolding scan_options
argv_has_worker_subcommand remaining = scan_options false remaining

abbrev pub is_python : String → Bool
is_python name = starts_with name "python" || starts_with name "pypy"

abbrev pub is_celery : String → Bool
is_celery name = member name ("celery" ∷ "celery.exe" ∷ [])

abbrev pub wrappers : List String
wrappers =
    "uv" ∷ "uv.exe" ∷ "pipx" ∷ "pipx.exe" ∷ "poetry" ∷ "poetry.exe" ∷ "hatch" ∷ "hatch.exe" ∷ "rye"
    ∷ "rye.exe" ∷ "pdm" ∷ "pdm.exe" ∷ []

-- What follows `-m celery`, if the tokens start so.
abbrev pub after_module : List String → Option (List String)
after_module [] = none
after_module (m ∷ []) = none
after_module (m ∷ c ∷ rest) = if m == "-m" && c == "celery" then some rest else none

-- What follows `celery`, if the tokens start so.
abbrev pub after_celery : List String → Option (List String)
after_celery [] = none
after_celery (c ∷ rest) = if c == "celery" then some rest else none

abbrev pub worker_or : Bool → Option (List String) → Bool
worker_or otherwise none = otherwise
worker_or otherwise (some rest) = argv_has_worker_subcommand rest

-- The tokens behind a wrapper, up to one that is `celery` or `python -m celery`.
unfoldable pub probe : List String → Bool
probe [] = false
probe (arg ∷ rest) =
    let next = probe rest in
    if is_celery arg
    then argv_has_worker_subcommand rest
    else if is_python (path_name arg)
    then worker_or next (after_module rest)
    else next

abbrev pub invokes : String → List String → Bool
invokes prog rest =
    let wrapped = if member prog wrappers then probe rest else false in
    let tool =
      if member prog ("uvx" ∷ "uvx.exe" ∷ [])
      then worker_or wrapped (after_celery rest)
      else wrapped in
    if is_celery prog
    then argv_has_worker_subcommand rest
    else if is_python prog
    then worker_or tool (after_module rest)
    else tool

unfoldable pub is_celery_worker_invocation : List String → Bool
unfolding path_name argv_has_worker_subcommand probe
is_celery_worker_invocation [] = false
is_celery_worker_invocation (prog ∷ rest) = invokes (path_name prog) rest

-- `_env_flag`
unfoldable pub env_flag : Option String → Bool
env_flag value = member (lower (Option.get_or value "")) ("1" ∷ "true" ∷ "yes" ∷ "on" ∷ [])
