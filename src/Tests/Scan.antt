-- ===== src/Tests/Scan.antt =====
-- The discoveries, at a small application with one file of tasks.
use z4j_celery.Prelude.{
  String, Bool, true, false, ◌&&◌, ◌||◌, none, some, List, ◌≡◌, refl, ap, sym, ◌==◌, any, arith,
  Bool-cases, inl, inr, if◌then◌else◌,
}
use z4j_celery.Prelude.Text.{contains}
use z4j_celery.Python.{
  Values, str, list, object, tuple, exception, attribute_error, Outcome, returned, raised, Runtime,
  getattr, getattr_or, put,
}
use z4j_celery.Discovery.{TaskDefinition, merge_discoveries, sort, index, insert}
use z4j_celery.Discovery.Paths.{FilePath, stem_of, show_path}
use z4j_celery.Discovery.Syntax.{
  Expr, Keywords, Function, behind_last_dot, render_signature, has_task_decorator,
}
use z4j_celery.Discovery.Syntax.Dotted.{names_task, last_name, has_task_decorator_lem}
use z4j_celery.Discovery.Static.{
  candidate_files, scan_file, find_tasks, definition_of, done, endless, Files, guess_module_name,
  discover_static,
}
use z4j_celery.Discovery.Static.Ends.{Ends, discover_static-Ends, guess_module_name_endless}
use z4j_celery.Discovery.Static.Reads.{Agree, discover_static_reads}
use z4j_celery.Discovery.Registry.{discover_runtime}
use z4j_celery.Discovery.Registry.Loaded.{AcceptsFaithfully}
use z4j_celery.Discovery.Tasks.{Sources, discover_tasks}
use z4j_celery.Discovery.Tasks.Flags.{FlagsSay, discover_tasks_flags}
use z4j_celery.Tests.Demo.{demo, app}

-- `@app.task(queue="emails")` over `def send(to: str)`
abbrev send : Function
send = record {
  name = "send";
  decorator_list =
      List.◌∷◌
        (Expr.call (Expr.attribute (Expr.name "app") "task")
          (Keywords.keyword (some "queue") (Expr.constant (str "emails")) Keywords.end))
        List.[];
  args = record {
    posonlyargs = List.[];
    args = List.◌∷◌ (record { arg = "to"; annotation = some (Expr.name "str") }) List.[];
    vararg = none;
    kwonlyargs = List.[];
    kwarg = none;
  };
}

has_task_decorator_lem_example :
    has_task_decorator send ≡ any (λ d. names_task (last_name d)) send.decorator_list
unfolding contains
has_task_decorator_lem_example = has_task_decorator_lem send (refl, tt)

-- The files `app/__init__.py`, `app/tasks.py` and `app/celery.py`, which is too large, in any directory but the anchor itself.
abbrev in_app : List String → Bool
in_app (List.◌∷◌ name (List.◌∷◌ dir rest)) =
    dir == "app" && (name == "__init__.py" || name == "tasks.py" || name == "celery.py")
in_app _ = false

abbrev is_app : List String → Bool
is_app (List.◌∷◌ name rest) = name == "app"
is_app _ = false

abbrev is_large : List String → Bool
is_large (List.◌∷◌ name rest) = name == "celery.py"
is_large _ = false

abbrev accept : TaskDefinition → Outcome TaskDefinition
accept t = returned t

abbrev pub files : Files
files = record {
  is_dir = λ path. returned (is_app path.parts);
  is_file = λ path. returned (in_app path.parts);
  is_symlink = λ path. returned false;
  glob_py = λ path. returned List.[];
  size = λ path. returned (if is_large path.parts then 3000000 else 100);
  functions = λ text. returned (List.◌∷◌ send List.[]);
  unparse = λ e. returned "str";
  accepts = accept;
}

abbrev app_dir : FilePath
app_dir = record { absolute = true; parts = List.◌∷◌ "app" (List.◌∷◌ "srv" List.[]) }

abbrev roots : List FilePath
roots = List.◌∷◌ app_dir List.[]

abbrev pub read_text : FilePath → Outcome String
read_text path = returned "tasks"

abbrev sent : TaskDefinition
sent = record {
  name = "app.tasks.send";
  module_name = some "app.tasks";
  engine = "celery";
  queue = some "emails";
  signature = some "(to: str)";
  declared_in = some "/srv/app/tasks.py";
  loaded = false;
  tags = List.[];
}

found : discover_static files read_text roots ≡ done (List.◌∷◌ sent List.[])
unfolding discover_static candidate_files scan_file guess_module_name find_tasks behind_last_dot
    contains definition_of stem_of render_signature show_path
found = refl

-- Neither anchor has a name, so neither holds a file of the application.
outside :
    (path : FilePath)
    → ¬ (
        files.is_file (record { absolute = path.absolute; parts = List.◌∷◌ "__init__.py" List.[] })
        ≡ returned true)
outside path e = ground (arith, e)

discover_static-Ends_example : Ends (discover_static files read_text roots)
discover_static-Ends_example = discover_static-Ends files read_text outside roots

abbrev got : {A : Type 0} → Outcome A → A → A
got (returned a) default = a
got (raised e) default = default

-- A reading that gives another text for the large file.
abbrev other_text : FilePath → Outcome String
other_text path = returned (if is_large path.parts then "other" else "tasks")

same_text : Agree files read_text other_text
same_text path own n sized bound = elim (Bool-cases (is_large path.parts)) [
  | inl e ↦
      let large : returned 3000000 ≡ returned n = rw e at sized in
      let size : 3000000 ≡ n = ap (λ o. got o 0) large in absurd (omega (arith, size, bound))
  | inr e ↦ rw e refl
]

discover_static_reads_example :
    discover_static files read_text roots ≡ discover_static files other_text roots
discover_static_reads_example = discover_static_reads files read_text other_text same_text roots

-- The same file where every directory is a package, and the root too.
abbrev all_packages : Files
all_packages = record files { is_file = λ path. returned true }

guess_module_name_endless_example :
    guess_module_name all_packages 1000
      (record { absolute = true; parts = List.◌∷◌ "tasks.py" (List.◌∷◌ "app" List.[]) })
    ≡ endless
guess_module_name_endless_example =
    guess_module_name_endless all_packages 1000
      (record { absolute = true; parts = List.◌∷◌ "tasks.py" (List.◌∷◌ "app" List.[]) })
      (refl, refl)

-- A registry of one task.
abbrev pub registry : Runtime
registry = record demo {
  attribute = λ obj name w. (
    if name == "tasks"
        then returned (object 7)
        else if name == "run"
        then returned (object 8)
        else raised (exception attribute_error "AttributeError" name),
    w,
  );
  call = λ obj name args kwargs w. (
    returned (
        list (
          Values.cons (tuple (Values.cons (str "app.add") (Values.cons (object 9) Values.nil)))
            Values.nil)),
    w,
  );
}

abbrev pub sources : Sources
sources = record { files = files; read_text = read_text; inspect = λ target. returned "(a, b)" }

abbrev added : TaskDefinition
added = record {
  name = "app.add";
  module_name = none;
  engine = "celery";
  queue = none;
  signature = some "(a, b)";
  declared_in = none;
  loaded = true;
  tags = List.[];
}

discovered :
    (discover_tasks registry sources app (some roots) none List.[]).0
    ≡ done (List.◌∷◌ added (List.◌∷◌ sent List.[]))
unfolding discover_tasks discover_runtime getattr getattr_or discover_static candidate_files
    scan_file guess_module_name find_tasks behind_last_dot contains merge_discoveries sort index put
    definition_of stem_of insert render_signature show_path
discovered = refl

faithful : AcceptsFaithfully accept
faithful t u e = (ap (λ o. (got o t).name) (sym e), ap (λ o. (got o t).loaded) (sym e))

discover_tasks_flags_example :
    (runtime : List TaskDefinition) × ((discover_runtime registry sources.inspect accept app
        List.[]).0
      ≡ returned runtime)
    × FlagsSay runtime (List.◌∷◌ added (List.◌∷◌ sent List.[]))
discover_tasks_flags_example =
    discover_tasks_flags registry sources app (some roots) none List.[]
      (List.◌∷◌ added (List.◌∷◌ sent List.[])) faithful discovered
