-- ===== src/Discovery/Static.antt =====
-- src/z4j_celery/discovery/static.py: the scan of the files of an application for declared tasks.
-- The files are one snapshot; `endless` is a scan that never comes back.
pub mod Ends
pub mod Reads
use z4j_celery.Prelude.{
  ℕ, zero, suc, String, Bool, true, false, not, ◌&&◌, ◌||◌, Option, none, some, List, [], ◌∷◌, ◌++◌,
  ltb, leb, ◌*◌, length, ◌==◌, starts_with, if◌then◌else◌,
}
use z4j_celery.Prelude.Text.{concat}
use z4j_celery.Python.{Exception, Kind, os_error, syntax_error, Outcome, returned, raised}
use z4j_celery.Discovery.{TaskDefinition, engine_name}
use z4j_celery.Discovery.Paths.{FilePath, parent, child, path_name, stem, show_path, join}
use z4j_celery.Discovery.Syntax.{
  Expr, Function, has_task_decorator, queue_from_decorator, render_signature,
}
use mathlib.Core.List.{reverse}

pub data Scan {ℓ} (A : Type ℓ) : Type ℓ where
  done : A → Scan A
  failed : Exception → Scan A
  endless : Scan A

module _ {A B : Type 0} where
  abbrev pub then_do : Scan A → (A → Scan B) → Scan B
  then_do (done a) f = f a
  then_do (failed e) f = failed e
  then_do endless f = endless

  abbrev pub ask : Outcome A → (A → Scan B) → Scan B
  ask (returned a) f = f a
  ask (raised e) f = failed e

-- The file system and the parser, neither of which is the program's: `functions` gives the function
-- definitions of `ast.walk(ast.parse(text))`, in that order, and `accepts` is the constructor of
-- `TaskDefinition`.
pub record Files : Type 0 where
  pub is_dir : FilePath → Outcome Bool
  pub is_file : FilePath → Outcome Bool
  pub is_symlink : FilePath → Outcome Bool
  -- the names that `glob("*.py")` finds
  pub glob_py : FilePath → Outcome (List String)
  pub size : FilePath → Outcome ℕ
  pub functions : String → Outcome (List Function)
  pub unparse : Expr → Outcome String
  pub accepts : TaskDefinition → Outcome TaskDefinition

abbrev pub max_tasks_file_bytes : ℕ
max_tasks_file_bytes = 2 * 1024 * 1024

abbrev pub candidate_filenames : List String
candidate_filenames = "tasks.py" ∷ "celery.py" ∷ "celery_tasks.py" ∷ []

-- The collected names stand outermost first, as `parts.reverse()` leaves them.
abbrev pub dotted_module : String → List String → Option String
dotted_module stem [] = none
dotted_module stem (part ∷ parts) = some (join "." (part ∷ parts ++ stem ∷ []))

abbrev pub full_name : Option String → String → String
full_name none name = name
full_name (some module_name) name =
    if module_name == "" then name else concat (module_name ∷ "." ∷ name ∷ [])

abbrev pub keep_if : FilePath → List FilePath → Bool → List FilePath
keep_if path rest keep = if keep then path ∷ rest else rest

abbrev pub is_public_module : String → Bool
is_public_module name = name == "__init__.py" || not (starts_with name "_")

abbrev pub add_found :
    Outcome TaskDefinition → Outcome (List TaskDefinition) → Outcome (List TaskDefinition)
add_found (raised e) rest = raised e
add_found (returned found) (raised e) = raised e
add_found (returned found) (returned more) = returned (found ∷ more)

module _ (fs : Files) where
  -- `while (current / "__init__.py").is_file()`, on fuel.
  unfoldable pub walk_up : ℕ → FilePath → List String → Scan (List String)
  walk_up zero current parts = endless
  walk_up (suc n) current parts =
      let up = walk_up n (parent current) (path_name current ∷ parts) in
      ask (fs.is_file (child current "__init__.py")) (λ b. if b then up else done parts)

  unfoldable pub guess_module_name : ℕ → FilePath → Scan (Option String)
  unfolding walk_up
  guess_module_name fuel file_path =
      then_do (walk_up fuel (parent file_path) [])
        (λ parts. done (dotted_module (stem file_path) parts))

  unfoldable pub definition_of : FilePath → Option String → Function → TaskDefinition
  definition_of file_path module_name node = record {
    name = full_name module_name node.name;
    module_name = module_name;
    engine = engine_name;
    queue = queue_from_decorator node;
    signature = some (render_signature fs.unparse node);
    declared_in = some (show_path file_path);
    loaded = false;
    tags = [];
  }

  unfoldable pub find_tasks :
      FilePath → Option String → List Function → Outcome (List TaskDefinition)
  find_tasks file_path module_name [] = returned []
  find_tasks file_path module_name (node ∷ nodes) =
      let rest = find_tasks file_path module_name nodes in
      if has_task_decorator node
      then add_found (fs.accepts (definition_of file_path module_name node)) rest
      else rest

-- Every level up to the anchor is asked once, and the anchor's answer does not change.
abbrev pub fuel_for : FilePath → ℕ
fuel_for file_path = suc (length file_path.parts)

abbrev pub is_unreadable : Exception → Bool
is_unreadable e = elim e.kind [ os_error ↦ true | _ ↦ e.name == "UnicodeDecodeError" ]

abbrev pub is_syntax_error : Exception → Bool
is_syntax_error e = elim e.kind [ syntax_error ↦ true | _ ↦ false ]

abbrev pub is_os_error : Exception → Bool
is_os_error e = elim e.kind [ os_error ↦ true | _ ↦ false ]

-- `try: … except …: return []`
abbrev pub or_nothing {ℓ} :
    {A : Type ℓ} {B : Type 0} → (Exception → Bool) → Outcome A → (A → Scan (List B)) → Scan (List B)
or_nothing caught (returned a) f = f a
or_nothing caught (raised e) f = if caught e then done [] else failed e

module _ (fs : Files) where
  unfoldable pub scan_functions : FilePath → List Function → Scan (List TaskDefinition)
  scan_functions file_path nodes =
      then_do (guess_module_name fs (fuel_for file_path) file_path)
        (λ module_name. ask (find_tasks fs file_path module_name nodes) done)

  unfoldable pub scan_text : FilePath → String → Scan (List TaskDefinition)
  unfolding scan_functions
  scan_text file_path text =
      or_nothing is_syntax_error (fs.functions text) (scan_functions file_path)

  -- `read` is `file_path.read_text(encoding="utf-8")`.
  unfoldable pub scan_sized : Outcome String → FilePath → ℕ → Scan (List TaskDefinition)
  unfolding scan_text
  scan_sized read file_path st_size =
      if ltb max_tasks_file_bytes st_size
      then done []
      else or_nothing is_unreadable read (scan_text file_path)

  unfoldable pub scan_file : (FilePath → Outcome String) → FilePath → Scan (List TaskDefinition)
  unfolding scan_sized
  scan_file read_text file_path =
      or_nothing is_os_error (fs.size file_path) (scan_sized (read_text file_path) file_path)

  -- `path.is_file() and not path.is_symlink()`, and so for a directory.
  abbrev pub and_no_link : FilePath → Bool → Scan Bool
  and_no_link path false = done false
  and_no_link path true = ask (fs.is_symlink path) (λ link. done (not link))

  abbrev pub is_own_file : FilePath → Scan Bool
  is_own_file path = ask (fs.is_file path) (and_no_link path)

  abbrev pub is_own_dir : FilePath → Scan Bool
  is_own_dir path = ask (fs.is_dir path) (and_no_link path)

  unfoldable pub top_level : FilePath → List String → Scan (List FilePath)
  top_level root [] = done []
  top_level root (name ∷ names) =
      let rest = top_level root names in
      then_do (is_own_file (child root name))
        (λ keep. then_do rest (λ found. done (keep_if (child root name) found keep)))

  -- `for file_path in tasks_pkg.glob("*.py")`
  unfoldable pub in_package : FilePath → List String → Scan (List FilePath)
  in_package tasks_pkg [] = done []
  in_package tasks_pkg (name ∷ names) =
      let rest = in_package tasks_pkg names in
      ask (fs.is_symlink (child tasks_pkg name)) (λ link.
        then_do rest (λ found.
          done (keep_if (child tasks_pkg name) found (not link && is_public_module name))))

  abbrev pub package_files : FilePath → Bool → Scan (List FilePath)
  package_files tasks_pkg false = done []
  package_files tasks_pkg true = ask (fs.glob_py tasks_pkg) (in_package tasks_pkg)

  abbrev pub files_under : FilePath → Bool → Scan (List FilePath)
  files_under root false = done []
  files_under root true = then_do (top_level root candidate_filenames) (λ results.
      then_do (is_own_dir (child root "tasks")) (λ is_package.
        then_do (package_files (child root "tasks") is_package) (λ more. done (results ++ more))))

  unfoldable pub candidate_files : FilePath → Scan (List FilePath)
  unfolding top_level in_package
  candidate_files root = then_do (is_own_dir root) (files_under root)

-- `except Exception: continue`
abbrev pub or_skip :
    Scan (List TaskDefinition) → Scan (List TaskDefinition) → Scan (List TaskDefinition)
or_skip (done found) rest = then_do rest (λ more. done (found ++ more))
or_skip (failed e) rest = rest
or_skip endless rest = endless

module _ (fs : Files) (read_text : FilePath → Outcome String) where
  unfoldable pub scan_files : List FilePath → Scan (List TaskDefinition)
  scan_files [] = done []
  scan_files (file_path ∷ paths) = or_skip (scan_file fs read_text file_path) (scan_files paths)

  unfoldable pub discover_static : List FilePath → Scan (List TaskDefinition)
  unfolding scan_files
  discover_static [] = done []
  discover_static (root ∷ roots) =
      let rest = discover_static roots in
      then_do (candidate_files fs root)
        (λ paths. then_do (scan_files paths) (λ found. then_do rest (λ more. done (found ++ more))))
