-- ===== src/Discovery/Tasks/Flags.antt =====
-- The flag of a task in the merged list.
use z4j_celery.Prelude.{
  String, Bool, true, false, Option, none, some, List, [], ◌∷◌, ◌++◌, ◌≡◌, refl, ap, ◌∙◌, subst,
  inl, inr, arith, ◌==◌, Bool-cases, ltb, if◌then◌else◌,
}
use z4j_celery.Python.{Value, Exception, Outcome, returned, raised, Runtime, Holds, All}
use z4j_celery.Discovery.{TaskDefinition, merge_discoveries}
use z4j_celery.Discovery.Merged.{find, find_last, or_else, find-merge_discoveries}
use z4j_celery.Discovery.Paths.{FilePath}
use z4j_celery.Discovery.Syntax.{Function, has_task_decorator}
use z4j_celery.Discovery.Static.{
  done, failed, endless, Files, discover_static, find_tasks, definition_of, add_found, Scan, ask,
  then_do, or_nothing, or_skip, is_os_error, is_unreadable, is_syntax_error, max_tasks_file_bytes,
  guess_module_name, fuel_for, scan_functions, scan_text, scan_sized, scan_file, scan_files,
  candidate_files,
}
use z4j_celery.Discovery.Static.Reads.{Gives, Gives-then_do, Gives-any}
use z4j_celery.Discovery.Registry.{discover_runtime}
use z4j_celery.Discovery.Registry.Loaded.{AcceptsFaithfully, IsLoaded, discover_runtime-IsLoaded}
use z4j_celery.Discovery.Tasks.{Sources, discover_tasks, static_tasks, merge_outcome}

-- The definition's flag.
abbrev pub HasFlag : Bool → TaskDefinition → Type 0
HasFlag b t = t.loaded ≡ b

abbrev pub is_some : {A : Type 0} → Option A → Bool
is_some none = false
is_some (some a) = true

module _ (fs : Files) (faithful : AcceptsFaithfully fs.accepts) where
  accepted-flag :
      (t : TaskDefinition) (o : Outcome TaskDefinition)
      → fs.accepts t ≡ o
      → Holds (λ u. u.loaded ≡ t.loaded) o
  accepted-flag t (returned u) e = (faithful t u e).1
  accepted-flag t (raised x) e = tt

  add_found-HasFlag :
      (o : Outcome TaskDefinition) (rest : Outcome (List TaskDefinition))
      → Holds (HasFlag false) o
      → Holds (All (HasFlag false)) rest
      → Holds (All (HasFlag false)) (add_found o rest)
  add_found-HasFlag (raised e) rest h g = tt
  add_found-HasFlag (returned found) (raised e) h g = tt
  add_found-HasFlag (returned found) (returned more) h g = (h, g)

  find_tasks-HasFlag :
      (path : FilePath) (module_name : Option String) (nodes : List Function)
      → Holds (All (HasFlag false)) (find_tasks fs path module_name nodes)
  unfolding find_tasks definition_of
  find_tasks-HasFlag path module_name [] = tt
  find_tasks-HasFlag path module_name (node ∷ nodes) =
      let h = find_tasks-HasFlag path module_name nodes in
      elim (Bool-cases (has_task_decorator node)) [
        | inr e ↦ rw e h
        | inl e ↦ rw e (
            add_found-HasFlag (fs.accepts (definition_of fs path module_name node))
              (find_tasks fs path module_name nodes) (accepted-flag _ _ refl) h)
      ]

  Gives-done :
      (o : Outcome (List TaskDefinition))
      → Holds (All (HasFlag false)) o
      → Gives (All (HasFlag false)) (ask o done)
  Gives-done (returned a) h = h
  Gives-done (raised e) h = tt

  Gives-or_nothing :
      {A : Type 0} (caught : Exception → Bool) (o : Outcome A) (f : A → Scan (List TaskDefinition))
      → ((a : A) → Gives (All (HasFlag false)) (f a))
      → Gives (All (HasFlag false)) (or_nothing caught o f)
  Gives-or_nothing caught (returned a) f h = h a
  Gives-or_nothing caught (raised e) f h = elim (Bool-cases (caught e)) [
    | inl c ↦ rw c tt
    | inr c ↦ rw c tt
  ]

  module _ (read_text : FilePath → Outcome String) where
    scan_file-HasFlag :
        (path : FilePath) → Gives (All (HasFlag false)) (scan_file fs read_text path)
    unfolding scan_file scan_sized scan_text scan_functions
    scan_file-HasFlag path =
        Gives-or_nothing is_os_error (fs.size path) (scan_sized fs (read_text path) path)
          (λ st_size. elim (Bool-cases (ltb max_tasks_file_bytes st_size)) [
            | inl e ↦ rw e tt
            | inr e ↦ rw e (
                Gives-or_nothing is_unreadable (read_text path) (scan_text fs path) (λ text.
                  Gives-or_nothing is_syntax_error (fs.functions text) (scan_functions fs path)
                    (λ nodes.
                      Gives-any (All (HasFlag false)) (guess_module_name fs (fuel_for path) path)
                        (λ module_name. ask (find_tasks fs path module_name nodes) done)
                        (λ module_name. Gives-done _ (find_tasks-HasFlag path module_name nodes)))))
          ])

    All-append :
        (ts us : List TaskDefinition)
        → All (HasFlag false) ts
        → All (HasFlag false) us
        → All (HasFlag false) (ts ++ us)
    All-append [] us h g = g
    All-append (t ∷ ts) us h g = (h.0, All-append ts us h.1 g)

    append-HasFlag :
        (s rest : Scan (List TaskDefinition))
        → Gives (All (HasFlag false)) s
        → Gives (All (HasFlag false)) rest
        → Gives
            (All (HasFlag false))
            (then_do s (λ found. then_do rest (λ more. done (found ++ more))))
    append-HasFlag s rest h g =
        Gives-then_do (All (HasFlag false)) (All (HasFlag false)) s _ h (λ found k.
          Gives-then_do (All (HasFlag false)) (All (HasFlag false)) rest
            (λ more. done (found ++ more)) g (λ more l. All-append found more k l))

    or_skip-HasFlag :
        (s rest : Scan (List TaskDefinition))
        → Gives (All (HasFlag false)) s
        → Gives (All (HasFlag false)) rest
        → Gives (All (HasFlag false)) (or_skip s rest)
    or_skip-HasFlag (done found) rest h g = append-HasFlag (done found) rest h g
    or_skip-HasFlag (failed e) rest h g = g
    or_skip-HasFlag endless rest h g = tt

    scan_files-HasFlag :
        (paths : List FilePath) → Gives (All (HasFlag false)) (scan_files fs read_text paths)
    unfolding scan_files
    scan_files-HasFlag [] = tt
    scan_files-HasFlag (path ∷ paths) =
        or_skip-HasFlag (scan_file fs read_text path) (scan_files fs read_text paths)
          (scan_file-HasFlag path) (scan_files-HasFlag paths)

    discover_static-HasFlag :
        (roots : List FilePath) → Gives (All (HasFlag false)) (discover_static fs read_text roots)
    unfolding discover_static
    discover_static-HasFlag [] = tt
    discover_static-HasFlag (root ∷ roots) =
        Gives-any (All (HasFlag false)) (candidate_files fs root) _ (λ paths.
          append-HasFlag (scan_files fs read_text paths) (discover_static fs read_text roots)
            (scan_files-HasFlag paths) (discover_static-HasFlag roots))

abbrev Found : (TaskDefinition → Type 0) → Option TaskDefinition → Type 0
Found P none = Unit
Found P (some t) = P t

Found-or_else :
    (P : TaskDefinition → Type 0) (o p : Option TaskDefinition)
    → Found P o
    → Found P p
    → Found P (or_else o p)
Found-or_else P (some t) p h g = h
Found-or_else P none p h g = g

find_last-Found :
    (P : TaskDefinition → Type 0) (n : String) (ts : List TaskDefinition)
    → All P ts
    → Found P (find_last n ts)
find_last-Found P n [] h = tt
find_last-Found P n (t ∷ ts) h =
    Found-or_else P (find_last n ts) (if t.name == n then some t else none)
      (find_last-Found P n ts h.1)
      (elim (Bool-cases (t.name == n)) [ inl e ↦ rw e h.0 | inr e ↦ rw e tt ])

All-weaken :
    (P Q : TaskDefinition → Type 0) (ts : List TaskDefinition)
    → ((t : TaskDefinition) → P t → Q t)
    → All P ts
    → All Q ts
All-weaken P Q [] f h = tt
All-weaken P Q (t ∷ ts) f h = (f t h.0, All-weaken P Q ts f h.1)

abbrev pub flag_of : Option TaskDefinition → Bool
flag_of none = false
flag_of (some t) = t.loaded

flag_says :
    (o p : Option TaskDefinition)
    → Found (HasFlag true) o
    → Found (HasFlag false) p
    → flag_of (or_else o p) ≡ is_some o
flag_says (some u) p h g = h
flag_says none (some u) h g = g
flag_says none none h g = refl

abbrev tasks_in : Scan (List TaskDefinition) → List TaskDefinition
tasks_in (done ts) = ts
tasks_in _ = []

-- Under each name, the list has a task that is marked as loaded exactly if the runtime's list has it.
abbrev pub FlagsSay : List TaskDefinition → List TaskDefinition → Type 0
FlagsSay runtime ds = (n : String) → flag_of (find n ds) ≡ is_some (find_last n runtime)

merge-FlagsSay :
    (runtime static : List TaskDefinition)
    → All (HasFlag true) runtime
    → All (HasFlag false) static
    → FlagsSay runtime (merge_discoveries runtime static)
merge-FlagsSay runtime static h g n =
    ap flag_of (find-merge_discoveries n runtime static)
    ∙ flag_says (find_last n runtime) (find_last n static)
        (find_last-Found (HasFlag true) n runtime h) (find_last-Found (HasFlag false) n static g)

outcome-FlagsSay :
    (o : Outcome (List TaskDefinition)) (s : Scan (List TaskDefinition)) (ds : List TaskDefinition)
    → Holds (All (HasFlag true)) o
    → Gives (All (HasFlag false)) s
    → merge_outcome o s ≡ done ds
    → (runtime : List TaskDefinition) × (o ≡ returned runtime) × FlagsSay runtime ds
outcome-FlagsSay (returned runtime) (done static) ds h g e =
    (runtime, refl, subst (FlagsSay runtime) (ap tasks_in e) (merge-FlagsSay runtime static h g))
outcome-FlagsSay (returned runtime) (failed x) ds h g e = absurd (ground (arith, e))
outcome-FlagsSay (returned runtime) endless ds h g e = absurd (ground (arith, e))
outcome-FlagsSay (raised x) s ds h g e = absurd (ground (arith, e))

weaken-Holds :
    (P Q : TaskDefinition → Type 0) (o : Outcome (List TaskDefinition))
    → ((t : TaskDefinition) → P t → Q t)
    → Holds (All P) o
    → Holds (All Q) o
weaken-Holds P Q (returned ts) f h = All-weaken P Q ts f h
weaken-Holds P Q (raised e) f h = tt

module _ (rt : Runtime) (sources : Sources) (celery_app : Value) where
  open rt use {World}

  static_tasks-HasFlag :
      (hints : Option (List FilePath))
      → AcceptsFaithfully sources.files.accepts
      → Gives (All (HasFlag false)) (static_tasks sources hints)
  static_tasks-HasFlag none faithful = tt
  static_tasks-HasFlag (some paths) faithful =
      discover_static-HasFlag sources.files faithful sources.read_text paths

  -- When the discovery returns, the runtime's has, and the merged list has a task of a name that is
  -- marked as loaded exactly if that name stands in the runtime's list, as long as the constructor of a definition
  -- keeps the name and the flag that it is given.
  pub discover_tasks_flags :
      (hints cached : Option (List FilePath)) (w : World) (ds : List TaskDefinition)
      → AcceptsFaithfully sources.files.accepts
      → (discover_tasks rt sources celery_app hints cached w).0 ≡ done ds
      → (runtime : List TaskDefinition) × ((discover_runtime rt sources.inspect
            sources.files.accepts celery_app w).0
          ≡ returned runtime)
        × FlagsSay runtime ds
  unfolding discover_tasks
  discover_tasks_flags hints cached w ds faithful e =
      let found = discover_runtime rt sources.inspect sources.files.accepts celery_app w in
      outcome-FlagsSay found.0 (static_tasks sources hints) ds
        (weaken-Holds IsLoaded (HasFlag true) found.0 (λ t h. h.0)
          (discover_runtime-IsLoaded rt sources.inspect sources.files.accepts faithful celery_app
            w))
        (static_tasks-HasFlag hints faithful) e
