-- ===== src/Discovery/Static/Ends.antt =====
-- Whether the scan comes back, by the walk to the furthest package.
use z4j_celery.Prelude.{
  ℕ, zero, suc, ◌<◌, ◌≡◌, refl, ap, ◌∙◌, Bool, true, false, List, [], ◌∷◌, length, String, inl, inr,
  arith, Bool-cases, ltb, ◌++◌, not, ◌&&◌, if◌then◌else◌,
}
use z4j_celery.Python.{Exception, Outcome, returned, raised}
use z4j_celery.Discovery.{TaskDefinition}
use z4j_celery.Discovery.Paths.{FilePath, parent, parent_parts, stem, child}
use z4j_celery.Discovery.Static.{
  Scan, done, failed, endless, Files, scan_functions, scan_text, scan_sized, scan_file, fuel_for,
  find_tasks, is_os_error, is_unreadable, is_syntax_error, max_tasks_file_bytes, or_skip,
  scan_files, dotted_module, top_level, in_package, package_files, files_under, candidate_files,
  candidate_filenames, discover_static, and_no_link, is_own_file, is_own_dir, keep_if,
  is_public_module, walk_up, guess_module_name, then_do, ask, or_nothing,
}

-- The anchor that `parent` leads to: `/`, or `.`.
abbrev pub anchor : FilePath → FilePath
anchor path = record path { parts = [] }

-- The directory holds an `__init__.py`.
abbrev pub IsPackage : Files → FilePath → Type 0
IsPackage fs dir = fs.is_file (child dir "__init__.py") ≡ returned true

-- The scan returns or raises.
abbrev pub Ends {ℓ} : {A : Type ℓ} → Scan A → Type 0
Ends endless = ⊥
Ends _ = Unit

module _ {A B : Type 0} where
  Ends-ask :
      (o : Outcome A) (f : A → Scan B) → ((a : A) → o ≡ returned a → Ends (f a)) → Ends (ask o f)
  Ends-ask (returned a) f h = h a refl
  Ends-ask (raised e) f h = tt

  Ends-then_do :
      (s : Scan A) (f : A → Scan B) → Ends s → ((a : A) → Ends (f a)) → Ends (then_do s f)
  Ends-then_do (done a) f h g = g a
  Ends-then_do (failed e) f h g = tt
  Ends-then_do endless f h g = absurd h

  Ends-or_nothing :
      (caught : Exception → Bool) (o : Outcome A) (f : A → Scan (List B))
      → ((a : A) → Ends (f a))
      → Ends (or_nothing caught o f)
  Ends-or_nothing caught (returned a) f h = h a
  Ends-or_nothing caught (raised e) f h = elim (Bool-cases (caught e)) [
    | inl c ↦ rw c tt
    | inr c ↦ rw c tt
  ]

shorter : {n : ℕ} (parts : List String) → length parts < n → length (parent_parts parts) < n
shorter [] h = h
shorter (name ∷ rest) h = omega arith

module _ (fs : Files) where
  Ends-if :
      (s t : Scan (List String)) (b : Bool)
      → (b ≡ true → Ends s)
      → Ends t
      → Ends (if b then s else t)
  Ends-if s t true h g = h refl
  Ends-if s t false h g = g

  walk_up-Ends :
      (n : ℕ) (absolute : Bool) (dirs : List String) (parts : List String)
      → ¬ IsPackage fs (record { absolute = absolute; parts = [] })
      → length dirs < n
      → Ends (walk_up fs n (record { absolute = absolute; parts = dirs }) parts)
  unfolding walk_up
  walk_up-Ends zero absolute dirs parts h lt = absurd (omega arith)
  walk_up-Ends (suc n) absolute [] parts h lt =
      Ends-ask (fs.is_file _) (λ b. if b then _ else done parts)
        (λ b asked. Ends-if _ _ b (λ yes. absurd (h (asked ∙ ap returned yes))) tt)
  walk_up-Ends (suc n) absolute (dir ∷ dirs) parts h lt =
      Ends-ask (fs.is_file _) (λ b. if b then _ else done parts)
        (λ b asked.
          Ends-if _ _ b (λ yes. walk_up-Ends n absolute dirs (dir ∷ parts) h (omega arith)) tt)

  -- Each of these directories, and the anchor, is a package.
  abbrev pub ArePackages : Bool → List String → Type 0
  ArePackages absolute [] = IsPackage fs (record { absolute = absolute; parts = [] })
  ArePackages absolute (dir ∷ dirs) =
      IsPackage fs (record { absolute = absolute; parts = dir ∷ dirs }) × ArePackages absolute dirs

  walk_up-endless :
      (n : ℕ) (absolute : Bool) (dirs : List String) (parts : List String)
      → ArePackages absolute dirs
      → walk_up fs n (record { absolute = absolute; parts = dirs }) parts ≡ endless
  unfolding walk_up
  walk_up-endless zero absolute dirs parts h = refl
  walk_up-endless (suc n) absolute [] parts h = rw h (walk_up-endless n absolute [] ("" ∷ parts) h)
  walk_up-endless (suc n) absolute (dir ∷ dirs) parts h =
      rw h.0 (walk_up-endless n absolute dirs (dir ∷ parts) h.1)

  -- Where the anchor of a path is no package, and the fuel exceeds the path's depth, the search for
  -- the module's name returns or raises.
  pub guess_module_name-Ends :
      (fuel : ℕ) (path : FilePath)
      → ¬ IsPackage fs (anchor path)
      → length path.parts < fuel
      → Ends (guess_module_name fs fuel path)
  unfolding guess_module_name
  guess_module_name-Ends fuel path h lt =
      Ends-then_do (walk_up fs fuel (parent path) [])
        (λ parts. done (dotted_module (stem path) parts))
        (walk_up-Ends fuel path.absolute (parent_parts path.parts) [] h (shorter path.parts lt))
        (λ parts. tt)

  -- Where each directory above a file is a package up to the anchor, and the anchor too, no fuel is
  -- enough: the search never comes back.
  pub guess_module_name_endless :
      (fuel : ℕ) (path : FilePath)
      → ArePackages path.absolute (parent_parts path.parts)
      → guess_module_name fs fuel path ≡ endless
  unfolding guess_module_name
  guess_module_name_endless fuel path h =
      ap (λ s. then_do s (λ parts. done (dotted_module (stem path) parts)))
        (walk_up-endless fuel path.absolute (parent_parts path.parts) [] h)

  and_no_link-Ends : (path : FilePath) (b : Bool) → Ends (and_no_link fs path b)
  and_no_link-Ends path false = tt
  and_no_link-Ends path true =
      Ends-ask (fs.is_symlink path) (λ link. done (not link)) (λ link _. tt)

  is_own_file-Ends : (path : FilePath) → Ends (is_own_file fs path)
  is_own_file-Ends path =
      Ends-ask (fs.is_file path) (and_no_link fs path) (λ b _. and_no_link-Ends path b)

  is_own_dir-Ends : (path : FilePath) → Ends (is_own_dir fs path)
  is_own_dir-Ends path =
      Ends-ask (fs.is_dir path) (and_no_link fs path) (λ b _. and_no_link-Ends path b)

  module _ (read_text : FilePath → Outcome String)
      (outside : (path : FilePath) → ¬ IsPackage fs (anchor path)) where
    scan_file-Ends : (path : FilePath) → Ends (scan_file fs read_text path)
    unfolding scan_file scan_sized scan_text scan_functions
    scan_file-Ends path =
        Ends-or_nothing is_os_error (fs.size path) (scan_sized fs (read_text path) path) (λ st_size.
          elim (Bool-cases (ltb max_tasks_file_bytes st_size)) [
            | inl e ↦ rw e tt
            | inr e ↦ rw e (
                Ends-or_nothing is_unreadable (read_text path) (scan_text fs path) (λ text.
                  Ends-or_nothing is_syntax_error (fs.functions text) (scan_functions fs path)
                    (λ nodes.
                      Ends-then_do (guess_module_name fs (fuel_for path) path)
                        (λ module_name. ask (find_tasks fs path module_name nodes) done)
                        (guess_module_name-Ends (fuel_for path) path (outside path) (omega arith))
                        (λ module_name.
                          Ends-ask (find_tasks fs path module_name nodes) done (λ found _. tt)))))
          ])

    Ends-or_skip :
        (s rest : Scan (List TaskDefinition)) → Ends s → Ends rest → Ends (or_skip s rest)
    Ends-or_skip (done found) rest h g =
        Ends-then_do rest (λ more. done (found ++ more)) g (λ more. tt)
    Ends-or_skip (failed e) rest h g = g
    Ends-or_skip endless rest h g = absurd h

    scan_files-Ends : (paths : List FilePath) → Ends (scan_files fs read_text paths)
    unfolding scan_files
    scan_files-Ends [] = tt
    scan_files-Ends (path ∷ paths) =
        Ends-or_skip (scan_file fs read_text path) (scan_files fs read_text paths)
          (scan_file-Ends path) (scan_files-Ends paths)

    top_level-Ends : (root : FilePath) (names : List String) → Ends (top_level fs root names)
    unfolding top_level
    top_level-Ends root [] = tt
    top_level-Ends root (name ∷ names) =
        Ends-then_do (is_own_file fs (child root name))
          (λ keep.
            then_do (top_level fs root names)
              (λ found. done (keep_if (child root name) found keep)))
          (is_own_file-Ends (child root name))
          (λ keep.
            Ends-then_do (top_level fs root names)
              (λ found. done (keep_if (child root name) found keep)) (top_level-Ends root names)
              (λ found. tt))

    in_package-Ends :
        (tasks_pkg : FilePath) (names : List String) → Ends (in_package fs tasks_pkg names)
    unfolding in_package
    in_package-Ends tasks_pkg [] = tt
    in_package-Ends tasks_pkg (name ∷ names) =
        Ends-ask (fs.is_symlink (child tasks_pkg name)) _ (λ link _.
          Ends-then_do (in_package fs tasks_pkg names)
            (λ found.
              done (keep_if (child tasks_pkg name) found (not link && is_public_module name)))
            (in_package-Ends tasks_pkg names) (λ found. tt))

    package_files-Ends : (tasks_pkg : FilePath) (b : Bool) → Ends (package_files fs tasks_pkg b)
    package_files-Ends tasks_pkg false = tt
    package_files-Ends tasks_pkg true =
        Ends-ask (fs.glob_py tasks_pkg) (in_package fs tasks_pkg)
          (λ names _. in_package-Ends tasks_pkg names)

    files_under-Ends : (root : FilePath) (b : Bool) → Ends (files_under fs root b)
    files_under-Ends root false = tt
    files_under-Ends root true =
        Ends-then_do (top_level fs root candidate_filenames) _
          (top_level-Ends root candidate_filenames)
          (λ results.
            Ends-then_do (is_own_dir fs (child root "tasks")) _
              (is_own_dir-Ends (child root "tasks"))
              (λ is_package.
                Ends-then_do (package_files fs (child root "tasks") is_package)
                  (λ more. done (results ++ more))
                  (package_files-Ends (child root "tasks") is_package) (λ more. tt)))

    candidate_files-Ends : (root : FilePath) → Ends (candidate_files fs root)
    unfolding candidate_files
    candidate_files-Ends root =
        Ends-then_do (is_own_dir fs root) (files_under fs root) (is_own_dir-Ends root)
          (files_under-Ends root)

    -- Where neither `/` nor `.` is a package, the static scan of any paths returns or raises.
    pub discover_static-Ends : (roots : List FilePath) → Ends (discover_static fs read_text roots)
    unfolding discover_static
    discover_static-Ends [] = tt
    discover_static-Ends (root ∷ roots) =
        Ends-then_do (candidate_files fs root) _ (candidate_files-Ends root) (λ paths.
          Ends-then_do (scan_files fs read_text paths) _ (scan_files-Ends paths) (λ found.
            Ends-then_do (discover_static fs read_text roots) (λ more. done (found ++ more))
              (discover_static-Ends roots) (λ more. tt)))
