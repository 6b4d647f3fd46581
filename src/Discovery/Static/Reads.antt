-- ===== src/Discovery/Static/Reads.antt =====
-- Which texts the scan reads.
use z4j_celery.Prelude.{
  ℕ, ◌≤◌, ◌≡◌, refl, ap, ◌∙◌, Bool, true, false, not, ◌&&◌, List, [], ◌∷◌, ◌++◌, String, inl, inr,
  arith, Bool-cases, ltb,
}
use z4j_celery.Python.{Outcome, returned, raised, Outcome-cases}
use z4j_celery.Discovery.Paths.{FilePath, child}
use z4j_celery.Discovery.Static.{
  Scan, done, failed, endless, Files, then_do, ask, or_nothing, scan_text, scan_sized, scan_file,
  is_unreadable, max_tasks_file_bytes, scan_files, and_no_link, is_own_file, is_own_dir, keep_if,
  top_level, is_public_module, in_package, package_files, files_under, candidate_files,
  candidate_filenames, discover_static,
}

-- A result, if there is one, has the property.
abbrev pub Gives : {A : Type 0} → (A → Type 0) → Scan A → Type 0
Gives P (done a) = P a
Gives P _ = Unit

module _ {A B : Type 0} (P : A → Type 0) (Q : B → Type 0) where
  pub Gives-then_do :
      (s : Scan A) (f : A → Scan B)
      → Gives P s
      → ((a : A) → P a → Gives Q (f a))
      → Gives Q (then_do s f)
  Gives-then_do (done a) f h g = g a h
  Gives-then_do (failed e) f h g = tt
  Gives-then_do endless f h g = tt

  pub Gives-ask :
      (o : Outcome A) (f : A → Scan B)
      → ((a : A) → o ≡ returned a → Gives Q (f a))
      → Gives Q (ask o f)
  Gives-ask (returned a) f h = h a refl
  Gives-ask (raised e) f h = tt

module _ {A B : Type 0} (Q : B → Type 0) where
  pub Gives-any : (s : Scan A) (f : A → Scan B) → ((a : A) → Gives Q (f a)) → Gives Q (then_do s f)
  Gives-any (done a) f g = g a
  Gives-any (failed e) f g = tt
  Gives-any endless f g = tt

then_do_ext :
    {A B : Type 0} (P : A → Type 0) (s : Scan A) (f g : A → Scan B)
    → Gives P s
    → ((a : A) → P a → f a ≡ g a)
    → then_do s f ≡ then_do s g
then_do_ext P (done a) f g h e = e a h
then_do_ext P (failed x) f g h e = refl
then_do_ext P endless f g h e = refl

module _ (fs : Files) where
  abbrev pub IsOwn : FilePath → Type 0
  IsOwn path = fs.is_symlink path ≡ returned false

  abbrev AreOwn : List FilePath → Type 0
  AreOwn [] = Unit
  AreOwn (path ∷ paths) = IsOwn path × AreOwn paths

  abbrev AnyBool : Bool → Type 0
  AnyBool b = Unit

  AreOwn-append : (ps qs : List FilePath) → AreOwn ps → AreOwn qs → AreOwn (ps ++ qs)
  AreOwn-append [] qs h g = g
  AreOwn-append (p ∷ ps) qs h g = (h.0, AreOwn-append ps qs h.1 g)

  and_no_link-IsOwn :
      (path : FilePath) (b : Bool) → Gives (λ c. c ≡ true → IsOwn path) (and_no_link fs path b)
  and_no_link-IsOwn path false = λ e. absurd (ground (arith, e))
  and_no_link-IsOwn path true =
      Gives-ask AnyBool (λ c. c ≡ true → IsOwn path) (fs.is_symlink path) (λ link. done (not link))
        (λ link asked e. asked ∙ ap returned (ground (arith, e)))

  is_own_file-IsOwn : (path : FilePath) → Gives (λ c. c ≡ true → IsOwn path) (is_own_file fs path)
  is_own_file-IsOwn path =
      Gives-ask AnyBool (λ c. c ≡ true → IsOwn path) (fs.is_file path) (and_no_link fs path)
        (λ b _. and_no_link-IsOwn path b)

  keep_if-AreOwn :
      (path : FilePath) (rest : List FilePath) (keep : Bool)
      → (keep ≡ true → IsOwn path)
      → AreOwn rest
      → AreOwn (keep_if path rest keep)
  keep_if-AreOwn path rest true h g = (h refl, g)
  keep_if-AreOwn path rest false h g = g

  top_level-AreOwn :
      (root : FilePath) (names : List String) → Gives AreOwn (top_level fs root names)
  unfolding top_level
  top_level-AreOwn root [] = tt
  top_level-AreOwn root (name ∷ names) =
      Gives-then_do (λ c. c ≡ true → IsOwn (child root name)) AreOwn
        (is_own_file fs (child root name)) _ (is_own_file-IsOwn (child root name))
        (λ keep own.
          Gives-then_do AreOwn AreOwn (top_level fs root names)
            (λ found. done (keep_if (child root name) found keep)) (top_level-AreOwn root names)
            (λ found h. keep_if-AreOwn (child root name) found keep own h))

  in_package-AreOwn :
      (tasks_pkg : FilePath) (names : List String) → Gives AreOwn (in_package fs tasks_pkg names)
  unfolding in_package
  in_package-AreOwn tasks_pkg [] = tt
  in_package-AreOwn tasks_pkg (name ∷ names) =
      Gives-ask AnyBool AreOwn (fs.is_symlink (child tasks_pkg name)) _ (λ link asked.
        Gives-then_do AreOwn AreOwn (in_package fs tasks_pkg names)
          (λ found. done (keep_if (child tasks_pkg name) found (not link && is_public_module name)))
          (in_package-AreOwn tasks_pkg names)
          (λ found h.
            keep_if-AreOwn (child tasks_pkg name) found (not link && is_public_module name)
              (λ e. asked ∙ ap returned (ground (arith, e))) h))

  package_files-AreOwn :
      (tasks_pkg : FilePath) (b : Bool) → Gives AreOwn (package_files fs tasks_pkg b)
  package_files-AreOwn tasks_pkg false = tt
  package_files-AreOwn tasks_pkg true =
      Gives-ask (λ _. Unit) AreOwn (fs.glob_py tasks_pkg) (in_package fs tasks_pkg)
        (λ names _. in_package-AreOwn tasks_pkg names)

  files_under-AreOwn : (root : FilePath) (b : Bool) → Gives AreOwn (files_under fs root b)
  files_under-AreOwn root false = tt
  files_under-AreOwn root true =
      Gives-then_do AreOwn AreOwn (top_level fs root candidate_filenames) _
        (top_level-AreOwn root candidate_filenames)
        (λ results own. Gives-any AreOwn (is_own_dir fs (child root "tasks")) _ (λ is_package.
          Gives-then_do AreOwn AreOwn (package_files fs (child root "tasks") is_package)
            (λ more. done (results ++ more)) (package_files-AreOwn (child root "tasks") is_package)
            (λ more h. AreOwn-append results more own h)))

  candidate_files-AreOwn : (root : FilePath) → Gives AreOwn (candidate_files fs root)
  unfolding candidate_files
  candidate_files-AreOwn root =
      Gives-any AreOwn (is_own_dir fs root) (files_under fs root) (files_under-AreOwn root)

  -- The two readings agree on every file that is no link and within the limit.
  abbrev pub Agree : (read read' : FilePath → Outcome String) → Type 0
  Agree read read' =
      (path : FilePath)
      → IsOwn path
      → (n : ℕ) → fs.size path ≡ returned n
      → n ≤ max_tasks_file_bytes
      → read path ≡ read' path

  module _ (read read' : FilePath → Outcome String) (agree : Agree read read') where
    scan_file-Agree :
        (path : FilePath) → IsOwn path → scan_file fs read path ≡ scan_file fs read' path
    unfolding scan_file scan_sized
    scan_file-Agree path own = elim (Outcome-cases (fs.size path)) [
      | inr (e, failing) ↦ rw failing refl
      | inl (n, sized) ↦ elim (Bool-cases (ltb max_tasks_file_bytes n)) [
        | inl large ↦ rw (sized, large) refl
        | inr small ↦
            rw (sized, small)
              (ap (λ r. or_nothing is_unreadable r (scan_text fs path))
                (agree path own n sized (ground arith)))
      ]
    ]

    scan_files-Agree :
        (paths : List FilePath)
        → AreOwn paths
        → scan_files fs read paths ≡ scan_files fs read' paths
    unfolding scan_files
    scan_files-Agree [] h = refl
    scan_files-Agree (path ∷ paths) h =
        rw (scan_file-Agree path h.0, scan_files-Agree paths h.1) refl

    -- The text of a link, or of a file of more than 2 MiB, has no part in the result: two readings
    -- that agree on all other files give the same tasks, from any paths.
    pub discover_static_reads :
        (roots : List FilePath) → discover_static fs read roots ≡ discover_static fs read' roots
    unfolding discover_static
    discover_static_reads [] = refl
    discover_static_reads (root ∷ roots) =
        then_do_ext AreOwn (candidate_files fs root) _ _ (candidate_files-AreOwn root)
          (λ paths own. rw (scan_files-Agree paths own, discover_static_reads roots) refl)
