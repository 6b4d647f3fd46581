-- ===== src/Bootstrap/Argv/Launch.antt =====
-- The command lines that start a worker, by an independent description of them.
use z4j_celery.Prelude.{
  String, Bool, true, false, List, [], ◌∷◌, ◌++◌, ◌==◌, ◌≡◌, ◌↔◌, refl, arith, inl, inr, Bool-cases,
  starts_with, if◌then◌else◌, eq_iff, ◌∙◌, subst, sym, not, ◌&&◌,
}
use z4j_celery.Python.{member}
use z4j_celery.Bootstrap.Argv.{
  argv_has_worker_subcommand, scan_options, options_with_separate_value,
  is_celery_worker_invocation, is_celery, is_python, path_name, probe, wrappers, worker_or,
  after_module, after_celery,
}

-- The tokens behind `celery`: options, each with its value or alone, then `worker`.
pub data IsWorker : List String → Type 0 where
  command : (rest : List String) → IsWorker ("worker" ∷ rest)
  option :
      (name value : String) (rest : List String)
      → member name options_with_separate_value ≡ true
      → IsWorker rest
      → IsWorker (name ∷ value ∷ rest)
  flag :
      (name : String) (rest : List String)
      → member name options_with_separate_value ≡ false
      → starts_with name "-" ≡ true
      → IsWorker rest
      → IsWorker (name ∷ rest)

-- What stands behind the value of an option.
IsBehind : Bool → List String → Type 0
IsBehind false args = IsWorker args
IsBehind true [] = ⊥
IsBehind true (value ∷ rest) = IsWorker rest

IsWorker-scan : (args : List String) → IsWorker args → scan_options false args ≡ true
unfolding scan_options
IsWorker-scan _ (command rest) = refl
IsWorker-scan _ (option name value rest h k) = ground (arith, h, IsWorker-scan rest k)
IsWorker-scan _ (flag name rest h e k) = ground (arith, h, e, IsWorker-scan rest k)

with_option :
    (name : String) (rest : List String)
    → member name options_with_separate_value ≡ true
    → IsBehind true rest
    → IsWorker (name ∷ rest)
unfolding IsBehind
with_option name [] h k = elim k [ ]
with_option name (value ∷ rest) h k = option name value rest h k

scan-IsWorker :
    (skip : Bool) (args : List String) → scan_options skip args ≡ true → IsBehind skip args
unfolding scan_options IsBehind
scan-IsWorker false [] h = cc
scan-IsWorker true [] h = cc
scan-IsWorker true (value ∷ rest) h = scan-IsWorker false rest h
scan-IsWorker false (arg ∷ rest) h = elim (Bool-cases (member arg options_with_separate_value)) [
  | inl m ↦ with_option arg rest m (scan-IsWorker true rest (ground (arith, m, h)))
  | inr m ↦ elim (Bool-cases (starts_with arg "-")) [
    | inl f ↦ flag arg rest m f (scan-IsWorker false rest (ground (arith, m, f, h)))
    | inr f ↦
        subst (λ a. IsWorker (a ∷ rest)) (sym ((eq_iff arg "worker").0 (ground (arith, m, f, h))))
          (command rest)
  ]
]

-- The tokens behind `celery` start a worker exactly if they are options, each with its value or
-- alone, and then `worker`.
pub argv_has_worker_subcommand-IsWorker :
    (args : List String) → (argv_has_worker_subcommand args ≡ true) ↔ IsWorker args
unfolding argv_has_worker_subcommand IsBehind
argv_has_worker_subcommand-IsWorker args = (scan-IsWorker false args, IsWorker-scan args)

abbrev pub all : (String → Bool) → List String → Bool
all p [] = true
all p (x ∷ xs) = p x && all p xs

of_member :
    (p : String → Bool) (x : String) (xs : List String)
    → all p xs ≡ true
    → member x xs ≡ true
    → p x ≡ true
of_member p x [] h m = cc
of_member p x (y ∷ ys) h m = elim (Bool-cases (x == y)) [
  | inl e ↦ subst (λ z. p z ≡ true) (sym ((eq_iff x y).0 e)) (ground (arith, h))
  | inr e ↦ of_member p x ys (ground (arith, h)) (ground (arith, e, m))
]

abbrev is_plain_prog : String → Bool
is_plain_prog w = not (is_celery w) && not (is_python w) && not (member w ("uvx" ∷ "uvx.exe" ∷ []))

wrapper_plain : (w : String) → member w wrappers ≡ true → is_plain_prog w ≡ true
wrapper_plain w = of_member is_plain_prog w wrappers refl

-- A token that the search behind a wrapper passes over.
abbrev pub is_passed : String → Bool
is_passed arg = not (is_celery arg) && not (is_python (path_name arg))

probe_passed :
    (pre rest : List String) → all is_passed pre ≡ true → probe (pre ++ rest) ≡ probe rest
unfolding probe
probe_passed [] rest h = refl
probe_passed (x ∷ pre) rest h = ground (arith, h, probe_passed pre rest)

invocation_probe :
    (path : String) (rest : List String)
    → member (path_name path) wrappers ≡ true
    → is_celery_worker_invocation (path ∷ rest) ≡ probe rest
unfolding is_celery_worker_invocation
invocation_probe path rest h = ground (arith, h, wrapper_plain (path_name path) h)

-- A launcher such as `uv`, called by any path, changes nothing: behind words of its own that name
-- neither `celery` nor a Python, `celery` and its tokens start a worker exactly if they would alone.
pub invocation_wrapped :
    (path : String) (pre args : List String)
    → member (path_name path) wrappers ≡ true
    → all is_passed pre ≡ true
    → is_celery_worker_invocation (path ∷ pre ++ "celery" ∷ args)
      ≡ is_celery_worker_invocation ("celery" ∷ args)
unfolding is_celery_worker_invocation probe path_name
invocation_wrapped path pre args h k =
    invocation_probe path (pre ++ "celery" ∷ args) h ∙ probe_passed pre ("celery" ∷ args) k

IsWorker-member : (args : List String) → IsWorker args → member "worker" args ≡ true
IsWorker-member _ (command rest) = refl
IsWorker-member _ (option name value rest h k) = ground (arith, IsWorker-member rest k)
IsWorker-member _ (flag name rest h e k) = ground (arith, IsWorker-member rest k)

subcommand-member :
    (args : List String) → argv_has_worker_subcommand args ≡ true → member "worker" args ≡ true
subcommand-member args h = IsWorker-member args ((argv_has_worker_subcommand-IsWorker args).0 h)

later : (x y : String) (xs : List String) → member x xs ≡ true → member x (y ∷ xs) ≡ true
later x y xs h = ground (arith, h)

either :
    {P : Type 0} (b c d : Bool) → (c ≡ true → P) → (d ≡ true → P) → (if b then c else d) ≡ true → P
either true c d f g h = f h
either false c d f g h = g h

module-member :
    (otherwise : Bool) (rest : List String)
    → (otherwise ≡ true → member "worker" rest ≡ true)
    → worker_or otherwise (after_module rest) ≡ true
    → member "worker" rest ≡ true
module-member otherwise [] k h = k h
module-member otherwise (m ∷ []) k h = k h
module-member otherwise (m ∷ c ∷ rest) k h = elim (Bool-cases (m == "-m" && c == "celery")) [
  | inl e ↦
      later "worker" m (c ∷ rest)
        (later "worker" c rest (subcommand-member rest (ground (arith, e, h))))
  | inr e ↦ k (ground (arith, e, h))
]

celery-member :
    (otherwise : Bool) (rest : List String)
    → (otherwise ≡ true → member "worker" rest ≡ true)
    → worker_or otherwise (after_celery rest) ≡ true
    → member "worker" rest ≡ true
celery-member otherwise [] k h = k h
celery-member otherwise (c ∷ rest) k h = elim (Bool-cases (c == "celery")) [
  | inl e ↦ later "worker" c rest (subcommand-member rest (ground (arith, e, h)))
  | inr e ↦ k (ground (arith, e, h))
]

probe-member : (rest : List String) → probe rest ≡ true → member "worker" rest ≡ true
unfolding probe
probe-member [] h = cc
probe-member (arg ∷ rest) h =
    let k : probe rest ≡ true → member "worker" rest ≡ true = probe-member rest in
    later "worker" arg rest (
      either (is_celery arg) (argv_has_worker_subcommand rest)
        (if is_python (path_name arg)
          then worker_or (probe rest) (after_module rest)
          else probe rest)
        (subcommand-member rest)
        (either (is_python (path_name arg)) (worker_or (probe rest) (after_module rest))
          (probe rest) (module-member (probe rest) rest k) k)
        h)

-- No command line starts a worker without the token `worker`.
pub invocation-member :
    (path : String) (rest : List String)
    → is_celery_worker_invocation (path ∷ rest) ≡ true
    → member "worker" rest ≡ true
unfolding is_celery_worker_invocation
invocation-member path rest h =
    let prog = path_name path in
    let wrapped = if member prog wrappers then probe rest else false in
    let is_tool = member prog ("uvx" ∷ "uvx.exe" ∷ []) in
    let tool = if is_tool then worker_or wrapped (after_celery rest) else wrapped in
    let wrapped-member : wrapped ≡ true → member "worker" rest ≡ true =
      either (member prog wrappers) (probe rest) false (probe-member rest)
        (λ e. ground (arith, e)) in
    let tool-member : tool ≡ true → member "worker" rest ≡ true =
      either is_tool (worker_or wrapped (after_celery rest)) wrapped
        (celery-member wrapped rest wrapped-member) wrapped-member in
    either (is_celery prog) (argv_has_worker_subcommand rest)
      (if is_python prog then worker_or tool (after_module rest) else tool) (subcommand-member rest)
      (either (is_python prog) (worker_or tool (after_module rest)) tool
        (module-member tool rest tool-member) tool-member)
      h
