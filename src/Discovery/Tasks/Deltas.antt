-- ===== src/Discovery/Tasks/Deltas.antt =====
-- What the deltas' queue and a saved file keep of the registry.
use z4j_celery.Prelude.{
  ℕ, ◌+◌, ◌≤◌, ◌≢◌, Bool, true, false, Option, none, some, List, [], ◌∷◌, ◌≡◌, refl, ap, arith,
  length, length-append, ltb, if◌then◌else◌,
}
use z4j_celery.Python.{Value, Runtime}
use z4j_celery.Discovery.{TaskDefinition}
use z4j_celery.Discovery.Paths.{FilePath}
use z4j_celery.Discovery.Static.{Scan, done, failed, endless}
use z4j_celery.Discovery.Tasks.{
  Sources, Registry, Delta, delta_queue_maxsize, put_delta, take_delta, changed_with, get_delta,
  report, rediscover_with,
}

module _ (rt : Runtime) (sources : Sources) (celery_app : Value) where
  open rt use {World}

  -- What every other step keeps of the registry.
  abbrev pub Keeps : Registry → Registry → Type 0
  Keeps r r' =
      (r'.has_loop ≡ r.has_loop)
      × (r.discovery_hints ≢ none → r'.discovery_hints ≢ none)
      × (length r.delta_queue ≤ delta_queue_maxsize → length r'.delta_queue ≤ delta_queue_maxsize)

  pub get_delta-Keeps : (r : Registry) → Keeps r (get_delta r).1
  unfolding get_delta
  get_delta-Keeps r = taken r.delta_queue refl
    where
      taken : (q : List Delta) → r.delta_queue ≡ q → Keeps r (take_delta r q).1
      taken [] e = (refl, λ h. h, λ h. h)
      taken (d ∷ rest) e = (refl, λ h. h, λ h. omega (arith, ap length e))

  Keeps-if :
      (b : Bool) (r x y : Registry)
      → (b ≡ true → Keeps r x)
      → Keeps r y
      → Keeps r (if b then x else y)
  Keeps-if true r x y h k = h refl
  Keeps-if false r x y h k = k

  below : (a b : ℕ) → ltb a b ≡ true → a + 1 ≤ b
  below a b h = ground (arith, h)

  put_delta-Keeps : (delta : Delta) (r : Registry) → Keeps r (put_delta delta r)
  unfolding put_delta
  put_delta-Keeps delta r =
      Keeps-if (ltb (length r.delta_queue) delta_queue_maxsize) r _ r
        (λ e. (
          refl,
          λ h. h,
          λ h. omega (arith, below _ _ e, length-append {0} r.delta_queue (delta ∷ [])),
        ))
        (refl, λ h. h, λ h. h)

  abbrev pub ScanKeeps : Registry → Scan Registry → Type 0
  ScanKeeps r (done r') = Keeps r r'
  ScanKeeps r (failed e) = Unit
  ScanKeeps r endless = Unit

  report-ScanKeeps :
      (r : Registry) (found : Scan (List TaskDefinition)) → ScanKeeps r (report r found)
  report-ScanKeeps r (done defs) = put_delta-Keeps _ r
  report-ScanKeeps r (failed e) = (refl, λ h. h, λ h. h)
  report-ScanKeeps r endless = tt

  ScanKeeps-if :
      (b : Bool) (r : Registry) (x y : Scan Registry × World)
      → ScanKeeps r x.0
      → ScanKeeps r y.0
      → ScanKeeps r (if b then x else y).0
  ScanKeeps-if true r x y h k = h
  ScanKeeps-if false r x y h k = k

  pub changed-ScanKeeps :
      (o : Option (List FilePath)) (r : Registry) (w : World)
      → ScanKeeps r (changed_with rt sources celery_app o r w).0
  changed-ScanKeeps none r w = (refl, λ h. h, λ h. h)
  changed-ScanKeeps (some hints) r w =
      ScanKeeps-if r.has_loop r (rediscover_with rt sources celery_app r hints w) (done r, w)
        (report-ScanKeeps r _) (refl, λ h. h, λ h. h)
