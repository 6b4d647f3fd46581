-- ===== src/Events/Mapper/Redaction.antt =====
-- What of a task's outcome reaches an event.
use z4j_celery.Prelude.{
  String, ◌≡◌, ◌≢◌, refl, true, false, sym, subst, arith, Bool-cases, inl, inr, none, Option, some,
  [], ◌∷◌, ◌∙◌, ap, ◌==◌, if◌then◌else◌,
}
use z4j_celery.Prelude.Int.{ℤ}
use z4j_celery.Python.{
  Value, null, str, of_option_str, of_option_int, Dict, get, put, get-put_self, get-put, update,
}
use z4j_celery.Meta.{TaskMeta}
use z4j_celery.Events.Mapper.{
  About, Stamp, EventKind, event, base_data, build_task_succeeded_event, build_task_failed_event,
  redacts_result, scrub_present,
}
use z4j_celery.Events.Mapper.Names.{get_meta}
use z4j_celery.Events.Mapper.Traceback.{traceback_tail, traceback_max_chars}

before_last :
    (k j : String) (x y : Value) (d : Dict Value)
    → (j == k) ≡ false
    → get k (put j y (put k x d)) ≡ some x
before_last k j x y d h =
    get-put j k y (put k x d)
    ∙ ap (λ b. if b then some y else get k (put k x d)) h
    ∙ get-put_self k x d

get-two :
    (k j : String) (x y : Value) (d : Dict Value)
    → (j == k) ≡ false
    → get k (update d ((k, x) ∷ (j, y) ∷ [])) ≡ some x
unfolding update
get-two k j x y d h = before_last k j x y d h

get-three :
    (i k j : String) (z x y : Value) (d : Dict Value)
    → (j == k) ≡ false
    → (get k (update d ((i, z) ∷ (k, x) ∷ (j, y) ∷ [])) ≡ some x)
      × (get j (update d ((i, z) ∷ (k, x) ∷ (j, y) ∷ [])) ≡ some y)
unfolding update
get-three i k j z x y d h =
    (before_last k j x y (put i z d) h, get-put_self j y (put k x (put i z d)))

-- The task's metadata, if any, does not ask for the result to be hidden.
abbrev pub IsOpen : Option TaskMeta → Type 0
IsOpen meta = (m : TaskMeta) → meta ≡ some m → m.redact_result ≡ false

module _ (scrub : Value → Value) where
  -- What is shown of a result: a mark where the task's metadata hides it, nothing where there is none,
  -- and else what the redaction engine makes of it.
  pub data Shown (meta : Option TaskMeta) (result : Value) (shown : Value) : Type 0 where
    hidden :
        (m : TaskMeta)
        → meta ≡ some m
        → m.redact_result ≡ true
        → shown ≡ str "[REDACTED]"
        → Shown meta result shown
    missing : IsOpen meta → result ≡ null → shown ≡ null → Shown meta result shown
    scrubbed : IsOpen meta → result ≢ null → shown ≡ scrub result → Shown meta result shown

  -- Two results that must look the same.
  pub data Alike (meta : Option TaskMeta) (result other : Value) : Type 0 where
    same : result ≡ other → Alike meta result other
    both_hidden : (m : TaskMeta) → meta ≡ some m → m.redact_result ≡ true → Alike meta result other
    same_scrubbed :
        result ≢ null → other ≢ null → scrub result ≡ scrub other → Alike meta result other

module _ (scrub : Value → Value) (stamp : Stamp) (about : About) where
  abbrev shown_result : Option TaskMeta → Value → Value
  shown_result meta result =
      if redacts_result scrub stamp about meta
      then str "[REDACTED]"
      else scrub_present scrub stamp about result

  shown_open :
      (meta : Option TaskMeta) → IsOpen meta → redacts_result scrub stamp about meta ≡ false
  shown_open none h = refl
  shown_open (some m) h = h m refl

  present : (result : Value) → result ≢ null → scrub_present scrub stamp about result ≡ scrub result
  present null h = absurd (h refl)
  present (Value.bool b) h = refl
  present (Value.int n) h = refl
  present (str s) h = refl
  present (Value.list vs) h = refl
  present (Value.tuple vs) h = refl
  present (Value.dict fs) h = refl
  present (Value.time t) h = refl
  present (Value.object n) h = refl

  Shown-open :
      (meta : Option TaskMeta) (result : Value)
      → IsOpen meta
      → Shown scrub meta result (scrub_present scrub stamp about result)
  Shown-open meta null h = missing h refl refl
  Shown-open meta (Value.bool b) h = scrubbed h (λ e. cc) refl
  Shown-open meta (Value.int n) h = scrubbed h (λ e. cc) refl
  Shown-open meta (str s) h = scrubbed h (λ e. cc) refl
  Shown-open meta (Value.list vs) h = scrubbed h (λ e. cc) refl
  Shown-open meta (Value.tuple vs) h = scrubbed h (λ e. cc) refl
  Shown-open meta (Value.dict fs) h = scrubbed h (λ e. cc) refl
  Shown-open meta (Value.time t) h = scrubbed h (λ e. cc) refl
  Shown-open meta (Value.object n) h = scrubbed h (λ e. cc) refl

  shown_result-Shown :
      (meta : Option TaskMeta) (result : Value) → Shown scrub meta result (shown_result meta result)
  shown_result-Shown none result = Shown-open none result (λ m e. absurd (cc))
  shown_result-Shown (some m) result = elim (Bool-cases m.redact_result) [
    | inl e ↦ hidden m refl e (rw e refl)
    | inr e ↦
        subst (Shown scrub (some m) result) (rw e refl)
          (Shown-open (some m) result (λ n h. ground (arith, h, e)))
  ]

  same_shown_result :
      (meta : Option TaskMeta) (result other : Value)
      → Alike scrub meta result other
      → shown_result meta result ≡ shown_result meta other
  same_shown_result meta result other (same e) = ap (shown_result meta) e
  same_shown_result meta result other (both_hidden m h k) = rw (h, k) refl
  same_shown_result meta result other (same_scrubbed h k e) =
      ap (λ v. if redacts_result scrub stamp about meta then str "[REDACTED]" else v)
        (present result h ∙ e ∙ sym (present other k))

  -- A result reaches the event only as the metadata and the redaction engine let it: the event has a
  -- mark in its place where the task's metadata asks so, none where there is none, and else what the
  -- engine makes of it; and two results that the metadata hides, or that the engine makes the same
  -- of, give the same event.
  pub result_redacted :
      (result other : Value) (runtime_ms : Option ℤ)
      → Alike scrub (get_meta about.task) result other
      → ((shown : Value) × Shown scrub (get_meta about.task) result shown
          × (get "result" (build_task_succeeded_event scrub stamp about result runtime_ms).content
              ≡ some shown))
        × (build_task_succeeded_event scrub stamp about result runtime_ms
            ≡ build_task_succeeded_event scrub stamp about other runtime_ms)
  unfolding build_task_succeeded_event base_data
  result_redacted result other runtime_ms alike = (
    (
      shown_result (get_meta about.task) result,
      shown_result-Shown (get_meta about.task) result,
      get-two "result" "runtime_ms" _ _ _ refl,
    ),
    ap
        (λ v.
          event stamp EventKind.task_succeeded about
            (("result", v) ∷ ("runtime_ms", of_option_int runtime_ms) ∷ []))
        (same_shown_result (get_meta about.task) result other alike),
  )

  -- The message and the traceback of a failure reach the event only scrubbed, and the traceback only
  -- cut to its last 4,096 characters.
  pub failure_redacted :
      (type_name message : String) (exception_type traceback : Option String)
      → (get "exception_message"
            (build_task_failed_event scrub stamp about type_name message exception_type
              traceback).content
          ≡ some (scrub (str message)))
        × (get "traceback"
              (build_task_failed_event scrub stamp about type_name message exception_type
                traceback).content
            ≡ some (
                scrub_present scrub stamp about
                  (of_option_str (traceback_tail traceback traceback_max_chars))))
  unfolding build_task_failed_event base_data
  failure_redacted type_name message exception_type traceback =
      get-three "exception" "exception_message" "traceback" _ _ _ _ refl
