-- ===== src/Events/Mapper/Scrub.antt =====
-- Redaction of a task's arguments in src/z4j_celery/events/mapper.py.
use z4j_celery.Prelude.{
  String, ◌≡◌, ◌≢◌, refl, arith, Bool, true, false, Option, none, some, Option-cases, inl, inr,
  List, [], ◌∷◌, eq_iff, if◌then◌else◌, map,
}
use z4j_celery.Python.{
  Value, null, str, list, tuple, dict, values, items, fields, Dict, get, put, get-put, keep_keys,
  get-keep_keys, keys, member, exception, type_error, other, Outcome, returned, raised,
}
use z4j_celery.Meta.{TaskMeta}
use mathlib.Core.Option

abbrev pub redacted : Value
redacted = str "[REDACTED]"

-- `list(args)` of a list, a tuple or a dictionary; other values here are not iterated.
abbrev pub py_list : Value → Outcome Value
py_list (list vs) = returned (list vs)
py_list (tuple vs) = returned (list vs)
py_list (dict fs) = returned (list (values (map str (keys (items fs)))))
py_list _ = raised (exception type_error "TypeError" "object is not iterable")

-- The task's own list of names to keep, and of names to redact.
abbrev pub keeps : Option TaskMeta → Option (List String)
keeps none = none
keeps (some m) = m.keep_kwargs

abbrev pub redacts : Option TaskMeta → List String
redacts none = []
redacts (some m) = m.redact_kwargs

abbrev pub scrub_list : (Value → Value) → Outcome Value → Outcome Value
scrub_list scrub (returned v) = returned (scrub v)
scrub_list scrub (raised e) = raised e

-- Positional arguments are redacted whole under a list of names to keep.
unfoldable pub scrub_args : (Value → Value) → Value → Option TaskMeta → Outcome Value
scrub_args scrub null meta = returned null
scrub_args scrub args meta = elim (keeps meta) [
  | some names ↦ returned redacted
  | none ↦ scrub_list scrub (py_list args)
]

-- The loop `for key in list(source)`.
unfoldable pub redact_each : List String → List String → Dict Value → Dict Value
redact_each names [] source = source
redact_each names (key ∷ rest) source =
    redact_each names rest (if member key names then put key redacted source else source)

abbrev keep_only : Option (List String) → Dict Value → Dict Value
keep_only none d = d
keep_only (some names) d = keep_keys (λ k. member k names) d

-- What the redaction engine is given of the keyword arguments.
unfoldable pub prepare_kwargs : Option TaskMeta → Dict Value → Dict Value
unfolding redact_each
prepare_kwargs meta kwargs =
    let source = keep_only (keeps meta) kwargs in redact_each (redacts meta) (keys source) source

-- The engine gives a dictionary back, or the assertion fails.
abbrev assert_dict : Value → Outcome Value
assert_dict (dict fs) = returned (dict fs)
assert_dict _ = raised (exception other "AssertionError" "")

unfoldable pub scrub_kwargs : (Value → Value) → Value → Option TaskMeta → Outcome Value
unfolding prepare_kwargs
scrub_kwargs scrub (dict kwargs) meta =
    assert_dict (scrub (dict (fields (prepare_kwargs meta (items kwargs)))))
scrub_kwargs scrub null meta = returned null
scrub_kwargs scrub _ meta = raised (exception type_error "TypeError" "not a dictionary")

-- What may leave the process of the argument `k`, before the engine's own rules.
abbrev pub disclosed : Option TaskMeta → Dict Value → String → Option Value
disclosed meta kwargs k =
    let shown : Bool = elim (keeps meta) [ none ↦ true | some names ↦ member k names ] in
    if shown
    then Option.map (λ v. if member k (redacts meta) then redacted else v) (get k kwargs)
    else none

get-redact_each :
    (names ks : List String) (source : Dict Value) (k : String)
    → get k (redact_each names ks source) ≡ (
        if member k ks
        then (if member k names then some redacted else get k source)
        else get k source)
unfolding redact_each
get-redact_each names [] source k = refl
get-redact_each names (j ∷ ks) source k = ground (
  arith,
  get-redact_each names ks (if member j names then put j redacted source else source) k,
  get-put j k redacted source,
  eq_iff j k,
  eq_iff k j,
)

get_absent : (k : String) (d : Dict Value) → member k (keys d) ≡ false → get k d ≡ none
unfolding get
get_absent k [] h = refl
get_absent k ((j, v) ∷ d) h = ground (arith, get_absent k d, eq_iff j k, eq_iff k j)

get_present : (k : String) (d : Dict Value) → member k (keys d) ≡ true → get k d ≢ none
unfolding get
get_present k [] h = λ e. cc
get_present k ((j, v) ∷ d) h = ground (arith, get_present k d, eq_iff j k, eq_iff k j)

redact_all :
    (names : List String) (source : Dict Value) (k : String)
    → get k (redact_each names (keys source) source)
      ≡ Option.map (λ v. if member k names then redacted else v) (get k source)
redact_all names source k =
    ground (
      arith,
      get-redact_each names (keys source) source k,
      get_absent k source,
      get_present k source,
    )

-- The redaction engine is given, for each name, what may be disclosed of it and no more: nothing of
-- a name outside the task's own list of names to keep, and a fixed text in place of the value of a
-- name that the task redacts.
pub get-prepare_kwargs :
    (meta : Option TaskMeta) (kwargs : Dict Value) (k : String)
    → get k (prepare_kwargs meta kwargs) ≡ disclosed meta kwargs k
unfolding prepare_kwargs
get-prepare_kwargs none kwargs k = redact_all [] kwargs k
get-prepare_kwargs (some m) kwargs k = elim (Option-cases m.keep_kwargs) [
  | inl all ↦ ground (arith, redact_all m.redact_kwargs kwargs k)
  | inr (names, e) ↦ ground (
    arith,
    redact_all m.redact_kwargs (keep_keys (λ j. member j names) kwargs) k,
    get-keep_keys (λ j. member j names) k kwargs,
  )
]
