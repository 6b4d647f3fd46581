-- ===== src/Events/Mapper/Names.antt =====
-- The task's name in an event, `_resolve_task_name` of src/z4j_celery/events/mapper.py.
use Prim.Native.String.{◌++◌}
use z4j_celery.Prelude.{
  String, ◌≡◌, refl, Bool, true, false, Option, none, some, [], ◌∷◌, if◌then◌else◌, Bool-cases, inl,
  inr,
}
use z4j_celery.Prelude.Text.{concat, is_empty, is_empty-append, strip, take}
use z4j_celery.Meta.{TaskMeta}

-- What Celery passes as a task: nothing, a name, or an object with its `name` and `__name__` and
-- with the metadata of its function.
pub data Task : Type 0 where
  no_task : Task
  named : String → Task
  task_object : Option String → Option String → Option TaskMeta → Task

unfoldable pub get_meta : Task → Option TaskMeta
get_meta no_task = none
get_meta (named s) = none
get_meta (task_object name dunder meta) = meta

-- The first text that is not missing and not empty.
abbrev pub or_text : Option String → Option String → Option String
or_text none other = other
or_text (some s) other = if is_empty s then other else some s

abbrev own_name : Task → Option String
own_name no_task = none
own_name (named s) = or_text (some s) none
own_name (task_object name dunder meta) = or_text name (or_text dunder none)

abbrev placeholder : Option String → String → String
placeholder none short =
    if is_empty short then "<unknown>" else concat ("<unknown:" ∷ short ∷ ">" ∷ [])
placeholder (some queue) short =
    if is_empty short
    then concat ("<unknown:" ∷ queue ∷ ">" ∷ [])
    else concat ("<unknown:" ∷ queue ∷ ":" ∷ short ∷ ">" ∷ [])

abbrev stripped : Option String → Option String
stripped none = none
stripped (some s) = or_text (some (strip s)) none

abbrev first_name : Option String → Option String → String → String
first_name (some name) hint otherwise = name
first_name none (some hint) otherwise = hint
first_name none none otherwise = otherwise

unfoldable pub resolve_task_name : Task → Option String → String → Option String → String
resolve_task_name task fallback_hint task_id queue =
    first_name (own_name task) (stripped fallback_hint)
      (placeholder (or_text queue none) (take 8 task_id))

abbrev IsText : String → Type 0
IsText s = is_empty s ≡ false

abbrev HasText : Option String → Type 0
HasText none = Unit
HasText (some s) = IsText s

or_text-HasText : (a b : Option String) → HasText b → HasText (or_text a b)
or_text-HasText none b h = h
or_text-HasText (some s) b h = elim (Bool-cases (is_empty s)) [
  | inl e ↦ rw (e, or_text) h
  | inr e ↦ rw (e, or_text) e
]

own_name-HasText : (task : Task) → HasText (own_name task)
own_name-HasText no_task = tt
own_name-HasText (named s) = or_text-HasText (some s) none tt
own_name-HasText (task_object name dunder meta) =
    or_text-HasText name (or_text dunder none) (or_text-HasText dunder none tt)

stripped-HasText : (hint : Option String) → HasText (stripped hint)
stripped-HasText none = tt
stripped-HasText (some s) = or_text-HasText (some (strip s)) none tt

if-IsText : (b : Bool) (s t : String) → IsText s → IsText t → IsText (if b then s else t)
if-IsText true s t h k = h
if-IsText false s t h k = k

unknown-IsText : (s : String) → IsText ("<unknown:" ++ s)
unknown-IsText s = is_empty-append "<unknown:" s refl

placeholder-IsText : (queue : Option String) (short : String) → IsText (placeholder queue short)
placeholder-IsText none short =
    if-IsText (is_empty short) "<unknown>" (concat ("<unknown:" ∷ short ∷ ">" ∷ [])) refl
      (unknown-IsText (concat (short ∷ ">" ∷ [])))
placeholder-IsText (some queue) short =
    if-IsText (is_empty short) (concat ("<unknown:" ∷ queue ∷ ">" ∷ []))
      (concat ("<unknown:" ∷ queue ∷ ":" ∷ short ∷ ">" ∷ []))
      (unknown-IsText (concat (queue ∷ ">" ∷ [])))
      (unknown-IsText (concat (queue ∷ ":" ∷ short ∷ ">" ∷ [])))

first_name-IsText :
    (name hint : Option String) (otherwise : String)
    → HasText name
    → HasText hint
    → IsText otherwise
    → IsText (first_name name hint otherwise)
first_name-IsText (some name) hint otherwise a b c = a
first_name-IsText none (some hint) otherwise a b c = b
first_name-IsText none none otherwise a b c = c

-- The name of an event's task is never empty.
pub resolve_task_name_nonempty :
    (task : Task) (hint : Option String) (task_id : String) (queue : Option String)
    → is_empty (resolve_task_name task hint task_id queue) ≡ false
unfolding resolve_task_name
resolve_task_name_nonempty task hint task_id queue =
    first_name-IsText (own_name task) (stripped hint)
      (placeholder (or_text queue none) (take 8 task_id)) (own_name-HasText task)
      (stripped-HasText hint) (placeholder-IsText (or_text queue none) (take 8 task_id))
