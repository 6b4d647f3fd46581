-- ===== src/Discovery/Syntax/Dotted.antt =====
-- The dotted name of a decorator, and whether it declares a task.
use Prim.Native.String.{[], ◌∷◌, ◌++◌}
use Prim.Native.String.{char_at}
use text.Mathlib.TextLemmas.{nil-append, cons-append, append_assoc}
use text.Mathlib.TextPositions.{starts_with-append}
use mathlib.Core.List
use mathlib.Core.List.{reverse, reverse-cons}
use z4j_celery.Prelude.{
  String, Bool, true, false, Option, none, some, List, ◌≡◌, refl, sym, ap, ◌∙◌, arith, starts_with,
  any,
}
use z4j_celery.Prelude.Text.{contains}
use z4j_celery.Discovery.Paths.{join}
use z4j_celery.Discovery.Syntax.{
  Expr, Function, name, attribute, call, constant, other, behind_last_dot, chain, decorator_name,
  is_task_name, is_named_task, any_task, has_task_decorator,
}

-- A name that stands for itself: an identifier has no dot.
abbrev pub IsUndotted : String → Type 0
IsUndotted s = contains "." s ≡ false

-- The last name of a decorator, called or not.
abbrev pub last_name : Expr → Option String
last_name (call func keywords) = last_name func
last_name (name id) = some id
last_name (attribute value attr) = some attr
last_name _ = none

abbrev pub IsPlain : Expr → Type 0
IsPlain (call func keywords) = IsPlain func
IsPlain (name id) = IsUndotted id
IsPlain (attribute value attr) = IsUndotted attr
IsPlain _ = Unit

abbrev pub ArePlain : List Expr → Type 0
ArePlain List.[] = Unit
ArePlain (List.◌∷◌ d ds) = IsPlain d × ArePlain ds

abbrev pub names_task : Option String → Bool
names_task none = false
names_task (some last) = is_task_name last

dot_append : (t : String) → "." ++ t ≡ char_at "." 0 ∷ t
dot_append t = cons-append (char_at "." 0) [] t ∙ ap (λ s. char_at "." 0 ∷ s) (nil-append t)

dot_first : (t : String) → starts_with (char_at "." 0 ∷ t) "." ≡ true
dot_first t = ap (λ s. starts_with s ".") (sym (dot_append t)) ∙ starts_with-append "." t

contains-dot : (s t : String) → contains "." (s ++ "." ++ t) ≡ true
unfolding contains
contains-dot [] t =
    ap (contains ".") (nil-append ("." ++ t) ∙ dot_append t) ∙ ground (arith, dot_first t)
contains-dot (c ∷ s) t =
    ap (contains ".") (cons-append c s ("." ++ t)) ∙ ground (arith, contains-dot s t)

behind-undotted : (s : String) → IsUndotted s → behind_last_dot s ≡ s
unfolding contains behind_last_dot
behind-undotted [] h = refl
behind-undotted (c ∷ s) h = ground arith

behind-dot : (s t : String) → IsUndotted t → behind_last_dot (s ++ "." ++ t) ≡ t
unfolding behind_last_dot
behind-dot [] t h =
    ap behind_last_dot (nil-append ("." ++ t) ∙ dot_append t) ∙ ground (arith, h, dot_first t)
behind-dot (c ∷ s) t h =
    ap behind_last_dot (cons-append c s ("." ++ t))
    ∙ ground (arith, contains-dot s t, behind-dot s t h)

join-snoc :
    (a b : String) (xs : List String)
    → join "." (List.◌∷◌ a (List.◌++◌ xs (List.◌∷◌ b List.[])))
      ≡ join "." (List.◌∷◌ a xs) ++ "." ++ b
join-snoc a b List.[] = refl
join-snoc a b (List.◌∷◌ c xs) =
    ap (λ s. a ++ "." ++ s) (join-snoc c b xs)
    ∙ ap (λ s. a ++ s) (sym (append_assoc "." (join "." (List.◌∷◌ c xs)) ("." ++ b)))
    ∙ sym (append_assoc a ("." ++ join "." (List.◌∷◌ c xs)) ("." ++ b))

behind-join :
    (xs : List String) (b : String)
    → IsUndotted b
    → behind_last_dot (join "." (List.◌++◌ xs (List.◌∷◌ b List.[]))) ≡ b
behind-join List.[] b h = behind-undotted b h
behind-join (List.◌∷◌ a xs) b h =
    ap behind_last_dot (join-snoc a b xs) ∙ behind-dot (join "." (List.◌∷◌ a xs)) b h

decides : (d : Expr) → IsPlain d → is_named_task (decorator_name d) ≡ names_task (last_name d)
decides (call func keywords) h = decides func h
decides (name id) h = ap is_task_name (behind-undotted id h)
decides (attribute value attr) h =
    ap (λ l. is_task_name (behind_last_dot (join "." l))) (reverse-cons attr (chain value))
    ∙ ap is_task_name (behind-join (reverse (chain value)) attr h)
decides (constant value) h = refl
decides (other n) h = refl

any_task_lem : (ds : List Expr) → ArePlain ds → any_task ds ≡ any (λ d. names_task (last_name d)) ds
any_task_lem List.[] h = refl
any_task_lem (List.◌∷◌ d ds) h = rw (decides d h.0, any_task_lem ds h.1) refl

-- Where the last names hold no dot, as identifiers do, a function is taken for a task exactly if
-- one of its decorators, called or not, has `task` or `shared_task` for its last name, whatever
-- stands before that name.
pub has_task_decorator_lem :
    (node : Function)
    → ArePlain node.decorator_list
    → has_task_decorator node ≡ any (λ d. names_task (last_name d)) node.decorator_list
has_task_decorator_lem node h = any_task_lem node.decorator_list h
