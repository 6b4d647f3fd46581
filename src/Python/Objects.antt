-- ===== src/Python/Objects.antt =====
-- Python objects as the code inspects them. `object n` is any object that the code only passes on,
-- calls or asks for attributes, a float among them; `time` is a UTC `datetime` in microseconds.
use z4j_celery.Prelude.{
  ℕ, String, Bool, true, false, not, Option, none, some, List, [], ◌∷◌, if◌then◌else◌,
}
use z4j_celery.Prelude.Int.{ℤ, pos}
use z4j_celery.Prelude.Text.{is_empty}
use z4j_celery.Python.Dicts.{Dict, get}
use mathlib.Core.Option

mutual
  pub data Value : Type 0 where
    null : Value
    bool : Bool → Value
    int : ℤ → Value
    str : String → Value
    list : Values → Value
    tuple : Values → Value
    dict : Fields → Value
    time : ℤ → Value
    object : ℕ → Value

  pub data Values : Type 0 where
    nil : Values
    cons : Value → Values → Values

  pub data Fields : Type 0 where
    end : Fields
    field : String → Value → Fields → Fields

abbrev pub elements : Values → List Value
elements nil = []
elements (cons v vs) = v ∷ elements vs

abbrev pub values : List Value → Values
values [] = nil
values (v ∷ vs) = cons v (values vs)

abbrev pub items : Fields → Dict Value
items end = []
items (field k v fs) = (k, v) ∷ items fs

abbrev pub fields : Dict Value → Fields
fields [] = end
fields ((k, v) ∷ d) = field k v (fields d)

-- `bool(v)`
abbrev pub truthy : Value → Bool
truthy null = false
truthy (bool b) = b
truthy (int (pos ℕ.zero)) = false
truthy (str s) = not (is_empty s)
truthy (list nil) = false
truthy (tuple nil) = false
truthy (dict end) = false
truthy _ = true

-- `isinstance(v, int)`: a `bool` is an `int`.
abbrev pub as_int : Value → Option ℤ
as_int (int n) = some n
as_int (bool b) = some (pos (if b then 1 else 0))
as_int _ = none

-- `isinstance(v, str)`, `isinstance(v, dict)`, `isinstance(v, (list, tuple))`
abbrev pub as_str : Value → Option String
as_str (str s) = some s
as_str _ = none

abbrev pub as_dict : Value → Option (Dict Value)
as_dict (dict fs) = some (items fs)
as_dict _ = none

abbrev pub as_sequence : Value → Option (List Value)
as_sequence (list vs) = some (elements vs)
as_sequence (tuple vs) = some (elements vs)
as_sequence _ = none

abbrev pub of_option_str : Option String → Value
of_option_str none = null
of_option_str (some s) = str s

abbrev pub of_option_int : Option ℤ → Value
of_option_int none = null
of_option_int (some n) = int n

-- `a or b`
abbrev pub py_or : Value → Value → Value
py_or a b = if truthy a then a else b

-- `d.get(k)`, with `None` for a missing key
abbrev pub get_value : String → Dict Value → Value
get_value k d = Option.get_or (get k d) null

-- `callable(v)`, of an attribute: a function or a method is an object.
abbrev pub is_callable : Value → Bool
is_callable (object n) = true
is_callable _ = false

-- `v is None`
abbrev pub is_none : Value → Bool
is_none null = true
is_none _ = false
