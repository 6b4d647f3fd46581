-- ===== src/Events/Broker/ClassName.antt =====
-- The class name in front of a failed task's representation, the regular expression of
-- `_on_failed` in src/z4j_celery/events/broker.py: dotted identifiers, then an open parenthesis.
use z4j_celery.Prelude.{String, Bool, ◌&&◌, ◌||◌, Option, none, some, leb, eqb, if◌then◌else◌}
use Prim.Native.Char.{Char, code}
use Prim.Native.String.{[], ◌∷◌, ◌++◌}

-- Where the match stands: before an identifier, inside one, behind the parenthesis, or nowhere.
pub data Scan : Type 0 where
  before : Scan
  inside : String → Scan
  matched : String → Scan
  failed : Scan

abbrev starts_name : Char → Bool
starts_name c = let n = code c in (leb 65 n && leb n 90) || (leb 97 n && leb n 122) || eqb n 95

module _ (is_word : Char → Bool) where
  abbrev pub advance : Scan → Char → Scan
  advance before c = if starts_name c then inside (c ∷ []) else failed
  advance (inside name) c =
      if eqb (code c) 40
      then matched name
      else if eqb (code c) 46
      then before
      else if is_word c
      then inside (name ++ c ∷ [])
      else failed
  advance (matched name) c = matched name
  advance failed c = failed

  unfoldable pub scan : Scan → String → Scan
  scan state [] = state
  scan state (c ∷ s) = scan (advance state c) s

  abbrev pub result : Scan → Option String
  result (matched name) = some name
  result _ = none

  -- The last identifier of the match.
  unfoldable pub class_name : String → Option String
  unfolding scan
  class_name s = result (scan before s)
