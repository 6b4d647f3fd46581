-- ===== src/Actions/Control/Rate.antt =====
-- The grammar of a rate, `_RATE_RE` of src/z4j_celery/actions/rate_limit.py: `0`, or a number with
-- an optional unit. `$` also stands before a newline that ends the text.
use z4j_celery.Prelude.{String, Bool, true, false, ◌&&◌, ◌||◌, leb, eqb, if◌then◌else◌, ◌==◌}
use Prim.Native.Char.{Char, code}
use Prim.Native.String.{[], ◌∷◌}

abbrev pub is_end : String → Bool
is_end s = s == "" || s == "\n"

abbrev pub is_unit : Char → Bool
is_unit c = let n = code c in eqb n 115 || eqb n 109 || eqb n 104

abbrev pub after_slash : String → Bool
after_slash [] = false
after_slash (c ∷ s) = is_unit c && is_end s

module _ (is_digit : Char → Bool) where
  -- Behind the first digit: a slash is no digit.
  unfoldable pub after_digit : String → Bool
  after_digit [] = true
  after_digit (c ∷ s) =
      let more = after_digit s in
      if eqb (code c) 47 then after_slash s else (is_digit c && more) || is_end (c ∷ s)

  unfoldable pub is_rate : String → Bool
  unfolding after_digit
  is_rate [] = false
  is_rate (c ∷ s) =
      if eqb (code c) 48 then is_end s else leb 49 (code c) && leb (code c) 57 && after_digit s
