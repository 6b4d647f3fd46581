-- ===== src/Prelude/Text.antt =====
-- Python's `str` over the native `String`: a sequence of code points. Lower-casing is written out
-- for ASCII; no other character has a lower case that is a letter of the words compared here.
use Prim.Native.Nat.{ℕ, zero, suc, ◌+◌, ◌-◌, ◌/◌, ◌%◌, ◌≤◌}
use Prim.Native.Char.{Char, code}
use Prim.Native.String.{String, [], ◌∷◌, ◌++◌, char_at}
use Prim.Native.String.append
use text.Mathlib.Text.{starts_with}
use mathlib.Core.Path.{◌≡◌, ap, ◌∙◌}
use text.Mathlib.TextLemmas.{nil-append, cons-append}
use native.Mathlib.Omega.{arith}
use mathlib.Core.Bool.{Bool, true, false, ◌&&◌, ◌||◌}
use mathlib.Core.List.{List}
use z4j_celery.Prelude.Tests.{leb, eqb, if◌then◌else◌}

-- `len(s)`
abbrev pub length : String → ℕ
length [] = 0
length (c ∷ s) = suc (length s)

abbrev pub take : ℕ → String → String
take zero s = []
take (suc n) [] = []
take (suc n) (c ∷ s) = c ∷ take n s

abbrev pub drop : ℕ → String → String
drop zero s = s
drop (suc n) [] = []
drop (suc n) (c ∷ s) = drop n s

abbrev pub is_empty : String → Bool
is_empty [] = true
is_empty (c ∷ s) = false

-- `t in s`
unfoldable pub contains : String → String → Bool
contains t [] = starts_with [] t
contains t (c ∷ s) = starts_with (c ∷ s) t || contains t s

-- What `str.strip` removes.
is_space : ℕ → Bool
is_space c =
    (leb 9 c && leb c 13)
    || (leb 28 c && leb c 32)
    || eqb c 133
    || eqb c 160
    || eqb c 5760
    || (leb 8192 c && leb c 8202)
    || eqb c 8232
    || eqb c 8233
    || eqb c 8239
    || eqb c 8287
    || eqb c 12288

lstrip : String → String
lstrip [] = []
lstrip (c ∷ s) = let rest = lstrip s in if is_space (code c) then rest else c ∷ s

rstrip_cons : Char → String → String
rstrip_cons c [] = if is_space (code c) then [] else c ∷ []
rstrip_cons c (d ∷ s) = c ∷ d ∷ s

rstrip : String → String
rstrip [] = []
rstrip (c ∷ s) = rstrip_cons c (rstrip s)

unfoldable pub strip : String → String
unfolding lstrip rstrip rstrip_cons is_space
strip s = lstrip (rstrip s)

lower_char : Char → Char
lower_char c =
    if leb 65 (code c) && leb (code c) 90
    then char_at "abcdefghijklmnopqrstuvwxyz" (code c - 65)
    else c

unfoldable pub lower : String → String
unfolding lower_char
lower [] = []
lower (c ∷ s) = lower_char c ∷ lower s

-- An f-string: its parts, one after another.
abbrev pub concat : List String → String
concat List.[] = []
concat (List.◌∷◌ s parts) = s ++ concat parts

digits : ℕ → ℕ → String → String
digits zero n rest = rest
digits (suc fuel) n rest =
    let here = char_at "0123456789" (n % 10) ∷ rest in
    let more = digits fuel (n / 10) here in if eqb (n / 10) 0 then here else more

-- `str(n)`: a number has at most as many digits as its value plus one.
unfoldable pub show : ℕ → String
unfolding digits
show n = digits (suc n) n []

pub is_empty-append : (s t : String) → is_empty s ≡ false → is_empty (s ++ t) ≡ false
is_empty-append [] t h = cc
is_empty-append (c ∷ s) t h = ap is_empty (append.cons c s t)

pub length-append : (s t : String) → length (s ++ t) ≡ length s + length t
length-append [] t = ap length (nil-append t) ∙ omega arith
length-append (c ∷ s) t = ap length (cons-append c s t) ∙ omega (arith, length-append s t)

pub length-take : (n : ℕ) (s : String) → length (take n s) ≤ n
length-take zero s = omega arith
length-take (suc n) [] = omega arith
length-take (suc n) (c ∷ s) = omega (arith, length-take n s)
