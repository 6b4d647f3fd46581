-- ===== src/Discovery/Paths.antt =====
-- `pathlib.PurePosixPath`, as far as the static scan uses it: an anchor and the parts behind it,
-- the last one first.
use Prim.Native.String.{[], ◌∷◌, ◌++◌}
use z4j_celery.Prelude.{ℕ, String, Bool, ◌&&◌, List, ltb, ◌-◌, ◌+◌, if◌then◌else◌}
use z4j_celery.Prelude.Text.{length, take, contains, is_empty}
use mathlib.Core.List.{reverse}

-- `sep.join(parts)`
abbrev pub join : String → List String → String
join sep List.[] = ""
join sep (List.◌∷◌ s List.[]) = s
join sep (List.◌∷◌ s rest) = s ++ sep ++ join sep rest

pub record FilePath : Type 0 where
  pub absolute : Bool
  pub parts : List String

-- `path.parent`: an anchor is its own parent.
abbrev pub parent_parts : List String → List String
parent_parts List.[] = List.[]
parent_parts (List.◌∷◌ name rest) = rest

abbrev pub parent : FilePath → FilePath
parent path = record path { parts = parent_parts path.parts }

-- `path.name`, `path.stem`, `path / name`
abbrev pub last_part : List String → String
last_part List.[] = ""
last_part (List.◌∷◌ name rest) = name

abbrev pub path_name : FilePath → String
path_name path = last_part path.parts

abbrev pub child : FilePath → String → FilePath
child path name = record path { parts = List.◌∷◌ name path.parts }

-- `name.rfind(".")` of a name that has a dot.
unfoldable pub last_dot : String → ℕ
last_dot [] = 0
last_dot (c ∷ s) = let later = last_dot s in if contains "." s then later + 1 else 0

unfoldable pub stem_of : String → String
unfolding contains last_dot
stem_of name =
    let dot = last_dot name in
    if contains "." name && ltb 0 dot && ltb dot (length name - 1) then take dot name else name

abbrev pub stem : FilePath → String
stem path = stem_of (path_name path)

-- `str(path)`
unfoldable pub show_path : FilePath → String
show_path path =
    let text = join "/" (reverse path.parts) in
    if path.absolute then "/" ++ text else if is_empty text then "." else text
