-- ===== src/Discovery.antt =====
-- src/z4j_celery/discovery/merger.py: the tasks that a worker reports, from the two discoveries.
pub mod Paths
pub mod Syntax
pub mod Static
pub mod Registry
pub mod Tasks
pub mod Watching
pub mod Merged
use Prim.Native.Nat.{Ordering}
use Prim.Native.String.{compare}
use z4j_celery.Prelude.{String, Bool, Option, List, [], ◌∷◌}
use z4j_celery.Python.{Value, Dict, put}

-- z4j_core's `TaskDefinition`. Its constructor checks what it is given, and may raise.
pub record TaskDefinition : Type 0 where
  pub name : String
  pub module_name : Option String
  pub engine : String
  pub queue : Option String
  pub signature : Option String
  pub declared_in : Option String
  pub loaded : Bool
  pub tags : List Value

abbrev pub engine_name : String
engine_name = "celery"

-- `for definition in definitions: by_name[definition.name] = definition`
unfoldable pub index : List TaskDefinition → Dict TaskDefinition → Dict TaskDefinition
index [] d = d
index (t ∷ ts) d = index ts (put t.name t d)

-- `sorted(…, key=lambda d: d.name)`: stable, by code points.
unfoldable pub insert : String → TaskDefinition → Dict TaskDefinition → Dict TaskDefinition
insert k t [] = (k, t) ∷ []
insert k t ((j, u) ∷ d) =
    let later = (j, u) ∷ insert k t d in
    elim (compare k j) [ Ordering.gt ↦ later | _ ↦ (k, t) ∷ (j, u) ∷ d ]

unfoldable pub sort : Dict TaskDefinition → Dict TaskDefinition
sort [] = []
sort ((k, t) ∷ d) = insert k t (sort d)

abbrev pub definitions : Dict TaskDefinition → List TaskDefinition
definitions [] = []
definitions ((k, t) ∷ d) = t ∷ definitions d

-- Static first, then the runtime's over them.
unfoldable pub merge_discoveries : List TaskDefinition → List TaskDefinition → List TaskDefinition
merge_discoveries runtime static = definitions (sort (index runtime (index static [])))
