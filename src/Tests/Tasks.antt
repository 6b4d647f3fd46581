-- ===== src/Tests/Tasks.antt =====
-- The merge of the discovered tasks, at a concrete input.
use z4j_celery.Prelude.{String, ◌≡◌, refl, Bool, true, false, none, List, [], ◌∷◌}
use z4j_celery.Python.{put}
use z4j_celery.Discovery.{TaskDefinition, index, insert, sort, merge_discoveries}
use z4j_celery.Discovery.Merged.{find, find_last, or_else, find-merge_discoveries}

abbrev task : String → Bool → TaskDefinition
task name loaded = record {
  name = name;
  module_name = none;
  engine = "celery";
  queue = none;
  signature = none;
  declared_in = none;
  loaded = loaded;
  tags = [];
}

abbrev from_runtime : List TaskDefinition
from_runtime = task "b.two" true ∷ []

abbrev from_files : List TaskDefinition
from_files = task "c.three" false ∷ task "b.two" false ∷ task "a.one" false ∷ []

sorted_by_name :
    merge_discoveries from_runtime from_files
    ≡ task "a.one" false ∷ task "b.two" true ∷ task "c.three" false ∷ []
unfolding merge_discoveries sort insert index put
sorted_by_name = refl

find-merge_discoveries_example :
    find "b.two" (merge_discoveries from_runtime from_files)
    ≡ or_else (find_last "b.two" from_runtime) (find_last "b.two" from_files)
find-merge_discoveries_example = find-merge_discoveries "b.two" from_runtime from_files
