-- ===== src/Events/Mapper/Data.antt =====
-- The data of an event: the keys that the brain reads.
use z4j_celery.Prelude.{
  String, ◌≡◌, refl, arith, Bool, true, false, Option, none, some, [], ◌∷◌, ◌∙◌, ◌==◌, map,
}
use z4j_celery.Python.{
  Value, str, list, values, of_option_str, of_option_int, Dict, get, get-put, get-update_absent,
}
use z4j_celery.Meta.{TaskMeta}
use z4j_celery.Events.Mapper.{base_data, meta_data, put_some, is_some, nonempty}

get-put_some :
    (k j : String) (v : Value) (here : Bool) (d : Dict Value)
    → (k == j) ≡ false
    → get j (put_some k v here d) ≡ get j d
get-put_some k j v true d h = get-put k j v d ∙ ground arith
get-put_some k j v false d h = refl

-- The metadata of a task adds keys of its own, and leaves the others.
abbrev IsOwnKey : String → Type 0
IsOwnKey k =
    (("deadline_ms" == k) ≡ false)
    × (("expected_duration_ms" == k) ≡ false)
    × (("priority" == k) ≡ false)
    × (("tags" == k) ≡ false)

get-meta_data :
    (meta : Option TaskMeta) (d : Dict Value) (k : String)
    → IsOwnKey k
    → get k (meta_data meta d) ≡ get k d
get-meta_data none d k h = refl
get-meta_data (some m) d k h =
    get-put_some "deadline_ms" k (of_option_int m.deadline_ms) (is_some m.deadline_ms) _ h.0
    ∙ get-put_some "expected_duration_ms" k (of_option_int m.expected_duration_ms)
        (is_some m.expected_duration_ms) _ h.1
    ∙ get-put_some "priority" k (of_option_str m.priority) (is_some m.priority) _ h.2
    ∙ get-put_some "tags" k (list (values (map str m.tags))) (nonempty m.tags) d h.3

-- The name, the queue and the worker stand in an event's data under their own keys, whatever the
-- task's metadata, unless the event's own part has such a key.
pub get-base_data :
    (name : String) (queue worker : Option String) (meta : Option TaskMeta) (extra : Dict Value)
    → get "task_name" extra ≡ none
    → get "queue" extra ≡ none
    → get "worker" extra ≡ none
    → (get "task_name" (base_data name queue worker meta extra) ≡ some (str name))
      × (get "queue" (base_data name queue worker meta extra) ≡ some (of_option_str queue))
      × (get "worker" (base_data name queue worker meta extra) ≡ some (of_option_str worker))
unfolding base_data get
get-base_data name queue worker meta extra a b c =
    let d : Dict Value =
      ("task_name", str name)
      ∷ ("queue", of_option_str queue)
      ∷ ("worker", of_option_str worker)
      ∷ [] in
    (
      get-update_absent "task_name" (meta_data meta d) extra a
          ∙ get-meta_data meta d "task_name" (refl, refl, refl, refl),
      get-update_absent "queue" (meta_data meta d) extra b
          ∙ get-meta_data meta d "queue" (refl, refl, refl, refl),
      get-update_absent "worker" (meta_data meta d) extra c
          ∙ get-meta_data meta d "worker" (refl, refl, refl, refl),
    )
