-- ===== src/Scheduler/Examples.antt =====
-- The schedule of three stories: "B" depends on "A", and "A" and "C" touch the file "f".
use hopeitworks.Prelude.{
  ◌<◌, ◌≡◌, ◌↔◌, ◌⊎◌, inl, refl, String, Bool, true, false, none, List, [], ◌∷◌, ◌=s=◌, str_leb,
  =s=→≡, ≡→=s=, concat, Elem, arith,
}
use hopeitworks.Model.Status.{StoryStatus}
use hopeitworks.Model.Entities.{Story}
use hopeitworks.Scheduler.{
  FileIndex, groups, failure, build_dag, story_graph, add_file_conflict_edges, add_file_edges,
  add_chain, add_explicit_edges, add_depends_on, add_edge, has_edge, update, by_key, file_index,
  index_files, index_file, sort_strings, insert_sorted, dedup, dedup_from, kahn, take_layer,
  release, keys_of, dag_cycle_detected,
}
use hopeitworks.Scheduler.Determinism.{build_dag-order}
use hopeitworks.Scheduler.Keys.{count}
use mathlib.Core.List.Perm
use hopeitworks.Scheduler.Chains.{IsRangeOrder}
use hopeitworks.Scheduler.Schedule.{HasUniqueKeys, dependencies_first, group_shares_no_file}
use hopeitworks.Scheduler.Completeness.{IsKnot, build_dag_total, schedules_all, cycle_iff}

abbrev in_order : FileIndex → FileIndex
in_order idx = idx

abbrev story : String → List String → List String → Story
story key files deps = record {
  id = 1;
  project_id = 1;
  key = key;
  target_files = files;
  depends_on = deps;
  status = StoryStatus.backlog;
  current_stage = none;
  writeback_status = none;
  epic_id = none;
  created_at = 0;
}

abbrev story_a : Story
story_a = story "A" ("f" ∷ []) []

abbrev story_b : Story
story_b = story "B" ("g" ∷ []) ("A" ∷ [])

abbrev story_c : Story
story_c = story "C" ("f" ∷ []) []

abbrev three : List Story
three = story_a ∷ story_b ∷ story_c ∷ []

differ : (s t k : String) → (s =s= t) ≡ false → (s =s= k) ≡ true → (t =s= k) ≡ false
differ s t k ne e = ground (arith, =s=→≡ s k, =s=→≡ t k, ≡→=s= s t)

a_not_b : ("A" =s= "B") ≡ false
unfolding ◌=s=◌
a_not_b = refl

a_not_c : ("A" =s= "C") ≡ false
unfolding ◌=s=◌
a_not_c = refl

b_not_c : ("B" =s= "C") ≡ false
unfolding ◌=s=◌
b_not_c = refl

three-HasUniqueKeys : HasUniqueKeys three
unfolding count
three-HasUniqueKeys k =
    ground (arith, differ "A" "B" k a_not_b, differ "A" "C" k a_not_c, differ "B" "C" k b_not_c)

three_test : build_dag in_order three ≡ groups ((story_a ∷ []) ∷ (story_b ∷ story_c ∷ []) ∷ [])
unfolding build_dag story_graph add_file_conflict_edges add_file_edges add_chain add_explicit_edges
    add_depends_on add_edge has_edge update by_key file_index index_files index_file sort_strings
    insert_sorted dedup dedup_from kahn take_layer release ◌=s=◌ str_leb
three_test = refl

in_order-IsRangeOrder : IsRangeOrder in_order
in_order-IsRangeOrder = record { visits = λ idx e m. m }

a_counted : 0 < count "A" (keys_of three)
unfolding count ◌=s=◌
a_counted = omega arith

dependencies_first_example : 0 < count "A" (keys_of (concat ((story_a ∷ []) ∷ [])))
dependencies_first_example =
    dependencies_first in_order three three-HasUniqueKeys ((story_a ∷ []) ∷ [])
      (story_b ∷ story_c ∷ []) [] story_b "A" three_test (inl refl) (inl refl) a_counted

group_shares_no_file_example : story_b.key ≡ story_b.key
group_shares_no_file_example =
    group_shares_no_file in_order three three-HasUniqueKeys ((story_a ∷ []) ∷ [])
      (story_b ∷ story_c ∷ []) [] story_b story_b "g" in_order-IsRangeOrder three_test (inl refl)
      (inl refl) (inl refl) (inl refl)

build_dag_total_example :
    ((gs : List (List Story)) × (build_dag in_order three ≡ groups gs))
    ⊎ (build_dag in_order three ≡ failure dag_cycle_detected)
build_dag_total_example = build_dag_total in_order three three-HasUniqueKeys

schedules_all_example :
    ((k : String)
      → count k (keys_of (concat ((story_a ∷ []) ∷ (story_b ∷ story_c ∷ []) ∷ [])))
        ≡ count k (keys_of three))
    × ((s : Story)
        → Elem s (concat ((story_a ∷ []) ∷ (story_b ∷ story_c ∷ []) ∷ []))
        → Elem s three)
schedules_all_example =
    schedules_all in_order three three-HasUniqueKeys
      ((story_a ∷ []) ∷ (story_b ∷ story_c ∷ []) ∷ []) three_test

cycle_iff_example :
    (build_dag in_order three ≡ failure dag_cycle_detected)
    ↔ ((u : String → Bool) × IsKnot (story_graph in_order three).edge_set (keys_of three) u)
cycle_iff_example = cycle_iff in_order three three-HasUniqueKeys

-- "A" depends on "B" and both touch "f": the chain edge from "A" to "B" closes a cycle.
shared_with_later_test :
    build_dag in_order (story "A" ("f" ∷ []) ("B" ∷ []) ∷ story "B" ("f" ∷ []) [] ∷ [])
    ≡ failure dag_cycle_detected
unfolding build_dag story_graph add_file_conflict_edges add_file_edges add_chain add_explicit_edges
    add_depends_on add_edge has_edge update by_key file_index index_files index_file sort_strings
    insert_sorted dedup dedup_from kahn take_layer release ◌=s=◌ str_leb
shared_with_later_test = refl

abbrev swapped : FileIndex → FileIndex
swapped [] = []
swapped (e ∷ []) = e ∷ []
swapped (d ∷ e ∷ rest) = e ∷ d ∷ rest

-- "A" shares "f" with "B" and "g" with "C", so the order of the range orders its dependents.
abbrev two_files : List Story
two_files = story "A" ("f" ∷ "g" ∷ []) [] ∷ story "B" ("f" ∷ []) [] ∷ story "C" ("g" ∷ []) [] ∷ []

build_dag-order_example : build_dag in_order two_files ≡ build_dag swapped two_files
unfolding file_index index_files index_file ◌=s=◌
build_dag-order_example =
    build_dag-order in_order swapped two_files
      (Perm.swap ("g", "A" ∷ "C" ∷ []) ("f", "A" ∷ "B" ∷ []) [])
