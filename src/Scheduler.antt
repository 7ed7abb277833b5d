-- ===== src/Scheduler.antt =====
-- The scheduler of stories: `BuildDAG` and its helpers (service/scheduler_service.go).
-- A Go map from keys is a function, which gives the zero value on a missing key as the map does.
-- The range over `fileIndex` has no fixed order: `order` is the order of that range.
pub mod Keys
pub mod Degrees
pub mod Layers
pub mod TakeLayer
pub mod Rounds
pub mod Edges
pub mod Files
pub mod Chains
pub mod Walk
pub mod Schedule
pub mod Completeness
pub mod Graphs
pub mod Determinism
mod Examples
use hopeitworks.Prelude.{
  ℕ, zero, suc, ◌+◌, String, Bool, true, false, ◌&&◌, ◌||◌, Option, none, some, List, [], ◌∷◌, ◌++◌,
  map, length, select, ltb, ◌=s=◌, str_leb, if◌then◌else◌,
}
use hopeitworks.Prelude.Int.{ℤ, pos, negsuc, add_one, sub_one, is_zero}
use hopeitworks.Errors.{DomainError, new_invalid_state}
use hopeitworks.Model.Entities.{Story}

abbrev pub Edge : Type 0
Edge = String × String

-- `edgeSet[edge]`.
unfoldable pub has_edge : Edge → List Edge → Bool
has_edge e [] = false
has_edge (s, d) ((s', d') ∷ es) = (s =s= s' && d =s= d') || has_edge (s, d) es

-- `m[k] = v`.
unfoldable pub update {ℓ} : {V : Type ℓ} → (String → V) → String → V → String → V
update m k v j = if j =s= k then v else m j

pub record Graph : Type 0 where
  pub adj : String → List String
  pub in_degree : String → ℤ
  pub edge_set : List Edge

-- `byKey[key]`: the last story of the key.
unfoldable pub by_key : List Story → String → Option Story
by_key [] key = none
by_key (s ∷ ss) key = elim (by_key ss key) [
  | some t ↦ some t
  | none ↦ if s.key =s= key then some s else none
]

abbrev pub is_known : Option Story → Bool
is_known none = false
is_known (some s) = true

-- `edgeSet[edge] = true; adj[src] = append(adj[src], dst); inDegree[dst]++`, unless the edge is there.
unfoldable pub add_edge : Graph → String → String → Graph
add_edge g src dst = if has_edge (src, dst) g.edge_set then g else record {
  adj = update g.adj src (g.adj src ++ dst ∷ []);
  in_degree = update g.in_degree dst (add_one (g.in_degree dst));
  edge_set = (src, dst) ∷ g.edge_set;
}

abbrev pub empty_graph : Graph
empty_graph = record { adj = λ _. []; in_degree = λ _. pos 0; edge_set = [] }

-- The loop over `story.DependsOn`; an unknown key is skipped.
unfoldable pub add_depends_on : List Story → String → List String → Graph → Graph
add_depends_on all key [] g = g
add_depends_on all key (dep ∷ deps) g =
    add_depends_on all key deps (if is_known (by_key all dep) then add_edge g dep key else g)

unfoldable pub add_explicit_edges : List Story → List Story → Graph → Graph
add_explicit_edges all [] g = g
add_explicit_edges all (s ∷ ss) g =
    add_explicit_edges all ss (add_depends_on all s.key s.depends_on g)

abbrev pub FileIndex : Type 0
FileIndex = List (String × List String)

-- `fileIndex[f] = append(fileIndex[f], key)`.
unfoldable pub index_file : String → String → FileIndex → FileIndex
index_file f key [] = (f, key ∷ []) ∷ []
index_file f key ((f', keys) ∷ rest) =
    if f' =s= f then (f', keys ++ key ∷ []) ∷ rest else (f', keys) ∷ index_file f key rest

unfoldable pub index_files : String → List String → FileIndex → FileIndex
index_files key [] idx = idx
index_files key (f ∷ fs) idx = index_files key fs (index_file f key idx)

unfoldable pub file_index : List Story → FileIndex → FileIndex
file_index [] idx = idx
file_index (s ∷ ss) idx = file_index ss (index_files s.key s.target_files idx)

-- `sort.Strings`.
unfoldable pub insert_sorted : String → List String → List String
insert_sorted k [] = k ∷ []
insert_sorted k (x ∷ xs) = if str_leb k x then k ∷ x ∷ xs else x ∷ insert_sorted k xs

unfoldable pub sort_strings : List String → List String
unfolding insert_sorted
sort_strings [] = []
sort_strings (x ∷ xs) = insert_sorted x (sort_strings xs)

-- The loop of `dedup` after the first element `prev`.
unfoldable pub dedup_from : String → List String → List String
dedup_from prev [] = []
dedup_from prev (x ∷ xs) = let rest = dedup_from x xs in if x =s= prev then rest else x ∷ rest

unfoldable pub dedup : List String → List String
unfolding dedup_from
dedup [] = []
dedup (x ∷ xs) = x ∷ dedup_from x xs

-- The chain edges `unique[i] -> unique[i+1]` between known keys.
unfoldable pub add_chain : List Story → List String → Graph → Graph
add_chain all [] g = g
add_chain all (src ∷ []) g = g
add_chain all (src ∷ dst ∷ rest) g =
    add_chain all (dst ∷ rest)
      (if is_known (by_key all src) && is_known (by_key all dst) then add_edge g src dst else g)

-- The body of the range over `fileIndex`, with its `continue` on fewer than two keys.
unfoldable pub add_file_edges : List Story → FileIndex → Graph → Graph
unfolding sort_strings dedup
add_file_edges all [] g = g
add_file_edges all ((f, keys) ∷ rest) g =
    add_file_edges all rest
      (if ltb (length keys) 2 then g else add_chain all (dedup (sort_strings keys)) g)

module _ (order : FileIndex → FileIndex) where
  unfoldable pub add_file_conflict_edges : List Story → Graph → Graph
  add_file_conflict_edges stories g = add_file_edges stories (order (file_index stories [])) g

  -- The edges of both kinds.
  unfoldable pub story_graph : List Story → Graph
  story_graph stories =
      add_file_conflict_edges stories (add_explicit_edges stories stories empty_graph)

-- How `BuildDAG` ends: with groups, an error, a panic on a key without a story, or out of fuel.
pub data Outcome : Type 0 where
  groups : List (List Story) → Outcome
  failure : DomainError → Outcome
  nil_deref out_of_fuel : Outcome

-- `for _, dependent := range adj[key] { inDegree[dependent]-- }`.
unfoldable pub release : List String → (String → ℤ) → String → ℤ
release [] d = d
release (k ∷ ks) d = release ks (update d k (sub_one (d k)))

-- The loop over the sorted zero keys: the group, unless a key has no story, and the degrees after.
unfoldable pub take_layer :
    (String → Option Story)
    → (String → List String)
    → List String
    → (String → ℤ)
    → Option (List Story) × (String → ℤ)
unfolding update release
take_layer stories adj [] d = (some [], d)
take_layer stories adj (k ∷ ks) d =
    let (rest, d') = take_layer stories adj ks (release (adj k) (update d k (negsuc 0))) in
    (
      elim (stories k) [ none ↦ none | some s ↦ elim rest [ none ↦ none | some g ↦ some (s ∷ g) ] ],
      d',
    )

abbrev pub cons_group : List Story → Outcome → Outcome
cons_group g (groups gs) = groups (g ∷ gs)
cons_group g o = o

abbrev pub dag_cycle_detected : DomainError
dag_cycle_detected = new_invalid_state "DAG_CYCLE_DETECTED"

-- One round of Kahn's algorithm after the layer is taken: `groups = append(groups, group)`,
-- `processed += len(group)`, then the next rounds.
abbrev pub after_layer :
    Option (List Story) × (String → ℤ) → ((String → ℤ) → ℕ → Outcome) → ℕ → Outcome
after_layer (none, d) next processed = nil_deref
after_layer (some g, d) next processed = cons_group g (next d (processed + length g))

-- `sort.Strings(zeroKeys)` and the layer, or the cycle error when there is no zero key.
abbrev pub round :
    (String → Option Story)
    → (String → List String)
    → List String
    → (String → ℤ)
    → ((String → ℤ) → ℕ → Outcome)
    → ℕ
    → Outcome
round stories adj [] d next processed = failure dag_cycle_detected
round stories adj (z ∷ zs) d next processed =
    after_layer (take_layer stories adj (sort_strings (z ∷ zs)) d) next processed

-- `for processed < len(stories)`, on fuel; the groups come back front to back.
unfoldable pub kahn :
    ℕ → (String → Option Story) → (String → List String) → List String → (String → ℤ) → ℕ → Outcome
kahn zero stories adj keys d processed = out_of_fuel
kahn (suc fuel) stories adj keys d processed = elim (ltb processed (length keys)) [
  | true ↦
      round stories adj (select (λ k. is_zero (d k)) keys) d (kahn fuel stories adj keys) processed
  | false ↦ groups []
]

abbrev pub keys_of : List Story → List String
keys_of stories = map (λ (s : Story). s.key) stories

-- Every round processes a story, so one more round than stories is fuel enough.
unfoldable pub build_dag : (FileIndex → FileIndex) → List Story → Outcome
unfolding kahn
build_dag order [] = groups []
build_dag order (s ∷ ss) =
    let stories = s ∷ ss in
    let g = story_graph order stories in
    kahn (suc (length stories)) (by_key stories) g.adj (keys_of stories) g.in_degree 0
