-- ===== src/Scheduler/Edges.antt =====
-- Which edges the graph of the stories has: one for each known dependency, and a chain for each
-- file that several stories touch. Nothing else, and all between known keys.
use hopeitworks.Prelude.{
  String, ◌≡◌, refl, ap, Bool, true, false, ◌&&◌, List, [], ◌∷◌, arith, length, ltb, ◌=s=◌,
  =s=-refl, =s=→≡, ≡→=s=, if◌then◌else◌, Bool-cases, inl, inr, ◌⊎◌, Elem,
}
use hopeitworks.Model.Entities.{Story}
use hopeitworks.Scheduler.{
  Edge, Graph, has_edge, add_edge, by_key, is_known, add_depends_on, add_explicit_edges, FileIndex,
  sort_strings, dedup, add_chain, add_file_edges, add_file_conflict_edges, story_graph, empty_graph,
}
use hopeitworks.Scheduler.Degrees.{IsGraph, add_edge-IsGraph, empty_graph-IsGraph}

pub has_edge-add_edge_old :
    (g : Graph) (e : Edge) (src dst : String)
    → has_edge e g.edge_set ≡ true
    → has_edge e (add_edge g src dst).edge_set ≡ true
unfolding add_edge
has_edge-add_edge_old g (s, d) src dst h = elim (Bool-cases (has_edge (src, dst) g.edge_set)) [
  | inl e ↦ rw e h
  | inr e ↦ rw e (unfold has_edge in rw h (ground arith))
]

pub has_edge-add_edge :
    (g : Graph) (src dst : String) → has_edge (src, dst) (add_edge g src dst).edge_set ≡ true
unfolding add_edge
has_edge-add_edge g src dst = elim (Bool-cases (has_edge (src, dst) g.edge_set)) [
  | inl e ↦ rw e e
  | inr e ↦ rw e (unfold has_edge in rw (=s=-refl src, =s=-refl dst))
]

-- A property of graphs that every added edge between known keys keeps.
pub record Keeps (all : List Story) (P : Graph → Type 0) : Type 0 where
  pub add :
      (g : Graph) (src dst : String)
      → is_known (by_key all src) ≡ true
      → is_known (by_key all dst) ≡ true
      → P g
      → P (add_edge g src dst)

module _ (all : List Story) (P : Graph → Type 0) (k : Keeps all P) where
  pub if_known :
      (g : Graph) (src dst : String) (b : Bool)
      → (b ≡ true → is_known (by_key all src) ≡ true)
      → (b ≡ true → is_known (by_key all dst) ≡ true)
      → P g
      → P (if b then add_edge g src dst else g)
  if_known g src dst true hs hd h = k.add g src dst (hs refl) (hd refl) h
  if_known g src dst false hs hd h = h

  pub add_depends_on-Keeps :
      (key : String) (deps : List String) (g : Graph)
      → is_known (by_key all key) ≡ true
      → P g
      → P (add_depends_on all key deps g)
  unfolding add_depends_on
  add_depends_on-Keeps key [] g known h = h
  add_depends_on-Keeps key (dep ∷ deps) g known h =
      add_depends_on-Keeps key deps _ known
        (if_known g dep key (is_known (by_key all dep)) (λ e. e) (λ _. known) h)

  pub add_chain-Keeps : (ks : List String) (g : Graph) → P g → P (add_chain all ks g)
  unfolding add_chain
  add_chain-Keeps [] g h = h
  add_chain-Keeps (src ∷ []) g h = h
  add_chain-Keeps (src ∷ dst ∷ rest) g h = add_chain-Keeps (dst ∷ rest) _ (
      if_known g src dst (is_known (by_key all src) && is_known (by_key all dst))
        (λ e. ground arith) (λ e. ground arith) h)

  pub add_file_edges-Keeps : (idx : FileIndex) (g : Graph) → P g → P (add_file_edges all idx g)
  unfolding add_file_edges
  add_file_edges-Keeps [] g h = h
  add_file_edges-Keeps ((f, keys) ∷ rest) g h = elim (Bool-cases (ltb (length keys) 2)) [
    | inl few ↦ rw few (add_file_edges-Keeps rest g h)
    | inr many ↦
        rw many (add_file_edges-Keeps rest _ (add_chain-Keeps (dedup (sort_strings keys)) g h))
  ]

  pub add_explicit_edges-Keeps :
      (ss : List Story) (g : Graph)
      → ((s : Story) → Elem s ss → is_known (by_key all s.key) ≡ true)
      → P g
      → P (add_explicit_edges all ss g)
  unfolding add_explicit_edges
  add_explicit_edges-Keeps [] g known h = h
  add_explicit_edges-Keeps (s ∷ ss) g known h =
      add_explicit_edges-Keeps ss _ (λ t m. known t (inr m))
        (add_depends_on-Keeps s.key s.depends_on g (known s (inl refl)) h)

-- The story of a listed key is known.
pub known_of_Elem : (ss : List Story) (s : Story) → Elem s ss → is_known (by_key ss s.key) ≡ true
unfolding by_key
known_of_Elem [] s m = absurd m
known_of_Elem (t ∷ ss) s (inl e) =
    ground (arith, ap (λ (u : Story). u.key) e, =s=-refl t.key, ≡→=s= t.key s.key)
known_of_Elem (t ∷ ss) s (inr m) = ground (arith, known_of_Elem ss s m)

abbrev BothKnown : List Story → Graph → Type 0
BothKnown all g =
    (src dst : String)
    → has_edge (src, dst) g.edge_set ≡ true
    → (is_known (by_key all src) ≡ true) × (is_known (by_key all dst) ≡ true)

BothKnown-empty : (all : List Story) → BothKnown all empty_graph
unfolding has_edge
BothKnown-empty all src dst h = absurd (ground arith)

has_edge-cons_cases :
    (src dst s d : String) (es : List Edge)
    → has_edge (s, d) ((src, dst) ∷ es) ≡ true
    → (has_edge (s, d) es ≡ true) ⊎ ((s ≡ src) × (d ≡ dst))
unfolding has_edge
has_edge-cons_cases src dst s d es h = elim (Bool-cases (s =s= src && d =s= dst)) [
  | inl e ↦ inr (=s=→≡ s src (ground arith), =s=→≡ d dst (ground arith))
  | inr e ↦ inl (ground arith)
]

has_edge-add_edge_cases :
    (g : Graph) (src dst s d : String)
    → has_edge (s, d) (add_edge g src dst).edge_set ≡ true
    → (has_edge (s, d) g.edge_set ≡ true) ⊎ ((s ≡ src) × (d ≡ dst))
unfolding add_edge
has_edge-add_edge_cases g src dst s d h = elim (Bool-cases (has_edge (src, dst) g.edge_set)) [
  | inl there ↦ inl (rw there at h)
  | inr absent ↦ has_edge-cons_cases src dst s d g.edge_set (rw absent at h)
]

BothKnown-Keeps : (all : List Story) → Keeps all (BothKnown all)
BothKnown-Keeps all = record {
  add = λ g src dst ks kd h s d e. elim (has_edge-add_edge_cases g src dst s d e) [
    | inl old ↦ h s d old
    | inr (es, ed) ↦ (rw es ks, rw ed kd)
  ];
}

module _ (order : FileIndex → FileIndex) (stories : List Story) where
  pub story_graph-Keeps :
      (P : Graph → Type 0) → Keeps stories P → P empty_graph → P (story_graph order stories)
  unfolding story_graph add_file_conflict_edges
  story_graph-Keeps P k h =
      add_file_edges-Keeps stories P k _ _
        (add_explicit_edges-Keeps stories P k stories _ (known_of_Elem stories) h)

  pub story_graph-IsGraph : IsGraph (story_graph order stories)
  story_graph-IsGraph =
      story_graph-Keeps IsGraph (record { add = λ g src dst _ _. add_edge-IsGraph g src dst })
        empty_graph-IsGraph

  -- Both ends of every edge are keys of stories.
  pub story_graph_known :
      (src dst : String)
      → has_edge (src, dst) (story_graph order stories).edge_set ≡ true
      → (is_known (by_key stories src) ≡ true) × (is_known (by_key stories dst) ≡ true)
  story_graph_known =
      story_graph-Keeps (BothKnown stories) (BothKnown-Keeps stories) (BothKnown-empty stories)
