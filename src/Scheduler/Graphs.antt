-- ===== src/Scheduler/Graphs.antt =====
-- Graphs that differ by the order in which their edges were added only.
use hopeitworks.Prelude.{
  suc, String, ◌≡◌, refl, sym, ap, ◌∙◌, Bool, true, false, ◌&&◌, ◌||◌, List, [], ◌∷◌, arith, not,
  ◌=s=◌, =s=→≡, if◌then◌else◌, Bool-cases, inl, inr,
}
use hopeitworks.Prelude.Int.{add_one}
use hopeitworks.Scheduler.{Edge, Graph, has_edge, update, add_edge}
use hopeitworks.Scheduler.Keys.{count, count-append, =s=-sym}

-- The same edges, neighbours as often, and degrees.
pub record SameGraph (g h : Graph) : Type 0 where
  pub neighbours : (k j : String) → count j (g.adj k) ≡ count j (h.adj k)
  pub degrees : (k : String) → g.in_degree k ≡ h.in_degree k
  pub edges : (s d : String) → has_edge (s, d) g.edge_set ≡ has_edge (s, d) h.edge_set

pub SameGraph-refl : (g : Graph) → SameGraph g g
SameGraph-refl g = record { neighbours = λ k j. refl; degrees = λ k. refl; edges = λ s d. refl }

pub SameGraph-trans : (f g h : Graph) → SameGraph f g → SameGraph g h → SameGraph f h
SameGraph-trans f g h p q = record {
  neighbours = λ k j. p.neighbours k j ∙ q.neighbours k j;
  degrees = λ k. p.degrees k ∙ q.degrees k;
  edges = λ s d. p.edges s d ∙ q.edges s d;
}

pub SameGraph-IsProp : (g h : Graph) → IsProp (SameGraph g h)
SameGraph-IsProp g h = hlevel

-- What one more edge changes, unless it is there.
abbrev is_new : Graph → String → String → Bool
is_new g a b = not (has_edge (a, b) g.edge_set)

one_more : (j b : String) → count j (b ∷ []) ≡ (if b =s= j then 1 else 0)
unfolding count
one_more j b = refl

neighbours_added :
    (g : Graph) (a b k j : String)
    → count j ((add_edge g a b).adj k)
      ≡ (if is_new g a b && k =s= a && b =s= j then suc (count j (g.adj k)) else count j (g.adj k))
unfolding add_edge update
neighbours_added g a b k j =
    ground (arith, count-append j (g.adj a) (b ∷ []), one_more j b, =s=→≡ k a)

degrees_added :
    (g : Graph) (a b k : String)
    → (add_edge g a b).in_degree k
      ≡ (if is_new g a b && k =s= b then add_one (g.in_degree k) else g.in_degree k)
unfolding add_edge update
degrees_added g a b k = ground (arith, =s=→≡ k b)

both_true : (a b : Bool) → (a && b) ≡ true → (a ≡ true) × (b ≡ true)
both_true a b h = ground arith

present :
    (es : List Edge) (a b s d : String)
    → has_edge (a, b) es ≡ true
    → has_edge (s, d) es ≡ ((s =s= a && d =s= b) || has_edge (s, d) es)
present es a b s d h = elim (Bool-cases (s =s= a && d =s= b)) [
  | inl e ↦
      let (es_, ed) = both_true (s =s= a) (d =s= b) e in
      let same : has_edge (s, d) es ≡ has_edge (a, b) es =
        ap (λ x. has_edge (x, d) es) (=s=→≡ s a es_)
        ∙ ap (λ y. has_edge (a, y) es) (=s=→≡ d b ed) in
      ground (arith, same)
  | inr e ↦ ground arith
]

edges_added :
    (g : Graph) (a b s d : String)
    → has_edge (s, d) (add_edge g a b).edge_set
      ≡ ((s =s= a && d =s= b) || has_edge (s, d) g.edge_set)
unfolding add_edge has_edge
edges_added g a b s d = elim (Bool-cases (has_edge (a, b) g.edge_set)) [
  | inl h ↦ rw h (present g.edge_set a b s d h)
  | inr h ↦ rw h refl
]

module _ (g h : Graph) (same : SameGraph g h) (a b : String) where
  new_in_both : is_new g a b ≡ is_new h a b
  new_in_both = ap not (same.edges a b)

  -- The same edge added to the same graph.
  pub add_edge-SameGraph : SameGraph (add_edge g a b) (add_edge h a b)
  add_edge-SameGraph = record {
    neighbours = λ k j. ground (
      arith,
      neighbours_added g a b k j,
      neighbours_added h a b k j,
      new_in_both,
      same.neighbours k j,
    );
    degrees = λ k.
        ground (arith, degrees_added g a b k, degrees_added h a b k, new_in_both, same.degrees k);
    edges = λ s d.
        edges_added g a b s d
        ∙ ap (λ t. (s =s= a && d =s= b) || t) (same.edges s d)
        ∙ sym (edges_added h a b s d);
  }

still_new :
    (g : Graph) (a b c d : String)
    → (c =s= a && d =s= b) ≡ false
    → is_new (add_edge g a b) c d ≡ is_new g c d
still_new g a b c d other = ground (arith, edges_added g a b c d)

swap_test : (a b c d : String) → (c =s= a && d =s= b) ≡ false → (a =s= c && b =s= d) ≡ false
swap_test a b c d h = ground (arith, =s=-sym a c, =s=-sym b d)

module _ (g : Graph) (a b c d : String) where
  different :
      (c =s= a && d =s= b) ≡ false
      → SameGraph (add_edge (add_edge g a b) c d) (add_edge (add_edge g c d) a b)
  different other =
      let late_c = still_new g a b c d other in
      let late_a = still_new g c d a b (swap_test a b c d other) in
      record {
        neighbours = λ k j. ground (
          arith,
          neighbours_added (add_edge g a b) c d k j,
          neighbours_added g a b k j,
          neighbours_added (add_edge g c d) a b k j,
          neighbours_added g c d k j,
          late_a,
          late_c,
        );
        degrees = λ k. ground (
          arith,
          degrees_added (add_edge g a b) c d k,
          degrees_added g a b k,
          degrees_added (add_edge g c d) a b k,
          degrees_added g c d k,
          late_a,
          late_c,
        );
        edges = λ s t. ground (
          arith,
          edges_added (add_edge g a b) c d s t,
          edges_added g a b s t,
          edges_added (add_edge g c d) a b s t,
          edges_added g c d s t,
        );
      }

  identical :
      c ≡ a → d ≡ b → SameGraph (add_edge (add_edge g a b) c d) (add_edge (add_edge g c d) a b)
  identical e f = rw (e, f) (SameGraph-refl _)

  -- Two edges in either order.
  pub add_edge_comm : SameGraph (add_edge (add_edge g a b) c d) (add_edge (add_edge g c d) a b)
  add_edge_comm = elim (Bool-cases (c =s= a && d =s= b)) [
    | inl h ↦ let (e, f) = both_true (c =s= a) (d =s= b) h in identical (=s=→≡ c a e) (=s=→≡ d b f)
    | inr h ↦ different h
  ]

-- `add_edge` for each of these.
unfoldable pub add_edges : Graph → List Edge → Graph
add_edges g [] = g
add_edges g ((a, b) ∷ es) = add_edges (add_edge g a b) es

pub add_edges-SameGraph :
    (g h : Graph) (es : List Edge) → SameGraph g h → SameGraph (add_edges g es) (add_edges h es)
unfolding add_edges
add_edges-SameGraph g h [] same = same
add_edges-SameGraph g h ((a, b) ∷ es) same =
    add_edges-SameGraph (add_edge g a b) (add_edge h a b) es (add_edge-SameGraph g h same a b)

add_edge_later :
    (g : Graph) (a b : String) (es : List Edge)
    → SameGraph (add_edges (add_edge g a b) es) (add_edge (add_edges g es) a b)
unfolding add_edges
add_edge_later g a b [] = SameGraph-refl (add_edge g a b)
add_edge_later g a b ((c, d) ∷ es) =
    SameGraph-trans _ (add_edges (add_edge (add_edge g c d) a b) es) _
      (add_edges-SameGraph _ _ es (add_edge_comm g a b c d))
      (add_edge_later (add_edge g c d) a b es)

-- Two lists of edges in either order.
pub add_edges_comm :
    (g : Graph) (es fs : List Edge)
    → SameGraph (add_edges (add_edges g es) fs) (add_edges (add_edges g fs) es)
unfolding add_edges
add_edges_comm g [] fs = SameGraph-refl (add_edges g fs)
add_edges_comm g ((a, b) ∷ es) fs =
    SameGraph-trans _ (add_edges (add_edges (add_edge g a b) fs) es) _
      (add_edges_comm (add_edge g a b) es fs) (add_edges-SameGraph _ _ es (add_edge_later g a b fs))
