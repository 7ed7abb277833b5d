-- ===== src/Scheduler/Degrees.antt =====
-- The in-degree bookkeeping: an unprocessed key's degree is the number of its edges from
-- unprocessed keys, and a processed key's is negative. Adding an edge, and taking a key, keep this.
use hopeitworks.Prelude.{
  ℕ, suc, ◌+◌, ◌<◌, String, ◌≡◌, refl, Bool, true, false, ◌&&◌, not, List, [], ◌∷◌, ◌++◌, arith,
  ◌=s=◌, =s=-refl, =s=→≡, if◌then◌else◌, Bool-cases, inl, inr,
}
use hopeitworks.Prelude.Int.{ℤ, pos, negsuc, add_one, sub_one, is_neg}
use hopeitworks.Scheduler.{Edge, Graph, has_edge, update, add_edge, empty_graph, release}
use hopeitworks.Scheduler.Keys.{count, count-append, =s=-sym}

-- How often an edge stands in a list.
pub edge_count : String → String → List Edge → ℕ
edge_count s k [] = 0
edge_count s k ((s', k') ∷ es) =
    let rest = edge_count s k es in if s =s= s' && k =s= k' then suc rest else rest

-- The edges into `k` whose source is not done.
pub pending : (String → Bool) → String → List Edge → ℕ
pending done k [] = 0
pending done k ((s', k') ∷ es) =
    let rest = pending done k es in if k =s= k' && not (done s') then suc rest else rest

pub has_edge-count :
    (s k : String) (es : List Edge) → 0 < edge_count s k es → has_edge (s, k) es ≡ true
unfolding has_edge edge_count
has_edge-count s k [] h = elim h [ ]
has_edge-count s k ((s', k') ∷ es) h = ground (arith, has_edge-count s k es)

pub count-has_edge :
    (s k : String) (es : List Edge) → has_edge (s, k) es ≡ true → 0 < edge_count s k es
unfolding has_edge edge_count
count-has_edge s k [] h = absurd (ground arith)
count-has_edge s k ((s', k') ∷ es) h = ground (arith, count-has_edge s k es)

pub edge-pending :
    (done : String → Bool) (s k : String) (es : List Edge)
    → 0 < edge_count s k es
    → done s ≡ false
    → 0 < pending done k es
unfolding edge_count pending
edge-pending done s k [] h u = elim h [ ]
edge-pending done s k ((s', k') ∷ es) h u = elim (Bool-cases (s =s= s')) [
  | inl e ↦ ground (arith, edge-pending done s k es, =s=→≡ s s' e)
  | inr e ↦ ground (arith, edge-pending done s k es)
]

-- An undone predecessor, where there is one.
pub pending-edge :
    (done : String → Bool) (k : String) (es : List Edge)
    → 0 < pending done k es
    → (s : String) × (0 < edge_count s k es) × (done s ≡ false)
unfolding edge_count pending
pending-edge done k [] h = elim h [ ]
pending-edge done k ((s', k') ∷ es) h = elim (Bool-cases (k =s= k' && not (done s'))) [
  | inl e ↦ (s', ground (arith, =s=-refl s'), ground arith)
  | inr e ↦
      let r = pending-edge done k es (ground arith) in
      let (s, at, undone) = r in (s, ground arith, undone)
]

-- What a graph's fields say of one another.
pub record IsGraph (g : Graph) : Type 0 where
  pub adjacent : (s k : String) → count k (g.adj s) ≡ edge_count s k g.edge_set
  pub degrees : (k : String) → g.in_degree k ≡ pos (pending (λ _. false) k g.edge_set)

pub empty_graph-IsGraph : IsGraph empty_graph
unfolding count edge_count pending
empty_graph-IsGraph = record { adjacent = λ s k. refl; degrees = λ k. refl }

count_one : (k dst : String) → count k (dst ∷ []) ≡ (if dst =s= k then 1 else 0)
unfolding count
count_one k dst = ground arith

add_edge_adjacent :
    (g : Graph) (src dst s k : String)
    → IsGraph g
    → count k (update g.adj src (g.adj src ++ dst ∷ []) s)
      ≡ edge_count s k ((src, dst) ∷ g.edge_set)
unfolding update edge_count
add_edge_adjacent g src dst s k h = elim (Bool-cases (s =s= src)) [
  | inl at ↦ ground (
    arith,
    =s=→≡ s src at,
    h.adjacent src k,
    =s=-sym k dst,
    count-append k (g.adj src) (dst ∷ []),
    count_one k dst,
  )
  | inr ne ↦ ground (arith, h.adjacent s k)
]

add_edge_degrees :
    (g : Graph) (src dst k : String)
    → IsGraph g
    → update g.in_degree dst (add_one (g.in_degree dst)) k
      ≡ pos (pending (λ _. false) k ((src, dst) ∷ g.edge_set))
unfolding update pending
add_edge_degrees g src dst k h = elim (Bool-cases (k =s= dst)) [
  | inl at ↦ ground (arith, =s=→≡ k dst at, h.degrees dst)
  | inr ne ↦ ground (arith, h.degrees k)
]

pub add_edge-IsGraph : (g : Graph) (src dst : String) → IsGraph g → IsGraph (add_edge g src dst)
unfolding add_edge
add_edge-IsGraph g src dst h = elim (Bool-cases (has_edge (src, dst) g.edge_set)) [
  | inl e ↦ rw e h
  | inr e ↦ rw e (record {
    adjacent = λ s k. add_edge_adjacent g src dst s k h;
    degrees = λ k. add_edge_degrees g src dst k h;
  })
]

-- The state of the degrees when the keys of `done` are processed.
pub record IsState (es : List Edge) (done : String → Bool) (d : String → ℤ) : Type 0 where
  pub at_open : (k : String) → done k ≡ false → d k ≡ pos (pending done k es)
  pub at_done : (k : String) → done k ≡ true → is_neg (d k) ≡ true

pub pending-update :
    (done : String → Bool) (s k : String) (es : List Edge)
    → done s ≡ false
    → pending done k es ≡ pending (update done s true) k es + edge_count s k es
unfolding pending edge_count update
pending-update done s k [] h = ground arith
pending-update done s k ((s', k') ∷ es) h = elim (Bool-cases (s' =s= s)) [
  | inl e ↦ ground (arith, pending-update done s k es h, =s=→≡ s' s e, =s=-sym s s')
  | inr e ↦ ground (arith, pending-update done s k es h, =s=-sym s s')
]

release_open :
    (ks : List String) (d : String → ℤ) (k : String) (n : ℕ)
    → d k ≡ pos (n + count k ks)
    → release ks d k ≡ pos n
unfolding count release
release_open [] d k n h = ground arith
release_open (x ∷ ks) d k n h = release_open ks (update d x (sub_one (d x))) k n (
    unfold update in
    elim (Bool-cases (x =s= k)) [
      | inl e ↦ ground (arith, =s=→≡ x k e, =s=-refl k)
      | inr e ↦ ground (arith, =s=-sym x k)
    ])

sub_one-neg : (z : ℤ) → is_neg z ≡ true → is_neg (sub_one z) ≡ true
sub_one-neg (pos n) h = absurd (ground arith)
sub_one-neg (negsuc n) h = refl

release_done :
    (ks : List String) (d : String → ℤ) (k : String)
    → is_neg (d k) ≡ true
    → is_neg (release ks d k) ≡ true
unfolding release
release_done [] d k h = h
release_done (x ∷ ks) d k h = release_done ks (update d x (sub_one (d x))) k (
    unfold update in
    elim (Bool-cases (k =s= x)) [
      | inl e ↦ ground (arith, =s=→≡ k x e, sub_one-neg (d k))
      | inr e ↦ ground arith
    ])

module _ (g : Graph) (done : String → Bool) (d : String → ℤ) (s : String) (hg : IsGraph g)
    (h : IsState g.edge_set done d) (undone : done s ≡ false) where
  take_open :
      (k : String)
      → update done s true k ≡ false
      → update d s (negsuc 0) k
        ≡ pos (pending (update done s true) k g.edge_set + count k (g.adj s))
  unfolding update
  take_open k o =
      ground (arith, h.at_open k, hg.adjacent s k, pending-update done s k g.edge_set undone)

  take_done : (k : String) → update done s true k ≡ true → is_neg (update d s (negsuc 0) k) ≡ true
  unfolding update
  take_done k o = ground (arith, h.at_done k)

  -- Taking one unprocessed key: its degree becomes -1, and its dependents lose an edge.
  pub take-IsState :
      IsState g.edge_set (update done s true) (release (g.adj s) (update d s (negsuc 0)))
  take-IsState = record {
    at_open = λ k o. release_open (g.adj s) (update d s (negsuc 0)) k _ (take_open k o);
    at_done = λ k o. release_done (g.adj s) (update d s (negsuc 0)) k (take_done k o);
  }
