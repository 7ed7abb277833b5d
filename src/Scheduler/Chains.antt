-- ===== src/Scheduler/Chains.antt =====
-- The edges of the graph: from each known dependency, and along the stories that touch one file.
use hopeitworks.Prelude.{
  ℕ, ◌≤◌, ◌<◌, String, ◌≡◌, refl, ap, ◌∙◌, ◌≢◌, sym, subst, true, false, List, [], ◌∷◌, arith,
  length, ltb, ◌=s=◌, =s=→≡, if◌then◌else◌, Bool-cases, inl, inr, Elem,
}
use hopeitworks.Model.Entities.{Story}
use hopeitworks.Scheduler.{
  Edge, Graph, has_edge, add_edge, by_key, is_known, FileIndex, file_index, sort_strings,
  add_depends_on, add_explicit_edges, add_file_conflict_edges, story_graph, empty_graph, dedup_from,
  dedup, add_chain, add_file_edges,
}
use hopeitworks.Scheduler.Keys.{count, count-sort_strings, count_cases, count-head, count-tail}
use hopeitworks.Scheduler.Files.{keys_in, keys_in-Elem, count-file_index, file_index_known}
use hopeitworks.Scheduler.Edges.{
  has_edge-add_edge_old, has_edge-add_edge, Keeps, known_of_Elem, add_depends_on-Keeps,
  add_explicit_edges-Keeps, add_chain-Keeps, add_file_edges-Keeps,
}

count-dedup_from :
    (prev k : String) (xs : List String)
    → 0 < count k (prev ∷ xs)
    → 0 < count k (prev ∷ dedup_from prev xs)
unfolding dedup_from count
count-dedup_from prev k [] h = h
count-dedup_from prev k (x ∷ xs) h = elim (Bool-cases (x =s= prev)) [
  | inl e ↦ ground (arith, =s=→≡ x prev e, count-dedup_from x k xs)
  | inr e ↦ ground (arith, count-dedup_from x k xs)
]

-- Removing adjacent duplicates loses no key.
pub count-dedup : (k : String) (xs : List String) → 0 < count k xs → 0 < count k (dedup xs)
unfolding dedup
count-dedup k [] h = h
count-dedup k (x ∷ xs) h = count-dedup_from x k xs h

-- Consecutive keys of the list are joined by edges.
abbrev pub Chained : List Edge → List String → Type 0
Chained es [] = Unit
Chained es (k ∷ []) = Unit
Chained es (k ∷ j ∷ rest) = (has_edge (k, j) es ≡ true) × Chained es (j ∷ rest)

Chained-mono :
    (g : Graph) (src dst : String) (ks : List String)
    → Chained g.edge_set ks
    → Chained (add_edge g src dst).edge_set ks
Chained-mono g src dst [] h = tt
Chained-mono g src dst (k ∷ []) h = tt
Chained-mono g src dst (k ∷ j ∷ rest) h =
    (has_edge-add_edge_old g (k, j) src dst h.0, Chained-mono g src dst (j ∷ rest) h.1)

Chained-Keeps : (all : List Story) (ks : List String) → Keeps all (λ g. Chained g.edge_set ks)
Chained-Keeps all ks = record { add = λ g src dst _ _ h. Chained-mono g src dst ks h }

edge-Keeps : (all : List Story) (e : Edge) → Keeps all (λ g. has_edge e g.edge_set ≡ true)
edge-Keeps all e = record { add = λ g src dst _ _ h. has_edge-add_edge_old g e src dst h }

add_chain_known :
    (all : List Story) (k j : String) (rest : List String) (g : Graph)
    → is_known (by_key all k) ≡ true
    → is_known (by_key all j) ≡ true
    → add_chain all (k ∷ j ∷ rest) g ≡ add_chain all (j ∷ rest) (add_edge g k j)
unfolding add_chain
add_chain_known all k j rest g hk hj = rw (hk, hj)

pub add_chain-Chained :
    (all : List Story) (ks : List String) (g : Graph)
    → ((k : String) → 0 < count k ks → is_known (by_key all k) ≡ true)
    → Chained (add_chain all ks g).edge_set ks
add_chain-Chained all [] g known = tt
add_chain-Chained all (k ∷ []) g known = tt
add_chain-Chained all (k ∷ j ∷ rest) g known =
    let at = known k (count-head k (j ∷ rest)) in
    let at' = known j (count-tail j k (j ∷ rest) (count-head j rest)) in
    subst (λ g'. Chained g'.edge_set (k ∷ j ∷ rest)) (sym (add_chain_known all k j rest g at at'))
      (
        add_chain-Keeps all (λ g'. has_edge (k, j) g'.edge_set ≡ true) (edge-Keeps all (k, j))
            (j ∷ rest) (add_edge g k j) (has_edge-add_edge g k j),
        add_chain-Chained all (j ∷ rest) (add_edge g k j)
            (λ i m. known i (count-tail i k (j ∷ rest) m)),
      )

-- The keys of one file, when the chain is made.
abbrev pub chain_of : List String → List String
chain_of keys = dedup (sort_strings keys)

count-dedup_from-le :
    (prev k : String) (xs : List String) → count k (dedup_from prev xs) ≤ count k xs
unfolding dedup_from count
count-dedup_from-le prev k [] = omega arith
count-dedup_from-le prev k (x ∷ xs) = ground (arith, count-dedup_from-le x k xs)

count-dedup-le : (k : String) (xs : List String) → count k (dedup xs) ≤ count k xs
unfolding dedup count
count-dedup-le k [] = omega arith
count-dedup-le k (x ∷ xs) = ground (arith, count-dedup_from-le x k xs)

count-chain_of-le : (k : String) (keys : List String) → count k (chain_of keys) ≤ count k keys
count-chain_of-le k keys =
    omega (arith, count-dedup-le k (sort_strings keys), count-sort_strings k keys)

count-chain_of : (k : String) (keys : List String) → 0 < count k keys → 0 < count k (chain_of keys)
count-chain_of k keys h =
    count-dedup k (sort_strings keys) (omega (arith, count-sort_strings k keys))

few_lem : (n : ℕ) → 2 ≤ n → ltb n 2 ≡ false
few_lem n h = ground arith

module _ (all : List Story) where
  add_file_edges_step :
      (f : String) (keys : List String) (rest : FileIndex) (g : Graph)
      → add_file_edges all ((f, keys) ∷ rest) g
        ≡ add_file_edges all rest
            (if ltb (length keys) 2 then g else add_chain all (chain_of keys) g)
  unfolding add_file_edges
  add_file_edges_step f keys rest g = refl

  add_file_edges_many :
      (f : String) (keys : List String) (rest : FileIndex) (g : Graph)
      → 2 ≤ length keys
      → add_file_edges all ((f, keys) ∷ rest) g
        ≡ add_file_edges all rest (add_chain all (chain_of keys) g)
  unfolding add_file_edges
  add_file_edges_many f keys rest g h = rw (few_lem (length keys) h)

  add_file_edges-Chained :
      (idx : FileIndex) (g : Graph) (f : String) (keys : List String)
      → Elem (f, keys) idx
      → 2 ≤ length keys
      → ((k : String) → 0 < count k (chain_of keys) → is_known (by_key all k) ≡ true)
      → Chained (add_file_edges all idx g).edge_set (chain_of keys)
  add_file_edges-Chained [] g f keys m many known = absurd m
  add_file_edges-Chained ((f', keys') ∷ rest) g f keys (inl e) many known =
      let same : keys ≡ keys' = ap (λ (p : String × List String). p.1) e in
      subst (λ ks. Chained (add_file_edges all ((f', ks) ∷ rest) g).edge_set (chain_of keys)) same
        (subst (λ g'. Chained g'.edge_set (chain_of keys))
          (sym (add_file_edges_many f' keys rest g many))
          (add_file_edges-Keeps all (λ g'. Chained g'.edge_set (chain_of keys))
            (Chained-Keeps all (chain_of keys)) rest (add_chain all (chain_of keys) g)
            (add_chain-Chained all (chain_of keys) g known)))
  add_file_edges-Chained ((f', keys') ∷ rest) g f keys (inr m) many known =
      let g' = if ltb (length keys') 2 then g else add_chain all (chain_of keys') g in
      subst (λ g''. Chained g''.edge_set (chain_of keys))
        (sym (add_file_edges_step f' keys' rest g))
        (add_file_edges-Chained rest g' f keys m many known)

  add_depends_on-edge :
      (key : String) (deps : List String) (g : Graph) (dep : String)
      → Elem dep deps
      → is_known (by_key all key) ≡ true
      → is_known (by_key all dep) ≡ true
      → has_edge (dep, key) (add_depends_on all key deps g).edge_set ≡ true
  unfolding add_depends_on
  add_depends_on-edge key [] g dep m hk hd = absurd m
  add_depends_on-edge key (d ∷ deps) g dep (inl e) hk hd =
      add_depends_on-Keeps all (λ g'. has_edge (dep, key) g'.edge_set ≡ true)
        (edge-Keeps all (dep, key)) key deps _ hk (rw (← e) (rw hd (has_edge-add_edge g dep key)))
  add_depends_on-edge key (d ∷ deps) g dep (inr m) hk hd =
      add_depends_on-edge key deps _ dep m hk hd

  add_explicit_edges-edge :
      (ss : List Story) (g : Graph) (s : Story) (dep : String)
      → ((t : Story) → Elem t ss → is_known (by_key all t.key) ≡ true)
      → Elem s ss
      → Elem dep s.depends_on
      → is_known (by_key all dep) ≡ true
      → has_edge (dep, s.key) (add_explicit_edges all ss g).edge_set ≡ true
  unfolding add_explicit_edges
  add_explicit_edges-edge [] g s dep known m n hd = absurd m
  add_explicit_edges-edge (t ∷ ss) g s dep known (inl e) n hd =
      add_explicit_edges-Keeps all (λ g'. has_edge (dep, s.key) g'.edge_set ≡ true)
        (edge-Keeps all (dep, s.key)) ss _ (λ u m. known u (inr m))
        (subst
          (λ (u : Story).
            has_edge (dep, s.key) (add_depends_on all u.key u.depends_on g).edge_set ≡ true)
          e (add_depends_on-edge s.key s.depends_on g dep n (known s (inl e)) hd))
  add_explicit_edges-edge (t ∷ ss) g s dep known (inr m) n hd =
      add_explicit_edges-edge ss _ s dep (λ u m'. known u (inr m')) m n hd

-- What Go says of a range over a map: every entry once, in an order that is not fixed.
pub record IsRangeOrder (order : FileIndex → FileIndex) : Type 0 where
  pub visits : (idx : FileIndex) (e : String × List String) → Elem e idx → Elem e (order idx)

length_of_two :
    (a b : String) (xs : List String) → a ≢ b → 0 < count a xs → 0 < count b xs → 2 ≤ length xs
length_of_two a b [] ne ha hb = absurd (unfold count in omega arith)
length_of_two a b (x ∷ []) ne ha hb = elim (count_cases a x [] ha) [
  | inl e ↦ elim (count_cases b x [] hb) [
    | inl e' ↦ absurd (ne (sym e ∙ e'))
    | inr h ↦ absurd (unfold count in omega arith)
  ]
  | inr h ↦ absurd (unfold count in omega arith)
]
length_of_two a b (x ∷ y ∷ xs) ne ha hb = omega arith

module _ (order : FileIndex → FileIndex) (stories : List Story) where
  -- A known dependency is an edge.
  pub dependency_edge :
      (s : Story) (dep : String)
      → Elem s stories
      → Elem dep s.depends_on
      → is_known (by_key stories dep) ≡ true
      → has_edge (dep, s.key) (story_graph order stories).edge_set ≡ true
  unfolding story_graph add_file_conflict_edges
  dependency_edge s dep m n hd =
      add_file_edges-Keeps stories (λ g. has_edge (dep, s.key) g.edge_set ≡ true)
        (edge-Keeps stories (dep, s.key)) _ _
        (add_explicit_edges-edge stories stories empty_graph s dep (known_of_Elem stories) m n hd)

  -- Two stories that touch a file stand on one chain of edges.
  pub shared_file_chain :
      IsRangeOrder order
      → (a b : Story) (f : String) → Elem a stories
      → Elem b stories
      → a.key ≢ b.key
      → Elem f a.target_files
      → Elem f b.target_files
      → let us = chain_of (keys_in (file_index stories []) f) in
        Chained (story_graph order stories).edge_set us
        × (0 < count a.key us)
        × (0 < count b.key us)
  unfolding story_graph add_file_conflict_edges
  shared_file_chain range a b f ma mb ne fa fb =
      let idx = file_index stories [] in
      let keys = keys_in idx f in
      let ha = count-file_index stories [] a f ma fa in
      let hb = count-file_index stories [] b f mb fb in
      (
        add_file_edges-Chained stories (order idx) _ f keys
            (range.visits idx (f, keys) (keys_in-Elem idx f a.key ha))
            (length_of_two a.key b.key keys ne ha hb)
            (λ k m. file_index_known stories f k (omega (arith, count-chain_of-le k keys))),
        count-chain_of a.key keys ha,
        count-chain_of b.key keys hb,
      )
