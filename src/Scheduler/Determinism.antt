-- ===== src/Scheduler/Determinism.antt =====
-- `BuildDAG` for two orders of the range over `fileIndex`.
use hopeitworks.Prelude.{
  ℕ, zero, suc, String, ◌≡◌, refl, sym, ap, ◌∙◌, ◌&&◌, Option, none, some, List, [], ◌∷◌, arith,
  length, select, ltb, ◌=s=◌, =s=→≡, if◌then◌else◌, Bool-cases, inl, inr,
}
use hopeitworks.Prelude.Int.{ℤ, negsuc, sub_one, is_zero}
use hopeitworks.Model.Entities.{Story}
use hopeitworks.Scheduler.{
  Edge, Graph, FileIndex, Outcome, update, is_known, by_key, add_edge, add_chain, add_file_edges,
  add_file_conflict_edges, add_explicit_edges, empty_graph, file_index, sort_strings, dedup,
  story_graph, release, take_layer, round, kahn, keys_of, build_dag,
}
use hopeitworks.Scheduler.Keys.{count, =s=-sym}
use hopeitworks.Scheduler.Graphs.{
  SameGraph, SameGraph-refl, SameGraph-trans, add_edges, add_edges-SameGraph, add_edges_comm,
  SameGraph-IsProp,
}
use mathlib.Core.Path.{fun_ext}
use mathlib.Core.Logic.{∥∥₁_elim}
use mathlib.Core.List.{Perm, Permᴰ}

-- The edges that the chain of a file adds.
unfoldable chain_edges : List Story → List String → List Edge
chain_edges all [] = []
chain_edges all (src ∷ []) = []
chain_edges all (src ∷ dst ∷ rest) =
    let es = chain_edges all (dst ∷ rest) in
    if is_known (by_key all src) && is_known (by_key all dst) then (src, dst) ∷ es else es

add_chain_lem :
    (all : List Story) (ks : List String) (g : Graph)
    → add_chain all ks g ≡ add_edges g (chain_edges all ks)
unfolding add_chain chain_edges add_edges
add_chain_lem all [] g = refl
add_chain_lem all (src ∷ []) g = refl
add_chain_lem all (src ∷ dst ∷ rest) g =
    elim (Bool-cases (is_known (by_key all src) && is_known (by_key all dst))) [
      | inl h ↦ rw h (add_chain_lem all (dst ∷ rest) (add_edge g src dst))
      | inr h ↦ rw h (add_chain_lem all (dst ∷ rest) g)
    ]

-- The edges that an entry of the index adds.
unfoldable entry_edges : List Story → String × List String → List Edge
entry_edges all (f, keys) =
    if ltb (length keys) 2 then [] else chain_edges all (dedup (sort_strings keys))

add_entry :
    (all : List Story) (e : String × List String) (rest : FileIndex) (g : Graph)
    → add_file_edges all (e ∷ rest) g ≡ add_file_edges all rest (add_edges g (entry_edges all e))
unfolding add_file_edges entry_edges add_edges
add_entry all (f, keys) rest g = elim (Bool-cases (ltb (length keys) 2)) [
  | inl h ↦ rw h refl
  | inr h ↦ rw (h, add_chain_lem all (dedup (sort_strings keys)) g) refl
]

entry_swap :
    (all : List Story) (d e : String × List String) (rest : FileIndex) (g h : Graph)
    → ((g' h' : Graph)
        → SameGraph g' h'
        → SameGraph (add_file_edges all rest g') (add_file_edges all rest h'))
    → SameGraph g h
    → SameGraph (add_file_edges all (d ∷ e ∷ rest) g) (add_file_edges all (e ∷ d ∷ rest) h)
entry_swap all d e rest g h later same =
    let ds = entry_edges all d in
    let es = entry_edges all e in
    rw
      (
        add_entry all d (e ∷ rest) g,
        add_entry all e rest (add_edges g ds),
        add_entry all e (d ∷ rest) h,
        add_entry all d rest (add_edges h es),
      )
      (later _ _ (
        SameGraph-trans _ (add_edges (add_edges g es) ds) _ (add_edges_comm g ds es)
          (add_edges-SameGraph _ _ ds (add_edges-SameGraph g h es same))))

add_file_edges-SameGraph :
    (all : List Story) (xs : FileIndex) (g h : Graph)
    → SameGraph g h
    → SameGraph (add_file_edges all xs g) (add_file_edges all xs h)
unfolding add_file_edges
add_file_edges-SameGraph all [] g h same = same
add_file_edges-SameGraph all (e ∷ xs) g h same =
    rw (add_entry all e xs g, add_entry all e xs h)
      (add_file_edges-SameGraph all xs _ _ (add_edges-SameGraph g h (entry_edges all e) same))

-- Entries in another order give the same graph.
add_file_edges-Perm :
    (all : List Story) {xs ys : FileIndex}
    → Permᴰ xs ys
    → (g h : Graph) → SameGraph g h
    → SameGraph (add_file_edges all xs g) (add_file_edges all ys h)
unfolding add_file_edges
add_file_edges-Perm all Permᴰ.nil g h same = same
add_file_edges-Perm all (Permᴰ.cons {a = d} {b = e} {l₁ = xs} {l₂ = ys} p π) g h same =
    rw (p, add_entry all e xs g, add_entry all e ys h)
      (add_file_edges-Perm all π _ _ (add_edges-SameGraph g h (entry_edges all e) same))
add_file_edges-Perm all (Permᴰ.swap {a = a} {b = b} {a' = a'} {b' = b'} {l = l} p q) g h same =
    rw (p, q) (entry_swap all b' a' l g h (add_file_edges-SameGraph all l) same)
add_file_edges-Perm all (Permᴰ.trans {l₁ = xs} {l₂ = ys} {l₃ = zs} π ρ) g h same =
    SameGraph-trans _ (add_file_edges all ys h) _ (add_file_edges-Perm all π g h same)
      (add_file_edges-Perm all ρ h h (SameGraph-refl h))

-- `n` times `inDegree[dependent]--`.
unfoldable minus : ℕ → ℤ → ℤ
minus zero z = z
minus (suc n) z = minus n (sub_one z)

updated :
    (d : String → ℤ) (k j : String)
    → update d k (sub_one (d k)) j ≡ (if k =s= j then sub_one (d k) else d j)
unfolding update
updated d k j = ground (arith, =s=-sym k j)

release_counts :
    (ks : List String) (d : String → ℤ) (j : String) → release ks d j ≡ minus (count j ks) (d j)
unfolding release minus count
release_counts [] d j = refl
release_counts (k ∷ ks) d j = elim (Bool-cases (k =s= j)) [
  | inl e ↦
      ground (arith, release_counts ks (update d k (sub_one (d k))) j, updated d k j, =s=→≡ k j e)
  | inr e ↦ ground (arith, release_counts ks (update d k (sub_one (d k))) j, updated d k j)
]

module _ (g h : Graph) (same : SameGraph g h) where
  same_release : (k : String) (d : String → ℤ) → release (g.adj k) d ≡ release (h.adj k) d
  same_release k d = fun_ext (λ j.
      release_counts (g.adj k) d j
      ∙ ap (λ n. minus n (d j)) (same.neighbours k j)
      ∙ sym (release_counts (h.adj k) d j))

  module _ (stories : String → Option Story) where
    abbrev add_story :
        String → Option (List Story) × (String → ℤ) → Option (List Story) × (String → ℤ)
    add_story k r = (
      elim (stories k) [
        | none ↦ none
        | some s ↦ elim r.0 [ none ↦ none | some ss ↦ some (s ∷ ss) ]
      ],
      r.1,
    )

    same_layer :
        (ks : List String) (d : String → ℤ)
        → take_layer stories g.adj ks d ≡ take_layer stories h.adj ks d
    unfolding take_layer
    same_layer [] d = refl
    same_layer (k ∷ ks) d =
        let taken = update d k (negsuc 0) in
        ap (add_story k) (
          ap (take_layer stories g.adj ks) (same_release k taken)
          ∙ same_layer ks (release (h.adj k) taken))

    same_round :
        (zs : List String) (d : String → ℤ) (next next' : (String → ℤ) → ℕ → Outcome) (n : ℕ)
        → next ≡ next'
        → round stories g.adj zs d next n ≡ round stories h.adj zs d next' n
    same_round [] d next next' n e = refl
    same_round (z ∷ zs) d next next' n e = rw (e, same_layer (sort_strings (z ∷ zs)) d) refl

    same_kahn :
        (fuel : ℕ) (keys : List String) (d : String → ℤ) (n : ℕ)
        → kahn fuel stories g.adj keys d n ≡ kahn fuel stories h.adj keys d n
    unfolding kahn
    same_kahn zero keys d n = refl
    same_kahn (suc fuel) keys d n =
        let next : kahn fuel stories g.adj keys ≡ kahn fuel stories h.adj keys =
          fun_ext (λ d'. fun_ext (λ m. same_kahn fuel keys d' m)) in
        ground (arith, same_round (select (λ k. is_zero (d k)) keys) d _ _ n next)

-- For two orders in which the range over `fileIndex` visits the same entries, `BuildDAG` returns
-- the same groups in the same order, or the same error.
pub build_dag-order :
    (order order' : FileIndex → FileIndex) (stories : List Story)
    → Perm (order (file_index stories [])) (order' (file_index stories []))
    → build_dag order stories ≡ build_dag order' stories
unfolding build_dag story_graph add_file_conflict_edges
build_dag-order order order' [] π = refl
build_dag-order order order' (s ∷ ss) π =
    let stories = s ∷ ss in
    let explicit = add_explicit_edges stories stories empty_graph in
    let same =
      ∥∥₁_elim π (SameGraph-IsProp _ _)
        (λ d. add_file_edges-Perm stories d explicit explicit (SameGraph-refl explicit)) in
    let g = story_graph order stories in
    let h = story_graph order' stories in
    let fuel = suc (length stories) in
    same_kahn g h same (by_key stories) fuel (keys_of stories) g.in_degree 0
    ∙ ap (λ d. kahn fuel (by_key stories) h.adj (keys_of stories) d 0) (fun_ext same.degrees)
