-- ===== src/Scheduler/Completeness.antt =====
-- When `BuildDAG` succeeds: all stories are scheduled, once; and it fails just on a knot of edges.
use hopeitworks.Prelude.{
  ℕ, ◌+◌, ◌<◌, String, ◌≡◌, refl, ap, ◌∙◌, subst, Bool, true, false, not, Option, some, List, [],
  ◌∷◌, arith, concat, ltb, if◌then◌else◌, Bool-cases, inl, inr, ◌⊎◌, ◌↔◌, Elem, Elem-append_cases,
}
use hopeitworks.Model.Entities.{Story}
use hopeitworks.Scheduler.{
  Edge, has_edge, by_key, FileIndex, Outcome, groups, failure, nil_deref, out_of_fuel, keys_of,
  story_graph, build_dag, dag_cycle_detected,
}
use hopeitworks.Scheduler.Keys.{count, count-append, by_key_sound}
use hopeitworks.Scheduler.Degrees.{pending-edge, has_edge-count}
use hopeitworks.Scheduler.Layers.{mark, mark-count, IsLayer, Layered, IsStuck, Ends}
use hopeitworks.Scheduler.Walk.{keys_of-append, free_undone, free_pred, layer_free}
use hopeitworks.Scheduler.Schedule.{HasUniqueKeys, none_done, build_dag-Ends}

-- A set of stories' keys, not empty, in which each key waits for another of the set.
pub record IsKnot (es : List Edge) (keys : List String) (u : String → Bool) : Type 0 where
  pub entry : String
  pub entry_key : 0 < count entry keys
  pub entry_in : u entry ≡ true
  pub waits :
      (k : String)
      → 0 < count k keys
      → u k ≡ true
      → (s : String) × (has_edge (s, k) es ≡ true) × (u s ≡ true)

module _ (stories : String → Option Story) (es : List Edge) (keys : List String) where
  Layered-count :
      (gs : List (List Story)) (done : String → Bool) (k : String)
      → Layered stories es keys done gs
      → count k (keys_of (concat gs)) ≡ (if done k then 0 else count k keys)
  Layered-count [] done k h = elim (Bool-cases (done k)) [
    | inl d ↦ rw d (unfold count in refl)
    | inr u ↦ rw u (unfold count in ground (arith, h k))
  ]
  Layered-count (g ∷ gs) done k h =
      ap (count k) (keys_of-append g (concat gs))
      ∙ count-append k (keys_of g) (keys_of (concat gs))
      ∙ layer_sum done g k (count k (keys_of (concat gs))) h.0
          (Layered-count gs (mark (keys_of g) done) k h.1)
    where
      layer_sum :
          (done : String → Bool) (g : List Story) (k : String) (n : ℕ)
          → IsLayer stories es keys done g
          → n ≡ (if mark (keys_of g) done k then 0 else count k keys)
          → count k (keys_of g) + n ≡ (if done k then 0 else count k keys)
      layer_sum done g k n l e =
          ground (arith, l.counts k, mark-count (keys_of g) done k, free_undone es done k)

  Layered-found :
      (gs : List (List Story)) (done : String → Bool) (s : Story)
      → Layered stories es keys done gs
      → Elem s (concat gs)
      → stories s.key ≡ some s
  Layered-found [] done s h m = absurd m
  Layered-found (g ∷ gs) done s h m = elim (Elem-append_cases s g (concat gs) m) [
    | inl here ↦ h.0.found s here
    | inr later ↦ Layered-found gs (mark (keys_of g) done) s h.1 later
  ]

  knot_blocks :
      (gs : List (List Story)) (done u : String → Bool)
      → IsKnot es keys u
      → ((k : String) → u k ≡ true → done k ≡ false)
      → Layered stories es keys done gs
      → ⊥
  knot_blocks [] done u knot apart h =
      let d = h knot.entry knot.entry_key in let o = apart knot.entry knot.entry_in in cc
  knot_blocks (g ∷ gs) done u knot apart h =
      knot_blocks gs (mark (keys_of g) done) u knot
        (λ k m. elim (Bool-cases (ltb 0 (count k (keys_of g)))) [
          | inl now ↦
              let f = layer_free stories es keys done g k h.0 (ground arith) in
              let at : 0 < count k keys = ground (arith, h.0.counts k) in
              let (s, e, us) = knot.waits k at m in
              let d = free_pred es done s k f e in let o = apart s us in absurd (cc)
          | inr later ↦ ground (arith, mark-count (keys_of g) done k, apart k m)
        ])
        h.1

stuck-IsKnot :
    (es : List Edge) (keys : List String) (h : IsStuck es keys)
    → IsKnot es keys (λ k. not (h.done k))
stuck-IsKnot es keys h = record {
  entry = h.left;
  entry_key = h.left_key;
  entry_in = rw (h.left_undone);
  waits = λ k m u.
      let (s, e, o) = pending-edge h.done k es (h.blocked k m (ground arith)) in
      (s, has_edge-count s k es e, rw o);
}

module _ (order : FileIndex → FileIndex) (stories : List Story)
    (unique : HasUniqueKeys stories) where
  Ends-cases :
      (o : Outcome)
      → Ends (by_key stories) (story_graph order stories).edge_set (keys_of stories) none_done o
      → ((gs : List (List Story)) × (o ≡ groups gs)) ⊎ (o ≡ failure dag_cycle_detected)
  Ends-cases (groups gs) h = inl (gs, refl)
  Ends-cases (failure e) h = inr (ap failure h.0)
  Ends-cases nil_deref h = absurd h
  Ends-cases out_of_fuel h = absurd h

  -- On stories with different keys `BuildDAG` ends, with groups or with the cycle error: the loop
  -- neither runs on nor dereferences a missing story.
  pub build_dag_total :
      ((gs : List (List Story)) × (build_dag order stories ≡ groups gs))
      ⊎ (build_dag order stories ≡ failure dag_cycle_detected)
  build_dag_total = Ends-cases (build_dag order stories) (build_dag-Ends order stories unique)

  -- A schedule of stories with different keys holds each key as often as the stories do, once, and
  -- no story that is not among them.
  pub schedules_all :
      (gs : List (List Story))
      → build_dag order stories ≡ groups gs
      → ((k : String) → count k (keys_of (concat gs)) ≡ count k (keys_of stories))
        × ((s : Story) → Elem s (concat gs) → Elem s stories)
  schedules_all gs ok =
      let layered =
        subst
          (Ends (by_key stories) (story_graph order stories).edge_set (keys_of stories) none_done)
          ok (build_dag-Ends order stories unique) in
      (
        λ k.
            Layered-count (by_key stories) (story_graph order stories).edge_set (keys_of stories) gs
              none_done k layered,
        λ s m.
            (by_key_sound stories s.key s (
              Layered-found (by_key stories) (story_graph order stories).edge_set (keys_of stories)
                gs none_done s layered m)).1,
      )

  IsStuck-of_failure :
      build_dag order stories ≡ failure dag_cycle_detected
      → IsStuck (story_graph order stories).edge_set (keys_of stories)
  IsStuck-of_failure e =
      (subst
        (Ends (by_key stories) (story_graph order stories).edge_set (keys_of stories) none_done) e
        (build_dag-Ends order stories unique)).1

  -- On stories with different keys `BuildDAG` reports a cycle exactly when some of the stories, not
  -- none, each wait on an edge from another of them.
  pub cycle_iff :
      (build_dag order stories ≡ failure dag_cycle_detected)
      ↔ ((u : String → Bool) × IsKnot (story_graph order stories).edge_set (keys_of stories) u)
  cycle_iff = (
    λ e. let h = IsStuck-of_failure e in ((λ k. not (h.done k)), stuck-IsKnot _ _ h),
    λ (u, knot). elim build_dag_total [
      | inl (gs, ok) ↦ absurd (
          knot_blocks (by_key stories) (story_graph order stories).edge_set (keys_of stories) gs
            none_done u knot (λ k _. refl)
            (subst
              (Ends (by_key stories) (story_graph order stories).edge_set (keys_of stories)
                none_done)
              ok (build_dag-Ends order stories unique)))
      | inr e ↦ e
    ],
  )
