-- ===== src/Scheduler/Schedule.antt =====
-- What `BuildDAG` promises: a layered schedule of all stories, or the cycle error.
use hopeitworks.Prelude.{
  suc, ◌≤◌, ◌<◌, String, ◌≡◌, refl, sym, subst, Bool, true, false, some, List, [], ◌∷◌, ◌++◌, arith,
  length, length-map, select, concat, ◌=s=◌, =s=→≡, ≡→=s=, Bool-cases, inl, inr, Elem, Option-cases,
}
use hopeitworks.Model.Entities.{Story}
use hopeitworks.Scheduler.{Edge, by_key, FileIndex, groups, kahn, keys_of, story_graph, build_dag}
use hopeitworks.Scheduler.Keys.{count, by_key_sound, by_key_total}
use hopeitworks.Scheduler.Degrees.{IsState}
use hopeitworks.Scheduler.Layers.{mark, mark-count, IsLayer, Layered, Ends}
use hopeitworks.Scheduler.Rounds.{kahn-Ends}
use hopeitworks.Scheduler.Walk.{
  count-Elem, free_pred, IsClosed, chain_free_unique, layer_free, Layered-at,
}
use hopeitworks.Scheduler.Edges.{story_graph-IsGraph}
use hopeitworks.Scheduler.Chains.{IsRangeOrder, dependency_edge, shared_file_chain}

-- No two stories have one key (`UNIQUE (project_id, key)` in the database).
abbrev pub HasUniqueKeys : List Story → Type 0
HasUniqueKeys stories = (k : String) → count k (keys_of stories) ≤ 1

abbrev pub none_done : String → Bool
none_done _ = false

select_none : (xs : List String) → length (select none_done xs) ≡ 0
select_none [] = refl
select_none (x ∷ xs) = select_none xs

-- The early return on no stories is what the loop would return.
build_dag-kahn :
    (order : FileIndex → FileIndex) (stories : List Story)
    → build_dag order stories
      ≡ kahn
          (suc (length stories))
          (by_key stories)
          (story_graph order stories).adj
          (keys_of stories)
          (story_graph order stories).in_degree
          0
unfolding build_dag
build_dag-kahn order [] = refl
build_dag-kahn order (s ∷ ss) = refl

module _ (order : FileIndex → FileIndex) (stories : List Story)
    (unique : HasUniqueKeys stories) where
  abbrev pub edges : List Edge
  edges = (story_graph order stories).edge_set

  found_under_key :
      (k : String)
      → 0 < count k (keys_of stories)
      → (s : Story) × (by_key stories k ≡ some s) × (s.key ≡ k)
  found_under_key k m = elim (Option-cases (by_key stories k)) [
    | inl e ↦ absurd (ground (arith, by_key_total stories k m))
    | inr (s, e) ↦ (s, e, (by_key_sound stories k s e).0)
  ]

  start-IsState : IsState edges none_done (story_graph order stories).in_degree
  start-IsState = record {
    at_open = λ k _. (story_graph-IsGraph order stories).degrees k;
    at_done = λ k e. ground arith;
  }

  pub build_dag-Ends :
      Ends (by_key stories) edges (keys_of stories) none_done (build_dag order stories)
  build_dag-Ends =
      subst (Ends (by_key stories) edges (keys_of stories) none_done)
        (sym (build_dag-kahn order stories))
        (kahn-Ends (by_key stories) (story_graph order stories) (keys_of stories)
          (story_graph-IsGraph order stories) found_under_key unique (suc (length stories))
          none_done (story_graph order stories).in_degree 0 start-IsState
          (sym (select_none (keys_of stories)))
          (omega (arith, length-map (λ (s : Story). s.key) stories)))

  closed_none : IsClosed edges none_done
  closed_none s k e d = absurd (ground arith)

  module _ (gs : List (List Story)) (done_ok : build_dag order stories ≡ groups gs) where
    layered : Layered (by_key stories) edges (keys_of stories) none_done gs
    layered = subst (Ends (by_key stories) edges (keys_of stories) none_done) done_ok build_dag-Ends

    -- Before each group the schedule has done the keys of the groups before it.
    done_before : List (List Story) → String → Bool
    done_before before = mark (keys_of (concat before)) none_done

    at_group :
        (before : List (List Story)) (g : List Story) (after : List (List Story))
        → gs ≡ before ++ g ∷ after
        → IsLayer (by_key stories) edges (keys_of stories) (done_before before) g
          × IsClosed edges (done_before before)
    unfolding done_before
    at_group before g after e =
        Layered-at (by_key stories) edges (keys_of stories) before g after none_done closed_none
          (subst (Layered (by_key stories) edges (keys_of stories) none_done) e layered)

    done-scheduled :
        (before : List (List Story)) (k : String)
        → done_before before k ≡ true
        → 0 < count k (keys_of (concat before))
    unfolding done_before
    done-scheduled before k d = ground (arith, mark-count (keys_of (concat before)) none_done k)

  -- Of a schedule of stories with different keys: a story's dependencies that are stories of the
  -- epic stand in groups before its own.
  pub dependencies_first :
      (before : List (List Story)) (g : List Story) (after : List (List Story)) (s : Story)
      (dep : String)
      → build_dag order stories ≡ groups (before ++ g ∷ after)
      → Elem s g
      → Elem dep s.depends_on
      → 0 < count dep (keys_of stories)
      → 0 < count dep (keys_of (concat before))
  dependencies_first before g after s dep ok m n known =
      let gs = before ++ g ∷ after in
      let (l, closed) = at_group gs ok before g after refl in
      let free =
        layer_free (by_key stories) edges (keys_of stories) _ g s.key l (count-Elem s g m) in
      let member = (by_key_sound stories s.key s (l.found s m)).1 in
      done-scheduled gs ok before dep (
        free_pred edges (done_before gs ok before) dep s.key free
          (dependency_edge order stories s dep member n (by_key_total stories dep known)))

  -- Of a schedule of stories with different keys, where the range over the files visits every file:
  -- two stories of one group, which run at the same time, that touch a common file have one key.
  pub group_shares_no_file :
      (before : List (List Story)) (g : List Story) (after : List (List Story)) (a b : Story)
      (f : String)
      → IsRangeOrder order
      → build_dag order stories ≡ groups (before ++ g ∷ after)
      → Elem a g
      → Elem b g
      → Elem f a.target_files
      → Elem f b.target_files
      → a.key ≡ b.key
  group_shares_no_file before g after a b f range ok ma mb fa fb =
      let gs = before ++ g ∷ after in
      let (l, closed) = at_group gs ok before g after refl in
      let free_a =
        layer_free (by_key stories) edges (keys_of stories) _ g a.key l (count-Elem a g ma) in
      let free_b =
        layer_free (by_key stories) edges (keys_of stories) _ g b.key l (count-Elem b g mb) in
      let in_a = (by_key_sound stories a.key a (l.found a ma)).1 in
      let in_b = (by_key_sound stories b.key b (l.found b mb)).1 in
      elim (Bool-cases (a.key =s= b.key)) [
        | inl e ↦ =s=→≡ a.key b.key e
        | inr ne ↦
            let (c, ka, kb) =
              shared_file_chain order stories range a b f in_a in_b
                (λ e. ground (arith, ≡→=s= a.key b.key e)) fa fb in
            chain_free_unique edges (done_before gs ok before) a.key b.key _ closed c free_a free_b
              ka kb
      ]
