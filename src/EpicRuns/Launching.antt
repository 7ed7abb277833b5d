-- ===== src/EpicRuns/Launching.antt =====
-- What the launch of an epic run stores.
use hopeitworks.Prelude.{
  ◌≡◌, refl, sym, ap, ◌∙◌, subst, ℕ, ◌+◌, some, List, [], ◌∷◌, ◌++◌, ◌≢◌, ◌==◌, ==_iff, arith, map,
}
use mathlib.Core.List.{append-nil, append_assoc}
use hopeitworks.Errors.{Result, ok, err}
use hopeitworks.Action.Returns.{bind_ends, require_ends}
use hopeitworks.Model.Status.{EpicRunStatus}
use hopeitworks.Model.Entities.{Uuid, Story, Epic, EpicRun, EpicRunStory}
use hopeitworks.World.{World, call}
use hopeitworks.Repo.Epics.{
  get_epic, list_by_epic, create_epic_run, insert_epic_run_story, epic_stories, limited, epic_at,
}
use hopeitworks.Scheduler.{FileIndex, Outcome, groups, failure, nil_deref, out_of_fuel, build_dag}
use hopeitworks.EpicRuns.{
  Launch, dag_or_error, has_stories, new_row, insert_group, insert_groups, launch_epic_run,
}

-- The rows of a group, and of the groups from an index on.
abbrev pub group_rows : Uuid → ℕ → List Story → List EpicRunStory
group_rows id i g = map (new_row id i) g

abbrev pub dag_rows : Uuid → ℕ → List (List Story) → List EpicRunStory
dag_rows id i [] = []
dag_rows id i (g ∷ gs) = group_rows id i g ++ dag_rows id (i + 1) gs

-- A call that stores these rows and returns them.
abbrev Stores : World → List EpicRunStory → List EpicRunStory → World → Type 0
Stores w rows out v =
    (out ≡ rows) × (v.epic_run_stories ≡ w.epic_run_stories ++ rows) × (v.epic_runs ≡ w.epic_runs)

insert_row-stores :
    (s : EpicRunStory) (w v : World)
    → insert_epic_run_story s w ≡ (ok tt, v)
    → (v.epic_run_stories ≡ w.epic_run_stories ++ s ∷ []) × (v.epic_runs ≡ w.epic_runs)
unfolding insert_epic_run_story call
insert_row-stores s w v h = ground arith

same_end :
    (out out' : List EpicRunStory) (u v : World)
    → ◌≡◌ {A = Result (List EpicRunStory) × World} (ok out, u) (ok out', v)
    → (out ≡ out') × (u.epic_run_stories ≡ v.epic_run_stories) × (u.epic_runs ≡ v.epic_runs)
same_end out out' u v h = ground arith

Stores-append :
    (u v w : World) (xs ys out out' : List EpicRunStory)
    → Stores u xs out v
    → Stores v ys out' w
    → Stores u (xs ++ ys) (out ++ out') w
Stores-append u v w xs ys out out' (a, b, c) (a', b', c') = (
  ap (λ l. l ++ out') a ∙ ap (λ l. xs ++ l) a',
  b' ∙ ap (λ l. l ++ ys) b ∙ append_assoc u.epic_run_stories xs ys,
  c' ∙ c,
)

-- The state and the rows at the end are those of the last call.
Stores-end :
    (w u v : World) (rows out out' : List EpicRunStory)
    → Stores w rows out u
    → ◌≡◌ {A = Result (List EpicRunStory) × World} (ok out, u) (ok out', v)
    → Stores w rows out' v
Stores-end w u v rows out out' (a, b, c) h =
    let (x, y, z) = same_end out out' u v h in (sym x ∙ a, sym y ∙ b, sym z ∙ c)

Stores-none : (w : World) → Stores w [] [] w
Stores-none w = (refl, sym (append-nil w.epic_run_stories), refl)

insert_group-Stores :
    (id : Uuid) (i : ℕ) (g : List Story) (w v : World) (out : List EpicRunStory)
    → insert_group id i g w ≡ (ok out, v)
    → Stores w (group_rows id i g) out v
unfolding insert_group
insert_group-Stores id i [] w v out h = Stores-end w w v [] [] out (Stores-none w) h
insert_group-Stores id i (s ∷ ss) w v out h =
    bind_ends (insert_epic_run_story (new_row id i s)) _ w v out h λ _ t e h1.
      bind_ends (insert_group id i ss) _ t v out h1 λ rest u e2 h2.
        let (rows, runs) = insert_row-stores (new_row id i s) w t e in
        Stores-end w u v (group_rows id i (s ∷ ss)) (new_row id i s ∷ rest) out
          (Stores-append w t u (new_row id i s ∷ []) (group_rows id i ss) (new_row id i s ∷ []) rest
            (refl, rows, runs) (insert_group-Stores id i ss t u rest e2))
          h2

insert_groups-Stores :
    (id : Uuid) (i : ℕ) (gs : List (List Story)) (w v : World) (out : List EpicRunStory)
    → insert_groups id i gs w ≡ (ok out, v)
    → Stores w (dag_rows id i gs) out v
unfolding insert_groups
insert_groups-Stores id i [] w v out h = Stores-end w w v [] [] out (Stores-none w) h
insert_groups-Stores id i (g ∷ gs) w v out h =
    bind_ends (insert_group id i g) _ w v out h λ rows t e h1.
      bind_ends (insert_groups id (i + 1) gs) _ t v out h1 λ rest u e2 h2.
        Stores-end w u v (dag_rows id i (g ∷ gs)) (rows ++ rest) out
          (Stores-append w t u (group_rows id i g) (dag_rows id (i + 1) gs) rows rest
            (insert_group-Stores id i g w t rows e)
            (insert_groups-Stores id (i + 1) gs t u rest e2))
          h2

get_epic-reads :
    (id : Uuid) (w v : World) (e : Epic)
    → get_epic id w ≡ (ok e, v)
    → (epic_at w id ≡ some e)
      × (v.stories ≡ w.stories)
      × (v.epic_run_stories ≡ w.epic_run_stories)
      × (v.epic_runs ≡ w.epic_runs)
unfolding get_epic call epic_at
get_epic-reads id w v e h = ground arith

list_by_epic-reads :
    (id : Uuid) (w v : World) (ss : List Story)
    → list_by_epic id 10000 0 w ≡ (ok ss, v)
    → (ss ≡ limited 10000 0 (epic_stories id w.stories))
      × (v.epic_run_stories ≡ w.epic_run_stories)
      × (v.epic_runs ≡ w.epic_runs)
unfolding list_by_epic call
list_by_epic-reads id w v ss h = ground arith

create-stores :
    (p id : Uuid) (w v : World) (r : EpicRun)
    → create_epic_run p id EpicRunStatus.pending w ≡ (ok r, v)
    → (r.project_id ≡ p)
      × (r.epic_id ≡ id)
      × (r.status ≡ EpicRunStatus.pending)
      × (v.epic_run_stories ≡ w.epic_run_stories)
      × (v.epic_runs ≡ w.epic_runs ++ r ∷ [])
unfolding create_epic_run call
create-stores p id w v r h = ground arith

dag_built :
    (o : Outcome) (w v : World) (dag : List (List Story))
    → dag_or_error o w ≡ (ok dag, v)
    → (o ≡ groups dag) × (v ≡ w)
dag_built (groups gs) w v dag h = (ground arith, ap (λ x. x.1) (sym h))
dag_built (failure x) w v dag h = absurd (ground arith)
dag_built nil_deref w v dag h = absurd (ground arith)
dag_built out_of_fuel w v dag h = absurd (ground arith)

has_stories_state :
    (ss : List Story) (w v : World) → has_stories ss w ≡ (ok tt, v) → (ss ≢ []) × (v ≡ w)
has_stories_state [] w v h = absurd (ground arith)
has_stories_state (s ∷ ss) w v h = (λ e. ground arith, ap (λ x. x.1) (sym h))

-- What a launch of an epic run over these stories has stored.
pub record IsLaunched (order : FileIndex → FileIndex) (p id : Uuid) (w : World) (l : Launch)
    (v : World) : Type 0 where
  pub of_project : (e : Epic) × (epic_at w id ≡ some e) × (e.project_id ≡ p)
  pub scheduled : build_dag order (limited 10000 0 (epic_stories id w.stories)) ≡ groups l.dag
  pub nonempty : limited 10000 0 (epic_stories id w.stories) ≢ []
  pub run_row : v.epic_runs ≡ w.epic_runs ++ l.epic_run ∷ []
  pub pending : l.epic_run.status ≡ EpicRunStatus.pending
  pub epic : l.epic_run.epic_id ≡ id
  pub project : l.epic_run.project_id ≡ p
  pub rows : l.stories ≡ dag_rows l.epic_run.id 0 l.dag
  pub story_rows : v.epic_run_stories ≡ w.epic_run_stories ++ l.stories

same_launch :
    (l l' : Launch) (u v : World)
    → ◌≡◌ {A = Result Launch × World} (ok l, u) (ok l', v)
    → (l ≡ l') × (u ≡ v)
same_launch l l' u v h = (ap (λ (o : Result Launch × World). launch_of l o.0) h, ap (λ o. o.1) h)
  where
    launch_of : Launch → Result Launch → Launch
    launch_of d (ok x) = x
    launch_of d (err x) = d

-- A launch of an epic run that succeeds is of an epic of the project that has stories. It has stored
-- one pending epic run of the epic and the project, and one row for each story of each group of their
-- schedule, under the group's index, and returns them.
pub launch_epic_run-IsLaunched :
    (order : FileIndex → FileIndex) (p id : Uuid) (w v : World) (l : Launch)
    → launch_epic_run order p id w ≡ (ok l, v)
    → IsLaunched order p id w l v
unfolding launch_epic_run
launch_epic_run-IsLaunched order p id w v l h = bind_ends (get_epic id) _ w v l h λ e w1 got h1.
    require_ends (e.project_id == p) _ _ w1 v l h1 λ own h2.
      bind_ends (list_by_epic id 10000 0) _ w1 v l h2 λ ss w2 listed h3.
        bind_ends (has_stories ss) _ w2 v l h3 λ _ w3 filled h4.
          bind_ends (dag_or_error (build_dag order ss)) _ w3 v l h4 λ dag w4 built h5.
            bind_ends (create_epic_run p id EpicRunStatus.pending) _ w4 v l h5 λ r w5 made h6.
              bind_ends (insert_groups r.id 0 dag) _ w5 v l h6 λ rows w6 stored h7.
                let (at_epic, s1, q1, r1) = get_epic-reads id w w1 e got in
                let (is_list, q2, r2) = list_by_epic-reads id w1 w2 ss listed in
                let (some_story, e3) = has_stories_state ss w2 w3 filled in
                let (in_groups, e4) = dag_built (build_dag order ss) w3 w4 dag built in
                let (p5, i5, st5, q5, r5) = create-stores p id w4 w5 r made in
                let (a6, q6, r6) = insert_groups-Stores r.id 0 dag w5 w6 rows stored in
                let same_stories = is_list ∙ ap (λ l. limited 10000 0 (epic_stories id l)) s1 in
                let (same, end) = same_launch _ l w6 v h7 in
                subst (IsLaunched order p id w l) end (
                  subst (λ x. IsLaunched order p id w x w6) same
                    (record {
                      of_project = (e, at_epic, (==_iff e.project_id p).0 own);
                      scheduled = ap (build_dag order) (sym same_stories) ∙ in_groups;
                      nonempty = λ none_there. some_story (same_stories ∙ none_there);
                      run_row =
                          r6
                          ∙ r5
                          ∙ ap (λ l. l ++ r ∷ [])
                              (ap (λ (x : World). x.epic_runs) (e4 ∙ e3) ∙ r2 ∙ r1);
                      pending = st5;
                      epic = i5;
                      project = p5;
                      rows = a6;
                      story_rows =
                          q6
                          ∙ ap (λ l. l ++ dag_rows r.id 0 dag)
                              (q5 ∙ ap (λ (x : World). x.epic_run_stories) (e4 ∙ e3) ∙ q2 ∙ q1)
                          ∙ ap (λ l. w.epic_run_stories ++ l) (sym a6);
                    }))
