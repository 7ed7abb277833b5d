-- ===== src/EpicRuns/Safety.antt =====
-- Epic runs and the scheduler together: in what order stories run, and what a completed epic run
-- means. Schedules are arbitrary, and so is what other requests do to the state in between.
use hopeitworks.Prelude.{
  ◌≡◌, refl, sym, ap, ◌∙◌, subst, ◌<◌, String, Option, List, [], ◌∷◌, concat, Elem,
  Elem-append_left, Elem-append_right, All, inl, inr, Bool-cases, ltb, ◌+◌, ◌=s=◌, =s=→≡, arith,
}
use hopeitworks.Model.Entities.{Uuid, Story, EpicRun}
use hopeitworks.World.{World}
use hopeitworks.RunService.{Wiring}
use hopeitworks.Executor.{PipelineExecutor}
use hopeitworks.Scheduler.{FileIndex, groups, keys_of, build_dag}
use hopeitworks.Scheduler.Keys.{count, count-append}
use hopeitworks.Scheduler.Walk.{keys_of-append, count-Elem}
use hopeitworks.Scheduler.Chains.{IsRangeOrder}
use hopeitworks.Scheduler.Schedule.{HasUniqueKeys, dependencies_first, group_shares_no_file}
use hopeitworks.Scheduler.Completeness.{schedules_all}
use hopeitworks.EpicRuns.Groups.{
  StoryError, Routine, succeeded, Control, waiting, finished, Move, run_moves, execute,
}
use hopeitworks.EpicRuns.Order.{IsDone, stories_of, past_of, AllDone, IsSound, run_moves-IsSound}
use hopeitworks.EpicRuns.Traces.{
  Traced, IsTraced, AllTraced, IsExecuted, IsVisited, run_moves-AllTraced,
}

-- A goroutine of one of these groups, for a story of this key.
abbrev pub HasRoutine : (Routine → Type 0) → List (List Routine) → String → Type 0
HasRoutine P past key = (q : Routine) × Elem q (concat past) × (q.story.key ≡ key) × P q

module _ (P : Routine → Type 0) where
  in_group :
      (k : String) (qs : List Routine)
      → 0 < count k (keys_of (stories_of qs))
      → All P qs
      → (q : Routine) × Elem q qs × (q.story.key ≡ k) × P q
  unfolding count
  in_group k [] m h = absurd (omega arith)
  in_group k (q ∷ qs) m h = elim (Bool-cases (q.story.key =s= k)) [
    | inl same ↦ (q, inl refl, =s=→≡ q.story.key k same, h.0)
    | inr other_key ↦ let (p, i, e, d) = in_group k qs (ground arith) h.1 in (p, inr i, e, d)
  ]

count_group :
    (k : String) (g : List Story) (gs : List (List Story))
    → count k (keys_of (concat (g ∷ gs))) ≡ count k (keys_of g) + count k (keys_of (concat gs))
count_group k g gs =
    ap (count k) (keys_of-append g (concat gs)) ∙ count-append k (keys_of g) (keys_of (concat gs))

not_counted : (k : String) → 0 < count k [] → ⊥
unfolding count
not_counted k h = omega arith

in_past :
    (P : Routine → Type 0) (k : String) (past : List (List Routine))
    → All (All P) past
    → 0 < count k (keys_of (concat (past_of past)))
    → HasRoutine P past k
in_past P k [] h m = absurd (not_counted k m)
in_past P k (qs ∷ past) h m = elim (Bool-cases (ltb 0 (count k (keys_of (stories_of qs))))) [
  | inl here ↦
      let (q, i, e, d) = in_group P k qs (ground arith) h.0 in
      (q, Elem-append_left q qs (concat past) i, e, d)
  | inr later ↦
      let (q, i, e, d) =
        in_past P k past h.1 (ground (arith, count_group k (stories_of qs) (past_of past))) in
      (q, Elem-append_right q qs (concat past) i, e, d)
]

story-Elem : (q : Routine) (qs : List Routine) → Elem q qs → Elem q.story (stories_of qs)
story-Elem q [] m = absurd m
story-Elem q (p ∷ ps) (inl e) = inl (ap (λ (x : Routine). x.story) e)
story-Elem q (p ∷ ps) (inr m) = inr (story-Elem q ps m)

module _ (svc : Wiring) (parse : String → Option Uuid) (e : PipelineExecutor) (r : EpicRun)
    (dag : List (List Story)) (ms : List Move) (w : World) where
  -- In states that the schedule goes through, `LaunchRun` has returned a run for the story of this
  -- goroutine, and `ExecuteRun` of this run has returned nil.
  abbrev pub IsRun : Routine → Type 0
  IsRun q = IsDone q × IsExecuted svc parse e r (IsVisited svc parse e r ms (execute dag w)) q.story

  -- A goroutine of one of these groups, for a story of this key, that has run the story.
  abbrev pub HasRun : List (List Routine) → String → Type 0
  HasRun past key = HasRoutine IsRun past key

  group-IsRun :
      (qs : List Routine)
      → All IsDone qs
      → All (IsTraced svc parse e r (IsVisited svc parse e r ms (execute dag w))) qs
      → All IsRun qs
  group-IsRun [] h k = tt
  group-IsRun (q ∷ qs) h k = (
    (
      h.0,
      subst (Traced svc parse e r (IsVisited svc parse e r ms (execute dag w)) q.story) h.0 k.0,
    ),
    group-IsRun qs h.1 k.1,
  )

  past-IsRun :
      (past : List (List Routine))
      → AllDone past
      → All (All (IsTraced svc parse e r (IsVisited svc parse e r ms (execute dag w)))) past
      → All (All IsRun) past
  past-IsRun [] h k = tt
  past-IsRun (qs ∷ past) h k = (group-IsRun qs h.0 k.0, past-IsRun past h.1 k.1)

module _ (svc : Wiring) (parse : String → Option Uuid) (e : PipelineExecutor) (r : EpicRun)
    (order : FileIndex → FileIndex) (stories : List Story) (dag : List (List Story))
    (ms : List Move) (w : World) where
  abbrev pub control_after : Control
  control_after = (run_moves svc parse e r ms (execute dag w)).control

  control-IsSound : (c : Control) → control_after ≡ c → IsSound dag c
  control-IsSound c at =
      subst (IsSound dag) at (run_moves-IsSound svc parse e r dag ms (execute dag w) refl)

  control-AllTraced :
      (c : Control)
      → control_after ≡ c
      → AllTraced svc parse e r (IsVisited svc parse e r ms (execute dag w)) c
  control-AllTraced c at =
      subst (AllTraced svc parse e r (IsVisited svc parse e r ms (execute dag w))) at
        (run_moves-AllTraced svc parse e r ms (execute dag w) tt)

  -- On every schedule of an epic run over the groups of `BuildDAG`, for stories with different keys:
  -- while a story's goroutine exists, for each story of the epic that it depends on a call of
  -- `LaunchRun` has returned a run and a call of `ExecuteRun` on this run has returned nil, each in
  -- a state that the schedule has gone through.
  pub waits_for_dependencies :
      HasUniqueKeys stories
      → build_dag order stories ≡ groups dag
      → (past : List (List Routine)) (qs : List Routine) (x : Option StoryError)
        (later : List (List Story))
      → control_after ≡ waiting past qs x later
      → (q : Routine) (dep : String) → Elem q qs
      → Elem dep q.story.depends_on
      → 0 < count dep (keys_of stories)
      → HasRun svc parse e r dag ms w past dep
  waits_for_dependencies unique built past qs x later at q dep i d known =
      let (split, done, _) = control-IsSound _ at in
      let run = past-IsRun svc parse e r dag ms w past done (control-AllTraced _ at).0 in
      in_past (IsRun svc parse e r dag ms w) dep past run (
        dependencies_first order stories unique (past_of past) (stories_of qs) later q.story dep
          (built ∙ ap groups (sym split)) (story-Elem q qs i) d known)

  -- On every schedule of an epic run over the groups of `BuildDAG`, for stories with different keys and
  -- a range that visits every file: two stories whose goroutines coexist in the group that `Execute`
  -- waits for, and which touch a common file, have one key. Nothing is said of a run that waits for an
  -- approval after its goroutine has returned, nor of the worker that takes a run's job.
  pub runs_apart :
      HasUniqueKeys stories
      → IsRangeOrder order
      → build_dag order stories ≡ groups dag
      → (past : List (List Routine)) (qs : List Routine) (x : Option StoryError)
        (later : List (List Story))
      → control_after ≡ waiting past qs x later
      → (p q : Routine) (f : String) → Elem p qs
      → Elem q qs
      → Elem f p.story.target_files
      → Elem f q.story.target_files
      → p.story.key ≡ q.story.key
  runs_apart unique range built past qs x later at p q f i j fp fq =
      let (split, _, _) = control-IsSound _ at in
      group_shares_no_file order stories unique (past_of past) (stories_of qs) later p.story q.story
        f range (built ∙ ap groups (sym split)) (story-Elem p qs i) (story-Elem q qs j) fp fq

  -- On every schedule of an epic run over the groups of `BuildDAG`, for stories with different keys: if
  -- `Execute` returns nil, then for every story of the epic a call of `LaunchRun` has returned a run
  -- and a call of `ExecuteRun` on this run has returned nil, each in a state that the schedule has
  -- gone through.
  pub completes_all :
      HasUniqueKeys stories
      → build_dag order stories ≡ groups dag
      → (past : List (List Routine)) → control_after ≡ finished past succeeded
      → (s : Story) → Elem s stories
      → HasRun svc parse e r dag ms w past s.key
  completes_all unique built past at s i =
      let (split, done) = control-IsSound _ at in
      let same = (schedules_all order stories unique dag built).0 s.key in
      let run = past-IsRun svc parse e r dag ms w past done (control-AllTraced _ at) in
      in_past (IsRun svc parse e r dag ms w) s.key past run (
        subst (λ gs. 0 < count s.key (keys_of (concat gs))) (sym split)
          (omega (arith, same, count-Elem s stories i)))
