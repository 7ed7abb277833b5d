-- ===== src/EpicRuns/Traces.antt =====
-- Where the phases of an epic run's goroutines come from: each is the outcome of a call of `LaunchRun`
-- and of one of `ExecuteRun`, in states that the schedule goes through.
use hopeitworks.Prelude.{
  ◌≡◌, refl, sym, ◌∙◌, subst, ℕ, zero, suc, String, Bool, Option, none, some, List, [], ◌∷◌, ◌++◌,
  All, inl, inr, Bool-cases, arith,
}
use mathlib.Core.List.{append_assoc}
use hopeitworks.Errors.{Result, ok, err}
use hopeitworks.Action.{caught, logged}
use hopeitworks.Model.Entities.{Uuid, uuid_nil, Story, EpicRun, Run, RunStep}
use hopeitworks.World.{World}
use hopeitworks.RunService.{Wiring}
use hopeitworks.RunService.Launch.{launch_run}
use hopeitworks.Executor.{PipelineExecutor}
use hopeitworks.Executor.Execution.{execute_run}
use hopeitworks.EpicRuns.Groups.{
  StoryError, Phase, spawned, launched, returned, Routine, succeeded, Control, starting, at_group,
  waiting, finished, Execution, spawn, all_returned, after_wait, start_epic, complete_epic,
  unless_failed, advance, set_phase, routine_at, Move, main, routine, other, put_phase, run_story,
  after_launch, after_execution, execution_error, step_routine, step, run_moves,
}

some_injective : (x y : Routine) → some x ≡ some y → x ≡ y
some_injective x y h = ground arith

module _ (svc : Wiring) (parse : String → Option Uuid) (e : PipelineExecutor) (r : EpicRun)
    (Visited : World → Type 0) where
  -- `LaunchRun` for the story has returned this run.
  abbrev pub IsLaunch : Story → Uuid → Type 0
  IsLaunch s id =
      (u : World) × Visited u
      × (run : Run) × (steps : List RunStep) × ((launch_run svc parse r.project_id s.id uuid_nil
            u).0
          ≡ ok (run, steps))
      × (run.id ≡ id)

  -- `LaunchRun` has returned a run for the story, and `ExecuteRun` of this run has returned nil.
  abbrev pub IsExecuted : Story → Type 0
  IsExecuted s =
      (id : Uuid) × IsLaunch s id
      × (ctx : World → Bool) × (v : World) × Visited v
      × (execution_error (execute_run (record e { is_cancelled = ctx }) id v).0 ≡ none)

  abbrev pub Traced : Story → Phase → Type 0
  Traced s spawned = Unit {0}
  Traced s (launched id) = IsLaunch s id
  Traced s (returned none) = IsExecuted s
  Traced s (returned (some x)) = Unit {0}

  abbrev pub IsTraced : Routine → Type 0
  IsTraced q = Traced q.story q.phase

  abbrev pub AllTraced : Control → Type 0
  AllTraced (starting gs) = Unit {0}
  AllTraced (at_group past gs) = All (All IsTraced) past
  AllTraced (waiting past qs x gs) = All (All IsTraced) past × All IsTraced qs
  AllTraced (finished past f) = All (All IsTraced) past

  abbrev OfResult : Story → Result Phase → Type 0
  OfResult s (ok p) = Traced s p
  OfResult s (err x) = Unit {0}

  after_launch-Traced :
      (s : Story) (o : Result (Run × List RunStep)) (w : World) (p : Phase)
      → ((run : Run) → (steps : List RunStep) → o ≡ ok (run, steps) → IsLaunch s run.id)
      → (after_launch svc parse e r s.id o w).0 ≡ ok p
      → Traced s p
  unfolding after_launch logged
  after_launch-Traced s (err x) w p k h = subst (OfResult s) h tt
  after_launch-Traced s (ok (run, steps)) w p k h = subst (OfResult s) h (k run steps refl)

  after_execution-Traced :
      (s : Story) (id : Uuid) (o : Option StoryError) (w : World) (p : Phase)
      → (o ≡ none → IsExecuted s)
      → (after_execution svc parse e r s.id id o w).0 ≡ ok p
      → Traced s p
  unfolding after_execution logged
  after_execution-Traced s id none w p k h = subst (OfResult s) h (k refl)
  after_execution-Traced s id (some x) w p k h = subst (OfResult s) h tt

  -- An atomic part of `runStory` in a state of the schedule.
  run_story-Traced :
      (ctx : World → Bool) (s : Story) (p : Phase) (w : World) (q : Phase)
      → Visited w
      → Traced s p
      → (run_story svc parse e r ctx s p w).0 ≡ ok q
      → Traced s q
  unfolding run_story caught
  run_story-Traced ctx s spawned w q seen t h =
      let o = launch_run svc parse r.project_id s.id uuid_nil w in
      after_launch-Traced s o.0 o.1 q (λ run steps c. (w, seen, run, steps, c, refl)) h
  run_story-Traced ctx s (launched id) w q seen t h =
      let o = execute_run (record e { is_cancelled = ctx }) id w in
      after_execution-Traced s id (execution_error o.0) o.1 q (λ c. (id, t, ctx, w, seen, c)) h
  run_story-Traced ctx s (returned x) w q seen t h = subst (OfResult s) h t

  set_phase-AllTraced :
      (qs : List Routine) (i : ℕ) (q : Routine) (p : Phase)
      → routine_at qs i ≡ some q
      → Traced q.story p
      → All IsTraced qs
      → All IsTraced (set_phase qs i p)
  set_phase-AllTraced [] i q p at t h = tt
  set_phase-AllTraced (x ∷ qs) zero q p at t h =
      (subst (λ (y : Routine). Traced y.story p) (sym (some_injective x q at)) t, h.1)
  set_phase-AllTraced (x ∷ qs) (suc i) q p at t h = (h.0, set_phase-AllTraced qs i q p at t h.1)

  at-Traced :
      (qs : List Routine) (i : ℕ) (q : Routine)
      → routine_at qs i ≡ some q
      → All IsTraced qs
      → IsTraced q
  at-Traced [] i q at h = absurd (ground arith)
  at-Traced (x ∷ qs) zero q at h = subst IsTraced (some_injective x q at) h.0
  at-Traced (x ∷ qs) (suc i) q at h = at-Traced qs i q at h.1

  put_phase-AllTraced :
      (past : List (List Routine)) (qs : List Routine) (x : Option StoryError)
      (gs : List (List Story)) (i : ℕ) (q : Routine) (o : Result Phase) (w : World)
      → routine_at qs i ≡ some q
      → ((p : Phase) → o ≡ ok p → Traced q.story p)
      → AllTraced (waiting past qs x gs)
      → AllTraced (put_phase past qs x gs i (o, w)).control
  put_phase-AllTraced past qs x gs i q (err y) w at t h = h
  put_phase-AllTraced past qs x gs i q (ok p) w at t h =
      (h.0, set_phase-AllTraced qs i q p at (t p refl) h.1)

  routine-AllTraced :
      (i : ℕ) (ctx : World → Bool) (c : Control) (w : World)
      → Visited w
      → AllTraced c
      → AllTraced (step_routine svc parse e r i ctx c w).control
  unfolding step_routine
  routine-AllTraced i ctx (waiting past qs x gs) w seen h = at_routine (routine_at qs i) refl
    where
      at_routine :
          (o : Option Routine)
          → routine_at qs i ≡ o
          → AllTraced
              (elim o as (λ _. Execution) [
                | none ↦ record { control = waiting past qs x gs; world = w }
                | some q ↦ put_phase past qs x gs i (run_story svc parse e r ctx q.story q.phase w)
              ]).control
      at_routine none at = h
      at_routine (some q) at =
          let o = run_story svc parse e r ctx q.story q.phase w in
          put_phase-AllTraced past qs x gs i q o.0 o.1 at
            (λ p. run_story-Traced ctx q.story q.phase w p seen (at-Traced qs i q at h.1)) h
  routine-AllTraced i ctx (starting gs) w seen h = h
  routine-AllTraced i ctx (at_group past gs) w seen h = h
  routine-AllTraced i ctx (finished past f) w seen h = h

  spawn-AllTraced : (g : List Story) → All IsTraced (spawn g)
  spawn-AllTraced [] = tt
  spawn-AllTraced (s ∷ ss) = (tt, spawn-AllTraced ss)

  append-AllTraced :
      (past : List (List Routine)) (qs : List Routine)
      → All (All IsTraced) past
      → All IsTraced qs
      → All (All IsTraced) (past ++ qs ∷ [])
  append-AllTraced [] qs h k = (k, tt)
  append-AllTraced (p ∷ past) qs h k = (h.0, append-AllTraced past qs h.1 k)

  unless_failed-AllTraced :
      (past : List (List Routine)) (o : Result (Unit {0})) (c : Control)
      → All (All IsTraced) past
      → AllTraced c
      → AllTraced (unless_failed past o c)
  unless_failed-AllTraced past (err x) c h k = h
  unless_failed-AllTraced past (ok _) c h k = k

  after_wait-AllTraced :
      (past : List (List Routine)) (qs : List Routine) (x : Option StoryError)
      (gs : List (List Story)) (w : World)
      → AllTraced (waiting past qs x gs)
      → AllTraced (after_wait r past qs x gs w).control
  unfolding after_wait
  after_wait-AllTraced past qs none gs w h = append-AllTraced past qs h.0 h.1
  after_wait-AllTraced past qs (some x) gs w h = append-AllTraced past qs h.0 h.1

  advance-AllTraced : (c : Control) (w : World) → AllTraced c → AllTraced (advance r c w).control
  unfolding advance
  advance-AllTraced (starting gs) w h =
      unless_failed-AllTraced [] (start_epic r w).0 (at_group [] gs) tt tt
  advance-AllTraced (at_group past []) w h =
      unless_failed-AllTraced past (complete_epic r w).0 (finished past succeeded) h h
  advance-AllTraced (at_group past (g ∷ gs)) w h = (h, spawn-AllTraced g)
  advance-AllTraced (waiting past qs x gs) w h = elim (Bool-cases (all_returned qs)) [
    | inl yes_ ↦ rw yes_ (after_wait-AllTraced past qs x gs w h)
    | inr not_yet ↦ rw not_yet h
  ]
  advance-AllTraced (finished past f) w h = h

  step-AllTraced :
      (m : Move) (x : Execution)
      → Visited x.world
      → AllTraced x.control
      → AllTraced (step svc parse e r m x).control
  unfolding step
  step-AllTraced main x seen h = advance-AllTraced x.control x.world h
  step-AllTraced (routine i ctx) x seen h = routine-AllTraced i ctx x.control x.world seen h
  step-AllTraced (other w) x seen h = h

module _ (svc : Wiring) (parse : String → Option Uuid) (e : PipelineExecutor) (r : EpicRun)
    (ms : List Move) (start : Execution) where
  -- A state that the schedule goes through, before one of its moves or at its end.
  abbrev pub IsVisited : World → Type 0
  IsVisited w =
      (earlier later : List Move) × (earlier ++ later ≡ ms)
      × ((run_moves svc parse e r earlier start).world ≡ w)

  run_moves-append :
      (xs ys : List Move) (x : Execution)
      → run_moves svc parse e r (xs ++ ys) x
        ≡ run_moves svc parse e r ys (run_moves svc parse e r xs x)
  unfolding run_moves
  run_moves-append [] ys x = refl
  run_moves-append (m ∷ xs) ys x = run_moves-append xs ys (step svc parse e r m x)

  rest-AllTraced :
      (earlier later : List Move)
      → earlier ++ later ≡ ms
      → AllTraced svc parse e r IsVisited (run_moves svc parse e r earlier start).control
      → AllTraced svc parse e r IsVisited
          (run_moves svc parse e r later (run_moves svc parse e r earlier start)).control
  unfolding run_moves
  rest-AllTraced earlier [] split h = h
  rest-AllTraced earlier (m ∷ later) split h =
      let x = run_moves svc parse e r earlier start in
      let onward = run_moves-append earlier (m ∷ []) start in
      subst (λ y. AllTraced svc parse e r IsVisited (run_moves svc parse e r later y).control)
        onward
        (rest-AllTraced (earlier ++ m ∷ []) later (append_assoc earlier (m ∷ []) later ∙ split) (
          subst (λ (y : Execution). AllTraced svc parse e r IsVisited y.control) (sym onward)
            (step-AllTraced svc parse e r IsVisited m x (earlier, m ∷ later, split, refl) h)))

  pub run_moves-AllTraced :
      AllTraced svc parse e r IsVisited start.control
      → AllTraced svc parse e r IsVisited (run_moves svc parse e r ms start).control
  unfolding run_moves
  run_moves-AllTraced h = rest-AllTraced [] ms refl h
