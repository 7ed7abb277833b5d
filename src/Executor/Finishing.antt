-- ===== src/Executor/Finishing.antt =====
-- What the end of an execution leaves of the stored steps.
use hopeitworks.Prelude.{
  ◌≡◌, refl, ap, ◌∙◌, Bool, true, false, Option, none, some, List, find, Bool-cases, ◌⊎◌, inl, inr,
  Elem, if◌then◌else◌, arith,
}
use hopeitworks.Errors.{Result, ok, err}
use hopeitworks.Action.{◌>>=◌, pure, caught, logged, attempt}
use hopeitworks.Action.Returns.{bind_ends}
use hopeitworks.Model.Status.{StepStatus, RunStatus, StoryStatus, step_status_eq}
use hopeitworks.Model.Config.{PipelineConfigYaml}
use hopeitworks.Model.Entities.{Uuid, Time, ErrorText, Run, RunStep, Metadata}
use hopeitworks.World.{World, M, call, step_at, step_has_id}
use hopeitworks.Repo.Runs.{
  get_run, update_run_status, list_run_steps_by_run, steps_of_run, sort_steps,
}
use hopeitworks.RunService.Cancel.Listing.{find-Elem, select-Elem, sort-Elem}
use hopeitworks.CircuitBreaker.{check_circuit_breaker}
use hopeitworks.Executor.{PipelineExecutor, publish_event, update_story}
use hopeitworks.Executor.Stages.{
  StageRef, Verdict, proceed, suspended, exit_stage, set_current_stage, enforce_gate_on_exit,
}
use hopeitworks.Executor.Execution.{
  Ending, completed, Progress, Flow, next, stop, note_success, go_on, complete_run,
  leave_last_stage, after_steps, finish_run, check_breaker, refuse_run,
}
use hopeitworks.Executor.Quiet.{
  publish_event-Quiet, exit_stage-Quiet, set_current_stage-Quiet, update_story-Quiet,
  note_success-Quiet, check_circuit_breaker-Quiet,
}
use hopeitworks.Executor.Completing.{Done, ends-steps}
use hopeitworks.Executor.Advancing.{pure-steps, gate-steps}

pub update_run-steps :
    (id : Uuid) (s : RunStatus) (a b c : Option Time) (x : Option ErrorText) (w : World)
    → (update_run_status id s a b c x w).1.run_steps ≡ w.run_steps
unfolding update_run_status call
update_run-steps id s a b c x w = ground arith

pub read_run-steps : (id : Uuid) (w : World) → (get_run id w).1.run_steps ≡ w.run_steps
unfolding get_run call
read_run-steps id w = ground arith

pub list-reads :
    (id : Uuid) (w v : World) (ss : List RunStep)
    → list_run_steps_by_run id w ≡ (ok ss, v)
    → (ss ≡ steps_of_run id w.run_steps) × (v.run_steps ≡ w.run_steps)
unfolding list_run_steps_by_run call
list-reads id w v ss h = ground arith

-- The step is done, or the loop still meets it.
abbrev pub Tracked : Uuid → World → List RunStep → Type 0
Tracked j w ss =
    Done w j
    ⊎ ((t : RunStep) × Elem t ss
        × (t.id ≡ j)
        × (step_status_eq t.status StepStatus.completed ≡ false))

pub go_on-next :
    (k : Progress → M Flow) (f : Flow) (q : Progress) (w v : World)
    → go_on k f w ≡ (ok (next q), v)
    → (p : Progress) × (f ≡ next p) × (k p w ≡ (ok (next q), v))
unfolding go_on
go_on-next k (stop x) q w v h = absurd (ground arith)
go_on-next k (next p) q w v h = (p, refl, h)

pub carry :
    (w v : World) (j : Uuid) (y : RunStep)
    → v.run_steps ≡ w.run_steps
    → step_at w j ≡ some y
    → step_at v j ≡ some y
unfolding step_at
carry w v j y same found = ap (find (step_has_id j)) same ∙ found

is_completed :
    (s : StepStatus) → step_status_eq s StepStatus.completed ≡ true → s ≡ StepStatus.completed
is_completed s h = ground arith

-- A stored step of the run is completed, or is in the listing.
pub listed :
    (j id : Uuid) (s : RunStep) (w : World)
    → step_at w j ≡ some s
    → s.run_id ≡ id
    → Tracked j w (sort_steps (steps_of_run id w.run_steps))
unfolding step_at
listed j id s w found own = elim (Bool-cases (step_status_eq s.status StepStatus.completed)) [
  | inl c ↦ inl (s, found, is_completed s.status c)
  | inr o ↦
      let (m, named) = find-Elem j w.run_steps s found in
      inr (
        s,
        sort-Elem (steps_of_run id w.run_steps) s
            (sort-Elem _ s (select-Elem id w.run_steps s own m)),
        named,
        o,
      )
]

module _ (e : PipelineExecutor) where
  complete-steps :
      (r : Run) (id : Uuid) (x : Ending) (w v : World)
      → complete_run e r id w ≡ (ok x, v)
      → v.run_steps ≡ w.run_steps
  unfolding complete_run
  complete-steps r id x w v h = bind_ends (update_run_status _ _ _ _ _ _) _ w v x h λ _ w1 set h1.
      bind_ends (publish_event _ _ _ _ _) _ w1 v x h1 λ _ w2 told h2.
        bind_ends (update_story e r _) _ w2 v x h2 λ _ w3 story h3.
          bind_ends (note_success e r) _ w3 v x h3 λ _ w4 noted h4.
            pure-steps completed (ok x) w4 v h4
            ∙ ends-steps (note_success e r) w3 w4 (ok tt) noted (note_success-Quiet e r w3).1
            ∙ ends-steps (update_story e r StoryStatus.done) w2 w3 (ok tt) story
                (update_story-Quiet e r StoryStatus.done w2).1
            ∙ ends-steps (publish_event _ _ _ _ _) w1 w2 (ok tt) told
                (publish_event-Quiet _ _ _ _ _ w1).1
            ∙ ends-steps (update_run_status _ _ _ _ _ _) w w1 (ok _) set
                (update_run-steps _ _ _ _ _ _ w)

  leave-steps :
      (r : Run) (id : Uuid) (stage : StageRef) (a : Verdict) (w v : World)
      → leave_last_stage e r id stage a w ≡ (ok completed, v)
      → (a ≡ proceed) × (v.run_steps ≡ w.run_steps)
  unfolding leave_last_stage
  leave-steps r id stage suspended w v h = absurd (ground arith)
  leave-steps r id stage proceed w v h = (
    refl,
    bind_ends (exit_stage e r (some stage) none) _ w v completed h λ _ w1 left h1.
        bind_ends (set_current_stage r none) _ w1 v completed h1 λ _ w2 cleared h2.
          complete-steps r id completed w2 v h2
          ∙ ends-steps (set_current_stage r none) w1 w2 (ok tt) cleared
              (set_current_stage-Quiet r none w1).1
          ∙ ends-steps (exit_stage e r (some stage) none) w w1 (ok tt) left
              (exit_stage-Quiet e r (some stage) none w).1,
  )

  after-steps :
      (r : Run) (id : Uuid) (policy : Option PipelineConfigYaml) (c : Option StageRef)
      (s : Option RunStep) (m : Metadata) (w v : World)
      → after_steps e r id policy (record { cur_stage = c; prev_step = s; metadata = m }) w
        ≡ (ok completed, v)
      → v.run_steps ≡ w.run_steps
  unfolding after_steps
  after-steps r id policy none s m w v h = complete-steps r id completed w v h
  after-steps r id policy (some stage) s m w v h =
      bind_ends (enforce_gate_on_exit e r (some stage) policy s) (leave_last_stage e r id stage) w v
        completed h
        λ a w1 gate h1.
          let (goes, steps) = leave-steps r id stage a w1 v h1 in
          steps ∙ gate-steps e r (some stage) policy s w w1 (gate ∙ ap (λ x. (ok x, w1)) goes)

  pub finish-steps :
      (r : Run) (id : Uuid) (policy : Option PipelineConfigYaml) (f : Flow) (w v : World)
      → finish_run e r id policy f w ≡ (ok completed, v)
      → ((q : Progress) × (f ≡ next q)) × (v.run_steps ≡ w.run_steps)
  unfolding finish_run
  finish-steps r id policy (stop x) w v h = absurd (ground arith)
  finish-steps r id policy (next p) w v h =
      ((p, refl), after-steps r id policy p.cur_stage p.prev_step p.metadata w v h)

  refuse-steps :
      (id : Uuid) (o : Result (Unit {0})) (w : World)
      → (refuse_run e id o w).1.run_steps ≡ w.run_steps
  unfolding refuse_run logged
  refuse-steps id (ok u) w = refl
  refuse-steps id (err x) w = update_run-steps id _ _ _ _ _ w

  pub breaker-steps :
      (r : Run) (id : Uuid) (w : World) → (check_breaker e r id w).1.run_steps ≡ w.run_steps
  unfolding check_breaker caught
  breaker-steps r id w = go e.has_circuit_breaker
    where
      checked : M (Unit {0})
      checked = attempt (check_circuit_breaker r.project_id) >>= refuse_run e id

      go : (b : Bool) → ((if b then checked else pure tt) w).1.run_steps ≡ w.run_steps
      go false = refl
      go true =
          refuse-steps id (check_circuit_breaker r.project_id w).0
            (check_circuit_breaker r.project_id w).1
          ∙ (check_circuit_breaker-Quiet r.project_id w).1
