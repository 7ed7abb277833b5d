-- ===== src/Executor/Ending.antt =====
-- The end of an execution: the last stage is left and the run is completed.
use hopeitworks.Prelude.{
  ◌≡◌, refl, ap, ◌∙◌, Bool, true, false, Option, none, some, find, ◌==◌, if◌then◌else◌, arith,
}
use hopeitworks.Errors.{Result, ok, err}
use hopeitworks.Action.{◌>>=◌, pure, caught, logged}
use hopeitworks.Action.Yields.{Yields, yields_bind, yields_pure, yields_logged, yields_from}
use hopeitworks.Model.Status.{RunStatus, StoryStatus}
use hopeitworks.Model.Config.{PipelineConfigYaml}
use hopeitworks.Model.Entities.{Uuid, uuid_nil, Time, ErrorText, Run, RunStep, Metadata}
use hopeitworks.World.{World, M, NoFaults, run_at, run_has_id}
use hopeitworks.World.Moves.{find-update_where}
use hopeitworks.Repo.Runs.{update_run_status, with_status}
use hopeitworks.Repo.Quiet.{Quiet, Quiet-refl, Quiet-trans}
use hopeitworks.CircuitBreaker.{record_success}
use hopeitworks.Executor.{
  PipelineExecutor, publish_event, update_story, set_story_status, after_story_update,
  enqueue_write_back, push_status, is_written_back,
}
use hopeitworks.Executor.Stages.{
  StageRef, proceed, exit_stage, set_current_stage, enforce_gate_on_exit,
}
use hopeitworks.Executor.Execution.{
  Ending, completed, Progress, next, note_success, complete_run, leave_last_stage, after_steps,
  finish_run,
}
use hopeitworks.Executor.Quiet.{
  set_story_status-Quiet, after_story_update-Quiet, record_success-Quiet,
}
use hopeitworks.Executor.Steady.{NoFaults-Steady, Quiet-Steady, yields-update_run}
use hopeitworks.Executor.Succeeding.{yields_publish}
use hopeitworks.Executor.Crossing.{Automatic, yields_current, yields_exit, no_gate}

-- The run is stored with this status.
abbrev pub Stands : Uuid → RunStatus → World → Type 0
Stands id s w = (q : Run) × (run_at w id ≡ some q) × (q.status ≡ s)

pub Stands-Quiet :
    (id : Uuid) (s : RunStatus) (v w : World) → Quiet v w → Stands id s v → Stands id s w
unfolding run_at
Stands-Quiet id s v w (a, b, c, d) (q, f, e) = (q, ap (find (run_has_id id)) a ∙ f, e)

own_row : (id : Uuid) (r q : Run) → some (if id == id then r else q) ≡ some r
own_row id r q = ground arith

-- The run after its update.
pub yields-status :
    (id : Uuid) (s : RunStatus) (a b c : Option Time) (x : Option ErrorText) (w : World) (q : Run)
    → NoFaults w
    → run_at w id ≡ some q
    → Yields (update_run_status id s a b c x) w λ r v.
      (r ≡ with_status s a b c x q)
      × (v.faults ≡ w.faults)
      × (v.run_steps ≡ w.run_steps)
      × Stands id s v
unfolding run_at
yields-status id s a b c x w q up found =
    let (r, v, ran, (is_r, f, steps, rows)) = yields-update_run id s a b c x w q up found in
    (
      r,
      v,
      ran,
      (
        is_r,
        f,
        steps,
        (
          with_status s a b c x q,
          ap (find (run_has_id id)) rows
              ∙ find-update_where id id (with_status s a b c x) (λ _. refl) w.runs q found
              ∙ own_row id (with_status s a b c x q) q,
          refl,
        ),
      ),
    )

abbrev pub Finished : Uuid → Ending → World → Type 0
Finished id x v = (x ≡ completed) × Stands id RunStatus.completed v

pub shut :
    (w : World) (id : Uuid) (q : Run) → find (run_has_id id) w.runs ≡ some q → run_at w id ≡ some q
unfolding run_at
shut w id q h = h

pub unshut :
    (w : World) (id : Uuid) (q : Run) → run_at w id ≡ some q → find (run_has_id id) w.runs ≡ some q
unfolding run_at
unshut w id q h = h

module _ (e : PipelineExecutor) where
  push-returns : (r : Run) (s : StoryStatus) (w : World) → (push_status e r s w).0 ≡ ok tt
  unfolding push_status logged
  push-returns r s w = refl

  write_back-returns :
      (r : Run) (s : StoryStatus) (w : World) → (enqueue_write_back e r s w).0 ≡ ok tt
  unfolding enqueue_write_back
  write_back-returns r s w = go e.has_write_back (r.story_id == uuid_nil) (is_written_back s)
    where
      go :
          (a b c : Bool)
          → ((if a
                then (if b then pure tt else if c then push_status e r s else pure tt)
                else pure tt)
              w).0
            ≡ ok tt
      go false b c = refl
      go true true c = refl
      go true false false = refl
      go true false true = push-returns r s w

  after_story-returns :
      (r : Run) (s : StoryStatus) (o : Result (Unit {0})) (w : World)
      → (after_story_update e r s o w).0 ≡ ok tt
  unfolding after_story_update publish_event logged
  after_story-returns r s (err x) w = refl
  after_story-returns r s (ok u) w = write_back-returns r s _

  pub yields_story :
      (r : Run) (s : StoryStatus) (w : World) → Yields (update_story e r s) w (λ _. Quiet w)
  unfolding update_story caught
  yields_story r s w = go (r.story_id == uuid_nil)
    where
      updated : M (Unit {0})
      updated = caught (set_story_status r.story_id s) >>= after_story_update e r s

      go : (b : Bool) → Yields (if b then pure tt else updated) w (λ _. Quiet w)
      go true = yields_pure (λ _. Quiet w) tt w (Quiet-refl w)
      go false =
          let o = set_story_status r.story_id s w in
          (
            tt,
            (after_story_update e r s o.0 o.1).1,
            ap (λ x. (x, (after_story_update e r s o.0 o.1).1)) (after_story-returns r s o.0 o.1),
            Quiet-trans w o.1 (after_story_update e r s o.0 o.1).1
                (set_story_status-Quiet r.story_id s w) (after_story_update-Quiet e r s o.0 o.1),
          )

  yields_noted : (r : Run) (w : World) → Yields (note_success e r) w (λ _. Quiet w)
  unfolding note_success
  yields_noted r w = go e.has_circuit_breaker
    where
      go :
          (b : Bool)
          → Yields (if b then logged (record_success r.project_id) else pure tt) w (λ _. Quiet w)
      go false = yields_pure (λ _. Quiet w) tt w (Quiet-refl w)
      go true = yields_logged Quiet _ w (record_success-Quiet r.project_id w)

  complete-yields :
      (r : Run) (id : Uuid) (w : World)
      → NoFaults w
      → (q : Run) → run_at w id ≡ some q
      → Yields (complete_run e r id) w (Finished id)
  unfolding complete_run
  complete-yields r id w up q found =
      yields_bind _ (Finished id) (update_run_status _ _ _ _ _ _) _ w
        (yields-status id RunStatus.completed _ _ _ _ w q up found)
        λ _ w1 facts.
          yields_bind (λ _. Quiet w1) (Finished id) (publish_event _ _ _ _ _) _ w1
            (yields_publish _ _ _ _ _ w1)
            λ _ w2 a.
              yields_bind (λ _. Quiet w2) (Finished id) (update_story e r _) _ w2
                (yields_story r _ w2)
                λ _ w3 b.
                  yields_bind (λ _. Quiet w3) (Finished id) (note_success e r) _ w3
                    (yields_noted r w3)
                    λ _ w4 c. yields_pure (Finished id) completed w4 (
                      refl,
                      Stands-Quiet id RunStatus.completed w1 w4
                          (Quiet-trans w1 w2 w4 a (Quiet-trans w2 w3 w4 b c)) facts.3,
                    )

  leave-yields :
      (r : Run) (id : Uuid) (stage : StageRef) (w : World)
      → NoFaults w
      → (q : Run) → run_at w id ≡ some q
      → Yields (leave_last_stage e r id stage proceed) w (Finished id)
  unfolding leave_last_stage
  leave-yields r id stage w up q found =
      yields_bind (λ _. Quiet w) (Finished id) (exit_stage e r (some stage) none) _ w
        (yields_exit e r (some stage) none w)
        λ _ w1 a.
          yields_bind (λ _. Quiet w1) (Finished id) (set_current_stage r none) _ w1
            (yields_current r none w1)
            λ _ w2 b.
              let c = Quiet-Steady w w2 (Quiet-trans w w1 w2 a b) in
              let (p, k, same) = c.1 id q (unshut w id q found) in
              complete-yields r id w2 (NoFaults-Steady w w2 c.0 up) p (shut w2 id p k)

  after-yields :
      (r : Run) (id : Uuid) (policy : Option PipelineConfigYaml) (c : Option StageRef)
      (s : Option RunStep) (m : Metadata) (w : World)
      → Automatic policy
      → NoFaults w
      → (q : Run) → run_at w id ≡ some q
      → Yields
          (after_steps e r id policy (record { cur_stage = c; prev_step = s; metadata = m }))
          w
          (Finished id)
  unfolding after_steps
  after-yields r id policy none s m w auto up q found = complete-yields r id w up q found
  after-yields r id policy (some stage) s m w auto up q found =
      yields_from (Finished id) (enforce_gate_on_exit e r (some stage) policy s)
        (leave_last_stage e r id stage) w w proceed (no_gate e r (some stage) policy s w auto)
        (leave-yields r id stage w up q found)

  pub finish-yields :
      (r : Run) (id : Uuid) (policy : Option PipelineConfigYaml) (p : Progress) (w : World)
      → Automatic policy
      → NoFaults w
      → (q : Run) → run_at w id ≡ some q
      → Yields (finish_run e r id policy (next p)) w (Finished id)
  unfolding finish_run
  finish-yields r id policy p w = after-yields r id policy p.cur_stage p.prev_step p.metadata w
