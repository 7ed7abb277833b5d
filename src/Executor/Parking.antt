-- ===== src/Executor/Parking.antt =====
-- Where the transition policies park a run: its status becomes paused, and the execution ends.
use hopeitworks.Prelude.{
  ◌+◌, String, Bool, true, false, ◌||◌, Option, none, some, List, not, ◌=s=◌, if◌then◌else◌, arith,
}
use hopeitworks.Errors.{Result, ok, err}
use hopeitworks.Action.{◌>>◌, pure, caught, logged}
use hopeitworks.Action.Returns.{bind_returns}
use hopeitworks.Action.Relates.{caught_relates}
use hopeitworks.Model.Status.{RunStatus, HitlStatus, hitl_status_eq}
use hopeitworks.Model.Status.Lifecycle.{here, via, pause}
use hopeitworks.Model.Config.{PipelineConfigYaml, transition_manual, transition_gate}
use hopeitworks.Model.Entities.{
  Uuid, Run, RunStep, HitlRequest, Metadata, PayloadValue, stage_started, as_bool, meta_get,
}
use hopeitworks.World.{World, M, run_at}
use hopeitworks.World.Moves.{Moves, Moves-refl, Keeps-Moves, then_Moves}
use hopeitworks.World.Stays.{
  Stays-Moves, Stays, Stays-refl, Stays-trans, Keeps-Stays, Live, Follows, Follows-pure,
  Moves-Follows, Ends, Follows-after,
}
use hopeitworks.Repo.Runs.{update_run_status, update_run_step_status}
use hopeitworks.Repo.Rows.{create_hitl_request, get_hitl_by_run_step_id}
use hopeitworks.Repo.Keeps.{create_hitl_request-Keeps, get_hitl_by_run_step_id-Keeps}
use hopeitworks.Executor.{PipelineExecutor, publish_event}
use hopeitworks.Executor.Stages.{
  StageRef, Verdict, proceed, suspended, transition_for, set_current_stage, park_at_stage,
  enforce_manual_on_enter, raise_gate_as, raise_gate, gate_verdict, enforce_gate,
  enforce_gate_on_exit,
}
use hopeitworks.Executor.Quiet.{set_current_stage-Quiet}
use hopeitworks.Executor.Failing.{
  Live-then, logged-Stays, step_update-Stays, run_update-Moves, update_run_metadata-Stays,
  publish_event-Stays,
}

abbrev pub is_proceed : Verdict → Bool
is_proceed proceed = true
is_proceed suspended = false

create_gate-Stays : (r : HitlRequest) (w : World) → Stays w (create_hitl_request r w).1
create_gate-Stays r w = Keeps-Stays w (create_hitl_request r w).1 (create_hitl_request-Keeps r w)

look_up-Stays : (id : Uuid) (w : World) → Stays w (get_hitl_by_run_step_id id w).1
look_up-Stays id w =
    Keeps-Stays w (get_hitl_by_run_step_id id w).1 (get_hitl_by_run_step_id-Keeps id w)

pub caught-Stays : {A : Type 0} (m : M A) (w : World) → Stays w (m w).1 → Stays w (caught m w).1
caught-Stays = caught_relates Stays Stays-refl Stays-trans

module _ (e : PipelineExecutor) where
  pub park-Ends :
      (r : Run) (next : StageRef) (m : Metadata) → Ends is_proceed (park_at_stage e r next m)
  unfolding park_at_stage
  park-Ends r next m v a h = bind_returns (logged _) _ v a h λ _ v1 _ h1.
      bind_returns (update_run_status _ _ _ _ _ _) _ v1 a h1 λ _ v2 _ h2.
        bind_returns (set_current_stage r _) _ v2 a h2
          λ _ v3 _ h3. bind_returns (publish_event _ _ _ _ _) _ v3 a h3 λ _ v4 _ h4. ground arith

  told :
      (p : Uuid) (t : String) (i : Uuid) (a : String) (d : List (String × PayloadValue)) (w : World)
      → Moves w ((publish_event p t i a d >> pure suspended) w).1
  told p t i a d w =
      then_Moves (publish_event p t i a d) (λ _. pure suspended) w
        (Stays-Moves w (publish_event p t i a d w).1 (publish_event-Stays p t i a d w))
        λ _ v. Moves-refl v

  park-Moves :
      (r : Run) (next : StageRef) (m : Metadata) (w : World)
      → Live r.id w
      → Moves w (park_at_stage e r next m w).1
  unfolding park_at_stage
  park-Moves r next m w =
      Live-then r.id (logged _) _ w (logged-Stays _ w (update_run_metadata-Stays r.id _ w))
        λ _ w1 alive.
          then_Moves (update_run_status _ _ _ _ _ _) _ w1
            (run_update-Moves r.id RunStatus.paused _ _ _ _ w1 (via pause here) alive)
            λ _ w2.
              then_Moves (set_current_stage r _) _ w2
                (Keeps-Moves w2 (set_current_stage r (some next.name) w2).1
                  (set_current_stage-Quiet r (some next.name) w2).0)
                λ _ w3. told _ _ _ _ _ w3

  raise_as-Moves :
      (r : Run) (leaving : StageRef) (anchor : RunStep) (id : Uuid) (w : World)
      → Live r.id w
      → Moves w (raise_gate_as e r leaving anchor id w).1
  unfolding raise_gate_as
  raise_as-Moves r leaving anchor id w =
      Live-then r.id (create_hitl_request _) _ w (create_gate-Stays _ w) λ _ w1.
        Live-then r.id (update_run_step_status _ _ _ _ _) _ w1
          (step_update-Stays anchor.id _ _ _ _ w1)
          λ _ w2 alive.
            then_Moves (update_run_status _ _ _ _ _ _) _ w2
              (run_update-Moves r.id RunStatus.paused _ _ _ _ w2 (via pause here) alive)
              λ _ w3. told _ _ _ _ _ w3

  raise_as-Ends :
      (r : Run) (leaving : StageRef) (anchor : RunStep) (id : Uuid)
      → Ends is_proceed (raise_gate_as e r leaving anchor id)
  unfolding raise_gate_as
  raise_as-Ends r leaving anchor id v a h =
      bind_returns (create_hitl_request _) _ v a h λ _ v1 _ h1.
        bind_returns (update_run_step_status _ _ _ _ _) _ v1 a h1 λ _ v2 _ h2.
          bind_returns (update_run_status _ _ _ _ _ _) _ v2 a h2
            λ _ v3 _ h3. bind_returns (publish_event _ _ _ _ _) _ v3 a h3 λ _ v4 _ h4. ground arith

  raise-Moves :
      (r : Run) (leaving : StageRef) (anchor : RunStep) (w : World)
      → Live r.id w
      → Moves w (raise_gate e r leaving anchor w).1
  unfolding raise_gate run_at
  raise-Moves r leaving anchor w alive =
      raise_as-Moves r leaving anchor w.next_id (record w { next_id = w.next_id + 1 }) alive

  pub raise-Ends :
      (r : Run) (leaving : StageRef) (anchor : RunStep)
      → Ends is_proceed (raise_gate e r leaving anchor)
  unfolding raise_gate
  raise-Ends r leaving anchor v a h =
      raise_as-Ends r leaving anchor v.next_id (record v { next_id = v.next_id + 1 }) a h

  pub manual-Follows :
      (r : Run) (next : StageRef) (policy : Option PipelineConfigYaml) (m : Metadata) (w : World)
      → Live r.id w
      → Follows is_proceed w (enforce_manual_on_enter e r next policy m)
  unfolding enforce_manual_on_enter
  manual-Follows r next policy m w alive = go (
      not (transition_for policy next.id =s= transition_manual)
      || as_bool (meta_get (stage_started next.id) m))
    where
      go : (b : Bool) → Follows is_proceed w (if b then pure proceed else park_at_stage e r next m)
      go true = Follows-pure is_proceed (ok proceed) w
      go false =
          Moves-Follows is_proceed (park_at_stage e r next m) w (park-Moves r next m w alive)
            (park-Ends r next m)

  verdict-Follows :
      (r : Run) (leaving : StageRef) (anchor : RunStep) (o : Result HitlRequest) (w : World)
      → Live r.id w
      → Follows is_proceed w (gate_verdict e r leaving anchor o)
  unfolding gate_verdict
  verdict-Follows r leaving anchor (err x) w alive =
      Moves-Follows is_proceed (raise_gate e r leaving anchor) w
        (raise-Moves r leaving anchor w alive) (raise-Ends r leaving anchor)
  verdict-Follows r leaving anchor (ok q) w alive = go (hitl_status_eq q.status HitlStatus.approved)
    where
      go : (b : Bool) → Follows is_proceed w (if b then pure proceed else pure suspended)
      go true = Follows-pure is_proceed (ok proceed) w
      go false = Follows-pure is_proceed (ok suspended) w

  gate-Follows :
      (r : Run) (leaving : StageRef) (anchor : RunStep) (w : World)
      → Live r.id w
      → Follows is_proceed w (enforce_gate e r leaving anchor)
  unfolding enforce_gate
  gate-Follows r leaving anchor w =
      Follows-after is_proceed r.id (caught _) _ w (caught-Stays _ w (look_up-Stays anchor.id w))
        λ o v alive. verdict-Follows r leaving anchor o v alive

  pub exit-Follows :
      (r : Run) (leaving : Option StageRef) (policy : Option PipelineConfigYaml)
      (anchor : Option RunStep) (w : World)
      → Live r.id w
      → Follows is_proceed w (enforce_gate_on_exit e r leaving policy anchor)
  unfolding enforce_gate_on_exit
  exit-Follows r none policy anchor w alive = Follows-pure is_proceed (ok proceed) w
  exit-Follows r (some l) policy none w alive = Follows-pure is_proceed (ok proceed) w
  exit-Follows r (some l) policy (some a) w alive =
      go (transition_for policy l.id =s= transition_gate) e.has_hitl_repo
    where
      go :
          (b c : Bool)
          → Follows is_proceed w
              (if b then (if c then enforce_gate e r l a else pure proceed) else pure proceed)
      go false c = Follows-pure is_proceed (ok proceed) w
      go true false = Follows-pure is_proceed (ok proceed) w
      go true true = gate-Follows r l a w alive
