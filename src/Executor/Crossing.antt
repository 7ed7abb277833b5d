-- ===== src/Executor/Crossing.antt =====
-- The way over a stage boundary, if the stages are automatic.
use hopeitworks.Prelude.{
  ◌≡◌, refl, ap, ◌∙◌, Bool, true, false, Option, none, some, List, [], ◌∷◌, ◌==◌, String, ◌=s=◌,
  ◌||◌, not, All, if◌then◌else◌, arith,
}
use hopeitworks.Errors.{Result, ok}
use hopeitworks.Action.{◌>>=◌, pure, caught, logged}
use hopeitworks.Action.Yields.{Yields, yields_bind, yields_pure, yields_logged, yields_from}
use hopeitworks.Model.Status.{RunStatus, run_status_eq}
use hopeitworks.Model.Config.{PipelineConfigYaml, transition_manual, transition_gate}
use hopeitworks.Model.Entities.{
  Uuid, uuid_nil, Run, RunStep, Metadata, as_bool, meta_get, stage_started,
}
use hopeitworks.World.{World, M, NoFaults, tick, run_at, step_at}
use hopeitworks.Repo.Runs.{get_run}
use hopeitworks.Repo.Rows.{update_story_current_stage}
use hopeitworks.Repo.Quiet.{Quiet, Quiet-refl, Quiet-trans, update_story_current_stage-Quiet}
use hopeitworks.Executor.{PipelineExecutor}
use hopeitworks.Executor.Stages.{
  StageRef, Verdict, proceed, matches, new_stage_ref, enter_stage, exit_stage, set_current_stage,
  enforce_manual_on_enter, enforce_gate_on_exit, transition_for, park_at_stage, enforce_gate,
}
use hopeitworks.Executor.Execution.{
  Progress, Flow, next, settle, take_step, change_stage, after_manual, after_gate, cross_boundary,
}
use hopeitworks.Executor.Steady.{Steady, Quiet-Steady, yields-get_run}
use hopeitworks.Executor.Succeeding.{Ready, execute-yields, yields_publish}

-- No stage is manual or a gate.
abbrev pub Automatic : Option PipelineConfigYaml → Type 0
Automatic policy =
    (stage : String)
    → ((transition_for policy stage =s= transition_manual) ≡ false)
      × ((transition_for policy stage =s= transition_gate) ≡ false)

-- The loop goes on.
abbrev pub GoesOn : World → Flow → World → Type 0
GoesOn w f v = ((q : Progress) × (f ≡ next q)) × Steady w v

abbrev pub Stored : World → RunStep → Type 0
Stored w s = (t : RunStep) × (step_at w s.id ≡ some t)

pub Stored-after :
    (v w : World) (ss : List RunStep) → Steady v w → All (Stored v) ss → All (Stored w) ss
Stored-after v w [] h a = tt
Stored-after v w (s ∷ ss) h ((t, f), rest) = (h.2.0 s.id t f, Stored-after v w ss h rest)

pub not_paused : (s : RunStatus) → s ≡ RunStatus.running → run_status_eq s RunStatus.paused ≡ false
not_paused s h = ground arith

pub yields_reread :
    (id : Uuid) (w : World) (q : Run)
    → NoFaults w
    → run_at w id ≡ some q
    → Yields (caught (get_run id)) w (λ o z. (o ≡ ok q) × Quiet w z)
unfolding caught
yields_reread id w q up found = (
  ok q,
  tick w,
  ap (λ (x : Result Run × World). (ok x.0, x.1)) (yields-get_run id w q up found),
  (refl, (refl, refl, refl, refl)),
)

pub yields_current :
    (r : Run) (s : Option String) (w : World) → Yields (set_current_stage r s) w (λ _. Quiet w)
unfolding set_current_stage
yields_current r s w = go (r.story_id == uuid_nil)
  where
    go :
        (b : Bool)
        → Yields
            (if b then pure tt else logged (update_story_current_stage r.story_id s))
            w
            (λ _. Quiet w)
    go true = yields_pure (λ _. Quiet w) tt w (Quiet-refl w)
    go false = yields_logged Quiet _ w (update_story_current_stage-Quiet r.story_id s w)

module _ (e : PipelineExecutor) where
  pub yields_exit :
      (r : Run) (p n : Option StageRef) (w : World) → Yields (exit_stage e r p n) w (λ _. Quiet w)
  unfolding exit_stage
  yields_exit r none n w = yields_pure (λ _. Quiet w) tt w (Quiet-refl w)
  yields_exit r (some p) n w = yields_publish _ _ _ _ _ w

  yields_enter : (r : Run) (s : StageRef) (w : World) → Yields (enter_stage e r s) w (λ _. Quiet w)
  unfolding enter_stage
  yields_enter r s w =
      yields_bind (λ _. Quiet w) (λ _. Quiet w) (set_current_stage r _) _ w
        (yields_current r (some s.name) w)
        λ _ v a.
          let (x, z, ran, b) = yields_publish _ _ _ _ _ v in (x, z, ran, Quiet-trans w v z a b)

  change-yields :
      (r : Run) (s : RunStep) (p : Progress) (w : World)
      → Yields (change_stage e r s p) w (GoesOn w)
  unfolding change_stage
  change-yields r s p w =
      yields_bind (λ _. Quiet w) (GoesOn w) (exit_stage e r p.cur_stage _) _ w
        (yields_exit r p.cur_stage (some (new_stage_ref s)) w)
        λ _ v a.
          yields_bind (λ _. Quiet v) (GoesOn w) (enter_stage e r _) _ v
            (yields_enter r (new_stage_ref s) v)
            λ _ z b.
              yields_pure (GoesOn w) _ z ((_, refl), Quiet-Steady w z (Quiet-trans w v z a b))

  pub no_gate :
      (r : Run) (l : Option StageRef) (policy : Option PipelineConfigYaml) (a : Option RunStep)
      (w : World)
      → Automatic policy
      → enforce_gate_on_exit e r l policy a w ≡ (ok proceed, w)
  unfolding enforce_gate_on_exit
  no_gate r none policy a w auto = refl
  no_gate r (some l) policy none w auto = refl
  no_gate r (some l) policy (some a) w auto =
      ap
        (λ b.
          (if b
              then (if e.has_hitl_repo then enforce_gate e r l a else pure proceed)
              else pure proceed)
            w)
        (auto l.id).1

  no_manual :
      (r : Run) (n : StageRef) (policy : Option PipelineConfigYaml) (m : Metadata) (w : World)
      → Automatic policy
      → enforce_manual_on_enter e r n policy m w ≡ (ok proceed, w)
  unfolding enforce_manual_on_enter
  no_manual r n policy m w auto =
      ap
        (λ b.
          (if not b || as_bool (meta_get (stage_started n.id) m)
              then pure proceed
              else park_at_stage e r n m)
            w)
        (auto n.id).0

  settled :
      (r : Run) (s : RunStep) (p : Progress) (n : Metadata) (v : World)
      → settle e r s p (ok (some n)) v
        ≡ (ok (next (record p { prev_step = some s; metadata = n })), v)
  unfolding settle
  settled r s p n v = refl

  pub take-yields :
      (id : Uuid) (r : Run) (s : RunStep) (p : Progress) (w : World)
      → Ready e id w
      → Stored w s
      → Yields (take_step e r s p) w (GoesOn w)
  unfolding take_step caught
  take-yields id r s p w ready (q, found) =
      let (o, v, ran, ((n, is_n), steady)) = execute-yields e id r s q p.metadata w ready found in
      (
        next (record p { prev_step = some s; metadata = n }),
        v,
        ap (λ (x : Result (Option Metadata) × World). settle e r s p x.0 x.1)
              (ran ∙ ap (λ x. (ok x, v)) is_n)
            ∙ settled r s p n v,
        ((record p { prev_step = some s; metadata = n }, refl), steady),
      )

  yields_after_gate :
      (r : Run) (policy : Option PipelineConfigYaml) (s : RunStep) (p : Progress) (w : World)
      → Automatic policy
      → Yields (after_gate e r policy s p proceed) w (GoesOn w)
  unfolding after_gate after_manual
  yields_after_gate r policy s p w auto =
      yields_from (GoesOn w) (enforce_manual_on_enter e r (new_stage_ref s) policy p.metadata)
        (after_manual e r s p) w w proceed (no_manual r (new_stage_ref s) policy p.metadata w auto)
        (change-yields r s p w)

  pub cross-yields :
      (r : Run) (policy : Option PipelineConfigYaml) (s : RunStep) (p : Progress) (w : World)
      → Automatic policy
      → Yields (cross_boundary e r policy s p) w (GoesOn w)
  unfolding cross_boundary
  cross-yields r policy s p w auto = go (matches p.cur_stage s.stage_id)
    where
      gate : M Verdict
      gate = enforce_gate_on_exit e r p.cur_stage policy p.prev_step

      go :
          (b : Bool)
          → Yields (if b then pure (next p) else (gate >>= after_gate e r policy s p)) w (GoesOn w)
      go true = yields_pure (GoesOn w) (next p) w ((p, refl), Quiet-Steady w w (Quiet-refl w))
      go false =
          yields_from (GoesOn w) gate (after_gate e r policy s p) w w proceed
            (no_gate r p.cur_stage policy p.prev_step w auto)
            (yields_after_gate r policy s p w auto)
