-- ===== src/RunService/Cancel/Loop.antt =====
-- The loop of `CancelRun` over the listed steps.
use hopeitworks.Prelude.{
  ◌≡◌, refl, ap, ◌∙◌, subst, Bool, true, false, Option, some, none, List, [], ◌∷◌, ◌⊎◌, inl, inr,
  String, find, ◌==◌, ==_iff, Elem, if◌then◌else◌, arith,
}
use hopeitworks.Errors.{ok}
use hopeitworks.Action.{for_each}
use hopeitworks.Action.Returns.{bind_ends}
use hopeitworks.Model.Status.{StepStatus}
use hopeitworks.Model.Entities.{Uuid, Time, RunStep}
use hopeitworks.World.Rows.{find_step-update}
use hopeitworks.World.{World, call, step_at, step_has_id, update_where}
use hopeitworks.Repo.Runs.{update_run_step_status, with_step_status}
use hopeitworks.Repo.Outbox.{stop_execution}
use hopeitworks.RunService.{Wiring}
use hopeitworks.RunService.Cancel.{cancel_step, cancel_msg, stop_step_execution}

-- Neither pending, nor running, nor waiting for an approval.
abbrev pub is_closed : StepStatus → Bool
is_closed StepStatus.pending = false
is_closed StepStatus.running = false
is_closed StepStatus.waiting_approval = false
is_closed _ = true

abbrev cancelled : Time → RunStep → RunStep
cancelled now = with_step_status StepStatus.cancelled none (some now) cancel_msg

module _ (svc : Wiring) (now : Time) where
  stop-steps :
      (h : Option String) (w : World) → (stop_step_execution svc h w).1.run_steps ≡ w.run_steps
  unfolding stop_step_execution stop_execution call
  stop-steps none w = refl
  stop-steps (some h) w = ground arith

  -- A step that is open is cancelled, one that is closed is left alone.
  cancel_step-rows :
      (s : RunStep) (w v : World)
      → cancel_step svc now s w ≡ (ok tt, v)
      → ((is_closed s.status ≡ false)
          × (v.run_steps ≡ update_where (step_has_id s.id) (cancelled now) w.run_steps))
        ⊎ ((is_closed s.status ≡ true) × (v.run_steps ≡ w.run_steps))
  unfolding cancel_step update_run_step_status call
  cancel_step-rows s w v h = ground (arith, stop-steps s.container_id w)

  cancel_step-row :
      (s : RunStep) (w v : World) (j : Uuid) (x : RunStep)
      → cancel_step svc now s w ≡ (ok tt, v)
      → step_at w j ≡ some x
      → (y : RunStep) × (step_at v j ≡ some y)
        × (is_closed x.status ≡ true → is_closed y.status ≡ true)
        × (j ≡ s.id → is_closed s.status ≡ false → is_closed y.status ≡ true)
  unfolding step_at
  cancel_step-row s w v j x h found = elim (cancel_step-rows s w v h) [
    | inl (still_open, rows) ↦ (
      if j == s.id then cancelled now x else x,
      ap (find (step_has_id j)) rows
          ∙ find_step-update s.id j (cancelled now) (λ _. refl) w.run_steps x found,
      λ c. ground arith,
      λ e _. ground (arith, (==_iff j s.id).1 e),
    )
    | inr (closed, rows) ↦
        (x, ap (find (step_has_id j)) rows ∙ found, λ c. c, λ _ o. absurd (ground arith))
  ]

  -- What is closed already, or is an open step that the loop still meets, is closed at its end.
  pub loop-closes :
      (ss : List RunStep) (w v : World) (j : Uuid) (x : RunStep)
      → for_each ss (cancel_step svc now) w ≡ (ok tt, v)
      → step_at w j ≡ some x
      → (is_closed x.status ≡ true)
        ⊎ ((s : RunStep) × Elem s ss × (j ≡ s.id) × (is_closed s.status ≡ false))
      → (y : RunStep) × (step_at v j ≡ some y) × (is_closed y.status ≡ true)
  loop-closes [] w v j x h found (inl c) =
      (x, subst (λ u. step_at u j ≡ some x) (ap (λ p. p.1) h) found, c)
  loop-closes [] w v j x h found (inr (s, m, e, o)) = absurd m
  loop-closes (t ∷ ts) w v j x h found cause =
      bind_ends (cancel_step svc now t) _ w v tt h λ _ u one more.
        let (y, found', keeps, closes) = cancel_step-row t w u j x one found in
        loop-closes ts u v j y more found' (next y keeps closes cause)
    where
      next :
          (y : RunStep)
          → (is_closed x.status ≡ true → is_closed y.status ≡ true)
          → (j ≡ t.id → is_closed t.status ≡ false → is_closed y.status ≡ true)
          → (is_closed x.status ≡ true)
            ⊎ ((s : RunStep) × Elem s (t ∷ ts) × (j ≡ s.id) × (is_closed s.status ≡ false))
          → (is_closed y.status ≡ true)
            ⊎ ((s : RunStep) × Elem s ts × (j ≡ s.id) × (is_closed s.status ≡ false))
      next y keeps closes (inl c) = inl (keeps c)
      next y keeps closes (inr (s, inl same, e, o)) = inl (
          closes (e ∙ ap (λ (q : RunStep). q.id) same)
            (subst (λ (q : RunStep). is_closed q.status ≡ false) same o))
      next y keeps closes (inr (s, inr later, e, o)) = inr (s, later, e, o)
