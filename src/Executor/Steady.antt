-- ===== src/Executor/Steady.antt =====
-- Calls that return while the connection is up, and keep what an execution relies on: the statuses of
-- runs, which steps are stored, and their actions.
use hopeitworks.Prelude.{
  ◌≡◌, refl, sym, ap, ◌∙◌, Bool, true, false, Option, none, some, List, [], ◌∷◌, find, ◌==◌,
  Option-cases, inl, inr, if◌then◌else◌, arith,
}
use hopeitworks.Errors.{ok}
use hopeitworks.Action.Yields.{Yields}
use hopeitworks.Model.Status.{RunStatus, StepStatus}
use hopeitworks.Model.Entities.{Uuid, Time, ErrorText, Metadata, Run, RunStep}
use hopeitworks.World.{
  World, NoFaults, call, tick, run_at, step_at, run_has_id, step_has_id, update_where,
}
use hopeitworks.World.Rows.{find_step-update}
use hopeitworks.World.Stays.{Stays, Stays-trans, Keeps-Stays}
use hopeitworks.Repo.Runs.{
  get_run, get_run_step, list_run_steps_by_run, steps_of_run, update_run_status, with_status,
  update_run_step_status, with_step_status, update_run_metadata,
}
use hopeitworks.Repo.Quiet.{Quiet}
use hopeitworks.Executor.Failing.{update_run_metadata-Stays}

-- The same steps are stored, with the same actions.
abbrev pub SameActions : World → World → Type 0
SameActions v w =
    ((j : Uuid) (t : RunStep) → step_at v j ≡ some t → (u : RunStep) × (step_at w j ≡ some u))
    × ((j : Uuid) (u : RunStep)
        → step_at w j ≡ some u
        → (t : RunStep) × (step_at v j ≡ some t) × (t.action ≡ u.action))

abbrev pub Steady : World → World → Type 0
Steady v w = (w.faults ≡ v.faults) × Stays v w × SameActions v w

pub Steady-trans : (u v w : World) → Steady u v → Steady v w → Steady u w
Steady-trans u v w (f, s, (a, b)) (g, t, (c, d)) = (
  g ∙ f,
  Stays-trans u v w s t,
  (
    λ j x h. let (y, k) = a j x h in c j y k,
    λ j z h. let (y, k, e) = d j z h in let (x, l, e') = b j y k in (x, l, e' ∙ e),
  ),
)

pub same-Steady :
    (v w : World) → w.faults ≡ v.faults → Stays v w → w.run_steps ≡ v.run_steps → Steady v w
unfolding step_at
same-Steady v w f s h = (
  f,
  s,
  (
    λ j x k. (x, ap (find (step_has_id j)) h ∙ k),
    λ j x k. (x, ap (find (step_has_id j)) (sym h) ∙ k, refl),
  ),
)

pub Quiet-Steady : (v w : World) → Quiet v w → Steady v w
Quiet-Steady v w (a, b, c, d) = same-Steady v w d (Keeps-Stays v w a) b

pub NoFaults-Steady : (v w : World) → w.faults ≡ v.faults → NoFaults v → NoFaults w
NoFaults-Steady v w h up n = ap (λ f. f n) h ∙ up n

same_found : (o : Option RunStep) (t u : RunStep) → o ≡ some t → o ≡ some u → t ≡ u
same_found o t u h k = ground arith

pub metadata_only :
    (id : Uuid) (m : Metadata) (w : World)
    → ((update_run_metadata id m w).1.faults ≡ w.faults)
      × ((update_run_metadata id m w).1.run_steps ≡ w.run_steps)
unfolding update_run_metadata call
metadata_only id m w = ground arith

pub update_run_metadata-Steady :
    (id : Uuid) (m : Metadata) (w : World) → Steady w (update_run_metadata id m w).1
update_run_metadata-Steady id m w =
    let (f, h) = metadata_only id m w in
    same-Steady w (update_run_metadata id m w).1 f (update_run_metadata-Stays id m w) h

pub yields-get_run :
    (id : Uuid) (w : World) (r : Run)
    → NoFaults w
    → run_at w id ≡ some r
    → get_run id w ≡ (ok r, tick w)
unfolding get_run call run_at
yields-get_run id w r up found = ground (arith, up w.calls)

pub yields-get_run_step :
    (id : Uuid) (w : World) (s : RunStep)
    → NoFaults w
    → step_at w id ≡ some s
    → get_run_step id w ≡ (ok s, tick w)
unfolding get_run_step call step_at
yields-get_run_step id w s up found = ground (arith, up w.calls)

pub yields-list :
    (id : Uuid) (w : World)
    → NoFaults w
    → list_run_steps_by_run id w ≡ (ok (steps_of_run id w.run_steps), tick w)
unfolding list_run_steps_by_run call
yields-list id w up = ground (arith, up w.calls)

module _ (id : Uuid) (s : RunStatus) (a b c : Option Time) (x : Option ErrorText) where
  pub yields-update_run :
      (w : World) (q : Run)
      → NoFaults w
      → run_at w id ≡ some q
      → Yields (update_run_status id s a b c x) w λ r v.
        (r ≡ with_status s a b c x q)
        × (v.faults ≡ w.faults)
        × (v.run_steps ≡ w.run_steps)
        × (v.runs ≡ update_where (run_has_id id) (with_status s a b c x) w.runs)
  unfolding update_run_status call run_at
  yields-update_run w q up found = (
    with_status s a b c x q,
    record (tick w) { runs = update_where (run_has_id id) (with_status s a b c x) w.runs },
    ground (arith, up w.calls),
    (refl, refl, refl, refl),
  )

module _ (id : Uuid) (s : StepStatus) (a b : Option Time) (x : Option ErrorText) where
  pub yields-update_step :
      (w : World) (q : RunStep)
      → NoFaults w
      → step_at w id ≡ some q
      → Yields (update_run_step_status id s a b x) w λ t v.
        (t ≡ with_step_status s a b x q)
        × (v.faults ≡ w.faults)
        × (v.runs ≡ w.runs)
        × (v.run_steps ≡ update_where (step_has_id id) (with_step_status s a b x) w.run_steps)
  unfolding update_run_step_status call step_at
  yields-update_step w q up found = (
    with_step_status s a b x q,
    record (tick w) {
      run_steps = update_where (step_has_id id) (with_step_status s a b x) w.run_steps;
    },
    ground (arith, up w.calls),
    (refl, refl, refl, refl),
  )

  still_none :
      (j : Uuid) (ss : List RunStep)
      → find (step_has_id j) ss ≡ none
      → find (step_has_id j) (update_where (step_has_id id) (with_step_status s a b x) ss) ≡ none
  unfolding update_where
  still_none j [] h = refl
  still_none j (t ∷ ss) h = ground (arith, still_none j ss)

  action_kept :
      (d : Bool) (t : RunStep) → (if d then with_step_status s a b x t else t).action ≡ t.action
  action_kept true t = refl
  action_kept false t = refl

  own_row :
      (q : RunStep)
      → some (if id == id then with_step_status s a b x q else q)
        ≡ some (with_step_status s a b x q)
  own_row q = ground arith

  back :
      (j : Uuid) (ss : List RunStep) (u : RunStep)
      → find (step_has_id j) (update_where (step_has_id id) (with_step_status s a b x) ss) ≡ some u
      → (t : RunStep) × (find (step_has_id j) ss ≡ some t) × (t.action ≡ u.action)
  back j ss u h = elim (Option-cases (find (step_has_id j) ss)) [
    | inl n ↦ absurd (ground (arith, still_none j ss n))
    | inr (t, f) ↦
        let k = find_step-update id j (with_step_status s a b x) (λ _. refl) ss t f in
        (
          t,
          f,
          sym (action_kept (j == id) t) ∙ ap (λ (z : RunStep). z.action) (same_found _ _ _ k h),
        )
  ]

  pub updated-Steady :
      (v w : World)
      → w.faults ≡ v.faults
      → w.runs ≡ v.runs
      → w.run_steps ≡ update_where (step_has_id id) (with_step_status s a b x) v.run_steps
      → Steady v w
  unfolding step_at
  updated-Steady v w f rs h = (
    f,
    Keeps-Stays v w rs,
    (
      λ j t k. (
        if j == id then with_step_status s a b x t else t,
        ap (find (step_has_id j)) h
            ∙ find_step-update id j (with_step_status s a b x) (λ _. refl) v.run_steps t k,
      ),
      λ j u k. back j v.run_steps u (ap (find (step_has_id j)) (sym h) ∙ k),
    ),
  )

  -- The update of a step, with the row it returns.
  pub yields-step :
      (w : World) (q : RunStep)
      → NoFaults w
      → step_at w id ≡ some q
      → Yields (update_run_step_status id s a b x) w λ t v.
        Steady w v
        × (step_at v id ≡ some t)
        × (t.status ≡ s)
        × (t.id ≡ q.id)
        × (t.action ≡ q.action)
  unfolding step_at
  yields-step w q up found =
      let (t, v, ran, (same, f, rs, h)) = yields-update_step w q up found in
      (
        t,
        v,
        ran,
        (
          updated-Steady w v f rs h,
          ap (find (step_has_id id)) h
              ∙ find_step-update id id (with_step_status s a b x) (λ _. refl) w.run_steps q found
              ∙ own_row q
              ∙ ap some (sym same),
          ap (λ (z : RunStep). z.status) same,
          ap (λ (z : RunStep). z.id) same,
          ap (λ (z : RunStep). z.action) same,
        ),
      )
