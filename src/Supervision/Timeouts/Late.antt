-- ===== src/Supervision/Timeouts/Late.antt =====
-- When the timeout enforcer acts.
use hopeitworks.Prelude.{
  ◌≡◌, refl, sym, ap, ◌∙◌, subst, ℕ, ◌+◌, ◌-◌, ◌<◌, String, ◌||◌, Option, none, some, List, [], ◌∷◌,
  ◌⊎◌, inl, inr, leb, ltb, ◌=s=◌, Bool-cases, Elem, arith,
}
use hopeitworks.Errors.{Result, ok, err}
use hopeitworks.Action.{for_each, caught}
use hopeitworks.Action.Yields.{Yields, yields_bind, yields_pure, yields_caught}
use hopeitworks.Model.Entities.{Uuid, Time, Run, RunStep, Project}
use hopeitworks.World.{World, call, run_at, step_at, project_at}
use hopeitworks.Repo.Runs.{get_run, get_run_step}
use hopeitworks.Repo.Rows.{get_project}
use hopeitworks.Supervision.Idle.{at, Idle, bind-Idle}
use hopeitworks.Supervision.Timeouts.{
  ContainerInfo, set_timeout, project_timeout, run_timeout, get_timeout, stop_unless, check_started,
  check_step, check_ids, check_container, check_timeouts,
}

module _ (parse : String → Option Uuid) (default_timeout : Time) (w : World) where
  -- The default, or the timeout that the run's project sets.
  abbrev pub IsLimit : Uuid → Time → Type 0
  IsLimit run_id l =
      (l ≡ default_timeout)
      ⊎ ((r : Run) × (p : Project) × (run_at w run_id ≡ some r)
          × (project_at w r.project_id ≡ some p)
          × (p.max_container_timeout ≡ some l)
          × (0 < l))

  -- The container's labels name a run and a stored step that has run for longer than a limit.
  pub record IsLate (c : ContainerInfo) : Type 0 where
    pub run_id : Uuid
    pub step_id : Uuid
    pub step : RunStep
    pub started : Time
    pub limit : Time
    pub of_run : parse c.run_id ≡ some run_id
    pub of_step : parse c.step_id ≡ some step_id
    pub stored : step_at w step_id ≡ some step
    pub has_started : step.started_at ≡ some started
    pub is_limit : IsLimit run_id limit
    pub late : started + limit < w.clock

  abbrev Read : {A : Type 0} → (A → Type 0) → A → World → Type 0
  Read P a v = ((m : ℕ) × (v ≡ at w m)) × P a

  run_read :
      (id : Uuid) (n : ℕ)
      → ((m : ℕ) × ((get_run id (at w n)).1 ≡ at w m))
        × ((r : Run) → (get_run id (at w n)).0 ≡ ok r → run_at w id ≡ some r)
  unfolding get_run call run_at
  run_read id n = ((n + 1, ground arith), λ r h. ground arith)

  project_read :
      (id : Uuid) (n : ℕ)
      → ((m : ℕ) × ((get_project id (at w n)).1 ≡ at w m))
        × ((p : Project) → (get_project id (at w n)).0 ≡ ok p → project_at w id ≡ some p)
  unfolding get_project call project_at
  project_read id n = ((n + 1, ground arith), λ r h. ground arith)

  step_read :
      (id : Uuid) (n : ℕ)
      → ((m : ℕ) × ((get_run_step id (at w n)).1 ≡ at w m))
        × ((s : RunStep) → (get_run_step id (at w n)).0 ≡ ok s → step_at w id ≡ some s)
  unfolding get_run_step call step_at
  step_read id n = ((n + 1, ground arith), λ r h. ground arith)

  project-IsLimit :
      (run_id : Uuid) (r : Run)
      → run_at w run_id ≡ some r
      → (o : Result Project) → ((p : Project) → o ≡ ok p → project_at w r.project_id ≡ some p)
      → IsLimit run_id (project_timeout parse default_timeout o)
  project-IsLimit run_id r found (err x) h = inl refl
  project-IsLimit run_id r found (ok p) h = of_setting p.max_container_timeout refl
    where
      of_setting :
          (t : Option Time)
          → p.max_container_timeout ≡ t
          → IsLimit run_id (set_timeout parse default_timeout t)
      of_setting none e = inl refl
      of_setting (some t) e = elim (Bool-cases (ltb 0 t)) [
        | inl set ↦ rw set (inr (r, p, found, h p refl, e, ground arith))
        | inr unset ↦ rw unset (inl refl)
      ]

  run_timeout-Yields :
      (run_id : Uuid) (o : Result Run) (n : ℕ)
      → ((r : Run) → o ≡ ok r → run_at w run_id ≡ some r)
      → Yields (run_timeout parse default_timeout o) (at w n) (Read (IsLimit run_id))
  unfolding run_timeout
  run_timeout-Yields run_id (err x) n h =
      yields_pure (Read (IsLimit run_id)) default_timeout (at w n) ((n, refl), inl refl)
  run_timeout-Yields run_id (ok r) n h =
      let (state, known) = project_read r.project_id n in
      let o = (get_project r.project_id (at w n)).0 in
      yields_bind (Read (λ p. p ≡ o)) (Read (IsLimit run_id)) (caught (get_project r.project_id)) _
        (at w n)
        (yields_caught (Read (λ p. p ≡ o)) (get_project r.project_id) (at w n) (state, refl))
        λ p v (there, same).
          yields_pure (Read (IsLimit run_id)) (project_timeout parse default_timeout p) v
            (there, project-IsLimit run_id r (h r refl) p λ q e. known q (sym same ∙ e))

  get_timeout-Yields :
      (run_id : Uuid) (n : ℕ)
      → Yields (get_timeout parse default_timeout run_id) (at w n) (Read (IsLimit run_id))
  unfolding get_timeout
  get_timeout-Yields run_id n =
      let (state, known) = run_read run_id n in
      let o = (get_run run_id (at w n)).0 in
      yields_bind (Read (λ r. r ≡ o)) (Read (IsLimit run_id)) (caught (get_run run_id)) _ (at w n)
        (yields_caught (Read (λ r. r ≡ o)) (get_run run_id) (at w n) (state, refl))
        λ r v ((m, e), same).
          subst (λ u. Yields (run_timeout parse default_timeout r) u (Read (IsLimit run_id)))
            (sym e) (run_timeout-Yields run_id r m λ q h. known q (sym same ∙ h))

  module _ (c : ContainerInfo) (run_id step_id : Uuid) (of_run : parse c.run_id ≡ some run_id)
      (of_step : parse c.step_id ≡ some step_id) where
    started-Idle :
        (s : RunStep) (o : Option Time) (n : ℕ)
        → step_at w step_id ≡ some s
        → s.started_at ≡ o
        → Idle w (check_started parse default_timeout c.id run_id step_id o (at w n)) ⊎ IsLate c
    unfolding check_started stop_unless
    started-Idle s none n stored e = inl (n, refl)
    started-Idle s (some t) n stored e =
        bind-Idle w (IsLate c) (Read (IsLimit run_id)) (get_timeout parse default_timeout run_id) _
          (at w n) (get_timeout-Yields run_id n)
          λ l v ((m, same), limit). rw same (elim (Bool-cases (leb (w.clock - t) l)) [
            | inl in_time ↦ rw in_time (inl (m, refl))
            | inr exceeded ↦ inr (record {
              run_id = run_id;
              step_id = step_id;
              step = s;
              started = t;
              limit = l;
              of_run = of_run;
              of_step = of_step;
              stored = stored;
              has_started = e;
              is_limit = limit;
              late = ground arith;
            })
          ])

    step-Idle :
        (o : Result RunStep) (n : ℕ)
        → ((s : RunStep) → o ≡ ok s → step_at w step_id ≡ some s)
        → Idle w (check_step parse default_timeout c.id run_id step_id o (at w n)) ⊎ IsLate c
    unfolding check_step
    step-Idle (err x) n h = inl (n, refl)
    step-Idle (ok s) n h = started-Idle s s.started_at n (h s refl) refl

  ids-Idle :
      (c : ContainerInfo) (r s : Option Uuid) (n : ℕ)
      → parse c.run_id ≡ r
      → parse c.step_id ≡ s
      → Idle w (check_ids parse default_timeout c.id r s (at w n)) ⊎ IsLate c
  unfolding check_ids
  ids-Idle c none s n e f = inl (n, refl)
  ids-Idle c (some r) none n e f = inl (n, refl)
  ids-Idle c (some r) (some s) n e f =
      let (state, known) = step_read s n in
      let o = (get_run_step s (at w n)).0 in
      bind-Idle w (IsLate c) (Read (λ q. q ≡ o)) (caught (get_run_step s)) _ (at w n)
        (yields_caught (Read (λ q. q ≡ o)) (get_run_step s) (at w n) (state, refl))
        λ q v ((m, there), same).
          subst (λ u. Idle w (check_step parse default_timeout c.id r s q u) ⊎ IsLate c) (sym there)
            (step-Idle c r s e f q m λ x h. known x (sym same ∙ h))

  container-Idle :
      (c : ContainerInfo) (n : ℕ)
      → Idle w (check_container parse default_timeout c (at w n)) ⊎ IsLate c
  unfolding check_container
  container-Idle c n = elim (Bool-cases (c.run_id =s= "" || c.step_id =s= "")) [
    | inl unlabelled ↦ rw unlabelled (inl (n, refl))
    | inr labelled ↦ rw labelled (ids-Idle c (parse c.run_id) (parse c.step_id) n refl refl)
  ]

  abbrev SomeLate : List ContainerInfo → Type 0
  SomeLate cs = (c : ContainerInfo) × Elem c cs × IsLate c

  all-Idle :
      (cs : List ContainerInfo) (n : ℕ)
      → Idle w (for_each cs (check_container parse default_timeout) (at w n)) ⊎ SomeLate cs
  all-Idle [] n = inl (n, refl)
  all-Idle (c ∷ cs) n = elim (container-Idle c n) [
    | inr late ↦ inr (c, inl refl, late)
    | inl (m, idle) ↦
        bind-Idle w (SomeLate (c ∷ cs)) (λ _ u. u ≡ at w m)
          (check_container parse default_timeout c) _ (at w n) (tt, at w m, idle, refl)
          λ _ u same.
            rw same (elim (all-Idle cs m) [
              | inl fine ↦ inl fine
              | inr (d, i, late) ↦ inr (d, inr i, late)
            ])
  ]

-- The timeout enforcer reads until it finds a container that runs too long: whichever calls fail,
-- either nothing but the count of calls has changed, or the listing succeeded and holds a container
-- whose labels name a run and a stored step that has run for longer than the default timeout or than
-- the positive timeout that the run's project sets.
pub acts_on_timeout :
    (parse : String → Option Uuid) (default_timeout : Time) (w : World)
    (listing : Result (List ContainerInfo))
    → ((n : ℕ) × ((check_timeouts parse default_timeout listing w).1 ≡ record w { calls = n }))
      ⊎ ((cs : List ContainerInfo) × (listing ≡ ok cs)
          × (c : ContainerInfo) × Elem c cs
          × IsLate parse default_timeout w c)
unfolding check_timeouts
acts_on_timeout parse default_timeout w (err x) = inl (w.calls, refl)
acts_on_timeout parse default_timeout w (ok cs) =
    elim (all-Idle parse default_timeout w cs w.calls) [
      | inl (n, idle) ↦ inl (n, ap (λ (o : Result (Unit {0}) × World). o.1) idle)
      | inr (c, i, late) ↦ inr (cs, refl, c, i, late)
    ]
