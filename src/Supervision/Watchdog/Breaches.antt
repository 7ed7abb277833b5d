-- ===== src/Supervision/Watchdog/Breaches.antt =====
-- When the watchdog acts.
use hopeitworks.Prelude.{
  ◌≡◌, refl, sym, ap, ◌∙◌, subst, ℕ, ◌+◌, String, Bool, true, false, Option, none, some, List, [],
  ◌∷◌, find, ◌⊎◌, inl, inr, ◌==◌, ==_iff, Elem, if◌then◌else◌, arith,
}
use hopeitworks.Errors.{Result, ok, err}
use hopeitworks.Action.{and_then, caught}
use hopeitworks.Action.Yields.{Yields, yields_bind, yields_pure, yields_caught}
use hopeitworks.Model.Config.{Guard, PipelineConfigYaml}
use hopeitworks.Model.Entities.{Uuid, Time, HaltReason, PipelineConfigRow}
use hopeitworks.World.{World, call}
use hopeitworks.Repo.Rows.{get_pipeline_config}
use hopeitworks.Hitl
use hopeitworks.Supervision.Idle.{at, Idle, bind-Idle}
use hopeitworks.Supervision.Watchdog.{
  RunningStep, CachedConfig, cached, parsed, fetched_config, fetch_unless, pipeline_config,
  guards_in, running_rows, list_running_steps, evaluate, act_unless, check_guards, check_steps,
  check,
}
use hopeitworks.Supervision.Watchdog.Evaluating.{Breached, Evaluated, evaluate-Yields}

-- The stored configuration of the step's project gives the step this guard.
abbrev pub Configured : World → RunningStep → Guard → Type 0
Configured w s g =
    (row : PipelineConfigRow) × (find (λ (c : PipelineConfigRow). c.project_id == s.project_id)
        w.pipeline_configs
      ≡ some row)
    × Elem g (guards_in (parsed row.config) s)

module _ (svc : Hitl.Wiring) (printed : HaltReason → String) (last_log : Uuid → Option Time)
    (costs : Uuid → ℕ) (w : World) where
  abbrev ConfigOf : Uuid → PipelineConfigYaml → Type 0
  ConfigOf p cfg =
      (row : PipelineConfigRow) × (find (λ (c : PipelineConfigRow). c.project_id == p)
          w.pipeline_configs
        ≡ some row)
      × (parsed row.config ≡ some cfg)

  -- A cache that holds what is stored.
  abbrev Holds : List CachedConfig → Type 0
  Holds cache =
      (p : Uuid) (cfg : PipelineConfigYaml) → cached p cache ≡ some (some cfg) → ConfigOf p cfg

  abbrev Found : Uuid → Option PipelineConfigYaml × List CachedConfig → World → Type 0
  Found p found v =
      ((m : ℕ) × (v ≡ at w m))
      × Holds found.1
      × ((cfg : PipelineConfigYaml) → found.0 ≡ some cfg → ConfigOf p cfg)

  row_known :
      (p : Uuid) (n : ℕ) (row : PipelineConfigRow)
      → (get_pipeline_config p (at w n)).0 ≡ ok row
      → find (λ (c : PipelineConfigRow). c.project_id == p) w.pipeline_configs ≡ some row
  unfolding get_pipeline_config call
  row_known p n row h = ground arith

  fetched :
      (p : Uuid) (n : ℕ) (cfg : PipelineConfigYaml)
      → fetched_config (get_pipeline_config p (at w n)).0 ≡ some cfg
      → ConfigOf p cfg
  fetched p n cfg h = go (get_pipeline_config p (at w n)).0 refl h
    where
      go :
          (r : Result PipelineConfigRow)
          → (get_pipeline_config p (at w n)).0 ≡ r
          → fetched_config r ≡ some cfg
          → ConfigOf p cfg
      go (err x) e k = absurd (ground arith)
      go (ok row) e k = (row, row_known p n row e, k)

  fetch_state : (p : Uuid) (n : ℕ) → (m : ℕ) × ((get_pipeline_config p (at w n)).1 ≡ at w m)
  unfolding get_pipeline_config call
  fetch_state p n = (n + 1, ground arith)

  added-Holds :
      (p : Uuid) (o : Option PipelineConfigYaml) (cache : List CachedConfig)
      → Holds cache
      → ((cfg : PipelineConfigYaml) → o ≡ some cfg → ConfigOf p cfg)
      → Holds (record { project_id = p; cfg = o } ∷ cache)
  added-Holds p o cache old new q cfg h = go (p == q) refl h
    where
      go :
          (b : Bool)
          → (p == q) ≡ b
          → (if b then some o else cached q cache) ≡ some (some cfg)
          → ConfigOf q cfg
      go true e k = subst (λ r. ConfigOf r cfg) ((==_iff p q).0 e) (new cfg (ground arith))
      go false e k = old q cfg k

  fetch-Found :
      (p : Uuid) (cache : List CachedConfig) (n : ℕ)
      → Holds cache
      → (o : Option (Option PipelineConfigYaml)) → cached p cache ≡ o
      → Yields (fetch_unless p cache o) (at w n) (Found p)
  unfolding fetch_unless
  fetch-Found p cache n holds (some cfg) e =
      yields_pure (Found p) (cfg, cache) (at w n)
        ((n, refl), holds, λ c h. holds p c (e ∙ ap some h))
  fetch-Found p cache n holds none e =
      let r = (get_pipeline_config p (at w n)).0 in
      yields_bind (λ c v. ((m : ℕ) × (v ≡ at w m)) × (c ≡ r)) (Found p)
        (caught (get_pipeline_config p)) _ (at w n)
        (yields_caught (λ c v. ((m : ℕ) × (v ≡ at w m)) × (c ≡ r)) _ (at w n)
          (fetch_state p n, refl))
        λ c v known.
          let new = λ (cfg : PipelineConfigYaml) (h : fetched_config c ≡ some cfg).
            fetched p n cfg (ap fetched_config (sym known.1) ∙ h) in
          yields_pure (Found p) _ v (known.0, added-Holds p (fetched_config c) cache holds new, new)

  -- A listed step with a guard of its configuration that it has exceeded.
  abbrev Acts : Type 0
  Acts =
      (s : RunningStep) × (g : Guard) × Elem s
        (running_rows svc printed last_log costs w.runs w.run_steps)
      × Configured w s g
      × Breached costs w.clock s g

  guards-Idle :
      (s : RunningStep) (gs : List Guard) (n : ℕ)
      → Elem s (running_rows svc printed last_log costs w.runs w.run_steps)
      → ((g : Guard) → Elem g gs → Configured w s g)
      → Idle w (check_guards svc printed last_log costs s gs w.clock (at w n)) ⊎ Acts
  unfolding check_guards act_unless
  guards-Idle s [] n listed conf = inl (n, refl)
  guards-Idle s (g ∷ gs) n listed conf =
      bind-Idle w Acts (Evaluated costs w s g) (evaluate svc printed last_log costs s g w.clock) _
        (at w n) (evaluate-Yields svc printed last_log costs w s g n)
        λ o v known. go (λ m. guards-Idle s gs m listed λ h i. conf h (inr i)) o v known
    where
      go :
          ((m : ℕ) → Idle w (check_guards svc printed last_log costs s gs w.clock (at w m)) ⊎ Acts)
          → (o : Option HaltReason) (v : World) → Evaluated costs w s g o v
          → Idle w (
              act_unless svc printed last_log costs s g
                (check_guards svc printed last_log costs s gs w.clock)
                o
                v)
            ⊎ Acts
      go rest none v ((m, e), _) =
          subst (λ u. Idle w (check_guards svc printed last_log costs s gs w.clock u) ⊎ Acts)
            (sym e) (rest m)
      go rest (some x) v (_, breach) = inr (s, g, listed, conf g (inl refl), breach x refl)

  configured :
      (s : RunningStep) (cfg : Option PipelineConfigYaml)
      → ((c : PipelineConfigYaml) → cfg ≡ some c → ConfigOf s.project_id c)
      → (g : Guard) → Elem g (guards_in cfg s)
      → Configured w s g
  configured s none known g i = absurd i
  configured s (some c) known g i =
      let (row, found, same) = known c refl in
      (row, found, subst (λ o. Elem g (guards_in o s)) (sym same) i)

  steps-Idle :
      (ss : List RunningStep) (cache : List CachedConfig) (n : ℕ)
      → Holds cache
      → ((s : RunningStep)
          → Elem s ss
          → Elem s (running_rows svc printed last_log costs w.runs w.run_steps))
      → Idle w (check_steps svc printed last_log costs ss w.clock cache (at w n)) ⊎ Acts
  unfolding check_steps pipeline_config
  steps-Idle [] cache n holds listed = inl (n, refl)
  steps-Idle (s ∷ ss) cache n holds listed =
      bind-Idle w Acts (Found s.project_id) (pipeline_config s.project_id cache) _ (at w n)
        (fetch-Found s.project_id cache n holds (cached s.project_id cache) refl)
        λ found v ((m, e), holds', known).
          elim (guards-Idle s (guards_in found.0 s) m (listed s (inl refl))
            (configured s found.0 known)) [
              | inr acts ↦ inr acts
              | inl (k, idle) ↦
                  bind-Idle w Acts (λ _ u. u ≡ at w k)
                    (check_guards svc printed last_log costs s (guards_in found.0 s) w.clock) _ v
                    (
                      tt,
                      at w k,
                      ap (check_guards svc printed last_log costs s (guards_in found.0 s) w.clock) e
                          ∙ idle,
                      refl,
                    )
                    λ _ u same.
                      subst
                        (λ z.
                          Idle w (check_steps svc printed last_log costs ss w.clock found.1 z)
                          ⊎ Acts)
                        (sym same) (steps-Idle ss found.1 k holds' λ q i. listed q (inr i))
            ]

  listing :
      (r : Result (List RunningStep)) (v : World)
      → list_running_steps svc printed last_log costs w ≡ (r, v)
      → (v ≡ at w (w.calls + 1))
        × ((ss : List RunningStep)
            → r ≡ ok ss
            → ss ≡ running_rows svc printed last_log costs w.runs w.run_steps)
  unfolding list_running_steps call
  listing r v h = ground arith

  scan_after :
      (r : Result (List RunningStep)) (v : World)
      → v ≡ at w (w.calls + 1)
      → ((ss : List RunningStep)
          → r ≡ ok ss
          → ss ≡ running_rows svc printed last_log costs w.runs w.run_steps)
      → ((n : ℕ) × ((and_then r v λ ss u. check_steps svc printed last_log costs ss u.clock [] u).1
            ≡ at w n))
        ⊎ Acts
  scan_after (err x) v e rows = inl (w.calls + 1, e)
  scan_after (ok ss) v e rows =
      subst
        (λ u.
          ((n : ℕ) × ((check_steps svc printed last_log costs ss u.clock [] u).1 ≡ at w n)) ⊎ Acts)
        (sym e)
        (elim (steps-Idle ss [] (w.calls + 1) (λ p cfg h. absurd (ground arith))
          λ s i. subst (Elem s) (rows ss refl) i) [
            | inl (n, idle) ↦ inl (n, ap (λ (o : Result (Unit {0}) × World). o.1) idle)
            | inr acts ↦ inr acts
          ])

-- A scan of the watchdog that finds no breach is only a reading: whichever calls fail, either
-- nothing but the count of calls has changed, or a step that is running in a running run has exceeded
-- the limit, which is above zero, of a guard that the stored configuration of its project gives it.
pub acts_on_breach :
    (svc : Hitl.Wiring) (printed : HaltReason → String) (last_log : Uuid → Option Time)
    (costs : Uuid → ℕ) (w : World)
    → ((n : ℕ) × ((check svc printed last_log costs w).1 ≡ record w { calls = n }))
      ⊎ ((s : RunningStep) × (g : Guard) × Elem s
            (running_rows svc printed last_log costs w.runs w.run_steps)
          × Configured w s g
          × Breached costs w.clock s g)
unfolding check
acts_on_breach svc printed last_log costs w =
    let o = list_running_steps svc printed last_log costs w in
    let (e, rows) = listing svc printed last_log costs w o.0 o.1 refl in
    scan_after svc printed last_log costs w o.0 o.1 e rows
