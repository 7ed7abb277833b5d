-- ===== src/Supervision/Watchdog/Evaluating.antt =====
-- When a guard is breached.
use hopeitworks.Prelude.Int.{pos_part}
use hopeitworks.Prelude.{
  ◌≡◌, refl, sym, ap, ◌∙◌, ℕ, ◌+◌, ◌*◌, ◌<◌, String, Bool, true, false, Option, none, some, ◌==◌,
  ◌=s=◌, =s=→≡, ≡→=s=, ◌↔◌, if◌then◌else◌, arith,
}
use hopeitworks.Errors.{ok}
use hopeitworks.Action.{◌>>=◌, pure, caught}
use hopeitworks.Action.Yields.{Yields, yields_bind, yields_pure, yields_caught, yields_if}
use hopeitworks.Model.Config.{Guard}
use hopeitworks.Model.Entities.{Uuid, Time, HaltReason}
use hopeitworks.World.{World, NoFaults, call, coalesce}
use hopeitworks.Hitl
use hopeitworks.Supervision.Idle.{at}
use hopeitworks.Supervision.Watchdog.{RunningStep, over, past, cost_over, sum_cost_by_run, evaluate}

-- The limit of a guard is set and the step has exceeded it: too long since the last log, or since the
-- start where there is no log yet; too long since the start; or too high costs of the run.
pub data Breached (costs : Uuid → ℕ) (now : Time) (s : RunningStep) (g : Guard) : Type 0 where
  silent :
      (t : Time)
      → g.kind ≡ "log_silence"
      → 0 < pos_part g.threshold
      → coalesce s.last_log_at s.started_at ≡ some t
      → t + pos_part g.threshold * 1000000 < now
      → Breached costs now s g
  slow :
      (t : Time)
      → g.kind ≡ "wallclock"
      → 0 < pos_part g.max
      → s.started_at ≡ some t
      → t + pos_part g.max < now
      → Breached costs now s g
  costly :
      g.kind ≡ "cost_batch"
      → 0 < pos_part g.max
      → pos_part g.max < costs s.run_id
      → Breached costs now s g

over_limit :
    (g : Guard) (observed limit : ℕ) (unit : String) (x : HaltReason)
    → over g observed limit unit ≡ some x
    → limit < observed
over_limit g observed limit unit x h = ground arith

past_limit :
    (g : Guard) (now : Time) (o : Option Time) (limit : ℕ) (x : HaltReason)
    → past g now o limit ≡ some x
    → (t : Time) × (o ≡ some t) × (t + limit < now)
past_limit g now none limit x h = absurd (ground arith)
past_limit g now (some t) limit x h =
    let l = over_limit g _ limit "seconds" x h in (t, refl, omega arith)

abbrev pub Evaluated : (Uuid → ℕ) → World → RunningStep → Guard → Option HaltReason → World → Type 0
Evaluated costs w s g o v =
    ((m : ℕ) × (v ≡ at w m)) × ((x : HaltReason) → o ≡ some x → Breached costs w.clock s g)

module _ (svc : Hitl.Wiring) (printed : HaltReason → String) (last_log : Uuid → Option Time)
    (costs : Uuid → ℕ) (w : World) where
  no_reason : (s : RunningStep) (g : Guard) (n : ℕ) → Evaluated costs w s g none (at w n)
  no_reason s g n = ((n, refl), λ x h. absurd (ground arith))

  silence-Evaluated :
      (s : RunningStep) (g : Guard) (n : ℕ)
      → g.kind ≡ "log_silence"
      → (b : Bool) → (pos_part g.threshold == 0) ≡ b
      → Evaluated costs w s g
          (if b
            then none
            else past g w.clock
                (coalesce s.last_log_at s.started_at)
                (pos_part g.threshold * 1000000))
          (at w n)
  silence-Evaluated s g n k true e = no_reason s g n
  silence-Evaluated s g n k false e = (
    (n, refl),
    λ x h.
        let (t, from, late) = past_limit g w.clock _ _ x h in silent t k (ground arith) from late,
  )

  wallclock-Evaluated :
      (s : RunningStep) (g : Guard) (n : ℕ)
      → g.kind ≡ "wallclock"
      → (b : Bool) → (pos_part g.max == 0) ≡ b
      → Evaluated costs w s g
          (if b then none else past g w.clock s.started_at (pos_part g.max))
          (at w n)
  wallclock-Evaluated s g n k true e = no_reason s g n
  wallclock-Evaluated s g n k false e = (
    (n, refl),
    λ x h. let (t, from, late) = past_limit g w.clock _ _ x h in slow t k (ground arith) from late,
  )

  cost_known :
      (g : Guard) (s : RunningStep) (n : ℕ) (x : HaltReason)
      → cost_over g (sum_cost_by_run svc printed last_log costs s.run_id (at w n)).0 ≡ some x
      → pos_part g.max < costs s.run_id
  unfolding sum_cost_by_run call
  cost_known g s n x h = ground arith

  cost_state :
      (s : RunningStep) (n : ℕ)
      → (m : ℕ) × ((sum_cost_by_run svc printed last_log costs s.run_id (at w n)).1 ≡ at w m)
  unfolding sum_cost_by_run call
  cost_state s n = (n + 1, ground arith)

  cost-Yields :
      (s : RunningStep) (g : Guard) (n : ℕ)
      → g.kind ≡ "cost_batch"
      → (pos_part g.max == 0) ≡ false
      → Yields
          (caught (sum_cost_by_run svc printed last_log costs s.run_id) >>= λ c.
            pure (cost_over g c))
          (at w n)
          (Evaluated costs w s g)
  cost-Yields s g n k e =
      let o = sum_cost_by_run svc printed last_log costs s.run_id (at w n) in
      yields_bind (λ c v. ((m : ℕ) × (v ≡ at w m)) × (c ≡ o.0)) (Evaluated costs w s g)
        (caught (sum_cost_by_run svc printed last_log costs s.run_id)) (λ c. pure (cost_over g c))
        (at w n)
        (yields_caught (λ c v. ((m : ℕ) × (v ≡ at w m)) × (c ≡ o.0)) _ (at w n)
          (cost_state s n, refl))
        λ c v known. yields_pure (Evaluated costs w s g) (cost_over g c) v (
          known.0,
          λ x h. costly k (ground arith) (cost_known g s n x (ap (cost_over g) (sym known.1) ∙ h)),
        )

  pub evaluate-Yields :
      (s : RunningStep) (g : Guard) (n : ℕ)
      → Yields (evaluate svc printed last_log costs s g w.clock) (at w n) (Evaluated costs w s g)
  unfolding evaluate
  evaluate-Yields s g n =
      yields_if (g.kind =s= "log_silence") _ _ (Evaluated costs w s g) (at w n)
        (λ a.
          yields_pure (Evaluated costs w s g) _ (at w n)
            (silence-Evaluated s g n (=s=→≡ g.kind _ a) (pos_part g.threshold == 0) refl))
        λ _.
          yields_if (g.kind =s= "wallclock") _ _ (Evaluated costs w s g) (at w n)
            (λ a.
              yields_pure (Evaluated costs w s g) _ (at w n)
                (wallclock-Evaluated s g n (=s=→≡ g.kind _ a) (pos_part g.max == 0) refl))
            λ _.
              yields_if (g.kind =s= "cost_batch") _ _ (Evaluated costs w s g) (at w n)
                (λ a.
                  yields_if (pos_part g.max == 0) _ _ (Evaluated costs w s g) (at w n)
                    (λ _. yields_pure (Evaluated costs w s g) none (at w n) (no_reason s g n))
                    λ e. cost-Yields s g n (=s=→≡ g.kind _ a) e)
                λ _. yields_pure (Evaluated costs w s g) none (at w n) (no_reason s g n)

over_above :
    (g : Guard) (observed limit : ℕ) (unit : String)
    → limit < observed
    → (x : HaltReason) × (over g observed limit unit ≡ some x)
over_above g observed limit unit h = (
  record {
    probe = g.kind;
    on_fail = g.on_fail;
    observed = observed;
    threshold = limit;
    unit = unit;
    detail = "";
  },
  ground arith,
)

past_above :
    (g : Guard) (now t : Time) (o : Option Time) (limit : ℕ)
    → o ≡ some t
    → t + limit < now
    → (x : HaltReason) × (past g now o limit ≡ some x)
past_above g now t none limit e h = absurd (ground arith)
past_above g now t (some u) limit e h = over_above g _ limit "seconds" (ground arith)

is_kind : (g : Guard) (kind : String) → g.kind ≡ kind → (g.kind =s= kind) ≡ true
is_kind g kind k = ≡→=s= g.kind kind k

wallclock_no_silence : (g : Guard) → g.kind ≡ "wallclock" → (g.kind =s= "log_silence") ≡ false
unfolding ◌=s=◌
wallclock_no_silence g k = ap (λ kind. kind =s= "log_silence") k

cost_no_time :
    (g : Guard)
    → g.kind ≡ "cost_batch"
    → ((g.kind =s= "log_silence") ≡ false) × ((g.kind =s= "wallclock") ≡ false)
unfolding ◌=s=◌
cost_no_time g k = (ap (λ kind. kind =s= "log_silence") k, ap (λ kind. kind =s= "wallclock") k)

module _ (svc : Hitl.Wiring) (printed : HaltReason → String) (last_log : Uuid → Option Time)
    (costs : Uuid → ℕ) (w : World) where
  Noticed : RunningStep → Guard → Type 0
  Noticed s g =
      (x : HaltReason) × ((evaluate svc printed last_log costs s g w.clock w).0 ≡ ok (some x))

  breach-Noticed :
      (s : RunningStep) (g : Guard) → NoFaults w → Breached costs w.clock s g → Noticed s g
  unfolding evaluate Noticed sum_cost_by_run call caught
  breach-Noticed s g up (silent t k pos from late) =
      let (x, e) = past_above g w.clock t _ _ from late in (x, ground (arith, is_kind g _ k, e))
  breach-Noticed s g up (slow t k pos from late) =
      let (x, e) = past_above g w.clock t _ _ from late in
      (x, ground (arith, wallclock_no_silence g k, is_kind g _ k, e))
  breach-Noticed s g up (costly k pos above) =
      let (x, e) = over_above g _ _ "usd" above in
      (x, ground (arith, cost_no_time g k, is_kind g _ k, e, up w.calls))

noticed-Breached :
    (svc : Hitl.Wiring) (printed : HaltReason → String) (last_log : Uuid → Option Time)
    (costs : Uuid → ℕ) (w : World) (s : RunningStep) (g : Guard) (x : HaltReason)
    → (evaluate svc printed last_log costs s g w.clock w).0 ≡ ok (some x)
    → Breached costs w.clock s g
noticed-Breached svc printed last_log costs w s g x h =
    let (o, v, e, (_, breach)) = evaluate-Yields svc printed last_log costs w s g w.calls in
    breach x (ground (arith, e))

-- On a connection without faults the evaluation of a guard returns a reason just if the guard is
-- breached: its limit is above zero, and the time since the last log (the start where there is no log),
-- the time since the start or the costs of the run, as its kind says, are above the limit. A guard of
-- another kind is never breached.
pub evaluate_iff :
    (svc : Hitl.Wiring) (printed : HaltReason → String) (last_log : Uuid → Option Time)
    (costs : Uuid → ℕ) (w : World) (s : RunningStep) (g : Guard)
    → NoFaults w
    → ((x : HaltReason) × ((evaluate svc printed last_log costs s g w.clock w).0 ≡ ok (some x)))
      ↔ Breached costs w.clock s g
unfolding Noticed
evaluate_iff svc printed last_log costs w s g up = (
  λ (x, h). noticed-Breached svc printed last_log costs w s g x h,
  breach-Noticed svc printed last_log costs w s g up,
)
