-- ===== src/Supervision/Orphans/Reaping.antt =====
-- Which runs the orphan reconciler fails.
use hopeitworks.Prelude.{
  ◌≡◌, refl, sym, ap, ◌∙◌, subst, ℕ, String, Bool, true, false, Option, some, List, find, ◌⊎◌, inl,
  inr, ==_iff, if◌then◌else◌, arith,
}
use hopeitworks.Errors.{Result, ok, err}
use hopeitworks.Action.{caught, logged, for_each}
use hopeitworks.Action.Relates.{bind_relates, for_each_relates}
use hopeitworks.Model.Status.{RunStatus}
use hopeitworks.Model.Entities.{Uuid, Time, ErrorText, Run}
use hopeitworks.World.Moves.{run_at-id}
use hopeitworks.World.Rows.{find-update_if}
use hopeitworks.World.{World, call, run_at, run_has_id, update_where}
use hopeitworks.Repo.Runs.{list_run_steps_by_run, steps_of_run}
use hopeitworks.Supervision.Orphans.Absence.{HasLostContainer, lost-HasLostContainer}
use hopeitworks.Supervision.Orphans.{
  list_runs_by_status, mark_run_orphaned_if_running, is_running_row, orphaned,
  orphaned_no_container, any, is_lost, is_orphaned, reap, reconcile_run, reconcile_orphaned_runs,
}

-- The reconciler's test, on the stored steps of a run.
abbrev pub IsOrphan : ℕ → List String → World → Uuid → Type 0
IsOrphan grace live w id = any (is_lost grace live w.clock) (steps_of_run id w.run_steps) ≡ true

-- What may have become of a run.
abbrev pub Reaped : ℕ → List String → World → Uuid → Run → Run → Type 0
Reaped grace live w id r q =
    (q ≡ r)
    ⊎ ((r.status ≡ RunStatus.running) × (q.status ≡ RunStatus.failed) × IsOrphan grace live w id)

module _ (grace : ℕ) (live : List String) where
  Reaps : World → World → Type 0
  Reaps w v =
      (v.run_steps ≡ w.run_steps)
      × (v.clock ≡ w.clock)
      × ((j : Uuid) (r : Run)
          → find (run_has_id j) w.runs ≡ some r
          → (q : Run) × (find (run_has_id j) v.runs ≡ some q) × Reaped grace live w j r q)

  Reaps-refl : (w : World) → Reaps w w
  unfolding Reaps
  Reaps-refl w = (refl, refl, λ j r h. (r, h, inl refl))

  twice :
      (u v : World) (j : Uuid) (r q p : Run)
      → v.run_steps ≡ u.run_steps
      → v.clock ≡ u.clock
      → Reaped grace live u j r q
      → Reaped grace live v j q p
      → Reaped grace live u j r p
  twice u v j r q p s c (inl same) (inl then_) = inl (then_ ∙ same)
  twice u v j r q p s c (inl same) (inr (running, failed, lost)) = inr (
    ap (λ (x : Run). x.status) (sym same) ∙ running,
    failed,
    ap (λ ss. any (is_lost grace live u.clock) (steps_of_run j ss)) (sym s)
        ∙ ap (λ t. any (is_lost grace live t) (steps_of_run j v.run_steps)) (sym c)
        ∙ lost,
  )
  twice u v j r q p s c (inr (running, failed, lost)) (inl then_) =
      inr (running, ap (λ (x : Run). x.status) then_ ∙ failed, lost)
  twice u v j r q p s c (inr (running, failed, lost)) (inr (again, failed', lost')) =
      absurd (ground arith)

  Reaps-trans : (u v w : World) → Reaps u v → Reaps v w → Reaps u w
  unfolding Reaps
  Reaps-trans u v w (s, c, h) (s', c', k) = (
    s' ∙ s,
    c' ∙ c,
    λ j r e.
        let (q, f, a) = h j r e in let (p, g, b) = k j q f in (p, g, twice u v j r q p s c a b),
  )

  same-Reaps :
      (w v : World) → v.runs ≡ w.runs → v.run_steps ≡ w.run_steps → v.clock ≡ w.clock → Reaps w v
  unfolding Reaps
  same-Reaps w v h s c = (s, c, λ j r e. (r, ap (find (run_has_id j)) h ∙ e, inl refl))

  rows_after :
      (id : Uuid) (t : Time) (x : Option ErrorText) (w : World)
      → ((mark_run_orphaned_if_running id t x w).1.run_steps ≡ w.run_steps)
        × ((mark_run_orphaned_if_running id t x w).1.clock ≡ w.clock)
        × (((mark_run_orphaned_if_running id t x w).1.runs ≡ w.runs)
            ⊎ ((mark_run_orphaned_if_running id t x w).1.runs
                ≡ update_where (is_running_row id) (orphaned t x) w.runs))
  unfolding mark_run_orphaned_if_running call
  rows_after id t x w = ground arith

  row_of : (w : World) (j : Uuid) (r : Run) → find (run_has_id j) w.runs ≡ some r → r.id ≡ j
  unfolding run_at
  row_of w j r h = run_at-id w j r h

  runs_row :
      (id : Uuid) (r : Run)
      → is_running_row id r ≡ true
      → (r.id ≡ id) × (r.status ≡ RunStatus.running)
  runs_row id r h = ground (arith, ==_iff r.id id)

  one_marked :
      (id j : Uuid) (t : Time) (x : Option ErrorText) (w : World) (r : Run)
      → IsOrphan grace live w id
      → find (run_has_id j) w.runs ≡ some r
      → (b : Bool) → is_running_row id r ≡ b
      → Reaped grace live w j r (if b then orphaned t x r else r)
  one_marked id j t x w r lost found false e = inl refl
  one_marked id j t x w r lost found true e =
      let (same, running) = runs_row id r e in
      inr (running, refl, subst (IsOrphan grace live w) (sym same ∙ row_of w j r found) lost)

  -- The write, for a run that the listing has shown to be an orphan.
  mark-Reaps :
      (id : Uuid) (t : Time) (x : Option ErrorText) (w : World)
      → IsOrphan grace live w id
      → Reaps w (mark_run_orphaned_if_running id t x w).1
  unfolding Reaps
  mark-Reaps id t x w lost =
      let (s, c, runs) = rows_after id t x w in
      (
        s,
        c,
        λ j r e. elim runs [
          | inl h ↦ (r, ap (find (run_has_id j)) h ∙ e, inl refl)
          | inr h ↦ (
            if is_running_row id r then orphaned t x r else r,
            ap (find (run_has_id j)) h
                ∙ find-update_if (run_has_id j) (is_running_row id) (orphaned t x) (λ _. refl)
                    w.runs r e,
            one_marked id j t x w r lost e (is_running_row id r) refl,
          )
        ],
      )

  -- The evaluation of a run changes nothing, and says so for orphans only.
  unchanged :
      (r : Run) (w : World)
      → ((is_orphaned grace live w.clock r w).1.runs ≡ w.runs)
        × ((is_orphaned grace live w.clock r w).1.run_steps ≡ w.run_steps)
        × ((is_orphaned grace live w.clock r w).1.clock ≡ w.clock)
  unfolding is_orphaned list_run_steps_by_run call
  unchanged r w = ground arith

  verdict_holds :
      (r : Run) (w : World)
      → (is_orphaned grace live w.clock r w).0 ≡ ok true
      → IsOrphan grace live w r.id
  unfolding is_orphaned list_run_steps_by_run call
  verdict_holds r w h = ground arith

  reap-Reaps :
      (now : Time) (r : Run) (o : Result Bool) (w : World)
      → (o ≡ ok true → IsOrphan grace live w r.id)
      → Reaps w (reap now r o w).1
  unfolding reap logged
  reap-Reaps now r (err x) w h = Reaps-refl w
  reap-Reaps now r (ok false) w h = Reaps-refl w
  reap-Reaps now r (ok true) w h = mark-Reaps r.id now orphaned_no_container w (h refl)

  carry :
      (v w : World) (id : Uuid)
      → w.run_steps ≡ v.run_steps
      → w.clock ≡ v.clock
      → IsOrphan grace live v id
      → IsOrphan grace live w id
  carry v w id s c lost =
      ap (λ ss. any (is_lost grace live w.clock) (steps_of_run id ss)) s
      ∙ ap (λ t. any (is_lost grace live t) (steps_of_run id v.run_steps)) c
      ∙ lost

  reconcile_run-Reaps : (r : Run) (w : World) → Reaps w (reconcile_run grace live w.clock r w).1
  unfolding reconcile_run caught
  reconcile_run-Reaps r w =
      let o = is_orphaned grace live w.clock r w in
      let (h, s, c) = unchanged r w in
      Reaps-trans w o.1 (reap w.clock r o.0 o.1).1 (same-Reaps w o.1 h s c)
        (reap-Reaps w.clock r o.0 o.1 λ t. carry w o.1 r.id s c (verdict_holds r w t))

  -- The loop reads the clock before its first round.
  reap_all :
      (now : Time) (rs : List Run) (w : World)
      → now ≡ w.clock
      → Reaps w (for_each rs (reconcile_run grace live now) w).1
  unfolding Reaps
  reap_all now rs w =
      for_each_relates (λ s t. now ≡ s.clock → Reaps s t) (λ s _. Reaps-refl s)
        (λ s t u h k c. Reaps-trans s t u (h c) (k (c ∙ sym (h c).1))) rs
        (reconcile_run grace live now) w
        λ r t c.
          subst (λ n. Reaps t (reconcile_run grace live n r t).1) (sym c) (reconcile_run-Reaps r t)

list-same :
    (s : RunStatus) (w : World)
    → ((list_runs_by_status s w).1.runs ≡ w.runs)
      × ((list_runs_by_status s w).1.run_steps ≡ w.run_steps)
      × ((list_runs_by_status s w).1.clock ≡ w.clock)
unfolding list_runs_by_status call
list-same s w = ground arith

loop-Reaps :
    (grace : ℕ) (live : List String) (w : World) (j : Uuid) (r : Run)
    → find (run_has_id j) w.runs ≡ some r
    → (q : Run) × (find (run_has_id j) (reconcile_orphaned_runs grace (ok live) w).1.runs ≡ some q)
      × Reaped grace live w j r q
unfolding reconcile_orphaned_runs Reaps
loop-Reaps grace live w j r found =
    let v = (list_runs_by_status RunStatus.running w).1 in
    let (h, s, c) = list-same RunStatus.running w in
    (bind_relates (Reaps grace live) (Reaps-refl grace live) (Reaps-trans grace live)
        (list_runs_by_status RunStatus.running)
        (λ runs z. for_each runs (reconcile_run grace live z.clock) z) w
        (same-Reaps grace live w v h s c) λ rs _. reap_all grace live v.clock rs v refl).2
      j r found

-- The reconciler fails on proof of absence only: whichever calls fail, each run that is stored before
-- is stored afterwards, and it is unchanged unless the listing of running containers succeeded, the
-- run was running, is now failed, and one of its stored steps is running and has a container, named
-- by an identifier that is not empty and that the listing does not hold, which was launched at least
-- the grace window ago.
pub orphans_only :
    (grace : ℕ) (listing : Result (List String)) (w : World) (j : Uuid) (r : Run)
    → run_at w j ≡ some r
    → (q : Run) × (run_at (reconcile_orphaned_runs grace listing w).1 j ≡ some q)
      × ((q ≡ r)
          ⊎ ((live : List String) × (listing ≡ ok live)
              × (r.status ≡ RunStatus.running)
              × (q.status ≡ RunStatus.failed)
              × HasLostContainer grace live w j))
unfolding run_at reconcile_orphaned_runs
orphans_only grace (err x) w j r found = (r, found, inl refl)
orphans_only grace (ok live) w j r found =
    let (q, f, a) = loop-Reaps grace live w j r found in
    (
      q,
      f,
      elim a [
        | inl same ↦ inl same
        | inr why ↦ inr (live, refl, why.0, why.1, lost-HasLostContainer grace live w j why.2)
      ],
    )
