-- ===== src/Repo/Advances.antt =====
-- The calls that write runs, for a run that was read: its status moves along an edge.
use hopeitworks.Prelude.{
  ◌≡◌, refl, sym, ap, ◌∙◌, subst, Bool, true, false, Option, none, some, find, ◌==◌, ==_iff, inl,
  inr, if◌then◌else◌, [], ◌∷◌, arith,
}
use hopeitworks.Errors.{ok}
use hopeitworks.Action.{◌>>=◌}
use hopeitworks.Model.Status.{RunStatus, validate_run_transition}
use hopeitworks.Model.Status.Lifecycle.{◌⟶◌, valid→⟶}
use hopeitworks.Model.Entities.{Uuid, Run, Time, ErrorText, Snapshot, Metadata}
use hopeitworks.World.{World, M, run_at, run_has_id, tick}
use hopeitworks.World.Moves.{find-update_where, find-append, run_at-id}
use hopeitworks.World.Advances.{Advances, AtMostOneEdge, bind_Keeps}
use hopeitworks.Repo.Runs.{get_run, update_run_status, with_status, create_run, new_run}
use hopeitworks.Repo.Keeps.{get_run-Keeps, get_run-found, rows_after, rows_after_create}

-- A request starts by reading its run.
pub after_get_run :
    {t : Option RunStatus} {B : Type 0} (id : Uuid) (f : Run → M B) (w : World)
    → ((v : World) → (r : Run) → run_at v id ≡ some r → Advances t v (f r v).1)
    → Advances t w ((get_run id >>= f) w).1
after_get_run id f w h =
    bind_Keeps (get_run id) f w (get_run-Keeps id w)
      λ r got. h (get_run id w).1 r (get_run-found id w r got)

module _ (id : Uuid) (s : RunStatus) (a b c : Option Time) (x : Option ErrorText) where
  one_row :
      (w : World)
      → ((r : Run) → run_at w id ≡ some r → r.status ⟶ s)
      → (j : Uuid) (q : Run) → find (run_has_id j) w.runs ≡ some q
      → (d : Bool) → j == id ≡ d
      → AtMostOneEdge (some s) q (if d then with_status s a b c x q else q)
  unfolding run_at
  one_row w legal j q k true same =
      inr
        (refl, legal q (subst (λ i. find (run_has_id i) w.runs ≡ some q) ((==_iff j id).0 same) k))
  one_row w legal j q k false other = inl refl

  update_run_status-Advances :
      (w : World)
      → ((r : Run) → run_at w id ≡ some r → r.status ⟶ s)
      → Advances (some s) w (update_run_status id s a b c x w).1
  update_run_status-Advances w legal = elim (rows_after id s a b c x w) [
    | inl same ↦ record { row = λ j q k. (q, ap (find (run_has_id j)) same ∙ k, inl refl) }
    | inr rows ↦ record {
      row = λ j q k. (
        if j == id then with_status s a b c x q else q,
        ap (find (run_has_id j)) rows
            ∙ find-update_where id j (with_status s a b c x) (λ r. refl) w.runs q k,
        one_row w legal j q k (j == id) refl,
      );
    }
  ]

  -- The update of a run that was found, to a status that an edge leads to.
  pub update-Advances :
      (w : World) (r : Run)
      → run_at w id ≡ some r
      → r.status ⟶ s
      → Advances (some s) w (update_run_status id s a b c x w).1
  update-Advances w r found edge =
      update_run_status-Advances w λ q h. subst (λ u. u ⟶ s) (ground (arith, found, h)) edge

  pub valid-Advances :
      (w : World) (r : Run)
      → run_at w id ≡ some r
      → validate_run_transition r.status s ≡ ok tt
      → Advances (some s) w (update_run_status id s a b c x w).1
  valid-Advances w r found valid = update-Advances w r found (valid→⟶ r.status s valid)

-- The same, where the call names the found run's own identifier.
pub found-Advances :
    (id : Uuid) (w : World) (r : Run) (s : RunStatus) (a b c : Option Time) (x : Option ErrorText)
    → run_at w id ≡ some r
    → r.status ⟶ s
    → Advances (some s) w (update_run_status r.id s a b c x w).1
found-Advances id w r s a b c x found edge =
    update-Advances r.id s a b c x w r
      (subst (λ i. run_at w i ≡ some r) (sym (run_at-id w id r found)) found) edge

pub create_run-Advances :
    (p s : Uuid) (t : RunStatus) (c : Snapshot) (m : Metadata) (w : World)
    → Advances none w (create_run p s t c m w).1
create_run-Advances p s t c m w = elim (rows_after_create p s t c m w) [
  | inl same ↦ record { row = λ j q k. (q, ap (find (run_has_id j)) same ∙ k, inl refl) }
  | inr rows ↦ record {
    row = λ j q k. (
      q,
      ap (find (run_has_id j)) rows ∙ find-append j w.runs (new_run p s t c m (tick w) ∷ []) q k,
      inl refl,
    );
  }
]
