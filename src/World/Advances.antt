-- ===== src/World/Advances.antt =====
-- Calls and requests that give at most one status to runs, and give it along one edge of the lifecycle.
use hopeitworks.Prelude.{
  ◌≡◌, refl, ap, ◌∙◌, Bool, true, false, Option, some, find, ◌⊎◌, inl, if◌then◌else◌,
}
use hopeitworks.Errors.{DomainError, Result, ok, err}
use hopeitworks.Action.{and_then, ◌>>=◌, ◌>>◌, lift, require}
use hopeitworks.Model.Status.{RunStatus}
use hopeitworks.Model.Status.Lifecycle.{◌⟶◌}
use hopeitworks.Model.Entities.{Uuid, Run}
use hopeitworks.World.{World, M, run_has_id}
use hopeitworks.World.Moves.{Keeps}

-- A run that has kept its status, or has gone to the given one along an edge of the lifecycle.
abbrev pub AtMostOneEdge : Option RunStatus → Run → Run → Type 0
AtMostOneEdge t r q = (q.status ≡ r.status) ⊎ ((t ≡ some q.status) × (r.status ⟶ q.status))

pub record Advances (t : Option RunStatus) (v w : World) : Type 0 where
  pub row :
      (id : Uuid) (r : Run)
      → find (run_has_id id) v.runs ≡ some r
      → (q : Run) × (find (run_has_id id) w.runs ≡ some q) × AtMostOneEdge t r q

module _ (t : Option RunStatus) where
  pub Advances-refl : (w : World) → Advances t w w
  Advances-refl w = record { row = λ id r h. (r, h, inl refl) }

  pub Keeps-Advances : (v w : World) → Keeps v w → Advances t v w
  Keeps-Advances v w h = record { row = λ id r e. (r, ap (find (run_has_id id)) h ∙ e, inl refl) }

  pub Keeps-then : (u v w : World) → Keeps u v → Advances t v w → Advances t u w
  Keeps-then u v w h k = record { row = λ id r e. k.row id r (ap (find (run_has_id id)) h ∙ e) }

  then-Keeps : (u v w : World) → Advances t u v → Keeps v w → Advances t u w
  then-Keeps u v w h k = record {
    row = λ id r e. let (q, f, p) = h.row id r e in (q, ap (find (run_has_id id)) k ∙ f, p);
  }

module _ {t : Option RunStatus} {A B : Type 0} where
  -- A first part that leaves the runs alone.
  pub bind_Keeps :
      (m : M A) (f : A → M B) (w : World)
      → Keeps w (m w).1
      → ((a : A) → (m w).0 ≡ ok a → Advances t (m w).1 (f a (m w).1).1)
      → Advances t w ((m >>= f) w).1
  bind_Keeps m f w h k = go (m w).0 refl
    where
      go : (o : Result A) → (m w).0 ≡ o → Advances t w (and_then o (m w).1 f).1
      go (ok a) e = Keeps-then t w (m w).1 (f a (m w).1).1 h (k a e)
      go (err x) e = Keeps-Advances t w (m w).1 h

  -- The same where the rest needs to know that the runs are as they were.
  pub past_Keeps :
      (m : M A) (f : A → M B) (w : World)
      → Keeps w (m w).1
      → ((a : A) (v : World) → Keeps w v → Advances t v (f a v).1)
      → Advances t w ((m >>= f) w).1
  past_Keeps m f w h k = bind_Keeps m f w h λ a _. k a (m w).1 h

  pub after_Keeps :
      (m : M A) (f : A → M B) (w : World)
      → Keeps w (m w).1
      → ((a : A) (v : World) → Advances t v (f a v).1)
      → Advances t w ((m >>= f) w).1
  after_Keeps m f w h k = past_Keeps m f w h λ a v _. k a v

  -- The write, and what follows it and writes no run.
  pub then_Advances :
      (m : M A) (f : A → M B) (w : World)
      → Advances t w (m w).1
      → ((a : A) (v : World) → Keeps v (f a v).1)
      → Advances t w ((m >>= f) w).1
  then_Advances m f w h k = go (m w).0
    where
      go : (o : Result A) → Advances t w (and_then o (m w).1 f).1
      go (ok a) = then-Keeps t w (m w).1 (f a (m w).1).1 h (k a (m w).1)
      go (err x) = h

  pub lift-Advances :
      (o : Result A) (f : A → M B) (w : World)
      → ((a : A) → o ≡ ok a → Advances t w (f a w).1)
      → Advances t w ((lift o >>= f) w).1
  lift-Advances (ok a) f w h = h a refl
  lift-Advances (err x) f w h = Advances-refl t w

module _ {t : Option RunStatus} {A : Type 0} where
  pub require-Advances :
      (b : Bool) (x : DomainError) (m : M A) (w : World)
      → (b ≡ true → Advances t w (m w).1)
      → Advances t w ((require b x >> m) w).1
  require-Advances true x m w h = h refl
  require-Advances false x m w h = Advances-refl t w

  pub if-Advances :
      (b : Bool) (m n : M A) (w : World)
      → (b ≡ true → Advances t w (m w).1)
      → (b ≡ false → Advances t w (n w).1)
      → Advances t w ((if b then m else n) w).1
  if-Advances true m n w h k = h refl
  if-Advances false m n w h k = k refl
