-- ===== src/World/Stays.antt =====
-- Calls after which every run is there with the status it had; its other columns may have changed.
use hopeitworks.Prelude.{
  ◌≡◌, refl, sym, ap, ◌∙◌, subst, inl, inr, Bool-cases, Bool, true, false, some, find, arith,
}
use hopeitworks.Errors.{Result, ok, err}
use hopeitworks.Action.{and_then, ◌>>=◌}
use hopeitworks.Action.Relates.{bind_relates}
use hopeitworks.Action.Returns.{bind_returns}
use hopeitworks.Model.Status.{RunStatus}
use hopeitworks.Model.Status.Lifecycle.{◌⟶*◌, here, via, walk_on, is_final, start, resume, retry}
use hopeitworks.Model.Entities.{Uuid, Run}
use hopeitworks.World.{World, M, run_at, run_has_id}
use hopeitworks.World.Moves.{Moves, Keeps, Moves-refl, Moves-trans}

abbrev pub Stays : World → World → Type 0
Stays v w =
    (id : Uuid)
    → (r : Run) → find (run_has_id id) v.runs ≡ some r
    → (q : Run) × (find (run_has_id id) w.runs ≡ some q) × (q.status ≡ r.status)

pub Stays-refl : (w : World) → Stays w w
Stays-refl w id r h = (r, h, refl)

pub Stays-trans : (u v w : World) → Stays u v → Stays v w → Stays u w
Stays-trans u v w h k id r e = let (s, f, p) = h id r e in let (t, g, q) = k id s f in (t, g, q ∙ p)

pub Keeps-Stays : (v w : World) → Keeps v w → Stays v w
Keeps-Stays v w h id r e = (r, ap (find (run_has_id id)) h ∙ e, refl)

same_status : {s t : RunStatus} → t ≡ s → s ⟶* t
same_status {s} h = subst (λ x. s ⟶* x) (sym h) here

pub Stays-Moves : (v w : World) → Stays v w → Moves v w
Stays-Moves v w h id r e = let (q, f, p) = h id r e in (q, f, same_status p)

pub then_Stays :
    {A B : Type 0} (m : M A) (f : A → M B) (w : World)
    → Stays w (m w).1
    → ((a : A) (v : World) → Stays v (f a v).1)
    → Stays w ((m >>= f) w).1
then_Stays m f w h k = bind_relates Stays Stays-refl Stays-trans m f w h λ a _. k a (m w).1

-- The run is there, and neither completed nor cancelled.
abbrev pub Live : Uuid → World → Type 0
Live id w = (r : Run) × (run_at w id ≡ some r) × (is_final r.status ≡ false)

pub Live-Stays : (id : Uuid) (v w : World) → Stays v w → Live id v → Live id w
unfolding run_at
Live-Stays id v w h (r, found, alive) =
    let (q, f, p) = h id r found in (q, f, ap is_final p ∙ alive)

-- A run that is not final may start to run.
to_running : (s : RunStatus) → is_final s ≡ false → s ⟶* RunStatus.running
to_running RunStatus.pending h = via start here
to_running RunStatus.running h = here
to_running RunStatus.paused h = via resume here
to_running RunStatus.failed h = via retry here
to_running RunStatus.completed h = absurd (ground arith)
to_running RunStatus.cancelled h = absurd (ground arith)

pub Live-may :
    (id : Uuid) (w : World) (t : RunStatus)
    → Live id w
    → RunStatus.running ⟶* t
    → (q : Run) → run_at w id ≡ some q
    → q.status ⟶* t
Live-may id w t (r, found, alive) rest q h = walk_on (to_running q.status (ground arith)) rest

-- A part of an execution of a run: whatever it returns, the runs walk their lifecycle; a result
-- after which the execution goes on leaves their statuses alone.
abbrev pub Follows : {A : Type 0} → (A → Bool) → World → M A → Type 0
Follows {A} goes_on w m =
    Moves w (m w).1 × ((a : A) → (m w).0 ≡ ok a → goes_on a ≡ true → Stays w (m w).1)

module _ {A : Type 0} (good : A → Bool) where
  pub Follows-pure : (r : Result A) (w : World) → Follows good w (λ v. (r, v))
  Follows-pure r w = (Moves-refl w, λ _ _ _. Stays-refl w)

  pub Stays-Follows : (m : M A) (w : World) → Stays w (m w).1 → Follows good w m
  Stays-Follows m w h = (Stays-Moves w (m w).1 h, λ _ _ _. h)

  -- Every result of the part ends the execution.
  abbrev pub Ends : M A → Type 0
  Ends m = (v : World) → (a : A) → (m v).0 ≡ ok a → good a ≡ false

  pub Moves-Follows : (m : M A) (w : World) → Moves w (m w).1 → Ends m → Follows good w m
  Moves-Follows m w h ends = (h, λ a e g. absurd (ground (arith, ends w a e)))

module _ {A B : Type 0} (also : B → Bool) where
  pub Ends-bind : (m : M A) (f : A → M B) → ((a : A) → Ends also (f a)) → Ends also (m >>= f)
  Ends-bind m f k w b h = bind_returns m f w b h λ a v _ l. k a v b l

module _ {A B : Type 0} (good : A → Bool) (also : B → Bool) (id : Uuid) where
  -- Where the first part does not go on, the rest changes nothing and does not go on either.
  pub Follows-bind :
      (m : M A) (f : A → M B) (w : World)
      → Follows good w m
      → ((a : A)
          → good a ≡ false
          → (v : World) → ((f a v).1 ≡ v) × ((b : B) → (f a v).0 ≡ ok b → also b ≡ false))
      → ((a : A) → good a ≡ true → (v : World) → Live id v → Follows also v (f a))
      → Live id w
      → Follows also w (m >>= f)
  Follows-bind m f w (h, k) ends rest alive = go (m w).0 refl
    where
      go :
          (r : Result A)
          → (m w).0 ≡ r
          → Moves w (and_then r (m w).1 f).1
            × ((b : B)
                → (and_then r (m w).1 f).0 ≡ ok b
                → also b ≡ true
                → Stays w (and_then r (m w).1 f).1)
      go (ok a) e = elim (Bool-cases (good a)) [
        | inl g ↦
            let s = k a e g in
            let (p, q) = rest a g (m w).1 (Live-Stays id w (m w).1 s alive) in
            (
              Moves-trans w (m w).1 (f a (m w).1).1 h p,
              λ b x y. Stays-trans w (m w).1 (f a (m w).1).1 s (q b x y),
            )
        | inr n ↦
            let (same, never) = ends a n (m w).1 in
            (subst (Moves w) (sym same) h, λ b x y. absurd (ground (arith, never b x)))
      ]
      go (err x) e = (h, λ b y z. absurd (ground arith))

module _ {A B : Type 0} (also : B → Bool) (id : Uuid) where
  -- A first part that leaves the statuses alone.
  pub Follows-after :
      (m : M A) (f : A → M B) (w : World)
      → Stays w (m w).1
      → ((a : A) (v : World) → Live id v → Follows also v (f a))
      → Live id w
      → Follows also w (m >>= f)
  Follows-after m f w h k =
      Follows-bind (λ _. true) also id m f w (Stays-Follows (λ _. true) m w h)
        (λ a n. absurd (ground arith)) λ a _. k a
