-- ===== src/World/Moves.antt =====
-- How the rows of the runs' table may change: every row stays and its status walks the lifecycle.
use hopeitworks.Prelude.{
  ◌≡◌, refl, ap, ◌∙◌, Bool, true, false, some, List, [], ◌∷◌, ◌++◌, find, ◌==◌, ==_iff,
  if◌then◌else◌, arith,
}
use hopeitworks.Errors.{DomainError, Result, ok}
use hopeitworks.Action.{◌>>=◌, ◌>>◌, lift, require, for_each}
use hopeitworks.Action.Relates.{
  bind_relates, lift_relates, require_relates, if_relates, for_each_relates,
}
use hopeitworks.Model.Status.{RunStatus}
use hopeitworks.Model.Status.Lifecycle.{◌⟶*◌, here, walk_on}
use hopeitworks.Model.Entities.{Uuid, Run}
use hopeitworks.World.{World, M, run_at, run_has_id, update_where}

-- The run is still there, with a status its old one leads to.
abbrev pub Moved : List Run → Uuid → RunStatus → Type 0
Moved rs id s = (r : Run) × (find (run_has_id id) rs ≡ some r) × (s ⟶* r.status)

abbrev pub RunsMove : List Run → List Run → Type 0
RunsMove rs rs' = (id : Uuid) → (r : Run) → find (run_has_id id) rs ≡ some r → Moved rs' id r.status

abbrev pub Moves : World → World → Type 0
Moves w w' = RunsMove w.runs w'.runs

abbrev pub Keeps : World → World → Type 0
Keeps w w' = w'.runs ≡ w.runs

pub Moves-refl : (w : World) → Moves w w
Moves-refl w id r h = (r, h, here)

pub Moves-trans : (u v w : World) → Moves u v → Moves v w → Moves u w
Moves-trans u v w h k id r e =
    let (s, f, p) = h id r e in let (t, g, q) = k id s f in (t, g, walk_on p q)

pub Keeps-Moves : (v w : World) → Keeps v w → Moves v w
Keeps-Moves v w h id r e = (r, ap (find (run_has_id id)) h ∙ e, here)

pub Keeps-refl : (w : World) → Keeps w w
Keeps-refl w = refl

pub Keeps-trans : (u v w : World) → Keeps u v → Keeps v w → Keeps u w
Keeps-trans u v w h k = k ∙ h

-- The found row after an update of the rows with one identifier.
pub find-update_where :
    (id j : Uuid) (f : Run → Run)
    → ((r : Run) → (f r).id ≡ r.id)
    → (rs : List Run) (r : Run) → find (run_has_id j) rs ≡ some r
    → find (run_has_id j) (update_where (run_has_id id) f rs) ≡ some (if j == id then f r else r)
unfolding update_where
find-update_where id j f keeps_id [] r h = ground arith
find-update_where id j f keeps_id (x ∷ rs) r h =
    ground (arith, keeps_id x, find-update_where id j f keeps_id rs r)

pub find-append :
    (j : Uuid) (rs ss : List Run) (r : Run)
    → find (run_has_id j) rs ≡ some r
    → find (run_has_id j) (rs ++ ss) ≡ some r
find-append j [] ss r h = ground arith
find-append j (x ∷ rs) ss r h = ground (arith, find-append j rs ss r)

-- The rules of Action.Relates for the two relations.
module _ {A B : Type 0} where
  pub bind-Moves :
      (m : M A) (f : A → M B) (w : World)
      → Moves w (m w).1
      → ((a : A) → (m w).0 ≡ ok a → Moves (m w).1 (f a (m w).1).1)
      → Moves w ((m >>= f) w).1
  bind-Moves = bind_relates Moves Moves-refl Moves-trans

  pub bind-Keeps :
      (m : M A) (f : A → M B) (w : World)
      → Keeps w (m w).1
      → ((a : A) → (m w).0 ≡ ok a → Keeps (m w).1 (f a (m w).1).1)
      → Keeps w ((m >>= f) w).1
  bind-Keeps = bind_relates Keeps Keeps-refl Keeps-trans

  pub lift-Moves :
      (r : Result A) (f : A → M B) (w : World)
      → ((a : A) → r ≡ ok a → Moves w (f a w).1)
      → Moves w ((lift r >>= f) w).1
  lift-Moves = lift_relates Moves Moves-refl Moves-trans

  pub lift-Keeps :
      (r : Result A) (f : A → M B) (w : World)
      → ((a : A) → Keeps w (f a w).1)
      → Keeps w ((lift r >>= f) w).1
  lift-Keeps r f w h = lift_relates Keeps Keeps-refl Keeps-trans r f w λ a _. h a

module _ {A : Type 0} where
  pub if-Moves :
      (b : Bool) (m n : M A) (w : World)
      → (b ≡ true → Moves w (m w).1)
      → (b ≡ false → Moves w (n w).1)
      → Moves w ((if b then m else n) w).1
  if-Moves = if_relates Moves Moves-refl Moves-trans

  pub if-Keeps :
      (b : Bool) (m n : M A) (w : World)
      → (b ≡ true → Keeps w (m w).1)
      → (b ≡ false → Keeps w (n w).1)
      → Keeps w ((if b then m else n) w).1
  if-Keeps = if_relates Keeps Keeps-refl Keeps-trans

  pub require-Keeps :
      (b : Bool) (e : DomainError) (m : M A) (w : World)
      → (b ≡ true → Keeps w (m w).1)
      → Keeps w ((require b e >> m) w).1
  require-Keeps = require_relates Keeps Keeps-refl Keeps-trans

  pub require-Moves :
      (b : Bool) (e : DomainError) (m : M A) (w : World)
      → (b ≡ true → Moves w (m w).1)
      → Moves w ((require b e >> m) w).1
  require-Moves = require_relates Moves Moves-refl Moves-trans

module _ {A B : Type 0} where
  -- The same where the later part needs to know nothing of the first.
  pub then_Moves :
      (m : M A) (f : A → M B) (w : World)
      → Moves w (m w).1
      → ((a : A) (v : World) → Moves v (f a v).1)
      → Moves w ((m >>= f) w).1
  then_Moves m f w h k = bind-Moves m f w h λ a _. k a (m w).1

  pub then_Keeps :
      (m : M A) (f : A → M B) (w : World)
      → Keeps w (m w).1
      → ((a : A) (v : World) → Keeps v (f a v).1)
      → Keeps w ((m >>= f) w).1
  then_Keeps m f w h k = bind-Keeps m f w h λ a _. k a (m w).1

  -- A first part that leaves the runs alone.
  pub after_Keeps :
      (m : M A) (f : A → M B) (w : World)
      → Keeps w (m w).1
      → ((a : A) (v : World) → Moves v (f a v).1)
      → Moves w ((m >>= f) w).1
  after_Keeps m f w h k = then_Moves m f w (Keeps-Moves w (m w).1 h) k

  -- The same where the later part needs to know that the runs are as they were.
  pub past_Keeps :
      (m : M A) (f : A → M B) (w : World)
      → Keeps w (m w).1
      → ((a : A) (v : World) → Keeps w v → Moves v (f a v).1)
      → Moves w ((m >>= f) w).1
  past_Keeps m f w h k = bind-Moves m f w (Keeps-Moves w (m w).1 h) λ a _. k a (m w).1 h

pub still_found :
    (v w : World) (id : Uuid) (r : Run) → Keeps v w → run_at v id ≡ some r → run_at w id ≡ some r
unfolding run_at
still_found v w id r keeps found = ap (find (run_has_id id)) keeps ∙ found

found_id : (id : Uuid) (rs : List Run) (r : Run) → find (run_has_id id) rs ≡ some r → r.id ≡ id
found_id id [] r h = ground arith
found_id id (x ∷ rs) r h = ground (arith, found_id id rs r, ==_iff x.id id)

pub run_at-id : (w : World) (id : Uuid) (r : Run) → run_at w id ≡ some r → r.id ≡ id
unfolding run_at
run_at-id w id r h = found_id id w.runs r h

pub for_each-Keeps :
    {A : Type 0} (xs : List A) (f : A → M (Unit {0})) (w : World)
    → ((a : A) (v : World) → Keeps v (f a v).1)
    → Keeps w (for_each xs f w).1
for_each-Keeps xs f w h = for_each_relates Keeps Keeps-refl Keeps-trans xs f w h
