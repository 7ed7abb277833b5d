-- ===== src/World/Rows.antt =====
-- The row that is found after an update of the rows with its own identifier.
use hopeitworks.Prelude.{◌≡◌, Bool, some, List, [], ◌∷◌, find, ◌==◌, if◌then◌else◌, arith}
use hopeitworks.Model.Entities.{Uuid, RunStep}
use hopeitworks.World.{update_where, step_has_id}

pub find-update_same :
    {A : Type 0} (p : A → Bool) (f : A → A)
    → ((x : A) → p (f x) ≡ p x)
    → (xs : List A) (x : A) → find p xs ≡ some x
    → find p (update_where p f xs) ≡ some (f x)
unfolding update_where
find-update_same p f same [] x h = ground arith
find-update_same p f same (y ∷ ys) x h = ground (arith, same y, find-update_same p f same ys x)

-- The found step after an update of the rows with one identifier.
pub find_step-update :
    (id j : Uuid) (f : RunStep → RunStep)
    → ((s : RunStep) → (f s).id ≡ s.id)
    → (ss : List RunStep) (s : RunStep) → find (step_has_id j) ss ≡ some s
    → find (step_has_id j) (update_where (step_has_id id) f ss) ≡ some (if j == id then f s else s)
unfolding update_where
find_step-update id j f keeps_id [] s h = ground arith
find_step-update id j f keeps_id (x ∷ ss) s h =
    ground (arith, keeps_id x, find_step-update id j f keeps_id ss s)

-- The found row after an update of other rows or of more than its own.
pub find-update_if :
    {A : Type 0} (h p : A → Bool) (f : A → A)
    → ((x : A) → h (f x) ≡ h x)
    → (xs : List A) (x : A) → find h xs ≡ some x
    → find h (update_where p f xs) ≡ some (if p x then f x else x)
unfolding update_where
find-update_if h p f same [] x e = ground arith
find-update_if h p f same (y ∷ ys) x e = ground (arith, same y, find-update_if h p f same ys x)
