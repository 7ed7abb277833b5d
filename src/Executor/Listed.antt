-- ===== src/Executor/Listed.antt =====
-- The listing of a run's steps has only stored steps.
use hopeitworks.Prelude.{
  ◌≡◌, refl, sym, ap, ◌∙◌, some, List, [], ◌∷◌, find, select, ◌==◌, leb, ==_iff, All, Elem, inl,
  inr, Bool-cases, arith,
}
use hopeitworks.Model.Entities.{Uuid, RunStep}
use hopeitworks.World.{World, step_at, step_has_id}
use hopeitworks.Repo.Runs.{steps_of_run, sort_steps, insert_step}
use hopeitworks.Executor.Crossing.{Stored}

pub same_row :
    (v w : World) (j : Uuid) (t : RunStep)
    → w.run_steps ≡ v.run_steps
    → step_at v j ≡ some t
    → step_at w j ≡ some t
unfolding step_at
same_row v w j t h found = ap (find (step_has_id j)) h ∙ found

pub All-Stored :
    (v w : World) (ss : List RunStep)
    → w.run_steps ≡ v.run_steps
    → All (Stored v) ss
    → All (Stored w) ss
All-Stored v w [] h a = tt
All-Stored v w (s ∷ ss) h ((t, f), rest) = ((t, same_row v w s.id t h f), All-Stored v w ss h rest)

-- The listing has only stored steps.
insert-All :
    (P : RunStep → Type 0) (s : RunStep) (ss : List RunStep)
    → P s
    → All P ss
    → All P (insert_step s ss)
insert-All P s [] p a = (p, tt)
insert-All P s (t ∷ ts) p a = elim (Bool-cases (leb s.step_order t.step_order)) [
  | inl h ↦ rw h (p, a)
  | inr h ↦ rw h (a.0, insert-All P s ts p a.1)
]

pub sort-All : (P : RunStep → Type 0) (ss : List RunStep) → All P ss → All P (sort_steps ss)
sort-All P [] a = tt
sort-All P (s ∷ ss) a = insert-All P s (sort_steps ss) a.0 (sort-All P ss a.1)

select-All :
    (P : RunStep → Type 0) (id : Uuid) (ss : List RunStep)
    → All P ss
    → All P (select (λ (s : RunStep). s.run_id == id) ss)
select-All P id [] a = tt
select-All P id (s ∷ ss) a = elim (Bool-cases (s.run_id == id)) [
  | inl h ↦ rw h (a.0, select-All P id ss a.1)
  | inr h ↦ rw h (select-All P id ss a.1)
]

Elem-All : (P : RunStep → Type 0) (ss : List RunStep) → ((s : RunStep) → Elem s ss → P s) → All P ss
Elem-All P [] h = tt
Elem-All P (s ∷ ss) h = (h s (inl refl), Elem-All P ss λ t m. h t (inr m))

Elem-find :
    (s : RunStep) (ss : List RunStep)
    → Elem s ss
    → (t : RunStep) × (find (step_has_id s.id) ss ≡ some t)
Elem-find s [] m = absurd m
Elem-find s (t ∷ ts) m = elim (Bool-cases (t.id == s.id)) [
  | inl h ↦ (t, rw h refl)
  | inr h ↦ elim m [
    | inl same ↦
        absurd (ground (arith, h, (==_iff t.id s.id).1 (ap (λ (z : RunStep). z.id) (sym same))))
    | inr later ↦ let (u, k) = Elem-find s ts later in (u, rw h k)
  ]
]

Stored-rows : (w : World) (s : RunStep) → Elem s w.run_steps → Stored w s
unfolding step_at
Stored-rows w s m = Elem-find s w.run_steps m

pub listing-Stored :
    (id : Uuid) (w : World) → All (Stored w) (sort_steps (steps_of_run id w.run_steps))
listing-Stored id w = sort-All (Stored w) (steps_of_run id w.run_steps) (
    sort-All (Stored w) _
      (select-All (Stored w) id w.run_steps (Elem-All (Stored w) w.run_steps (Stored-rows w))))
