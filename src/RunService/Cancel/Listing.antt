-- ===== src/RunService/Cancel/Listing.antt =====
-- Which steps the listing of a run's steps has (adapter/postgres/run_repo.go).
use hopeitworks.Prelude.{
  ◌≡◌, sym, ap, ◌∙◌, some, List, [], ◌∷◌, inl, inr, select, find, ◌==◌, ==_iff, Bool-cases, Elem,
  leb, arith,
}
use hopeitworks.Model.Entities.{Uuid, RunStep}
use hopeitworks.World.{step_has_id}
use hopeitworks.Repo.Runs.{sort_steps, insert_step}

-- The listing of a run's steps has every stored step of the run.
pub find-Elem :
    (j : Uuid) (ss : List RunStep) (s : RunStep)
    → find (step_has_id j) ss ≡ some s
    → Elem s ss × (s.id ≡ j)
find-Elem j [] s h = absurd (ground arith)
find-Elem j (x ∷ ss) s h = elim (Bool-cases (x.id == j)) [
  | inl e ↦
      let same : s ≡ x = ground arith in
      (inl same, ap (λ (q : RunStep). q.id) same ∙ (==_iff x.id j).0 e)
  | inr e ↦ let (m, k) = find-Elem j ss s (ground arith) in (inr m, k)
]

pub select-Elem :
    (id : Uuid) (ss : List RunStep) (s : RunStep)
    → s.run_id ≡ id
    → Elem s ss
    → Elem s (select (λ (q : RunStep). q.run_id == id) ss)
select-Elem id [] s e m = m
select-Elem id (x ∷ ss) s e (inl same) =
    rw ((==_iff x.run_id id).1 (sym (ap (λ (q : RunStep). q.run_id) same) ∙ e)) (inl same)
select-Elem id (x ∷ ss) s e (inr later) = elim (Bool-cases (x.run_id == id)) [
  | inl t ↦ rw t (inr (select-Elem id ss s e later))
  | inr f ↦ rw f (select-Elem id ss s e later)
]

insert-Elem :
    (x : RunStep) (ss : List RunStep) (s : RunStep) → Elem s (x ∷ ss) → Elem s (insert_step x ss)
insert-Elem x [] s m = m
insert-Elem x (t ∷ ts) s m = elim (Bool-cases (leb x.step_order t.step_order)) [
  | inl e ↦ rw e m
  | inr e ↦ rw e (deeper m (λ k. insert-Elem x ts s k))
]
  where
    deeper :
        Elem s (x ∷ t ∷ ts)
        → (Elem s (x ∷ ts) → Elem s (insert_step x ts))
        → Elem s (t ∷ insert_step x ts)
    deeper (inl same) ih = inr (ih (inl same))
    deeper (inr (inl same)) ih = inl same
    deeper (inr (inr later)) ih = inr (ih (inr later))

pub sort-Elem : (ss : List RunStep) (s : RunStep) → Elem s ss → Elem s (sort_steps ss)
sort-Elem [] s m = m
sort-Elem (x ∷ ss) s (inl same) = insert-Elem x (sort_steps ss) s (inl same)
sort-Elem (x ∷ ss) s (inr later) = insert-Elem x (sort_steps ss) s (inr (sort-Elem ss s later))
