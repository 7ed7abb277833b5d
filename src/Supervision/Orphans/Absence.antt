-- ===== src/Supervision/Orphans/Absence.antt =====
-- What the test of the orphan reconciler says of the stored steps and the listing.
use hopeitworks.Prelude.{
  ◌≡◌, refl, ap, ◌∙◌, subst, ◌≢◌, ℕ, ◌+◌, ◌≤◌, String, Bool, true, false, Option, none, some, List,
  [], ◌∷◌, ◌⊎◌, inl, inr, Elem, Bool-cases, ==_iff, ≡→=s=, =s=-refl, ◌=s=◌, ◌==◌, ◌&&◌, select,
  if◌then◌else◌, arith,
}
use hopeitworks.Model.Status.{StepStatus, step_status_eq}
use hopeitworks.Model.Entities.{Uuid, Time, RunStep}
use hopeitworks.World.{World}
use hopeitworks.Repo.Runs.{steps_of_run, sort_steps, insert_step}
use hopeitworks.Supervision.Orphans.{any, is_alive, is_lost, has_lost_container}

-- A stored step of the run is running, and has the identifier of a container that was launched at
-- least the grace window before the clock's time and that no listed container has.
abbrev pub HasLostContainer : ℕ → List String → World → Uuid → Type 0
HasLostContainer grace live w id =
    (s : RunStep) × Elem s w.run_steps
    × (s.run_id ≡ id)
    × (s.status ≡ StepStatus.running)
    × (c : String) × (s.container_id ≡ some c)
    × (c ≢ "")
    × (¬ Elem c live)
    × (t : Time) × (s.started_at ≡ some t)
    × (t + grace ≤ w.clock)

any-Elem :
    {A : Type 0} (p : A → Bool) (xs : List A) → any p xs ≡ true → (x : A) × Elem x xs × (p x ≡ true)
any-Elem p [] h = absurd (ground arith)
any-Elem p (x ∷ xs) h = elim (Bool-cases (p x)) [
  | inl here ↦ (x, inl refl, here)
  | inr not_here ↦ let (y, m, k) = any-Elem p xs (ground arith) in (y, inr m, k)
]

insert-Elem : (a s : RunStep) (ss : List RunStep) → Elem a (insert_step s ss) → (a ≡ s) ⊎ Elem a ss
insert-Elem a s [] h = h
insert-Elem a s (t ∷ ts) h = ground (arith, insert-Elem a s ts)

sort-Elem : (a : RunStep) (ss : List RunStep) → Elem a (sort_steps ss) → Elem a ss
sort-Elem a [] h = h
sort-Elem a (s ∷ ss) h = elim (insert-Elem a s (sort_steps ss) h) [
  | inl same ↦ inl same
  | inr m ↦ inr (sort-Elem a ss m)
]

select-Elem :
    (id : Uuid) (a : RunStep) (ss : List RunStep)
    → Elem a (select (λ (s : RunStep). s.run_id == id) ss)
    → Elem a ss × (a.run_id ≡ id)
select-Elem id a [] h = absurd h
select-Elem id a (s ∷ ss) h = go (s.run_id == id) refl h (select-Elem id a ss)
  where
    rest : List RunStep
    rest = select (λ (x : RunStep). x.run_id == id) ss

    go :
        (b : Bool)
        → (s.run_id == id) ≡ b
        → Elem a (if b then s ∷ rest else rest)
        → (Elem a rest → Elem a ss × (a.run_id ≡ id))
        → Elem a (s ∷ ss) × (a.run_id ≡ id)
    go true e (inl same) k =
        (inl same, ap (λ (x : RunStep). x.run_id) same ∙ (==_iff s.run_id id).0 e)
    go true e (inr m) k = let (stored, own) = k m in (inr stored, own)
    go false e m k = let (stored, own) = k m in (inr stored, own)

listed-alive :
    (c : String) (live : List String) → (c =s= "") ≡ false → Elem c live → is_alive live c ≡ true
listed-alive c [] h m = absurd m
listed-alive c (x ∷ live) h (inl e) =
    subst (λ x. is_alive (x ∷ live) c ≡ true) e (ground (arith, =s=-refl c))
listed-alive c (x ∷ live) h (inr m) = ground (arith, listed-alive c live h m)

lost-step :
    (grace : ℕ) (live : List String) (now : Time) (status : StepStatus) (o : Option String)
    (b : Option Time)
    → (step_status_eq status StepStatus.running && has_lost_container grace live now o b) ≡ true
    → (status ≡ StepStatus.running)
      × (c : String) × (o ≡ some c)
      × (c ≢ "")
      × (¬ Elem c live)
      × (t : Time) × (b ≡ some t)
      × (t + grace ≤ now)
lost-step grace live now status none b h = absurd (ground arith)
lost-step grace live now status (some c) none h = absurd (ground arith)
lost-step grace live now status (some c) (some t) h = (
  ground arith,
  c,
  refl,
  (λ e. ground (arith, ≡→=s= c "" e)),
  (λ m. ground (arith, listed-alive c live (ground arith) m)),
  t,
  refl,
  ground arith,
)

pub lost-HasLostContainer :
    (grace : ℕ) (live : List String) (w : World) (id : Uuid)
    → any (is_lost grace live w.clock) (steps_of_run id w.run_steps) ≡ true
    → HasLostContainer grace live w id
lost-HasLostContainer grace live w id h =
    let (s, m, lost) = any-Elem (is_lost grace live w.clock) (steps_of_run id w.run_steps) h in
    let (stored, own) = select-Elem id s w.run_steps (sort-Elem s _ m) in
    let (running, c, id_, named, unlisted, t, at, late) =
      lost-step grace live w.clock s.status s.container_id s.started_at lost in
    (s, stored, own, running, c, id_, named, unlisted, t, at, late)
