-- ===== src/Scheduler/TakeLayer.antt =====
-- The loop over the keys of one layer, and counts of keys that pass a test.
use hopeitworks.Prelude.{
  ◌+◌, ◌≤◌, ◌<◌, String, ◌≡◌, refl, ap, ◌∙◌, Bool, true, false, ◌||◌, Option, some, List, [], ◌∷◌,
  arith, length, select, ◌=s=◌, =s=→≡, ≡→=s=, Bool-cases, inl, inr, Elem,
}
use hopeitworks.Prelude.Int.{ℤ, negsuc}
use hopeitworks.Model.Entities.{Story}
use hopeitworks.Scheduler.{Graph, update, release, take_layer, keys_of}
use hopeitworks.Scheduler.Keys.{count, count_cases, count-head, count-tail}
use hopeitworks.Scheduler.Layers.{mark}
use hopeitworks.Scheduler.Degrees.{IsGraph, IsState, take-IsState}

-- Keys that are unprocessed when their turn comes.
abbrev pub Fresh : (String → Bool) → List String → Type 0
Fresh done [] = Unit
Fresh done (k ∷ ks) = (done k ≡ false) × Fresh (update done k true) ks

pub Fresh_lem :
    (ks : List String) (done : String → Bool)
    → ((j : String) → count j ks ≤ 1)
    → ((j : String) → 0 < count j ks → done j ≡ false)
    → Fresh done ks
Fresh_lem [] done once undone = tt
Fresh_lem (k ∷ ks) done once undone = (
  undone k (count-head k ks),
  Fresh_lem ks (update done k true) (λ j. unfold count in ground (arith, once j))
      (λ j at.
        unfold update count in
        elim (Bool-cases (j =s= k)) [
          | inl e ↦ absurd (ground (arith, once j, ≡→=s= k j, =s=→≡ j k e))
          | inr e ↦ ground (arith, undone j)
        ]),
)

pub take_layer-IsState :
    (stories : String → Option Story) (g : Graph) (ks : List String) (done : String → Bool)
    (d : String → ℤ)
    → IsGraph g
    → IsState g.edge_set done d
    → Fresh done ks
    → IsState g.edge_set (mark ks done) (take_layer stories g.adj ks d).1
unfolding take_layer
take_layer-IsState stories g [] done d hg h fresh = h
take_layer-IsState stories g (k ∷ ks) done d hg h fresh =
    take_layer-IsState stories g ks (update done k true) _ hg (take-IsState g done d k hg h fresh.0)
      fresh.1

-- Every key of the layer has its story, and the group holds them in order.
pub take_layer_group :
    (stories : String → Option Story) (adj : String → List String) (ks : List String)
    (d : String → ℤ)
    → ((k : String) → 0 < count k ks → (s : Story) × (stories k ≡ some s) × (s.key ≡ k))
    → (g : List Story) × ((take_layer stories adj ks d).0 ≡ some g)
      × (keys_of g ≡ ks)
      × ((s : Story) → Elem s g → stories s.key ≡ some s)
unfolding take_layer
take_layer_group stories adj [] d known = ([], refl, refl, λ s m. absurd m)
take_layer_group stories adj (k ∷ ks) d known =
    let (s, found, at) = known k (count-head k ks) in
    let (g, same, keys, members) =
      take_layer_group stories adj ks (release (adj k) (update d k (negsuc 0)))
        (λ j m. known j (count-tail j k ks m)) in
    (
      s ∷ g,
      rw (found, same),
      cc (at, keys),
      λ t m. elim m [ inl e ↦ rw e (ap stories at ∙ found) | inr m' ↦ members t m' ],
    )

pub length-select_or :
    (p q : String → Bool) (xs : List String)
    → ((k : String) → q k ≡ true → p k ≡ false)
    → length (select (λ k. p k || q k) xs) ≡ length (select p xs) + length (select q xs)
length-select_or p q [] apart = omega arith
length-select_or p q (x ∷ xs) apart = ground (arith, apart x, length-select_or p q xs apart)

pub length-select_congr :
    (p q : String → Bool) (xs : List String)
    → ((k : String) → 0 < count k xs → p k ≡ q k)
    → length (select p xs) ≡ length (select q xs)
length-select_congr p q [] same = refl
length-select_congr p q (x ∷ xs) same =
    let tail = length-select_congr p q xs (λ k m. same k (count-tail k x xs m)) in
    ground (arith, same x (count-head x xs), tail)

-- With fewer passing keys than keys there is one that does not pass.
pub find_undone :
    (p : String → Bool) (xs : List String)
    → length (select p xs) < length xs
    → (k : String) × (0 < count k xs) × (p k ≡ false)
find_undone p [] h = elim h [ ]
find_undone p (x ∷ xs) h = elim (Bool-cases (p x)) [
  | inl e ↦
      let (k, at, undone) = find_undone p xs (ground arith) in (k, count-tail k x xs at, undone)
  | inr e ↦ (x, count-head x xs, e)
]

pub length-select-le : (p : String → Bool) (xs : List String) → length (select p xs) ≤ length xs
length-select-le p [] = omega arith
length-select-le p (x ∷ xs) = ground (arith, length-select-le p xs)

pub all_done :
    (p : String → Bool) (xs : List String) (k : String)
    → length xs ≤ length (select p xs)
    → 0 < count k xs
    → p k ≡ true
all_done p [] k h m = absurd (unfold count in omega arith)
all_done p (x ∷ xs) k h m = elim (count_cases k x xs m) [
  | inl e ↦ rw (← e) (ground (arith, length-select-le p xs))
  | inr t ↦ all_done p xs k (ground (arith, length-select-le p xs)) t
]
