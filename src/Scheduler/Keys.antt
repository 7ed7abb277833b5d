-- ===== src/Scheduler/Keys.antt =====
-- Keys counted in lists, and what the scheduler's sort and tests do to the counts.
use hopeitworks.Prelude.{
  ℕ, suc, ◌+◌, ◌<◌, String, ◌≡◌, refl, Bool, true, List, [], ◌∷◌, ◌++◌, arith, length, select,
  ◌=s=◌, =s=-refl, =s=→≡, ≡→=s=, if◌then◌else◌, some, Option-cases, ap, ◌∙◌, Bool-cases, inl, inr,
  ◌⊎◌, Elem,
}
use hopeitworks.Model.Entities.{Story}
use hopeitworks.Scheduler.{update, insert_sorted, sort_strings, by_key, keys_of, is_known}

-- How often a key stands in a list.
unfoldable pub count : String → List String → ℕ
count k [] = 0
count k (x ∷ xs) = let rest = count k xs in if x =s= k then suc rest else rest

pub =s=-sym : (s t : String) → (s =s= t) ≡ (t =s= s)
=s=-sym s t = ground (arith, =s=→≡ s t, ≡→=s= s t, =s=→≡ t s, ≡→=s= t s)

pub count-append : (k : String) (xs ys : List String) → count k (xs ++ ys) ≡ count k xs + count k ys
unfolding count
count-append k [] ys = ground arith
count-append k (x ∷ xs) ys = ground (arith, count-append k xs ys)

count-insert_sorted :
    (k x : String) (xs : List String) → count k (insert_sorted x xs) ≡ count k (x ∷ xs)
unfolding count insert_sorted
count-insert_sorted k x [] = refl
count-insert_sorted k x (y ∷ ys) = ground (arith, count-insert_sorted k x ys)

-- Sorting keeps every key as often as it was.
pub count-sort_strings : (k : String) (xs : List String) → count k (sort_strings xs) ≡ count k xs
unfolding count sort_strings
count-sort_strings k [] = refl
count-sort_strings k (x ∷ xs) =
    ground (arith, count-insert_sorted k x (sort_strings xs), count-sort_strings k xs)

length-insert_sorted :
    (x : String) (xs : List String) → length (insert_sorted x xs) ≡ suc (length xs)
unfolding insert_sorted
length-insert_sorted x [] = refl
length-insert_sorted x (y ∷ ys) = ground (arith, length-insert_sorted x ys)

pub length-sort_strings : (xs : List String) → length (sort_strings xs) ≡ length xs
unfolding sort_strings
length-sort_strings [] = refl
length-sort_strings (x ∷ xs) =
    omega (arith, length-insert_sorted x (sort_strings xs), length-sort_strings xs)

pub count-select :
    (k : String) (p : String → Bool) (xs : List String)
    → count k (select p xs) ≡ (if p k then count k xs else 0)
unfolding count
count-select k p [] = ground arith
count-select k p (x ∷ xs) = elim (Bool-cases (x =s= k)) [
  | inl e ↦ ground (arith, count-select k p xs, =s=→≡ x k e)
  | inr e ↦ ground (arith, count-select k p xs)
]

pub update_self {ℓ} : {V : Type ℓ} (m : String → V) (k : String) (v : V) → update m k v k ≡ v
unfolding update
update_self m k v = ground (arith, =s=-refl k)

pub count-head : (k : String) (xs : List String) → 0 < count k (k ∷ xs)
unfolding count
count-head k xs = ground (arith, =s=-refl k)

pub count-tail : (k x : String) (xs : List String) → 0 < count k xs → 0 < count k (x ∷ xs)
unfolding count
count-tail k x xs h = ground arith

-- A counted key, split: it is the head, or it is in the tail.
pub count_cases :
    (k x : String) (xs : List String) → 0 < count k (x ∷ xs) → (x ≡ k) ⊎ (0 < count k xs)
unfolding count
count_cases k x xs h = elim (Bool-cases (x =s= k)) [
  | inl e ↦ inl (=s=→≡ x k e)
  | inr e ↦ inr (ground arith)
]

-- A found story has the key that was looked up, and is one of the stories.
pub by_key_sound :
    (ss : List Story) (k : String) (s : Story) → by_key ss k ≡ some s → (s.key ≡ k) × Elem s ss
unfolding by_key
by_key_sound [] k s h = absurd (ground arith)
by_key_sound (t ∷ ss) k s h = elim (Option-cases (by_key ss k)) [
  | inl e ↦
      let at : (t.key =s= k) ≡ true = ground arith in
      let same : s ≡ t = ground arith in
      (ap (λ (u : Story). u.key) same ∙ =s=→≡ t.key k at, inl same)
  | inr (u, e) ↦ let r = by_key_sound ss k s (ground arith) in (r.0, inr r.1)
]

-- A key of the list is found.
pub by_key_total :
    (ss : List Story) (k : String) → 0 < count k (keys_of ss) → is_known (by_key ss k) ≡ true
unfolding by_key count
by_key_total [] k h = elim h [ ]
by_key_total (t ∷ ss) k h = ground (arith, by_key_total ss k)

pub known-count :
    (ss : List Story) (k : String) → is_known (by_key ss k) ≡ true → 0 < count k (keys_of ss)
unfolding by_key count
known-count [] k h = absurd (ground arith)
known-count (t ∷ ss) k h = ground (arith, known-count ss k)
