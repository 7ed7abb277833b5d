-- ===== src/Scheduler/Files.antt =====
-- The index of the files that stories touch.
use hopeitworks.Prelude.{
  ◌≤◌, ◌<◌, String, ◌≡◌, refl, ap, sym, subst, true, false, List, [], ◌∷◌, ◌++◌, arith, ◌=s=◌,
  =s=-refl, =s=→≡, ≡→=s=, if◌then◌else◌, Bool-cases, inl, inr, Elem,
}
use hopeitworks.Model.Entities.{Story}
use hopeitworks.Scheduler.{by_key, is_known, FileIndex, index_file, index_files, file_index}
use hopeitworks.Scheduler.Keys.{count, count-append, count-head}
use hopeitworks.Scheduler.Edges.{known_of_Elem}

-- `fileIndex[f]`.
pub keys_in : FileIndex → String → List String
keys_in [] f = []
keys_in ((f', keys) ∷ rest) f = if f' =s= f then keys else keys_in rest f

keys_in-index_file :
    (f key : String) (idx : FileIndex) (j : String)
    → keys_in (index_file f key idx) j
      ≡ (if f =s= j then keys_in idx j ++ key ∷ [] else keys_in idx j)
unfolding keys_in index_file
keys_in-index_file f key [] j = refl
keys_in-index_file f key ((f', keys) ∷ rest) j = elim (Bool-cases (f' =s= f)) [
  | inl e ↦ ground (arith, =s=→≡ f' f e)
  | inr e ↦ ground (arith, keys_in-index_file f key rest j, =s=→≡ f' j, =s=→≡ f j, ≡→=s= f' f)
]

-- Indexing more only adds keys.
count-index_file_le :
    (f key : String) (idx : FileIndex) (j k : String)
    → count k (keys_in idx j) ≤ count k (keys_in (index_file f key idx) j)
count-index_file_le f key idx j k =
    ground (arith, keys_in-index_file f key idx j, count-append k (keys_in idx j) (key ∷ []))

count-index_file :
    (f key : String) (idx : FileIndex) → 0 < count key (keys_in (index_file f key idx) f)
count-index_file f key idx = ground (
  arith,
  keys_in-index_file f key idx f,
  =s=-refl f,
  count-append key (keys_in idx f) (key ∷ []),
  count-head key [],
)

count-index_files_le :
    (key : String) (fs : List String) (idx : FileIndex) (j k : String)
    → count k (keys_in idx j) ≤ count k (keys_in (index_files key fs idx) j)
unfolding index_files
count-index_files_le key [] idx j k = omega arith
count-index_files_le key (f ∷ fs) idx j k = omega (
  arith,
  count-index_file_le f key idx j k,
  count-index_files_le key fs (index_file f key idx) j k,
)

count-index_files :
    (key : String) (fs : List String) (idx : FileIndex) (f : String)
    → Elem f fs
    → 0 < count key (keys_in (index_files key fs idx) f)
unfolding index_files
count-index_files key [] idx f m = absurd m
count-index_files key (f' ∷ fs) idx f (inl e) = rw e (
    omega (
      arith,
      count-index_file f' key idx,
      count-index_files_le key fs (index_file f' key idx) f' key,
    ))
count-index_files key (f' ∷ fs) idx f (inr m) = count-index_files key fs (index_file f' key idx) f m

count-file_index_le :
    (ss : List Story) (idx : FileIndex) (j k : String)
    → count k (keys_in idx j) ≤ count k (keys_in (file_index ss idx) j)
unfolding file_index
count-file_index_le [] idx j k = omega arith
count-file_index_le (s ∷ ss) idx j k = omega (
  arith,
  count-index_files_le s.key s.target_files idx j k,
  count-file_index_le ss (index_files s.key s.target_files idx) j k,
)

-- A story is indexed under each of its files.
pub count-file_index :
    (ss : List Story) (idx : FileIndex) (s : Story) (f : String)
    → Elem s ss
    → Elem f s.target_files
    → 0 < count s.key (keys_in (file_index ss idx) f)
unfolding file_index
count-file_index [] idx s f m n = absurd m
count-file_index (t ∷ ss) idx s f (inl e) n =
    let at : 0 < count s.key (keys_in (index_files t.key t.target_files idx) f) =
      subst (λ (u : Story). 0 < count s.key (keys_in (index_files u.key u.target_files idx) f)) e
        (count-index_files s.key s.target_files idx f n) in
    omega (arith, at, count-file_index_le ss (index_files t.key t.target_files idx) f s.key)
count-file_index (t ∷ ss) idx s f (inr m) n =
    count-file_index ss (index_files t.key t.target_files idx) s f m n

keys_in_ne :
    (f f' : String) (keys : List String) (rest : FileIndex)
    → (f' =s= f) ≡ false
    → keys_in ((f', keys) ∷ rest) f ≡ keys_in rest f
unfolding keys_in
keys_in_ne f f' keys rest e = rw e

-- The entry of a file that has a key.
pub keys_in-Elem :
    (idx : FileIndex) (f k : String) → 0 < count k (keys_in idx f) → Elem (f, keys_in idx f) idx
keys_in-Elem [] f k h = absurd (unfold count keys_in in omega arith)
keys_in-Elem ((f', keys) ∷ rest) f k h = elim (Bool-cases (f' =s= f)) [
  | inl e ↦
      inl (
        unfold keys_in in
        rw e (ap {B = String × List String} (λ x. (x, keys)) (sym (=s=→≡ f' f e))))
  | inr e ↦
      let same = keys_in_ne f f' keys rest e in
      inr (
        subst (λ ks. Elem {A = String × List String} (f, ks) rest) (sym same)
          (keys_in-Elem rest f k (subst (λ ks. 0 < count k ks) same h)))
]

-- Every key of the index is a story's.
abbrev IndexKnown : List Story → FileIndex → Type 0
IndexKnown all idx = (j k : String) → 0 < count k (keys_in idx j) → is_known (by_key all k) ≡ true

IndexKnown-index_file :
    (all : List Story) (f key : String) (idx : FileIndex)
    → is_known (by_key all key) ≡ true
    → IndexKnown all idx
    → IndexKnown all (index_file f key idx)
IndexKnown-index_file all f key idx known h j k m = elim (Bool-cases (key =s= k)) [
  | inl e ↦ rw (← =s=→≡ key k e) known
  | inr e ↦ h j k (
      unfold count in
      ground (arith, keys_in-index_file f key idx j, count-append k (keys_in idx j) (key ∷ [])))
]

IndexKnown-index_files :
    (all : List Story) (key : String) (fs : List String) (idx : FileIndex)
    → is_known (by_key all key) ≡ true
    → IndexKnown all idx
    → IndexKnown all (index_files key fs idx)
unfolding index_files
IndexKnown-index_files all key [] idx known h = h
IndexKnown-index_files all key (f ∷ fs) idx known h =
    IndexKnown-index_files all key fs _ known (IndexKnown-index_file all f key idx known h)

IndexKnown-file_index :
    (all ss : List Story) (idx : FileIndex)
    → ((s : Story) → Elem s ss → is_known (by_key all s.key) ≡ true)
    → IndexKnown all idx
    → IndexKnown all (file_index ss idx)
unfolding file_index
IndexKnown-file_index all [] idx known h = h
IndexKnown-file_index all (s ∷ ss) idx known h =
    IndexKnown-file_index all ss _ (λ t m. known t (inr m))
      (IndexKnown-index_files all s.key s.target_files idx (known s (inl refl)) h)

pub file_index_known :
    (stories : List Story) (j k : String)
    → 0 < count k (keys_in (file_index stories []) j)
    → is_known (by_key stories k) ≡ true
unfolding keys_in
file_index_known stories =
    IndexKnown-file_index stories stories [] (known_of_Elem stories)
      (λ j k m. absurd (unfold count in omega arith))
