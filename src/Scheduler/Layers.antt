-- ===== src/Scheduler/Layers.antt =====
-- What a run of Kahn's algorithm shows: layers of free keys, or keys that block one another.
use hopeitworks.Prelude.{
  ◌<◌, String, ◌≡◌, ◌∙◌, Bool, true, false, ◌||◌, Option, some, List, [], ◌∷◌, arith, ltb, ◌=s=◌,
  =s=-refl, =s=→≡, ≡→=s=, if◌then◌else◌, Bool-cases, inl, inr, Elem,
}
use hopeitworks.Prelude.Int.{pos, is_zero}
use hopeitworks.Model.Entities.{Story}
use hopeitworks.Scheduler.{
  Edge, update, Outcome, groups, failure, nil_deref, out_of_fuel, cons_group, keys_of,
  dag_cycle_detected,
}
use hopeitworks.Scheduler.Keys.{count}
use hopeitworks.Scheduler.Degrees.{pending}

-- The processed keys after a list of keys is taken.
abbrev pub mark : List String → (String → Bool) → String → Bool
mark [] done = done
mark (k ∷ ks) done = mark ks (update done k true)

pub mark-count :
    (ks : List String) (done : String → Bool) (j : String)
    → mark ks done j ≡ (done j || ltb 0 (count j ks))
unfolding count
mark-count [] done j = ground arith
mark-count (k ∷ ks) done j =
    mark-count ks (update done k true) j
    ∙ (unfold update in
        elim (Bool-cases (j =s= k)) [
          | inl e ↦ ground (arith, =s=→≡ j k e, =s=-refl k)
          | inr e ↦ ground (arith, ≡→=s= j k, =s=→≡ k j)
        ])

-- A layer: the unprocessed keys without an unprocessed predecessor, each as often as in the input.
unfoldable pub is_free : List Edge → (String → Bool) → String → Bool
is_free es done k = elim (done k) [ true ↦ false | false ↦ is_zero (pos (pending done k es)) ]

-- Its stories are those found under their keys.
pub record IsLayer (stories : String → Option Story) (es : List Edge) (keys : List String)
    (done : String → Bool) (g : List Story) : Type 0 where
  pub counts : (k : String) → count k (keys_of g) ≡ (if is_free es done k then count k keys else 0)
  pub found : (s : Story) → Elem s g → stories s.key ≡ some s

module _ (stories : String → Option Story) (es : List Edge) (keys : List String) where
  abbrev pub Layered : (String → Bool) → List (List Story) → Type 0
  Layered done [] = (k : String) → 0 < count k keys → done k ≡ true
  Layered done (g ∷ gs) = IsLayer stories es keys done g × Layered (mark (keys_of g) done) gs

-- Some keys are left, and each of those has a predecessor that is left.
pub record IsStuck (es : List Edge) (keys : List String) : Type 0 where
  pub done : String → Bool
  pub blocked : (k : String) → 0 < count k keys → done k ≡ false → 0 < pending done k es
  pub left : String
  pub left_key : 0 < count left keys
  pub left_undone : done left ≡ false

module _ (stories : String → Option Story) (es : List Edge) (keys : List String) where
  abbrev pub Ends : (String → Bool) → Outcome → Type 0
  Ends done (groups gs) = Layered stories es keys done gs
  Ends done (failure e) = (e ≡ dag_cycle_detected) × IsStuck es keys
  Ends done nil_deref = ⊥
  Ends done out_of_fuel = ⊥

  pub Ends-cons :
      (done : String → Bool) (g : List Story) (o : Outcome)
      → IsLayer stories es keys done g
      → Ends (mark (keys_of g) done) o
      → Ends done (cons_group g o)
  Ends-cons done g (groups gs) l h = (l, h)
  Ends-cons done g (failure e) l h = h
  Ends-cons done g nil_deref l h = h
  Ends-cons done g out_of_fuel l h = h
