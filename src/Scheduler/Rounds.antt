-- ===== src/Scheduler/Rounds.antt =====
-- Kahn's rounds: each layer is the set of unprocessed keys with no unprocessed predecessor, the
-- loop ends within its fuel, and it reports a cycle just when the rest has no such key.
use hopeitworks.Prelude.{
  ℕ, zero, suc, ◌+◌, ◌≤◌, ◌<◌, String, ◌≡◌, refl, ap, ◌∙◌, sym, subst, Bool, true, false, ◌||◌,
  Option, none, some, List, [], ◌∷◌, arith, length, length-map, select, ltb, if◌then◌else◌,
  Bool-cases, inl, inr, Elem,
}
use hopeitworks.Prelude.Int.{ℤ, is_zero}
use hopeitworks.Model.Entities.{Story}
use hopeitworks.Scheduler.{
  Graph, take_layer, Outcome, after_layer, round, kahn, keys_of, sort_strings,
}
use hopeitworks.Scheduler.Keys.{count, count-sort_strings, count-select, length-sort_strings}
use hopeitworks.Scheduler.Layers.{mark, mark-count, is_free, IsLayer, Ends, Ends-cons}
use hopeitworks.Scheduler.Degrees.{pending, IsGraph, IsState}
use hopeitworks.Scheduler.TakeLayer.{
  Fresh, Fresh_lem, take_layer-IsState, take_layer_group, length-select_or, length-select_congr,
  find_undone, length-select-le, all_done,
}

module _ (stories : String → Option Story) (g : Graph) (keys : List String) (hg : IsGraph g)
    (known : (k : String) → 0 < count k keys → (s : Story) × (stories k ≡ some s) × (s.key ≡ k))
    (once : (k : String) → count k keys ≤ 1) where
  zero-is_free :
      (done : String → Bool) (d : String → ℤ) (k : String)
      → IsState g.edge_set done d
      → is_zero (d k) ≡ is_free g.edge_set done k
  unfolding is_free
  zero-is_free done d k h = elim (Bool-cases (done k)) [
    | inl e ↦ ground (arith, h.at_done k)
    | inr e ↦ ground (arith, h.at_open k)
  ]

  module _ (done : String → Bool) (d : String → ℤ) (h : IsState g.edge_set done d) where
    abbrev zeros : List String
    zeros = select (λ k. is_zero (d k)) keys

    count-zeros :
        (k : String)
        → count k (sort_strings zeros) ≡ (if is_free g.edge_set done k then count k keys else 0)
    count-zeros k =
        count-sort_strings k zeros
        ∙ count-select k (λ j. is_zero (d j)) keys
        ∙ rw (zero-is_free done d k h)

    zeros-Fresh : Fresh done (sort_strings zeros)
    zeros-Fresh =
        Fresh_lem (sort_strings zeros) done (λ j. ground (arith, count-zeros j, once j))
          (λ j m. unfold is_free in ground (arith, count-zeros j))

    mark-zeros :
        (k : String)
        → 0 < count k keys
        → mark (sort_strings zeros) done k ≡ (done k || is_zero (d k))
    mark-zeros k m =
        mark-count (sort_strings zeros) done k
        ∙ ground (arith, count-zeros k, zero-is_free done d k h)

    zero_undone : (k : String) → is_zero (d k) ≡ true → done k ≡ false
    zero_undone k z = elim (Bool-cases (done k)) [
      | inl e ↦ absurd (ground (arith, h.at_done k))
      | inr e ↦ e
    ]

    -- The loop's counter stays the number of processed keys.
    processed_layer :
        length (select (mark (sort_strings zeros) done) keys)
        ≡ length (select done keys) + length zeros
    processed_layer =
        length-select_congr (mark (sort_strings zeros) done) (λ k. done k || is_zero (d k)) keys
          mark-zeros
        ∙ length-select_or done (λ k. is_zero (d k)) keys zero_undone

  -- The stories of the layer, with the degrees that it leaves.
  layer_group :
      (ks : List String) (d : String → ℤ)
      → ((k : String) → 0 < count k ks → 0 < count k keys)
      → (grp : List Story) × ((take_layer stories g.adj ks d).0 ≡ some grp)
        × (keys_of grp ≡ ks)
        × ((s : Story) → Elem s grp → stories s.key ≡ some s)
  layer_group ks d inside = take_layer_group stories g.adj ks d (λ k m. known k (inside k m))

  module _ (done : String → Bool) (d : String → ℤ) (processed : ℕ)
      (next : (String → ℤ) → ℕ → Outcome) (h : IsState g.edge_set done d) where
    after_layer-Ends :
        (ks : List String) (grp : List Story) (t : Option (List Story) × (String → ℤ))
        → t.0 ≡ some grp
        → keys_of grp ≡ ks
        → IsLayer stories g.edge_set keys done grp
        → Ends stories g.edge_set keys (mark ks done) (next t.1 (processed + length grp))
        → Ends stories g.edge_set keys done (after_layer t next processed)
    after_layer-Ends ks grp (none, d') found at l rest = absurd (ground arith)
    after_layer-Ends ks grp (some grp', d') found at l rest =
        let same : grp' ≡ grp = cc in
        rw same (
          Ends-cons stories g.edge_set keys done grp (next d' (processed + length grp)) l (
            subst
              (λ js. Ends stories g.edge_set keys (mark js done) (next d' (processed + length grp)))
              (sym at) rest))

    -- What a round must know of the rounds after it.
    abbrev Rest : Type 0
    Rest =
        (done' : String → Bool) (d' : String → ℤ) (n : ℕ)
        → IsState g.edge_set done' d'
        → n ≡ length (select done' keys)
        → processed < n
        → Ends stories g.edge_set keys done' (next d' n)

    count_layer :
        (zs : List String)
        → zeros done d h ≡ zs
        → (k : String)
        → count k (sort_strings zs) ≡ (if is_free g.edge_set done k then count k keys else 0)
    count_layer zs e k =
        subst
          (λ l. count k (sort_strings l) ≡ (if is_free g.edge_set done k then count k keys else 0))
          e (count-zeros done d h k)

    blocked_lem :
        zeros done d h ≡ []
        → (k : String) → 0 < count k keys
        → done k ≡ false
        → 0 < pending done k g.edge_set
    unfolding is_free sort_strings count
    blocked_lem e k m undone = ground (arith, count_layer [] e k)

    length_layer :
        (zs : List String) (grp : List Story)
        → keys_of grp ≡ sort_strings zs
        → length grp ≡ length zs
    length_layer zs grp at =
        sym (length-map (λ (s : Story). s.key) grp) ∙ ap length at ∙ length-sort_strings zs

    round-Ends :
        (zs : List String)
        → zeros done d h ≡ zs
        → processed ≡ length (select done keys)
        → processed < length keys
        → Rest
        → Ends stories g.edge_set keys done (round stories g.adj zs d next processed)
    round-Ends [] e count_ok more rest =
        let (k, m, undone) = find_undone done keys (omega arith) in
        (
          refl,
          record {
            done = done;
            blocked = blocked_lem e;
            left = k;
            left_key = m;
            left_undone = undone;
          },
        )
    round-Ends (z ∷ zs) e count_ok more rest =
        let ks = sort_strings (z ∷ zs) in
        let (grp, found, at, members) =
          layer_group ks d (λ k m. ground (arith, count_layer (z ∷ zs) e k)) in
        after_layer-Ends ks grp (take_layer stories g.adj ks d) found at
          (record { counts = λ k. ap (count k) at ∙ count_layer (z ∷ zs) e k; found = members })
          (rest (mark ks done) (take_layer stories g.adj ks d).1 (processed + length grp)
            (take_layer-IsState stories g ks done d hg h
              (subst (λ l. Fresh done (sort_strings l)) e (zeros-Fresh done d h)))
            (omega (
              arith,
              length_layer (z ∷ zs) grp at,
              ap length e,
              subst
                  (λ l.
                    length (select (mark (sort_strings l) done) keys)
                    ≡ length (select done keys) + length (zeros done d h))
                  e (processed_layer done d h),
            ))
            (omega (arith, length_layer (z ∷ zs) grp at)))

  -- With fuel for the keys that are left the loop ends: in layers, or stuck.
  pub kahn-Ends :
      (fuel : ℕ) (done : String → Bool) (d : String → ℤ) (processed : ℕ)
      → IsState g.edge_set done d
      → processed ≡ length (select done keys)
      → length keys < processed + fuel
      → Ends stories g.edge_set keys done (kahn fuel stories g.adj keys d processed)
  unfolding kahn
  kahn-Ends zero done d processed h count_ok enough =
      absurd (omega (arith, length-select-le done keys))
  kahn-Ends (suc fuel) done d processed h count_ok enough =
      elim (Bool-cases (ltb processed (length keys))) [
        | inl more ↦
            rw (more, Ends)
              (round-Ends done d processed (kahn fuel stories g.adj keys) h (zeros done d h) refl
                count_ok (ground arith)
                (λ done' d' n h' c lt. kahn-Ends fuel done' d' n h' c (omega arith)))
        | inr over ↦ rw (over, Ends) (λ k m. all_done done keys k (ground arith) m)
      ]
