-- ===== src/Scheduler/Walk.antt =====
-- What holds at each layer of a layered schedule: the keys done before it are closed under
-- predecessors, and its own keys have all their predecessors done.
use mathlib.Core.List.{map-append}
use hopeitworks.Prelude.{
  ◌<◌, String, ◌≡◌, refl, ◌∙◌, sym, Bool, true, false, Option, List, [], ◌∷◌, ◌++◌, arith, concat,
  Bool-cases, inl, inr, Elem,
}
use hopeitworks.Model.Entities.{Story}
use hopeitworks.Scheduler.{Edge, has_edge, keys_of}
use hopeitworks.Scheduler.Keys.{count, count_cases, count-head, count-tail}
use hopeitworks.Scheduler.Degrees.{pending, edge-pending, count-has_edge}
use hopeitworks.Scheduler.Layers.{mark, mark-count, is_free, IsLayer, Layered}
use hopeitworks.Scheduler.Chains.{Chained}

pub keys_of-append : (g h : List Story) → keys_of (g ++ h) ≡ keys_of g ++ keys_of h
keys_of-append g h = map-append (λ (s : Story). s.key) g h

pub count-Elem : (s : Story) (g : List Story) → Elem s g → 0 < count s.key (keys_of g)
count-Elem s [] m = absurd m
count-Elem s (t ∷ g) (inl e) = rw e (count-head t.key (keys_of g))
count-Elem s (t ∷ g) (inr m) = count-tail s.key t.key (keys_of g) (count-Elem s g m)

module _ (es : List Edge) (done : String → Bool) where
  pub free_undone : (k : String) → is_free es done k ≡ true → done k ≡ false
  unfolding is_free
  free_undone k h = ground arith

  free_pending : (k : String) → is_free es done k ≡ true → pending done k es ≡ 0
  unfolding is_free
  free_pending k h = ground arith

  pub free_pred :
      (s k : String) → is_free es done k ≡ true → has_edge (s, k) es ≡ true → done s ≡ true
  free_pred s k h e = elim (Bool-cases (done s)) [
    | inl d ↦ d
    | inr u ↦
        absurd
          (omega (arith, free_pending k h, edge-pending done s k es (count-has_edge s k es e) u))
  ]

  -- With a key its predecessors are done.
  abbrev pub IsClosed : Type 0
  IsClosed = (s k : String) → has_edge (s, k) es ≡ true → done k ≡ true → done s ≡ true

  -- On a chain, everything before a done key is done,
  chain_done :
      (x j : String) (ks : List String)
      → IsClosed
      → Chained es (x ∷ ks)
      → 0 < count j ks
      → done j ≡ true
      → done x ≡ true
  chain_done x j [] closed c m d = absurd (unfold count in omega arith)
  chain_done x j (y ∷ ks) closed c m d = elim (count_cases j y ks m) [
    | inl e ↦ closed x y c.0 (rw e d)
    | inr m' ↦ closed x y c.0 (chain_done y j ks closed c.1 m' d)
  ]

  -- and everything before a free key is.
  chain_free :
      (x j : String) (ks : List String)
      → IsClosed
      → Chained es (x ∷ ks)
      → 0 < count j ks
      → is_free es done j ≡ true
      → done x ≡ true
  chain_free x j [] closed c m f = absurd (unfold count in omega arith)
  chain_free x j (y ∷ ks) closed c m f = elim (count_cases j y ks m) [
    | inl e ↦ free_pred x y (rw e f) c.0
    | inr m' ↦ closed x y c.0 (chain_free y j ks closed c.1 m' f)
  ]

  Chained-tail : (x : String) (ks : List String) → Chained es (x ∷ ks) → Chained es ks
  Chained-tail x [] c = tt
  Chained-tail x (y ∷ ks) c = c.1

  free_after_free :
      (x j : String) (ks : List String)
      → IsClosed
      → Chained es (x ∷ ks)
      → 0 < count j ks
      → is_free es done x ≡ true
      → is_free es done j ≡ true
      → ⊥
  free_after_free x j ks closed c m fx fj =
      let d = chain_free x j ks closed c m fj in let u = free_undone x fx in cc

  -- Of one chain at most one key is free.
  pub chain_free_unique :
      (a b : String) (ks : List String)
      → IsClosed
      → Chained es ks
      → is_free es done a ≡ true
      → is_free es done b ≡ true
      → 0 < count a ks
      → 0 < count b ks
      → a ≡ b
  chain_free_unique a b [] closed c fa fb ma mb = absurd (unfold count in omega arith)
  chain_free_unique a b (x ∷ ks) closed c fa fb ma mb = elim (count_cases a x ks ma) [
    | inl ea ↦ elim (count_cases b x ks mb) [
      | inl eb ↦ sym ea ∙ eb
      | inr mb' ↦ absurd (free_after_free x b ks closed c mb' (rw ea fa) fb)
    ]
    | inr ma' ↦ elim (count_cases b x ks mb) [
      | inl eb ↦ absurd (free_after_free x a ks closed c ma' (rw eb fb) fa)
      | inr mb' ↦ chain_free_unique a b ks closed (Chained-tail x ks c) fa fb ma' mb'
    ]
  ]

module _ (stories : String → Option Story) (es : List Edge) (keys : List String) where
  pub layer_free :
      (done : String → Bool) (g : List Story) (k : String)
      → IsLayer stories es keys done g
      → 0 < count k (keys_of g)
      → is_free es done k ≡ true
  layer_free done g k l m = ground (arith, l.counts k)

  layer-IsClosed :
      (done : String → Bool) (g : List Story)
      → IsLayer stories es keys done g
      → IsClosed es done
      → IsClosed es (mark (keys_of g) done)
  layer-IsClosed done g l closed s k e d =
      let done_s : done s ≡ true = elim (Bool-cases (done k)) [
        | inl dk ↦ closed s k e dk
        | inr uk ↦
            free_pred es done s k
              (layer_free done g k l (ground (arith, mark-count (keys_of g) done k))) e
      ] in
      ground (arith, mark-count (keys_of g) done s)

  mark-append :
      (g h : List Story) (done : String → Bool)
      → mark (keys_of (g ++ h)) done ≡ mark (keys_of h) (mark (keys_of g) done)
  mark-append [] h done = refl
  mark-append (s ∷ g) h done = mark-append g h _

  -- Any layer of the schedule, seen from the keys done before it.
  pub Layered-at :
      (before : List (List Story)) (g : List Story) (after : List (List Story))
      (done : String → Bool)
      → IsClosed es done
      → Layered stories es keys done (before ++ g ∷ after)
      → IsLayer stories es keys (mark (keys_of (concat before)) done) g
        × IsClosed es (mark (keys_of (concat before)) done)
  Layered-at [] g after done closed h = (h.0, closed)
  Layered-at (b ∷ before) g after done closed h =
      rw (mark-append b (concat before) done)
        (Layered-at before g after (mark (keys_of b) done) (layer-IsClosed done b h.0 closed) h.1)
