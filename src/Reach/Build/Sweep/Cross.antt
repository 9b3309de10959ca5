-- ===== src/Reach/Build/Sweep/Cross.antt =====
-- Matrix/reach.cpp: the loop of `construct_index` over the crossed vertices, a layer in each round.
use mathlib.Core.List.Memᴰ
use mgtag.Prelude.{
  ℕ, zero, suc, ◌+◌, ◌^◌, ◌≤◌, ◌<◌, ◌≡◌, inl, inr, refl, ◌∙◌, false, List, [], ◌∷◌, some, Memᴰ,
  length, List-cases, ◌==◌, arith,
}
use mgtag.Reach.Graph.{Image, targets, IsWhole}
use mgtag.Reach.Build.Counts.{edges_into}
use mgtag.Reach.Build.Layers.{Layering, Roots, cross_round, cross_rounds}
use mgtag.Reach.Build.Sums.{elem_iff}
use mgtag.Reach.Build.Unseen.{unseen, unseen_lt, unseen-nil, elem-false}
use mgtag.Reach.Build.Sweep.Coming.{Layers, source_of}
use mgtag.Reach.Build.Sweep.Layer.{round_lem, sources}

module _ (im : Image) (whole : IsWhole im)
    (small : (v : ℕ) → v ≤ im.max_id → edges_into (targets im) v (suc im.max_id) 0 < 2 ^ 32)
    (rank : ℕ → ℕ)
    (acyclic : (u v : ℕ) → u ≤ im.max_id → Memᴰ v (targets im u) → rank u < rank v) where
  no_more :
      (ws : List ℕ) (l : Layering) (r : Roots)
      → Layers im whole small rank acyclic ws l r
      → l.cross_id ≡ []
      → (v : ℕ) → ¬ Memᴰ v ws
  no_more ws l r a e v m =
      let (s, i, z) =
        source_of im whole small rank acyclic l.located ws r.roots a.laid (suc (rank v)) v
          (omega arith) m in
      elim (a.cross_known s i) [
        | inl c ↦ Memᴰ.not-nil (rw e at c)
        | inr k ↦ absurd (omega (arith, a.degrees s (a.laid.below s i)))
      ]

  rounds_stop :
      (fuel : ℕ) (l : Layering) (r : Roots)
      → l.cross_id ≡ []
      → cross_rounds im fuel l r ≡ some (l, r)
  unfolding cross_rounds
  rounds_stop zero l r e = rw e refl
  rounds_stop (suc fuel) l r e = rw e refl

  rounds_go :
      (fuel v : ℕ) (vs : List ℕ) (l : Layering) (r : Roots) (l1 : Layering) (r1 : Roots)
      → l.cross_id ≡ v ∷ vs
      → cross_round im l r ≡ some (l1, r1)
      → cross_rounds im (suc fuel) l r ≡ cross_rounds im fuel l1 r1
  unfolding cross_rounds
  rounds_go fuel v vs l r l1 r1 e step =
      let some_left : (length l.cross_id == 0) ≡ false = rw e (ground arith) in
      rw (cross_rounds, some_left, step) refl

  -- The loop ends: each round lays the sources im whole small rank acyclic of what is left, and so leaves less.
  pub cross_rounds_lem :
      (fuel : ℕ) (ws : List ℕ) (l : Layering) (r : Roots)
      → Layers im whole small rank acyclic ws l r
      → suc im.max_id ≤ fuel + unseen ws (suc im.max_id) 0
      → (ws' : List ℕ) × (l' : Layering) × (r' : Roots) × (cross_rounds im fuel l r ≡ some (l', r'))
        × Layers im whole small rank acyclic ws' l' r'
        × ((v : ℕ) → ¬ Memᴰ v ws')
        × (l'.ldown ≡ l.ldown)
  cross_rounds_lem zero ws l r a enough = elim (List-cases l.cross_id) [
    | inl e ↦ (ws, l, r, rounds_stop zero l r e, a, no_more ws l r a e, refl)
    | inr (v, vs, e) ↦
        let i = a.cross_in v (rw e (Memᴰ.head refl)) in
        let less =
          unseen_lt [] ws v (suc im.max_id) 0 (λ w h. absurd (Memᴰ.not-nil ((elem_iff w []).0 h)))
            (omega arith) (omega (arith, a.laid.below v i)) (elem-false v [] Memᴰ.not-nil)
            ((elem_iff v ws).1 i) in
        absurd (omega (arith, unseen-nil (suc im.max_id) 0))
  ]
  cross_rounds_lem (suc fuel) ws l r a enough = elim (List-cases l.cross_id) [
    | inl e ↦ (ws, l, r, rounds_stop (suc fuel) l r e, a, no_more ws l r a e, refl)
    | inr (v, vs, e) ↦
        let i = a.cross_in v (rw e (Memᴰ.head refl)) in
        let (s, j, z) =
          source_of im whole small rank acyclic l.located ws r.roots a.laid (suc (rank v)) v
            (omega arith) i in
        let (bad, l1, r1, step, a1, sub, fresh, same) =
          round_lem im whole small rank acyclic ws l r a in
        let less =
          unseen_lt bad ws s (suc im.max_id) 0
            (λ w h. (elem_iff w ws).1 (sub w ((elem_iff w bad).0 h))) (omega arith)
            (omega (arith, a.laid.below s j))
            (elem-false s bad (fresh s ((sources im whole small rank acyclic ws l r a s j).1 z)))
            ((elem_iff s ws).1 j) in
        let (ws', l', r', ends, a', laid, kept) =
          cross_rounds_lem fuel bad l1 r1 a1 (omega arith) in
        (ws', l', r', rounds_go fuel v vs l r l1 r1 e step ∙ ends, a', laid, kept ∙ same)
  ]
