-- ===== src/Reach/Build/Edge.antt =====
-- Matrix/reach.cpp: what one edge does in `pre_process`.
use mgtag.Prelude.{
  ℕ, ◌≡◌, ◌≢◌, ◌⊎◌, inl, inr, sym, ap, ◌∙◌, List, [], ◌∷◌, ◌++◌, some, set, ◌==◌, Bool-cases, arith,
}
use mgtag.Reach.Build.Degrees.{num, dec32}
use mgtag.Reach.Build.Layers.{Layering, mark_edge, count_down, arrive, visit_edge}

pub mark_keeps :
    (u v : ℕ) (l : Layering)
    → ((mark_edge u v l).indeg ≡ l.indeg)
      × ((mark_edge u v l).order ≡ l.order)
      × ((mark_edge u v l).ldown ≡ l.ldown)
unfolding mark_edge
mark_keeps u v l = (ground arith, ground arith, ground arith)

-- the in-degrees after the edge
abbrev pub counted : Layering → ℕ → List ℕ
counted l v = set l.indeg v (dec32 (num l.indeg v))

-- what the edge does with the vertex it leads to
pub record Arrived (layer : ℕ) (l : Layering) (v : ℕ) (l' : Layering) : Type 0 where
  pub indeg : l'.indeg ≡ counted l v
  pub outcome :
      ((num (counted l v) v ≡ 0)
        × (l'.order ≡ l.order ++ v ∷ [])
        × (l'.ldown ≡ set l.ldown v layer))
      ⊎ ((num (counted l v) v ≢ 0) × (l'.order ≡ l.order) × (l'.ldown ≡ l.ldown))

arrived :
    (layer : ℕ) (l m : Layering) (v : ℕ)
    → m.indeg ≡ counted l v
    → m.order ≡ l.order
    → m.ldown ≡ l.ldown
    → Arrived layer l v (arrive (some layer) v m)
unfolding arrive
arrived layer l m v e1 e2 e3 = elim (Bool-cases (num m.indeg v == 0)) [
  | inl none_left ↦ rw none_left record {
    indeg = e1;
    outcome = inl (
      sym (ap (λ t. num t v) e1) ∙ (ground arith),
      ap (λ t. t ++ v ∷ []) e2,
      ap (λ t. set t v layer) e3,
    );
  }
  | inr some_left ↦
      rw some_left
        record { indeg = e1; outcome = inr (λ z. ground (arith, ap (λ t. num t v) e1), e2, e3) }
]

pub visit_edge-Arrived :
    (layer u : ℕ) (l : Layering) (v : ℕ) → Arrived layer l v (visit_edge (some layer) u l v)
unfolding visit_edge
visit_edge-Arrived layer u l v =
    let (a, b, c) = mark_keeps u v (count_down v l) in
    arrived layer l (mark_edge u v (count_down v l)) v a b c
