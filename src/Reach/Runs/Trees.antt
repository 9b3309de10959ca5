-- ===== src/Reach/Runs/Trees.antt =====
-- Theorems on the numbering of Matrix/reach.cpp at a concrete tree.
use mathlib.Core.List.Memᴰ
use mgtag.Prelude.{
  ℕ, zero, suc, ◌^◌, ◌≤◌, ◌<◌, ◌≡◌, ◌↔◌, inl, inr, refl, List, [], ◌∷◌, some, length, Memᴰ,
  Memᴰ-cons, arith,
}
use mgtag.Reach.Graph.{Image, words, row_id, row_targets, targets, dag_get_offset, IsWhole}
use mgtag.Reach.Build.Degrees.{num}
use mgtag.Reach.Build.Counts.{count, edges_into}
use mgtag.Reach.Build.Number.{Numbering, cal_cross_degree, decode}
use mgtag.Reach.Build.Number.Trees.{keep, tree_row, IsForest}
use mgtag.Reach.Build.Number.Cross.{cal_cross_degree_lem}
use mgtag.Reach.Build.Number.Decode.{IsNumbering, decode-cal_cross_degree}

-- 0 → 1, 0 → 2 and 1 → 2
abbrev triangle : Image
triangle = record {
  files =
      (0 ∷ 0 ∷ 0 ∷ 0 ∷ 2 ∷ 0 ∷ 0 ∷ 0 ∷ 1 ∷ 0 ∷ 0 ∷ 0 ∷ 2 ∷ 0 ∷ 0 ∷ 0 ∷ 1 ∷ 0 ∷ 0 ∷ 0 ∷ 1 ∷ 0 ∷ 0 ∷ 0
        ∷ 2 ∷ 0 ∷ 0 ∷ 0 ∷ 2 ∷ 0 ∷ 0 ∷ 0 ∷ 0 ∷ 0 ∷ 0 ∷ 0 ∷ [])
      ∷ [];
  index = 1 ∷ 0 ∷ 16 ∷ 0 ∷ 28 ∷ 0 ∷ [];
  max_id = 2;
}

-- all in the tree of vertex 0
abbrev triangle_located : List ℕ
triangle_located = 1 ∷ 1 ∷ 1 ∷ []

abbrev triangle_zeros : List ℕ
triangle_zeros = 0 ∷ 0 ∷ 0 ∷ []

targets-triangle :
    (targets triangle 0 ≡ 1 ∷ 2 ∷ []) × (targets triangle 1 ≡ 2 ∷ []) × (targets triangle 2 ≡ [])
unfolding targets row_targets words dag_get_offset
targets-triangle = (refl, refl, refl)

tree_row-triangle :
    (tree_row triangle triangle_located 0 ≡ 1 ∷ 2 ∷ [])
    × (tree_row triangle triangle_located 1 ≡ 2 ∷ [])
    × (tree_row triangle triangle_located 2 ≡ [])
unfolding tree_row keep targets row_targets words dag_get_offset
tree_row-triangle = (refl, refl, refl)

edge_up : (u v : ℕ) → u ≤ 2 → Memᴰ v (targets triangle u) → (u < v) × (v ≤ 2)
edge_up zero v le m = elim ((Memᴰ-cons v 1 (2 ∷ [])).0 (rw (targets-triangle.0) at m)) [
  | inl e ↦ omega arith
  | inr n ↦ let e : v ≡ 2 = Memᴰ.eq_of_singleton n in omega arith
]
edge_up (suc zero) v le m =
    let e : v ≡ 2 = Memᴰ.eq_of_singleton (rw (targets-triangle.1) at m) in omega arith
edge_up (suc (suc zero)) v le m = absurd (Memᴰ.not-nil (rw (targets-triangle.2) at m))
edge_up (suc (suc (suc u))) v le m = absurd (omega arith)

tree_edge_up : (u v : ℕ) → u ≤ 2 → Memᴰ v (tree_row triangle triangle_located u) → (u < v) × (v ≤ 2)
tree_edge_up zero v le m =
    edge_up zero v le (rw (targets-triangle.0) (rw (tree_row-triangle.0) at m))
tree_edge_up (suc zero) v le m =
    edge_up (suc zero) v le (rw (targets-triangle.1) (rw (tree_row-triangle.1) at m))
tree_edge_up (suc (suc zero)) v le m = absurd (Memᴰ.not-nil (rw (tree_row-triangle.2) at m))
tree_edge_up (suc (suc (suc u))) v le m = absurd (omega arith)

triangle-IsWhole : IsWhole triangle
unfolding dag_get_offset
triangle-IsWhole = record { has_row = row; in_range = λ u v le m. (edge_up u v le m).1 }
  where
    row : (u : ℕ) → u ≤ 2 → (p : List ℕ) × (dag_get_offset triangle u ≡ some p) × (row_id p ≡ u)
    row zero le = (_, refl, refl)
    row (suc zero) le = (_, refl, refl)
    row (suc (suc zero)) le = (_, refl, refl)
    row (suc (suc (suc u))) le = absurd (omega arith)

reached : (v : ℕ) → 1 ≤ v → v ≤ 2 → Memᴰ v (tree_row triangle triangle_located 0)
reached zero l h = absurd (omega arith)
reached (suc zero) l h = rw (tree_row-triangle.0) (Memᴰ.head refl)
reached (suc (suc zero)) l h = rw (tree_row-triangle.0) (Memᴰ.tail (Memᴰ.head refl))
reached (suc (suc (suc v))) l h = absurd (omega arith)

triangle-IsForest : IsForest triangle triangle_located (0 ∷ [])
triangle-IsForest = record {
  distinct = ((λ m. Memᴰ.not-nil m), tt);
  vertices = λ r m. let e : r ≡ 0 = Memᴰ.eq_of_singleton m in omega arith;
  named = λ r m. rw (Memᴰ.eq_of_singleton m) refl;
  sources = source;
  rank = λ v. v;
  acyclic = λ w v h m. (tree_edge_up w v h m).0;
}
  where
    source :
        (v : ℕ)
        → v ≤ 2
        → Memᴰ v (0 ∷ []) ↔ ((w : ℕ) → w ≤ 2 → ¬ Memᴰ v (tree_row triangle triangle_located w))
    source zero h =
        (λ m w k e. absurd (omega (arith, tree_edge_up w 0 k e)), λ none. Memᴰ.head refl)
    source (suc v) h = (
      λ m. let e : suc v ≡ 0 = Memᴰ.eq_of_singleton m in absurd (omega arith),
      λ none. absurd (none 0 (omega arith) (reached (suc v) (omega arith) h)),
    )

few : (v : ℕ) → v ≤ 2 → edges_into (tree_row triangle triangle_located) v 3 0 < 2 ^ 32
unfolding edges_into count tree_row keep targets row_targets words dag_get_offset
few zero h = omega arith
few (suc zero) h = omega arith
few (suc (suc zero)) h = omega arith
few (suc (suc (suc v))) h = absurd (omega arith)

all_zero : (v : ℕ) → v ≤ 2 → num triangle_zeros v ≡ 0
all_zero zero h = refl
all_zero (suc zero) h = refl
all_zero (suc (suc zero)) h = refl
all_zero (suc (suc (suc v))) h = refl

cal_cross_degree_lem_example :
    (indeg : List ℕ) × (cal_cross_degree triangle triangle_located (0 ∷ []) triangle_zeros
      ≡ some indeg)
    × (length indeg ≡ 3)
    × ((v : ℕ) → v ≤ 2 → num indeg v ≡ edges_into (tree_row triangle triangle_located) v 3 0)
cal_cross_degree_lem_example =
    cal_cross_degree_lem triangle triangle-IsWhole triangle_located (0 ∷ []) triangle-IsForest few
      triangle_zeros refl all_zero

decode-cal_cross_degree_example :
    (indeg : List ℕ) × (cal_cross_degree triangle triangle_located (0 ∷ []) triangle_zeros
      ≡ some indeg)
    × (s : Numbering) × (decode triangle triangle_located (0 ∷ []) (1 ∷ 0 ∷ 0 ∷ []) indeg ≡ some s)
    × IsNumbering triangle triangle_located (0 ∷ []) (1 ∷ 0 ∷ 0 ∷ []) s
decode-cal_cross_degree_example =
    decode-cal_cross_degree triangle triangle-IsWhole triangle_located (0 ∷ []) (1 ∷ 0 ∷ 0 ∷ [])
      triangle-IsForest few (tt, tt) triangle_zeros refl all_zero
