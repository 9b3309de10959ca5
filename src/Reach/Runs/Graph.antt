-- ===== src/Reach/Runs/Graph.antt =====
-- A graph of three vertices, and what `construct_index` of Matrix/reach.cpp builds for it.
use mathlib.Core.List.Memᴰ
use mgtag.Prelude.{
  ℕ, zero, suc, ◌≤◌, ◌<◌, ◌≡◌, ◌⊎◌, inl, inr, refl, List, [], ◌∷◌, some, Memᴰ, sort, arith,
}
use mgtag.Reach.Graph.{
  Image, words, row_id, row_targets, targets, dag_get_offset, IsWhole, Walk, here, step,
}
use mgtag.Reach.Labels.{Labels}
use mgtag.Reach.Build.Degrees.{
  init_degree, count_rows, count_row, get_forward_root_vertices, select_from,
}
use mgtag.Reach.Build.Layers.{
  layer_graph, cross_rounds, cross_round, pre_process, pre_process_cross, rounds, visit_row,
  visit_edge, mark_edge, arrive,
}
use mgtag.Reach.Build.Number.{
  cal_cross_degree, count_trees, count_tree, count_edge, decode, number_trees, number_tree,
  number_edge,
}
use mgtag.Reach.Build.Index.{cal_index, index_vertex, scan_edge, is_excp}
use mgtag.Reach.Build.Entries.{
  cal_excp_and_cross_arr, entries_vertex, own_excp, take_edge, take_excp, take_cross, is_reachable,
  is_reachable_scan, same_tree_reach, same_tree_scan,
}
use mgtag.Reach.Build.Construct.{construct_index, labels_of}

-- 0 → 2 and 1 → 2: vertex 2 is shared by the trees of 0 and 1.
abbrev pub fork : Image
fork = record {
  files =
      (0 ∷ 0 ∷ 0 ∷ 0 ∷ 1 ∷ 0 ∷ 0 ∷ 0 ∷ 2 ∷ 0 ∷ 0 ∷ 0 ∷ 1 ∷ 0 ∷ 0 ∷ 0 ∷ 1 ∷ 0 ∷ 0 ∷ 0 ∷ 2 ∷ 0 ∷ 0 ∷ 0
        ∷ 2 ∷ 0 ∷ 0 ∷ 0 ∷ 0 ∷ 0 ∷ 0 ∷ 0 ∷ [])
      ∷ [];
  index = 1 ∷ 0 ∷ 12 ∷ 0 ∷ 24 ∷ 0 ∷ [];
  max_id = 2;
}

-- What `construct_index` builds for it.
abbrev pub fork_labels : Labels
fork_labels = record {
  new_id = 1 ∷ 2 ∷ 3 ∷ [];
  lup = 2 ∷ 2 ∷ 1 ∷ [];
  ldown = 1 ∷ 1 ∷ 2 ∷ [];
  rl = 0 ∷ 1 ∷ 1 ∷ 2 ∷ [];
  rlt = 0 ∷ 1 ∷ 2 ∷ 3 ∷ [];
  interval = 0 ∷ 1 ∷ 2 ∷ 3 ∷ [];
  excp = [] ∷ [] ∷ [] ∷ [] ∷ [];
  cross = [] ∷ (3 ∷ []) ∷ (3 ∷ []) ∷ [] ∷ [];
}

pub fork_built : construct_index (λ xs. xs) fork ≡ some fork_labels
unfolding construct_index labels_of init_degree count_rows count_row get_forward_root_vertices
    select_from layer_graph cross_rounds cross_round pre_process pre_process_cross rounds visit_row
    visit_edge mark_edge arrive cal_cross_degree count_trees count_tree count_edge decode
    number_trees number_tree number_edge cal_index index_vertex scan_edge is_excp
    cal_excp_and_cross_arr entries_vertex own_excp take_edge take_excp take_cross is_reachable
    is_reachable_scan same_tree_reach same_tree_scan sort targets row_targets words dag_get_offset
fork_built = refl

pub targets-fork : (targets fork 0 ≡ 2 ∷ []) × (targets fork 1 ≡ 2 ∷ []) × (targets fork 2 ≡ [])
unfolding targets row_targets words dag_get_offset
targets-fork = (refl, refl, refl)

pub edge-fork : (u v : ℕ) → u ≤ 2 → Memᴰ v (targets fork u) → (u < 2) × (v ≡ 2)
edge-fork zero v le m = (omega arith, Memᴰ.eq_of_singleton (rw (targets-fork.0) at m))
edge-fork (suc zero) v le m = (omega arith, Memᴰ.eq_of_singleton (rw (targets-fork.1) at m))
edge-fork (suc (suc zero)) v le m = absurd (Memᴰ.not-nil (rw (targets-fork.2) at m))
edge-fork (suc (suc (suc u))) v le m = absurd (omega arith)

pub edge_to_2 : (u : ℕ) → u < 2 → Memᴰ 2 (targets fork u)
edge_to_2 zero lt = rw (targets-fork.0) (Memᴰ.head refl)
edge_to_2 (suc zero) lt = rw (targets-fork.1) (Memᴰ.head refl)
edge_to_2 (suc (suc u)) lt = absurd (omega arith)

pub fork-IsWhole : IsWhole fork
unfolding dag_get_offset
fork-IsWhole = record { has_row = row; in_range = λ u v le m. omega (arith, edge-fork u v le m) }
  where
    row : (u : ℕ) → u ≤ 2 → (p : List ℕ) × (dag_get_offset fork u ≡ some p) × (row_id p ≡ u)
    row zero le = (_, refl, refl)
    row (suc zero) le = (_, refl, refl)
    row (suc (suc zero)) le = (_, refl, refl)
    row (suc (suc (suc u))) le = absurd (omega arith)

pub Walk-fork : (x : ℕ) {y : ℕ} → x ≤ 2 → Walk fork x y → (x ≡ y) ⊎ (x < 2) × (y ≡ 2)
Walk-fork x le here = inl refl
Walk-fork x le (step {u} {v} p e) = elim (Walk-fork x le p) [
  | inl same ↦ inr (omega (arith, edge-fork u v (omega arith) e))
  | inr two ↦ absurd (omega (arith, edge-fork u v (omega arith) e))
]
