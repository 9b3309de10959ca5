-- ===== src/Reach/Runs.antt =====
-- Theorems on Matrix/reach.cpp at a concrete graph.
mod Graph
mod Laws
mod Build
mod Trees
use mathlib.Core.List.Memᴰ
use mgtag.Prelude.{
  ℕ, zero, suc, ◌+◌, ◌≤◌, ◌<◌, ◌≡◌, ◌≢◌, ◌↔◌, ◌⊎◌, inl, inr, refl, sym, ap, ◌∙◌, Bool, true, false,
  List, [], ◌∷◌, Option, none, some, Memᴰ, get_or, replicate, IsSorted, sort, insert, arith,
}
use mathlib.Core.List.{foldl, reverse}
use mgtag.Reach.Graph.{
  Image, words, row_id, row_targets, targets, dag_get_offset, IsWhole, Walk, here, step, Path+,
}
use mgtag.Reach.Traverse.{found, tranverse, loop, expand, scan}
use mgtag.Reach.Traverse.Decides.{Answers, tranverse-Answers}
use mgtag.Reach.Labels.{
  Labels, new_of, up_of, down_of, end_of, tree_of, layer_of, excp_of, cross_of,
}
use mgtag.Reach.Query.{Outcome, query, answer, same_layer_tree_reach}
use mgtag.Reach.Query.Laws.{IsId, IsIndex}
use mgtag.Reach.Query.SameTree.{same_layer_tree_reach_lem}
use mgtag.Reach.Query.Down.{Decides, query-Decides}
use mgtag.Reach.Query.Answer.{NewPath, IsIndexOf, answer-Decides}
use mgtag.Reach.Build.Degrees.{
  init_degree, count_rows, count_row, get_forward_root_vertices, select_from,
}
use mgtag.Reach.Build.Layers.{
  layer_graph, cross_rounds, cross_round, pre_process, pre_process_cross, rounds, visit_row,
  visit_edge, mark_edge, arrive,
}
use mgtag.Reach.Build.Number.{
  cal_cross_degree, count_trees, count_tree, count_edge, decode, number_trees, number_tree,
  number_edge,
}
use mgtag.Reach.Build.Index.{cal_index, index_vertex, scan_edge, is_excp}
use mgtag.Reach.Build.Entries.{
  cal_excp_and_cross_arr, entries_vertex, own_excp, take_edge, take_excp, take_cross, is_reachable,
  is_reachable_scan, same_tree_reach, same_tree_scan,
}
use mgtag.Reach.Build.Construct.{construct_index}
use Graph.{fork, fork_labels, targets-fork, edge-fork, edge_to_2, fork-IsWhole}
use Laws.{New, fork_laws, fork-IsIndexOf}

tranverse-Answers_example : Answers (Path+ fork 0 2) (tranverse fork 0 2)
tranverse-Answers_example = tranverse-Answers fork fork-IsWhole 0 2 (omega arith)

query-Decides_example : Decides (New 1 3) (query fork_labels 1 3 0)
query-Decides_example =
    query-Decides fork_labels 3 fork_laws 1 3 0 (omega arith) (omega arith) (omega arith)

answer-Decides_example : Decides (Walk fork 0 2) (answer fork_labels 0 2 0)
answer-Decides_example =
    answer-Decides fork fork_labels fork-IsIndexOf 0 2 (omega arith) (omega arith) 0
