-- ===== src/Reach/Runs/Build.antt =====
-- Theorems on `construct_index` of Matrix/reach.cpp at a concrete graph.
use mathlib.Core.List.Memᴰ
use mgtag.Prelude.{
  inl, inr, false, some, ℕ, zero, suc, ◌^◌, ◌≤◌, ◌<◌, ◌≡◌, refl, List, [], ◌∷◌, length, Memᴰ, arith,
}
use mgtag.Reach.Graph.{words, row_targets, targets, dag_get_offset}
use mgtag.Reach.Build.Degrees.{num, init_degree, get_forward_root_vertices}
use mgtag.Reach.Build.Counts.{count, edges_into}
use mgtag.Reach.Build.Roots.{IsSource}
use mathlib.Core.List.{foldl}
use mgtag.Reach.Build.Layers.{Layering, Roots, add_root, pre_process}
use mgtag.Reach.Build.Index.{Heights, cal_index}
use mgtag.Reach.Build.Heights.{Follows, cal_index_lem}
use mgtag.Reach.Runs.Graph.{fork, edge-fork, edge_to_2, fork-IsWhole}
use mgtag.Reach.Labels.{Labels}
use mgtag.Reach.Build.Layers.{layer_graph}
use mgtag.Reach.Build.Construct.{construct_index}
use mgtag.Reach.Build.Number.Trees.{IsForest}
use mgtag.Reach.Build.Number.Forest.{Climbs}
use mgtag.Reach.Build.Sweep.Climbs.{Rises}
use mgtag.Reach.Build.Sweep.Layers.{layer_graph_lem}
use mgtag.Reach.Build.Sweep.Labelled.{IsLabelled}
use mgtag.Reach.Build.Sweep.Constructs.{construct_index_lem}
use mgtag.Reach.Graph.{Walk}
use mgtag.Reach.Query.{answer}
use mgtag.Reach.Query.Down.{Decides}
use mgtag.Reach.Query.Answer.{NewPath}
use mgtag.Reach.Answers.{IsCovered, answer-construct_index}
use mgtag.Reach.Runs.Laws.{fork_laws}
use mgtag.Reach.Runs.Graph.{fork_labels, fork_built}

fork_small : (v : ℕ) → v ≤ 2 → edges_into (targets fork) v 3 0 < 2 ^ 32
unfolding edges_into count targets row_targets words dag_get_offset
fork_small zero h = omega arith
fork_small (suc zero) h = omega arith
fork_small (suc (suc zero)) h = omega arith
fork_small (suc (suc (suc v))) h = absurd (omega arith)

IsSource-0 : IsSource fork 0
unfolding IsSource
IsSource-0 = (omega arith, λ u l m. absurd (omega (arith, edge-fork u 0 l m)))

abbrev identity : List ℕ → List ℕ
identity xs = xs

abbrev fork_heights : Heights
fork_heights = record { lup = 0 ∷ 0 ∷ 0 ∷ []; interval = 0 ∷ 0 ∷ 0 ∷ 0 ∷ [] }

construct_index_lem_example :
    (lb : Labels) × (construct_index identity fork ≡ some lb) × IsLabelled fork lb
construct_index_lem_example =
    construct_index_lem fork fork-IsWhole fork_small identity (λ xs a. (λ m. m, λ m. m)) (λ xs d. d)
      (λ v. v) (λ u v h m. omega (arith, edge-fork u v h m))

fork-IsCovered : IsCovered fork_labels 3 (NewPath fork fork_labels)
fork-IsCovered = record {
  nested = fork_laws.nested;
  excp_sound = fork_laws.excp_sound;
  excp_complete = fork_laws.excp_complete;
  cross_sound = fork_laws.cross_sound;
  cross_complete = fork_laws.cross_complete;
  excp_sorted = fork_laws.excp_sorted;
  cross_sorted = fork_laws.cross_sorted;
}

answer-construct_index_example : Decides (Walk fork 0 2) (answer fork_labels 0 2 0)
answer-construct_index_example =
    answer-construct_index fork fork-IsWhole fork_small identity (λ xs a. (λ m. m, λ m. m))
      (λ xs d. d) (λ v. v) (λ u v h m. omega (arith, edge-fork u v h m)) fork_labels fork_built
      fork-IsCovered 0 2 0 (omega arith) (omega arith)

-- the loop over the roots, from empty labels
abbrev fork_rooted : Layering × Roots
fork_rooted =
    foldl add_root
      (
        record {
          indeg = (init_degree fork).indeg;
          next = 0 ∷ 0 ∷ 0 ∷ [];
          crossed = false ∷ false ∷ false ∷ [];
          located = 0 ∷ 0 ∷ 0 ∷ [];
          cross_id = [];
          order = [];
          ldown = 0 ∷ 0 ∷ 0 ∷ [];
        },
        record { roots = []; root_layer = 0 ∷ 0 ∷ 0 ∷ []; layers = 1 },
      )
      (get_forward_root_vertices identity fork (init_degree fork))

layer_graph_lem_example :
    (passed l : Layering) × (r : Roots) × (layer_graph fork
        (init_degree fork)
        (get_forward_root_vertices identity fork (init_degree fork))
      ≡ some (passed.order, l, r))
    × IsForest fork l.located r.roots
    × Climbs r.root_layer r.roots
    × (length l.indeg ≡ 3)
    × ((v : ℕ) → v ≤ 2 → num l.indeg v ≡ 0)
    × ((w v : ℕ) → w ≤ 2 → Memᴰ v (targets fork w) → Rises l.located r.root_layer r.roots w v)
    × (pre_process fork (fork_rooted.0) ≡ some passed)
    × (l.ldown ≡ passed.ldown)
layer_graph_lem_example =
    layer_graph_lem fork fork-IsWhole fork_small identity (λ xs a. (λ m. m, λ m. m)) (λ xs d. d)
      (λ v. v) (λ u v h m. omega (arith, edge-fork u v h m))

fork-Follows : Follows fork [] (2 ∷ 1 ∷ 0 ∷ [])
unfolding Follows
fork-Follows = (
  omega arith,
  λ m. Memᴰ.not-nil m,
  λ v m. absurd (omega (arith, edge-fork 2 v (omega arith) m)),
  (
    omega arith,
    λ m. absurd (apart_2 1 (omega arith) m),
    λ v m. Memᴰ.head (edge-fork 1 v (omega arith) m).1,
    (
      omega arith,
      λ m. elim (Memᴰ.cases_cons m) [
        | inl e ↦ absurd (omega arith)
        | inr r ↦ absurd (apart_2 0 (omega arith) r)
      ],
      λ v m. Memᴰ.tail (Memᴰ.head (edge-fork 0 v (omega arith) m).1),
      tt,
    ),
  ),
)
  where
    apart_2 : (w : ℕ) → w < 2 → ¬ Memᴰ w (2 ∷ [])
    apart_2 w h m = absurd (omega (arith, Memᴰ.eq_of_singleton m))

cal_index_lem_example :
    num
      (cal_index fork
        (1 ∷ 2 ∷ 0 ∷ [])
        (1 ∷ 2 ∷ 3 ∷ [])
        ([] ∷ [] ∷ [] ∷ [])
        (0 ∷ 1 ∷ 2 ∷ [])
        (record { lup = 0 ∷ 0 ∷ 0 ∷ []; interval = 0 ∷ 0 ∷ 0 ∷ 0 ∷ [] })).lup
      2
    < num
        (cal_index fork
          (1 ∷ 2 ∷ 0 ∷ [])
          (1 ∷ 2 ∷ 3 ∷ [])
          ([] ∷ [] ∷ [] ∷ [])
          (0 ∷ 1 ∷ 2 ∷ [])
          (record { lup = 0 ∷ 0 ∷ 0 ∷ []; interval = 0 ∷ 0 ∷ 0 ∷ 0 ∷ [] })).lup
        0
cal_index_lem_example =
    cal_index_lem fork (1 ∷ 2 ∷ 0 ∷ []) (1 ∷ 2 ∷ 3 ∷ []) ([] ∷ [] ∷ [] ∷ []) (0 ∷ 1 ∷ 2 ∷ [])
      (record { lup = 0 ∷ 0 ∷ 0 ∷ []; interval = 0 ∷ 0 ∷ 0 ∷ 0 ∷ [] }) fork-Follows refl 0 2
      (Memᴰ.tail (Memᴰ.tail (Memᴰ.head refl))) (edge_to_2 0 (omega arith))
