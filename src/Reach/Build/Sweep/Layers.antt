-- ===== src/Reach/Build/Sweep/Layers.antt =====
-- Matrix/reach.cpp: `construct_index` splits the graph into layers of trees.
use mgtag.Prelude.{
  ℕ, suc, ◌^◌, ◌≤◌, ◌<◌, ◌≡◌, ◌↔◌, inl, inr, refl, ◌∙◌, List, some, Memᴰ, length, arith,
}
use mgtag.Reach.Graph.{Image, targets, IsWhole}
use mgtag.Reach.Build.Degrees.{num, init_degree}
use mgtag.Reach.Build.Counts.{edges_into, edges_into-zero}
use mgtag.Reach.Build.Layers.{Layering, Roots, pre_process, cross_rounds, layer_graph}
use mgtag.Reach.Build.Positions.{NoDup}
use mgtag.Reach.Build.Number.Trees.{tree_row_iff, IsForest}
use mgtag.Reach.Build.Number.Forest.{Climbs}
use mgtag.Reach.Build.Sweep.Whole.{part_row}
use mgtag.Reach.Build.Sweep.Laid.{Laid}
use mgtag.Reach.Build.Sweep.Climbs.{Rises}
use mgtag.Reach.Build.Sweep.Coming.{inner_from}
use mgtag.Reach.Build.Sweep.Cross.{cross_rounds_lem}
use mgtag.Reach.Build.Sweep.First.{second, rooted, roots_of, first_pass}

-- When no vertex is left, the trees are a forest.
Laid-IsForest :
    (im : Image) (located ws laid : List ℕ)
    → Laid im located ws laid
    → ((v : ℕ) → ¬ Memᴰ v ws)
    → (rank : ℕ → ℕ) → ((u v : ℕ) → u ≤ im.max_id → Memᴰ v (targets im u) → rank u < rank v)
    → IsForest im located laid
Laid-IsForest im located ws laid a all rank acyclic = record {
  distinct = a.distinct;
  vertices = λ r m. let (h, k, e) = a.roots r m in omega arith;
  named = λ r m. (a.roots r m).2;
  sources = λ v h. (
    λ m w k t.
        let (e, same) = (tree_row_iff im located w v).0 t in
        a.apart v w m (omega arith) (all w) e same,
    λ none_in. elim (a.joined v (omega arith) (all v)) [
      | inl m ↦ m
      | inr (w, k, out, t, e) ↦
          absurd (none_in w (omega arith) ((tree_row_iff im located w v).1 (t, e)))
    ],
  );
  rank = rank;
  acyclic = λ w v h t. acyclic w v h ((tree_row_iff im located w v).0 t).0;
}

module _ (im : Image) (whole : IsWhole im)
    (small : (v : ℕ) → v ≤ im.max_id → edges_into (targets im) v (suc im.max_id) 0 < 2 ^ 32)
    (qsort : List ℕ → List ℕ) (same_members : (xs : List ℕ) (a : ℕ) → Memᴰ a (qsort xs) ↔ Memᴰ a xs)
    (keeps_distinct : (xs : List ℕ) → NoDup xs → NoDup (qsort xs)) (rank : ℕ → ℕ)
    (acyclic : (u v : ℕ) → u ≤ im.max_id → Memᴰ v (targets im u) → rank u < rank v) where
  layers_go :
      (l2 l3 : Layering) (r : Roots)
      → pre_process im ((rooted qsort im).0) ≡ some l2
      → cross_rounds im (suc im.max_id) (second im l2) ((rooted qsort im).1) ≡ some (l3, r)
      → layer_graph im (init_degree im) (roots_of qsort im) ≡ some (l2.order, l3, r)
  unfolding layer_graph
  layers_go l2 l3 r e e' = rw (layer_graph, e, e') refl

  -- In an acyclic graph, from the degrees of init_degree and the roots of
  -- get_forward_root_vertices, the layering of construct_index ends, and leaves a forest: one tree
  -- for each root, named by it, whose root is the only vertex that no edge inside the tree leads
  -- to; the roots stand in the order of their layers; along an edge the tree stays the same, or the
  -- layer rises. The counts that cal_cross_degree starts from are then 0, and Ldown is as
  -- pre_process left it. This if qsort keeps the members and repeats none, and the counts of edges
  -- fit a word.
  pub layer_graph_lem :
      (passed l : Layering) × (r : Roots) × (layer_graph im (init_degree im) (roots_of qsort im)
        ≡ some (passed.order, l, r))
      × IsForest im l.located r.roots
      × Climbs r.root_layer r.roots
      × (length l.indeg ≡ suc im.max_id)
      × ((v : ℕ) → v ≤ im.max_id → num l.indeg v ≡ 0)
      × ((w v : ℕ)
          → w ≤ im.max_id
          → Memᴰ v (targets im w)
          → Rises l.located r.root_layer r.roots w v)
      × (pre_process im ((rooted qsort im).0) ≡ some passed)
      × (l.ldown ≡ passed.ldown)
  layer_graph_lem =
      let (bad, l2, e, a1) =
        first_pass im whole small qsort same_members keeps_distinct rank acyclic in
      let (ws, l3, r, e', a, empty, kept) =
        cross_rounds_lem im whole small rank acyclic (suc im.max_id) bad (second im l2)
          ((rooted qsort im).1) a1 (omega arith) in
      (
        l2,
        l3,
        r,
        layers_go l2 l3 r e e',
        Laid-IsForest im l3.located ws r.roots a.laid empty rank acyclic,
        a.climbs,
        a.size_in,
        λ v h.
            a.degrees v (omega arith)
            ∙ (edges_into-zero (part_row (targets im) ws) v (suc im.max_id) 0).1
                (λ w low high t. empty w (inner_from im whole small rank acyclic ws w v t)),
        λ w v h t. a.edges w v (omega arith) (empty w) (empty v) t,
        e,
        kept,
      )
