-- ===== src/Reach/Build/Sweep/Constructs.antt =====
-- Matrix/reach.cpp: `construct_index` ends, and what its labels say of the graph.
use mgtag.Prelude.{
  ℕ, suc, ◌^◌, ◌≤◌, ◌<◌, ◌≡◌, ◌↔◌, refl, sym, ap, ◌∙◌, List, some, Memᴰ, length-replicate,
  replicate, arith,
}
use mgtag.Reach.Graph.{Image, targets, IsWhole}
use mgtag.Reach.Labels.{Labels, new_of, layer_of, tree_of}
use mgtag.Reach.Build.Degrees.{num, init_degree, get_forward_root_vertices}
use mgtag.Reach.Build.Counts.{edges_into}
use mgtag.Reach.Build.Layers.{Layering, Roots, layer_graph}
use mgtag.Reach.Build.Positions.{NoDup}
use mgtag.Reach.Build.Index.{Heights, cal_index}
use mgtag.Reach.Build.Passes.{cal_index-pre_process}
use mgtag.Reach.Build.Construct.{construct_index, labels_of}
use mgtag.Reach.Build.Number.{Numbering, cal_cross_degree, decode}
use mgtag.Reach.Build.Number.Trees.{tree_row, edges_into-tree_row_le}
use mgtag.Reach.Build.Number.Decode.{IsNumbering, decode-cal_cross_degree}
use mgtag.Reach.Build.Sweep.Kept.{some_inj}
use mgtag.Reach.Build.Sweep.Climbs.{Rises, same_tree, higher}
use mgtag.Reach.Build.Sweep.Layers.{layer_graph_lem}
use mgtag.Reach.Build.Sweep.First.{an-IsSource, first, no_roots}
use mgtag.Reach.Build.Sweep.Labelled.{IsLabelled, Edge, Walk-ascends, Walk-stays, path_levels}

-- what the passes leave in the labels that are given out
record Built (im : Image) (topo : List ℕ) (l : Layering) (s : Numbering) (lb : Labels)
    : Type 0 where
  new_id : lb.new_id ≡ s.new_id
  rl : lb.rl ≡ s.rl
  rlt : lb.rlt ≡ s.rlt
  ldown : lb.ldown ≡ l.ldown
  lup :
      lb.lup
      ≡ (cal_index im l.located s.new_id s.excp_o topo (record {
        lup = replicate (suc im.max_id) 0;
        interval = replicate (suc (suc im.max_id)) 0;
      })).lup

construct_go :
    (qsort : List ℕ → List ℕ) (im : Image) (topo : List ℕ) (l : Layering) (r : Roots)
    (indeg : List ℕ) (s : Numbering)
    → layer_graph im (init_degree im) (get_forward_root_vertices qsort im (init_degree im))
      ≡ some (topo, l, r)
    → cal_cross_degree im l.located r.roots l.indeg ≡ some indeg
    → decode im l.located r.roots r.root_layer indeg ≡ some s
    → construct_index qsort im ≡ some (labels_of im topo l s)
unfolding construct_index
construct_go qsort im topo l r indeg s e1 e2 e3 = rw (construct_index, e1, e2, e3) refl

labels-Built :
    (im : Image) (topo : List ℕ) (l : Layering) (s : Numbering)
    → Built im topo l s (labels_of im topo l s)
unfolding labels_of
labels-Built im topo l s = record { new_id = refl; rl = refl; rlt = refl; ldown = refl; lup = refl }

-- an edge that keeps the tree or goes to a higher layer, in a numbering
edge_labels :
    (im : Image) (located roots root_layer : List ℕ) (s : Numbering) (lb : Labels) (topo : List ℕ)
    (l : Layering)
    → Built im topo l s lb
    → IsNumbering im located roots root_layer s
    → (u v : ℕ) → u ≤ im.max_id
    → v ≤ im.max_id
    → Memᴰ v (targets im u)
    → Rises located root_layer roots u v
    → (new_of lb u < new_of lb v)
      × (layer_of lb (new_of lb u) ≤ layer_of lb (new_of lb v))
      × (layer_of lb (new_of lb u) ≡ layer_of lb (new_of lb v)
          → tree_of lb (new_of lb u) ≡ tree_of lb (new_of lb v))
edge_labels im located roots root_layer s lb topo l b n u v h k t (same_tree e) =
    let (p, m, name, layer) = n.layer_label u h in
    let (q, m', name', layer') = n.layer_label v k in
    let same : p ≡ q = omega arith in
    let layers = layer ∙ ap (num root_layer) same ∙ sym layer' in
    rw (b.new_id, b.rl, b.rlt)
      (n.ascends u v h t e, omega arith, λ z. n.tree_label u h ∙ sym e ∙ sym (n.tree_label v k))
edge_labels im located roots root_layer s lb topo l b n u v h k t
      (higher p q mp mq name name' less) =
    let (p', m, own, layer) = n.layer_label u h in
    let (q', m', own', layer') = n.layer_label v k in
    let a = ap (num root_layer) (the_same p' p (omega arith)) in
    let c = ap (num root_layer) (the_same q' q (omega arith)) in
    rw (b.new_id, b.rl, b.rlt)
      (n.layers u v h k (omega arith), omega arith, λ z. absurd (omega arith))
  where
    the_same : (x y : ℕ) → x ≡ y → x ≡ y
    the_same x y e = e

module _ (im : Image) (whole : IsWhole im)
    (small : (v : ℕ) → v ≤ im.max_id → edges_into (targets im) v (suc im.max_id) 0 < 2 ^ 32)
    (qsort : List ℕ → List ℕ) (same_members : (xs : List ℕ) (a : ℕ) → Memᴰ a (qsort xs) ↔ Memᴰ a xs)
    (keeps_distinct : (xs : List ℕ) → NoDup xs → NoDup (qsort xs)) where
  -- On an acyclic graph construct_index ends. The new ids are 1 to max_id + 1, each given to one
  -- vertex; a walk leads to no smaller id and to no lower layer, and within a layer it stays in its
  -- tree; along a walk of one edge or more Ldown rises and Lup falls. This if qsort keeps the
  -- members and repeats none, and the counts of edges fit a word.
  pub construct_index_lem :
      (rank : ℕ → ℕ)
      → ((u v : ℕ) → u ≤ im.max_id → Memᴰ v (targets im u) → rank u < rank v)
      → (lb : Labels) × (construct_index qsort im ≡ some lb) × IsLabelled im lb
  construct_index_lem rank acyclic =
      let (passed, l, r, e1, forest, climbs, size, none_left, edges, e0, kept) =
        layer_graph_lem im whole small qsort same_members keeps_distinct rank acyclic in
      let few : (v : ℕ)
          → v ≤ im.max_id
          → edges_into (tree_row im l.located) v (suc im.max_id) 0 < 2 ^ 32 =
        λ v h. omega (arith, small v h, edges_into-tree_row_le im l.located v (suc im.max_id) 0) in
      let (indeg, e2, s, e3, n) =
        decode-cal_cross_degree im whole l.located r.roots r.root_layer forest few climbs l.indeg
          size none_left in
      let lb = labels_of im passed.order l s in
      let e = construct_go qsort im passed.order l r indeg s e1 e2 e3 in
      let b = labels-Built im passed.order l s in
      let start : Heights = record {
        lup = replicate (suc im.max_id) 0;
        interval = replicate (suc (suc im.max_id)) 0;
      } in
      let (v0, source) =
        an-IsSource im whole small qsort same_members keeps_distinct rank acyclic (suc (rank 0)) 0
          (omega arith) (omega arith) in
      let (passed', e0', levels) =
        cal_index-pre_process im whole small qsort same_members keeps_distinct rank acyclic v0
          (first im) (no_roots im) source refl refl (length-replicate (suc im.max_id) 0) l.located
          s.new_id s.excp_o start (length-replicate (suc im.max_id) 0) in
      let same : passed' ≡ passed = some_inj passed' passed (sym e0' ∙ e0) in
      let edge : (u v : ℕ) → u ≤ im.max_id → Memᴰ v (targets im u) → Edge lb u v = λ u v h t.
        let k = whole.in_range u v h t in
        let (later, not_below, same_layer) =
          edge_labels im l.located r.roots r.root_layer s lb passed.order l b n u v h k t
            (edges u v h t) in
        let (down, up) = rw same at (levels u v h t) in
        record {
          later = later;
          not_below = not_below;
          same_layer = same_layer;
          down = rw (b.ldown, kept) down;
          up = rw (b.lup) up;
        } in
      (
        lb,
        e,
        record {
          ids = rw (b.new_id) (n.ids);
          injective = rw (b.new_id) (n.injective);
          onto = rw (b.new_id) (n.onto);
          ascends = Walk-ascends im whole lb edge;
          stays = Walk-stays im whole lb edge;
          levels = path_levels im whole lb edge;
        },
      )
