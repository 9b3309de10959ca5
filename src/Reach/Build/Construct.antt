-- ===== src/Reach/Build/Construct.antt =====
-- Matrix/reach.cpp: `construct_index`, the passes in order.
use mgtag.Prelude.{ℕ, suc, List, [], Option, none, some, replicate}
use mgtag.Reach.Graph.{Image}
use mgtag.Reach.Labels.{Labels}
use mgtag.Reach.Build.Degrees.{init_degree, get_forward_root_vertices}
use mgtag.Reach.Build.Layers.{Layering, layer_graph}
use mgtag.Reach.Build.Number.{Numbering, cal_cross_degree, decode}
use mgtag.Reach.Build.Index.{cal_index}
use mgtag.Reach.Build.Entries.{cal_excp_and_cross_arr}

-- the passes after `decode`, and the labels that they leave
unfoldable pub labels_of : Image → List ℕ → Layering → Numbering → Labels
labels_of im topo l s =
    let ids : List ℕ = replicate (suc (suc im.max_id)) 0 in
    let rows : List (List ℕ) = replicate (suc (suc im.max_id)) [] in
    let h =
      cal_index im l.located s.new_id s.excp_o topo
        (record { lup = replicate (suc im.max_id) 0; interval = ids }) in
    let e =
      cal_excp_and_cross_arr
        (record { new_id = s.new_id; rlt = s.rlt; interval = h.interval; excp_o = s.excp_o }) im
        topo
        (record {
          reach_flag = ids;
          exit_flag = ids;
          cnt = 1;
          excp = rows;
          cross = rows;
          cross_pro = rows;
        }) in
    record {
      new_id = s.new_id;
      lup = h.lup;
      ldown = l.ldown;
      rl = s.rl;
      rlt = s.rlt;
      interval = h.interval;
      excp = e.excp;
      cross = e.cross;
    }

-- `none`: the fuel of one of the loops ran out. The degrees are those of `init_degree`.
module _ (qsort : List ℕ → List ℕ) where
  unfoldable pub construct_index : Image → Option Labels
  construct_index im =
      let d = init_degree im in
      elim (layer_graph im d (get_forward_root_vertices qsort im d)) [
        | none ↦ none
        | some (topo, l, r) ↦ elim (cal_cross_degree im l.located r.roots l.indeg) [
          | none ↦ none
          | some indeg ↦ elim (decode im l.located r.roots r.root_layer indeg) [
            | none ↦ none
            | some s ↦ some (labels_of im topo l s)
          ]
        ]
      ]
