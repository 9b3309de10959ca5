-- ===== src/Reach/Build/Layers.antt =====
-- Matrix/reach.cpp: `pre_process` and `pre_process_cross`, which split the graph into layers of trees
-- that share no vertex, and the part of `construct_index` that drives them.
use mgtag.Prelude.{
  ℕ, zero, suc, ◌+◌, Bool, true, false, not, ◌&&◌, List, [], ◌∷◌, ◌++◌, Option, none, some, length,
  set, drop, replicate, ◌==◌, if◌then◌else◌,
}
use mathlib.Core.List.{foldl}
use mgtag.Reach.Graph.{Image, targets}
use mgtag.Reach.Build.Degrees.{Degrees, num, flag, inc32, dec32}

-- `indeg` is counted down: globalDegree[].indeg in `pre_process`, `curInDegree` after it. `order` is
-- `TopoOrder` or `TopoOrder_cross`.
pub record Layering : Type 0 where
  pub indeg : List ℕ
  pub next : List ℕ
  pub crossed : List Bool
  pub located : List ℕ
  pub cross_id : List ℕ
  pub order : List ℕ
  pub ldown : List ℕ

-- the chain of conditions on the edge from `u` to `v`
unfoldable pub mark_edge : ℕ → ℕ → Layering → Layering
mark_edge u v l =
    if flag l.crossed u
    then record l {
      crossed = set l.crossed v true;
      located = set l.located v 0;
      next = set l.next v (inc32 (num l.next v));
    }
    else if not (num l.located v == 0)
    then if not (num l.located v == num l.located u) && not (flag l.crossed v)
      then record l {
        crossed = set l.crossed v true;
        cross_id = l.cross_id ++ v ∷ [];
        located = set l.located v 0;
      }
      else l
    else if not (flag l.crossed v)
    then record l { located = set l.located v (num l.located u) }
    else l

abbrev pub count_down : ℕ → Layering → Layering
count_down v l = record l { indeg = set l.indeg v (dec32 (num l.indeg v)) }

-- The push at in-degree 0; `pre_process` also writes the layer into `Ldown`.
unfoldable pub arrive : Option ℕ → ℕ → Layering → Layering
arrive none v l = if num l.indeg v == 0 then record l { order = l.order ++ v ∷ [] } else l
arrive (some layer) v l =
    if num l.indeg v == 0
    then record l { order = l.order ++ v ∷ []; ldown = set l.ldown v layer }
    else l

unfoldable pub visit_edge : Option ℕ → ℕ → Layering → ℕ → Layering
visit_edge layer u l v = arrive layer v (mark_edge u v (count_down v l))

unfoldable pub visit_row : Image → Option ℕ → Layering → ℕ → Layering
visit_row im layer l u = foldl (visit_edge layer u) l (targets im u)

abbrev pub next_layer : Option ℕ → Option ℕ
next_layer none = none
next_layer (some layer) = some (layer + 1)

-- The rounds of `while(flag)`: `front` is the part of `order` that was pushed by the round before.
unfoldable pub rounds : Image → ℕ → Option ℕ → List ℕ → Layering → Option Layering
rounds im fuel layer [] l = some l
rounds im zero layer (u ∷ us) l = none
rounds im (suc fuel) layer (u ∷ us) l =
    let l' = foldl (visit_row im layer) l (u ∷ us) in
    rounds im fuel (next_layer layer) (drop (length l.order) l'.order) l'

-- Each round but the last pushes a vertex, and no vertex is pushed twice.
unfoldable pub pre_process : Image → Layering → Option Layering
pre_process im l = rounds im (suc (suc im.max_id)) (some 2) l.order l

unfoldable pub pre_process_cross : Image → Layering → Option Layering
pre_process_cross im l = rounds im (suc (suc im.max_id)) none l.order (record l { cross_id = [] })

-- `temp_root_arr`, `root_layer`, `oldID_mapto_newID_count`
pub record Roots : Type 0 where
  pub roots : List ℕ
  pub root_layer : List ℕ
  pub layers : ℕ

-- The first loop over the roots.
abbrev pub add_root : Layering × Roots → ℕ → Layering × Roots
add_root (l, r) v = (
  record l {
    ldown = set l.ldown v 1;
    order = l.order ++ v ∷ [];
    located = set l.located v (v + 1);
  },
  record r { roots = r.roots ++ v ∷ []; root_layer = set r.root_layer v r.layers },
)

-- The loop over `cross_id`: a vertex that no other crossed vertex leads to is a root of the layer.
abbrev pub add_cross_root : Layering × Roots → ℕ → Layering × Roots
add_cross_root (l, r) v =
    if num l.indeg v == 0
    then (
      record l { order = l.order ++ v ∷ []; located = set l.located v (v + 1) },
      record r { roots = r.roots ++ v ∷ []; root_layer = set r.root_layer v r.layers },
    )
    else (l, r)

-- `swap` of `curInDegree` and `nextInDegree`
abbrev pub swap : Layering → Layering
swap l = record l { indeg = l.next; next = l.indeg }

module _ (im : Image) where
  abbrev pub no_marks : List Bool
  no_marks = replicate (suc im.max_id) false

  unfoldable pub cross_round : Layering → Roots → Option (Layering × Roots)
  cross_round l r =
      let (l', r') =
        foldl add_cross_root (record l { order = [] }, record r { layers = r.layers + 1 })
          l.cross_id in
      elim (pre_process_cross im (record l' { crossed = no_marks })) [
        | none ↦ none
        | some l'' ↦ some (swap l'', r')
      ]

  unfoldable pub cross_rounds : ℕ → Layering → Roots → Option (Layering × Roots)
  cross_rounds zero l r = if length l.cross_id == 0 then some (l, r) else none
  cross_rounds (suc fuel) l r =
      if length l.cross_id == 0
      then some (l, r)
      else elim (cross_round l r) [ none ↦ none | some (l', r') ↦ cross_rounds fuel l' r' ]

  -- From the roots to the last layer. `topo` is the `TopoOrder` that `pre_process` leaves.
  unfoldable pub layer_graph : Degrees → List ℕ → Option (List ℕ × Layering × Roots)
  layer_graph d roots =
      let zeros = replicate (suc im.max_id) 0 in
      let l0 : Layering = record {
        indeg = d.indeg;
        next = zeros;
        crossed = no_marks;
        located = zeros;
        cross_id = [];
        order = [];
        ldown = zeros;
      } in
      let r0 : Roots = record { roots = []; root_layer = zeros; layers = 1 } in
      let (l1, r1) = foldl add_root (l0, r0) roots in
      elim (pre_process im l1) [
        | none ↦ none
        | some l2 ↦
            elim (cross_rounds (suc im.max_id) (record l2 { indeg = l2.next; next = zeros }) r1) [
              | none ↦ none
              | some (l3, r2) ↦ some (l2.order, l3, r2)
            ]
      ]
