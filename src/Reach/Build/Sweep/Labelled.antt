-- ===== src/Reach/Build/Sweep/Labelled.antt =====
-- Matrix/reach.cpp: what the labels of `construct_index` say of the walks of the graph.
use mgtag.Prelude.{ℕ, suc, ◌≤◌, ◌<◌, ◌≡◌, refl, ◌∙◌, Memᴰ, arith}
use mgtag.Reach.Graph.{Image, targets, IsWhole, Walk, here, step, Path+}
use mgtag.Reach.Labels.{Labels, new_of, up_of, down_of, layer_of, tree_of}

-- The new ids are 1 to `max_id + 1`, each given once. A walk leads to no smaller id and to no lower layer, and within a
-- layer it stays in its tree. Along a walk of one edge or more `Ldown` rises and `Lup` falls.
pub record IsLabelled (im : Image) (lb : Labels) : Type 0 where
  pub ids : (x : ℕ) → x ≤ im.max_id → (1 ≤ new_of lb x) × (new_of lb x ≤ suc im.max_id)
  pub injective : (x y : ℕ) → x ≤ im.max_id → y ≤ im.max_id → new_of lb x ≡ new_of lb y → x ≡ y
  pub onto : (i : ℕ) → 1 ≤ i → i ≤ suc im.max_id → (x : ℕ) × (x ≤ im.max_id) × (new_of lb x ≡ i)
  pub ascends :
      (x y : ℕ)
      → x ≤ im.max_id
      → Walk im x y
      → (new_of lb x ≤ new_of lb y) × (layer_of lb (new_of lb x) ≤ layer_of lb (new_of lb y))
  pub stays :
      (x y : ℕ)
      → x ≤ im.max_id
      → Walk im x y
      → layer_of lb (new_of lb x) ≡ layer_of lb (new_of lb y)
      → tree_of lb (new_of lb x) ≡ tree_of lb (new_of lb y)
  pub levels :
      (x y : ℕ)
      → x ≤ im.max_id
      → Path+ im x y
      → (down_of lb x < down_of lb y) × (up_of lb y < up_of lb x)

-- what an edge from `u` to `v` does to the labels
pub record Edge (lb : Labels) (u v : ℕ) : Type 0 where
  pub later : new_of lb u < new_of lb v
  pub not_below : layer_of lb (new_of lb u) ≤ layer_of lb (new_of lb v)
  pub same_layer :
      layer_of lb (new_of lb u) ≡ layer_of lb (new_of lb v)
      → tree_of lb (new_of lb u) ≡ tree_of lb (new_of lb v)
  pub down : down_of lb u < down_of lb v
  pub up : up_of lb v < up_of lb u

module _ (im : Image) (whole : IsWhole im) (lb : Labels)
    (edge : (u v : ℕ) → u ≤ im.max_id → Memᴰ v (targets im u) → Edge lb u v) where
  in_graph : (x y : ℕ) → x ≤ im.max_id → Walk im x y → y ≤ im.max_id
  in_graph x _ h here = h
  in_graph x _ h (step {u} {v} p e) = whole.in_range u v (in_graph x u h p) e

  pub Walk-ascends :
      (x y : ℕ)
      → x ≤ im.max_id
      → Walk im x y
      → (new_of lb x ≤ new_of lb y) × (layer_of lb (new_of lb x) ≤ layer_of lb (new_of lb y))
  Walk-ascends x _ h here = (omega arith, omega arith)
  Walk-ascends x _ h (step {u} {v} p e) =
      let (a, b) = Walk-ascends x u h p in
      let s = edge u v (in_graph x u h p) e in (omega (arith, s.later), omega (arith, s.not_below))

  pub Walk-stays :
      (x y : ℕ)
      → x ≤ im.max_id
      → Walk im x y
      → layer_of lb (new_of lb x) ≡ layer_of lb (new_of lb y)
      → tree_of lb (new_of lb x) ≡ tree_of lb (new_of lb y)
  Walk-stays x _ h here same = refl
  Walk-stays x _ h (step {u} {v} p e) same =
      let (a, b) = Walk-ascends x u h p in
      let s = edge u v (in_graph x u h p) e in
      Walk-stays x u h p (omega (arith, s.not_below)) ∙ s.same_layer (omega (arith, s.not_below))

  Walk-levels :
      (x y : ℕ)
      → x ≤ im.max_id
      → Walk im x y
      → (down_of lb x ≤ down_of lb y) × (up_of lb y ≤ up_of lb x)
  Walk-levels x _ h here = (omega arith, omega arith)
  Walk-levels x _ h (step {u} {v} p e) =
      let (a, b) = Walk-levels x u h p in
      let s = edge u v (in_graph x u h p) e in (omega (arith, s.down), omega (arith, s.up))

  pub path_levels :
      (x y : ℕ)
      → x ≤ im.max_id
      → Path+ im x y
      → (down_of lb x < down_of lb y) × (up_of lb y < up_of lb x)
  path_levels x y h (u, p, e) =
      let (a, b) = Walk-levels x u h p in
      let s = edge u y (in_graph x u h p) e in (omega (arith, s.down), omega (arith, s.up))
