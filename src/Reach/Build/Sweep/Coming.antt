-- ===== src/Reach/Build/Sweep/Coming.antt =====
-- Matrix/reach.cpp: the state of `construct_index` between two layers.
use mgtag.Prelude.{
  ℕ, zero, suc, ◌^◌, ◌≤◌, ◌<◌, ◌≡◌, ◌⊎◌, inl, inr, refl, List, Memᴰ, length, Bool-cases, ◌==◌,
  arith,
}
use mgtag.Reach.Graph.{Image, targets, IsWhole}
use mgtag.Reach.Build.Degrees.{num}
use mgtag.Reach.Build.Counts.{edges_into, edges_into_some}
use mgtag.Reach.Build.Layers.{Layering, Roots}
use mgtag.Reach.Build.Positions.{NoDup}
use mgtag.Reach.Build.Sums.{elem_iff, edges_from_le}
use mgtag.Reach.Build.Number.Forest.{Climbs}
use mgtag.Reach.Build.Sweep.Reads.{Inner}
use mgtag.Reach.Build.Sweep.Whole.{part_row, part_row_iff, edges_into-part_row}
use mgtag.Reach.Build.Sweep.Laid.{Laid}
use mgtag.Reach.Build.Sweep.Climbs.{Rises}

module _ (im : Image) (whole : IsWhole im)
    (small : (v : ℕ) → v ≤ im.max_id → edges_into (targets im) v (suc im.max_id) 0 < 2 ^ 32)
    (rank : ℕ → ℕ)
    (acyclic : (u v : ℕ) → u ≤ im.max_id → Memᴰ v (targets im u) → rank u < rank v) where
  -- The layers of the roots of `r` are laid, and the vertices of `ws` are those to come.
  pub record Layers (ws : List ℕ) (l : Layering) (r : Roots) : Type 0 where
    pub laid : Laid im l.located ws r.roots
    pub size_in : length l.indeg ≡ suc im.max_id
    pub size_located : length l.located ≡ suc im.max_id
    pub size_next : length l.next ≡ suc im.max_id
    pub size_layer : length r.root_layer ≡ suc im.max_id
    pub degrees :
        (v : ℕ)
        → v < suc im.max_id
        → num l.indeg v ≡ edges_into (part_row (targets im) ws) v (suc im.max_id) 0
    pub none_next : (v : ℕ) → v < suc im.max_id → num l.next v ≡ 0
    pub cross_in : (v : ℕ) → Memᴰ v l.cross_id → Memᴰ v ws
    pub cross_distinct : NoDup l.cross_id
    pub cross_known : (v : ℕ) → Memᴰ v ws → Memᴰ v l.cross_id ⊎ (1 ≤ num l.indeg v)
    pub climbs : Climbs r.root_layer r.roots
    pub capped : (q : ℕ) → Memᴰ q r.roots → num r.root_layer q ≤ r.layers
    pub edges :
        (w v : ℕ)
        → w < suc im.max_id
        → ¬ Memᴰ w ws
        → ¬ Memᴰ v ws
        → Memᴰ v (targets im w)
        → Rises l.located r.root_layer r.roots w v

  pub inner_of :
      (located ws laid : List ℕ) → Laid im located ws laid → Inner im (part_row (targets im) ws) ws
  unfolding part_row
  inner_of located ws laid a = record {
    below = a.below;
    lands = λ w v m. let (i, t) = (part_row_iff (targets im) ws w v).0 m in a.closed w v i t;
    small = λ v h. omega (
      arith,
      small v (omega arith),
      edges_into-part_row (targets im) ws v (suc im.max_id) 0,
      edges_from_le (targets im) v ws (suc im.max_id) 0,
    );
    rows = λ w m. rw ((elem_iff w ws).1 m) refl;
  }

  pub inner_acyclic :
      (located ws laid : List ℕ)
      → Laid im located ws laid
      → (w v : ℕ) → Memᴰ w ws
      → Memᴰ v (part_row (targets im) ws w)
      → rank w < rank v
  inner_acyclic located ws laid a w v m t =
      let less = a.below w m in acyclic w v (omega arith) ((part_row_iff (targets im) ws w v).0 t).1

  pub inner_from : (ws : List ℕ) (w v : ℕ) → Memᴰ v (part_row (targets im) ws w) → Memᴰ w ws
  inner_from ws w v t = ((part_row_iff (targets im) ws w v).0 t).0

  -- Going back along edges, one comes to a vertex that no edge of the layers to come leads to.
  pub source_of :
      (located ws laid : List ℕ)
      → Laid im located ws laid
      → (k v : ℕ) → rank v < k
      → Memᴰ v ws
      → (s : ℕ) × Memᴰ s ws × (edges_into (part_row (targets im) ws) s (suc im.max_id) 0 ≡ 0)
  source_of located ws laid a zero v less m = absurd (omega arith)
  source_of located ws laid a (suc k) v less m =
      elim (Bool-cases (edges_into (part_row (targets im) ws) v (suc im.max_id) 0 == 0)) [
        | inl z ↦ (v, m, ground arith)
        | inr z ↦
            let (w, low, high, t) =
              edges_into_some (part_row (targets im) ws) v (suc im.max_id) 0 (ground arith) in
            let i = inner_from ws w v t in
            source_of located ws laid a k w (omega (arith, inner_acyclic located ws laid a w v i t))
              i
      ]
