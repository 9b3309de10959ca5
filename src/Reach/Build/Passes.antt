-- ===== src/Reach/Build/Passes.antt =====
-- Matrix/reach.cpp: the two passes of `construct_index` over the labels, `pre_process` and then `cal_index`.
use mathlib.Core.List.Memᴰ
use mathlib.Core.List.{foldl}
use mgtag.Prelude.{ℕ, suc, ◌^◌, ◌≤◌, ◌<◌, ◌≡◌, ◌↔◌, inr, List, [], some, Memᴰ, length}
use mgtag.Reach.Graph.{Image, targets, IsWhole}
use mgtag.Reach.Build.Degrees.{num, init_degree, get_forward_root_vertices}
use mgtag.Reach.Build.Layers.{Layering, Roots, add_root, pre_process}
use mgtag.Reach.Build.Counts.{edges_into}
use mgtag.Reach.Build.Roots.{IsSource}
use mgtag.Reach.Build.Positions.{NoDup}
use mgtag.Reach.Build.Reversed.{reverse-members, reverse-Follows}
use mgtag.Reach.Build.Topology.{pre_process_lem}
use mgtag.Reach.Build.Start.{started-IsStart}
use mgtag.Reach.Build.Index.{Heights, cal_index}
use mgtag.Reach.Build.Heights.{cal_index_lem}

module _ (im : Image) (whole : IsWhole im)
    (small : (v : ℕ) → v ≤ im.max_id → edges_into (targets im) v (suc im.max_id) 0 < 2 ^ 32)
    (qsort : List ℕ → List ℕ) (same_members : (xs : List ℕ) (a : ℕ) → Memᴰ a (qsort xs) ↔ Memᴰ a xs)
    (keeps_distinct : (xs : List ℕ) → NoDup xs → NoDup (qsort xs)) where
  -- In an acyclic graph with a vertex that no edge leads into, the order that `pre_process` leaves, from the
  -- roots of `get_forward_root_vertices`, is one that `cal_index` can use: along every edge `Ldown` rises, and
  -- `Lup` falls, whatever the other arrays that `cal_index` reads hold; this if qsort keeps the members and
  -- repeats none, and the counts of edges fit a word.
  pub cal_index-pre_process :
      (rank : ℕ → ℕ)
      → ((u v : ℕ) → u ≤ im.max_id → Memᴰ v (targets im u) → rank u < rank v)
      → (s : ℕ) (l : Layering) (r : Roots) → IsSource im s
      → l.indeg ≡ (init_degree im).indeg
      → l.order ≡ []
      → length l.ldown ≡ suc im.max_id
      → (located new_id : List ℕ) (excp_o : List (List ℕ)) (h : Heights)
      → length h.lup ≡ suc im.max_id
      → (l' : Layering) × (pre_process im
            (foldl add_root (l, r) (get_forward_root_vertices qsort im (init_degree im))).0
          ≡ some l')
        × ((u v : ℕ)
            → u ≤ im.max_id
            → Memᴰ v (targets im u)
            → (num l'.ldown u < num l'.ldown v)
              × (num (cal_index im located new_id excp_o l'.order h).lup v
                  < num (cal_index im located new_id excp_o l'.order h).lup u))
  cal_index-pre_process rank acyclic s l r source degrees empty size located new_id excp_o h lups =
      let (l', e, (all, b), edge) =
        pre_process_lem im whole small rank acyclic
          (foldl add_root (l, r) (get_forward_root_vertices qsort im (init_degree im))).0
          (started-IsStart im whole small qsort same_members keeps_distinct s l r source degrees
            empty size) in
      let backwards =
        reverse-Follows im [] l'.order b (λ u v k m. absurd (Memᴰ.not-nil m)) (λ v. (all v).1)
          (λ u v m t. inr ((all v).0 (whole.in_range u v ((all u).1 m) t))) in
      (
        l',
        e,
        λ u v k t. (
          edge u v k t,
          cal_index_lem im located new_id excp_o l'.order h backwards lups u v
              (reverse-members l'.order u ((all u).0 k)) t,
        ),
      )
