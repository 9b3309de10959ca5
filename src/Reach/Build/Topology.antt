-- ===== src/Reach/Build/Topology.antt =====
-- Matrix/reach.cpp: `pre_process` orders an acyclic graph, and `Ldown` rises along its edges.
use mathlib.Core.List.Memᴰ
use mgtag.Prelude.{
  ℕ, zero, suc, ◌+◌, ◌^◌, ◌≤◌, ◌<◌, ◌≡◌, ◌↔◌, inl, inr, refl, List, [], some, Memᴰ, length, arith,
}
use mgtag.Reach.Graph.{Image, targets, IsWhole}
use mgtag.Reach.Build.Degrees.{num}
use mgtag.Reach.Build.Layers.{Layering, pre_process}
use mgtag.Reach.Build.Counts.{edges_into, edges_into-zero}
use mgtag.Reach.Build.Sums.{elem, edges_from-nil}
use mgtag.Reach.Build.Positions.{NoDup, Before, Before-sources}
use mgtag.Reach.Build.Unseen.{unseen_bound, edges_from_full}
use mgtag.Reach.Build.Levels.{Between, rounds_lem}

module _ (im : Image) (whole : IsWhole im)
    (small : (v : ℕ) → v ≤ im.max_id → edges_into (targets im) v (suc im.max_id) 0 < 2 ^ 32) where
  -- What `construct_index` has set up before `pre_process`: the in-degrees, and the vertices that no edge
  -- leads into, in layer 1.
  pub record IsStart (l : Layering) : Type 0 where
    pub size_in : length l.indeg ≡ suc im.max_id
    pub size_down : length l.ldown ≡ suc im.max_id
    pub degrees :
        (v : ℕ) → v ≤ im.max_id → num l.indeg v ≡ edges_into (targets im) v (suc im.max_id) 0
    pub inside : (w : ℕ) → Memᴰ w l.order → w ≤ im.max_id
    pub sources : (v : ℕ) → v ≤ im.max_id → (num l.indeg v ≡ 0) ↔ Memᴰ v l.order
    pub distinct : NoDup l.order
    pub first : (w : ℕ) → Memᴰ w l.order → num l.ldown w ≡ 1

  start-Between : (l : Layering) → IsStart l → Between im whole small 2 [] l.order l
  unfolding elem
  start-Between l s = record {
    kahn = record {
      size_in = s.size_in;
      size_down = s.size_down;
      balance =
          λ v h. omega (arith, edges_from-nil (targets im) v (suc im.max_id) 0, s.degrees v h);
      inside = s.inside;
      ready = s.sources;
      level = λ v w m h t.
          let none_left = (s.sources v (s.inside v m)).1 m in
          let degree = s.degrees v (s.inside v m) in
          absurd (
            (edges_into-zero (targets im) v (suc im.max_id) 0).0 (omega arith) w (omega arith)
              (omega arith) t);
      before =
          Before-sources im [] l.order
            (λ v w m h t.
              let none_left = (s.sources v (s.inside v m)).1 m in
              let degree = s.degrees v (s.inside v m) in
              (edges_into-zero (targets im) v (suc im.max_id) 0).0 (omega arith) w (omega arith)
                (omega arith) t)
            s.distinct (λ v m n. Memᴰ.not-nil n);
      below = λ w m. omega (arith, s.first w m);
    };
    next = record {
      members = λ w m. (s.inside w m, refl, m, omega (arith, s.first w m));
      distinct = s.distinct;
      seen_queued = λ w m. absurd (Memᴰ.not-nil m);
    };
    covers = λ w m. inr m;
  }

  module _ (rank : ℕ → ℕ)
      (acyclic : (u v : ℕ) → u ≤ im.max_id → Memᴰ v (targets im u) → rank u < rank v) where
    all_queued :
        (k layer : ℕ) (seen : List ℕ) (l : Layering)
        → Between im whole small layer seen [] l
        → (v : ℕ) → rank v < k
        → v ≤ im.max_id
        → Memᴰ v l.order
    all_queued zero layer seen l b v less h = absurd (omega arith)
    all_queued (suc k) layer seen l b v less h =
        let starts : (w : ℕ) → 0 ≤ w → w < 0 + suc im.max_id → Memᴰ v (targets im w) → Memᴰ w seen =
          λ w low high m.
            elim (b.covers w (
              all_queued k layer seen l b w (omega (arith, acyclic w v (omega arith) m))
                (omega arith))) [ inl s ↦ s | inr n ↦ absurd (Memᴰ.not-nil n) ] in
        let full = edges_from_full (targets im) v seen (suc im.max_id) 0 starts in
        (b.kahn.ready v h).0 (omega (arith, b.kahn.balance v h))

    -- In an acyclic graph, from the vertices that no edge leads into, `pre_process` ends: each vertex is then in
    -- the topological order, behind all that have edges into it, and along every edge `Ldown` rises.
    pub pre_process_lem :
        (l : Layering)
        → IsStart l
        → (l' : Layering) × (pre_process im l ≡ some l')
          × (((v : ℕ) → (v ≤ im.max_id) ↔ Memᴰ v l'.order) × Before im [] l'.order)
          × ((u v : ℕ) → u ≤ im.max_id → Memᴰ v (targets im u) → num l'.ldown u < num l'.ldown v)
    unfolding pre_process
    pre_process_lem l s =
        let bound = unseen_bound [] (suc im.max_id) 0 in
        let (layer, seen, l', e, b) =
          rounds_lem im whole small (suc (suc im.max_id)) 2 [] l.order l (start-Between l s)
            (omega arith) in
        let all = λ (v : ℕ) (h : v ≤ im.max_id).
          all_queued (suc (rank v)) layer seen l' b v (omega arith) h in
        (
          l',
          e,
          (λ v. (all v, b.kahn.inside v), b.kahn.before),
          λ u v h m. (b.kahn.level v u (all v (whole.in_range u v h m)) h m).1,
        )
