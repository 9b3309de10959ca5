-- ===== src/Reach/Build/Sweep/First.antt =====
-- Matrix/reach.cpp: the first pass of `construct_index` lays the first layer.
use mathlib.Core.List.Memᴰ
use mathlib.Core.List.{foldl}
use mgtag.Prelude.{
  ℕ, zero, suc, ◌^◌, ◌≤◌, ◌<◌, ◌≡◌, ◌↔◌, inl, inr, refl, sym, ap, ◌∙◌, true, false, List, [], some,
  Memᴰ, length, length-replicate, replicate, get_or-replicate, Bool-cases, ◌==◌, arith,
}
use mgtag.Reach.Graph.{Image, targets, IsWhole}
use mgtag.Reach.Build.Degrees.{num, flag, init_degree, select_from, get_forward_root_vertices}
use mgtag.Reach.Build.Counts.{edges_into, edges_into-zero, edges_into_some}
use mgtag.Reach.Build.Layers.{Layering, Roots, add_root, no_marks, pre_process}
use mgtag.Reach.Build.Positions.{NoDup}
use mgtag.Reach.Build.Roots.{IsSource, select_from_mem, get_forward_root_vertices_lem}
use mgtag.Reach.Build.Start.{started-IsStart}
use mgtag.Reach.Build.Topology.{IsStart}
use mgtag.Reach.Build.Unseen.{edges_from_full}
use mgtag.Reach.Build.Sweep.Reads.{Inner}
use mgtag.Reach.Build.Sweep.Whole.{
  part_row, part_row_iff, part_row_twice, edges_into_same, edges_into-part_row, Start, Done,
  pass_lem,
}
use mgtag.Reach.Build.Sweep.Laid.{Laid, laid_lem, elem-cases}
use mgtag.Reach.Build.Sweep.Placed.{Placed, add_roots_lem}
use mgtag.Reach.Build.Sweep.Climbs.{Climbs-more, same_tree}
use mgtag.Reach.Build.Sweep.Coming.{Layers, inner_of, inner_acyclic, inner_from}

module _ (im : Image) where
  abbrev pub everyone : List ℕ
  everyone = select_from (λ v. true) (suc im.max_id) 0

  abbrev pub zeros : List ℕ
  zeros = replicate (suc im.max_id) 0

  abbrev pub first : Layering
  first = record {
    indeg = (init_degree im).indeg;
    next = zeros;
    crossed = no_marks im;
    located = zeros;
    cross_id = [];
    order = [];
    ldown = zeros;
  }

  abbrev pub no_roots : Roots
  no_roots = record { roots = []; root_layer = zeros; layers = 1 }

  abbrev pub second : Layering → Layering
  second l = record l { indeg = l.next; next = zeros }

module _ (qsort : List ℕ → List ℕ) (im : Image) where
  abbrev pub roots_of : List ℕ
  roots_of = get_forward_root_vertices qsort im (init_degree im)

  abbrev pub rooted : Layering × Roots
  rooted = foldl add_root (first im, no_roots im) roots_of

module _ (im : Image) (whole : IsWhole im)
    (small : (v : ℕ) → v ≤ im.max_id → edges_into (targets im) v (suc im.max_id) 0 < 2 ^ 32)
    (qsort : List ℕ → List ℕ) (same_members : (xs : List ℕ) (a : ℕ) → Memᴰ a (qsort xs) ↔ Memᴰ a xs)
    (keeps_distinct : (xs : List ℕ) → NoDup xs → NoDup (qsort xs)) (rank : ℕ → ℕ)
    (acyclic : (u v : ℕ) → u ≤ im.max_id → Memᴰ v (targets im u) → rank u < rank v) where
  pub an-IsSource : (k v : ℕ) → rank v < k → v ≤ im.max_id → (s : ℕ) × IsSource im s
  unfolding IsSource
  an-IsSource zero v less h = absurd (omega arith)
  an-IsSource (suc k) v less h =
      elim (Bool-cases (edges_into (targets im) v (suc im.max_id) 0 == 0)) [
        | inl z ↦
            let free = (edges_into-zero (targets im) v (suc im.max_id) 0).0 (ground arith) in
            (v, (h, λ u l. free u (omega arith) (omega arith)))
        | inr z ↦
            let (w, low, high, t) =
              edges_into_some (targets im) v (suc im.max_id) 0 (ground arith) in
            an-IsSource k w (omega (arith, acyclic w v (omega arith) t)) (omega arith)
      ]

  everyone_iff : (v : ℕ) → Memᴰ v (everyone im) ↔ (v < suc im.max_id)
  everyone_iff v =
      let m = select_from_mem (λ v. true) (suc im.max_id) 0 v in
      (λ k. let (low, high, t) = m.0 k in omega arith, λ h. m.1 (omega arith, omega arith, refl))

  num-zeros : (v : ℕ) → num (zeros im) v ≡ 0
  num-zeros v = let none_yet : ℕ = 0 in get_or-replicate (suc im.max_id) none_yet v

  first-Laid : Laid im (zeros im) (everyone im) []
  first-Laid = record {
    below = λ w m. (everyone_iff w).0 m;
    closed = λ w v m t.
        let less = (everyone_iff w).0 m in
        (everyone_iff v).1 (omega (arith, whole.in_range w v (omega arith) t));
    unset = λ w m. num-zeros w;
    fixed = λ v h k. absurd (k ((everyone_iff v).1 h));
    roots = λ q m. absurd (Memᴰ.not-nil m);
    distinct = tt;
    apart = λ q w m. absurd (Memᴰ.not-nil m);
    joined = λ v h k. absurd (k ((everyone_iff v).1 h));
  }

  inner : Inner im (part_row (targets im) (everyone im)) (everyone im)
  inner = inner_of im whole small rank acyclic (zeros im) (everyone im) [] first-Laid

  is_start : IsStart im whole small ((rooted qsort im).0)
  is_start =
      let (s, source) = an-IsSource (suc (rank 0)) 0 (omega arith) (omega arith) in
      started-IsStart im whole small qsort same_members keeps_distinct s (first im) (no_roots im)
        source refl refl (length-replicate (suc im.max_id) 0)

  root_in : (v : ℕ) → Memᴰ v (roots_of qsort im) → v < suc im.max_id
  unfolding IsSource
  root_in v m =
      let (s, source) = an-IsSource (suc (rank 0)) 0 (omega arith) (omega arith) in
      let (h, k) = (get_forward_root_vertices_lem qsort same_members im small s source v).0 m in
      omega arith

  placed :
      Placed
        (roots_of qsort im)
        (first im)
        (no_roots im)
        ((rooted qsort im).0)
        ((rooted qsort im).1)
  placed =
      add_roots_lem (suc im.max_id) (roots_of qsort im) (first im) (no_roots im)
        (length-replicate (suc im.max_id) 0) (length-replicate (suc im.max_id) 0) root_in

  every_edge :
      (v : ℕ)
      → edges_into (targets im) v (suc im.max_id) 0
        ≡ edges_into (part_row (targets im) (everyone im)) v (suc im.max_id) 0
  every_edge v =
      edges_from_full (targets im) v (everyone im) (suc im.max_id) 0
        (λ w low high m. (everyone_iff w).1 (omega arith))
      ∙ sym (edges_into-part_row (targets im) (everyone im) v (suc im.max_id) 0)

  sources :
      (v : ℕ)
      → Memᴰ v (everyone im)
      → Memᴰ v (roots_of qsort im)
        ↔ (edges_into (part_row (targets im) (everyone im)) v (suc im.max_id) 0 ≡ 0)
  sources v m =
      let h = (everyone_iff v).0 m in
      let degree = is_start.degrees v (omega arith) in
      let ready = is_start.sources v (omega arith) in
      (
        λ k. sym (every_edge v) ∙ sym degree ∙ ready.1 (rw (placed.order) k),
        λ z. rw (placed.order) at (ready.0 (degree ∙ every_edge v ∙ z)),
      )

  roots_distinct : NoDup (roots_of qsort im)
  roots_distinct = rw (placed.order) at (is_start.distinct)

  abbrev first_acyclic :
      (w v : ℕ)
      → Memᴰ w (everyone im)
      → Memᴰ v (part_row (targets im) (everyone im) w)
      → rank w < rank v
  first_acyclic = inner_acyclic im whole small rank acyclic (zeros im) (everyone im) [] first-Laid

  abbrev first_from :
      (w v : ℕ) → Memᴰ v (part_row (targets im) (everyone im) w) → Memᴰ w (everyone im)
  first_from = inner_from im whole small rank acyclic (everyone im)

  first-Start :
      Start im
        (part_row (targets im) (everyone im))
        (everyone im)
        (roots_of qsort im)
        inner
        rank
        first_acyclic
        first_from
        ((rooted qsort im).0)
  first-Start =
      let p = placed in
      record {
        size_in = is_start.size_in;
        size_located = p.size_located ∙ length-replicate (suc im.max_id) 0;
        size_crossed = ap length p.crossed ∙ length-replicate (suc im.max_id) false;
        size_next = ap length p.next ∙ length-replicate (suc im.max_id) 0;
        degrees = λ v h. is_start.degrees v (omega arith) ∙ every_edge v;
        queue = p.order;
        of_ws = λ r m. (everyone_iff r).1 (root_in r m);
        distinct = roots_distinct;
        sources = λ v m.
            let h = (everyone_iff v).0 m in rw (p.order) at (is_start.sources v (omega arith));
        trees = p.trees;
        unset = λ v m. elim (elem-cases v (roots_of qsort im)) [
          | inl k ↦ inl k
          | inr k ↦ inr (p.located_other v k ∙ num-zeros v)
        ];
        uncrossed = λ v. ap (λ t. flag t v) p.crossed ∙ get_or-replicate (suc im.max_id) false v;
        none_next = λ v h. ap (λ t. num t v) p.next ∙ num-zeros v;
        no_cross = p.cross_id;
      }

  first-Layers :
      (bad : List ℕ) (l : Layering)
      → Done im
          (part_row (targets im) (everyone im))
          (everyone im)
          (roots_of qsort im)
          inner
          rank
          first_acyclic
          first_from
          ((rooted qsort im).0).located
          bad
          l
      → Layers im whole small rank acyclic bad (second im l) ((rooted qsort im).1)
  first-Layers bad l d =
      let p = placed in
      let laid =
        laid_lem im (zeros im) (everyone im) [] first-Laid (roots_of qsort im) bad inner rank
          first_acyclic first_from ((rooted qsort im).0).located
          (λ v k. p.located_other v (λ m. k ((everyone_iff v).1 (root_in v m)))) l d
          (λ r m. (everyone_iff r).1 (root_in r m)) roots_distinct sources in
      record {
        laid = rw (p.roots) laid;
        size_in = d.size_next;
        size_located = d.size_located;
        size_next = length-replicate (suc im.max_id) 0;
        size_layer = p.size_layer ∙ length-replicate (suc im.max_id) 0;
        degrees = λ v h.
            d.next_count v h
            ∙ edges_into_same (part_row (part_row (targets im) (everyone im)) bad)
                (part_row (targets im) bad) v (suc im.max_id) 0
                (part_row_twice (targets im) (everyone im) bad (λ w m. ((d.bad_iff w).0 m).0));
        none_next = λ v h. num-zeros v;
        cross_in = d.cross_in;
        cross_distinct = d.cross_distinct;
        cross_known = d.cross_known;
        climbs = rw (p.roots) (
            Climbs-more (zeros im) ((rooted qsort im).1).root_layer [] (roots_of qsort im) 0
              (λ q m. absurd (Memᴰ.not-nil m)) p.root_layers tt);
        capped = λ q m. let k = p.root_layers q (rw (p.roots) at m) in omega (arith, p.layers);
        edges = λ w v h k k' t.
            let i = (everyone_iff w).1 h in
            let i' = first-Laid.closed w v i t in
            let j = d.joined w v i ((part_row_iff (targets im) (everyone im) w v).1 (i, t)) in
            elim (j.1 (uncrossed w i k)) [
              | inl c ↦ absurd (k' ((d.bad_iff v).1 (i', c)))
              | inr e ↦ same_tree e
            ];
      }
    where
      uncrossed : (u : ℕ) → Memᴰ u (everyone im) → ¬ Memᴰ u bad → flag l.crossed u ≡ false
      uncrossed u i k = elim (Bool-cases (flag l.crossed u)) [
        | inl c ↦ absurd (k ((d.bad_iff u).1 (i, c)))
        | inr c ↦ c
      ]

  -- The (first im) pass ends, and lays the (first im) layer.
  pub first_pass :
      (bad : List ℕ) × (passed : Layering) × (pre_process im ((rooted qsort im).0) ≡ some passed)
      × Layers im whole small rank acyclic bad (second im passed) ((rooted qsort im).1)
  unfolding pre_process
  first_pass =
      let (bad, l, e, d) =
        pass_lem im (part_row (targets im) (everyone im)) (everyone im) (roots_of qsort im) inner
          rank first_acyclic first_from (some 2) ((rooted qsort im).0) first-Start in
      (bad, l, e, first-Layers bad l d)
