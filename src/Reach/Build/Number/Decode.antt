-- ===== src/Reach/Build/Number/Decode.antt =====
-- Matrix/reach.cpp: `decode` numbers all vertices of a forest.
use mathlib.Core.List.Memᴰ
use mgtag.Prelude.{
  ℕ, ◌^◌, ◌<◌, zero, suc, ◌≤◌, ◌<◌, ◌≡◌, ◌⊎◌, inl, inr, refl, sym, ◌∙◌, List, [], ◌∷◌, some, Memᴰ,
  length, length-replicate, replicate, All, arith,
}
use mgtag.Reach.Graph.{Image, IsWhole, targets}
use mgtag.Reach.Build.Degrees.{num}
use mgtag.Reach.Build.Counts.{edges_into}
use mgtag.Reach.Build.Sums.{edges_from-nil}
use mgtag.Reach.Build.Unseen.{unseen-nil, unseen_none, edges_from_full}
use mgtag.Reach.Build.Number.{Numbering, decode, cal_cross_degree}
use mgtag.Reach.Build.Number.Trees.{tree_row, tree_row_iff, IsForest, root_iff}
use mgtag.Reach.Build.Number.Cross.{cal_cross_degree_lem}
use mgtag.Reach.Build.Number.Forest.{Climbs, Apart, number_trees_lem}

module _ (im : Image) (located roots root_layer : List ℕ) where
  -- What the ids and labels of `decode` say: the ids are 1 to `max_id + 1`, each given once; they rise along the
  -- edges inside a tree and from layer to layer; and the labels are the tree and its root's layer.
  pub record IsNumbering (s : Numbering) : Type 0 where
    pub count : s.count ≡ suc im.max_id
    pub ids : (v : ℕ) → v ≤ im.max_id → (1 ≤ num s.new_id v) × (num s.new_id v ≤ suc im.max_id)
    pub injective :
        (w v : ℕ) → w ≤ im.max_id → v ≤ im.max_id → num s.new_id w ≡ num s.new_id v → w ≡ v
    pub onto :
        (i : ℕ) → 1 ≤ i → i ≤ suc im.max_id → (w : ℕ) × (w ≤ im.max_id) × (num s.new_id w ≡ i)
    pub ascends :
        (w v : ℕ)
        → w ≤ im.max_id
        → Memᴰ v (targets im w)
        → num located v ≡ num located w
        → num s.new_id w < num s.new_id v
    pub tree_label : (v : ℕ) → v ≤ im.max_id → num s.rlt (num s.new_id v) ≡ num located v
    pub layer_label :
        (v : ℕ)
        → v ≤ im.max_id
        → (r : ℕ) × Memᴰ r roots
          × (num located v ≡ suc r)
          × (num s.rl (num s.new_id v) ≡ num root_layer r)
    pub layers :
        (w v : ℕ)
        → w ≤ im.max_id
        → v ≤ im.max_id
        → num s.rl (num s.new_id w) < num s.rl (num s.new_id v)
        → num s.new_id w < num s.new_id v

module _ (im : Image) (whole : IsWhole im) (located roots root_layer : List ℕ)
    (forest : IsForest im located roots) where
  module _ (read done : List ℕ) (tree top : ℕ) (s : Numbering)
      (a : Apart im whole located roots root_layer forest read done tree top s)
      (all_read : (r : ℕ) → Memᴰ r roots → Memᴰ r read)
      (only_roots : (r : ℕ) → Memᴰ r read → Memᴰ r roots) where
    all_done : (k v : ℕ) → forest.rank v < k → v ≤ im.max_id → Memᴰ v done
    all_done zero v less h = absurd (omega arith)
    all_done (suc k) v less h =
        let full = edges_from_full (tree_row im located) v done (suc im.max_id) 0 (λ w low high m.
          all_done k w (omega (arith, forest.acyclic w v (omega arith) m)) (omega arith)) in
        elim (a.opened.queued v h (omega (arith, a.opened.balance v h))) [
          | inl r ↦ a.read_done v (all_read v r)
          | inr (inl d) ↦ d
          | inr (inr t) ↦ absurd (Memᴰ.not-nil (rw (a.empty) at t))
        ]

    every : (v : ℕ) → v ≤ im.max_id → Memᴰ v done
    every v h = all_done (suc (forest.rank v)) v (omega arith) h

    finished : IsNumbering im located roots root_layer s
    finished =
        let n = a.numbered in
        let none_left = unseen_none done (suc im.max_id) 0 (λ w low high. every w (omega arith)) in
        let whole_count : s.count ≡ suc im.max_id = omega (arith, n.room) in
        record {
          count = whole_count;
          ids = λ v h. omega (arith, n.ids v (every v h));
          injective = λ w v h k. n.injective w v (every w h) (every v k);
          onto = λ i low high. let (w, m, e) = n.onto i low (omega arith) in (w, n.vertices w m, e);
          ascends = λ w v h m same.
              (n.ascends w v h (every v (whole.in_range w v h m))
                ((tree_row_iff im located w v).1 (m, same))).1;
          tree_label = λ v h. n.tree_label v (every v h);
          layer_label = λ v h.
              let (r, m, named, label) = n.layer_label v (every v h) in
              (r, only_roots r m, named, label);
          layers = λ w v h k. n.layers w v (every w h) (every v k);
        }

  decode_lem :
      (indeg : List ℕ)
      → Climbs root_layer roots
      → length indeg ≡ suc im.max_id
      → ((v : ℕ)
          → v ≤ im.max_id
          → num indeg v ≡ edges_into (tree_row im located) v (suc im.max_id) 0)
      → (s : Numbering) × (decode im located roots root_layer indeg ≡ some s)
        × IsNumbering im located roots root_layer s
  unfolding decode
  decode_lem indeg climbs size degrees =
      let n = suc im.max_id in
      let zeros : List ℕ = replicate (suc n) 0 in
      let start : Numbering = record {
        indeg = indeg;
        count = 0;
        new_id = replicate n 0;
        rl = zeros;
        rlt = zeros;
        excp_o = replicate n [];
        stack = [];
      } in
      let (read, done, tree, top, s, ends, a, all) =
        number_trees_lem im whole located roots root_layer forest roots [] [] 0 0 start
          (λ q m. (m, Memᴰ.not-nil)) forest.distinct (All_zero roots) climbs
          record {
            opened = record {
              size_in = size;
              balance =
                  λ v h. omega (arith, edges_from-nil (tree_row im located) v n 0, degrees v h);
              inside = λ w m. absurd (Memᴰ.not-nil m);
              of_tree = λ w m. absurd (Memᴰ.not-nil m);
              distinct = tt;
              fresh = λ w m. absurd (Memᴰ.not-nil m);
              counted = λ v m. absurd (none v m);
              queued =
                  λ v h z. inl ((root_iff im located roots forest v h).1 (sym (degrees v h) ∙ z));
              starts = λ v w m. absurd (none v m);
            };
            numbered = record {
              size_id = length-replicate n 0;
              size_rl = length-replicate (suc n) 0;
              size_rlt = length-replicate (suc n) 0;
              vertices = λ w m. absurd (Memᴰ.not-nil m);
              room = omega (arith, unseen-nil n 0);
              ids = λ w m. absurd (Memᴰ.not-nil m);
              injective = λ w v m. absurd (Memᴰ.not-nil m);
              onto = λ i l h. absurd (omega arith);
              ascends = λ w v h m. absurd (Memᴰ.not-nil m);
              tree_label = λ w m. absurd (Memᴰ.not-nil m);
              layer_label = λ w m. absurd (Memᴰ.not-nil m);
              capped = λ w m. absurd (Memᴰ.not-nil m);
              layers = λ w v m. absurd (Memᴰ.not-nil m);
            };
            empty = refl;
            read_done = λ q m. absurd (Memᴰ.not-nil m);
          } in
      (
        s,
        ends,
        finished read done tree top s a (λ r m. (all r).1 (inl m))
            (λ r m. elim ((all r).0 m) [ inl q ↦ q | inr q ↦ absurd (Memᴰ.not-nil q) ]),
      )
    where
      none : (v : ℕ) → ¬ (Memᴰ v [] ⊎ Memᴰ v [])
      none v (inl m) = Memᴰ.not-nil m
      none v (inr m) = Memᴰ.not-nil m

      All_zero : (rs : List ℕ) → All (λ q. 0 ≤ num root_layer q) rs
      All_zero [] = tt
      All_zero (r ∷ rs) = (omega arith, All_zero rs)

  -- On a forest whose roots stand in the order of their layers, with fewer than 2^32 edges into each vertex from its
  -- own tree, and from counts of 0, `cal_cross_degree` and then `decode` end: the new ids are 1 to `max_id + 1`, each
  -- given to one vertex; they rise along the edges inside a tree and from layer to layer; and the labels of an id are
  -- the tree of its vertex and the layer of that tree's root.
  pub decode-cal_cross_degree :
      ((v : ℕ) → v ≤ im.max_id → edges_into (tree_row im located) v (suc im.max_id) 0 < 2 ^ 32)
      → Climbs root_layer roots
      → (zeros : List ℕ) → length zeros ≡ suc im.max_id
      → ((v : ℕ) → v ≤ im.max_id → num zeros v ≡ 0)
      → (indeg : List ℕ) × (cal_cross_degree im located roots zeros ≡ some indeg)
        × (s : Numbering) × (decode im located roots root_layer indeg ≡ some s)
        × IsNumbering im located roots root_layer s
  decode-cal_cross_degree small climbs zeros size empty =
      let (indeg, e, kept, counts) =
        cal_cross_degree_lem im whole located roots forest small zeros size empty in
      let (s, ends, numbered) = decode_lem indeg climbs kept counts in (indeg, e, s, ends, numbered)
