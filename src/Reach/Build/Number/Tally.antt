-- ===== src/Reach/Build/Number/Tally.antt =====
-- Matrix/reach.cpp: an edge in `cal_cross_degree` is counted, and the vertex it leads to is queued once.
use mathlib.Core.List.Memᴰ
use mathlib.Core.List.{foldl}
use mgtag.Prelude.{
  ℕ, suc, ◌+◌, ◌^◌, ◌≤◌, ◌<◌, ◌≡◌, ◌≢◌, ◌⊎◌, inl, inr, refl, sym, ap, ◌∙◌, true, false, List, [],
  ◌∷◌, ◌++◌, append_assoc, Memᴰ, Memᴰ-concat, Memᴰ-append, length, length-set, get_or-set_self,
  get_or-set_ne, set, ◌==◌, Bool-cases, arith,
}
use mgtag.Reach.Graph.{Image, IsWhole}
use mgtag.Reach.Build.Degrees.{num, flag, inc32}
use mgtag.Reach.Build.Counts.{count, count-append, count_own, count_other, edges_into}
use mgtag.Reach.Build.Positions.{NoDup, NoDup-append}
use mgtag.Reach.Build.Sums.{elem, edges_from, edges_from_room}
use mgtag.Reach.Build.Unseen.{clash}
use mgtag.Reach.Build.Number.{Counting, same_tree, count_edge}
use mgtag.Reach.Build.Number.Trees.{tree_row, tree_row_iff, IsForest}

module _ (im : Image) (located : List ℕ) where
  -- what the edge to `x` does
  Outcome : ℕ → Counting → Counting → Type 0
  Outcome x c c' =
      (c'.indeg ≡ set c.indeg x (inc32 (num c.indeg x)))
      × (((flag c.seen x ≡ false) × (c'.seen ≡ set c.seen x true) × (c'.que ≡ c.que ++ x ∷ []))
          ⊎ ((flag c.seen x ≡ true) × (c'.seen ≡ c.seen) × (c'.que ≡ c.que)))

  edge_inside :
      (u x : ℕ) (c : Counting)
      → same_tree im located u x ≡ true
      → Outcome x c (count_edge im located u c x)
  unfolding Outcome count_edge
  edge_inside u x c e = elim (Bool-cases (flag c.seen x)) [
    | inl old ↦ rw (e, old) (refl, inr (refl, refl, refl))
    | inr new ↦ rw (e, new) (refl, inl (refl, refl, refl))
  ]

  pub edge_outside :
      (u x : ℕ) (c : Counting) → same_tree im located u x ≡ false → count_edge im located u c x ≡ c
  unfolding count_edge
  edge_outside u x c e = rw e refl

  count_edge-que :
      (w u : ℕ) (c : Counting) (x : ℕ) → Memᴰ w c.que → Memᴰ w (count_edge im located u c x).que
  unfolding count_edge
  count_edge-que w u c x m = ground (arith, Memᴰ-concat w x c.que)

  pub count_row-que :
      (w u : ℕ) (c : Counting) (xs : List ℕ)
      → Memᴰ w c.que
      → Memᴰ w (foldl (count_edge im located u) c xs).que
  count_row-que w u c [] m = m
  count_row-que w u c (x ∷ xs) m =
      count_row-que w u (count_edge im located u c x) xs (count_edge-que w u c x m)

  module _ (roots : List ℕ) where
    -- The rows of `seen` are counted, and `part` of the row that is being read; the vertices of `done` have left
    -- the queue, and those of `read` were put on it as roots.
    pub record Tally (read seen done part : List ℕ) (c : Counting) : Type 0 where
      pub size_in : length c.indeg ≡ suc im.max_id
      pub size_seen : length c.seen ≡ suc im.max_id
      pub balance :
          (v : ℕ)
          → v ≤ im.max_id
          → num c.indeg v ≡ edges_from (tree_row im located) v seen (suc im.max_id) 0 + count v part
      pub inside : (w : ℕ) → Memᴰ w c.que → w ≤ im.max_id
      pub distinct : NoDup c.que
      pub fresh : (w : ℕ) → Memᴰ w c.que → ¬ Memᴰ w done
      pub marked : (v : ℕ) → flag c.seen v ≡ true → (Memᴰ v done ⊎ Memᴰ v c.que) × (¬ Memᴰ v roots)
      pub known : (v : ℕ) → Memᴰ v done ⊎ Memᴰ v c.que → Memᴰ v read ⊎ (flag c.seen v ≡ true)
      pub closed :
          (w v : ℕ) → Memᴰ w seen → Memᴰ v (tree_row im located w) → Memᴰ v done ⊎ Memᴰ v c.que
      pub closed_part : (v : ℕ) → Memᴰ v part → Memᴰ v done ⊎ Memᴰ v c.que

    module _ (whole : IsWhole im) (forest : IsForest im located roots)
        (small : (v : ℕ)
          → v ≤ im.max_id
          → edges_into (tree_row im located) v (suc im.max_id) 0 < 2 ^ 32)
        (read : List ℕ) (read_roots : (r : ℕ) → Memᴰ r read → Memᴰ r roots) (seen : List ℕ) (u : ℕ)
        (start : u ≤ im.max_id) (unread : elem u seen ≡ false) where
      module _ (ps xs : List ℕ) (x : ℕ) (c : Counting)
          (shape : tree_row im located u ≡ ps ++ x ∷ xs) (t : Tally read seen (u ∷ seen) ps c) where
        in_row : Memᴰ x (tree_row im located u)
        in_row = rw shape ((Memᴰ-append x ps (x ∷ xs)).1 (inr (Memᴰ.head refl)))

        vertex : x ≤ im.max_id
        vertex = whole.in_range u x start ((tree_row_iff im located u x).0 in_row).0

        not_root : ¬ Memᴰ x roots
        not_root r = (forest.sources x vertex).0 r u start in_row

        fits : num c.indeg x + 1 < 2 ^ 32
        fits = omega (
          arith,
          ap (count x) (shape ∙ sym (append_assoc ps (x ∷ []) xs)),
          count-append x (ps ++ x ∷ []) xs,
          count-append x ps (x ∷ []),
          count_own x,
          edges_from_room (tree_row im located) x u seen (suc im.max_id) (omega (arith, start))
              unread,
          t.balance x vertex,
          small x vertex,
        )

        abbrev up : List ℕ
        up = set c.indeg x (inc32 (num c.indeg x))

        balance' :
            (v : ℕ)
            → v ≤ im.max_id
            → num up v
              ≡ edges_from (tree_row im located) v seen (suc im.max_id) 0 + count v (ps ++ x ∷ [])
        balance' v h = elim (Bool-cases (x == v)) [
          | inl same ↦
              let e : x ≡ v = ground arith in
              let now =
                get_or-set_self c.indeg x (inc32 (num c.indeg x)) 0 (omega (arith, t.size_in)) in
              rw (← e) (
                omega
                  (arith, now, fits, t.balance x vertex, count-append x ps (x ∷ []), count_own x))
          | inr apart ↦
              let n : x ≢ v = ground arith in
              let now = get_or-set_ne c.indeg x v (inc32 (num c.indeg x)) 0 n in
              omega (arith, now, t.balance v h, count-append v ps (x ∷ []), count_other v x n)
        ]

        apart : flag c.seen x ≡ false → ¬ (Memᴰ x (u ∷ seen) ⊎ Memᴰ x c.que)
        apart new m = elim (t.known x m) [
          | inl r ↦ not_root (read_roots x r)
          | inr f ↦ clash (sym f ∙ new)
        ]

        counted :
            (c' : Counting)
            → c'.indeg ≡ up
            → flag c.seen x ≡ true
            → c'.seen ≡ c.seen
            → c'.que ≡ c.que
            → Tally read seen (u ∷ seen) (ps ++ x ∷ []) c'
        counted c' e1 old e2 e3 = record {
          size_in = ap length e1 ∙ length-set c.indeg x _ ∙ t.size_in;
          size_seen = ap length e2 ∙ t.size_seen;
          balance = rw e1 balance';
          inside = λ w m. t.inside w (rw e3 at m);
          distinct = rw e3 (t.distinct);
          fresh = λ w m. t.fresh w (rw e3 at m);
          marked = λ v f. rw e3 (t.marked v (rw e2 at f));
          known = λ v m. rw e2 (t.known v (rw e3 at m));
          closed = λ w v m e. rw e3 (t.closed w v m e);
          closed_part = λ v m. rw e3 (elim ((Memᴰ-concat v x ps).0 m) [
            | inl p ↦ t.closed_part v p
            | inr e ↦ rw e ((t.marked x old).0)
          ]);
        }

        module _ (c' : Counting) (new : flag c.seen x ≡ false) (e2 : c'.seen ≡ set c.seen x true)
            (e3 : c'.que ≡ c.que ++ x ∷ []) where
          still : (v : ℕ) → Memᴰ v (u ∷ seen) ⊎ Memᴰ v c.que → Memᴰ v (u ∷ seen) ⊎ Memᴰ v c'.que
          still v (inl d) = inl d
          still v (inr q) = inr (rw e3 ((Memᴰ-concat v x c.que).1 (inl q)))

          last : Memᴰ x c'.que
          last = rw e3 ((Memᴰ-concat x x c.que).1 (inr refl))

          split : (v : ℕ) → Memᴰ v c'.que → Memᴰ v c.que ⊎ (v ≡ x)
          split v m = (Memᴰ-concat v x c.que).0 (rw e3 at m)

          own : flag c'.seen x ≡ true
          own =
              ap (λ l. flag l x) e2
              ∙ get_or-set_self c.seen x true false (omega (arith, t.size_seen, vertex))

          others : (v : ℕ) → x ≢ v → flag c'.seen v ≡ flag c.seen v
          others v n = ap (λ l. flag l v) e2 ∙ get_or-set_ne c.seen x v true false n

          known_old :
              (v : ℕ) → Memᴰ v (u ∷ seen) ⊎ Memᴰ v c.que → Memᴰ v read ⊎ (flag c'.seen v ≡ true)
          known_old v m = elim (t.known v m) [
            | inl r ↦ inl r
            | inr f ↦ inr (others v (λ e. apart new (rw e m)) ∙ f)
          ]

          queued : c'.indeg ≡ up → Tally read seen (u ∷ seen) (ps ++ x ∷ []) c'
          queued e1 = record {
            size_in = ap length e1 ∙ length-set c.indeg x _ ∙ t.size_in;
            size_seen = ap length e2 ∙ length-set c.seen x true ∙ t.size_seen;
            balance = rw e1 balance';
            inside = λ w m. elim (split w m) [ inl q ↦ t.inside w q | inr e ↦ rw e vertex ];
            distinct = rw e3 (
                NoDup-append c.que (x ∷ []) t.distinct ((λ m. Memᴰ.not-nil m), tt)
                  (λ w m k. apart new (inr (rw (Memᴰ.eq_of_singleton k) at m))));
            fresh = λ w m. elim (split w m) [
              | inl q ↦ t.fresh w q
              | inr e ↦ rw e (λ d. apart new (inl d))
            ];
            marked = λ v f. elim (Bool-cases (x == v)) [
              | inl same ↦ let e : v ≡ x = ground arith in rw e (inr last, not_root)
              | inr differ ↦
                  let n : x ≢ v = ground arith in
                  let (m, k) = t.marked v (sym (others v n) ∙ f) in (still v m, k)
            ];
            known = λ v m. elim m [
              | inl d ↦ known_old v (inl d)
              | inr q ↦ elim (split v q) [
                | inl old ↦ known_old v (inr old)
                | inr e ↦ inr (rw e own)
              ]
            ];
            closed = λ w v m e. still v (t.closed w v m e);
            closed_part = λ v m. elim ((Memᴰ-concat v x ps).0 m) [
              | inl p ↦ still v (t.closed_part v p)
              | inr e ↦ inr (rw e last)
            ];
          }

        pub edge_step :
            same_tree im located u x ≡ true
            → Tally read seen (u ∷ seen) (ps ++ x ∷ []) (count_edge im located u c x)
        unfolding Outcome
        edge_step in_tree =
            let (e1, outcome) = edge_inside u x c in_tree in
            elim outcome [
              | inl (new, e2, e3) ↦ queued (count_edge im located u c x) new e2 e3 e1
              | inr (old, e2, e3) ↦ counted (count_edge im located u c x) e1 old e2 e3
            ]
