-- ===== src/Reach/Build/Number/Cross.antt =====
-- Matrix/reach.cpp: `cal_cross_degree` counts the edges inside all trees of a forest.
use mathlib.Core.List.Memᴰ
use mgtag.Prelude.{
  ℕ, zero, suc, ◌^◌, ◌≤◌, ◌<◌, ◌≡◌, ◌⊎◌, inl, inr, refl, sym, ◌∙◌, false, List, [], ◌∷◌, some, Memᴰ,
  Memᴰ-cons, length, length-replicate, get_or-replicate, replicate, ◌==◌, Bool-cases, arith,
}
use mgtag.Reach.Graph.{Image, IsWhole}
use mgtag.Reach.Build.Degrees.{num}
use mgtag.Reach.Build.Counts.{count, edges_into, edges_into_some}
use mgtag.Reach.Build.Positions.{NoDup}
use mgtag.Reach.Build.Sums.{edges_from-nil}
use mgtag.Reach.Build.Unseen.{unseen_bound, edges_from_full, clash}
use mgtag.Reach.Build.Number.{Counting, count_tree, count_trees, cal_cross_degree}
use mgtag.Reach.Build.Number.Trees.{tree_row, IsForest, root_iff}
use mgtag.Reach.Build.Number.Tally.{Tally}
use mgtag.Reach.Build.Number.Tallies.{count_tree_lem}

module _ (im : Image) (whole : IsWhole im) (located roots : List ℕ)
    (forest : IsForest im located roots)
    (small : (v : ℕ)
      → v ≤ im.max_id
      → edges_into (tree_row im located) v (suc im.max_id) 0 < 2 ^ 32) where
  -- the state between two trees, after those of the roots in `read`
  record Apart (read done : List ℕ) (c : Counting) : Type 0 where
    tally : Tally im located roots read done done [] c
    empty : c.que ≡ []
    roots_only : (r : ℕ) → Memᴰ r read → Memᴰ r roots
    read_done : (r : ℕ) → Memᴰ r read → Memᴰ r done

  module _ (read done : List ℕ) (r : ℕ) (c : Counting) (a : Apart read done c) (root : Memᴰ r roots)
      (unread : ¬ Memᴰ r read) where
    unqueued : ¬ Memᴰ r done
    unqueued m = elim (a.tally.known r (inl m)) [
      | inl q ↦ unread q
      | inr f ↦ (a.tally.marked r f).1 root
    ]

    abbrev with_root : Counting
    with_root = record c { que = r ∷ c.que }

    only_root : (v : ℕ) → Memᴰ v (r ∷ c.que) → v ≡ r
    only_root v m = Memᴰ.eq_of_singleton (rw (a.empty) at m)

    wider : (v : ℕ) → Memᴰ v done ⊎ Memᴰ v c.que → Memᴰ v done ⊎ Memᴰ v (r ∷ c.que)
    wider v (inl d) = inl d
    wider v (inr q) = inr (Memᴰ.tail q)

    started : Tally im located roots (r ∷ read) done done [] with_root
    started =
        let t = a.tally in
        record {
          size_in = t.size_in;
          size_seen = t.size_seen;
          balance = t.balance;
          inside = λ w m. rw (only_root w m) (forest.vertices r root);
          distinct = rw (a.empty) ((λ m. Memᴰ.not-nil m, tt));
          fresh = λ w m. rw (only_root w m) unqueued;
          marked = λ v f. let (m, k) = t.marked v f in (wider v m, k);
          known = λ v m. elim m [
            | inl d ↦ elim (t.known v (inl d)) [ inl q ↦ inl (Memᴰ.tail q) | inr f ↦ inr f ]
            | inr q ↦ inl (Memᴰ.head (only_root v q))
          ];
          closed = λ w v m e. wider v (t.closed w v m e);
          closed_part = λ v m. absurd (Memᴰ.not-nil m);
        }

    tree_lem :
        (done' : List ℕ) × (c' : Counting) × (count_tree im located (suc (suc im.max_id)) with_root
          ≡ some c')
        × Apart (r ∷ read) done' c'
    tree_lem =
        let bound = unseen_bound done (suc im.max_id) 0 in
        let of_roots : (q : ℕ) → Memᴰ q (r ∷ read) → Memᴰ q roots = λ q m.
          elim ((Memᴰ-cons q r read).0 m) [ inl e ↦ rw e root | inr old ↦ a.roots_only q old ] in
        let (done', c', ends, b, empty, all) =
          count_tree_lem im whole located roots forest small (suc (suc im.max_id)) (r ∷ read) done
            with_root of_roots started (omega arith) in
        (
          done',
          c',
          ends,
          record {
            tally = b;
            empty = empty;
            roots_only = of_roots;
            read_done = λ q m. all q (elim ((Memᴰ-cons q r read).0 m) [
              | inl e ↦ inr (Memᴰ.head e)
              | inr old ↦ inl (a.read_done q old)
            ]);
          },
        )

  trees_go :
      (r : ℕ) (rs : List ℕ) (c d : Counting)
      → count_tree im located (suc (suc im.max_id)) (record c { que = r ∷ c.que }) ≡ some d
      → count_trees im located (r ∷ rs) c ≡ count_trees im located rs d
  unfolding count_trees
  trees_go r rs c d e = rw (e, count_trees) refl

  count_trees_lem :
      (rs read done : List ℕ) (c : Counting)
      → ((q : ℕ) → Memᴰ q rs → Memᴰ q roots × (¬ Memᴰ q read))
      → NoDup rs
      → Apart read done c
      → (read' done' : List ℕ) × (c' : Counting) × (count_trees im located rs c ≡ some c')
        × Apart read' done' c'
        × ((q : ℕ) → Memᴰ q rs ⊎ Memᴰ q read → Memᴰ q read')
  unfolding count_trees
  count_trees_lem [] read done c of_roots d a =
      (read, done, c, refl, a, λ q m. elim m [ inl n ↦ absurd (Memᴰ.not-nil n) | inr old ↦ old ])
  count_trees_lem (r ∷ rs) read done c of_roots d a =
      let (root, unread) = of_roots r (Memᴰ.head refl) in
      let (done1, c1, ends, a1) = tree_lem read done r c a root unread in
      let (read', done', c', rest, a', all) =
        count_trees_lem rs (r ∷ read) done1 c1
          (λ q m. (
            (of_roots q (Memᴰ.tail m)).0,
            λ old. elim ((Memᴰ-cons q r read).0 old) [
              | inl e ↦ d.0 (rw e at m)
              | inr o ↦ (of_roots q (Memᴰ.tail m)).1 o
            ],
          ))
          d.1 a1 in
      (
        read',
        done',
        c',
        trees_go r rs c c1 ends ∙ rest,
        a',
        λ q. ground (arith, all q, Memᴰ-cons q r rs, Memᴰ-cons q r read),
      )

  module _ (read done : List ℕ) (c : Counting) (a : Apart read done c)
      (all_read : (r : ℕ) → Memᴰ r roots → Memᴰ r read) where
    all_done : (k v : ℕ) → forest.rank v < k → v ≤ im.max_id → Memᴰ v done
    all_done zero v less h = absurd (omega arith)
    all_done (suc k) v less h =
        let n = suc im.max_id in
        elim (Bool-cases (edges_into (tree_row im located) v n 0 == 0)) [
          | inl none ↦
              a.read_done v (all_read v ((root_iff im located roots forest v h).1 (ground arith)))
          | inr positive ↦
              let (u, l, k', m) = edges_into_some (tree_row im located) v n 0 (ground arith) in
              let start =
                all_done k u (omega (arith, forest.acyclic u v (omega arith) m)) (omega arith) in
              elim (a.tally.closed u v start m) [
                | inl d ↦ d
                | inr q ↦ absurd (Memᴰ.not-nil (rw (a.empty) at q))
              ]
        ]

    finished :
        (v : ℕ)
        → v ≤ im.max_id
        → num c.indeg v ≡ edges_into (tree_row im located) v (suc im.max_id) 0
    unfolding count
    finished v h =
        let full =
          edges_from_full (tree_row im located) v done (suc im.max_id) 0
            (λ w low high m. all_done (suc (forest.rank w)) w (omega arith) (omega arith)) in
        omega (arith, a.tally.balance v h)

  cross_go :
      (zeros : List ℕ) (c : Counting)
      → count_trees im located roots
          (record { indeg = zeros; seen = replicate (suc im.max_id) false; que = [] })
        ≡ some c
      → cal_cross_degree im located roots zeros ≡ some c.indeg
  unfolding cal_cross_degree
  cross_go zeros c e = rw (e, cal_cross_degree) refl

  -- On a forest with fewer than 2^32 edges into each vertex from its own tree, and from counts of 0, `cal_cross_degree`
  -- ends, and counts for each vertex exactly these edges.
  pub cal_cross_degree_lem :
      (zeros : List ℕ)
      → length zeros ≡ suc im.max_id
      → ((v : ℕ) → v ≤ im.max_id → num zeros v ≡ 0)
      → (indeg : List ℕ) × (cal_cross_degree im located roots zeros ≡ some indeg)
        × (length indeg ≡ suc im.max_id)
        × ((v : ℕ)
            → v ≤ im.max_id
            → num indeg v ≡ edges_into (tree_row im located) v (suc im.max_id) 0)
  unfolding count
  cal_cross_degree_lem zeros size empty =
      let n = suc im.max_id in
      let start : Counting = record { indeg = zeros; seen = replicate n false; que = [] } in
      let (read, done, c, ends, a, all) =
        count_trees_lem roots [] [] start (λ q m. (m, Memᴰ.not-nil)) forest.distinct
          record {
            tally = record {
              size_in = size;
              size_seen = length-replicate n false;
              balance = λ v h. omega (arith, edges_from-nil (tree_row im located) v n 0, empty v h);
              inside = λ w m. absurd (Memᴰ.not-nil m);
              distinct = tt;
              fresh = λ w m. absurd (Memᴰ.not-nil m);
              marked = λ v f. absurd (clash (sym f ∙ get_or-replicate n false v));
              known = λ v m. elim m [
                | inl d ↦ absurd (Memᴰ.not-nil d)
                | inr q ↦ absurd (Memᴰ.not-nil q)
              ];
              closed = λ w v m. absurd (Memᴰ.not-nil m);
              closed_part = λ v m. absurd (Memᴰ.not-nil m);
            };
            empty = refl;
            roots_only = λ r m. absurd (Memᴰ.not-nil m);
            read_done = λ r m. absurd (Memᴰ.not-nil m);
          } in
      (
        c.indeg,
        cross_go zeros c ends,
        a.tally.size_in,
        finished read done c a (λ r m. all r (inl m)),
      )
