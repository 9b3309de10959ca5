-- ===== src/Reach/Build/Number/Tallies.antt =====
-- Matrix/reach.cpp: `cal_cross_degree` counts the edges inside the trees.
use mathlib.Core.List.Memᴰ
use mathlib.Core.List.{foldl}
use mgtag.Prelude.{
  ℕ, zero, suc, ◌^◌, ◌≤◌, ◌<◌, ◌≡◌, ◌⊎◌, ◌↔◌, inl, inr, refl, ◌∙◌, List, [], ◌∷◌, some, Memᴰ,
  Memᴰ-cons, List-cases, arith,
}
use mgtag.Reach.Graph.{Image, IsWhole, targets}
use mgtag.Reach.Build.Counts.{count, edges_into}
use mgtag.Reach.Build.Positions.{NoDup}
use mgtag.Reach.Build.Sums.{edges_from-cons}
use mgtag.Reach.Build.Unseen.{unseen, unseen-cons, elem-false}
use mgtag.Reach.Build.Number.{Counting, same_tree, count_edge, count_tree}
use mgtag.Reach.Build.Number.Trees.{keep_rule, tree_row, IsForest}
use mgtag.Reach.Build.Number.Tally.{Tally, edge_outside, edge_step, count_row-que}

module _ (im : Image) (whole : IsWhole im) (located roots : List ℕ)
    (forest : IsForest im located roots)
    (small : (v : ℕ)
      → v ≤ im.max_id
      → edges_into (tree_row im located) v (suc im.max_id) 0 < 2 ^ 32) where
  -- between two rounds
  abbrev pub Between : List ℕ → List ℕ → Counting → Type 0
  Between read done c = Tally im located roots read done done [] c

  -- the round that takes `u` from the queue
  abbrev after : ℕ → List ℕ → Counting → Counting
  after u rest c = foldl (count_edge im located u) (record c { que = rest }) (targets im u)

  module _ (read done : List ℕ) (read_roots : (r : ℕ) → Memᴰ r read → Memᴰ r roots) (u : ℕ)
      (rest : List ℕ) (c : Counting) (first : c.que ≡ u ∷ rest) (b : Between read done c) where
    on_front : Memᴰ u c.que
    on_front = rw first (Memᴰ.head refl)

    behind : (w : ℕ) → Memᴰ w rest → Memᴰ w c.que
    behind w m = rw first (Memᴰ.tail m)

    moved : (v : ℕ) → (Memᴰ v done ⊎ Memᴰ v c.que) ↔ (Memᴰ v (u ∷ done) ⊎ Memᴰ v rest)
    moved v = rw first (ground (arith, Memᴰ-cons v u done, Memᴰ-cons v u rest))

    vertex : u ≤ im.max_id
    vertex = b.inside u on_front

    new : ¬ Memᴰ u done
    new = b.fresh u on_front

    popped : Tally im located roots read done (u ∷ done) [] (record c { que = rest })
    popped =
        let apart : NoDup (u ∷ rest) = rw first at (b.distinct) in
        record {
          size_in = b.size_in;
          size_seen = b.size_seen;
          balance = b.balance;
          inside = λ w m. b.inside w (behind w m);
          distinct = apart.1;
          fresh = λ w m d. elim ((Memᴰ-cons w u done).0 d) [
            | inl e ↦ apart.0 (rw e at m)
            | inr old ↦ b.fresh w (behind w m) old
          ];
          marked = λ v f. let (m, k) = b.marked v f in ((moved v).0 m, k);
          known = λ v m. b.known v ((moved v).1 m);
          closed = λ w v m e. (moved v).0 (b.closed w v m e);
          closed_part = λ v m. absurd (Memᴰ.not-nil m);
        }

    round_lem : Between read (u ∷ done) (after u rest c)
    unfolding tree_row count
    round_lem =
        let unread = elem-false u done new in
        let t =
          keep_rule (same_tree im located u) (count_edge im located u)
            (λ ps c. Tally im located roots read done (u ∷ done) ps c) (tree_row im located u)
            (λ c x. edge_outside im located u x c)
            (λ ps xs x c shape in_tree t.
              edge_step im located roots whole forest small read read_roots done u vertex unread ps
                xs x c shape t in_tree)
            (targets im u) [] (record c { que = rest }) refl popped in
        record {
          size_in = t.size_in;
          size_seen = t.size_seen;
          balance = λ v h. omega (
            arith,
            t.balance v h,
            edges_from-cons (tree_row im located) v u done (suc im.max_id) 0 (omega arith)
                (omega (arith, vertex)) unread,
          );
          inside = t.inside;
          distinct = t.distinct;
          fresh = t.fresh;
          marked = t.marked;
          known = t.known;
          closed = λ w v m e. elim ((Memᴰ-cons w u done).0 m) [
            | inl same ↦ t.closed_part v (rw same at e)
            | inr old ↦ t.closed w v old e
          ];
          closed_part = λ v m. absurd (Memᴰ.not-nil m);
        }

    fewer : suc (unseen (u ∷ done) (suc im.max_id) 0) ≡ unseen done (suc im.max_id) 0
    fewer =
        unseen-cons done u (suc im.max_id) 0 (omega arith) (omega (arith, vertex))
          (elem-false u done new)

    -- what was done or queued is counted in this round or still to come
    kept_by_round :
        (w : ℕ) → Memᴰ w done ⊎ Memᴰ w c.que → Memᴰ w (u ∷ done) ⊎ Memᴰ w (after u rest c).que
    kept_by_round w m = elim ((moved w).0 m) [
      | inl d ↦ inl d
      | inr q ↦ inr (count_row-que im located w u (record c { que = rest }) (targets im u) q)
    ]

  nothing_left :
      (done : List ℕ) (c : Counting)
      → c.que ≡ []
      → (w : ℕ) → Memᴰ w done ⊎ Memᴰ w c.que
      → Memᴰ w done
  nothing_left done c e w (inl d) = d
  nothing_left done c e w (inr m) = absurd (Memᴰ.not-nil (rw e at m))

  tree_round :
      (fuel u : ℕ) (rest : List ℕ) (c : Counting)
      → c.que ≡ u ∷ rest
      → count_tree im located (suc fuel) c ≡ count_tree im located fuel (after u rest c)
  unfolding count_tree
  tree_round fuel u rest c e = rw e refl

  pub count_tree_lem :
      (fuel : ℕ) (read done : List ℕ) (c : Counting)
      → ((r : ℕ) → Memᴰ r read → Memᴰ r roots)
      → Between read done c
      → unseen done (suc im.max_id) 0 ≤ fuel
      → (done' : List ℕ) × (c' : Counting) × (count_tree im located fuel c ≡ some c')
        × Between read done' c'
        × (c'.que ≡ [])
        × ((r : ℕ) → Memᴰ r done ⊎ Memᴰ r c.que → Memᴰ r done')
  unfolding count_tree
  count_tree_lem zero read done c read_roots b enough = elim (List-cases c.que) [
    | inl e ↦ (done, c, rw e refl, b, e, nothing_left done c e)
    | inr (u, rest, e) ↦ absurd (omega (arith, fewer read done read_roots u rest c e b))
  ]
  count_tree_lem (suc fuel) read done c read_roots b enough = elim (List-cases c.que) [
    | inl e ↦ (done, c, rw e refl, b, e, nothing_left done c e)
    | inr (u, rest, e) ↦
        let (done', c', ends, b', empty, all) =
          count_tree_lem fuel read (u ∷ done) (after u rest c) read_roots
            (round_lem read done read_roots u rest c e b)
            (omega (arith, fewer read done read_roots u rest c e b)) in
        (
          done',
          c',
          tree_round fuel u rest c e ∙ ends,
          b',
          empty,
          λ w m. all w (kept_by_round read done read_roots u rest c e b w m),
        )
  ]
