-- ===== src/Reach/Build/Number/Row.antt =====
-- Matrix/reach.cpp: the row of a vertex in `decode`.
use mathlib.Core.List.{foldl}
use mgtag.Prelude.{
  ℕ, suc, ◌+◌, ◌-◌, ◌≤◌, ◌≡◌, ◌≢◌, ◌⊎◌, inl, inr, refl, sym, ap, ◌∙◌, true, false, List, [], ◌∷◌,
  ◌++◌, append_assoc, Memᴰ, Memᴰ-cons, Memᴰ-append, set, ◌==◌, Bool-cases, arith,
}
use mgtag.Reach.Graph.{Image, IsWhole, targets}
use mgtag.Reach.Build.Degrees.{num}
use mgtag.Reach.Build.Counts.{count, count-append, count_own, count_other}
use mgtag.Reach.Build.Sums.{elem, edges_from, edges_from-cons}
use mgtag.Reach.Build.Number.{same_tree, Numbering, number_edge}
use mgtag.Reach.Build.Number.Trees.{keep_rule, tree_row, tree_row_iff}
use mgtag.Reach.Build.Number.Opened.{Opened, pushed, passed}

-- what the numbering of the vertices so far says
pub record SameIds (s s' : Numbering) : Type 0 where
  pub same_count : s'.count ≡ s.count
  pub same_new_id : s'.new_id ≡ s.new_id
  pub same_rl : s'.rl ≡ s.rl
  pub same_rlt : s'.rlt ≡ s.rlt

SameIds-trans : (s t r : Numbering) → SameIds s t → SameIds t r → SameIds s r
SameIds-trans s t r a b = record {
  same_count = b.same_count ∙ a.same_count;
  same_new_id = b.same_new_id ∙ a.same_new_id;
  same_rl = b.same_rl ∙ a.same_rl;
  same_rlt = b.same_rlt ∙ a.same_rlt;
}

pub SameIds-stack : (s : Numbering) (xs : List ℕ) → SameIds s (record s { stack = xs })
SameIds-stack s xs = record {
  same_count = refl;
  same_new_id = refl;
  same_rl = refl;
  same_rlt = refl;
}

module _ (im : Image) (located : List ℕ) where
  number_edge-SameIds : (u : ℕ) (s : Numbering) (x : ℕ) → SameIds s (number_edge im located u s x)
  unfolding number_edge
  number_edge-SameIds u s x = record {
    same_count = ground arith;
    same_new_id = ground arith;
    same_rl = ground arith;
    same_rlt = ground arith;
  }

  pub number_row-SameIds :
      (u : ℕ) (s : Numbering) (xs : List ℕ) → SameIds s (foldl (number_edge im located u) s xs)
  number_row-SameIds u s [] = record {
    same_count = refl;
    same_new_id = refl;
    same_rl = refl;
    same_rlt = refl;
  }
  number_row-SameIds u s (x ∷ xs) =
      let t = number_edge im located u s x in
      SameIds-trans s t (foldl (number_edge im located u) t xs) (number_edge-SameIds u s x)
        (number_row-SameIds u t xs)

  number_edge-stack :
      (w u : ℕ) (s : Numbering) (x : ℕ)
      → Memᴰ w s.stack
      → Memᴰ w (number_edge im located u s x).stack
  unfolding number_edge
  number_edge-stack w u s x m = ground (arith, Memᴰ-cons w x s.stack)

  pub number_row-stack :
      (w u : ℕ) (s : Numbering) (xs : List ℕ)
      → Memᴰ w s.stack
      → Memᴰ w (foldl (number_edge im located u) s xs).stack
  number_row-stack w u s [] m = m
  number_row-stack w u s (x ∷ xs) m =
      number_row-stack w u (number_edge im located u s x) xs (number_edge-stack w u s x m)

  -- what the edge to `x` does
  Outcome : ℕ → Numbering → Numbering → Type 0
  Outcome x s s' =
      (s'.indeg ≡ set s.indeg x (num s.indeg x - 1))
      × (((num s.indeg x - 1 ≡ 0) × (s'.stack ≡ x ∷ s.stack))
          ⊎ ((num s.indeg x - 1 ≢ 0) × (s'.stack ≡ s.stack)))

  edge_inside :
      (u x : ℕ) (s : Numbering)
      → same_tree im located u x ≡ true
      → Outcome x s (number_edge im located u s x)
  unfolding Outcome number_edge
  edge_inside u x s e = elim (Bool-cases ((num s.indeg x - 1) == 0)) [
    | inl none_left ↦ rw (e, none_left) (refl, inl (ground arith, refl))
    | inr some_left ↦ rw (e, some_left) (refl, inr (ground arith, refl))
  ]

  edge_outside :
      (u x : ℕ) (s : Numbering)
      → same_tree im located u x ≡ false
      → number_edge im located u s x ≡ s
  unfolding number_edge
  edge_outside u x s e = rw e refl

  module _ (whole : IsWhole im) (roots : List ℕ) (tree : ℕ) where
    -- another account of the same edges
    Opened-same :
        (seen seen' done : List ℕ) (e e' : ℕ → ℕ) (s : Numbering)
        → ((v : ℕ)
            → v ≤ im.max_id
            → edges_from (tree_row im located) v seen (suc im.max_id) 0 + e v
              ≡ edges_from (tree_row im located) v seen' (suc im.max_id) 0 + e' v)
        → Opened im located roots tree seen done e s
        → Opened im located roots tree seen' done e' s
    Opened-same seen seen' done e e' s same o = record {
      size_in = o.size_in;
      balance = λ v h. omega (arith, same v h, o.balance v h);
      inside = o.inside;
      of_tree = o.of_tree;
      distinct = o.distinct;
      fresh = o.fresh;
      counted = o.counted;
      queued = o.queued;
      starts = o.starts;
    }

    module _ (seen : List ℕ) (u : ℕ) (start : u ≤ im.max_id) (unread : elem u seen ≡ false)
        (of_tree : num located u ≡ tree) where
      edge_step :
          (ps xs : List ℕ) (x : ℕ) (s : Numbering)
          → tree_row im located u ≡ ps ++ x ∷ xs
          → Opened im located roots tree seen (u ∷ seen) (λ v. count v ps) s
          → Opened im located roots tree seen
              (u ∷ seen)
              (λ v. count v (ps ++ x ∷ []))
              (number_edge im located u s x)
      unfolding Outcome
      edge_step ps xs x s shape o =
          let m : Memᴰ x (tree_row im located u) =
            rw shape ((Memᴰ-append x ps (x ∷ xs)).1 (inr (Memᴰ.head refl))) in
          let (edge, same) = (tree_row_iff im located u x).0 m in
          let vertex : x ≤ im.max_id = whole.in_range u x start edge in
          let more = λ (v : ℕ). count v (ps ++ x ∷ []) in
          let one_more : more x ≡ suc (count x ps) =
            omega (arith, count-append x ps (x ∷ []), count_own x) in
          let others : (v : ℕ) → x ≢ v → more v ≡ count v ps =
            λ v h. omega (arith, count-append v ps (x ∷ []), count_other v x h) in
          let of_row : (v : ℕ) → more v ≤ count v (tree_row im located u) =
            λ v. omega (arith, count_whole v) in
          let (e1, outcome) = edge_inside u x s (ground arith) in
          elim outcome [
            | inl (none_left, e2) ↦
                pushed im located roots tree seen (λ v. count v ps) more u x s o start unread vertex
                  (same ∙ of_tree) one_more others of_row _ e1 none_left e2
            | inr (some_left, e2) ↦
                passed im located roots tree seen (λ v. count v ps) more u x s o start unread vertex
                  (same ∙ of_tree) one_more others of_row _ e1 some_left e2
          ]
        where
          count_whole :
              (v : ℕ) → count v (tree_row im located u) ≡ count v (ps ++ x ∷ []) + count v xs
          count_whole v =
              ap (count v) (shape ∙ sym (append_assoc ps (x ∷ []) xs))
              ∙ count-append v (ps ++ x ∷ []) xs

      -- A whole row adds its vertex to those seen.
      pub row_lem :
          (s : Numbering)
          → Opened im located roots tree seen (u ∷ seen) (λ v. 0) s
          → Opened im located roots tree
              (u ∷ seen)
              (u ∷ seen)
              (λ v. 0)
              (foldl (number_edge im located u) s (targets im u))
      unfolding tree_row count
      row_lem s o =
          Opened-same seen (u ∷ seen) (u ∷ seen) (λ v. count v (tree_row im located u)) (λ v. 0) _
            (λ v h. omega (
              arith,
              edges_from-cons (tree_row im located) v u seen (suc im.max_id) 0 (omega arith)
                  (omega arith) unread,
            ))
            (keep_rule (same_tree im located u) (number_edge im located u)
              (λ ps s. Opened im located roots tree seen (u ∷ seen) (λ v. count v ps) s)
              (tree_row im located u) (λ s x. edge_outside u x s)
              (λ ps xs x s shape in_tree. edge_step ps xs x s shape) (targets im u) [] s refl o)
