-- ===== src/Reach/Build/Number/Tree.antt =====
-- Matrix/reach.cpp: `decode` numbers a tree.
use mathlib.Core.List.Memᴰ
use mathlib.Core.List.{foldl}
use mgtag.Prelude.{
  ℕ, zero, suc, ◌≤◌, ◌≡◌, ◌⊎◌, inl, inr, refl, ◌∙◌, List, [], ◌∷◌, some, Memᴰ, Memᴰ-cons,
  List-cases, arith,
}
use mgtag.Reach.Graph.{Image, IsWhole, targets}
use mgtag.Reach.Build.Degrees.{num}
use mgtag.Reach.Build.Positions.{NoDup}
use mgtag.Reach.Build.Unseen.{unseen, unseen-cons, elem-false}
use mgtag.Reach.Build.Number.{Numbering, number_edge, assign, number_tree}
use mgtag.Reach.Build.Number.Opened.{Opened}
use mgtag.Reach.Build.Number.Row.{SameIds-stack, row_lem, number_row-SameIds, number_row-stack}
use mgtag.Reach.Build.Number.Numbered.{Numbered, Numbered-kept, assign-Numbered}

module _ (im : Image) (whole : IsWhole im) (located roots read root_layer : List ℕ) (r : ℕ)
    (root : Memᴰ r read) where
  -- the state before a round of the inner loop
  pub record Between (done : List ℕ) (s : Numbering) : Type 0 where
    pub opened : Opened im located roots (suc r) done done (λ v. 0) s
    pub numbered : Numbered im located read root_layer done (num root_layer r) s

  abbrev numbered_top : ℕ → List ℕ → Numbering → Numbering
  numbered_top u rest s = assign im located (num root_layer r) u (record s { stack = rest })

  -- the round that takes `u` from the stack
  abbrev after : ℕ → List ℕ → Numbering → Numbering
  after u rest s = foldl (number_edge im located u) (numbered_top u rest s) (targets im u)

  module _ (done : List ℕ) (u : ℕ) (rest : List ℕ) (s : Numbering) (top : s.stack ≡ u ∷ rest)
      (b : Between done s) where
    on_top : Memᴰ u s.stack
    on_top = rw top (Memᴰ.head refl)

    below : (w : ℕ) → Memᴰ w rest → Memᴰ w s.stack
    below w m = rw top (Memᴰ.tail m)

    apart : NoDup (u ∷ rest)
    apart = rw top at (b.opened.distinct)

    -- what has left the stack or is on it stays so
    moved : (v : ℕ) → Memᴰ v (u ∷ done) ⊎ Memᴰ v rest → Memᴰ v done ⊎ Memᴰ v s.stack
    moved v (inl m) = elim ((Memᴰ-cons v u done).0 m) [ inl e ↦ inr (rw e on_top) | inr d ↦ inl d ]
    moved v (inr m) = inr (below v m)

    moved_back : (v : ℕ) → Memᴰ v done ⊎ Memᴰ v s.stack → Memᴰ v (u ∷ done) ⊎ Memᴰ v rest
    moved_back v (inl d) = inl (Memᴰ.tail d)
    moved_back v (inr m) = elim ((Memᴰ-cons v u rest).0 (rw top at m)) [
      | inl e ↦ inl (Memᴰ.head e)
      | inr below ↦ inr below
    ]

    popped : Opened im located roots (suc r) done (u ∷ done) (λ v. 0) (numbered_top u rest s)
    popped =
        let o = b.opened in
        record {
          size_in = o.size_in;
          balance = o.balance;
          inside = λ w m. o.inside w (below w m);
          of_tree = λ w m. o.of_tree w (below w m);
          distinct = apart.1;
          fresh = λ w m d. elim ((Memᴰ-cons w u done).0 d) [
            | inl e ↦ apart.0 (rw e at m)
            | inr old ↦ o.fresh w (below w m) old
          ];
          counted = λ v m. o.counted v (moved v m);
          queued = λ v h z. elim (o.queued v h z) [ inl q ↦ inl q | inr m ↦ inr (moved_back v m) ];
          starts = λ v w m h t. Memᴰ.tail (o.starts v w (moved v m) h t);
        }

    vertex : u ≤ im.max_id
    vertex = b.opened.inside u on_top

    new : ¬ Memᴰ u done
    new = b.opened.fresh u on_top

    pub round_lem : Between (u ∷ done) (after u rest s)
    round_lem = record {
      opened =
          row_lem im located whole roots (suc r) done u vertex (elem-false u done new)
            (b.opened.of_tree u on_top) (numbered_top u rest s) popped;
      numbered =
          Numbered-kept im located read root_layer (u ∷ done) (num root_layer r)
            (numbered_top u rest s) (after u rest s)
            (number_row-SameIds im located u (numbered_top u rest s) (targets im u))
            (assign-Numbered im located read root_layer done u r (record s { stack = rest })
              numbered' vertex new root (b.opened.of_tree u on_top)
              (λ w h t. b.opened.starts u w (inr on_top) h t));
    }
      where
        numbered' :
            Numbered im located read root_layer done (num root_layer r) (record s { stack = rest })
        numbered' =
            Numbered-kept im located read root_layer done (num root_layer r) s
              (record s { stack = rest }) (SameIds-stack s rest) b.numbered

    kept_by_round :
        (w : ℕ) → Memᴰ w done ⊎ Memᴰ w s.stack → Memᴰ w (u ∷ done) ⊎ Memᴰ w (after u rest s).stack
    kept_by_round w m = elim (moved_back w m) [
      | inl d ↦ inl d
      | inr t ↦ inr (number_row-stack im located w u (numbered_top u rest s) (targets im u) t)
    ]

    pub fewer : suc (unseen (u ∷ done) (suc im.max_id) 0) ≡ unseen done (suc im.max_id) 0
    fewer =
        unseen-cons done u (suc im.max_id) 0 (omega arith) (omega (arith, vertex))
          (elem-false u done new)

  tree_round :
      (fuel u : ℕ) (rest : List ℕ) (s : Numbering)
      → s.stack ≡ u ∷ rest
      → number_tree im located (suc fuel) (num root_layer r) s
        ≡ number_tree im located fuel (num root_layer r) (after u rest s)
  unfolding number_tree
  tree_round fuel u rest s e = rw e refl

  nothing_left :
      (done : List ℕ) (s : Numbering)
      → s.stack ≡ []
      → (w : ℕ) → Memᴰ w done ⊎ Memᴰ w s.stack
      → Memᴰ w done
  nothing_left done s e w (inl d) = d
  nothing_left done s e w (inr m) = absurd (Memᴰ.not-nil (rw e at m))

  -- The inner loop ends: with enough fuel the stack is empty, and all that stood on it is numbered.
  pub number_tree_lem :
      (fuel : ℕ) (done : List ℕ) (s : Numbering)
      → Between done s
      → unseen done (suc im.max_id) 0 ≤ fuel
      → (done' : List ℕ) × (s' : Numbering) × (number_tree im located fuel (num root_layer r) s
          ≡ some s')
        × Between done' s'
        × (s'.stack ≡ [])
        × ((w : ℕ) → Memᴰ w done ⊎ Memᴰ w s.stack → Memᴰ w done')
  unfolding number_tree
  number_tree_lem zero done s b enough = elim (List-cases s.stack) [
    | inl e ↦ (done, s, rw e refl, b, e, nothing_left done s e)
    | inr (u, rest, e) ↦ absurd (omega (arith, fewer done u rest s e b))
  ]
  number_tree_lem (suc fuel) done s b enough = elim (List-cases s.stack) [
    | inl e ↦ (done, s, rw e refl, b, e, nothing_left done s e)
    | inr (u, rest, e) ↦
        let t = after u rest s in
        let (done', s', ends, b', empty, all) =
          number_tree_lem fuel (u ∷ done) t (round_lem done u rest s e b)
            (omega (arith, fewer done u rest s e b)) in
        (
          done',
          s',
          tree_round fuel u rest s e ∙ ends,
          b',
          empty,
          λ w m. all w (kept_by_round done u rest s e b w m),
        )
  ]
