-- ===== src/Reach/Build/Number/Opened.antt =====
-- Matrix/reach.cpp: an edge in `decode` keeps the count of the edges to come, and pushes a vertex with
-- the last edge into it.
use mgtag.Prelude.{
  ℕ, suc, ◌+◌, ◌-◌, ◌≤◌, ◌≡◌, ◌≢◌, ◌⊎◌, inl, inr, sym, ap, ◌∙◌, false, List, ◌∷◌, Memᴰ, Memᴰ-cons,
  length, length-set, get_or-set_self, get_or-set_ne, set, ◌==◌, Bool-cases, arith,
}
use mgtag.Reach.Graph.{Image}
use mgtag.Reach.Build.Degrees.{num}
use mgtag.Reach.Build.Counts.{count, edges_into}
use mgtag.Reach.Build.Sums.{elem, edges_from, edges_from-cons, edges_from_room, edges_from_all}
use mgtag.Reach.Build.Positions.{NoDup}
use mgtag.Reach.Build.Number.{Numbering}
use mgtag.Reach.Build.Number.Trees.{tree_row}

module _ (im : Image) (located roots : List ℕ) where
  -- In the tree `tree`: the rows of `seen` are read, and `extra v` edges into `v` of the row that is being
  -- read; `done` has left the stack.
  pub record Opened (tree : ℕ) (seen done : List ℕ) (extra : ℕ → ℕ) (s : Numbering) : Type 0 where
    pub size_in : length s.indeg ≡ suc im.max_id
    pub balance :
        (v : ℕ)
        → v ≤ im.max_id
        → num s.indeg v + (edges_from (tree_row im located) v seen (suc im.max_id) 0 + extra v)
          ≡ edges_into (tree_row im located) v (suc im.max_id) 0
    pub inside : (w : ℕ) → Memᴰ w s.stack → w ≤ im.max_id
    pub of_tree : (w : ℕ) → Memᴰ w s.stack → num located w ≡ tree
    pub distinct : NoDup s.stack
    pub fresh : (w : ℕ) → Memᴰ w s.stack → ¬ Memᴰ w done
    pub counted : (v : ℕ) → Memᴰ v done ⊎ Memᴰ v s.stack → num s.indeg v ≡ 0
    pub queued :
        (v : ℕ) → v ≤ im.max_id → num s.indeg v ≡ 0 → Memᴰ v roots ⊎ (Memᴰ v done ⊎ Memᴰ v s.stack)
    pub starts :
        (v w : ℕ)
        → Memᴰ v done ⊎ Memᴰ v s.stack
        → w ≤ im.max_id
        → Memᴰ v (tree_row im located w)
        → Memᴰ w done

  module _ (tree : ℕ) (seen : List ℕ) (extra extra' : ℕ → ℕ) (u x : ℕ) (s : Numbering)
      (o : Opened tree seen (u ∷ seen) extra s) (start : u ≤ im.max_id)
      (unread : elem u seen ≡ false) (vertex : x ≤ im.max_id) (here : num located x ≡ tree)
      (one_more : extra' x ≡ suc (extra x)) (others : (v : ℕ) → x ≢ v → extra' v ≡ extra v)
      (of_row : (v : ℕ) → extra' v ≤ count v (tree_row im located u)) where
    left : 1 ≤ num s.indeg x
    left = omega (
      arith,
      edges_from_room (tree_row im located) x u seen (suc im.max_id) (omega arith) unread,
      o.balance x vertex,
      of_row x,
    )

    not_queued : ¬ (Memᴰ x (u ∷ seen) ⊎ Memᴰ x s.stack)
    not_queued m = absurd (omega (arith, left, o.counted x m))

    abbrev down : List ℕ
    down = set s.indeg x (num s.indeg x - 1)

    down_x : num down x ≡ num s.indeg x - 1
    down_x = get_or-set_self s.indeg x (num s.indeg x - 1) 0 (omega (arith, o.size_in))

    down_other : (v : ℕ) → x ≢ v → num down v ≡ num s.indeg v
    down_other v h = get_or-set_ne s.indeg x v (num s.indeg x - 1) 0 h

    down_queued : (v : ℕ) → Memᴰ v (u ∷ seen) ⊎ Memᴰ v s.stack → num down v ≡ 0
    down_queued v m = down_other v (λ e. not_queued (rw e m)) ∙ o.counted v m

    balance' :
        (v : ℕ)
        → v ≤ im.max_id
        → num down v + (edges_from (tree_row im located) v seen (suc im.max_id) 0 + extra' v)
          ≡ edges_into (tree_row im located) v (suc im.max_id) 0
    balance' v h = elim (Bool-cases (x == v)) [
      | inl same ↦
          let e : x ≡ v = ground arith in
          rw (← e) (omega (arith, left, down_x, one_more, o.balance x vertex))
      | inr apart ↦
          let n : x ≢ v = ground arith in omega (arith, down_other v n, others v n, o.balance v h)
    ]

    -- once no edge into `x` is to come, each comes from a row that has been read
    starts_done :
        num down x ≡ 0
        → (w : ℕ) → w ≤ im.max_id
        → Memᴰ x (tree_row im located w)
        → Memᴰ w (u ∷ seen)
    starts_done none_left w h m =
        let added =
          edges_from-cons (tree_row im located) x u seen (suc im.max_id) 0 (omega arith)
            (omega arith) unread in
        edges_from_all (tree_row im located) x w (u ∷ seen) (suc im.max_id) (omega arith)
          (omega (arith, balance' x vertex, of_row x)) m

    pub pushed :
        (s' : Numbering)
        → s'.indeg ≡ down
        → num s.indeg x - 1 ≡ 0
        → s'.stack ≡ x ∷ s.stack
        → Opened tree seen (u ∷ seen) extra' s'
    pushed s' e1 none_left e2 =
        let none : num down x ≡ 0 = down_x ∙ none_left in
        let back : (v : ℕ) → num s'.indeg v ≡ 0 → num down v ≡ 0 =
          λ v z. sym (ap (λ t. num t v) e1) ∙ z in
        record {
          size_in = ap length e1 ∙ length-set s.indeg x _ ∙ o.size_in;
          balance = λ v h. rw e1 (balance' v h);
          inside = λ w m. elim (top s' e2 w m) [ inl e ↦ rw e vertex | inr old ↦ o.inside w old ];
          of_tree = λ w m. elim (top s' e2 w m) [ inl e ↦ rw e here | inr old ↦ o.of_tree w old ];
          distinct = rw e2 ((λ m. not_queued (inr m), o.distinct));
          fresh = λ w m. elim (top s' e2 w m) [
            | inl e ↦ rw e (λ d. not_queued (inl d))
            | inr old ↦ o.fresh w old
          ];
          counted = λ v m. elim (split s' e2 v m) [
            | inl e ↦ rw (e1, e) none
            | inr old ↦ rw e1 (down_queued v old)
          ];
          queued = λ v h z. elim (Bool-cases (x == v)) [
            | inl same ↦ let e : v ≡ x = ground arith in inr (inr (rw (e2) (Memᴰ.head e)))
            | inr apart ↦
                let n : x ≢ v = ground arith in
                elim (o.queued v h (sym (down_other v n) ∙ back v z)) [
                  | inl r ↦ inl r
                  | inr (inl d) ↦ inr (inl d)
                  | inr (inr t) ↦ inr (inr (rw (e2) (Memᴰ.tail t)))
                ]
          ];
          starts = λ v w m h t. elim (split s' e2 v m) [
            | inl e ↦ starts_done none w h (rw e at t)
            | inr old ↦ o.starts v w old h t
          ];
        }
      where
        top :
            (t : Numbering)
            → t.stack ≡ x ∷ s.stack
            → (w : ℕ) → Memᴰ w t.stack
            → (w ≡ x) ⊎ Memᴰ w s.stack
        top t e w m = (Memᴰ-cons w x s.stack).0 (rw e at m)

        split :
            (t : Numbering)
            → t.stack ≡ x ∷ s.stack
            → (v : ℕ) → Memᴰ v (u ∷ seen) ⊎ Memᴰ v t.stack
            → (v ≡ x) ⊎ (Memᴰ v (u ∷ seen) ⊎ Memᴰ v s.stack)
        split t e v (inl d) = inr (inl d)
        split t e v (inr m) = elim (top t e v m) [ inl q ↦ inl q | inr old ↦ inr (inr old) ]

    pub passed :
        (s' : Numbering)
        → s'.indeg ≡ down
        → num s.indeg x - 1 ≢ 0
        → s'.stack ≡ s.stack
        → Opened tree seen (u ∷ seen) extra' s'
    passed s' e1 some_left e2 = record {
      size_in = ap length e1 ∙ length-set s.indeg x _ ∙ o.size_in;
      balance = λ v h. rw e1 (balance' v h);
      inside = λ w m. o.inside w (rw e2 at m);
      of_tree = λ w m. o.of_tree w (rw e2 at m);
      distinct = rw e2 (o.distinct);
      fresh = λ w m. o.fresh w (rw e2 at m);
      counted = λ v m. rw e1 (down_queued v (rw e2 at m));
      queued = λ v h z. rw e2 (elim (Bool-cases (x == v)) [
        | inl same ↦
            let e : x ≡ v = ground arith in
            absurd (some_left (sym down_x ∙ ap (num down) e ∙ sym (ap (λ t. num t v) e1) ∙ z))
        | inr apart ↦
            let n : x ≢ v = ground arith in
            o.queued v h (sym (down_other v n) ∙ sym (ap (λ t. num t v) e1) ∙ z)
      ]);
      starts = λ v w m. o.starts v w (rw e2 at m);
    }
