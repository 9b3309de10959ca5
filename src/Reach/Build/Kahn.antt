-- ===== src/Reach/Build/Kahn.antt =====
-- Matrix/reach.cpp: an edge in `pre_process` keeps the count of the edges to come, and sets `Ldown` of a
-- vertex once all edges into it are seen.
use mgtag.Prelude.{
  ℕ, suc, ◌+◌, ◌-◌, ◌^◌, ◌≤◌, ◌<◌, ◌≡◌, ◌≢◌, ◌↔◌, inl, inr, refl, sym, subst, ap, ◌∙◌, false, List,
  [], ◌∷◌, ◌++◌, Memᴰ, Memᴰ-cons, Memᴰ-concat, length, length-set, get_or-set_self, get_or-set_ne,
  set, ◌==◌, Bool-cases, arith,
}
use mgtag.Reach.Graph.{Image, targets}
use mgtag.Reach.Build.Degrees.{num, dec32}
use mgtag.Reach.Build.Layers.{Layering}
use mgtag.Reach.Build.Counts.{count, edges_into}
use mgtag.Reach.Build.Sums.{elem, edges_from, edges_from-cons, edges_from_room, edges_from_all}
use mgtag.Reach.Build.Edge.{counted}
use mgtag.Reach.Build.Positions.{Before, Before-concat}

module _ (im : Image) (layer : ℕ) where
  -- After the rows of `seen`, and `extra v` edges into `v` of the row that is being read.
  pub record Kahn (seen : List ℕ) (extra : ℕ → ℕ) (l : Layering) : Type 0 where
    pub size_in : length l.indeg ≡ suc im.max_id
    pub size_down : length l.ldown ≡ suc im.max_id
    pub balance :
        (v : ℕ)
        → v ≤ im.max_id
        → num l.indeg v + (edges_from (targets im) v seen (suc im.max_id) 0 + extra v)
          ≡ edges_into (targets im) v (suc im.max_id) 0
    pub inside : (w : ℕ) → Memᴰ w l.order → w ≤ im.max_id
    pub ready : (v : ℕ) → v ≤ im.max_id → (num l.indeg v ≡ 0) ↔ Memᴰ v l.order
    pub level :
        (v w : ℕ)
        → Memᴰ v l.order
        → w ≤ im.max_id
        → Memᴰ v (targets im w)
        → Memᴰ w l.order × (num l.ldown w < num l.ldown v)
    pub before : Before im [] l.order
    pub below : (w : ℕ) → Memᴰ w l.order → num l.ldown w ≤ layer

  -- what the row of `u` may still do
  pub record Row (seen : List ℕ) (u : ℕ) (l : Layering) : Type 0 where
    pub vertex : u ≤ im.max_id
    pub fresh : elem u seen ≡ false
    pub queued : Memᴰ u l.order
    pub lower : num l.ldown u < layer
    pub seen_queued : (w : ℕ) → Memᴰ w seen → Memᴰ w l.order × (num l.ldown w < layer)

  module _ (small : (v : ℕ) → v ≤ im.max_id → edges_into (targets im) v (suc im.max_id) 0 < 2 ^ 32)
      (seen : List ℕ) (extra extra' : ℕ → ℕ) (u x : ℕ) (l : Layering) (kahn : Kahn seen extra l)
      (row : Row seen u l) (vertex : x ≤ im.max_id) (one_more : extra' x ≡ suc (extra x))
      (others : (v : ℕ) → x ≢ v → extra' v ≡ extra v)
      (of_row : (v : ℕ) → extra' v ≤ count v (targets im u)) where
    left : 1 ≤ num l.indeg x
    left = omega (
      arith,
      edges_from_room (targets im) x u seen (suc im.max_id) (omega (arith, row.vertex)) row.fresh,
      kahn.balance x vertex,
      of_row x,
    )

    counted_x : num (counted l x) x ≡ num l.indeg x - 1
    counted_x =
        let cell =
          get_or-set_self l.indeg x (dec32 (num l.indeg x)) 0 (omega (arith, kahn.size_in)) in
        omega (arith, left, kahn.balance x vertex, small x vertex)

    counted_other : (v : ℕ) → x ≢ v → num (counted l x) v ≡ num l.indeg v
    counted_other v h = get_or-set_ne l.indeg x v (dec32 (num l.indeg x)) 0 h

    pub not_queued : ¬ Memᴰ x l.order
    not_queued m = absurd (omega (arith, left, (kahn.ready x vertex).1 m))

    balance' :
        (v : ℕ)
        → v ≤ im.max_id
        → num (counted l x) v + (edges_from (targets im) v seen (suc im.max_id) 0 + extra' v)
          ≡ edges_into (targets im) v (suc im.max_id) 0
    balance' v h = elim (Bool-cases (x == v)) [
      | inl same ↦
          let e : x ≡ v = ground arith in
          rw (← e) (omega (arith, left, counted_x, one_more, kahn.balance x vertex))
      | inr apart ↦
          let n : x ≢ v = ground arith in
          omega (arith, counted_other v n, others v n, kahn.balance v h)
    ]

    -- once no edge into `x` is to come, each comes from a row that has been read
    starts_seen :
        num (counted l x) x ≡ 0
        → (w : ℕ) → w ≤ im.max_id
        → Memᴰ x (targets im w)
        → Memᴰ w l.order × (num l.ldown w < layer)
    starts_seen none_left w h m =
        let added =
          edges_from-cons (targets im) x u seen (suc im.max_id) 0 (omega arith)
            (omega (arith, row.vertex)) row.fresh in
        let all =
          edges_from_all (targets im) x w (u ∷ seen) (suc im.max_id) (omega arith)
            (omega (arith, balance' x vertex, of_row x)) m in
        elim ((Memᴰ-cons w u seen).0 all) [
          | inl e ↦ rw e (row.queued, row.lower)
          | inr s ↦ row.seen_queued w s
        ]

    pub other_down : (w : ℕ) → Memᴰ w l.order → num (set l.ldown x layer) w ≡ num l.ldown w
    other_down w m =
        get_or-set_ne l.ldown x w layer 0 (λ e. not_queued (subst (λ t. Memᴰ t l.order) (sym e) m))

    own_down : num (set l.ldown x layer) x ≡ layer
    own_down = get_or-set_self l.ldown x layer 0 (omega (arith, kahn.size_down))

    pub pushed :
        (l' : Layering)
        → l'.indeg ≡ counted l x
        → num (counted l x) x ≡ 0
        → l'.order ≡ l.order ++ x ∷ []
        → l'.ldown ≡ set l.ldown x layer
        → Kahn seen extra' l'
    pushed l' e1 none_left e2 e3 = record {
      size_in = ap length e1 ∙ length-set l.indeg x _ ∙ kahn.size_in;
      size_down = ap length e3 ∙ length-set l.ldown x layer ∙ kahn.size_down;
      balance = λ v h. rw e1 (balance' v h);
      inside = λ w m. elim ((Memᴰ-concat w x l.order).0 (rw e2 at m)) [
        | inl old ↦ kahn.inside w old
        | inr e ↦ omega arith
      ];
      ready = λ v h.
          rw (e1, e2)
            (elim (Bool-cases (x == v)) [
              | inl same ↦
                  let e : x ≡ v = ground arith in
                  rw (← e) (λ z. (Memᴰ-concat x x l.order).1 (inr refl), λ m. none_left)
              | inr apart ↦
                  let n : x ≢ v = ground arith in
                  rw (counted_other v n) (
                    λ z. (Memᴰ-concat v x l.order).1 (inl ((kahn.ready v h).0 z)),
                    λ m. elim ((Memᴰ-concat v x l.order).0 m) [
                      | inl old ↦ (kahn.ready v h).1 old
                      | inr e ↦ absurd (n (sym e))
                    ],
                  )
            ]);
      level = λ v w m h t.
          rw (e2, e3)
            (elim ((Memᴰ-concat v x l.order).0 (rw e2 at m)) [
              | inl old ↦
                  let (q, less) = kahn.level v w old h t in
                  (
                    (Memᴰ-concat w x l.order).1 (inl q),
                    omega (arith, other_down w q, other_down v old),
                  )
              | inr e ↦
                  let (q, less) = starts_seen none_left w h (rw e at t) in
                  (
                    (Memᴰ-concat w x l.order).1 (inl q),
                    rw e (omega (arith, other_down w q, own_down)),
                  )
            ]);
      before = rw e2 (
          Before-concat im [] l.order x kahn.before (λ w h t. (starts_seen none_left w h t).0)
            not_queued);
      below = λ w m. rw e3 (elim ((Memᴰ-concat w x l.order).0 (rw e2 at m)) [
        | inl old ↦ omega (arith, other_down w old, kahn.below w old)
        | inr e ↦ rw e (omega (arith, own_down))
      ]);
    }

    pub passed :
        (l' : Layering)
        → l'.indeg ≡ counted l x
        → num (counted l x) x ≢ 0
        → l'.order ≡ l.order
        → l'.ldown ≡ l.ldown
        → Kahn seen extra' l'
    passed l' e1 some_left e2 e3 = record {
      size_in = ap length e1 ∙ length-set l.indeg x _ ∙ kahn.size_in;
      size_down = ap length e3 ∙ kahn.size_down;
      balance = λ v h. rw e1 (balance' v h);
      inside = λ w m. kahn.inside w (rw e2 at m);
      ready = λ v h.
          rw (e1, e2)
            (elim (Bool-cases (x == v)) [
              | inl same ↦
                  let e : x ≡ v = ground arith in
                  rw (← e) (λ z. absurd (some_left z), λ m. absurd (not_queued m))
              | inr apart ↦ let n : x ≢ v = ground arith in rw (counted_other v n) (kahn.ready v h)
            ]);
      level = λ v w m h t. rw (e2, e3) (kahn.level v w (rw e2 at m) h t);
      before = rw e2 (kahn.before);
      below = λ w m. rw e3 (kahn.below w (rw e2 at m));
    }
