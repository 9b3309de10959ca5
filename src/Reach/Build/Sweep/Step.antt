-- ===== src/Reach/Build/Sweep/Step.antt =====
-- Matrix/reach.cpp: an edge keeps what holds in a pass.
use mathlib.Core.List.Memᴰ
use mgtag.Prelude.{
  ℕ, suc, ◌+◌, ◌-◌, ◌^◌, ◌≤◌, ◌<◌, ◌≡◌, ◌≢◌, ◌⊎◌, inl, inr, refl, sym, ap, ◌∙◌, false, List, [],
  ◌∷◌, ◌++◌, append_assoc, Memᴰ, Memᴰ-append, Memᴰ-concat, length, length-set, get_or-set_self,
  get_or-set_ne, ◌==◌, Bool-cases, arith, if◌then◌else◌,
}
use mgtag.Reach.Build.Degrees.{num, flag, dec32}
use mgtag.Reach.Build.Counts.{count, count-append, count_own, count_other, edges_into}
use mgtag.Reach.Build.Edge.{counted}
use mgtag.Reach.Build.Layers.{Layering}
use mgtag.Reach.Build.Positions.{NoDup, NoDup-append}
use mgtag.Reach.Build.Sums.{elem, elem_iff, edges_from, edges_from_room}
use mgtag.Reach.Build.Unseen.{clash, elem-false}
use mgtag.Reach.Build.Sweep.Balance.{Balanced, to_come, down_balance, starts_read}
use mgtag.Reach.Build.Sweep.Touch.{Joined}
use mgtag.Reach.Build.Sweep.Visit.{Visit}
use mgtag.Reach.Build.Sweep.Marks.{Joined-kept, Joined-new, Known-kept, cross_in, cross_distinct}
use mgtag.Reach.Build.Sweep.Pass.{Pass}

module _ (n : ℕ) (row : ℕ → List ℕ) (ws roots old : List ℕ) where
  -- The row of `u` is read up to `ps`.
  pub record InRow (seen bad : List ℕ) (u : ℕ) (ps : List ℕ) (l : Layering) : Type 0 where
    pub pass :
        Pass n row ws roots old seen
          (u ∷ seen)
          bad
          (λ v. count v ps)
          (λ v. if flag l.crossed u then count v ps else 0)
          l
    pub own_edges : (v : ℕ) → Memᴰ v ps → Joined l u v

  module _ (below : (w : ℕ) → Memᴰ w ws → w < n) (lands : (w v : ℕ) → Memᴰ v (row w) → Memᴰ v ws)
      (small : (v : ℕ) → v < n → edges_into row v n 0 < 2 ^ 32) (seen bad : List ℕ) (u : ℕ)
      (unread : elem u seen ≡ false) (ps xs : List ℕ) (x : ℕ) (shape : row u ≡ ps ++ x ∷ xs)
      (l l' : Layering) (r : InRow seen bad u ps l) (visit : Visit u x l l') where
    on_row : Memᴰ x (row u)
    on_row = rw shape ((Memᴰ-append x ps (x ∷ xs)).1 (inr (Memᴰ.head refl)))

    target : Memᴰ x ws
    target = lands u x on_row

    queued : Memᴰ u l.order
    queued = r.pass.done_queued u (Memᴰ.head refl)

    start : u < n
    start = below u (r.pass.inside u queued)

    vertex : x < n
    vertex = below x target

    more : ℕ → ℕ
    more v = count v (ps ++ x ∷ [])

    one_more : more x ≡ suc (count x ps)
    unfolding more
    one_more = omega (arith, count-append x ps (x ∷ []), count_own x)

    no_more : (v : ℕ) → x ≢ v → more v ≡ count v ps
    unfolding more
    no_more v h = omega (arith, count-append v ps (x ∷ []), count_other v x h)

    of_row : (v : ℕ) → more v ≤ count v (row u)
    unfolding more
    of_row v = omega (
      arith,
      ap (count v) (shape ∙ sym (append_assoc ps (x ∷ []) xs)),
      count-append v (ps ++ x ∷ []) xs,
    )

    left : 1 ≤ num l.indeg x
    left =
        to_come row n seen (λ v. count v ps) more u x l.indeg r.pass.balance start unread vertex
          one_more no_more of_row

    not_queued : ¬ Memᴰ x l.order
    not_queued m = absurd (omega (arith, left, (r.pass.ready x target).1 m))

    apart : (w : ℕ) → Memᴰ w l.order → x ≢ w
    apart w m e = not_queued (rw e m)

    counted_x : num (counted l x) x ≡ num l.indeg x - 1
    counted_x =
        let cell =
          get_or-set_self l.indeg x (dec32 (num l.indeg x)) 0
            (omega (arith, r.pass.size_in, vertex)) in
        omega (arith, left, r.pass.balance x vertex, small x vertex)

    counted_other : (v : ℕ) → x ≢ v → num (counted l x) v ≡ num l.indeg v
    counted_other v h = get_or-set_ne l.indeg x v (dec32 (num l.indeg x)) 0 h

    balance' : Balanced row n seen more (counted l x)
    balance' =
        down_balance row n seen (λ v. count v ps) more u x l.indeg r.pass.balance start unread
          vertex one_more no_more of_row (counted l x) counted_x counted_other

    starts' : num (counted l x) x ≡ 0 → (w : ℕ) → w < n → Memᴰ x (row w) → Memᴰ w (u ∷ seen)
    starts' =
        starts_read row n seen (λ v. count v ps) more u x l.indeg r.pass.balance start unread vertex
          one_more no_more of_row (counted l x) counted_x counted_other

    -- the order, whether `x` is pushed or not
    grown : (v : ℕ) → Memᴰ v l'.order → Memᴰ v l.order ⊎ ((v ≡ x) × (num (counted l x) x ≡ 0))
    grown v m = elim visit.outcome [
      | inl (z, o) ↦ elim ((Memᴰ-concat v x l.order).0 (rw o at m)) [
        | inl old ↦ inl old
        | inr e ↦ inr (e, z)
      ]
      | inr (z, o) ↦ inl (rw o at m)
    ]

    still : (v : ℕ) → Memᴰ v l.order → Memᴰ v l'.order
    still v m = elim visit.outcome [
      | inl (z, o) ↦ rw o ((Memᴰ-concat v x l.order).1 (inl m))
      | inr (z, o) ↦ rw o m
    ]

    pushed : num (counted l x) x ≡ 0 → Memᴰ x l'.order
    pushed e = elim visit.outcome [
      | inl (z, o) ↦ rw o ((Memᴰ-concat x x l.order).1 (inr refl))
      | inr (z, o) ↦ absurd (z e)
    ]

    distinct' : NoDup l'.order
    distinct' = elim visit.outcome [
      | inl (z, o) ↦ rw o (
          NoDup-append l.order (x ∷ []) r.pass.distinct ((λ m. Memᴰ.not-nil m), tt)
            (λ w m k. not_queued (rw (Memᴰ.eq_of_singleton k) at m)))
      | inr (z, o) ↦ rw o (r.pass.distinct)
    ]

    -- marks of queued vertices are final
    crossed_queued : (w : ℕ) → Memᴰ w l.order → flag l'.crossed w ≡ flag l.crossed w
    crossed_queued w m = visit.touch.crossed_other w (apart w m)

    located_queued : (w : ℕ) → Memᴰ w l.order → num l'.located w ≡ num l.located w
    located_queued w m = visit.touch.located_other w (apart w m)

    seen_queued : (w : ℕ) → Memᴰ w seen → Memᴰ w l.order
    seen_queued w m = r.pass.done_queued w (Memᴰ.tail m)

    Joined-kept' : (w v : ℕ) → Memᴰ w l.order → Joined l w v → Joined l' w v
    Joined-kept' w v q = Joined-kept u x l l' visit.touch w v (apart w q) (r.pass.named w q)

    fits : num l.next x + 1 < 2 ^ 32
    fits =
        let new : elem u bad ≡ false =
          elem-false u bad
            (λ m. clash (sym ((elem_iff u seen).1 ((r.pass.bad_iff u).0 m).0) ∙ unread)) in
        let at_most : (if flag l.crossed u then count x ps else 0) ≤ count x ps = ground arith in
        omega (
          arith,
          r.pass.next_count x vertex,
          edges_from_room row x u bad n start new,
          one_more,
          of_row x,
          small x vertex,
        )

    next_count' :
        (v : ℕ)
        → v < n
        → num l'.next v ≡ edges_from row v bad n 0 + (if flag l'.crossed u then more v else 0)
    next_count' v h = rw (crossed_queued u queued) (elim (Bool-cases (x == v)) [
      | inl same ↦ let e : v ≡ x = ground arith in rw e at_x
      | inr differ ↦
          let k : x ≢ v = ground arith in
          rw (no_more v k) (visit.touch.next_other v k ∙ r.pass.next_count v h)
    ])
      where
        at_x : num l'.next x ≡ edges_from row x bad n 0 + (if flag l.crossed u then more x else 0)
        at_x = ground (arith, visit.touch.next_own, r.pass.next_count x vertex, one_more, fits)

    pub edge_step : InRow seen bad u (ps ++ x ∷ []) l'
    unfolding more
    edge_step = record {
      pass = record {
        size_in = ap length visit.indeg ∙ length-set l.indeg x _ ∙ r.pass.size_in;
        size_located = visit.touch.size_located ∙ r.pass.size_located;
        size_crossed = visit.touch.size_crossed ∙ r.pass.size_crossed;
        size_next = visit.touch.size_next ∙ r.pass.size_next;
        balance = rw (visit.indeg) balance';
        inside =
            λ w m. elim (grown w m) [ inl old ↦ r.pass.inside w old | inr (e, z) ↦ rw e target ];
        ready = λ v m. rw (visit.indeg) (elim (Bool-cases (x == v)) [
          | inl same ↦
              let e : v ≡ x = ground arith in
              rw e (
                pushed,
                λ q. elim (grown x q) [ inl old ↦ absurd (not_queued old) | inr (k, z) ↦ z ],
              )
          | inr differ ↦
              let k : x ≢ v = ground arith in
              let old = r.pass.ready v m in
              (
                λ z. still v (old.0 (sym (counted_other v k) ∙ z)),
                λ q. elim (grown v q) [
                  | inl o ↦ counted_other v k ∙ old.1 o
                  | inr (e, z) ↦ absurd (k (sym e))
                ],
              )
        ]);
        distinct = distinct';
        starts = λ v w m h t. elim (grown v m) [
          | inl old ↦ r.pass.starts v w old h t
          | inr (e, z) ↦ starts' z w h (rw e at t)
        ];
        done_queued = λ w m. still w (r.pass.done_queued w m);
        roots_kept = λ q m.
            let (o, c, k) = r.pass.roots_kept q m in
            (still q o, crossed_queued q o ∙ c, located_queued q o ∙ k);
        crossed_zero = λ v h. elim (Bool-cases (x == v)) [
          | inl same ↦
              let e : v ≡ x = ground arith in
              rw e (visit.touch.no_tree (r.pass.crossed_zero x) (rw e at h))
          | inr differ ↦
              let k : x ≢ v = ground arith in
              visit.touch.located_other v k
              ∙ r.pass.crossed_zero v (sym (visit.touch.crossed_other v k) ∙ h)
        ];
        tree = λ v m h. elim (Bool-cases (x == v)) [
          | inl same ↦
              let e : v ≡ x = ground arith in
              let (c, k) = visit.touch.in_tree (rw e at h) in
              rw (e, k) (r.pass.tree u (r.pass.inside u queued) c)
          | inr differ ↦
              let k : x ≢ v = ground arith in
              rw (visit.touch.located_other v k)
                (r.pass.tree v m (sym (visit.touch.crossed_other v k) ∙ h))
        ];
        named = λ w m h. elim (grown w m) [
          | inl old ↦ λ z.
              r.pass.named w old (sym (crossed_queued w old) ∙ h) (sym (located_queued w old) ∙ z)
          | inr (e, q) ↦
              let (c, k) = visit.touch.in_tree (rw e at h) in
              λ z. r.pass.named u queued c (sym k ∙ rw e at z)
        ];
        next_count = next_count';
        bad_iff = λ w. (
          λ m. let (s, c) = (r.pass.bad_iff w).0 m in (s, crossed_queued w (seen_queued w s) ∙ c),
          λ (s, c). (r.pass.bad_iff w).1 (s, sym (crossed_queued w (seen_queued w s)) ∙ c),
        );
        joined = λ w v m t. Joined-kept' w v (seen_queued w m) (r.pass.joined w v m t);
        cross_in = cross_in u x l l' visit.touch ws target r.pass.cross_in;
        cross_distinct =
            cross_distinct u x l l' visit.touch ws target r.pass.cross_in r.pass.cross_distinct;
        cross_known = Known-kept u x l l' visit.touch fits r.pass.cross_known;
        outside = λ v k.
            let other : x ≢ v = λ e. k (rw (← e) target) in
            let (a, b) = r.pass.outside v k in
            (visit.touch.located_other v other ∙ a, visit.touch.crossed_other v other ∙ b);
      };
      own_edges = λ v m. elim ((Memᴰ-concat v x ps).0 m) [
        | inl p ↦ Joined-kept' u v queued (r.own_edges v p)
        | inr e ↦ rw e (Joined-new u x l l' visit.touch (apart u queued))
      ];
    }
