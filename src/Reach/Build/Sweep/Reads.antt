-- ===== src/Reach/Build/Sweep/Reads.antt =====
-- Matrix/reach.cpp: the rows that a round of a pass reads.
use mathlib.Core.List.Memᴰ
use mathlib.Core.List.{foldl}
use mgtag.Prelude.{
  ℕ, suc, ◌^◌, ◌<◌, ◌≡◌, ◌⊎◌, ◌↔◌, inl, inr, refl, sym, subst, ap, ◌∙◌, false, List, [], ◌∷◌, ◌++◌,
  Option, append_assoc, append-nil, Memᴰ, Memᴰ-cons, Memᴰ-append, Bool-cases, arith, if◌then◌else◌,
}
use mgtag.Reach.Graph.{Image, targets}
use mgtag.Reach.Build.Degrees.{flag}
use mgtag.Reach.Build.Counts.{count, edges_into}
use mgtag.Reach.Build.Layers.{Layering, visit_edge, visit_row}
use mgtag.Reach.Build.Positions.{NoDup}
use mgtag.Reach.Build.Sums.{elem, elem_iff, edges_from-cons}
use mgtag.Reach.Build.Unseen.{clash, elem-false}
use mgtag.Reach.Build.Sweep.Pass.{Pass}
use mgtag.Reach.Build.Sweep.Step.{InRow, edge_step}
use mgtag.Reach.Build.Sweep.Visit.{Visit, visit_edge-Visit}

-- what reading rows adds to the order
abbrev pub Extends : Layering → Layering → Type 0
Extends l l' = (new : List ℕ) × (l'.order ≡ l.order ++ new)

Extends-refl : (l : Layering) → Extends l l
Extends-refl l = ([], sym (append-nil l.order))

Extends-trans : (l m r : Layering) → Extends l m → Extends m r → Extends l r
Extends-trans l m r (a, p) (b, q) = (a ++ b, q ∙ ap (λ t. t ++ b) p ∙ append_assoc l.order a b)

pub Extends-old : (l m : Layering) → Extends l m → (w : ℕ) → Memᴰ w l.order → Memᴰ w m.order
Extends-old l m (new, e) w h = rw e ((Memᴰ-append w l.order new).1 (inl h))

Visit-Extends : (u x : ℕ) (l l' : Layering) → Visit u x l l' → Extends l l'
Visit-Extends u x l l' v = elim v.outcome [
  | inl (z, o) ↦ (x ∷ [], o)
  | inr (z, o) ↦ ([], o ∙ sym (append-nil l.order))
]

-- the edges that a pass over `ws` meets
pub record Inner (im : Image) (row : ℕ → List ℕ) (ws : List ℕ) : Type 0 where
  pub below : (w : ℕ) → Memᴰ w ws → w < suc im.max_id
  pub lands : (w v : ℕ) → Memᴰ v (row w) → Memᴰ v ws
  pub small : (v : ℕ) → v < suc im.max_id → edges_into row v (suc im.max_id) 0 < 2 ^ 32
  pub rows : (w : ℕ) → Memᴰ w ws → targets im w ≡ row w

module _ (im : Image) (row : ℕ → List ℕ) (ws roots old : List ℕ) (inner : Inner im row ws) where
  -- between two rows
  abbrev pub Rest : List ℕ → List ℕ → Layering → Type 0
  Rest seen bad l = Pass (suc im.max_id) row ws roots old seen seen bad (λ v. 0) (λ v. 0) l

  module _ (layer : Option ℕ) (seen bad : List ℕ) (u : ℕ) (unread : elem u seen ≡ false) where
    row_rest :
        (xs ps : List ℕ) (l : Layering)
        → row u ≡ ps ++ xs
        → InRow (suc im.max_id) row ws roots old seen bad u ps l
        → InRow
            (suc im.max_id)
            row
            ws
            roots
            old
            seen
            bad
            u
            (row u)
            (foldl (visit_edge layer u) l xs)
          × Extends l (foldl (visit_edge layer u) l xs)
    row_rest [] ps l shape r = (
      subst (λ t. InRow (suc im.max_id) row ws roots old seen bad u t l)
          (sym (shape ∙ append-nil ps)) r,
      Extends-refl l,
    )
    row_rest (x ∷ xs) ps l shape r =
        let inside : x < suc im.max_id =
          inner.below x
            (inner.lands u x (rw shape ((Memᴰ-append x ps (x ∷ xs)).1 (inr (Memᴰ.head refl))))) in
        let l1 = visit_edge layer u l x in
        let visit =
          visit_edge-Visit layer u x l (omega (arith, r.pass.size_located))
            (omega (arith, r.pass.size_crossed)) (omega (arith, r.pass.size_next))
            (r.pass.crossed_zero x) in
        let r1 =
          edge_step (suc im.max_id) row ws roots old inner.below inner.lands inner.small seen bad u
            unread ps xs x shape l l1 r visit in
        let (r2, more) =
          row_rest xs (ps ++ x ∷ []) l1 (shape ∙ sym (append_assoc ps (x ∷ []) xs)) r1 in
        (
          r2,
          Extends-trans l l1 (foldl (visit_edge layer u) l1 xs) (Visit-Extends u x l l1 visit) more,
        )

    row_start :
        (l : Layering)
        → Rest seen bad l
        → Memᴰ u l.order
        → InRow (suc im.max_id) row ws roots old seen bad u [] l
    unfolding count
    row_start l p queued = record {
      pass = record {
        size_in = p.size_in;
        size_located = p.size_located;
        size_crossed = p.size_crossed;
        size_next = p.size_next;
        balance = p.balance;
        inside = p.inside;
        ready = p.ready;
        distinct = p.distinct;
        starts = λ v w m h t. Memᴰ.tail (p.starts v w m h t);
        done_queued = λ w m. elim ((Memᴰ-cons w u seen).0 m) [
          | inl e ↦ rw e queued
          | inr s ↦ p.done_queued w s
        ];
        roots_kept = p.roots_kept;
        crossed_zero = p.crossed_zero;
        tree = p.tree;
        named = p.named;
        next_count = λ v h. ground (arith, p.next_count v h);
        bad_iff = p.bad_iff;
        joined = p.joined;
        cross_in = p.cross_in;
        cross_distinct = p.cross_distinct;
        cross_known = p.cross_known;
        outside = p.outside;
      };
      own_edges = λ v m. absurd (Memᴰ.not-nil m);
    }

    -- the crossed rows after that of `u`
    abbrev bad_after : Layering → List ℕ
    bad_after l = if flag l.crossed u then u ∷ bad else bad

    row_end :
        (l : Layering)
        → InRow (suc im.max_id) row ws roots old seen bad u (row u) l
        → Rest (u ∷ seen) (bad_after l) l
    row_end l r =
        let p = r.pass in
        let start : u < suc im.max_id =
          inner.below u (p.inside u (p.done_queued u (Memᴰ.head refl))) in
        let new : ¬ Memᴰ u bad =
          λ m. clash (sym ((elem_iff u seen).1 ((p.bad_iff u).0 m).0) ∙ unread) in
        record {
          size_in = p.size_in;
          size_located = p.size_located;
          size_crossed = p.size_crossed;
          size_next = p.size_next;
          balance = λ v h. omega (
            arith,
            p.balance v h,
            edges_from-cons row v u seen (suc im.max_id) 0 (omega arith) (omega arith) unread,
          );
          inside = p.inside;
          ready = p.ready;
          distinct = p.distinct;
          starts = p.starts;
          done_queued = p.done_queued;
          roots_kept = p.roots_kept;
          crossed_zero = p.crossed_zero;
          tree = p.tree;
          named = p.named;
          next_count = λ v h. ground (
            arith,
            p.next_count v h,
            edges_from-cons row v u bad (suc im.max_id) 0 (omega arith) (omega arith)
                (elem-false u bad new),
          );
          bad_iff = λ w. elim (Bool-cases (flag l.crossed u)) [
            | inl c ↦ rw c (
              λ m. elim ((Memᴰ-cons w u bad).0 m) [
                | inl e ↦ (Memᴰ.head e, rw e c)
                | inr b ↦ let (s, d) = (p.bad_iff w).0 b in (Memᴰ.tail s, d)
              ],
              λ (m, d). elim ((Memᴰ-cons w u seen).0 m) [
                | inl e ↦ Memᴰ.head e
                | inr s ↦ Memᴰ.tail ((p.bad_iff w).1 (s, d))
              ],
            )
            | inr c ↦ rw c (
              λ m. let (s, d) = (p.bad_iff w).0 m in (Memᴰ.tail s, d),
              λ (m, d). elim ((Memᴰ-cons w u seen).0 m) [
                | inl e ↦ absurd (clash (sym d ∙ rw e c))
                | inr s ↦ (p.bad_iff w).1 (s, d)
              ],
            )
          ];
          joined = λ w v m t. elim ((Memᴰ-cons w u seen).0 m) [
            | inl e ↦ rw e (r.own_edges v (rw e at t))
            | inr s ↦ p.joined w v s t
          ];
          cross_in = p.cross_in;
          cross_distinct = p.cross_distinct;
          cross_known = p.cross_known;
          outside = p.outside;
        }

    -- A whole row adds its vertex to those seen.
    row_lem :
        (l : Layering)
        → Rest seen bad l
        → Memᴰ u l.order
        → (bad' : List ℕ) × Rest (u ∷ seen) bad' (visit_row im layer l u)
          × Extends l (visit_row im layer l u)
    unfolding visit_row
    row_lem l p queued =
        let same = inner.rows u (p.inside u queued) in
        let (r, more) = row_rest (row u) [] l refl (row_start l p queued) in
        rw same (bad_after (foldl (visit_edge layer u) l (row u)), row_end _ r, more)

  -- the vertices that a round reads
  pub record Front (seen us : List ℕ) (l : Layering) : Type 0 where
    pub members : (w : ℕ) → Memᴰ w us → Memᴰ w l.order × (¬ Memᴰ w seen)
    pub distinct : NoDup us

  pub front_lem :
      (layer : Option ℕ) (us seen bad : List ℕ) (l : Layering)
      → Rest seen bad l
      → Front seen us l
      → (seen' bad' : List ℕ) × Rest seen' bad' (foldl (visit_row im layer) l us)
        × Extends l (foldl (visit_row im layer) l us)
        × ((w : ℕ) → Memᴰ w seen' ↔ (Memᴰ w seen ⊎ Memᴰ w us))
  front_lem layer [] seen bad l p f = (
    seen,
    bad,
    p,
    Extends-refl l,
    λ w. (inl, λ m. elim m [ inl s ↦ s | inr k ↦ absurd (Memᴰ.not-nil k) ]),
  )
  front_lem layer (u ∷ us) seen bad l p f =
      let (queued, new) = f.members u (Memᴰ.head refl) in
      let l1 = visit_row im layer l u in
      let (bad1, p1, g1) = row_lem layer seen bad u (elem-false u seen new) l p queued in
      let f1 : Front (u ∷ seen) us l1 = record {
        members = λ w m.
            let (q, k) = f.members w (Memᴰ.tail m) in
            (
              Extends-old l l1 g1 w q,
              λ s. elim ((Memᴰ-cons w u seen).0 s) [
                | inl e ↦ f.distinct.0 (rw e at m)
                | inr o ↦ k o
              ],
            );
        distinct = f.distinct.1;
      } in
      let (seen', bad', p2, g2, same) = front_lem layer us (u ∷ seen) bad1 l1 p1 f1 in
      (
        seen',
        bad',
        p2,
        Extends-trans l l1 (foldl (visit_row im layer) l1 us) g1 g2,
        λ w. ground (arith, same w, Memᴰ-cons w u seen, Memᴰ-cons w u us),
      )
