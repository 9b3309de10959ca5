-- ===== src/Reach/Build/Rows.antt =====
-- Matrix/reach.cpp: the rows that a round of `pre_process` reads.
use mathlib.Core.List.Memᴰ
use mgtag.Prelude.{
  ℕ, suc, ◌+◌, ◌^◌, ◌≤◌, ◌<◌, ◌≡◌, ◌≢◌, inl, inr, refl, sym, ap, ◌∙◌, List, [], ◌∷◌, ◌++◌, some,
  append-nil, append_assoc, Memᴰ, Memᴰ-append, arith,
}
use mgtag.Reach.Graph.{Image, targets, IsWhole}
use mgtag.Reach.Build.Degrees.{num}
use mgtag.Reach.Build.Layers.{Layering, visit_edge}
use mgtag.Reach.Build.Counts.{count, count-append, count_own, count_other, edges_into}
use mgtag.Reach.Build.Edge.{visit_edge-Arrived}
use mgtag.Reach.Build.Kahn.{Kahn, Row, not_queued, other_down, pushed, passed}
use mgtag.Reach.Build.Positions.{NoDup, NoDup-append}

-- what reading rows adds to the order
pub record Grows (l l' : Layering) : Type 0 where
  pub new : List ℕ
  pub order : l'.order ≡ l.order ++ new
  pub fresh : (w : ℕ) → Memᴰ w new → ¬ Memᴰ w l.order
  pub distinct : NoDup new
  pub kept : (w : ℕ) → Memᴰ w l.order → num l'.ldown w ≡ num l.ldown w

pub Grows-refl : (l : Layering) → Grows l l
Grows-refl l = record {
  new = [];
  order = sym (append-nil l.order);
  fresh = λ w m. absurd (Memᴰ.not-nil m);
  distinct = tt;
  kept = λ w m. refl;
}

pub Grows-old : (l l' : Layering) → Grows l l' → (w : ℕ) → Memᴰ w l.order → Memᴰ w l'.order
Grows-old l l' g w m = rw (g.order) ((Memᴰ-append w l.order g.new).1 (inl m))

pub Grows-trans : (l l' l'' : Layering) → Grows l l' → Grows l' l'' → Grows l l''
Grows-trans l l' l'' g h = record {
  new = g.new ++ h.new;
  order = h.order ∙ ap (λ t. t ++ h.new) g.order ∙ append_assoc l.order g.new h.new;
  fresh = λ w m. elim ((Memᴰ-append w g.new h.new).0 m) [
    | inl a ↦ g.fresh w a
    | inr b ↦ λ old. h.fresh w b (Grows-old l l' g w old)
  ];
  distinct =
      NoDup-append g.new h.new g.distinct h.distinct
        (λ w a b. h.fresh w b (rw (g.order) ((Memᴰ-append w l.order g.new).1 (inr a))));
  kept = λ w m. h.kept w (Grows-old l l' g w m) ∙ g.kept w m;
}

module _ (im : Image) (whole : IsWhole im) (layer : ℕ)
    (small : (v : ℕ) → v ≤ im.max_id → edges_into (targets im) v (suc im.max_id) 0 < 2 ^ 32) where
  pub edge_step :
      (seen : List ℕ) (u x : ℕ) (ps xs : List ℕ) (l : Layering)
      → targets im u ≡ ps ++ x ∷ xs
      → Kahn im layer seen (λ v. count v ps) l
      → Row im layer seen u l
      → Kahn im layer seen (λ v. count v (ps ++ x ∷ [])) (visit_edge (some layer) u l x)
        × Grows l (visit_edge (some layer) u l x)
  edge_step seen u x ps xs l shape kahn row =
      let l' = visit_edge (some layer) u l x in
      let a = visit_edge-Arrived layer u l x in
      let vertex : x ≤ im.max_id =
        whole.in_range u x row.vertex
          (rw shape ((Memᴰ-append x ps (x ∷ xs)).1 (inr (Memᴰ.head refl)))) in
      let more = λ (v : ℕ). count v (ps ++ x ∷ []) in
      let one_more : more x ≡ suc (count x ps) =
        omega (arith, count-append x ps (x ∷ []), count_own x) in
      let others : (v : ℕ) → x ≢ v → more v ≡ count v ps =
        λ v h. omega (arith, count-append v ps (x ∷ []), count_other v x h) in
      let of_row : (v : ℕ) → more v ≤ count v (targets im u) = λ v. omega (arith, count_whole v) in
      elim a.outcome [
        | inl (z, e2, e3) ↦ (
          pushed im layer small seen (λ v. count v ps) more u x l kahn row vertex one_more others
              of_row l' a.indeg z e2 e3,
          record {
            new = x ∷ [];
            order = e2;
            fresh = λ w m. rw (Memᴰ.eq_of_singleton m) (
                not_queued im layer small seen (λ v. count v ps) more u x l kahn row vertex one_more
                  others of_row);
            distinct = (λ m. Memᴰ.not-nil m, tt);
            kept = λ w m.
                ap (λ t. num t w) e3
                ∙ other_down im layer small seen (λ v. count v ps) more u x l kahn row vertex
                    one_more others of_row w m;
          },
        )
        | inr (z, e2, e3) ↦ (
          passed im layer small seen (λ v. count v ps) more u x l kahn row vertex one_more others
              of_row l' a.indeg z e2 e3,
          record {
            new = [];
            order = e2 ∙ sym (append-nil l.order);
            fresh = λ w m. absurd (Memᴰ.not-nil m);
            distinct = tt;
            kept = λ w m. ap (λ t. num t w) e3;
          },
        )
      ]
    where
      count_whole : (v : ℕ) → count v (targets im u) ≡ count v (ps ++ x ∷ []) + count v xs
      count_whole v =
          ap (count v) (shape ∙ sym (append_assoc ps (x ∷ []) xs))
          ∙ count-append v (ps ++ x ∷ []) xs
