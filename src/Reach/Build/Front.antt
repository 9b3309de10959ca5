-- ===== src/Reach/Build/Front.antt =====
-- Matrix/reach.cpp: one round of `pre_process`, the rows of all vertices that the round before pushed.
use mathlib.Core.List.Memᴰ
use mathlib.Core.List.{foldl}
use mgtag.Prelude.{
  ℕ, suc, ◌+◌, ◌^◌, ◌≤◌, ◌<◌, ◌≡◌, ◌↔◌, ◌⊎◌, inl, inr, refl, sym, subst, ap, ◌∙◌, false, List, [],
  ◌∷◌, ◌++◌, some, append-nil, append_assoc, Memᴰ, Memᴰ-cons, arith,
}
use mgtag.Reach.Graph.{Image, targets, IsWhole}
use mgtag.Reach.Build.Degrees.{num}
use mgtag.Reach.Build.Layers.{Layering, visit_edge, visit_row}
use mgtag.Reach.Build.Counts.{count, edges_into}
use mgtag.Reach.Build.Sums.{elem, elem-cons, edges_from, edges_from-cons}
use mgtag.Reach.Build.Kahn.{Kahn, Row}
use mgtag.Reach.Build.Positions.{NoDup}
use mgtag.Reach.Build.Rows.{Grows, Grows-refl, Grows-old, Grows-trans, edge_step}

module _ (im : Image) (whole : IsWhole im) (layer : ℕ)
    (small : (v : ℕ) → v ≤ im.max_id → edges_into (targets im) v (suc im.max_id) 0 < 2 ^ 32) where
  -- another account of the same edges
  Kahn-same :
      (seen seen' : List ℕ) (e e' : ℕ → ℕ) (l : Layering)
      → ((v : ℕ)
          → v ≤ im.max_id
          → edges_from (targets im) v seen (suc im.max_id) 0 + e v
            ≡ edges_from (targets im) v seen' (suc im.max_id) 0 + e' v)
      → Kahn im layer seen e l
      → Kahn im layer seen' e' l
  Kahn-same seen seen' e e' l same k = record {
    size_in = k.size_in;
    size_down = k.size_down;
    balance = λ v h. omega (arith, same v h, k.balance v h);
    inside = k.inside;
    ready = k.ready;
    level = k.level;
    before = k.before;
    below = k.below;
  }

  Row-kept :
      (seen : List ℕ) (u : ℕ) (l l' : Layering)
      → Grows l l'
      → Row im layer seen u l
      → Row im layer seen u l'
  Row-kept seen u l l' g r = record {
    vertex = r.vertex;
    fresh = r.fresh;
    queued = Grows-old l l' g u r.queued;
    lower = omega (arith, g.kept u r.queued, r.lower);
    seen_queued = λ w m.
        let (q, less) = r.seen_queued w m in (Grows-old l l' g w q, omega (arith, g.kept w q));
  }

  Row-rest :
      (seen : List ℕ) (u : ℕ) (xs ps : List ℕ) (l : Layering)
      → targets im u ≡ ps ++ xs
      → Kahn im layer seen (λ v. count v ps) l
      → Row im layer seen u l
      → Kahn im layer seen (λ v. count v (targets im u)) (foldl (visit_edge (some layer) u) l xs)
        × Grows l (foldl (visit_edge (some layer) u) l xs)
  Row-rest seen u [] ps l shape k r = (
    Kahn-same seen seen (λ v. count v ps) (λ v. count v (targets im u)) l
        (λ v h. omega (arith, ap (count v) (shape ∙ append-nil ps))) k,
    Grows-refl l,
  )
  Row-rest seen u (x ∷ xs) ps l shape k r =
      let (k1, g1) = edge_step im whole layer small seen u x ps xs l shape k r in
      let l1 = visit_edge (some layer) u l x in
      let (k2, g2) =
        Row-rest seen u xs (ps ++ x ∷ []) l1 (shape ∙ sym (append_assoc ps (x ∷ []) xs)) k1
          (Row-kept seen u l l1 g1 r) in
      (k2, Grows-trans l l1 (foldl (visit_edge (some layer) u) l1 xs) g1 g2)

  -- A whole row adds its vertex to those seen.
  row_lem :
      (seen : List ℕ) (u : ℕ) (l : Layering)
      → Kahn im layer seen (λ v. 0) l
      → Row im layer seen u l
      → Kahn im layer (u ∷ seen) (λ v. 0) (visit_row im (some layer) l u)
        × Grows l (visit_row im (some layer) l u)
  unfolding visit_row count
  row_lem seen u l k r =
      let (k1, g) = Row-rest seen u (targets im u) [] l refl k r in
      (
        Kahn-same seen (u ∷ seen) (λ v. count v (targets im u)) (λ v. 0) _
            (λ v h. omega (
              arith,
              edges_from-cons (targets im) v u seen (suc im.max_id) 0 (omega arith)
                  (omega (arith, r.vertex)) r.fresh,
            ))
            k1,
        g,
      )

  -- the vertices that a round reads
  pub record Front (seen us : List ℕ) (l : Layering) : Type 0 where
    pub members :
        (w : ℕ)
        → Memᴰ w us
        → (w ≤ im.max_id) × (elem w seen ≡ false) × Memᴰ w l.order × (num l.ldown w < layer)
    pub distinct : NoDup us
    pub seen_queued : (w : ℕ) → Memᴰ w seen → Memᴰ w l.order × (num l.ldown w < layer)

  Front-Row :
      (seen us : List ℕ) (u : ℕ) (l : Layering) → Front seen (u ∷ us) l → Row im layer seen u l
  Front-Row seen us u l f =
      let (vertex, fresh, queued, lower) = f.members u (Memᴰ.head refl) in
      record {
        vertex = vertex;
        fresh = fresh;
        queued = queued;
        lower = lower;
        seen_queued = f.seen_queued;
      }

  Front-next :
      (seen us : List ℕ) (u : ℕ) (l l' : Layering)
      → Grows l l'
      → Front seen (u ∷ us) l
      → Front (u ∷ seen) us l'
  Front-next seen us u l l' g f = record {
    members = λ w m.
        let (vertex, fresh, queued, lower) = f.members w (Memᴰ.tail m) in
        (
          vertex,
          elem-cons w u seen (λ e. f.distinct.0 (subst (λ t. Memᴰ t us) (sym e) m)) ∙ fresh,
          Grows-old l l' g w queued,
          omega (arith, g.kept w queued),
        );
    distinct = f.distinct.1;
    seen_queued = λ w m. elim ((Memᴰ-cons w u seen).0 m) [
      | inl e ↦
          let (vertex, fresh, queued, lower) = f.members u (Memᴰ.head refl) in
          rw e (Grows-old l l' g u queued, omega (arith, g.kept u queued))
      | inr s ↦
          let (queued, lower) = f.seen_queued w s in
          (Grows-old l l' g w queued, omega (arith, g.kept w queued))
    ];
  }

  pub front_lem :
      (us seen : List ℕ) (l : Layering)
      → Kahn im layer seen (λ v. 0) l
      → Front seen us l
      → (seen' : List ℕ) × Kahn im layer seen' (λ v. 0) (foldl (visit_row im (some layer)) l us)
        × Grows l (foldl (visit_row im (some layer)) l us)
        × ((w : ℕ) → Memᴰ w seen' ↔ (Memᴰ w seen ⊎ Memᴰ w us))
  front_lem [] seen l k f = (
    seen,
    k,
    Grows-refl l,
    λ w. (inl, λ m. elim m [ inl s ↦ s | inr n ↦ absurd (Memᴰ.not-nil n) ]),
  )
  front_lem (u ∷ us) seen l k f =
      let (k1, g1) = row_lem seen u l k (Front-Row seen us u l f) in
      let l1 = visit_row im (some layer) l u in
      let (seen', k2, g2, same) = front_lem us (u ∷ seen) l1 k1 (Front-next seen us u l l1 g1 f) in
      (
        seen',
        k2,
        Grows-trans l l1 (foldl (visit_row im (some layer)) l1 us) g1 g2,
        λ w. ground (arith, same w, Memᴰ-cons w u seen, Memᴰ-cons w u us),
      )
