-- ===== src/Reach/Build/Heights.antt =====
-- Matrix/reach.cpp: `cal_index` makes `Lup` fall along the edges.
use mathlib.Core.List.Memᴰ
use mathlib.Core.List.{foldl, reverse}
use mgtag.Prelude.{
  ℕ, suc, ◌+◌, ◌≤◌, ◌<◌, ◌≡◌, ◌⊎◌, inl, inr, sym, subst, ◌∙◌, List, [], ◌∷◌, Memᴰ, Memᴰ-cons,
  length, length-set, set, get_or-set_self, get_or-set_ne, ltb, Bool-cases, arith,
}
use mgtag.Reach.Graph.{Image, targets}
use mgtag.Reach.Build.Degrees.{num}
use mgtag.Reach.Build.Index.{Scan, Heights, scan_edge, index_vertex, cal_index}

module _ (im : Image) where
  -- The list names each vertex once, after all to which its edges lead; `done` stands before it.
  unfoldable pub Follows : List ℕ → List ℕ → Type 0
  Follows done [] = Unit {0}
  Follows done (u ∷ us) =
      (u ≤ im.max_id)
      × (¬ Memᴰ u done)
      × ((v : ℕ) → Memᴰ v (targets im u) → Memᴰ v done)
      × Follows (u ∷ done) us

module _ (im : Image) (located new_id : List ℕ) (excp_o : List (List ℕ)) where
  abbrev scan : ℕ → Heights → Scan → ℕ → Scan
  scan u h = scan_edge im located new_id excp_o u h

  top_step :
      (u : ℕ) (h : Heights) (s : Scan) (v : ℕ)
      → (s.top ≤ (scan u h s v).top) × (num h.lup v ≤ (scan u h s v).top)
  unfolding scan_edge
  top_step u h s v = elim (Bool-cases (ltb s.top (num h.lup v))) [
    | inl e ↦ rw e (ground arith, omega arith)
    | inr e ↦ rw e (omega arith, ground arith)
  ]

  -- the row's maximum
  top_fold :
      (u : ℕ) (h : Heights) (vs : List ℕ) (s : Scan)
      → (s.top ≤ (foldl (scan u h) s vs).top)
        × ((v : ℕ) → Memᴰ v vs → num h.lup v ≤ (foldl (scan u h) s vs).top)
  top_fold u h [] s = (omega arith, λ v m. absurd (Memᴰ.not-nil m))
  top_fold u h (x ∷ xs) s =
      let (grow, own) = top_step u h s x in
      let (more, rest) = top_fold u h xs (scan u h s x) in
      (
        omega arith,
        λ v m. elim ((Memᴰ-cons v x xs).0 m) [ inl e ↦ rw e (omega arith) | inr r ↦ rest v r ],
      )

  -- `Lup` of the vertices done
  record Heighted (done : List ℕ) (h : Heights) : Type 0 where
    size : length h.lup ≡ suc im.max_id
    falls :
        (u v : ℕ) → Memᴰ u done → Memᴰ v (targets im u) → Memᴰ v done × (num h.lup v < num h.lup u)

  vertex_step :
      (done : List ℕ) (u : ℕ) (h : Heights)
      → u ≤ im.max_id
      → ¬ Memᴰ u done
      → ((v : ℕ) → Memᴰ v (targets im u) → Memᴰ v done)
      → Heighted done h
      → Heighted (u ∷ done) (index_vertex im located new_id excp_o h u)
  unfolding index_vertex
  vertex_step done u h inside fresh before k =
      let s = foldl (scan u h) (record { top = 0; reach = num new_id u }) (targets im u) in
      let (grow, all) = top_fold u h (targets im u) (record { top = 0; reach = num new_id u }) in
      let own : num (set h.lup u (s.top + 1)) u ≡ s.top + 1 =
        get_or-set_self h.lup u (s.top + 1) 0 (omega (arith, k.size)) in
      let other : (w : ℕ) → Memᴰ w done → num (set h.lup u (s.top + 1)) w ≡ num h.lup w = λ w m.
        get_or-set_ne h.lup u w (s.top + 1) 0 (λ e. fresh (subst (λ t. Memᴰ t done) (sym e) m)) in
      record {
        size = length-set h.lup u (s.top + 1) ∙ k.size;
        falls = λ w v m t. elim ((Memᴰ-cons w u done).0 m) [
          | inl e ↦
              let edge : Memᴰ v (targets im u) = rw e at t in
              let old = before v edge in
              (Memᴰ.tail old, rw e (omega (arith, own, other v old, all v edge)))
          | inr o ↦
              let (old, less) = k.falls w v o t in
              (Memᴰ.tail old, omega (arith, other v old, other w o))
        ];
      }

  heights_lem :
      (us done : List ℕ) (h : Heights)
      → Follows im done us
      → Heighted done h
      → (u v : ℕ) → Memᴰ u done ⊎ Memᴰ u us
      → Memᴰ v (targets im u)
      → num (foldl (index_vertex im located new_id excp_o) h us).lup v
        < num (foldl (index_vertex im located new_id excp_o) h us).lup u
  unfolding Follows
  heights_lem [] done h f k u v m t = elim m [
    | inl d ↦ (k.falls u v d t).1
    | inr n ↦ absurd (Memᴰ.not-nil n)
  ]
  heights_lem (x ∷ xs) done h (inside, fresh, before, rest) k u v m t =
      heights_lem xs (x ∷ done) (index_vertex im located new_id excp_o h x) rest
        (vertex_step done x h inside fresh before k) u v
        (elim m [
          | inl d ↦ inl (Memᴰ.tail d)
          | inr n ↦ elim ((Memᴰ-cons u x xs).0 n) [ inl e ↦ inl (Memᴰ.head e) | inr r ↦ inr r ]
        ])
        t

  -- If the topological order names each vertex once and before all to which its edges lead, `cal_index` makes
  -- `Lup` fall along every edge of a vertex in it.
  pub cal_index_lem :
      (topo : List ℕ) (h : Heights)
      → Follows im [] (reverse topo)
      → length h.lup ≡ suc im.max_id
      → (u v : ℕ) → Memᴰ u (reverse topo)
      → Memᴰ v (targets im u)
      → num (cal_index im located new_id excp_o topo h).lup v
        < num (cal_index im located new_id excp_o topo h).lup u
  unfolding cal_index
  cal_index_lem topo h f size u v m t =
      heights_lem (reverse topo) [] h f
        (record { size = size; falls = λ w x n e. absurd (Memᴰ.not-nil n) }) u v (inr m) t
