-- ===== src/Reach/Build/Sweep/Whole.antt =====
-- Matrix/reach.cpp: what a pass leaves, from its start to its end.
use mathlib.Core.List.Memᴰ
use mgtag.Prelude.{
  ℕ, zero, suc, ◌+◌, ◌≤◌, ◌<◌, ◌≡◌, ◌⊎◌, ◌↔◌, inl, inr, refl, sym, ◌∙◌, true, false, List, [],
  Option, some, Memᴰ, length, Bool-cases, arith, if◌then◌else◌,
}
use mgtag.Reach.Graph.{Image}
use mgtag.Reach.Build.Degrees.{num, flag}
use mgtag.Reach.Build.Counts.{count, edges_into, edges_into-zero}
use mgtag.Reach.Build.Layers.{Layering, rounds}
use mgtag.Reach.Build.Positions.{NoDup}
use mgtag.Reach.Build.Sums.{elem, elem_iff, edges_from, edges_from-nil}
use mgtag.Reach.Build.Unseen.{clash, unseen_bound, edges_from_full}
use mgtag.Reach.Build.Sweep.Reads.{Inner}
use mgtag.Reach.Build.Sweep.Rounds.{Between, rounds_lem, all_read}
use mgtag.Reach.Build.Sweep.Touch.{Joined}

-- the edges that start in `ws`
unfoldable pub part_row : (ℕ → List ℕ) → List ℕ → ℕ → List ℕ
part_row row ws w = if elem w ws then row w else []

pub part_row_iff :
    (row : ℕ → List ℕ) (ws : List ℕ) (w v : ℕ)
    → Memᴰ v (part_row row ws w) ↔ (Memᴰ w ws × Memᴰ v (row w))
unfolding part_row
part_row_iff row ws w v = elim (Bool-cases (elem w ws)) [
  | inl e ↦ rw e (λ m. ((elem_iff w ws).0 e, m), λ (i, m). m)
  | inr e ↦
      rw e (λ m. absurd (Memᴰ.not-nil m), λ (i, m). absurd (clash (sym ((elem_iff w ws).1 i) ∙ e)))
]

pub edges_into-part_row :
    (row : ℕ → List ℕ) (ws : List ℕ) (v n i : ℕ)
    → edges_into (part_row row ws) v n i ≡ edges_from row v ws n i
unfolding part_row edges_into edges_from count
edges_into-part_row row ws v zero i = refl
edges_into-part_row row ws v (suc n) i =
    let rest = edges_into-part_row row ws v n (i + 1) in
    elim (Bool-cases (elem i ws)) [ inl e ↦ rw e (omega arith) | inr e ↦ rw e (omega arith) ]

pub edges_into_same :
    (row row' : ℕ → List ℕ) (v n i : ℕ)
    → ((w : ℕ) → row w ≡ row' w)
    → edges_into row v n i ≡ edges_into row' v n i
unfolding edges_into
edges_into_same row row' v zero i same = refl
edges_into_same row row' v (suc n) i same =
    rw (same i, edges_into_same row row' v n (i + 1) same) refl

pub part_row_twice :
    (row : ℕ → List ℕ) (ws bad : List ℕ)
    → ((w : ℕ) → Memᴰ w bad → Memᴰ w ws)
    → (w : ℕ) → part_row (part_row row ws) bad w ≡ part_row row bad w
unfolding part_row
part_row_twice row ws bad sub w = elim (Bool-cases (elem w bad)) [
  | inl e ↦ rw (e, (elem_iff w ws).1 (sub w ((elem_iff w bad).0 e))) refl
  | inr e ↦ rw e refl
]

module _ (im : Image) (row : ℕ → List ℕ) (ws roots : List ℕ) (inner : Inner im row ws)
    (rank : ℕ → ℕ) (acyclic : (w v : ℕ) → Memᴰ w ws → Memᴰ v (row w) → rank w < rank v)
    (from : (w v : ℕ) → Memᴰ v (row w) → Memᴰ w ws) where
  -- The queue holds the roots, the vertices of `ws` that no edge of the pass leads to; only they have a tree.
  pub record Start (l : Layering) : Type 0 where
    pub size_in : length l.indeg ≡ suc im.max_id
    pub size_located : length l.located ≡ suc im.max_id
    pub size_crossed : length l.crossed ≡ suc im.max_id
    pub size_next : length l.next ≡ suc im.max_id
    pub degrees : (v : ℕ) → v < suc im.max_id → num l.indeg v ≡ edges_into row v (suc im.max_id) 0
    pub queue : l.order ≡ roots
    pub of_ws : (r : ℕ) → Memᴰ r roots → Memᴰ r ws
    pub distinct : NoDup roots
    pub sources : (v : ℕ) → Memᴰ v ws → (num l.indeg v ≡ 0) ↔ Memᴰ v roots
    pub trees : (r : ℕ) → Memᴰ r roots → num l.located r ≡ suc r
    pub unset : (v : ℕ) → Memᴰ v ws → Memᴰ v roots ⊎ (num l.located v ≡ 0)
    pub uncrossed : (v : ℕ) → flag l.crossed v ≡ false
    pub none_next : (v : ℕ) → v < suc im.max_id → num l.next v ≡ 0
    pub no_cross : l.cross_id ≡ []

  -- `bad` are the crossed vertices: those of the layers to come.
  pub record Done (old : List ℕ) (bad : List ℕ) (l : Layering) : Type 0 where
    pub size_in : length l.indeg ≡ suc im.max_id
    pub size_located : length l.located ≡ suc im.max_id
    pub size_next : length l.next ≡ suc im.max_id
    pub none_left : (v : ℕ) → v < suc im.max_id → num l.indeg v ≡ 0
    pub bad_iff : (w : ℕ) → Memᴰ w bad ↔ (Memᴰ w ws × (flag l.crossed w ≡ true))
    pub joined : (w v : ℕ) → Memᴰ w ws → Memᴰ v (row w) → Joined l w v
    pub roots_kept : (r : ℕ) → Memᴰ r roots → (flag l.crossed r ≡ false) × (num l.located r ≡ suc r)
    pub crossed_zero : (v : ℕ) → flag l.crossed v ≡ true → num l.located v ≡ 0
    pub tree :
        (v : ℕ)
        → Memᴰ v ws
        → flag l.crossed v ≡ false
        → (r : ℕ) × Memᴰ r roots × (num l.located v ≡ suc r)
    pub next_count :
        (v : ℕ)
        → v < suc im.max_id
        → num l.next v ≡ edges_into (part_row row bad) v (suc im.max_id) 0
    pub cross_in : (v : ℕ) → Memᴰ v l.cross_id → Memᴰ v bad
    pub cross_distinct : NoDup l.cross_id
    pub cross_known : (v : ℕ) → Memᴰ v bad → Memᴰ v l.cross_id ⊎ (1 ≤ num l.next v)
    pub outside : (v : ℕ) → ¬ Memᴰ v ws → num l.located v ≡ num old v

  Start-Between : (l : Layering) → Start l → Between im row ws roots l.located inner [] [] l.order l
  Start-Between l s = record {
    rest = record {
      size_in = s.size_in;
      size_located = s.size_located;
      size_crossed = s.size_crossed;
      size_next = s.size_next;
      balance = λ v h. omega (arith, edges_from-nil row v (suc im.max_id) 0, s.degrees v h);
      inside = λ w m. s.of_ws w (rw (s.queue) at m);
      ready = λ v m. rw (s.queue) (s.sources v m);
      distinct = rw (s.queue) (s.distinct);
      starts = λ v w m h t.
          let in_ws = s.of_ws v (rw (s.queue) at m) in
          let none_in = (s.sources v in_ws).1 (rw (s.queue) at m) in
          let degree = s.degrees v (inner.below v in_ws) in
          absurd (
            (edges_into-zero row v (suc im.max_id) 0).0 (omega arith) w (omega arith) (omega arith)
              t);
      done_queued = λ w m. absurd (Memᴰ.not-nil m);
      roots_kept = λ r m. (rw (s.queue) m, s.uncrossed r, s.trees r m);
      crossed_zero = λ v c. absurd (clash (sym c ∙ s.uncrossed v));
      tree = λ v m c. elim (s.unset v m) [ inl r ↦ inr (v, r, s.trees v r) | inr z ↦ inl z ];
      named = λ w m c z. let t = s.trees w (rw (s.queue) at m) in omega arith;
      next_count = λ v h. omega (arith, edges_from-nil row v (suc im.max_id) 0, s.none_next v h);
      bad_iff = λ w. (λ m. absurd (Memᴰ.not-nil m), λ (m, c). absurd (Memᴰ.not-nil m));
      joined = λ w v m. absurd (Memᴰ.not-nil m);
      cross_in = λ v m. absurd (Memᴰ.not-nil (rw (s.no_cross) at m));
      cross_distinct = rw (s.no_cross) tt;
      cross_known = λ v c. absurd (clash (sym c ∙ s.uncrossed v));
      outside = λ v k. (refl, s.uncrossed v);
    };
    next = record { members = λ w m. (m, Memᴰ.not-nil); distinct = rw (s.queue) (s.distinct) };
    covers = λ w m. inr m;
  }

  pub pass_lem :
      (layer : Option ℕ) (l : Layering)
      → Start l
      → (bad : List ℕ) × (l' : Layering) × (rounds im (suc (suc im.max_id)) layer l.order l
          ≡ some l')
        × Done l.located bad l'
  pass_lem layer l s =
      let bound = unseen_bound [] (suc im.max_id) 0 in
      let (seen, bad, l', e, b) =
        rounds_lem im row ws roots l.located inner (suc (suc im.max_id)) layer [] [] l.order l
          (Start-Between l s) (omega arith) in
      let all = λ (v : ℕ) (m : Memᴰ v ws).
        all_read im row ws roots l.located inner rank acyclic from (suc (rank v)) seen bad l' b v
          (omega arith) m in
      let p = b.rest in
      let read_in : (w : ℕ) → Memᴰ w seen → Memᴰ w ws = λ w m. p.inside w (p.done_queued w m) in
      let bads : (w : ℕ) → Memᴰ w bad ↔ (Memᴰ w ws × (flag l'.crossed w ≡ true)) = λ w. (
        λ m. let (i, c) = (p.bad_iff w).0 m in (read_in w i, c),
        λ (i, c). (p.bad_iff w).1 (all w i, c),
      ) in
      (
        bad,
        l',
        e,
        record {
          size_in = p.size_in;
          size_located = p.size_located;
          size_next = p.size_next;
          none_left = λ v h.
              let full =
                edges_from_full row v seen (suc im.max_id) 0 (λ w low high t. all w (from w v t)) in
              omega (arith, p.balance v h);
          bad_iff = bads;
          joined = λ w v m t. p.joined w v (all w m) t;
          roots_kept = λ r m. let (q, c, k) = p.roots_kept r m in (c, k);
          crossed_zero = p.crossed_zero;
          tree = λ v m c. elim (p.tree v m c) [
            | inl z ↦ absurd (p.named v (p.done_queued v (all v m)) c z)
            | inr t ↦ t
          ];
          next_count = λ v h.
              omega (arith, p.next_count v h, edges_into-part_row row bad v (suc im.max_id) 0);
          cross_in = λ v m. (bads v).1 (p.cross_in v m);
          cross_distinct = p.cross_distinct;
          cross_known = λ v m. p.cross_known v ((bads v).0 m).1;
          outside = λ v k. (p.outside v k).0;
        },
      )
