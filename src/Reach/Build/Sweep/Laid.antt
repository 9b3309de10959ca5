-- ===== src/Reach/Build/Sweep/Laid.antt =====
-- Matrix/reach.cpp: the layers that are laid, and one layer more.
use mgtag.Prelude.{
  ℕ, suc, ◌<◌, ◌≡◌, ◌≢◌, ◌⊎◌, ◌↔◌, inl, inr, sym, ◌∙◌, false, List, ◌++◌, Memᴰ, Memᴰ-append,
  Bool-cases, ◌==◌, arith,
}
use mgtag.Reach.Graph.{Image, targets}
use mgtag.Reach.Build.Degrees.{num, flag}
use mgtag.Reach.Build.Counts.{edges_into, edges_into-zero, edges_into_some}
use mgtag.Reach.Build.Layers.{Layering}
use mgtag.Reach.Build.Positions.{NoDup, NoDup-append}
use mgtag.Reach.Build.Sums.{elem, elem_iff}
use mgtag.Reach.Build.Unseen.{clash}
use mgtag.Reach.Build.Sweep.Reads.{Inner}
use mgtag.Reach.Build.Sweep.Whole.{part_row, part_row_iff, Done}

pub elem-cases : (w : ℕ) (ws : List ℕ) → Memᴰ w ws ⊎ (¬ Memᴰ w ws)
elem-cases w ws = elim (Bool-cases (elem w ws)) [
  | inl e ↦ inl ((elem_iff w ws).0 e)
  | inr e ↦ inr (λ m. clash (sym ((elem_iff w ws).1 m) ∙ e))
]

module _ (im : Image) where
  -- All vertices but those of `ws` have their trees, by `located`, with the roots of `laid`.
  pub record Laid (located ws laid : List ℕ) : Type 0 where
    pub below : (w : ℕ) → Memᴰ w ws → w < suc im.max_id
    pub closed : (w v : ℕ) → Memᴰ w ws → Memᴰ v (targets im w) → Memᴰ v ws
    pub unset : (w : ℕ) → Memᴰ w ws → num located w ≡ 0
    pub fixed :
        (v : ℕ) → v < suc im.max_id → ¬ Memᴰ v ws → (q : ℕ) × Memᴰ q laid × (num located v ≡ suc q)
    pub roots :
        (q : ℕ) → Memᴰ q laid → (q < suc im.max_id) × (¬ Memᴰ q ws) × (num located q ≡ suc q)
    pub distinct : NoDup laid
    pub apart :
        (q w : ℕ)
        → Memᴰ q laid
        → w < suc im.max_id
        → ¬ Memᴰ w ws
        → Memᴰ q (targets im w)
        → num located q ≢ num located w
    pub joined :
        (v : ℕ)
        → v < suc im.max_id
        → ¬ Memᴰ v ws
        → Memᴰ v laid
          ⊎ ((w : ℕ) × (w < suc im.max_id)
              × (¬ Memᴰ w ws)
              × Memᴰ v (targets im w)
              × (num located v ≡ num located w))

  module _ (located ws laid : List ℕ) (a : Laid located ws laid) (news bad : List ℕ)
      (inner : Inner im (part_row (targets im) ws) ws) (rank : ℕ → ℕ)
      (acyclic : (w v : ℕ) → Memᴰ w ws → Memᴰ v (part_row (targets im) ws w) → rank w < rank v)
      (from : (w v : ℕ) → Memᴰ v (part_row (targets im) ws w) → Memᴰ w ws) (old : List ℕ)
      (kept : (v : ℕ) → ¬ Memᴰ v ws → num old v ≡ num located v) (l : Layering)
      (d : Done im (part_row (targets im) ws) ws news inner rank acyclic from old bad l)
      (of_ws : (r : ℕ) → Memᴰ r news → Memᴰ r ws) (new_distinct : NoDup news)
      (sources : (v : ℕ)
        → Memᴰ v ws
        → Memᴰ v news ↔ (edges_into (part_row (targets im) ws) v (suc im.max_id) 0 ≡ 0)) where
    -- what lies outside stays
    same : (v : ℕ) → ¬ Memᴰ v ws → num l.located v ≡ num located v
    same v k = d.outside v k ∙ kept v k

    not_bad : (v : ℕ) → ¬ Memᴰ v ws → ¬ Memᴰ v bad
    not_bad v k m = k ((d.bad_iff v).0 m).0

    uncrossed : (v : ℕ) → Memᴰ v ws → ¬ Memᴰ v bad → flag l.crossed v ≡ false
    uncrossed v m k = elim (Bool-cases (flag l.crossed v)) [
      | inl c ↦ absurd (k ((d.bad_iff v).1 (m, c)))
      | inr c ↦ c
    ]

    edge : (w v : ℕ) → Memᴰ w ws → Memᴰ v (targets im w) → Memᴰ v (part_row (targets im) ws w)
    edge w v m t = (part_row_iff (targets im) ws w v).1 (m, t)

    closed' : (w v : ℕ) → Memᴰ w bad → Memᴰ v (targets im w) → Memᴰ v bad
    closed' w v m t =
        let (i, c) = (d.bad_iff w).0 m in
        (d.bad_iff v).1 (a.closed w v i t, (d.joined w v i (edge w v i t)).0 c)

    fixed' :
        (v : ℕ)
        → v < suc im.max_id
        → ¬ Memᴰ v bad
        → (q : ℕ) × Memᴰ q (laid ++ news) × (num l.located v ≡ suc q)
    fixed' v h k = elim (elem-cases v ws) [
      | inl m ↦
          let (q, n, e) = d.tree v m (uncrossed v m k) in
          (q, (Memᴰ-append q laid news).1 (inr n), e)
      | inr o ↦
          let (q, n, e) = a.fixed v h o in (q, (Memᴰ-append q laid news).1 (inl n), same v o ∙ e)
    ]

    new_root :
        (q : ℕ) → Memᴰ q news → (q < suc im.max_id) × (¬ Memᴰ q bad) × (num l.located q ≡ suc q)
    new_root q m =
        let (c, e) = d.roots_kept q m in
        (a.below q (of_ws q m), λ b. clash (sym ((d.bad_iff q).0 b).1 ∙ c), e)

    old_root :
        (q : ℕ) → Memᴰ q laid → (q < suc im.max_id) × (¬ Memᴰ q bad) × (num l.located q ≡ suc q)
    old_root q m = let (h, k, e) = a.roots q m in (h, not_bad q k, same q k ∙ e)

    roots' :
        (q : ℕ)
        → Memᴰ q (laid ++ news)
        → (q < suc im.max_id) × (¬ Memᴰ q bad) × (num l.located q ≡ suc q)
    roots' q m = elim ((Memᴰ-append q laid news).0 m) [
      | inl o ↦ old_root q o
      | inr n ↦ new_root q n
    ]

    apart' :
        (q w : ℕ)
        → Memᴰ q (laid ++ news)
        → w < suc im.max_id
        → ¬ Memᴰ w bad
        → Memᴰ q (targets im w)
        → num l.located q ≢ num l.located w
    apart' q w m h k t = elim ((Memᴰ-append q laid news).0 m) [
      | inl o ↦
          let (less, out, name) = a.roots q o in
          let from_out : ¬ Memᴰ w ws = λ i. out (a.closed w q i t) in
          λ e. a.apart q w o h from_out t (sym (same q out) ∙ e ∙ same w from_out)
      | inr n ↦ elim (elem-cases w ws) [
        | inl i ↦ absurd (
            (edges_into-zero (part_row (targets im) ws) q (suc im.max_id) 0).0
              ((sources q (of_ws q n)).0 n) w (omega arith) (omega arith) (edge w q i t))
        | inr o ↦
            let (p, laid_p, name) = a.fixed w h o in
            let (less, out, own) = a.roots p laid_p in
            let (range, good, name_q) = new_root q n in
            λ e.
              let same_root : q ≡ p = omega (arith, same w o) in out (rw (← same_root) (of_ws q n))
      ]
    ]

    joined' :
        (v : ℕ)
        → v < suc im.max_id
        → ¬ Memᴰ v bad
        → Memᴰ v (laid ++ news)
          ⊎ ((w : ℕ) × (w < suc im.max_id)
              × (¬ Memᴰ w bad)
              × Memᴰ v (targets im w)
              × (num l.located v ≡ num l.located w))
    joined' v h k = elim (elem-cases v ws) [
      | inl m ↦ elim (Bool-cases (edges_into (part_row (targets im) ws) v (suc im.max_id) 0 == 0)) [
        | inl z ↦ inl ((Memᴰ-append v laid news).1 (inr ((sources v m).1 (ground arith))))
        | inr z ↦
            let (w, low, high, t) =
              edges_into_some (part_row (targets im) ws) v (suc im.max_id) 0 (ground arith) in
            let (i, t') = (part_row_iff (targets im) ws w v).0 t in
            let c = uncrossed v m k in
            let good : ¬ Memᴰ w bad = λ b. k (closed' w v b t') in
            elim ((d.joined w v i t).1 (uncrossed w i good)) [
              | inl crossed ↦ absurd (clash (sym crossed ∙ c))
              | inr e ↦ inr (w, omega arith, good, t', e)
            ]
      ]
      | inr o ↦ elim (a.joined v h o) [
        | inl q ↦ inl ((Memᴰ-append v laid news).1 (inl q))
        | inr (w, less, out, t, e) ↦
            inr (w, less, not_bad w out, t, same v o ∙ e ∙ sym (same w out))
      ]
    ]

    pub laid_lem : Laid l.located bad (laid ++ news)
    laid_lem = record {
      below = λ w m. a.below w ((d.bad_iff w).0 m).0;
      closed = closed';
      unset = λ w m. d.crossed_zero w ((d.bad_iff w).0 m).1;
      fixed = fixed';
      roots = roots';
      distinct =
          NoDup-append laid news a.distinct new_distinct (λ w o n. (a.roots w o).1 (of_ws w n));
      apart = apart';
      joined = joined';
    }
