-- ===== src/Reach/Build/Roots.antt =====
-- Matrix/reach.cpp: `get_forward_root_vertices` finds the vertices that no edge leads into.
use mathlib.Core.List.Memᴰ
use mgtag.Prelude.{
  ℕ, zero, suc, ◌+◌, ◌^◌, ◌≤◌, ◌<◌, ◌≡◌, ◌≢◌, ◌↔◌, inl, inr, sym, subst, ap, ◌∙◌, Bool, true, false,
  List, Memᴰ, Memᴰ-cons, List-cases, ◌==◌, Bool-cases, arith,
}
use mgtag.Reach.Graph.{Image, targets}
use mgtag.Reach.Build.Degrees.{num, init_degree, select_from, get_forward_root_vertices}
use mgtag.Reach.Build.Counts.{edges_into, init_degree_lem, edges_into-zero}

clash : ¬ (true ≡ false)
clash e = ground arith

pub select_from_mem :
    (test : ℕ → Bool) (n i v : ℕ)
    → Memᴰ v (select_from test n i) ↔ ((i ≤ v) × (v < i + n) × (test v ≡ true))
unfolding select_from
select_from_mem test zero i v = (λ m. absurd (Memᴰ.not-nil m), λ h. absurd (omega arith))
select_from_mem test (suc n) i v =
    let rest = select_from_mem test n (i + 1) v in
    let first = Memᴰ-cons v i (select_from test n (i + 1)) in
    let at_i : v ≡ i → test v ≡ test i = λ e. ap test e in
    elim (Bool-cases (test i)) [
      | inl yes_i ↦ rw yes_i (
        λ m. elim (first.0 m) [
          | inl e ↦ (omega arith, omega arith, at_i e ∙ yes_i)
          | inr r ↦ let (low, high, t) = rest.0 r in (omega arith, omega arith, t)
        ],
        λ (low, high, t). elim (Bool-cases (v == i)) [
          | inl e ↦ first.1 (inl (ground arith))
          | inr e ↦
              let apart : v ≢ i = ground arith in
              first.1 (inr (rest.1 (omega arith, omega arith, t)))
        ],
      )
      | inr not_i ↦ rw not_i (
        λ m. let (low, high, t) = rest.0 m in (omega arith, omega arith, t),
        λ (low, high, t). elim (Bool-cases (v == i)) [
          | inl e ↦ absurd (clash (sym t ∙ at_i (ground arith) ∙ not_i))
          | inr e ↦ let apart : v ≢ i = ground arith in rest.1 (omega arith, omega arith, t)
        ],
      )
    ]

unfoldable pub IsSource : Image → ℕ → Type 0
IsSource im v = (v ≤ im.max_id) × ((u : ℕ) → u ≤ im.max_id → ¬ Memᴰ v (targets im u))

module _ (qsort : List ℕ → List ℕ)
    (same_members : (xs : List ℕ) (a : ℕ) → Memᴰ a (qsort xs) ↔ Memᴰ a xs) (im : Image)
    (small : (v : ℕ) → v ≤ im.max_id → edges_into (targets im) v (suc im.max_id) 0 < 2 ^ 32) where
  abbrev has_none : ℕ → Bool
  has_none v = num (init_degree im).indeg v == 0

  has_none-IsSource : (v : ℕ) → v ≤ im.max_id → (has_none v ≡ true) ↔ IsSource im v
  unfolding IsSource
  has_none-IsSource v h =
      let counted = init_degree_lem im v h (small v h) in
      let free = edges_into-zero (targets im) v (suc im.max_id) 0 in
      (
        λ t. (h, λ u l. free.0 (ground arith) u (omega arith) (omega arith)),
        λ (k, s). let none_in = free.1 (λ u l r. s u (omega arith)) in ground arith,
      )

  pub chosen_mem : (v : ℕ) → Memᴰ v (qsort (select_from has_none (suc im.max_id) 0)) ↔ IsSource im v
  unfolding IsSource
  chosen_mem v =
      let chosen = select_from_mem has_none (suc im.max_id) 0 v in
      let sorted = same_members (select_from has_none (suc im.max_id) 0) v in
      (
        λ m. let (low, high, t) = chosen.0 (sorted.0 m) in (has_none-IsSource v (omega arith)).0 t,
        λ (h, s). sorted.1 (chosen.1 (omega arith, omega arith, (has_none-IsSource v h).1 (h, s))),
      )

  pub kept_roots :
      (s : ℕ)
      → Memᴰ s (qsort (select_from has_none (suc im.max_id) 0))
      → get_forward_root_vertices qsort im (init_degree im)
        ≡ qsort (select_from has_none (suc im.max_id) 0)
  unfolding get_forward_root_vertices
  kept_roots s m = elim (List-cases (qsort (select_from has_none (suc im.max_id) 0))) [
    | inl e ↦ absurd (Memᴰ.not-nil (subst (Memᴰ s) e m))
    | inr (x, xs, e) ↦ ground arith
  ]

  -- In a graph with a vertex that no edge leads into, `get_forward_root_vertices` over the degrees that
  -- `init_degree` counts gives exactly the vertices that no edge leads into, if qsort keeps the members and
  -- the counts fit a word.
  pub get_forward_root_vertices_lem :
      (s : ℕ)
      → IsSource im s
      → (v : ℕ) → Memᴰ v (get_forward_root_vertices qsort im (init_degree im)) ↔ IsSource im v
  get_forward_root_vertices_lem s source v =
      rw (kept_roots s ((chosen_mem s).1 source)) (chosen_mem v)
