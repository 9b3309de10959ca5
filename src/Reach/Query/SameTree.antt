-- ===== src/Reach/Query/SameTree.antt =====
-- Matrix/reach.cpp: `same_layer_tree_reach` decides reachability inside one tree.
use mathlib.Core.List.Memᴰ
use mgtag.Prelude.{
  ℕ, ◌≤◌, ◌≡◌, ◌↔◌, inl, inr, refl, true, List, [], ◌∷◌, Memᴰ, IsSorted, All_mem, Bool-cases, leb,
  ltb, arith,
}
use mgtag.Reach.Labels.{Labels, tree_of, end_of, excp_of}
use mgtag.Reach.Query.{scan_excp, same_layer_tree_reach}
use mgtag.Reach.Query.Laws.{IsId, IsIndex}

-- The loop stops at the first entry above `id2`: in an ascending list nothing is missed.
scan_excp_finds :
    (lb : Labels) (es : List ℕ) (b e : ℕ)
    → IsSorted es
    → Memᴰ e es
    → e ≤ b
    → end_of lb b ≤ end_of lb e
    → scan_excp lb es b ≡ true
unfolding scan_excp
scan_excp_finds lb [] b e s m le h = absurd (Memᴰ.not-nil m)
scan_excp_finds lb (x ∷ es) b e s m le h = elim (Memᴰ.cases_cons m) [
  | inl here ↦ ground arith
  | inr later ↦
      ground (arith, All_mem (λ y. x ≤ y) es s.0 later, scan_excp_finds lb es b e s.1 later)
]

-- What the loop answers `true` for lies in the interval of an entry.
scan_excp_found :
    (lb : Labels) (es : List ℕ) (b : ℕ)
    → scan_excp lb es b ≡ true
    → (e : ℕ) × Memᴰ e es × (e ≤ b) × (end_of lb b ≤ end_of lb e)
unfolding scan_excp
scan_excp_found lb [] b h = cc
scan_excp_found lb (x ∷ es) b h = elim (Bool-cases (ltb b x)) [
  | inl above ↦ ground arith
  | inr below ↦ elim (Bool-cases (leb (end_of lb b) (end_of lb x))) [
    | inl hit ↦ (x, Memᴰ.head refl, ground arith, ground arith)
    | inr miss ↦
        let (e, m, le, en) = scan_excp_found lb es b (ground arith) in (e, Memᴰ.tail m, le, en)
  ]
]

module _ (lb : Labels) (n : ℕ) {R : ℕ → ℕ → Type 0} (ix : IsIndex lb n R) where
  pub same_tree_sound :
      (a b : ℕ) → IsId n a → IsId n b → a ≤ b → same_layer_tree_reach lb a b ≡ true → R a b
  unfolding same_layer_tree_reach
  same_tree_sound a b ia ib le h = elim (Bool-cases (leb (end_of lb b) (end_of lb a))) [
    | inl inside ↦ ix.nested a b ia ib (ground arith) le (ground arith)
    | inr outside ↦
        let (e, m, le_e, en) = scan_excp_found lb (excp_of lb a) b (ground arith) in
        let (ie, r, t) = ix.excp_sound a e ia m in
        ix.trans a e b r (ix.nested e b ie ib (ground arith) le_e en)
  ]

  pub same_tree_complete :
      (a b : ℕ) → R a b → tree_of lb a ≡ tree_of lb b → same_layer_tree_reach lb a b ≡ true
  unfolding same_layer_tree_reach
  same_tree_complete a b r t = elim (ix.excp_complete a b r t) [
    | inl inside ↦ ground arith
    | inr (e, m, le, en) ↦
        ground (arith, scan_excp_finds lb (excp_of lb a) b e (ix.excp_sorted a) m le en)
  ]

  -- Between two new ids `a ≤ b` of one tree the answer is `true` exactly when `a` reaches `b`, and
  -- between two trees it is `false`.
  pub same_layer_tree_reach_lem :
      (a b : ℕ)
      → IsId n a
      → IsId n b
      → a ≤ b
      → (same_layer_tree_reach lb a b ≡ true) ↔ (R a b × (tree_of lb a ≡ tree_of lb b))
  unfolding same_layer_tree_reach
  same_layer_tree_reach_lem a b ia ib le =
      (λ h. (same_tree_sound a b ia ib le h, ground arith), λ (r, t). same_tree_complete a b r t)
