-- ===== src/Reach/Build/Number/Trees.antt =====
-- Matrix/reach.cpp: the edges inside the trees, which `cal_cross_degree` counts and `decode` follows.
use mathlib.Core.List.Memᴰ
use mathlib.Core.List.{foldl}
use mgtag.Prelude.{
  ℕ, zero, suc, ◌+◌, ◌≤◌, ◌<◌, ◌≡◌, ◌↔◌, inl, inr, refl, sym, ap, ◌∙◌, subst, ◌++◌, append-nil,
  append_assoc, Bool, true, false, List, [], ◌∷◌, Memᴰ, Memᴰ-cons, ==_iff, Bool-cases, arith,
  if◌then◌else◌,
}
use mgtag.Reach.Graph.{Image, targets}
use mgtag.Reach.Build.Degrees.{num}
use mgtag.Reach.Build.Counts.{count, edges_into, edges_into-zero}
use mgtag.Reach.Build.Positions.{NoDup}
use mgtag.Reach.Build.Number.{same_tree}

unfoldable pub keep : (ℕ → Bool) → List ℕ → List ℕ
keep test [] = []
keep test (x ∷ xs) = let rest = keep test xs in if test x then x ∷ rest else rest

pub keep_in :
    (test : ℕ → Bool) (x : ℕ) (xs : List ℕ) → test x ≡ true → keep test (x ∷ xs) ≡ x ∷ keep test xs
unfolding keep
keep_in test x xs e = rw e refl

pub keep_out :
    (test : ℕ → Bool) (x : ℕ) (xs : List ℕ) → test x ≡ false → keep test (x ∷ xs) ≡ keep test xs
unfolding keep
keep_out test x xs e = rw e refl

pub Memᴰ-keep :
    (test : ℕ → Bool) (v : ℕ) (xs : List ℕ) → Memᴰ v (keep test xs) ↔ (Memᴰ v xs × (test v ≡ true))
unfolding keep
Memᴰ-keep test v [] = (λ m. absurd (Memᴰ.not-nil m), λ m. absurd (Memᴰ.not-nil m.0))
Memᴰ-keep test v (x ∷ xs) =
    ground (arith, Memᴰ-keep test v xs, Memᴰ-cons v x xs, Memᴰ-cons v x (keep test xs))

-- A loop that passes over what fails the test: what each round keeps of the part that is read holds at the end.
pub keep_rule {ℓ κ} :
    {S : Type ℓ} (test : ℕ → Bool) (step : S → ℕ → S) (P : List ℕ → S → Type κ) (row : List ℕ)
    → ((s : S) (x : ℕ) → test x ≡ false → step s x ≡ s)
    → ((ps rest : List ℕ) (x : ℕ) (s : S)
        → row ≡ ps ++ x ∷ rest
        → test x ≡ true
        → P ps s
        → P (ps ++ x ∷ []) (step s x))
    → (xs ps : List ℕ) (s : S) → row ≡ ps ++ keep test xs
    → P ps s
    → P row (foldl step s xs)
unfolding keep
keep_rule test step P row out one [] ps s shape p =
    subst (λ t. P t s) (sym (shape ∙ append-nil ps)) p
keep_rule test step P row out one (x ∷ xs) ps s shape p =
    let rest = keep test xs in
    elim (Bool-cases (test x)) [
      | inl inside ↦
          let here : row ≡ ps ++ x ∷ rest = shape ∙ ap (λ t. ps ++ t) (keep_in test x xs inside) in
          keep_rule test step P row out one xs (ps ++ x ∷ []) (step s x)
            (here ∙ sym (append_assoc ps (x ∷ []) rest)) (one ps rest x s here inside p)
      | inr outside ↦ rw (out s x outside) (
          keep_rule test step P row out one xs ps s
            (shape ∙ ap (λ t. ps ++ t) (keep_out test x xs outside)) p)
    ]

count-keep_le : (test : ℕ → Bool) (v : ℕ) (xs : List ℕ) → count v (keep test xs) ≤ count v xs
unfolding keep count
count-keep_le test v [] = omega arith
count-keep_le test v (x ∷ xs) = ground (arith, count-keep_le test v xs)

module _ (im : Image) (located : List ℕ) where
  -- where the edges from `u` inside its tree lead
  unfoldable pub tree_row : ℕ → List ℕ
  tree_row u = keep (same_tree im located u) (targets im u)

  pub tree_row_iff :
      (u v : ℕ) → Memᴰ v (tree_row u) ↔ (Memᴰ v (targets im u) × (num located v ≡ num located u))
  unfolding tree_row
  tree_row_iff u v = ground (
    arith,
    Memᴰ-keep (same_tree im located u) v (targets im u),
    ==_iff (num located v) (num located u),
  )

  pub edges_into-tree_row_le :
      (v n i : ℕ) → edges_into tree_row v n i ≤ edges_into (targets im) v n i
  unfolding edges_into tree_row
  edges_into-tree_row_le v zero i = omega arith
  edges_into-tree_row_le v (suc n) i = omega (
    arith,
    count-keep_le (same_tree im located i) v (targets im i),
    edges_into-tree_row_le v n (i + 1),
  )

  -- The layering as `construct_index` leaves it: a tree per root, named by `root + 1`, whose root is the
  -- only vertex that no edge inside the tree leads to.
  pub record IsForest (roots : List ℕ) : Type 0 where
    pub distinct : NoDup roots
    pub vertices : (r : ℕ) → Memᴰ r roots → r ≤ im.max_id
    pub named : (r : ℕ) → Memᴰ r roots → num located r ≡ suc r
    pub sources :
        (v : ℕ) → v ≤ im.max_id → Memᴰ v roots ↔ ((w : ℕ) → w ≤ im.max_id → ¬ Memᴰ v (tree_row w))
    pub rank : ℕ → ℕ
    pub acyclic : (w v : ℕ) → w ≤ im.max_id → Memᴰ v (tree_row w) → rank w < rank v

  -- The roots are the vertices that no edge inside the trees is counted for.
  pub root_iff :
      (roots : List ℕ)
      → IsForest roots
      → (v : ℕ) → v ≤ im.max_id
      → Memᴰ v roots ↔ (edges_into tree_row v (suc im.max_id) 0 ≡ 0)
  root_iff roots forest v h =
      let none = edges_into-zero tree_row v (suc im.max_id) 0 in
      let source = forest.sources v h in
      (
        λ m. none.1 (λ u l less. source.0 m u (omega arith)),
        λ z. source.1 (λ w less. none.0 z w (omega arith) (omega arith)),
      )
