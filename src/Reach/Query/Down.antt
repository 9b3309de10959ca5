-- ===== src/Reach/Query/Down.antt =====
-- Matrix/reach.cpp: `down_layer_to_up_layer_without_cross_located` and `query` end, and decide
-- reachability.
use mathlib.Core.List.Memᴰ
use mgtag.Prelude.{
  ℕ, zero, suc, ◌+◌, ◌≤◌, ◌<◌, ◌≡◌, inl, inr, refl, true, false, List, [], ◌∷◌, some, Memᴰ,
  IsSorted, All, All_mem, Bool-cases, ltb, arith,
}
use mgtag.Reach.Labels.{Labels, layer_of, cross_of}
use mgtag.Reach.Query.{
  Outcome, or_else, same_layer_tree_reach, scan_cross, down_layer_to_up_layer, query,
}
use mgtag.Reach.Query.Laws.{IsId, IsIndex}
use mgtag.Reach.Query.SameTree.{same_tree_sound, same_tree_complete}

-- `out` is an answer, and it is `true` exactly when `P` holds.
pub data Decides (P : Type 0) : Outcome → Type 0 where
  says_true : (cnt : ℕ) → P → Decides P (some (true, cnt))
  says_false : (cnt : ℕ) → ¬ P → Decides P (some (false, cnt))

module _ (lb : Labels) (n : ℕ) {R : ℕ → ℕ → Type 0} (ix : IsIndex lb n R) where
  -- Some entry of `cs` up to `b` leads to `b`.
  abbrev Enters : List ℕ → ℕ → Type 0
  Enters cs b = (c : ℕ) × Memᴰ c cs × R c b

  Enters-cons : (c : ℕ) (cs : List ℕ) (b : ℕ) → ¬ R c b → ¬ Enters cs b → ¬ Enters (c ∷ cs) b
  Enters-cons c cs b no_c no_cs (e, m, r) = elim (Memᴰ.cases_cons m) [
    | inl here ↦ no_c (rw (← here) r)
    | inr later ↦ no_cs (e, later, r)
  ]

  skip :
      (c : ℕ) (cs : List ℕ) (b : ℕ) {out : Outcome}
      → ¬ R c b
      → Decides (Enters cs b) out
      → Decides (Enters (c ∷ cs) b) out
  skip c cs b no_c (says_true cnt (e, m, r)) = says_true cnt (e, Memᴰ.tail m, r)
  skip c cs b no_c (says_false cnt no_cs) = says_false cnt (Enters-cons c cs b no_c no_cs)

  or_else-Decides :
      (c : ℕ) (cs : List ℕ) (b : ℕ) {out : Outcome} (rest : ℕ → Outcome)
      → Decides (R c b) out
      → ((cnt : ℕ) → Decides (Enters cs b) (rest cnt))
      → Decides (Enters (c ∷ cs) b) (or_else out rest)
  or_else-Decides c cs b rest (says_true cnt r) later = says_true cnt (c, Memᴰ.head refl, r)
  or_else-Decides c cs b rest (says_false cnt no_c) later = skip c cs b no_c (later cnt)

  -- All entries from the first above `b` on are above `b`, and no path leads down.
  past_end : (c : ℕ) (cs : List ℕ) (b : ℕ) → b < c → IsSorted (c ∷ cs) → ¬ Enters (c ∷ cs) b
  past_end c cs b above s (e, m, r) = elim (Memᴰ.cases_cons m) [
    | inl here ↦ omega (arith, ix.ascends e b r)
    | inr later ↦ omega (arith, ix.ascends e b r, All_mem (λ y. c ≤ y) cs s.0 later)
  ]

  -- An entry that is not below the layer of `b` reaches `b` only inside its own tree.
  not_in_tree :
      (c b : ℕ) → layer_of lb b ≤ layer_of lb c → same_layer_tree_reach lb c b ≡ false → ¬ R c b
  not_in_tree c b high h r =
      let (_, up) = ix.ascends c b r in
      cc (same_tree_complete lb n ix c b r (ix.stays c b r (omega arith)))

  abbrev IsEntry : ℕ → ℕ → Type 0
  IsEntry low c = IsId n c × (low < layer_of lb c)

  scan_cross-Decides :
      (down : ℕ → ℕ → Outcome) (low b : ℕ)
      → IsId n b
      → ((c cnt : ℕ) → IsEntry low c → layer_of lb c < layer_of lb b → Decides (R c b) (down c cnt))
      → (cs : List ℕ) (cnt : ℕ) → IsSorted cs
      → All (IsEntry low) cs
      → Decides (Enters cs b) (scan_cross lb down cs b cnt)
  unfolding scan_cross
  scan_cross-Decides down low b ib rec [] cnt s ids = says_false cnt (λ (c, m, r). Memᴰ.not-nil m)
  scan_cross-Decides down low b ib rec (c ∷ cs) cnt s ids =
      let later = λ (k : ℕ). scan_cross-Decides down low b ib rec cs k s.1 ids.1 in
      elim (Bool-cases (ltb b c)) [
        | inl above ↦ rw above (says_false cnt (past_end c cs b (ground arith) s))
        | inr upto ↦ rw upto (elim (Bool-cases (ltb (layer_of lb c) (layer_of lb b))) [
          | inl deep ↦
              rw deep (or_else-Decides c cs b _ (rec c (cnt + 1) ids.0 (ground arith)) later)
          | inr high ↦ rw high (elim (Bool-cases (same_layer_tree_reach lb c b)) [
            | inl hit ↦
                let r = same_tree_sound lb n ix c b ids.0.0 ib (ground arith) hit in
                rw hit (says_true cnt (c, Memᴰ.head refl, r))
            | inr miss ↦ rw miss (skip c cs b (not_in_tree c b (ground arith) miss) (later cnt))
          ])
        ])
      ]

  entries :
      (a : ℕ)
      → IsId n a
      → (cs : List ℕ) → ((c : ℕ) → Memᴰ c cs → Memᴰ c (cross_of lb a))
      → All (IsEntry (layer_of lb a)) cs
  entries a ia [] sub = tt
  entries a ia (c ∷ cs) sub =
      let (ic, _, up) = ix.cross_sound a c ia (sub c (Memᴰ.head refl)) in
      ((ic, up), entries a ia cs (λ e m. sub e (Memᴰ.tail m)))

  through :
      (a b : ℕ) {out : Outcome}
      → IsId n a
      → layer_of lb a < layer_of lb b
      → Decides (Enters (cross_of lb a) b) out
      → Decides (R a b) out
  through a b ia low (says_true cnt (c, m, r)) =
      says_true cnt (ix.trans a c b (ix.cross_sound a c ia m).1 r)
  through a b ia low (says_false cnt no_entry) =
      says_false cnt (λ r. no_entry (ix.cross_complete a b r low))

  -- The recursion is at most as deep as there are layers from `a` up to `b`.
  down-Decides :
      (fuel a b cnt : ℕ)
      → IsId n a
      → IsId n b
      → layer_of lb a < layer_of lb b
      → layer_of lb b ≤ layer_of lb a + fuel
      → Decides (R a b) (down_layer_to_up_layer lb fuel a b cnt)
  unfolding down_layer_to_up_layer
  down-Decides zero a b cnt ia ib low enough = absurd (omega arith)
  down-Decides (suc fuel) a b cnt ia ib low enough = through a b ia low (
      scan_cross-Decides _ (layer_of lb a) b ib
        (λ c k (ic, up) deep. down-Decides fuel c b k ic ib deep (omega arith)) (cross_of lb a) cnt
        (ix.cross_sorted a) (entries a ia (cross_of lb a) (λ c m. m)))

  same_layer-Decides :
      (a b cnt : ℕ)
      → IsId n a
      → IsId n b
      → a ≤ b
      → layer_of lb b ≤ layer_of lb a
      → Decides (R a b) (some (same_layer_tree_reach lb a b, cnt))
  same_layer-Decides a b cnt ia ib le high = elim (Bool-cases (same_layer_tree_reach lb a b)) [
    | inl hit ↦ rw hit (says_true cnt (same_tree_sound lb n ix a b ia ib le hit))
    | inr miss ↦ rw miss (says_false cnt (not_in_tree a b high miss))
  ]

  -- Over an index that meets its laws, `query` ends on new ids `a ≤ b`, and answers `true` exactly
  -- when the vertex of `a` reaches that of `b`.
  pub query-Decides :
      (a b cnt : ℕ) → IsId n a → IsId n b → a ≤ b → Decides (R a b) (query lb a b cnt)
  unfolding query
  query-Decides a b cnt ia ib le = elim (Bool-cases (ltb (layer_of lb a) (layer_of lb b))) [
    | inl low ↦ rw low (down-Decides (layer_of lb b) a b cnt ia ib (ground arith) (omega arith))
    | inr high ↦ rw high (same_layer-Decides a b cnt ia ib le (ground arith))
  ]
