-- ===== src/Reach/Build/Sums.antt =====
-- Matrix/reach.cpp: how many of the edges into a vertex come from a set of vertices, for `pre_process`.
use mathlib.Core.List.Memᴰ
use mgtag.Prelude.{
  ℕ, zero, suc, ◌+◌, ◌≤◌, ◌<◌, ◌≡◌, ◌≢◌, ◌↔◌, inl, inr, refl, Bool, true, false, List, [], ◌∷◌,
  Memᴰ, Memᴰ-cons, ◌==◌, Bool-cases, arith, if◌then◌else◌,
}
use mgtag.Reach.Build.Counts.{count, edges_into, count-none}

unfoldable pub elem : ℕ → List ℕ → Bool
elem x [] = false
elem x (y ∷ ys) = let rest = elem x ys in if y == x then true else rest

pub elem_iff : (x : ℕ) (ys : List ℕ) → (elem x ys ≡ true) ↔ Memᴰ x ys
unfolding elem
elem_iff x [] = (λ e. cc, λ m. absurd (Memᴰ.not-nil m))
elem_iff x (y ∷ ys) = ground (arith, Memᴰ-cons x y ys, elem_iff x ys)

-- the edges into `v` from those of the `n` vertices from `i` on that are in `ws`
unfoldable pub edges_from : (ℕ → List ℕ) → ℕ → List ℕ → ℕ → ℕ → ℕ
edges_from row v ws zero i = 0
edges_from row v ws (suc n) i =
    let rest = edges_from row v ws n (i + 1) in if elem i ws then count v (row i) + rest else rest

pub edges_from-nil : (row : ℕ → List ℕ) (v n i : ℕ) → edges_from row v [] n i ≡ 0
unfolding edges_from elem
edges_from-nil row v zero i = refl
edges_from-nil row v (suc n) i = edges_from-nil row v n (i + 1)

pub edges_from_le :
    (row : ℕ → List ℕ) (v : ℕ) (ws : List ℕ) (n i : ℕ)
    → edges_from row v ws n i ≤ edges_into row v n i
unfolding edges_from edges_into
edges_from_le row v ws zero i = omega arith
edges_from_le row v ws (suc n) i = ground (arith, edges_from_le row v ws n (i + 1))

pub elem-cons : (i x : ℕ) (ws : List ℕ) → x ≢ i → elem i (x ∷ ws) ≡ elem i ws
unfolding elem
elem-cons i x ws h = ground arith

pub elem-head : (x : ℕ) (ws : List ℕ) → elem x (x ∷ ws) ≡ true
unfolding elem
elem-head x ws = ground arith

edges_from-before :
    (row : ℕ → List ℕ) (v x : ℕ) (ws : List ℕ) (n i : ℕ)
    → x < i
    → edges_from row v (x ∷ ws) n i ≡ edges_from row v ws n i
unfolding edges_from
edges_from-before row v x ws zero i h = refl
edges_from-before row v x ws (suc n) i h =
    rw (elem-cons i x ws (omega arith), edges_from-before row v x ws n (i + 1) (omega arith)) refl

pub edges_from-cons :
    (row : ℕ → List ℕ) (v x : ℕ) (ws : List ℕ) (n i : ℕ)
    → i ≤ x
    → x < i + n
    → elem x ws ≡ false
    → edges_from row v (x ∷ ws) n i ≡ count v (row x) + edges_from row v ws n i
unfolding edges_from
edges_from-cons row v x ws zero i l h e = absurd (omega arith)
edges_from-cons row v x ws (suc n) i l h e = elim (Bool-cases (x == i)) [
  | inl same ↦
      let q : i ≡ x = ground arith in
      let later = edges_from-before row v x ws n (i + 1) (omega arith) in
      rw (later, q, elem-head, e) refl
  | inr other ↦
      let q : x ≢ i = ground arith in
      let rest = edges_from-cons row v x ws n (i + 1) (omega arith) (omega arith) e in
      rw (elem-cons i x ws q, rest) (ground arith)
]

-- A vertex that is not in `ws` adds its edges to theirs.
pub edges_from_room :
    (row : ℕ → List ℕ) (v x : ℕ) (ws : List ℕ) (n : ℕ)
    → x < n
    → elem x ws ≡ false
    → edges_from row v ws n 0 + count v (row x) ≤ edges_into row v n 0
edges_from_room row v x ws n h e = omega (
  arith,
  edges_from-cons row v x ws n 0 (omega arith) (omega arith) e,
  edges_from_le row v (x ∷ ws) n 0,
)

-- If all edges into `v` come from `ws`, it holds the start of each.
pub edges_from_all :
    (row : ℕ → List ℕ) (v w : ℕ) (ws : List ℕ) (n : ℕ)
    → w < n
    → edges_into row v n 0 ≤ edges_from row v ws n 0
    → Memᴰ v (row w)
    → Memᴰ w ws
edges_from_all row v w ws n h all m = elim (Bool-cases (elem w ws)) [
  | inl e ↦ (elem_iff w ws).0 e
  | inr e ↦
      let room = edges_from_room row v w ws n h e in absurd (count-none v (row w) (omega arith) m)
]
