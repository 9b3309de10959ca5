-- ===== src/Reach/Build/Unseen.antt =====
-- Matrix/reach.cpp: the vertices that `pre_process` has still to read, which bound its rounds.
use mgtag.Prelude.{
  ℕ, zero, suc, ◌+◌, ◌≤◌, ◌<◌, ◌≡◌, ◌≢◌, inl, inr, subst, refl, ap, sym, [], ◌∷◌, ◌∙◌, true, false,
  List, Memᴰ, ◌==◌, Bool-cases, arith, if◌then◌else◌,
}
use mgtag.Reach.Build.Counts.{edges_into, none-count}
use mgtag.Reach.Build.Sums.{elem, elem_iff, elem-cons, elem-head, edges_from}

-- how many of the `n` vertices from `i` on are not in `seen`
unfoldable pub unseen : List ℕ → ℕ → ℕ → ℕ
unseen seen zero i = 0
unseen seen (suc n) i = let rest = unseen seen n (i + 1) in if elem i seen then rest else suc rest

unseen_le :
    (s s' : List ℕ) (n i : ℕ)
    → ((w : ℕ) → elem w s ≡ true → elem w s' ≡ true)
    → unseen s' n i ≤ unseen s n i
unfolding unseen
unseen_le s s' zero i sub = omega arith
unseen_le s s' (suc n) i sub = ground (arith, unseen_le s s' n (i + 1) sub, sub i)

pub unseen_lt :
    (s s' : List ℕ) (u n i : ℕ)
    → ((w : ℕ) → elem w s ≡ true → elem w s' ≡ true)
    → i ≤ u
    → u < i + n
    → elem u s ≡ false
    → elem u s' ≡ true
    → unseen s' n i < unseen s n i
unfolding unseen
unseen_lt s s' u zero i sub l h e e' = absurd (omega arith)
unseen_lt s s' u (suc n) i sub l h e e' = elim (Bool-cases (i == u)) [
  | inl same ↦
      let q : i ≡ u = ground arith in
      let rest = unseen_le s s' n (i + 1) sub in
      rw (q, e, e') (subst (λ k. unseen s' n (k + 1) < suc (unseen s n (k + 1))) q (omega arith))
  | inr other ↦
      let q : i ≢ u = ground arith in
      let rest = unseen_lt s s' u n (i + 1) sub (omega arith) (omega arith) e e' in
      ground (arith, sub i)
]

pub unseen_bound : (s : List ℕ) (n i : ℕ) → unseen s n i ≤ n
unfolding unseen
unseen_bound s zero i = omega arith
unseen_bound s (suc n) i = ground (arith, unseen_bound s n (i + 1))

pub clash : ¬ (true ≡ false)
clash e = ground arith

pub elem-false : (x : ℕ) (ys : List ℕ) → ¬ Memᴰ x ys → elem x ys ≡ false
elem-false x ys h = elim (Bool-cases (elem x ys)) [
  | inl e ↦ absurd (h ((elem_iff x ys).0 e))
  | inr e ↦ e
]

-- if `seen` holds the start of each edge into `v`, it accounts for all of them
pub edges_from_full :
    (row : ℕ → List ℕ) (v : ℕ) (seen : List ℕ) (n i : ℕ)
    → ((w : ℕ) → i ≤ w → w < i + n → Memᴰ v (row w) → Memᴰ w seen)
    → edges_into row v n i ≡ edges_from row v seen n i
unfolding edges_into edges_from
edges_from_full row v seen zero i all = refl
edges_from_full row v seen (suc n) i all =
    let rest =
      edges_from_full row v seen n (i + 1) (λ w l h m. all w (omega arith) (omega arith) m) in
    elim (Bool-cases (elem i seen)) [
      | inl e ↦ rw e (omega arith)
      | inr e ↦
          let none_here =
            none-count v (row i)
              (λ m. clash (sym ((elem_iff i seen).1 (all i (omega arith) (omega arith) m)) ∙ e)) in
          rw e (omega arith)
    ]

unseen-before : (s : List ℕ) (u n i : ℕ) → u < i → unseen (u ∷ s) n i ≡ unseen s n i
unfolding unseen
unseen-before s u zero i h = refl
unseen-before s u (suc n) i h =
    rw (elem-cons i u s (omega arith), unseen-before s u n (i + 1) (omega arith)) refl

-- A new vertex is one less to read.
pub unseen-cons :
    (s : List ℕ) (u n i : ℕ)
    → i ≤ u
    → u < i + n
    → elem u s ≡ false
    → suc (unseen (u ∷ s) n i) ≡ unseen s n i
unfolding unseen
unseen-cons s u zero i l h e = absurd (omega arith)
unseen-cons s u (suc n) i l h e = elim (Bool-cases (i == u)) [
  | inl same ↦
      let q : i ≡ u = ground arith in
      let later = unseen-before s u n (i + 1) (omega arith) in rw (later, q, elem-head, e) refl
  | inr other ↦
      let q : u ≢ i = ground arith in
      let rest = unseen-cons s u n (i + 1) (omega arith) (omega arith) e in
      rw (elem-cons i u s q) (ground (arith, rest))
]

pub unseen_none :
    (s : List ℕ) (n i : ℕ) → ((w : ℕ) → i ≤ w → w < i + n → Memᴰ w s) → unseen s n i ≡ 0
unfolding unseen
unseen_none s zero i all = refl
unseen_none s (suc n) i all =
    rw
      (
        (elem_iff i s).1 (all i (omega arith) (omega arith)),
        unseen_none s n (i + 1) (λ w l h. all w (omega arith) (omega arith)),
      )
      refl

pub unseen-nil : (n i : ℕ) → unseen [] n i ≡ n
unfolding unseen elem
unseen-nil zero i = refl
unseen-nil (suc n) i = ap suc (unseen-nil n (i + 1))
