-- ===== src/Reach/Build/Counts.antt =====
-- Matrix/reach.cpp: `init_degree` counts the edges.
use mathlib.Core.List.Memᴰ
use mgtag.Prelude.{
  Memᴰ, Memᴰ-cons, ◌↔◌, subst, ℕ, zero, suc, ◌+◌, ◌%◌, ◌^◌, ◌≤◌, ◌<◌, ◌≡◌, ◌≢◌, inl, inr, refl,
  true, false, List, [], ◌∷◌, ◌++◌, length, length-set, length-replicate, get_or-set_self,
  get_or-set_ne, get_or-replicate, set, replicate, ◌==◌, Bool-cases, arith, if◌then◌else◌,
}
use mathlib.Core.List.{foldl}
use mgtag.Reach.Graph.{Image, targets}
use mgtag.Reach.Build.Degrees.{Degrees, inc32, num, count_edge, count_row, count_rows, init_degree}

-- how often `v` stands in a list
unfoldable pub count : ℕ → List ℕ → ℕ
count v [] = 0
count v (x ∷ xs) = let rest = count v xs in if x == v then suc rest else rest

-- the edges into `v` from the `n` vertices from `i` on
unfoldable pub edges_into : (ℕ → List ℕ) → ℕ → ℕ → ℕ → ℕ
edges_into row v zero i = 0
edges_into row v (suc n) i = count v (row i) + edges_into row v n (i + 1)

count_here :
    (v x : ℕ) (xs : List ℕ) (m : ℕ)
    → (x == v) ≡ true
    → m + count v (x ∷ xs) < 2 ^ 32
    → m + suc (count v xs) < 2 ^ 32
unfolding count
count_here v x xs m e h = ground arith

count_there :
    (v x : ℕ) (xs : List ℕ) (m : ℕ)
    → (x == v) ≡ false
    → m + count v (x ∷ xs) < 2 ^ 32
    → m + count v xs < 2 ^ 32
unfolding count
count_there v x xs m e h = ground arith

-- adding up the targets of one row
fold_counts :
    (vs : List ℕ) (d : Degrees) (v : ℕ)
    → v < length d.indeg
    → num d.indeg v + count v vs < 2 ^ 32
    → (num (foldl count_edge d vs).indeg v ≡ num d.indeg v + count v vs)
      × ((foldl count_edge d vs).outdeg ≡ d.outdeg)
      × (length (foldl count_edge d vs).indeg ≡ length d.indeg)
unfolding count
fold_counts [] d v h small = (omega arith, refl, refl)
fold_counts (x ∷ xs) d v h small =
    let kept = length-set d.indeg x (inc32 (num d.indeg x)) in
    elim (Bool-cases (x == v)) [
      | inl same ↦
          let e : x ≡ v = ground arith in
          let now : num (count_edge d x).indeg v ≡ (num d.indeg v + 1) % 2 ^ 32 =
            rw e (get_or-set_self d.indeg v (inc32 (num d.indeg v)) 0 h) in
          let less : num d.indeg v + suc (count v xs) < 2 ^ 32 = count_here v x xs _ same small in
          let next : num (count_edge d x).indeg v ≡ num d.indeg v + 1 = omega arith in
          let (c, o, l) = fold_counts xs (count_edge d x) v (omega arith) (omega arith) in
          rw same (omega arith, o, omega arith)
      | inr other ↦
          let next : num (count_edge d x).indeg v ≡ num d.indeg v =
            get_or-set_ne d.indeg x v (inc32 (num d.indeg x)) 0 (ground arith) in
          let less : num d.indeg v + count v xs < 2 ^ 32 = count_there v x xs _ other small in
          let (c, o, l) = fold_counts xs (count_edge d x) v (omega arith) (omega arith) in
          rw other (omega arith, o, omega arith)
    ]

count_row_lem :
    (im : Image) (i : ℕ) (d : Degrees) (v : ℕ)
    → v < length d.indeg
    → num d.indeg v + count v (targets im i) < 2 ^ 32
    → (num (count_row im i d).indeg v ≡ num d.indeg v + count v (targets im i))
      × ((count_row im i d).outdeg ≡ set d.outdeg i (length (targets im i)))
      × (length (count_row im i d).indeg ≡ length d.indeg)
unfolding count_row
count_row_lem im i d v h small =
    fold_counts (targets im i) (record d { outdeg = set d.outdeg i (length (targets im i)) }) v h
      small

count_rows_indeg :
    (im : Image) (n i : ℕ) (d : Degrees) (v : ℕ)
    → v < length d.indeg
    → num d.indeg v + edges_into (targets im) v n i < 2 ^ 32
    → num (count_rows im n i d).indeg v ≡ num d.indeg v + edges_into (targets im) v n i
unfolding count_rows edges_into
count_rows_indeg im zero i d v h small = omega arith
count_rows_indeg im (suc n) i d v h small =
    let (c, o, l) = count_row_lem im i d v h (omega arith) in
    let rest = count_rows_indeg im n (i + 1) (count_row im i d) v (omega arith) (omega arith) in
    omega arith

-- `init_degree` counts for each vertex the edges into it, while these are fewer than 2^32.
pub init_degree_lem :
    (im : Image) (v : ℕ)
    → v ≤ im.max_id
    → edges_into (targets im) v (suc im.max_id) 0 < 2 ^ 32
    → num (init_degree im).indeg v ≡ edges_into (targets im) v (suc im.max_id) 0
unfolding init_degree
init_degree_lem im v h small =
    let n = suc im.max_id in
    let none_yet : ℕ = 0 in
    let empty : num (replicate n none_yet) v ≡ 0 = get_or-replicate n none_yet v in
    let size : length (replicate n none_yet) ≡ n = length-replicate n none_yet in
    let all =
      count_rows_indeg im n 0 (record { indeg = replicate n 0; outdeg = replicate n 0 }) v
        (omega arith) (omega arith) in
    omega arith

pub count-none : (v : ℕ) (xs : List ℕ) → count v xs ≡ 0 → ¬ Memᴰ v xs
unfolding count
count-none v [] e m = Memᴰ.not-nil m
count-none v (x ∷ xs) e m = ground (arith, Memᴰ-cons v x xs, count-none v xs)

pub none-count : (v : ℕ) (xs : List ℕ) → ¬ Memᴰ v xs → count v xs ≡ 0
unfolding count
none-count v [] h = refl
none-count v (x ∷ xs) h =
    let other : (x == v) ≡ false = head_apart in rw other (none-count v xs (λ m. h (Memᴰ.tail m)))
  where
    head_apart : (x == v) ≡ false
    head_apart = elim (Bool-cases (x == v)) [
      | inl e ↦ absurd (h (Memᴰ.head (ground arith)))
      | inr e ↦ e
    ]

-- No edge leads into `v` exactly when the count is 0.
pub edges_into-zero :
    (row : ℕ → List ℕ) (v n i : ℕ)
    → (edges_into row v n i ≡ 0) ↔ ((u : ℕ) → i ≤ u → u < i + n → ¬ Memᴰ v (row u))
unfolding edges_into
edges_into-zero row v zero i = (λ e u l h. absurd (omega arith), λ h. refl)
edges_into-zero row v (suc n) i =
    let rest = edges_into-zero row v n (i + 1) in
    (
      λ e u l h. elim (Bool-cases (i == u)) [
        | inl same ↦
            subst (λ k. ¬ Memᴰ v (row k)) (ground arith) (count-none v (row i) (omega arith))
        | inr other ↦
            let apart : i ≢ u = ground arith in rest.0 (omega arith) u (omega arith) (omega arith)
      ],
      λ h.
          let first = none-count v (row i) (h i (omega arith) (omega arith)) in
          let others = rest.1 (λ u l k. h u (omega arith) (omega arith)) in omega arith,
    )

pub count-append : (v : ℕ) (xs ys : List ℕ) → count v (xs ++ ys) ≡ count v xs + count v ys
unfolding count
count-append v [] ys = omega arith
count-append v (x ∷ xs) ys = ground (arith, count-append v xs ys)

pub count_own : (x : ℕ) → count x (x ∷ []) ≡ 1
unfolding count
count_own x = ground arith

pub count_other : (v x : ℕ) → x ≢ v → count v (x ∷ []) ≡ 0
unfolding count
count_other v x h = ground arith

count_some : (v : ℕ) (xs : List ℕ) → count v xs ≢ 0 → Memᴰ v xs
unfolding count
count_some v [] h = absurd (h refl)
count_some v (x ∷ xs) h = elim (Bool-cases (x == v)) [
  | inl same ↦ Memᴰ.head (ground arith)
  | inr other ↦ Memᴰ.tail (count_some v xs (λ z. h (rw other z)))
]

-- If edges lead into `v`, one of them can be found.
pub edges_into_some :
    (row : ℕ → List ℕ) (v n i : ℕ)
    → edges_into row v n i ≢ 0
    → (u : ℕ) × (i ≤ u) × (u < i + n) × Memᴰ v (row u)
unfolding edges_into
edges_into_some row v zero i h = absurd (h refl)
edges_into_some row v (suc n) i h = elim (Bool-cases (count v (row i) == 0)) [
  | inl none ↦
      let (u, l, k, m) = edges_into_some row v n (i + 1) (ground (arith, h)) in
      (u, omega arith, omega arith, m)
  | inr some ↦ (i, omega arith, omega arith, count_some v (row i) (ground arith))
]
