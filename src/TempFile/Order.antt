-- ===== src/TempFile/Order.antt =====
-- TripleBit/TempFile.cpp: the comparisons order pairs of IDs that `writeId` wrote.
use mgtag.Prelude.{
  ℕ, ◌^◌, ◌<◌, ◌≡◌, ◌↔◌, ◌⊎◌, refl, sym, ap, ◌∙◌, List, [], ◌++◌, some, append-nil, arith,
}
use mgtag.TempFile.{
  Sign, less, same, read_id, read_pair, order12, order21, on_pairs, compare12, compare21,
}
use mgtag.TempFile.Writes.{bytes_of, read_id-bytes_of}

-- the bytes of a pair of IDs
abbrev pub pair_bytes : ℕ → ℕ → List ℕ
pair_bytes a b = bytes_of 4 a ++ bytes_of 4 b

read_pair-pair_bytes :
    (a b : ℕ) → a < 2 ^ 32 → b < 2 ^ 32 → read_pair (pair_bytes a b) ≡ some (a, b)
unfolding read_pair
read_pair-pair_bytes a b ha hb =
    let first = read_id-bytes_of a (bytes_of 4 b) ha in
    let second : read_id (bytes_of 4 b) ≡ some (b, []) =
      ap read_id (sym (append-nil (bytes_of 4 b))) ∙ read_id-bytes_of b [] hb in
    ground arith

on_pairs_lem :
    (order : ℕ × ℕ → ℕ × ℕ → Sign) (a b c d : ℕ)
    → a < 2 ^ 32
    → b < 2 ^ 32
    → c < 2 ^ 32
    → d < 2 ^ 32
    → on_pairs order (pair_bytes a b) (pair_bytes c d) ≡ some (order (a, b) (c, d))
unfolding on_pairs
on_pairs_lem order a b c d ha hb hc hd =
    let left = read_pair-pair_bytes a b ha hb in
    let right = read_pair-pair_bytes c d hc hd in ground arith

order12_iff :
    (a b c d : ℕ)
    → ((order12 (a, b) (c, d) ≡ less) ↔ ((a < c) ⊎ ((a ≡ c) × (b < d))))
      × ((order12 (a, b) (c, d) ≡ same) ↔ ((a ≡ c) × (b ≡ d)))
unfolding order12
order12_iff a b c d = (ground arith, ground arith)

some_inj : (x y : Sign) → some x ≡ some y → x ≡ y
some_inj x y e = ground arith

-- On pairs that `writeId` wrote, `compare12` is -1 where the first pair is lexicographically below the
-- second, and 0 exactly where they are equal.
pub compare12_lem :
    (a b c d : ℕ)
    → a < 2 ^ 32
    → b < 2 ^ 32
    → c < 2 ^ 32
    → d < 2 ^ 32
    → ((compare12 (pair_bytes a b) (pair_bytes c d) ≡ some less) ↔ ((a < c) ⊎ ((a ≡ c) × (b < d))))
      × ((compare12 (pair_bytes a b) (pair_bytes c d) ≡ some same) ↔ ((a ≡ c) × (b ≡ d)))
unfolding compare12
compare12_lem a b c d ha hb hc hd =
    let run = on_pairs_lem order12 a b c d ha hb hc hd in
    let (lower, equal) = order12_iff a b c d in
    (
      (λ e. lower.0 (some_inj _ _ (sym run ∙ e)), λ h. run ∙ ap some (lower.1 h)),
      (λ e. equal.0 (some_inj _ _ (sym run ∙ e)), λ h. run ∙ ap some (equal.1 h)),
    )

order21-order12 : (a b c d : ℕ) → order21 (a, b) (c, d) ≡ order12 (b, a) (d, c)
unfolding order21 order12
order21-order12 a b c d = refl

-- `compare21` orders pairs as `compare12` orders them with their IDs exchanged.
pub compare21_lem :
    (a b c d : ℕ)
    → a < 2 ^ 32
    → b < 2 ^ 32
    → c < 2 ^ 32
    → d < 2 ^ 32
    → compare21 (pair_bytes a b) (pair_bytes c d) ≡ compare12 (pair_bytes b a) (pair_bytes d c)
unfolding compare21 compare12
compare21_lem a b c d ha hb hc hd =
    on_pairs_lem order21 a b c d ha hb hc hd
    ∙ ap some (order21-order12 a b c d)
    ∙ sym (on_pairs_lem order12 b a d c hb ha hd hc)
