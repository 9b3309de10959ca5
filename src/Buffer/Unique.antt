-- ===== src/Buffer/Unique.antt =====
-- TripleBit/EntityIDBuffer.cpp: `uniqe`, which keeps the first of equal records that follow one another.
use mgtag.Prelude.{
  IsSorted, ℕ, zero, suc, ◌≤◌, ◌<◌, ◌≡◌, ◌↔◌, inl, inr, refl, ap, ◌∙◌, ◌/◌, List, [], ◌∷◌, ◌++◌,
  none, Memᴰ, Memᴰ-cons, All, All_mem, length, get_or, take, drop, ◌==◌, ◌&&◌, ◌||◌, Bool-cases,
  arith, if◌then◌else◌,
}
use mgtag.Compact.{copy_to}
use mgtag.Compact.Laws.{take-copy_to, get_or-copy_to}
use mgtag.Buffer.{Buffer, contents, get_size}
use mgtag.Buffer.Insert.{IsAlloc}
use mgtag.Buffer.Union.{Ascending}

-- what the loop writes to `temp`, of `n` records of `k` IDs, one or two, after the record `r0`, `r1`
unfoldable pub unique_from : ℕ → ℕ → List ℕ → ℕ → ℕ → List ℕ
unique_from k zero reader r0 r1 = []
unique_from k (suc n) reader r0 r1 =
    let a = get_or reader 0 0 in
    let b = if k == 1 then r1 else get_or reader 1 0 in
    let again = unique_from k n (drop k reader) r0 r1 in
    let next = unique_from k n (drop k reader) a b in
    if (r0 == a) && ((k == 1) || (r1 == b)) then again else take k reader ++ next

-- The block is a new one; `usedSize` stays as it was. The flag `unique` is never read.
unfoldable pub uniqe : (ℕ → List ℕ) → Buffer → Buffer
uniqe alloc b = record b {
  cells = copy_to (alloc b.total_size) 0 (unique_from b.id_count (get_size b) b.cells 0 0);
  p = none;
}

All-lt : {x y : ℕ} (zs : List ℕ) → x < y → All (λ z. y < z) zs → All (λ z. x < z) zs
All-lt [] h a = tt
All-lt (z ∷ zs) h a = (omega arith, All-lt zs h a.1)

All-zero_le : (zs : List ℕ) → All (λ z. 0 ≤ z) zs
All-zero_le [] = tt
All-zero_le (z ∷ zs) = (omega arith, All-zero_le zs)

unique_from-Ascending :
    (n r s : ℕ) (cells : List ℕ)
    → n ≤ length cells
    → All (λ y. r ≤ y) (take n cells)
    → IsSorted (take n cells)
    → Ascending (unique_from 1 n cells r s)
      × All (λ y. r < y) (unique_from 1 n cells r s)
      × (length (unique_from 1 n cells r s) ≤ n)
unfolding unique_from
unique_from-Ascending zero r s cells h a o = (tt, tt, omega arith)
unique_from-Ascending (suc n) r s [] h a o = absurd (omega arith)
unique_from-Ascending (suc n) r s (x ∷ cells) h a o = elim (Bool-cases (r == x)) [
  | inl e ↦
      let rest = unique_from-Ascending n r s cells (omega arith) a.1 o.1 in
      rw e (rest.0, rest.1, omega (arith, rest.2))
  | inr e ↦
      let low : r < x = ground (arith, a.0) in
      let (rest, above, short) = unique_from-Ascending n x s cells (omega arith) o.0 o.1 in
      rw e ((above, rest), (low, All-lt _ low above), omega arith)
]

unique_from_mem :
    (n r s x : ℕ) (cells : List ℕ)
    → n ≤ length cells
    → Memᴰ x (r ∷ unique_from 1 n cells r s) ↔ Memᴰ x (r ∷ take n cells)
unfolding unique_from
unique_from_mem zero r s x cells h = (λ m. m, λ m. m)
unique_from_mem (suc n) r s x [] h = absurd (omega arith)
unique_from_mem (suc n) r s x (y ∷ cells) h = elim (Bool-cases (r == y)) [
  | inl e ↦
      let same : r ≡ y = ground arith in
      let rest = unique_from_mem n r s x cells (omega arith) in
      let cons = Memᴰ-cons x r (y ∷ take n cells) in
      let two = Memᴰ-cons x y (take n cells) in
      let one = Memᴰ-cons x r (take n cells) in rw e (ground arith)
  | inr e ↦
      let rest = unique_from_mem n y s x cells (omega arith) in
      let left = Memᴰ-cons x r (y ∷ unique_from 1 n cells y s) in
      let right = Memᴰ-cons x r (y ∷ take n cells) in rw e (ground arith)
]

-- On ascending IDs above 0, uniqe writes the IDs in strictly ascending order to the front of a new block, but
-- the size stays as it was: the cells behind them, which the block came with, count as IDs as well.
pub uniqe_lem :
    (alloc : ℕ → List ℕ) (b : Buffer)
    → IsAlloc alloc
    → b.id_count ≡ 1
    → length b.cells ≡ b.total_size
    → b.used_size ≤ b.total_size
    → IsSorted (contents b)
    → All (λ x. 0 < x) (contents b)
    → (us : List ℕ) × Ascending us
      × ((x : ℕ) → Memᴰ x us ↔ Memᴰ x (contents b))
      × (take (length us) (uniqe alloc b).cells ≡ us)
      × (length us ≤ (uniqe alloc b).used_size)
      × ((uniqe alloc b).used_size ≡ b.used_size)
      × ((i : ℕ)
          → length us ≤ i
          → get_or (uniqe alloc b).cells i 0 ≡ get_or (alloc b.total_size) i 0)
unfolding uniqe
uniqe_lem alloc b law one size room sorted positive =
    let us = unique_from 1 b.used_size b.cells 0 0 in
    let (ascending, above, short) =
      unique_from-Ascending b.used_size 0 0 b.cells (omega arith) (All-zero_le (contents b))
        sorted in
    let written : unique_from b.id_count (get_size b) b.cells 0 0 ≡ us =
      ap (λ k. unique_from k (b.used_size / k) b.cells 0 0) one
      ∙ ap (λ n. unique_from 1 n b.cells 0 0) (omega arith) in
    (
      us,
      ascending,
      λ x.
          let same = unique_from_mem b.used_size 0 0 x b.cells (omega arith) in
          let left = Memᴰ-cons x 0 us in
          let right = Memᴰ-cons x 0 (contents b) in
          let nonzero = All_mem (λ y. 0 < y) us {a = x} above in
          let positive_at = All_mem (λ y. 0 < y) (contents b) {a = x} positive in ground arith,
      rw written (
          ap (λ n. take n (copy_to (alloc b.total_size) 0 us)) (omega arith)
          ∙ take-copy_to (alloc b.total_size) 0 us (omega (arith, law b.total_size))),
      short,
      refl,
      λ i h. rw written (get_or-copy_to (alloc b.total_size) 0 i us (omega (arith, h))),
    )
