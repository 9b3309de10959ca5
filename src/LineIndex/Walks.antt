-- ===== src/LineIndex/Walks.antt =====
-- TripleBit/LineHashIndex.cpp: where `searchChunk` settles, from whatever entry its loop stops at.
use mgtag.Prelude.{
  ℕ, zero, suc, ◌+◌, ◌-◌, ◌/◌, ◌≤◌, ◌<◌, ◌≡◌, ◌⊎◌, inl, inr, refl, some, ltb, leb, ◌==◌, ◌&&◌, ◌||◌,
  Bool-cases, arith,
}
use mgtag.LineIndex.{Stop, at, met, halve, guess, walk_down, walk_up, settle}

-- the last entry below the ID, or the first entry of all; those behind it are not below the ID
pub record IsChunk (key : ℕ → ℕ) (size id r : ℕ) : Type 0 where
  pub inside : r < size
  pub below : (r ≡ 0) ⊎ (key r < id)
  pub above : (i : ℕ) → r < i → i < size → id ≤ key i

module _ (key : ℕ → ℕ) (size id : ℕ) (ascend : (a b : ℕ) → a ≤ b → b < size → key a ≤ key b) where
  walk_down-IsChunk :
      (r : ℕ)
      → r < size
      → ((i : ℕ) → r < i → i < size → id ≤ key i)
      → IsChunk key size id (walk_down key id r)
  unfolding walk_down
  walk_down-IsChunk zero h a = record { inside = h; below = inl refl; above = a }
  walk_down-IsChunk (suc r) h a = elim (Bool-cases (leb id (key (suc r)))) [
    | inl e ↦ rw e (
        walk_down-IsChunk r (omega arith) (λ i l u. elim (Bool-cases (i == suc r)) [
          | inl same ↦ let at_r : i ≡ suc r = ground arith in rw at_r (ground arith)
          | inr other ↦ a i (ground arith) u
        ]))
    | inr e ↦ rw e (record { inside = h; below = inr (ground arith); above = a })
  ]

  walk_up-IsChunk :
      (n r : ℕ)
      → n + r + 1 ≡ size
      → (r ≡ 0) ⊎ (key r < id)
      → IsChunk key size id (walk_up key id n r)
  unfolding walk_up
  walk_up-IsChunk zero r h b = record {
    inside = omega arith;
    below = b;
    above = λ i l u. absurd (omega arith);
  }
  walk_up-IsChunk (suc n) r h b = elim (Bool-cases (ltb (key r) id && ltb (key (r + 1)) id)) [
    | inl e ↦ rw e (walk_up-IsChunk n (r + 1) (omega arith) (inr (ground arith)))
    | inr e ↦ rw e (record {
      inside = omega arith;
      below = b;
      above = λ i l u. ground (arith, ascend r i (omega arith) u, ascend (r + 1) i (omega arith) u);
    })
  ]

  pub settle-IsChunk : (r : ℕ) → r < size → IsChunk key size id (settle key id size r)
  unfolding settle
  settle-IsChunk r h = elim (Bool-cases (leb id (key r) && ltb 0 r)) [
    | inl e ↦ rw e (
        walk_down-IsChunk (r - 1) (omega arith)
          (λ i l u. ground (arith, ascend r i (ground arith) u)))
    | inr e ↦ rw e (walk_up-IsChunk (size - 1 - r) r (omega arith) (ground arith))
  ]

module _ (key : ℕ → ℕ) (size id : ℕ) where
  guess_met : (low : ℕ) → low < size → guess key id (met low) < size
  unfolding guess
  guess_met low h = ground arith

  guess_at : (mid : ℕ) → mid < size → guess key id (at mid) < size
  unfolding guess
  guess_at mid h = ground arith

  -- The loop ends, and what it leads to is an entry of the table.
  pub halve-guess :
      (fuel low high : ℕ)
      → low ≤ high
      → high < size
      → high - low < fuel
      → (stop : Stop) × (halve key id fuel low high ≡ some stop) × (guess key id stop < size)
  unfolding halve
  halve-guess zero low high l h f = absurd (omega arith)
  halve-guess (suc fuel) low high l h f =
      let mid = low + (high - low) / 2 in
      elim (Bool-cases (low == high)) [
        | inl e ↦ rw e (met low, refl, guess_met low (omega arith))
        | inr e ↦
            let apart : low < high = ground arith in
            elim (Bool-cases (ltb (key mid) id)) [
              | inl r ↦ rw (e, r) (halve-guess fuel (mid + 1) high (omega arith) h (omega arith))
              | inr r ↦ elim (Bool-cases ((mid == 0) || ltb (key (mid - 1)) id)) [
                | inl m ↦ rw (e, r, m) (at mid, refl, guess_at mid (omega arith))
                | inr m ↦
                    rw (e, r, m)
                      (halve-guess fuel low mid (omega arith) (omega arith) (omega arith))
              ]
            ]
      ]
