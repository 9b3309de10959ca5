-- ===== src/Join/Taken.antt =====
-- TripleBit/SortMergeJoin.cpp: the inner loops of `Merge1` and `Merge2` that take or drop records.
use native.Mathlib.Nat.{mul-le-mul_right}
use mgtag.Prelude.{
  ℕ, zero, suc, ◌+◌, ◌*◌, ◌≤◌, ◌<◌, ◌≡◌, ◌≢◌, inl, inr, sym, subst, ◌∙◌, Bool, true, false, ◌&&◌,
  List, some, length, ltb, ◌==◌, Bool-cases, arith,
}
use mgtag.Compact.{Page, emit}
use mgtag.Compact.Laws.{Compacted, skip-Compacted, emit-Compacted}
use mgtag.Join.{Side, page_cells, key_at, take_equal}
use mgtag.Join.Sides.{Run, Run-stop, Run-step}

module _ (s : Side) (old : List ℕ) (test : ℕ → Bool) (pages : ℕ)
    (even : page_cells ≡ pages * s.id_count) (holds : s.id_count ≤ page_cells)
    (room : s.records * s.id_count ≤ length old) where
  inside_block : (i : ℕ) → i < s.records → i * s.id_count + s.id_count ≤ length old
  inside_block i h =
      let upto : suc i * s.id_count ≤ s.records * s.id_count =
        mul-le-mul_right s.id_count (omega arith) in
      omega arith

  -- The loop passes records that the test drops.
  pub skip_range :
      (d i i' : ℕ) (p : Page)
      → i' ≡ i + d
      → i' ≤ s.records
      → ((a : ℕ) → i ≤ a → a < i' → test a ≡ false)
      → Compacted old page_cells s.id_count test i p
      → Compacted old page_cells s.id_count test i' p
  skip_range zero i i' p e h drops c =
      subst (λ t. Compacted old page_cells s.id_count test t p) (omega arith) c
  skip_range (suc d) i i' p e h drops c =
      skip_range d (suc i) i' p (omega arith) h (λ a l u. drops a (omega arith) u)
        (skip-Compacted old page_cells s.id_count test i p (drops i (omega arith) (omega arith))
          (inside_block i (omega arith)) c)

  pub unread_key :
      (i : ℕ) (p : Page) (a : ℕ)
      → i ≤ a
      → Compacted old page_cells s.id_count test i p
      → key_at s p.cells a ≡ key_at s old a
  unread_key i p a h c =
      let upto : i * s.id_count ≤ a * s.id_count = mul-le-mul_right s.id_count h in
      c.unread _ (omega arith)

  take_stops :
      (x fuel i : ℕ) (p : Page)
      → ((key_at s p.cells i == x) && ltb i s.records) ≡ false
      → take_equal s x (suc fuel) i p ≡ some (i, p)
  unfolding take_equal
  take_stops x fuel i p off = ground arith

  take_goes :
      (x fuel i : ℕ) (p q : Page)
      → ((key_at s p.cells i == x) && ltb i s.records) ≡ true
      → emit page_cells s.id_count p i ≡ some q
      → take_equal s x (suc fuel) i p ≡ take_equal s x fuel (suc i) q
  unfolding take_equal
  take_goes x fuel i p q on e = ground arith

  -- The loop takes the records with the key `x`, which the test is to keep.
  pub take_equal_lem :
      (x fuel i : ℕ) (p : Page)
      → i ≤ s.records
      → s.records < i + fuel
      → ((a : ℕ) → a < s.records → key_at s old a ≡ x → test a ≡ true)
      → Compacted old page_cells s.id_count test i p
      → (i' : ℕ) × (q : Page) × (take_equal s x fuel i p ≡ some (i', q))
        × Run (key_at s old) s.records x i i'
        × Compacted old page_cells s.id_count test i' q
  take_equal_lem x zero i p h enough keeps c = absurd (omega arith)
  take_equal_lem x (suc fuel) i p h enough keeps c =
      let same = unread_key i p i (omega arith) c in
      elim (Bool-cases ((key_at s p.cells i == x) && ltb i s.records)) [
        | inl on ↦
            let inside : i < s.records = ground arith in
            let there : key_at s p.cells i ≡ x = ground arith in
            let here : key_at s old i ≡ x = sym same ∙ there in
            let (q, e, d) =
              emit-Compacted old page_cells s.id_count test pages even holds i p
                (keeps i inside here) (inside_block i inside) c in
            let (i', q', e', r, d') =
              take_equal_lem x fuel (suc i) q (omega arith) (omega arith) keeps d in
            (
              i',
              q',
              take_goes x fuel i p q on e ∙ e',
              Run-step (key_at s old) s.records x i i' here r,
              d',
            )
        | inr off ↦
            let differs : i < s.records → key_at s p.cells i ≢ x = ground arith in
            (
              i,
              p,
              take_stops x fuel i p off,
              Run-stop (key_at s old) s.records x i h (λ l e. differs l (same ∙ e)),
              c,
            )
      ]
