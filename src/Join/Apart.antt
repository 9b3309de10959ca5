-- ===== src/Join/Apart.antt =====
-- TripleBit/SortMergeJoin.cpp: how the two positions of `Merge1` and `Merge2` split the sorted keys.
use mgtag.Prelude.{ℕ, ◌≤◌, ◌<◌, ◌≡◌, ◌≢◌, inl, inr, false, ltb, Bool-cases, arith}
use mgtag.Join.Sides.{has, has_none, Run, Below}

-- the first `m` keys ascend
abbrev pub Ascends : (ℕ → ℕ) → ℕ → Type 0
Ascends key m = (a b : ℕ) → a ≤ b → b < m → key a ≤ key b

-- The keys before one position are below those from the other position on.
pub record Apart (key1 key2 : ℕ → ℕ) (m1 m2 i j : ℕ) : Type 0 where
  pub upto1 : i ≤ m1
  pub upto2 : j ≤ m2
  pub second_below : (b a : ℕ) → b < j → i ≤ a → a < m1 → key2 b < key1 a
  pub first_below : (a b : ℕ) → a < i → j ≤ b → b < m2 → key1 a < key2 b

module _ (key1 key2 : ℕ → ℕ) (m1 m2 : ℕ) (ascends1 : Ascends key1 m1)
    (ascends2 : Ascends key2 m2) where
  pub start-Apart : Apart key1 key2 m1 m2 0 0
  start-Apart = record {
    upto1 = omega arith;
    upto2 = omega arith;
    second_below = λ b a l h u. absurd (omega arith);
    first_below = λ a b l h u. absurd (omega arith);
  }

  module _ (i j j1 : ℕ) (apart : Apart key1 key2 m1 m2 i j)
      (skipped : Below key2 m2 (key1 i) j j1) where
    below_key : (b a : ℕ) → b < j1 → i ≤ a → a < m1 → key2 b < key1 a
    below_key b a l h u = elim (Bool-cases (ltb b j)) [
      | inl old ↦ apart.second_below b a (ground arith) h u
      | inr new ↦ omega (arith, skipped.less b (ground arith) l, ascends1 i a h u)
    ]

    -- the records of the second buffer that are passed have no partner
    pub less_dropped : (b : ℕ) → i < m1 → j ≤ b → b < j1 → has key1 m1 (key2 b) ≡ false
    less_dropped b inside h l = has_none key1 m1 (key2 b) (λ a u. elim (Bool-cases (ltb a i)) [
      | inl before ↦ λ e.
          omega (arith, apart.first_below a b (ground arith) h (omega (arith, skipped.upto)), e)
      | inr after ↦ λ e. omega (arith, below_key b a l (ground arith) u, e)
    ])

    pub equal-Apart :
        (i' j' : ℕ)
        → key2 j1 ≡ key1 i
        → j1 < m2
        → Run key1 m1 (key1 i) i i'
        → Run key2 m2 (key1 i) j1 j'
        → Apart key1 key2 m1 m2 i' j'
    equal-Apart i' j' meet inside r1 r2 = record {
      upto1 = r1.upto;
      upto2 = r2.upto;
      second_below = λ b a l h u. elim (Bool-cases (ltb b j1)) [
        | inl old ↦ below_key b a (ground arith) (omega (arith, r1.from)) u
        | inr new ↦
            let here = r2.same b (ground arith) l in
            let differs : key1 i' ≢ key1 i = r1.stop (omega arith) in
            omega (arith, differs, here, ascends1 i i' r1.from (omega arith), ascends1 i' a h u)
      ];
      first_below = λ a b l h u. elim (Bool-cases (ltb a i)) [
        | inl old ↦ apart.first_below a b (ground arith) (omega (arith, skipped.from, r2.from)) u
        | inr new ↦
            let here = r1.same a (ground arith) l in
            let differs : key2 j' ≢ key1 i = r2.stop (omega arith) in
            omega
              (arith, differs, here, meet, ascends2 j1 j' r2.from (omega arith), ascends2 j' b h u)
      ];
    }

    module _ (i' : ℕ) (part : j1 < m2 → key2 j1 ≢ key1 i) (run : Run key1 m1 (key1 i) i i') where
      above_key : (a b : ℕ) → i ≤ a → a < i' → j1 ≤ b → b < m2 → key1 a < key2 b
      above_key a b h l g u =
          omega (
            arith,
            run.same a h l,
            part (omega arith),
            skipped.stop (omega arith),
            ascends2 j1 b g u,
          )

      -- the records of the first buffer that are passed have no partner
      pub equal_dropped : (a : ℕ) → i ≤ a → a < i' → has key2 m2 (key1 a) ≡ false
      equal_dropped a h l = has_none key2 m2 (key1 a) (λ b u. elim (Bool-cases (ltb b j1)) [
        | inl before ↦
            λ e. omega (arith, below_key b a (ground arith) h (omega (arith, run.upto)), e)
        | inr after ↦ λ e. omega (arith, above_key a b h l (ground arith) u, e)
      ])

      pub unequal-Apart : Apart key1 key2 m1 m2 i' j1
      unequal-Apart = record {
        upto1 = run.upto;
        upto2 = skipped.upto;
        second_below = λ b a l h u. below_key b a l (omega (arith, run.from)) u;
        first_below = λ a b l h u. elim (Bool-cases (ltb a i)) [
          | inl old ↦ apart.first_below a b (ground arith) (omega (arith, skipped.from)) u
          | inr new ↦ above_key a b (ground arith) l h u
        ];
      }

  pub rest1_dropped :
      (i j a : ℕ)
      → Apart key1 key2 m1 m2 i j
      → m2 ≤ j
      → i ≤ a
      → a < m1
      → has key2 m2 (key1 a) ≡ false
  rest1_dropped i j a apart done h l =
      has_none key2 m2 (key1 a)
        (λ b u e. omega (arith, apart.second_below b a (omega arith) h l, e))

  pub rest2_dropped :
      (i j b : ℕ)
      → Apart key1 key2 m1 m2 i j
      → m1 ≤ i
      → j ≤ b
      → b < m2
      → has key1 m1 (key2 b) ≡ false
  rest2_dropped i j b apart done h l =
      has_none key1 m1 (key2 b) (λ a u e. omega (arith, apart.first_below a b (omega arith) h l, e))
