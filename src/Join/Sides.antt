-- ===== src/Join/Sides.antt =====
-- TripleBit/SortMergeJoin.cpp: the inner loops of `Merge1` and `Merge2`, each on one buffer.
use mgtag.Prelude.{
  ℕ, zero, suc, ◌+◌, ◌≤◌, ◌<◌, ◌≡◌, ◌≢◌, inl, inr, refl, sym, subst, ap, ◌∙◌, Bool, true, false,
  ◌&&◌, List, ltb, ◌==◌, Bool-cases, arith, if◌then◌else◌,
}
use mgtag.Join.{Side, key_at, skip_less, skip_equal}

-- whether one of the first `m` keys is `x`
unfoldable pub has : (ℕ → ℕ) → ℕ → ℕ → Bool
has key zero x = false
has key (suc m) x = let rest = has key m x in if key m == x then true else rest

pub has_found : (key : ℕ → ℕ) (m x a : ℕ) → a < m → key a ≡ x → has key m x ≡ true
unfolding has
has_found key zero x a h e = absurd (omega arith)
has_found key (suc m) x a h e = elim (Bool-cases (key m == x)) [
  | inl hit ↦ rw hit refl
  | inr miss ↦
      let differs : key m ≢ x = ground arith in
      let other : a ≢ m = λ q. differs (ap key (sym q) ∙ e) in
      rw miss (has_found key m x a (omega (arith, other)) e)
]

pub has_none : (key : ℕ → ℕ) (m x : ℕ) → ((a : ℕ) → a < m → key a ≢ x) → has key m x ≡ false
unfolding has
has_none key zero x h = refl
has_none key (suc m) x h =
    let rest = has_none key m x (λ a ha. h a (omega arith)) in
    let last = h m (omega arith) in ground arith

-- the records from `i` to `i'` are those that a loop on `keys` passed
pub record Run (key : ℕ → ℕ) (records x i i' : ℕ) : Type 0 where
  pub from : i ≤ i'
  pub upto : i' ≤ records
  pub same : (a : ℕ) → i ≤ a → a < i' → key a ≡ x
  pub stop : i' < records → key i' ≢ x

pub record Below (key : ℕ → ℕ) (records x j j' : ℕ) : Type 0 where
  pub from : j ≤ j'
  pub upto : j' ≤ records
  pub less : (a : ℕ) → j ≤ a → a < j' → key a < x
  pub stop : j' < records → x ≤ key j'

pub same-Run :
    (k k' : ℕ → ℕ) (m x i i' : ℕ)
    → ((a : ℕ) → i ≤ a → k a ≡ k' a)
    → Run k m x i i'
    → Run k' m x i i'
same-Run k k' m x i i' e r = record {
  from = r.from;
  upto = r.upto;
  same = λ a l u. sym (e a l) ∙ r.same a l u;
  stop = λ l q. r.stop l (e i' r.from ∙ q);
}

pub Run-moves : (key : ℕ → ℕ) (m x i i' : ℕ) → i < m → key i ≡ x → Run key m x i i' → i < i'
Run-moves key m x i i' h e r = elim (Bool-cases (i' == i)) [
  | inl q ↦ let stays : i' ≡ i = ground arith in absurd (r.stop (omega arith) (ap key stays ∙ e))
  | inr n ↦ let differs : i' ≢ i = ground arith in omega (arith, r.from)
]

pub same-Below :
    (k k' : ℕ → ℕ) (m x j j' : ℕ)
    → ((a : ℕ) → j ≤ a → k a ≡ k' a)
    → Below k m x j j'
    → Below k' m x j j'
same-Below k k' m x j j' e r = record {
  from = r.from;
  upto = r.upto;
  less = λ a l u. omega (arith, e a l, r.less a l u);
  stop = λ l. omega (arith, e j' r.from, r.stop l);
}

pub skip_less_lem :
    (s : Side) (cells : List ℕ) (x fuel j : ℕ)
    → j ≤ s.records
    → s.records ≤ j + fuel
    → Below (key_at s cells) s.records x j (skip_less s cells x fuel j)
unfolding skip_less
skip_less_lem s cells x zero j h enough = record {
  from = omega arith;
  upto = h;
  less = λ a l u. absurd (omega arith);
  stop = λ l. absurd (omega arith);
}
skip_less_lem s cells x (suc fuel) j h enough =
    elim (Bool-cases (ltb (key_at s cells j) x && ltb j s.records)) [
      | inl on ↦
          let low : key_at s cells j < x = ground arith in
          let inside : j < s.records = ground arith in
          let r = skip_less_lem s cells x fuel (suc j) (omega arith) (omega arith) in
          rw on record {
            from = omega (arith, r.from);
            upto = r.upto;
            less = λ a l u. elim (Bool-cases (a == j)) [
              | inl e ↦ subst (λ t. key_at s cells t < x) (ground arith) low
              | inr n ↦ r.less a (ground arith) u
            ];
            stop = r.stop;
          }
      | inr off ↦ rw off record {
        from = omega arith;
        upto = h;
        less = λ a l u. absurd (omega arith);
        stop = λ l. ground arith;
      }
    ]

pub Run-stop :
    (key : ℕ → ℕ) (records x i : ℕ)
    → i ≤ records
    → (i < records → key i ≢ x)
    → Run key records x i i
Run-stop key records x i h stop = record {
  from = omega arith;
  upto = h;
  same = λ a l u. absurd (omega arith);
  stop = stop;
}

pub Run-step :
    (key : ℕ → ℕ) (records x i i' : ℕ)
    → key i ≡ x
    → Run key records x (suc i) i'
    → Run key records x i i'
Run-step key records x i i' here r = record {
  from = omega (arith, r.from);
  upto = r.upto;
  same = λ a l u. elim (Bool-cases (a == i)) [
    | inl e ↦ ap key (ground arith) ∙ here
    | inr n ↦ r.same a (ground arith) u
  ];
  stop = r.stop;
}

pub skip_equal_lem :
    (s : Side) (cells : List ℕ) (x fuel i : ℕ)
    → i ≤ s.records
    → s.records ≤ i + fuel
    → Run (key_at s cells) s.records x i (skip_equal s cells x fuel i)
unfolding skip_equal
skip_equal_lem s cells x zero i h enough =
    Run-stop (key_at s cells) s.records x i h (λ l. absurd (omega arith))
skip_equal_lem s cells x (suc fuel) i h enough =
    elim (Bool-cases ((key_at s cells i == x) && ltb i s.records)) [
      | inl on ↦
          let inside : i < s.records = ground arith in
          rw on (
            Run-step (key_at s cells) s.records x i _ (ground arith)
              (skip_equal_lem s cells x fuel (suc i) (omega arith) (omega arith)))
      | inr off ↦ rw off (Run-stop (key_at s cells) s.records x i h (λ l. ground arith))
    ]
