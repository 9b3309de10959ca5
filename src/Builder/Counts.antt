-- ===== src/Builder/Counts.antt =====
-- TripleBit/TripleBitBuilder.cpp: the counts of a pass of `resolveTriples`, and the facts that they count.
use mgtag.Prelude.{
  ℕ, ◌+◌, ◌%◌, ◌^◌, ◌≤◌, ◌<◌, ◌≡◌, ◌⊎◌, inl, inr, refl, sym, ap, ◌∙◌, true, false, List, [], ◌∷◌,
  ◌++◌, map, All, All-append, length, Memᴰ, ◌==◌, Bool-cases, if◌then◌else◌, arith, All-both,
}
use mgtag.Buffer.Union.{Ascending}
use mgtag.Builder.{Fact, Pass, count_fact}

-- the facts with an ID
unfoldable pub count_key : ℕ → List Fact → ℕ
count_key k [] = 0
count_key k ((l, q, o) ∷ ts) = let rest = count_key k ts in if l == k then rest + 1 else rest

pub count_key-concat :
    (k : ℕ) (ts : List Fact) (l q o : ℕ)
    → count_key k (ts ++ (l, q, o) ∷ []) ≡ (if l == k then count_key k ts + 1 else count_key k ts)
unfolding count_key
count_key-concat k [] l q o = ground arith
count_key-concat k ((m, r, n) ∷ ts) l q o = ground (arith, count_key-concat k ts l q o)

pub count_key-length : (k : ℕ) (ts : List Fact) → count_key k ts ≤ length ts
unfolding count_key
count_key-length k [] = omega arith
count_key-length k ((m, r, n) ∷ ts) = ground (arith, count_key-length k ts)

pub count_key_above :
    (k j : ℕ) (ts : List Fact) → All (λ t. t.0 ≤ j) ts → j < k → count_key k ts ≡ 0
unfolding count_key
count_key_above k j [] a h = refl
count_key_above k j ((m, r, n) ∷ ts) a h = ground (arith, count_key_above k j ts a.1 h)

-- `statis` has the counts of all IDs but the last one, which stands in `count0`.
pub record Counted (s : Pass) (done : List Fact) : Type 0 where
  pub before : All (λ e. e.0 < s.last.0) s.statis
  pub right : All (λ e. e.1 ≡ count_key e.0 done) s.statis
  pub once : Ascending (map (λ e. e.0) s.statis)
  pub last_count : s.count0 ≡ count_key s.last.0 done
  pub highest : All (λ t. t.0 ≤ s.last.0) done
  pub covered : (k : ℕ) → 0 < count_key k done → (k ≡ s.last.0) ⊎ Memᴰ k (map (λ e. e.0) s.statis)

module _ (page : ℕ → List ℕ) (f : ℕ) where
  pub old_key :
      (s : Pass) (t : Fact)
      → (t.0 == s.last.0) ≡ true
      → ((count_fact page f s t).statis ≡ s.statis)
        × ((count_fact page f s t).count0 ≡ (s.count0 + 1) % 2 ^ 32)
  unfolding count_fact
  old_key s t e = elim (Bool-cases (t.1 == s.last.1)) [
    | inl q ↦ rw (e, q) (refl, refl)
    | inr q ↦ rw (e, q) (refl, refl)
  ]

  pub new_key :
      (s : Pass) (t : Fact)
      → (t.0 == s.last.0) ≡ false
      → ((count_fact page f s t).statis ≡ s.statis ++ (s.last.0, s.count0) ∷ [])
        × ((count_fact page f s t).count0 ≡ 1)
  unfolding count_fact
  new_key s t e = rw e (refl, refl)

pub map-concat :
    (xs : List (ℕ × ℕ)) (k n : ℕ) → map (λ e. e.0) (xs ++ (k, n) ∷ []) ≡ map (λ e. e.0) xs ++ k ∷ []
map-concat [] k n = refl
map-concat (x ∷ xs) k n = ap (λ t. x.0 ∷ t) (map-concat xs k n)

pub same_count :
    (done : List Fact) (k p o i : ℕ)
    → i < k
    → count_key i (done ++ (k, p, o) ∷ []) ≡ count_key i done
same_count done k p o i h = ground (arith, count_key-concat i done k p o)

pub Ascending-concat :
    (xs : List (ℕ × ℕ)) (k : ℕ)
    → Ascending (map (λ e. e.0) xs)
    → All (λ x. x.0 < k) xs
    → Ascending (map (λ e. e.0) xs ++ k ∷ [])
Ascending-concat [] k a h = (tt, tt)
Ascending-concat (x ∷ xs) k a h = (
  All-append (λ y. x.0 < y) (map (λ e. e.0) xs) (k ∷ []) a.0 (h.0, tt),
  Ascending-concat xs k a.1 h.1,
)

pub below : (l k : ℕ) (xs : List (ℕ × ℕ)) → l ≤ k → All (λ x. x.0 < l) xs → All (λ x. x.0 < k) xs
below l k xs h a =
    All-both (λ x. x.0 < l) (λ x. x.0 < l) (λ x. x.0 < k) (λ x b c. omega arith) xs a a

pub up_to : (l k : ℕ) (ts : List Fact) → l ≤ k → All (λ t. t.0 ≤ l) ts → All (λ t. t.0 ≤ k) ts
up_to l k ts h a =
    All-both (λ t. t.0 ≤ l) (λ t. t.0 ≤ l) (λ t. t.0 ≤ k) (λ t b c. omega arith) ts a a

pub kept_right :
    (s : Pass) (done : List Fact) (k p o : ℕ)
    → s.last.0 ≤ k
    → Counted s done
    → All (λ x. x.1 ≡ count_key x.0 (done ++ (k, p, o) ∷ [])) s.statis
kept_right s done k p o h c =
    All-both (λ x. x.0 < s.last.0) (λ x. x.1 ≡ count_key x.0 done)
      (λ x. x.1 ≡ count_key x.0 (done ++ (k, p, o) ∷ []))
      (λ x a b. b ∙ sym (same_count done k p o x.0 (omega arith))) s.statis c.before c.right
