-- ===== src/Builder/Managers.antt =====
-- TripleBit/BitmapBuffer.cpp, TripleBit/TripleBitBuilder.cpp: what the managers hold of the facts inserted.
use mgtag.Prelude.{
  ℕ, ◌+◌, ◌-◌, ◌^◌, ◌<◌, ◌≡◌, inl, inr, refl, sym, ◌∙◌, List, [], ◌∷◌, ◌++◌, ltb, ◌==◌, Bool-cases,
  subst, if◌then◌else◌, arith,
}
use mgtag.Chunk.{get_len, generate_xy}
use mgtag.Bitmap.{
  Manager, meta_size, new_manager, insert_xy, find_manager, put_manager, insert_pair,
}
use mgtag.Bitmap.Columns.{IsPages}
use mgtag.Bitmap.Pairs.{Holds, new_column-Holds, insert_xy_lem}
use mgtag.Find.Merges.{low_pairs, high_pairs}
use mgtag.Builder.{Fact}

-- the IDs of the facts with a predicate, and their other IDs
unfoldable pub with_predicate : ℕ → List Fact → List (ℕ × ℕ)
with_predicate p [] = []
with_predicate p ((k, q, o) ∷ ts) =
    let rest = with_predicate p ts in if q == p then (k, o) ∷ rest else rest

pub with_predicate-concat :
    (p : ℕ) (ts : List Fact) (k q o : ℕ)
    → with_predicate p (ts ++ (k, q, o) ∷ [])
      ≡ (if q == p then with_predicate p ts ++ (k, o) ∷ [] else with_predicate p ts)
unfolding with_predicate
with_predicate-concat p [] k q o = refl
with_predicate-concat p ((l, r, m) ∷ ts) k q o = ground (arith, with_predicate-concat p ts k q o)

low_pairs-concat :
    (ks : List (ℕ × ℕ)) (k o : ℕ)
    → low_pairs (ks ++ (k, o) ∷ [])
      ≡ (if ltb o k then low_pairs ks else low_pairs ks ++ (k, o - k) ∷ [])
unfolding low_pairs
low_pairs-concat [] k o = refl
low_pairs-concat ((l, m) ∷ ks) k o = ground (arith, low_pairs-concat ks k o)

high_pairs-concat :
    (ks : List (ℕ × ℕ)) (k o : ℕ)
    → high_pairs (ks ++ (k, o) ∷ [])
      ≡ (if ltb o k then high_pairs ks ++ (o, k - o) ∷ [] else high_pairs ks)
unfolding high_pairs
high_pairs-concat [] k o = refl
high_pairs-concat ((l, m) ∷ ks) k o = ground (arith, high_pairs-concat ks k o)

module _ (page : ℕ → List ℕ) (pages : IsPages page) where
  find-put :
      (ms : List (ℕ × Manager)) (id j : ℕ) (m : Manager)
      → find_manager page (put_manager page ms id m) j
        ≡ (if id == j then m else find_manager page ms j)
  unfolding find_manager put_manager
  find-put [] id j m = refl
  find-put ((k, n) ∷ ms) id j m = ground (arith, find-put ms id j m)

  -- the columns of a manager hold the pairs of the IDs, in their order
  pub record Keeps (m : Manager) (ks : List (ℕ × ℕ)) : Type 0 where
    pub low : Holds m.first (low_pairs ks)
    pub high : Holds m.second (high_pairs ks)

  -- what the managers of a pass hold of the facts done
  abbrev pub KeepAll : List (ℕ × Manager) → List Fact → Type 0
  KeepAll ms ts = (p : ℕ) → Keeps (find_manager page ms p) (with_predicate p ts)

  pub new-KeepAll : KeepAll [] []
  unfolding find_manager new_manager with_predicate low_pairs high_pairs
  new-KeepAll p = record {
    low = new_column-Holds page pages meta_size (omega arith);
    high = new_column-Holds page pages 0 (omega arith);
  }

  insert_pair-Keeps :
      (m : Manager) (ks : List (ℕ × ℕ)) (k o : ℕ)
      → Keeps m ks
      → k < 2 ^ 32
      → o < 2 ^ 32
      → Keeps
          (insert_pair page m (generate_xy k o).0 (generate_xy k o).1 (generate_xy k o).2)
          (ks ++ (k, o) ∷ [])
  unfolding insert_pair generate_xy
  insert_pair-Keeps m ks k o h hk ho = elim (Bool-cases (ltb o k)) [
    | inl bigger ↦ rw bigger (record {
      low = subst (λ ps. Holds m.first ps) (sym (low_pairs-concat ks k o ∙ rw bigger refl)) h.low;
      high =
          subst (λ ps. Holds (insert_xy page m.second o (k - o) (get_len o + get_len (k - o))) ps)
            (sym (high_pairs-concat ks k o ∙ rw bigger refl))
            (insert_xy_lem page pages m.second (high_pairs ks) o (k - o) h.high (ground arith));
    })
    | inr other ↦ rw other (record {
      low =
          subst (λ ps. Holds (insert_xy page m.first k (o - k) (get_len k + get_len (o - k))) ps)
            (sym (low_pairs-concat ks k o ∙ rw other refl))
            (insert_xy_lem page pages m.first (low_pairs ks) k (o - k) h.low (ground arith));
      high =
          subst (λ ps. Holds m.second ps) (sym (high_pairs-concat ks k o ∙ rw other refl)) h.high;
    })
  ]

  put_manager-KeepAll :
      (ms : List (ℕ × Manager)) (ts : List Fact) (k p o : ℕ) (m : Manager)
      → KeepAll ms ts
      → Keeps m (with_predicate p ts ++ (k, o) ∷ [])
      → KeepAll (put_manager page ms p m) (ts ++ (k, p, o) ∷ [])
  put_manager-KeepAll ms ts k p o m h new = λ q. elim (Bool-cases (p == q)) [
    | inl e ↦
        let same : p ≡ q = ground arith in
        subst (λ n. Keeps n (with_predicate q (ts ++ (k, p, o) ∷ [])))
          (sym (find-put ms p q m ∙ rw e refl))
          (subst (λ ks. Keeps m ks) (sym (with_predicate-concat q ts k p o ∙ rw (e, same) refl))
            new)
    | inr e ↦
        subst (λ n. Keeps n (with_predicate q (ts ++ (k, p, o) ∷ [])))
          (sym (find-put ms p q m ∙ rw e refl))
          (subst (λ ks. Keeps (find_manager page ms q) ks)
            (sym (with_predicate-concat q ts k p o ∙ rw e refl)) (h q))
  ]

  pub insert_pair-KeepAll :
      (ms : List (ℕ × Manager)) (ts : List Fact) (k p o : ℕ)
      → KeepAll ms ts
      → k < 2 ^ 32
      → o < 2 ^ 32
      → KeepAll
          (put_manager page ms p (
            insert_pair page
              (find_manager page ms p)
              (generate_xy k o).0
              (generate_xy k o).1
              (generate_xy k o).2))
          (ts ++ (k, p, o) ∷ [])
  insert_pair-KeepAll ms ts k p o h hk ho =
      put_manager-KeepAll ms ts k p o _ h
        (insert_pair-Keeps (find_manager page ms p) (with_predicate p ts) k o (h p) hk ho)
