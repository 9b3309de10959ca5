-- ===== src/Find/Merges.antt =====
-- TripleBit/FindEntityID.cpp: the merge of what the loops over the two columns find.
-- Both columns come of one list of keys with an other ID each: the first holds the key and the difference
-- where the key is not the bigger ID, and the second the other ID and the difference where it is.
use mgtag.Prelude.{
  ℕ, zero, suc, ◌+◌, ◌-◌, ◌*◌, ◌≤◌, ◌<◌, ◌≡◌, ◌⊎◌, inl, inr, refl, sym, ap, ◌∙◌, List, [], ◌∷◌, All,
  length, true, false, ltb, leb, Bool-cases, take, get_or, if◌then◌else◌, arith,
}
use mgtag.Buffer.Combine.{merge_ids, merge_records}
use mgtag.Find.Scans.{collect}

unfoldable pub low_pairs : List (ℕ × ℕ) → List (ℕ × ℕ)
low_pairs [] = []
low_pairs ((k, o) ∷ ks) = let rest = low_pairs ks in if ltb o k then rest else (k, o - k) ∷ rest

unfoldable pub high_pairs : List (ℕ × ℕ) → List (ℕ × ℕ)
high_pairs [] = []
high_pairs ((k, o) ∷ ks) = let rest = high_pairs ks in if ltb o k then (o, k - o) ∷ rest else rest

-- the records of two IDs
unfoldable pub flat : List (ℕ × ℕ) → List ℕ
flat [] = []
flat ((k, o) ∷ ks) = k ∷ o ∷ flat ks

unfoldable pub keys : List (ℕ × ℕ) → List ℕ
keys [] = []
keys ((k, o) ∷ ks) = k ∷ keys ks

abbrev pub key_of_low : ℕ × ℕ → List ℕ
key_of_low p = p.0 ∷ []

abbrev pub key_of_high : ℕ × ℕ → List ℕ
key_of_high p = (p.0 + p.1) ∷ []

abbrev pub record_of_low : ℕ × ℕ → List ℕ
record_of_low p = p.0 ∷ (p.0 + p.1) ∷ []

abbrev pub record_of_high : ℕ × ℕ → List ℕ
record_of_high p = (p.0 + p.1) ∷ p.0 ∷ []

abbrev pub NotBelow : ℕ × ℕ → ℕ × ℕ → Type 0
NotBelow (k, o) (l, q) = (k < l) ⊎ ((k ≡ l) × (o ≤ q))

-- ascending by the key, and then by the other ID
abbrev pub Ordered : List (ℕ × ℕ) → Type 0
Ordered [] = Unit {0}
Ordered (p ∷ ps) = All (NotBelow p) ps × Ordered ps

low_from :
    (k o : ℕ) (ks : List (ℕ × ℕ))
    → All (NotBelow (k, o)) ks
    → All (λ x. k ≤ x) (collect key_of_low (low_pairs ks))
unfolding collect low_pairs
low_from k o [] a = tt
low_from k o ((l, q) ∷ ks) a = ground (arith, low_from k o ks a.1)

high_from :
    (k o : ℕ) (ks : List (ℕ × ℕ))
    → All (NotBelow (k, o)) ks
    → All (λ x. k ≤ x) (collect key_of_high (high_pairs ks))
unfolding collect high_pairs
high_from k o [] a = tt
high_from k o ((l, q) ∷ ks) a = ground (arith, high_from k o ks a.1)

pub merge_ids_first :
    (k : ℕ) (xs ys : List ℕ) → All (λ y. k ≤ y) ys → merge_ids (k ∷ xs) ys ≡ k ∷ merge_ids xs ys
unfolding merge_ids
merge_ids_first k [] [] a = refl
merge_ids_first k (x ∷ xs) [] a = refl
merge_ids_first k xs (y ∷ ys) a = ground arith

merge_ids_second :
    (k : ℕ) (xs ys : List ℕ)
    → All (λ x. k ≤ x) xs
    → All (λ y. k ≤ y) ys
    → merge_ids xs (k ∷ ys) ≡ k ∷ merge_ids xs ys
unfolding merge_ids
merge_ids_second k [] ys a b = refl
merge_ids_second k (x ∷ xs) ys a b = elim (Bool-cases (ltb k x)) [
  | inl less ↦ rw less refl
  | inr same ↦
      let e : x ≡ k = ground arith in
      rw (same, e)
        (ap (λ t. k ∷ t) (merge_ids_second k xs ys a.1 b)
          ∙ ap (λ t. k ∷ t) (sym (merge_ids_first k xs ys b)))
]

pub merge_ids_nil : merge_ids [] [] ≡ []
unfolding merge_ids
merge_ids_nil = refl

-- The IDs that the two loops find merge into the keys, in their order.
pub merge_ids-keys :
    (ks : List (ℕ × ℕ))
    → Ordered ks
    → merge_ids (collect key_of_low (low_pairs ks)) (collect key_of_high (high_pairs ks)) ≡ keys ks
unfolding collect low_pairs high_pairs keys
merge_ids-keys [] s = merge_ids_nil
merge_ids-keys ((k, o) ∷ ks) s =
    let lows = low_from k o ks s.0 in
    let highs = high_from k o ks s.0 in
    let rest = merge_ids-keys ks s.1 in
    elim (Bool-cases (ltb o k)) [
      | inl bigger ↦
          let whole : o + (k - o) ≡ k = ground arith in
          rw (bigger, whole) (merge_ids_second k _ _ lows highs ∙ ap (λ t. k ∷ t) rest)
      | inr other ↦ rw other (merge_ids_first k _ _ highs ∙ ap (λ t. k ∷ t) rest)
    ]

low_head :
    (k o : ℕ) (ks : List (ℕ × ℕ))
    → All (NotBelow (k, o)) ks
    → (length (low_pairs ks) ≡ 0) ⊎ (k ≤ get_or (collect record_of_low (low_pairs ks)) 0 0)
unfolding collect low_pairs
low_head k o [] a = inl refl
low_head k o ((l, q) ∷ ks) a = ground (arith, low_head k o ks a.1)

high_head :
    (k o : ℕ) (ks : List (ℕ × ℕ))
    → k ≤ o
    → All (NotBelow (k, o)) ks
    → (length (high_pairs ks) ≡ 0) ⊎ (k < get_or (collect record_of_high (high_pairs ks)) 0 0)
unfolding collect high_pairs
high_head k o [] h a = inl refl
high_head k o ((l, q) ∷ ks) h a = ground (arith, high_head k o ks h a.1)

take_record : (n k o : ℕ) (xs : List ℕ) → take (suc n * 2) (k ∷ o ∷ xs) ≡ k ∷ o ∷ take (n * 2) xs
take_record n k o xs =
    let two : suc n * 2 ≡ suc (suc (n * 2)) = omega arith in ap (λ m. take m (k ∷ o ∷ xs)) two

some_behind :
    (k n : ℕ) (ys : List ℕ) → (suc n ≡ 0) ⊎ (k < get_or ys 0 0) → leb (get_or ys 0 0) k ≡ false
some_behind k n ys h = ground arith

some_from :
    (k n : ℕ) (xs : List ℕ) → (suc n ≡ 0) ⊎ (k ≤ get_or xs 0 0) → leb k (get_or xs 0 0) ≡ true
some_from k n xs h = ground arith

records_first :
    (k o l1 l2 : ℕ) (xs ys : List ℕ)
    → (l2 ≡ 0) ⊎ (k < get_or ys 0 0)
    → merge_records 2 0 (k ∷ o ∷ xs) (suc l1) ys l2 ≡ k ∷ o ∷ merge_records 2 0 xs l1 ys l2
unfolding merge_records
records_first k o zero zero xs ys h = refl
records_first k o (suc l1) zero xs ys h = take_record (suc l1) k o xs
records_first k o zero (suc l2) xs ys h = rw (some_behind k l2 ys h) refl
records_first k o (suc l1) (suc l2) xs ys h = rw (some_behind k l2 ys h) refl

records_second :
    (k o l1 l2 : ℕ) (xs ys : List ℕ)
    → (l1 ≡ 0) ⊎ (k ≤ get_or xs 0 0)
    → merge_records 2 0 xs l1 (k ∷ o ∷ ys) (suc l2) ≡ k ∷ o ∷ merge_records 2 0 xs l1 ys l2
unfolding merge_records
records_second k o zero l2 xs ys h = take_record l2 k o ys
records_second k o (suc l1) l2 xs ys h = rw (some_from k l1 xs h) refl

records_nil : merge_records 2 0 [] 0 [] 0 ≡ []
unfolding merge_records
records_nil = refl

-- The records that the two loops find merge into the keys with their other IDs, in their order.
pub merge_records-flat :
    (ks : List (ℕ × ℕ))
    → Ordered ks
    → merge_records 2 0
        (collect record_of_low (low_pairs ks))
        (length (low_pairs ks))
        (collect record_of_high (high_pairs ks))
        (length (high_pairs ks))
      ≡ flat ks
unfolding collect low_pairs high_pairs flat
merge_records-flat [] s = records_nil
merge_records-flat ((k, o) ∷ ks) s =
    let rest = merge_records-flat ks s.1 in
    elim (Bool-cases (ltb o k)) [
      | inl bigger ↦
          let whole : o + (k - o) ≡ k = ground arith in
          rw (bigger, whole)
            (records_second k o _ _ _ _ (low_head k o ks s.0) ∙ ap (λ t. k ∷ o ∷ t) rest)
      | inr other ↦
          let whole : k + (o - k) ≡ o = ground arith in
          rw (other, whole)
            (records_first k o _ _ _ _ (high_head k o ks (ground arith) s.0)
              ∙ ap (λ t. k ∷ o ∷ t) rest)
    ]
