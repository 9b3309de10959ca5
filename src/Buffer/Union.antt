-- ===== src/Buffer/Union.antt =====
-- TripleBit/EntityIDBuffer.cpp: `mergeSingleBuffer` of two lists of IDs into a third buffer.
use mathlib.Core.List.Memᴰ
use mgtag.Prelude.{
  ℕ, zero, suc, ◌+◌, ◌≤◌, ◌<◌, ◌≡◌, ◌↔◌, ◌⊎◌, inl, inr, List, [], ◌∷◌, Option, none, some, Memᴰ,
  Memᴰ-cons, All, length, ltb, ◌==◌, Bool-cases, arith, if◌then◌else◌,
}
use mgtag.Buffer.{Buffer, empty, insert_id}

module _ (alloc : ℕ → List ℕ) where
  -- the two last loops
  unfoldable pub insert_all : Buffer → List ℕ → Option Buffer
  insert_all b [] = some b
  insert_all b (x ∷ xs) = elim (insert_id alloc b x) [ none ↦ none | some b' ↦ insert_all b' xs ]

  unfoldable pub insert_then : Buffer → ℕ → (Buffer → Option Buffer) → Option Buffer
  insert_then b x next = elim (insert_id alloc b x) [ none ↦ none | some b' ↦ next b' ]

  -- The first loop, and the two after it. Each round takes an ID of one list.
  unfoldable pub merge_loop : ℕ → Buffer → List ℕ → List ℕ → Option Buffer
  merge_loop fuel b [] ys = insert_all b ys
  merge_loop fuel b (x ∷ xs) [] = insert_all b (x ∷ xs)
  merge_loop zero b (x ∷ xs) (y ∷ ys) = none
  merge_loop (suc fuel) b (x ∷ xs) (y ∷ ys) =
      let skip_second = merge_loop fuel b (x ∷ xs) ys in
      if ltb y x
      then insert_then b y (λ c. merge_loop fuel c (x ∷ xs) ys)
      else if y == x
      then skip_second
      else insert_then b x (λ c. merge_loop fuel c xs (y ∷ ys))

  unfoldable pub merge_single_buffer : Buffer → List ℕ → List ℕ → Option Buffer
  merge_single_buffer b xs ys = merge_loop (length xs + length ys) (empty b) xs ys

-- the IDs in the order in which the loops insert them
unfoldable pub union : ℕ → List ℕ → List ℕ → List ℕ
union fuel [] ys = ys
union fuel (x ∷ xs) [] = x ∷ xs
union zero (x ∷ xs) (y ∷ ys) = []
union (suc fuel) (x ∷ xs) (y ∷ ys) =
    let first = union fuel xs (y ∷ ys) in
    let second = union fuel (x ∷ xs) ys in
    if ltb y x then y ∷ second else if y == x then second else x ∷ first

abbrev pub Ascending : List ℕ → Type 0
Ascending [] = Unit {0}
Ascending (x ∷ xs) = All (λ y. x < y) xs × Ascending xs

All-union :
    (z fuel : ℕ) (xs ys : List ℕ)
    → All (λ a. z < a) xs
    → All (λ a. z < a) ys
    → All (λ a. z < a) (union fuel xs ys)
unfolding union
All-union z fuel [] ys a b = b
All-union z fuel (x ∷ xs) [] a b = a
All-union z zero (x ∷ xs) (y ∷ ys) a b = tt
All-union z (suc fuel) (x ∷ xs) (y ∷ ys) a b =
    let first = All-union z fuel xs (y ∷ ys) a.1 b in
    let second = All-union z fuel (x ∷ xs) ys a b.1 in ground arith

All-below : (x y : ℕ) (zs : List ℕ) → x ≤ y → All (λ z. y < z) zs → All (λ z. x < z) zs
All-below x y [] h a = tt
All-below x y (z ∷ zs) h a = (omega arith, All-below x y zs h a.1)

pub union-Ascending :
    (fuel : ℕ) (xs ys : List ℕ) → Ascending xs → Ascending ys → Ascending (union fuel xs ys)
unfolding union
union-Ascending fuel [] ys a b = b
union-Ascending fuel (x ∷ xs) [] a b = a
union-Ascending zero (x ∷ xs) (y ∷ ys) a b = tt
union-Ascending (suc fuel) (x ∷ xs) (y ∷ ys) a b =
    let first = union-Ascending fuel xs (y ∷ ys) a.1 b in
    let second = union-Ascending fuel (x ∷ xs) ys a b.1 in
    elim (Bool-cases (ltb y x)) [
      | inl low ↦ rw low (
        All-union y fuel (x ∷ xs) ys (ground arith, All-below y x xs (ground arith) a.0) b.0,
        second,
      )
      | inr high ↦ rw high (elim (Bool-cases (y == x)) [
        | inl same ↦ rw same second
        | inr apart ↦ rw apart (
          All-union x fuel xs (y ∷ ys) a.0 (ground arith, All-below x y ys (ground arith) b.0),
          first,
        )
      ])
    ]

pub union_mem :
    (fuel : ℕ) (xs ys : List ℕ) (a : ℕ)
    → length xs + length ys ≤ fuel
    → Memᴰ a (union fuel xs ys) ↔ (Memᴰ a xs ⊎ Memᴰ a ys)
unfolding union
union_mem fuel [] ys a h = (inr, λ m. elim m [ inl n ↦ absurd (Memᴰ.not-nil n) | inr n ↦ n ])
union_mem fuel (x ∷ xs) [] a h = (inl, λ m. elim m [ inl n ↦ n | inr n ↦ absurd (Memᴰ.not-nil n) ])
union_mem zero (x ∷ xs) (y ∷ ys) a h = absurd (omega arith)
union_mem (suc fuel) (x ∷ xs) (y ∷ ys) a h =
    let first = union_mem fuel xs (y ∷ ys) a (omega arith) in
    let second = union_mem fuel (x ∷ xs) ys a (omega arith) in
    let in_xs = Memᴰ-cons a x xs in
    let in_ys = Memᴰ-cons a y ys in
    elim (Bool-cases (ltb y x)) [
      | inl low ↦ rw low (let in_out = Memᴰ-cons a y (union fuel (x ∷ xs) ys) in ground arith)
      | inr high ↦ rw high (elim (Bool-cases (y == x)) [
        | inl same ↦ rw same (let e : y ≡ x = ground arith in ground arith)
        | inr apart ↦ rw apart (let in_out = Memᴰ-cons a x (union fuel xs (y ∷ ys)) in ground arith)
      ])
    ]
