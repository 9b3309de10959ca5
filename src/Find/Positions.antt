-- ===== src/Find/Positions.antt =====
-- TripleBit/FindEntityID.cpp: what a loop from the position of an ID on finds, in terms of the facts.
-- TripleBit/LineHashIndex.cpp gives the positions; IsFirst is the condition on them under which the loops are
-- right. `getOffsetByID` does not meet it for every ID that the column lacks.
use mgtag.Prelude.{
  ℕ, ◌+◌, ◌-◌, ◌≤◌, ◌<◌, ◌≡◌, inl, inr, refl, sym, ◌∙◌, subst, Bool, List, [], ◌∷◌, ◌++◌, Option,
  none, some, All, length, ltb, leb, ◌&&◌, Bool-cases, if◌then◌else◌, arith,
}
use mgtag.Bitmap.{Column, Manager}
use mgtag.Bitmap.Pairs.{bytes_of_pairs}
use mgtag.LineIndex.Offset.{ColumnIndex, by_x, by_sum, get_offset_by_id}
use mgtag.Find.Ranges.{carried}
use mgtag.Find.Scans.{take_while}
use mgtag.Find.Merges.{NotBelow, Ordered, low_pairs, high_pairs}

abbrev pub key_x : ℕ × ℕ → ℕ
key_x p = p.0

abbrev pub key_sum : ℕ × ℕ → ℕ
key_sum p = p.0 + p.1

-- an offset that is that of the first pair whose key is not below the ID; NOT_FOUND only where there is none
pub data IsFirst (key : ℕ × ℕ → ℕ) (id : ℕ) : List (ℕ × ℕ) → Option ℕ → Type 0 where
  absent : {ps : List (ℕ × ℕ)} → All (λ p. key p < id) ps → IsFirst key id ps none
  present :
      {ps : List (ℕ × ℕ)} {offset : Option ℕ} (before after : List (ℕ × ℕ))
      → ps ≡ before ++ after
      → offset ≡ some (length (bytes_of_pairs before))
      → All (λ p. key p < id) before
      → All (λ p. id ≤ key p) after
      → IsFirst key id ps offset

-- `getOffsetByID` gives such offsets for an ID in the two columns of a manager that stores keys and other IDs.
pub record IsPosition (index : Column → ColumnIndex) (unset : ℕ) (m : Manager) (ks : List (ℕ × ℕ))
    (id : ℕ) : Type 0 where
  pub first : Option ℕ
  pub second : Option ℕ
  pub runs_first : get_offset_by_id by_x (index m.first) m.first id unset ≡ some first
  pub runs_second :
      get_offset_by_id by_sum (index m.second) m.second id (carried unset first) ≡ some second
  pub low : IsFirst key_x id (low_pairs ks) first
  pub high : IsFirst key_sum id (high_pairs ks) second

-- the pairs whose key lies within bounds
unfoldable pub select : (ℕ × ℕ → ℕ) → ℕ → ℕ → List (ℕ × ℕ) → List (ℕ × ℕ)
select key min_id max_id [] = []
select key min_id max_id (p ∷ ps) =
    let rest = select key min_id max_id ps in
    if leb min_id (key p) && leb (key p) max_id then p ∷ rest else rest

abbrev pub Ascends : (ℕ × ℕ → ℕ) → List (ℕ × ℕ) → Type 0
Ascends key [] = Unit {0}
Ascends key (p ∷ ps) = All (λ q. key p ≤ key q) ps × Ascends key ps

abbrev pub up_to : (ℕ × ℕ → ℕ) → ℕ → ℕ × ℕ → Bool
up_to key max_id p = leb (key p) max_id

Ascends-right : (key : ℕ × ℕ → ℕ) (ps qs : List (ℕ × ℕ)) → Ascends key (ps ++ qs) → Ascends key qs
Ascends-right key [] qs a = a
Ascends-right key (p ∷ ps) qs a = Ascends-right key ps qs a.1

module _ (key : ℕ × ℕ → ℕ) (min_id max_id : ℕ) where
  select_above :
      (k : ℕ) (ps : List (ℕ × ℕ))
      → max_id < k
      → All (λ p. k ≤ key p) ps
      → select key min_id max_id ps ≡ []
  unfolding select
  select_above k [] h a = refl
  select_above k (p ∷ ps) h a = ground (arith, select_above k ps h a.1)

  select_from :
      (ps : List (ℕ × ℕ))
      → All (λ p. min_id ≤ key p) ps
      → Ascends key ps
      → take_while (up_to key max_id) ps ≡ select key min_id max_id ps
  unfolding select take_while
  select_from [] a s = refl
  select_from (p ∷ ps) a s = ground (arith, select_from ps a.1 s.1, select_above (key p) ps)

  select_below :
      (before after : List (ℕ × ℕ))
      → All (λ p. key p < min_id) before
      → select key min_id max_id (before ++ after) ≡ select key min_id max_id after
  unfolding select
  select_below [] after a = refl
  select_below (p ∷ before) after a = ground (arith, select_below before after a.1)

  -- Behind a first position the pairs up to the upper bound are those within the bounds.
  pub take_while-select :
      (before after : List (ℕ × ℕ))
      → All (λ p. key p < min_id) before
      → All (λ p. min_id ≤ key p) after
      → Ascends key (before ++ after)
      → take_while (up_to key max_id) after ≡ select key min_id max_id (before ++ after)
  take_while-select before after a b s =
      select_from after b (Ascends-right key before after s) ∙ sym (select_below before after a)

  pub select_none :
      (ps : List (ℕ × ℕ)) → All (λ p. key p < min_id) ps → select key min_id max_id ps ≡ []
  unfolding select
  select_none [] a = refl
  select_none (p ∷ ps) a = ground (arith, select_none ps a.1)

abbrev pub first_id : ℕ × ℕ → ℕ
first_id p = p.0

low_pairs_from :
    (k o : ℕ) (ks : List (ℕ × ℕ)) → All (NotBelow (k, o)) ks → All (λ q. k ≤ key_x q) (low_pairs ks)
unfolding low_pairs
low_pairs_from k o [] a = tt
low_pairs_from k o ((l, q) ∷ ks) a = ground (arith, low_pairs_from k o ks a.1)

high_pairs_from :
    (k o : ℕ) (ks : List (ℕ × ℕ))
    → All (NotBelow (k, o)) ks
    → All (λ q. k ≤ key_sum q) (high_pairs ks)
unfolding high_pairs
high_pairs_from k o [] a = tt
high_pairs_from k o ((l, q) ∷ ks) a = ground (arith, high_pairs_from k o ks a.1)

pub low_pairs-Ascends : (ks : List (ℕ × ℕ)) → Ordered ks → Ascends key_x (low_pairs ks)
unfolding low_pairs
low_pairs-Ascends [] s = tt
low_pairs-Ascends ((k, o) ∷ ks) s =
    ground (arith, low_pairs-Ascends ks s.1, low_pairs_from k o ks s.0)

pub high_pairs-Ascends : (ks : List (ℕ × ℕ)) → Ordered ks → Ascends key_sum (high_pairs ks)
unfolding high_pairs
high_pairs-Ascends [] s = tt
high_pairs-Ascends ((k, o) ∷ ks) s = elim (Bool-cases (ltb o k)) [
  | inl e ↦
      let whole : o + (k - o) ≡ k = ground arith in
      rw e (
        subst (λ n. All (λ q. n ≤ key_sum q) (high_pairs ks)) (sym whole)
            (high_pairs_from k o ks s.0),
        high_pairs-Ascends ks s.1,
      )
  | inr e ↦ rw e (high_pairs-Ascends ks s.1)
]

module _ (min_id max_id : ℕ) where
  pub low_pairs-select :
      (ks : List (ℕ × ℕ))
      → low_pairs (select first_id min_id max_id ks) ≡ select key_x min_id max_id (low_pairs ks)
  unfolding low_pairs select
  low_pairs-select [] = refl
  low_pairs-select ((k, o) ∷ ks) = ground (arith, low_pairs-select ks)

  pub high_pairs-select :
      (ks : List (ℕ × ℕ))
      → high_pairs (select first_id min_id max_id ks) ≡ select key_sum min_id max_id (high_pairs ks)
  unfolding high_pairs select
  high_pairs-select [] = refl
  high_pairs-select ((k, o) ∷ ks) = elim (Bool-cases (ltb o k)) [
    | inl e ↦ let whole : o + (k - o) ≡ k = ground arith in ground (arith, high_pairs-select ks)
    | inr e ↦ ground (arith, high_pairs-select ks)
  ]

  All-select {κ} :
      (P : ℕ × ℕ → Type κ) (ks : List (ℕ × ℕ)) → All P ks → All P (select first_id min_id max_id ks)
  unfolding select
  All-select P [] a = tt
  All-select P ((k, o) ∷ ks) a = elim (Bool-cases (leb min_id k && leb k max_id)) [
    | inl e ↦ rw e (a.0, All-select P ks a.1)
    | inr e ↦ rw e (All-select P ks a.1)
  ]

  pub select-Ordered : (ks : List (ℕ × ℕ)) → Ordered ks → Ordered (select first_id min_id max_id ks)
  unfolding select
  select-Ordered [] s = tt
  select-Ordered ((k, o) ∷ ks) s = elim (Bool-cases (leb min_id k && leb k max_id)) [
    | inl e ↦ rw e (All-select (NotBelow (k, o)) ks s.0, select-Ordered ks s.1)
    | inr e ↦ rw e (select-Ordered ks s.1)
  ]
