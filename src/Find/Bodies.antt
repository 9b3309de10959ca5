-- ===== src/Find/Bodies.antt =====
-- TripleBit/FindEntityID.cpp: the loops within bounds, from the position of an ID on.
use mgtag.Prelude.{
  ℕ, ◌+◌, ◌≤◌, ◌≡◌, refl, sym, ap, ◌∙◌, subst, List, [], ◌∷◌, ◌++◌, Option, some, All, arith,
  All-right,
}
use mgtag.Chunk.Codec.{read-get_insert_chars}
use mgtag.Bitmap.{Column}
use mgtag.Bitmap.Pairs.{IsPair, Holds}
use mgtag.Buffer.{Buffer}
use mgtag.Buffer.Insert.{IsValid, IsAlloc}
use mgtag.Find.{scan_from}
use mgtag.Find.Scans.{Inserted, Inserted-none, Emits, Breaks, collect, take_while, scan_from_lem}
use mgtag.Find.Inserts.{insert_id-Inserted, insert2-Inserted}
use mgtag.Find.Merges.{key_of_low, key_of_high, record_of_low, record_of_high}
use mgtag.Find.Positions.{
  key_x, key_sum, IsFirst, absent, present, select, Ascends, up_to, take_while-select, select_none,
}
use mgtag.Find.Ranges.{
  Body, subject_x_between, subject_sum_between, object_x_up_to, object_sum_up_to, pair_x_up_to,
  pair_sum_up_to,
}

-- the pairs at or above an ID
abbrev pub From : (ℕ × ℕ → ℕ) → ℕ → ℕ × ℕ → Type 0
From key id p = IsPair p × (id ≤ key p)

pub both :
    (key : ℕ × ℕ → ℕ) (id : ℕ) (ps : List (ℕ × ℕ))
    → All IsPair ps
    → All (λ p. id ≤ key p) ps
    → All (From key id) ps
both key id [] a b = tt
both key id (p ∷ ps) a b = ((a.0, b.0), both key id ps a.1 b.1)

-- A loop from the position of an ID on inserts what its body makes of the pairs within the bounds.
pub from_lem :
    (body : Body) (key : ℕ × ℕ → ℕ) (min_id max_id : ℕ) (out : ℕ × ℕ → List ℕ)
    → Emits (From key min_id) body (up_to key max_id) out
    → Breaks (From key min_id) body (up_to key max_id)
    → (c : Column) (ps : List (ℕ × ℕ)) (offset : Option ℕ) (t : Buffer) → Holds c ps
    → Ascends key ps
    → IsValid t
    → IsFirst key min_id ps offset
    → (u : Buffer) × (scan_from body c offset t ≡ some u)
      × Inserted t u (collect out (select key min_id max_id ps))
unfolding scan_from collect
from_lem body key min_id max_id out emits breaks c ps offset t h s v (absent low) = (
  t,
  refl,
  subst (λ qs. Inserted t t (collect out qs)) (sym (select_none key min_id max_id ps low))
      (Inserted-none t v),
)
from_lem body key min_id max_id out emits breaks c ps offset t h s v
      (present before after e at low high) =
    let here : Holds c (before ++ after) = subst (λ qs. Holds c qs) e h in
    let (u, runs, ins) =
      scan_from_lem (From key min_id) body (up_to key max_id) out emits breaks c before after t here
        (both key min_id after (All-right IsPair before after here.words) high) v in
    let found : take_while (up_to key max_id) after ≡ select key min_id max_id ps =
      take_while-select key min_id max_id before after low high (subst (λ qs. Ascends key qs) e s)
      ∙ ap (select key min_id max_id) (sym e) in
    (
      u,
      ap (λ k. scan_from body c k t) at ∙ runs,
      subst (λ qs. Inserted t u (collect out qs)) found ins,
    )

module _ (alloc : ℕ → List ℕ) (law : IsAlloc alloc) (min_id max_id : ℕ) where
  pub subject_x-Emits :
      Emits
        (From key_x min_id)
        (subject_x_between alloc min_id max_id)
        (up_to key_x max_id)
        key_of_low
  unfolding Emits subject_x_between
  subject_x-Emits x y c rest t fits low v test =
      let (middle, read, _, _, skip) =
        read-get_insert_chars x y c rest (omega arith) (omega arith) low in
      let (u, e, ins) = insert_id-Inserted alloc law t x v in (u, ground arith, ins)

  pub subject_x-Breaks :
      Breaks (From key_x min_id) (subject_x_between alloc min_id max_id) (up_to key_x max_id)
  unfolding Breaks subject_x_between
  subject_x-Breaks x y c rest t fits low test =
      let (middle, read, _, _, skip) =
        read-get_insert_chars x y c rest (omega arith) (omega arith) low in
      ground arith

  pub subject_sum-Emits :
      Emits
        (From key_sum min_id)
        (subject_sum_between alloc min_id max_id)
        (up_to key_sum max_id)
        key_of_high
  unfolding Emits subject_sum_between
  subject_sum-Emits x y c rest t fits low v test =
      let (middle, read, then_y, _, _) =
        read-get_insert_chars x y c rest (omega arith) (omega arith) low in
      let (u, e, ins) = insert_id-Inserted alloc law t (x + y) v in (u, ground arith, ins)

  pub subject_sum-Breaks :
      Breaks (From key_sum min_id) (subject_sum_between alloc min_id max_id) (up_to key_sum max_id)
  unfolding Breaks subject_sum_between
  subject_sum-Breaks x y c rest t fits low test =
      let (middle, read, then_y, _, _) =
        read-get_insert_chars x y c rest (omega arith) (omega arith) low in
      ground arith

  pub object_x-Emits :
      Emits (From key_x min_id) (object_x_up_to alloc max_id) (up_to key_x max_id) key_of_low
  unfolding Emits object_x_up_to
  object_x-Emits x y c rest t fits low v test =
      let (middle, read, _, _, skip) =
        read-get_insert_chars x y c rest (omega arith) (omega arith) low in
      let (u, e, ins) = insert_id-Inserted alloc law t x v in (u, ground arith, ins)

  pub object_x-Breaks :
      Breaks (From key_x min_id) (object_x_up_to alloc max_id) (up_to key_x max_id)
  unfolding Breaks object_x_up_to
  object_x-Breaks x y c rest t fits low test =
      let (middle, read, _, _, skip) =
        read-get_insert_chars x y c rest (omega arith) (omega arith) low in
      ground arith

  pub object_sum-Emits :
      Emits (From key_sum min_id) (object_sum_up_to alloc max_id) (up_to key_sum max_id) key_of_high
  unfolding Emits object_sum_up_to
  object_sum-Emits x y c rest t fits low v test =
      let (middle, read, then_y, _, _) =
        read-get_insert_chars x y c rest (omega arith) (omega arith) low in
      let (u, e, ins) = insert_id-Inserted alloc law t (x + y) v in (u, ground arith, ins)

  pub object_sum-Breaks :
      Breaks (From key_sum min_id) (object_sum_up_to alloc max_id) (up_to key_sum max_id)
  unfolding Breaks object_sum_up_to
  object_sum-Breaks x y c rest t fits low test =
      let (middle, read, then_y, _, _) =
        read-get_insert_chars x y c rest (omega arith) (omega arith) low in
      ground arith

  pub pair_x-Emits :
      Emits (From key_x min_id) (pair_x_up_to alloc max_id) (up_to key_x max_id) record_of_low
  unfolding Emits pair_x_up_to
  pair_x-Emits x y c rest t fits low v test =
      let (middle, read, then_y, _, _) =
        read-get_insert_chars x y c rest (omega arith) (omega arith) low in
      let (u, e, ins) = insert2-Inserted alloc law t x (x + y) v in (u, ground arith, ins)

  pub pair_x-Breaks : Breaks (From key_x min_id) (pair_x_up_to alloc max_id) (up_to key_x max_id)
  unfolding Breaks pair_x_up_to
  pair_x-Breaks x y c rest t fits low test =
      let (middle, read, then_y, _, _) =
        read-get_insert_chars x y c rest (omega arith) (omega arith) low in
      ground arith

  pub pair_sum-Emits :
      Emits
        (From key_sum min_id)
        (pair_sum_up_to alloc max_id)
        (up_to key_sum max_id)
        record_of_high
  unfolding Emits pair_sum_up_to
  pair_sum-Emits x y c rest t fits low v test =
      let (middle, read, then_y, _, _) =
        read-get_insert_chars x y c rest (omega arith) (omega arith) low in
      let (u, e, ins) = insert2-Inserted alloc law t (x + y) x v in (u, ground arith, ins)

  pub pair_sum-Breaks :
      Breaks (From key_sum min_id) (pair_sum_up_to alloc max_id) (up_to key_sum max_id)
  unfolding Breaks pair_sum_up_to
  pair_sum-Breaks x y c rest t fits low test =
      let (middle, read, then_y, _, _) =
        read-get_insert_chars x y c rest (omega arith) (omega arith) low in
      ground arith
