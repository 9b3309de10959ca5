-- ===== src/Find/Tagged.antt =====
-- TripleBit/FindEntityID.cpp: the searches that add the predicate to each ID, without bounds.
use mgtag.Prelude.{
  ℕ, ◌+◌, ◌≡◌, refl, ap₂, ◌∙◌, Bool, true, false, List, [], ◌∷◌, ◌++◌, Option, some, ltb, inl, inr,
  Bool-cases, if◌then◌else◌, arith,
}
use mgtag.Chunk.Codec.{read-get_insert_chars}
use mgtag.Bitmap.{Manager}
use mgtag.Bitmap.Pairs.{IsPair}
use mgtag.Buffer.{Buffer, contents, set_sort_key}
use mgtag.Buffer.Insert.{IsAlloc}
use mgtag.Buffer.Append.{HasRoom, append_other_lem}
use mgtag.Find.{Finder, format}
use mgtag.Find.Scans.{Emits, always, collect}
use mgtag.Find.Inserts.{insert2-Inserted}
use mgtag.Find.Merges.{low_pairs, high_pairs}
use mgtag.Find.Searches.{IsReady, Stores, IsValid-IsBlock, filled}
use mgtag.Find.Ranges.{tagged_x, tagged_sum, search_tagged}

-- the record of an ID and the predicate
abbrev pub tag : Bool → ℕ → ℕ → List ℕ
tag behind id k = if behind then k ∷ id ∷ [] else id ∷ k ∷ []

-- the records of the keys that are the bigger ID of their fact, or of the others
unfoldable pub tags : Bool → Bool → ℕ → List (ℕ × ℕ) → List ℕ
tags bigger behind id [] = []
tags bigger behind id ((k, o) ∷ ks) =
    let rest = tags bigger behind id ks in
    if bigger
    then (if ltb o k then tag behind id k ++ rest else rest)
    else if ltb o k
    then rest
    else tag behind id k ++ rest

pub tags-low :
    (behind : Bool) (id : ℕ) (ks : List (ℕ × ℕ))
    → collect (λ p. tag behind id p.0) (low_pairs ks) ≡ tags false behind id ks
unfolding collect low_pairs tags
tags-low behind id [] = refl
tags-low behind id ((k, o) ∷ ks) = ground (arith, tags-low behind id ks)

pub tags-high :
    (behind : Bool) (id : ℕ) (ks : List (ℕ × ℕ))
    → collect (λ p. tag behind id (p.0 + p.1)) (high_pairs ks) ≡ tags true behind id ks
unfolding collect high_pairs tags
tags-high behind id [] = refl
tags-high behind id ((k, o) ∷ ks) = elim (Bool-cases (ltb o k)) [
  | inl e ↦ rw e (ap₂ (λ n t. tag behind id n ++ t) (ground arith) (tags-high behind id ks))
  | inr e ↦ rw e (tags-high behind id ks)
]

-- what a search with a tag leaves: the buffer's own IDs, and then the records of both columns
abbrev pub Leaves : Option (Finder × Buffer) → Buffer → Bool → ℕ → List (ℕ × ℕ) → Type 0
Leaves result buffer behind id ks =
    (g : Finder) × (b : Buffer) × (result ≡ some (g, b))
    × IsReady g
    × HasRoom b
    × (contents b ≡ contents buffer ++ tags false behind id ks ++ tags true behind id ks)

pub format-HasRoom :
    (n : ℕ) (b : Buffer) → HasRoom b → HasRoom (format n b) × (contents (format n b) ≡ contents b)
unfolding format set_sort_key
format-HasRoom n b h = elim (Bool-cases b.first_time) [
  | inl e ↦ rw e (record { room = h.room; size = h.size; page = h.page }, refl)
  | inr e ↦ rw e (record { room = h.room; size = h.size; page = h.page }, refl)
]

module _ (alloc : ℕ → List ℕ) (law : IsAlloc alloc) (behind : Bool) (id : ℕ) where
  tagged_x-Emits : Emits IsPair (tagged_x alloc behind id) always (λ p. tag behind id p.0)
  unfolding Emits tagged_x
  tagged_x-Emits x y c rest t pair low v _ =
      let (middle, read, _, _, skip) =
        read-get_insert_chars x y c rest (omega arith) (omega arith) low in
      elim (Bool-cases behind) [
        | inl e ↦
            let (u, f, ins) = insert2-Inserted alloc law t x id v in rw e (u, ground arith, ins)
        | inr e ↦
            let (u, f, ins) = insert2-Inserted alloc law t id x v in rw e (u, ground arith, ins)
      ]

  tagged_sum-Emits :
      Emits IsPair (tagged_sum alloc behind id) always (λ p. tag behind id (p.0 + p.1))
  unfolding Emits tagged_sum
  tagged_sum-Emits x y c rest t pair low v _ =
      let (middle, read, then_y, _, _) =
        read-get_insert_chars x y c rest (omega arith) (omega arith) low in
      elim (Bool-cases behind) [
        | inl e ↦
            let (u, f, ins) = insert2-Inserted alloc law t (x + y) id v in
            rw e (u, ground arith, ins)
        | inr e ↦
            let (u, f, ins) = insert2-Inserted alloc law t id (x + y) v in
            rw e (u, ground arith, ins)
      ]

  -- A search with a tag appends to the buffer the records of the first column, and then those of the second.
  pub search_tagged_lem :
      (m : Manager) (ks : List (ℕ × ℕ)) (f : Finder) (buffer : Buffer)
      → Stores m ks
      → IsReady f
      → HasRoom buffer
      → Leaves (search_tagged alloc behind id m f buffer) buffer behind id ks
  unfolding search_tagged
  search_tagged_lem m ks f buffer s ready room =
      let (x, runs_x, vx, cx, _) =
        filled alloc law (tagged_x alloc behind id) (λ p. tag behind id p.0) tagged_x-Emits 2
          m.first (low_pairs ks) f.x_temp s.low ready.x in
      let (xy, runs_xy, vxy, cxy, _) =
        filled alloc law (tagged_sum alloc behind id) (λ p. tag behind id (p.0 + p.1))
          tagged_sum-Emits 2 m.second (high_pairs ks) f.xy_temp s.high ready.xy in
      let (room1, same) = format-HasRoom 2 buffer room in
      let (a, e, ca, room2) = append_other_lem alloc law (format 2 buffer) x room1 in
      let (b, h, cb, room3) = append_other_lem alloc law a xy room2 in
      (
        record { x_temp = x; xy_temp = xy },
        b,
        ground arith,
        record { x = IsValid-IsBlock x vx; xy = IsValid-IsBlock xy vxy },
        room3,
        cb
            ∙ ap₂ (λ k l. k ++ l) (ca ∙ ap₂ (λ k l. k ++ l) same (cx ∙ tags-low behind id ks))
                (cxy ∙ tags-high behind id ks),
      )
