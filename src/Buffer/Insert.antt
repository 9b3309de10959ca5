-- ===== src/Buffer/Insert.antt =====
-- TripleBit/EntityIDBuffer.cpp: the representation invariant, `insertID` and `insert_uniqueID`.
use mathlib.Core.List.Memᴰ
use native.Mathlib.Numerals.{add-one}
use mgtag.Prelude.{
  ℕ, ◌+◌, ◌*◌, ◌≤◌, ◌<◌, ◌≡◌, ◌↔◌, inl, inr, refl, ◌∙◌, true, List, [], ◌∷◌, ◌++◌, some, Memᴰ,
  Memᴰ-cons, Bool-cases, length, length-append, length-set, take-append_le, take-set_next, set, leb,
  arith, if◌then◌else◌,
}
use mgtag.Buffer.{
  Buffer, contents, page_ids, is_existed, write_next, grow, insert_id, insert_unique_id, empty,
  new_buffer, init_pages,
}

-- The next write of `insertID` goes to the first cell behind the IDs in use.
pub record IsValid (b : Buffer) : Type 0 where
  pub off : ℕ
  pub points : b.p ≡ some off
  pub next : off + b.pos ≡ b.used_size
  pub room : b.used_size ≤ b.total_size
  pub size : length b.cells ≡ b.total_size
  pub page : b.size_per_page ≡ page_ids

-- What is known of `malloc` and `realloc`: `n` new cells are `n` cells.
abbrev pub IsAlloc : (ℕ → List ℕ) → Type 0
IsAlloc alloc = (n : ℕ) → length (alloc n) ≡ n

pub empty-IsValid :
    (b : Buffer)
    → length b.cells ≡ b.total_size
    → b.size_per_page ≡ page_ids
    → IsValid (empty b) × (contents (empty b) ≡ [])
unfolding empty
empty-IsValid b h k =
    (record { off = 0; points = refl; next = refl; room = omega arith; size = h; page = k }, refl)

write_next_lem :
    (b : Buffer) (id : ℕ)
    → IsValid b
    → b.used_size < b.total_size
    → (b' : Buffer) × (write_next b id ≡ some b')
      × IsValid b'
      × (contents b' ≡ contents b ++ id ∷ [])
unfolding write_next
write_next_lem b id v room = (
  record b { cells = set b.cells b.used_size id; used_size = b.used_size + 1; pos = b.pos + 1 },
  ground (arith, v.points, v.next),
  record {
    off = v.off;
    points = v.points;
    next = omega (arith, v.next);
    room = omega arith;
    size = length-set b.cells b.used_size id ∙ v.size;
    page = v.page;
  },
  rw add-one (take-set_next b.used_size b.cells id (omega (arith, v.size))),
)

-- `is_existed` decides membership.
pub is_existed_lem : (xs : List ℕ) (id : ℕ) → (is_existed xs id ≡ true) ↔ Memᴰ id xs
unfolding is_existed
is_existed_lem [] id = (λ h. cc, λ m. absurd (Memᴰ.not-nil m))
is_existed_lem (x ∷ xs) id = ground (arith, Memᴰ-cons id x xs, is_existed_lem xs id)

module _ (alloc : ℕ → List ℕ) (ok : IsAlloc alloc) where
  pub new_buffer-IsValid : (key : ℕ) → IsValid (new_buffer alloc key)
  unfolding new_buffer
  new_buffer-IsValid key = record {
    off = 0;
    points = refl;
    next = refl;
    room = omega arith;
    size = ok (init_pages * page_ids);
    page = refl;
  }

  pub grow-IsValid :
      (b : Buffer)
      → IsValid b
      → IsValid (grow alloc b)
        × (contents (grow alloc b) ≡ contents b)
        × (b.used_size < (grow alloc b).total_size)
        × ((grow alloc b).used_size ≡ b.used_size)
  unfolding grow
  grow-IsValid b v = elim (Bool-cases (leb b.total_size b.used_size)) [
    | inl full ↦
        let full_le : b.total_size ≤ b.used_size = ground arith in
        rw full (
          record {
            off = b.total_size;
            points = refl;
            next = omega (arith, v.room);
            room = omega (arith, v.room);
            size = omega (arith, length-append b.cells (alloc 2048), ok 2048, v.size, v.page);
            page = v.page;
          },
          take-append_le b.used_size b.cells _ (omega (arith, v.size, v.room)),
          omega (arith, v.page, v.room),
          refl,
        )
    | inr fits ↦ rw fits (v, refl, ground arith, refl)
  ]

  -- On a valid buffer `insertID` succeeds, appends the ID to the contents, and keeps the buffer valid.
  pub insert_id_lem :
      (b : Buffer) (id : ℕ)
      → IsValid b
      → (b' : Buffer) × (insert_id alloc b id ≡ some b')
        × IsValid b'
        × (contents b' ≡ contents b ++ id ∷ [])
  unfolding insert_id
  insert_id_lem b id v =
      let (v', same, room, used) = grow-IsValid b v in
      let (b', e, w, c) = write_next_lem (grow alloc b) id v' (omega arith) in
      (b', e, w, rw (← same) c)

  -- On a valid buffer `insert_uniqueID` succeeds, and leaves the contents with the ID in them: as they
  -- were if it was there, and else with it at the end.
  pub insert_unique_id_lem :
      (b : Buffer) (id : ℕ)
      → IsValid b
      → (b' : Buffer) × (insert_unique_id alloc b id ≡ some b')
        × IsValid b'
        × (contents b' ≡ (if is_existed (contents b) id then contents b else contents b ++ id ∷ []))
  unfolding insert_unique_id
  insert_unique_id_lem b id v = elim (Bool-cases (is_existed (contents b) id)) [
    | inl old ↦ rw old (b, refl, v, refl)
    | inr new ↦ rw new (insert_id_lem b id v)
  ]
