-- ===== src/Buffer/Append.antt =====
-- TripleBit/EntityIDBuffer.cpp: `appendBuffer1` and `appendBuffer`, and what `insertID` does after them.
use mgtag.Prelude.{
  ℕ, zero, suc, ◌+◌, ◌*◌, ◌≤◌, ◌<◌, ◌≡◌, inl, inr, refl, sym, append-nil, ◌==◌, true, false, ap,
  ◌∙◌, List, [], ◌∷◌, ◌++◌, none, some, Bool-cases, length, length-append, take, take-append_le,
  set-set_comm, set-set_self, take-take_le, get_or, get_or-set_ne, set, ltb, arith,
}
use mgtag.Buffer.{
  Buffer, contents, page_ids, init_pages, grow, write_next, insert_id, grow_to, append_buffer1,
  append_other,
}
use mgtag.Compact.{copy_to}
use mgtag.Compact.Laws.{length-copy_to, take-copy_to, get_or-copy_to}
use mgtag.Buffer.Insert.{IsValid, IsAlloc}

-- what an append needs of a buffer, and leaves of it; `p` and `pos` do not matter
pub record HasRoom (b : Buffer) : Type 0 where
  pub room : b.used_size ≤ b.total_size
  pub size : length b.cells ≡ b.total_size
  pub page : b.size_per_page ≡ page_ids

pub IsValid-HasRoom : (b : Buffer) → IsValid b → HasRoom b
IsValid-HasRoom b v = record { room = v.room; size = v.size; page = v.page }

module _ (alloc : ℕ → List ℕ) (law : IsAlloc alloc) where
  -- what growing leaves as it is
  record Grown (b b' : Buffer) (need : ℕ) : Type 0 where
    enough : need ≤ b'.total_size
    size : length b'.cells ≡ b'.total_size
    same_used : b'.used_size ≡ b.used_size
    same_page : b'.size_per_page ≡ b.size_per_page
    kept : take b.used_size b'.cells ≡ take b.used_size b.cells

  grow_to_lem :
      (fuel need : ℕ) (b : Buffer)
      → b.used_size ≤ b.total_size
      → length b.cells ≡ b.total_size
      → b.size_per_page ≡ page_ids
      → need ≤ b.total_size + fuel
      → (b' : Buffer) × (grow_to alloc fuel need b ≡ some b') × Grown b b' need
  unfolding grow_to
  grow_to_lem zero need b room size page enough = (
    b,
    ground arith,
    record { enough = omega arith; size = size; same_used = refl; same_page = refl; kept = refl },
  )
  grow_to_lem (suc fuel) need b room size page enough = elim (Bool-cases (ltb b.total_size need)) [
    | inl short ↦
        let b1 : Buffer = record b {
          cells = b.cells ++ alloc (init_pages * page_ids);
          p = none;
          total_size = b.total_size + init_pages * b.size_per_page;
        } in
        let (b', e, g) =
          grow_to_lem fuel need b1 (omega arith)
            (omega (arith, length-append b.cells (alloc 1024), law 1024)) page (omega arith) in
        (
          b',
          rw short e,
          record {
            enough = g.enough;
            size = g.size;
            same_used = g.same_used;
            same_page = g.same_page;
            kept = g.kept ∙ take-append_le b.used_size b.cells _ (omega arith);
          },
        )
    | inr fits ↦ (
      b,
      rw fits,
      record {
        enough = ground arith;
        size = size;
        same_used = refl;
        same_page = refl;
        kept = refl;
      },
    )
  ]

  append_of_grown :
      (b b' : Buffer) (xs : List ℕ)
      → grow_to alloc (suc (length xs)) (b.used_size + length xs) b ≡ some b'
      → append_buffer1 alloc b xs
        ≡ some (record b' {
          cells = copy_to b'.cells b'.used_size xs;
          used_size = b'.used_size + length xs;
        })
  unfolding append_buffer1
  append_of_grown b b' xs e = ground arith

  contents-append :
      (b b' : Buffer) (xs : List ℕ)
      → Grown b b' (b.used_size + length xs)
      → take (b'.used_size + length xs) (copy_to b'.cells b'.used_size xs) ≡ contents b ++ xs
  contents-append b b' xs g = rw g.same_used (
      take-copy_to b'.cells b.used_size xs (omega (arith, g.enough, g.size))
      ∙ ap (λ t. t ++ xs) g.kept)

  pub append_room_lem :
      (b : Buffer) (xs : List ℕ)
      → HasRoom b
      → (b' : Buffer) × (append_buffer1 alloc b xs ≡ some b')
        × (contents b' ≡ contents b ++ xs)
        × HasRoom b'
  append_room_lem b xs v =
      let (b', e, g) =
        grow_to_lem (suc (length xs)) (b.used_size + length xs) b v.room v.size v.page
          (omega (arith, v.room)) in
      (
        _,
        append_of_grown b b' xs e,
        contents-append b b' xs g,
        record {
          room = omega (arith, g.enough, g.same_used);
          size = length-copy_to b'.cells b'.used_size xs ∙ g.size;
          page = g.same_page ∙ v.page;
        },
      )

  -- On a valid buffer `appendBuffer1` ends, and appends the IDs to the contents.
  pub append_buffer1_lem :
      (b : Buffer) (xs : List ℕ)
      → IsValid b
      → (b' : Buffer) × (append_buffer1 alloc b xs ≡ some b') × (contents b' ≡ contents b ++ xs)
  append_buffer1_lem b xs v =
      let (b', e, c, _) = append_room_lem b xs (IsValid-HasRoom b v) in (b', e, c)

  append_other-some :
      (b other b' : Buffer)
      → (other.used_size == 0) ≡ false
      → append_buffer1 alloc b (contents other) ≡ some b'
      → append_other alloc b other ≡ some b'
  unfolding append_other
  append_other-some b other b' e f = ground arith

  append_other-none :
      (b other : Buffer) → (other.used_size == 0) ≡ true → append_other alloc b other ≡ some b
  unfolding append_other
  append_other-none b other e = ground arith

  -- `appendBuffer` of another buffer appends its contents.
  pub append_other_lem :
      (b other : Buffer)
      → HasRoom b
      → (b' : Buffer) × (append_other alloc b other ≡ some b')
        × (contents b' ≡ contents b ++ contents other)
        × HasRoom b'
  append_other_lem b other v = elim (Bool-cases (other.used_size == 0)) [
    | inl e ↦
        let unused : other.used_size ≡ 0 = ground arith in
        let nothing : contents other ≡ [] = ap (λ n. take n other.cells) unused in
        (
          b,
          append_other-none b other e,
          sym (append-nil (contents b)) ∙ ap (λ k. contents b ++ k) (sym nothing),
          v,
        )
    | inr e ↦
        let (b', f, c, w) = append_room_lem b (contents other) v in
        (b', append_other-some b other b' e f, c, w)
  ]

  set-copy_to_before :
      (cells : List ℕ) (i at : ℕ) (xs : List ℕ) (y : ℕ)
      → i < at
      → set (copy_to cells at xs) i y ≡ copy_to (set cells i y) at xs
  unfolding copy_to
  set-copy_to_before cells i at [] y h = refl
  set-copy_to_before cells i at (x ∷ xs) y h =
      set-copy_to_before (set cells at x) i (at + 1) xs y (omega arith)
      ∙ ap (λ t. copy_to t (at + 1) xs) (set-set_comm cells at i x y (omega arith))

  set-copy_to_first :
      (cells : List ℕ) (at x y : ℕ) (xs : List ℕ)
      → set (copy_to cells at (x ∷ xs)) at y ≡ copy_to cells at (y ∷ xs)
  unfolding copy_to
  set-copy_to_first cells at x y xs =
      set-copy_to_before (set cells at x) at (at + 1) xs y (omega arith)
      ∙ ap (λ t. copy_to t (at + 1) xs) (set-set_self cells at x y)

  no_growth :
      (fuel need : ℕ) (b : Buffer) → need ≤ b.total_size → grow_to alloc fuel need b ≡ some b
  unfolding grow_to
  no_growth zero need b h = ground arith
  no_growth (suc fuel) need b h = ground arith

  insert_at_stale :
      (b : Buffer) (off id : ℕ)
      → b.p ≡ some off
      → b.used_size < b.total_size
      → insert_id alloc b id
        ≡ some (record b {
          cells = set b.cells (off + b.pos) id;
          used_size = b.used_size + 1;
          pos = b.pos + 1;
        })
  unfolding insert_id grow write_next
  insert_at_stale b off id e room = ground arith

  -- After an `appendBuffer1` of at least one ID to a valid buffer that has room for them and one more,
  -- `insertID` writes through a pointer that the append did not move: the size grows by one, the ID replaces
  -- the first of the appended ones, and the new last cell holds what the block held there before both calls.
  pub insert_after_append :
      (b : Buffer) (x id : ℕ) (xs : List ℕ)
      → IsValid b
      → b.used_size + length (x ∷ xs) < b.total_size
      → (b1 : Buffer) × (b2 : Buffer) × (append_buffer1 alloc b (x ∷ xs) ≡ some b1)
        × (insert_id alloc b1 id ≡ some b2)
        × (b2.used_size ≡ b.used_size + length (x ∷ xs) + 1)
        × (take (b.used_size + length (x ∷ xs)) (contents b2) ≡ contents b ++ id ∷ xs)
        × (get_or b2.cells (b.used_size + length (x ∷ xs)) 0
            ≡ get_or b.cells (b.used_size + length (x ∷ xs)) 0)
  insert_after_append b x id xs v room =
      let n = b.used_size + length (x ∷ xs) in
      let b1 : Buffer = record b { cells = copy_to b.cells b.used_size (x ∷ xs); used_size = n } in
      (
        b1,
        record b1 { cells = set b1.cells (v.off + b.pos) id; used_size = n + 1; pos = b.pos + 1 },
        append_of_grown b b (x ∷ xs) (no_growth _ n b (omega arith)),
        insert_at_stale b1 v.off id v.points (omega arith),
        refl,
        take-take_le n (n + 1) (set b1.cells (v.off + b.pos) id) (omega arith)
            ∙ rw (v.next, set-copy_to_first)
                (take-copy_to b.cells b.used_size (id ∷ xs) (omega (arith, v.size))),
        get_or-set_ne b1.cells (v.off + b.pos) n id 0 (omega (arith, v.next))
            ∙ get_or-copy_to b.cells b.used_size n (x ∷ xs) (omega arith),
      )
