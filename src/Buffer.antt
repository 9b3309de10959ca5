-- ===== src/Buffer.antt =====
-- TripleBit/EntityIDBuffer.h, TripleBit/EntityIDBuffer.cpp: the growable buffer of IDs.
-- `cells` is the allocated block of `total_size` IDs. `p` is an offset into it; it is `none` once the
-- block has been replaced under the pointer. `malloc` and `realloc` deliver cells of any content:
-- `alloc n` is that of `n` new cells. They are taken not to fail.
pub mod Insert
pub mod Append
pub mod Filter
pub mod Union
pub mod Merged
pub mod Combine
pub mod Unique
pub mod Combined
pub mod Search
pub mod Modify
mod Runs
use mgtag.Prelude.{
  ℕ, zero, suc, ◌+◌, ◌-◌, ◌*◌, ◌/◌, Bool, true, false, List, [], ◌∷◌, ◌++◌, Option, none, some,
  length, get_or, set, take, drop, ltb, leb, ◌==◌, if◌then◌else◌,
}
use mgtag.Compact.{copy_to}

pub record Buffer : Type 0 where
  pub id_count : ℕ
  pub cells : List ℕ
  pub p : Option ℕ
  pub pos : ℕ
  pub used_size : ℕ
  pub total_size : ℕ
  pub size_per_page : ℕ
  pub sort_key : ℕ
  pub sorted : Bool
  pub first_time : Bool

pub data Status : Type 0 where
  ok err : Status

-- MemoryBuffer::pagesize / sizeof(ID)
abbrev pub page_ids : ℕ
page_ids = 1024

-- ENTITY_BUFFER_INIT_PAGE_COUNT and ENTITY_BUFFER_INCREMENT_PAGE_COUNT
abbrev pub init_pages : ℕ
init_pages = 1

abbrev pub increment_pages : ℕ
increment_pages = 2

-- the IDs in use
abbrev pub contents : Buffer → List ℕ
contents b = take b.used_size b.cells

abbrev pub get_size : Buffer → ℕ
get_size b = b.used_size / b.id_count

-- `empty()`; it leaves the sort key alone
unfoldable pub empty : Buffer → Buffer
empty b = record b { sorted = true; first_time = true; p = some 0; used_size = 0; pos = 0 }

unfoldable pub set_sort_key : Buffer → ℕ → Buffer
set_sort_key b key =
    if b.first_time
    then record b { sort_key = key; first_time = false }
    else record b { sort_key = key; sorted = false }

-- `is_existed` looks at all IDs in use.
unfoldable pub is_existed : List ℕ → ℕ → Bool
is_existed [] id = false
is_existed (x ∷ xs) id = if x == id then true else is_existed xs id

-- `getID`: the position `used_size` passes the test.
unfoldable pub get_id : Buffer → ℕ → Status × Option ℕ
get_id b pos = if ltb b.used_size pos then (err, none) else (ok, some (get_or b.cells pos 0))

-- `p[pos] = id; usedSize++; pos++;`. `none`: the write goes through a dangling pointer.
unfoldable pub write_next : Buffer → ℕ → Option Buffer
write_next b id = elim b.p [
  | none ↦ none
  | some off ↦ some (record b {
    cells = set b.cells (off + b.pos) id;
    used_size = b.used_size + 1;
    pos = b.pos + 1;
  })
]

module _ (alloc : ℕ → List ℕ) where
  -- the default constructor; the sort key is left uninitialised: `key`
  unfoldable pub new_buffer : ℕ → Buffer
  new_buffer key = record {
    id_count = 1;
    cells = alloc (init_pages * page_ids);
    p = some 0;
    pos = 0;
    used_size = 0;
    total_size = init_pages * page_ids;
    size_per_page = page_ids;
    sort_key = key;
    sorted = true;
    first_time = true;
  }

  -- The growth in `insertID`: `p` moves to the first of the new cells.
  unfoldable pub grow : Buffer → Buffer
  grow b =
      if leb b.total_size b.used_size
      then record b {
        cells = b.cells ++ alloc (increment_pages * page_ids);
        p = some b.total_size;
        total_size = b.total_size + increment_pages * b.size_per_page;
        pos = 0;
      }
      else b

  unfoldable pub insert_id : Buffer → ℕ → Option Buffer
  insert_id b id = write_next (grow b) id

  unfoldable pub insert_unique_id : Buffer → ℕ → Option Buffer
  insert_unique_id b id = if is_existed (contents b) id then some b else insert_id b id

  -- `appendBuffer1`. The block grows page by page, and `p` and `pos` keep their values: `p` dangles
  -- after a `realloc`. The loop ends since each page adds `size_per_page` cells.
  unfoldable pub grow_to : ℕ → ℕ → Buffer → Option Buffer
  grow_to zero need b = if ltb b.total_size need then none else some b
  grow_to (suc fuel) need b =
      let rest = grow_to fuel need (record b {
        cells = b.cells ++ alloc (init_pages * page_ids);
        p = none;
        total_size = b.total_size + init_pages * b.size_per_page;
      }) in
      if ltb b.total_size need then rest else some b

  unfoldable pub append_buffer1 : Buffer → List ℕ → Option Buffer
  append_buffer1 b xs = elim (grow_to (suc (length xs)) (b.used_size + length xs) b) [
    | none ↦ none
    | some b' ↦ some (record b' {
      cells = copy_to b'.cells b'.used_size xs;
      used_size = b'.used_size + length xs;
    })
  ]

  -- `appendBuffer(buf, size)`. `none`: the copy runs past the block. On the branch that grows, the
  -- function returns before it sets the new size.
  unfoldable pub append_buffer : Buffer → List ℕ → Option (Status × Buffer)
  append_buffer b xs =
      let n = b.used_size + length xs in
      if ltb b.total_size n
      then some (err, record b { cells = take n (b.cells ++ alloc (length xs)); p = none })
      else if ltb b.total_size (n + length xs)
      then none
      else some (ok, record b { cells = copy_to b.cells n xs; used_size = n })

  -- `appendBuffer(otherBuffer)`
  unfoldable pub append_other : Buffer → Buffer → Option Buffer
  append_other b other = if other.used_size == 0 then some b else append_buffer1 b (contents other)

  -- `operator=` and `copy` of another buffer: the block is reallocated, and `p` and `pos` stay.
  unfoldable pub assign : Buffer → Buffer → Buffer
  assign b other = record b {
    used_size = other.used_size;
    total_size = other.total_size;
    id_count = other.id_count;
    sort_key = other.sort_key;
    sorted = other.sorted;
    p = none;
    cells =
        copy_to (take other.total_size (b.cells ++ alloc (other.total_size - length b.cells))) 0
          (contents other);
  }
