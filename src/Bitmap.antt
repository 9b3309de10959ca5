-- ===== src/Bitmap.antt =====
-- TripleBit/BitmapBuffer.h, TripleBit/BitmapBuffer.cpp: the columns of pairs of a chunk manager, and the
-- managers of a bitmap buffer. The pages of a column are one list of bytes in the order of `usedPage`, in
-- which `save` and `load` lay them out; a pointer is an offset into it. The manager's meta data stands in
-- the record; the first column leaves room for it at its start.
pub mod Columns
pub mod Pairs
use mgtag.Prelude.{
  ℕ, zero, suc, ◌+◌, ◌-◌, ◌*◌, Bool, true, false, List, [], ◌∷◌, ◌++◌, Option, none, some, length,
  take, drop, replicate, leb, ◌==◌, if◌then◌else◌,
}
use mgtag.Compact.{copy_to}
use mgtag.Chunk.{get_len, get_insert_chars, generate_xy}

-- MemoryBuffer::pagesize
abbrev pub page_size : ℕ
page_size = 4096

-- sizeof(ChunkManagerMeta)
abbrev pub meta_size : ℕ
meta_size = 80

pub record Column : Type 0 where
  pub meta : ℕ
  pub bytes : List ℕ
  pub space : ℕ
  pub end_ptr : ℕ
  pub used : ℕ
  pub count : ℕ

pub record Manager : Type 0 where
  pub first : Column
  pub second : Column

-- `predicate_managers[0]`, for triples sorted by subject, and `[1]`, for those sorted by object
pub record Bitmap : Type 0 where
  pub by_subject : List (ℕ × Manager)
  pub by_object : List (ℕ × Manager)

-- `getStartPtr` and `getUsedSpace`
abbrev pub get_start_ptr : Column → List ℕ
get_start_ptr c = drop c.meta c.bytes

-- the bytes from `getEndPtr` on
abbrev pub behind : Column → ℕ
behind c = length (get_start_ptr c) - c.used

unfoldable pub is_ptr_full : Column → ℕ → Bool
is_ptr_full c len = leb c.space (c.used + (len + c.meta))

-- the last lines of `insertXY`, for the bytes that are left
unfoldable pub append_rest : Column → List ℕ → ℕ → ℕ → Column
append_rest c temp remain len = record c {
  bytes = copy_to c.bytes c.end_ptr (take remain temp);
  end_ptr = c.end_ptr + remain;
  used = c.used + len;
  count = c.count + 1;
}

-- `page n`: the bytes of the page that `getPage` delivers for offset `n` of a column
module _ (page : ℕ → List ℕ) where
  -- the constructor of ChunkManager, for one column
  unfoldable pub new_column : ℕ → Column
  new_column meta = record {
    meta = meta;
    bytes = page 0;
    space = page_size;
    end_ptr = meta;
    used = 0;
    count = 0;
  }

  unfoldable pub new_manager : Manager
  new_manager = record { first = new_column meta_size; second = new_column 0 }

  -- `resize`: a new page; the end is its start
  unfoldable pub resize : Column → Column
  resize c = record c {
    bytes = c.bytes ++ page c.space;
    space = c.space + page_size;
    end_ptr = c.space;
  }

  -- `insertXY`: where the pair does not fit with a byte left, its bytes are split between two pages.
  unfoldable pub insert_xy : Column → ℕ → ℕ → ℕ → Column
  insert_xy c x y len =
      let temp = get_insert_chars x y in
      let offset = c.space - c.used - c.meta in
      if is_ptr_full c len
      then append_rest (resize (record c { bytes = copy_to c.bytes c.end_ptr (take offset temp) }))
          (drop offset temp) (len - offset) len
      else append_rest c temp len len

  -- `getChunkManager`: the first time a manager is made
  unfoldable pub find_manager : List (ℕ × Manager) → ℕ → Manager
  find_manager [] id = new_manager
  find_manager ((k, m) ∷ ms) id = if k == id then m else find_manager ms id

  unfoldable pub put_manager : List (ℕ × Manager) → ℕ → Manager → List (ℕ × Manager)
  put_manager [] id m = (id, m) ∷ []
  put_manager ((k, n) ∷ ms) id m = if k == id then (k, m) ∷ ms else (k, n) ∷ put_manager ms id m

  -- the column of `insertTriple`: the second one holds the pairs with the flag
  unfoldable pub insert_pair : Manager → ℕ → ℕ → Bool → Manager
  insert_pair m x y flag =
      let len = get_len x + get_len y in
      if flag
      then record m { second = insert_xy m.second x y len }
      else record m { first = insert_xy m.first x y len }

  unfoldable pub insert_triple : Bitmap → ℕ → ℕ → ℕ → Bool → ℕ → Bitmap
  insert_triple b id x y flag f =
      if f == 0
      then record b {
        by_subject =
            put_manager b.by_subject id (insert_pair (find_manager b.by_subject id) x y flag);
      }
      else record b {
        by_object = put_manager b.by_object id (insert_pair (find_manager b.by_object id) x y flag);
      }

-- `getTripleCount` of a manager
unfoldable pub get_triple_count : Manager → ℕ
get_triple_count m = m.first.count + m.second.count
