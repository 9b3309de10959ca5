-- ===== src/LineIndex/Offset.antt =====
-- TripleBit/LineHashIndex.cpp: `getOffsetByID`, the offset in a column from which an ID is searched.
-- A pointer is an offset into `memory`, which holds what stands before the column, `ahead`, and then the
-- column. Offsets are words of 64 bits. The outer `none` is a failed assertion, a read outside the memory
-- or a loop out of fuel; the inner one is NOT_FOUND.
use mgtag.Prelude.{
  ℕ, zero, suc, ◌+◌, ◌-◌, ◌/◌, ◌%◌, ◌^◌, ◌++◌, List, [], Option, none, some, get_or, length, take,
  drop, ltb, ◌==◌, ◌&&◌, ◌||◌, if◌then◌else◌, ◌>>=◌,
}
use mgtag.Chunk.{read_x_id, read_y_id, skip_backward}
use mgtag.Chunk.Backward.{back}
use mgtag.Bitmap.{Column, get_start_ptr}
use mgtag.LineIndex.{Index, table_size, entry, search_chunk}

-- the index of one column: what `floor` and `ceil` of its lines give, its tables, and the bytes in the
-- memory before the column
pub record ColumnIndex : Type 0 where
  pub lower : ℕ → ℕ → Option ℕ
  pub upper : ℕ → ℕ → Option ℕ
  pub table : Index
  pub offsets : List ℕ
  pub ahead : List ℕ

-- the two columns of a manager: pairs are searched by their x in the first, by x + y in the second
pub data ColumnType : Type 0 where
  by_x by_sum : ColumnType

unfoldable pub read_key : ColumnType → List ℕ → Option ℕ
read_key by_x reader = do (x, r) ← read_x_id reader; some x
read_key by_sum reader = do (x, r) ← read_x_id reader; (y, s) ← read_y_id r; some ((x + y) % 2 ^ 32)

-- `n - 1` of a size_t
abbrev pub before : ℕ → ℕ
before n = (n + (2 ^ 64 - 1)) % 2 ^ 64

module _ (kind : ColumnType) (begin : ℕ) (memory : List ℕ) (id : ℕ) where
  -- `skipBackward(beginPtr + n)`
  unfoldable pub skip_from : ℕ → Option ℕ
  skip_from n =
      let at = (begin + n) % 2 ^ 64 in
      if ltb at (length memory)
      then (do r ← skip_backward (back (take (at + 1) memory) []); some (length r))
      else none

  -- the pair at which `skipBackward` stops, and its key
  unfoldable pub pair_from : ℕ → Option (ℕ × ℕ)
  pair_from n = do reader ← skip_from n; x ← read_key kind (drop reader memory); some (reader, x)

  -- `reader - beginPtr`
  unfoldable pub offset_of : ℕ → ℕ
  offset_of reader = (reader + (2 ^ 64 - begin)) % 2 ^ 64

  -- the loops `while (low > 0)` and `while (mid > 0)`, back over the pairs with the ID
  unfoldable pub walk_back : ℕ → ℕ → ℕ → Option ℕ
  walk_back zero low last = none
  walk_back (suc fuel) low last = if low == 0 then some last else elim (pair_from low) [
    | none ↦ none
    | some (reader, x) ↦
        let next = offset_of reader in
        let rest = walk_back fuel (before next) next in
        if ltb reader begin || ltb x id then some last else rest
  ]

  unfoldable pub middle : ℕ → ℕ → ℕ
  middle low high = elim kind [ by_x ↦ low + (high - low) / 2 | by_sum ↦ (low + high) % 2 ^ 64 / 2 ]

  -- the lines behind the loop
  unfoldable pub settle_offset : ℕ → Option ℕ
  settle_offset mid =
      if mid == 0 then some 0 else (do reader ← skip_from mid; some (offset_of reader))

  -- The loop `while (low <= high)`, with the `mid` and `lastmid` of the round before. A round on the
  -- middle of the round before is the last one.
  unfoldable pub halve_column : ℕ → ℕ → ℕ → ℕ → ℕ → Option ℕ
  halve_column zero low high mid last = none
  halve_column (suc fuel) low high mid last =
      if ltb high low then settle_offset mid else elim (pair_from (middle low high)) [
        | none ↦ none
        | some (reader, x) ↦
            let now = middle low high in
            let left = halve_column fuel low (before now) now now in
            let right = halve_column fuel ((now + 1) % 2 ^ 64) high now now in
            if x == id
            then walk_back (suc (length memory)) now now
            else if last == now
            then settle_offset now
            else if ltb id x
            then left
            else right
      ]

  -- from the bounds that the tables give; `offset` is what the caller's variable holds
  unfoldable pub search_column : ℕ → ℕ → ℕ → Option ℕ
  search_column low high offset = do
    x ← read_key kind (drop (begin + low) memory)
    if x == id
        then walk_back (suc (length memory)) low low
        else if ltb id x
        then some offset
        else halve_column 130 low high 0 0

unfoldable pub end_of : ColumnIndex → Column → ℕ → ℕ → ℕ
end_of i c chunk start =
    let used = c.used % 2 ^ 32 in
    let stop =
      if ltb (chunk + 1) (table_size i.table) then get_or i.offsets (chunk + 1) 0 else used in
    if ltb stop start then used else stop

-- `getOffsetByID`
unfoldable pub get_offset_by_id : ColumnType → ColumnIndex → Column → ℕ → ℕ → Option (Option ℕ)
get_offset_by_id kind i c id offset =
    if c.count == 0 then some none else elim (search_chunk i.lower i.upper i.table id) [
      | none ↦ none
      | some none ↦
          let size = table_size i.table in
          if ltb 0 size && ltb (entry i.table (size - 1)) id then some none else some (some 0)
      | some (some chunk) ↦
          let start = get_or i.offsets chunk 0 in
          do
            o ←
                search_column kind (length i.ahead) (i.ahead ++ get_start_ptr c) id start
                  (end_of i c chunk start) offset
            some (some o)
    ]
