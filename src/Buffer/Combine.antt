-- ===== src/Buffer/Combine.antt =====
-- TripleBit/EntityIDBuffer.cpp: `mergeBuffer` of two buffers into a third one.
use mgtag.Prelude.{
  ℕ, zero, suc, ◌+◌, ◌-◌, ◌*◌, ◌/◌, List, [], ◌∷◌, ◌++◌, none, get_or, take, drop, ltb, leb, ◌==◌,
  if◌then◌else◌,
}
use mgtag.Compact.{copy_to}
use mgtag.Buffer.{Buffer, get_size}

-- `std::merge` with `SortTask::compareInt`
unfoldable pub merge_ids : List ℕ → List ℕ → List ℕ
merge_ids [] ys = ys
merge_ids (x ∷ xs) [] = x ∷ xs
merge_ids (x ∷ xs) (y ∷ ys) =
    let first = merge_ids xs (y ∷ ys) in
    let second = merge_ids (x ∷ xs) ys in if ltb y x then y ∷ second else x ∷ first

-- `mergeBuffer` of `l1` and `l2` records of `n` IDs by the ID at `key`: the IDs of the destination
unfoldable pub merge_records : ℕ → ℕ → List ℕ → ℕ → List ℕ → ℕ → List ℕ
merge_records n key xs zero ys l2 = take (l2 * n) ys
merge_records n key xs (suc l1) ys zero = take (suc l1 * n) xs
merge_records n key xs (suc l1) ys (suc l2) =
    let first = merge_records n key (drop n xs) l1 ys (suc l2) in
    let second = merge_records n key xs (suc l1) (drop n ys) l2 in
    if leb (get_or ys key 0) (get_or xs key 0) then take n ys ++ second else take n xs ++ first

-- What is copied into the new block, of `gx` and `gy` records `xs` and `ys`, the first in the blocks
-- `x_cells` and `y_cells`; with records of two IDs and another sort key, nothing.
unfoldable pub choose : ℕ → ℕ → ℕ → ℕ → ℕ → List ℕ → List ℕ → List ℕ → List ℕ → List ℕ
choose id_count key total gx gy xs ys x_cells y_cells =
    if gx == 0
    then take total y_cells
    else if gy == 0
    then take total x_cells
    else if id_count == 1
    then merge_ids xs ys
    else if key == 0
    then merge_records 2 0 xs gx ys gy
    else if key == 1
    then merge_records 2 1 xs gx ys gy
    else []

unfoldable pub merged : Buffer → Buffer → Buffer → List ℕ
merged b x xy =
    choose b.id_count b.sort_key ((get_size x + get_size xy) * x.id_count) (get_size x)
      (get_size xy) (take (get_size x * x.id_count) x.cells)
      (take (get_size xy * xy.id_count) xy.cells) x.cells xy.cells

-- The block is freed and allocated anew, in whole pages; `p` and `pos` stay as they were.
unfoldable pub merge_buffer : (ℕ → List ℕ) → Buffer → Buffer → Buffer → Buffer
merge_buffer alloc b x xy =
    let total = (get_size x + get_size xy) * x.id_count in
    let pages = (total + (b.size_per_page - 1)) / b.size_per_page in
    record b {
      cells = copy_to (alloc (pages * b.size_per_page)) 0 (merged b x xy);
      p = none;
      used_size = total;
      total_size = pages * b.size_per_page;
    }
