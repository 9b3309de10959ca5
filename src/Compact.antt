-- ===== src/Compact.antt =====
-- How TripleBit/EntityIDBuffer.cpp and TripleBit/SortMergeJoin.cpp filter a block of records in place:
-- the records kept go to a page `temp`, which is copied back to the block's front when it is full.
-- `none`: a record is written past the page.
pub mod Laws
use mgtag.Prelude.{
  ℕ, zero, suc, ◌+◌, ◌*◌, Bool, true, false, List, [], ◌∷◌, ◌++◌, Option, none, some, length,
  get_or, set, ltb, ◌==◌, if◌then◌else◌,
}

-- `memcpy(buffer + at, xs, …)`
unfoldable pub copy_to : List ℕ → ℕ → List ℕ → List ℕ
copy_to cells at [] = cells
copy_to cells at (x ∷ xs) = copy_to (set cells at x) (at + 1) xs

-- `temp` is the page up to `pos`; `size` is the number of cells written back
pub record Page : Type 0 where
  pub cells : List ℕ
  pub temp : List ℕ
  pub size : ℕ

unfoldable pub start : List ℕ → Page
start cells = record { cells = cells; temp = []; size = 0 }

-- `n` cells from `at` on
unfoldable pub read : List ℕ → ℕ → ℕ → List ℕ
read cells zero at = []
read cells (suc n) at = get_or cells at 0 ∷ read cells n (at + 1)

-- `memcpy(buffer + size, temp, …); size += pos;`
unfoldable pub write_back : Page → Page
write_back p = record {
  cells = copy_to p.cells p.size p.temp;
  temp = [];
  size = p.size + length p.temp;
}

-- A page of `cap` cells takes record `i` of `n` cells.
unfoldable pub emit : ℕ → ℕ → Page → ℕ → Option Page
emit cap n p i =
    let q = if length p.temp == cap then write_back p else p in
    if ltb cap (length q.temp + n)
    then none
    else some (record q { temp = q.temp ++ read q.cells n (i * n) })

-- the records before `i` that a test on their index keeps: what the filtering is to leave
unfoldable pub kept : List ℕ → ℕ → (ℕ → Bool) → ℕ → List ℕ
kept cells n test zero = []
kept cells n test (suc i) =
    let rest = kept cells n test i in if test i then rest ++ read cells n (i * n) else rest
