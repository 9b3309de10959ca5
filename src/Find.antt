-- ===== src/Find.antt =====
-- TripleBit/FindEntityID.h, TripleBit/FindEntityID.cpp: the searches in the columns of a predicate.
-- `none`: a read behind the memory, a write through a dangling pointer, or a loop that does not end.
pub mod Scans
pub mod Inserts
pub mod Tagged
pub mod TaggedBetween
pub mod Merges
pub mod Searches
pub mod Ranges
pub mod Positions
pub mod Bodies
pub mod Between
pub mod Others
pub mod OneId
pub mod Stuck
use mgtag.Prelude.{
  ℕ, zero, suc, ◌+◌, ◌-◌, ◌%◌, ◌^◌, Bool, true, false, List, [], ◌∷◌, Option, none, some, length,
  drop, ltb, leb, ◌==◌, ◌&&◌, if◌then◌else◌, ◌>>=◌,
}
use mgtag.Chunk.{read_x_id, read_y_id, skip_y}
use mgtag.Bitmap.{Column, Manager, Bitmap, get_start_ptr, behind, find_manager}
use mgtag.Buffer.{Buffer, empty, set_sort_key, insert_id, append_other}
use mgtag.Buffer.Combine.{merge_buffer}

-- what a round of a loop does: it goes on from a pointer, or breaks
pub data Turn : Type 0 where
  more : List ℕ → Buffer → Turn
  halt : Buffer → Turn

-- `for (; reader < limit; )` over a body; `rest` bytes stand from `limit` on
unfoldable pub loop : (List ℕ → Buffer → Option Turn) → ℕ → ℕ → List ℕ → Buffer → Option Buffer
loop body zero rest reader t = none
loop body (suc fuel) rest reader t = elim (ltb rest (length reader)) [
  | false ↦ some t
  | true ↦ elim (body reader t) [
    | none ↦ none
    | some (halt u) ↦ some u
    | some (more r u) ↦ loop body fuel rest r u
  ]
]

-- a loop from the start of a column to its end
unfoldable pub scan : (List ℕ → Buffer → Option Turn) → Column → Buffer → Option Buffer
scan body c t = let start = get_start_ptr c in loop body (suc (length start)) (behind c) start t

-- the loop from an offset on, where the index has found one
unfoldable pub scan_from :
    (List ℕ → Buffer → Option Turn) → Column → Option ℕ → Buffer → Option Buffer
scan_from body c none t = some t
scan_from body c (some offset) t =
    let start = drop offset (get_start_ptr c) in loop body (suc (length start)) (behind c) start t

-- the sum of two words
abbrev pub sum : ℕ → ℕ → ℕ
sum x y = (x + y) % 2 ^ 32

-- XTemp and XYTemp
pub record Finder : Type 0 where
  pub x_temp : Buffer
  pub xy_temp : Buffer

-- `empty()`, `setIDCount(n)` and `setSortKey(0)` on a temporary buffer
unfoldable pub prepare : ℕ → Buffer → Buffer
prepare n b = set_sort_key (record (empty b) { id_count = n }) 0

-- the same on the result, which is not emptied
unfoldable pub format : ℕ → Buffer → Buffer
format n b = set_sort_key (record b { id_count = n }) 0

module _ (alloc : ℕ → List ℕ) where
  unfoldable pub insert2 : Buffer → ℕ → ℕ → Option Buffer
  insert2 t a b = do u ← insert_id alloc t a; insert_id alloc u b

  -- the bodies of the loops, each over the first column and then over the second
  unfoldable pub id_of_x : List ℕ → Buffer → Option Turn
  id_of_x reader t = do
    (x, r) ← read_x_id reader
    u ← insert_id alloc t x
    s ← skip_y r
    some (more s u)

  unfoldable pub id_of_sum : List ℕ → Buffer → Option Turn
  id_of_sum reader t = do
    (x, r) ← read_x_id reader
    (y, s) ← read_y_id r
    u ← insert_id alloc t (sum x y)
    some (more s u)

  unfoldable pub pair_of_x : List ℕ → Buffer → Option Turn
  pair_of_x reader t = do
    (x, r) ← read_x_id reader
    (y, s) ← read_y_id r
    u ← insert2 t x (sum x y)
    some (more s u)

  unfoldable pub pair_of_sum : List ℕ → Buffer → Option Turn
  pair_of_sum reader t = do
    (x, r) ← read_x_id reader
    (y, s) ← read_y_id r
    u ← insert2 t (sum x y) x
    some (more s u)

  -- a search without bounds: two loops, and the merge of what they found
  unfoldable pub search_all :
      ℕ
      → (List ℕ → Buffer → Option Turn)
      → (List ℕ → Buffer → Option Turn)
      → Manager
      → Finder
      → Buffer
      → Option (Finder × Buffer)
  search_all n first second m f buffer = do
    x ← scan first m.first (prepare n f.x_temp)
    xy ← scan second m.second (prepare n f.xy_temp)
    some (record { x_temp = x; xy_temp = xy }, merge_buffer alloc (format n buffer) x xy)

  module _ (page : ℕ → List ℕ) (b : Bitmap) where
    unfoldable pub find_subject_id_by_predicate : ℕ → Finder → Buffer → Option (Finder × Buffer)
    find_subject_id_by_predicate id =
        search_all 1 id_of_x id_of_sum (find_manager page b.by_subject id)

    unfoldable pub find_object_id_by_predicate : ℕ → Finder → Buffer → Option (Finder × Buffer)
    find_object_id_by_predicate id =
        search_all 1 id_of_x id_of_sum (find_manager page b.by_object id)

    unfoldable pub find_subject_id_and_object_id_by_predicate :
        ℕ → Finder → Buffer → Option (Finder × Buffer)
    find_subject_id_and_object_id_by_predicate id =
        search_all 2 pair_of_x pair_of_sum (find_manager page b.by_subject id)

    unfoldable pub find_object_id_and_subject_id_by_predicate :
        ℕ → Finder → Buffer → Option (Finder × Buffer)
    find_object_id_and_subject_id_by_predicate id =
        search_all 2 pair_of_x pair_of_sum (find_manager page b.by_object id)
