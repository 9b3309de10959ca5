-- ===== src/Builder/Runs/Columns.antt =====
-- Facts with two or three pairs in each column, and the indices that `buildIndex` makes of the columns: the
-- first key and the last one, and the two lines through them.
use mgtag.Prelude.{
  ℕ, ◌+◌, ◌-◌, ◌/◌, ◌≡◌, refl, sym, subst, ap, List, [], ◌∷◌, Option, none, some, ltb, ◌==◌,
  if◌then◌else◌, arith,
}
use mgtag.Bitmap.{Bitmap, Manager, Column, find_manager}
use mgtag.Bitmap.Pairs.{bytes_of_pairs}
use mgtag.Find.Merges.{low_pairs, high_pairs}
use mgtag.Find.Positions.{IsPosition, present}
use mgtag.Find.Ranges.{carried}
use mgtag.Builder.Managers.{with_predicate}
use mgtag.LineIndex.Offset.{ColumnIndex, by_x, by_sum, get_offset_by_id}
use mgtag.Builder.{Fact, Pass, swap_fact, resolve_triples}
use mgtag.Builder.Passes.{distinct_from, no_facts, IsBuilt, resolve_triples_lem}
use mgtag.Builder.Runs.{zeros, zeros-IsPages}

abbrev read_by_subject : List Fact
read_by_subject = (3, 5, 9) ∷ (7, 5, 8) ∷ (7, 5, 12) ∷ (8, 5, 2) ∷ (9, 5, 3) ∷ []

-- the same facts by object, subject first
abbrev read_by_object : List Fact
read_by_object = (8, 5, 2) ∷ (9, 5, 3) ∷ (7, 5, 8) ∷ (3, 5, 9) ∷ (7, 5, 12) ∷ []

abbrev pub rows : List Fact
rows = read_by_subject

abbrev pub swapped_rows : List Fact
swapped_rows = (2, 5, 8) ∷ (3, 5, 9) ∷ (8, 5, 7) ∷ (9, 5, 3) ∷ (12, 5, 7) ∷ []

abbrev bitmap_of : Option (Pass × Pass) → Bitmap
bitmap_of none = record { by_subject = []; by_object = [] }
bitmap_of (some (first, second)) = second.bitmap

unfoldable pub table : Bitmap
table = bitmap_of (resolve_triples zeros no_facts read_by_subject read_by_object)

pub table-IsBuilt : IsBuilt zeros zeros-IsPages table rows swapped_rows
unfolding table swap_fact distinct_from
table-IsBuilt =
    let (first, second, runs, built) =
      resolve_triples_lem zeros zeros-IsPages (3, 5, 9) (8, 5, 2)
        ((7, 5, 8) ∷ (7, 5, 12) ∷ (8, 5, 2) ∷ (9, 5, 3) ∷ [])
        ((9, 5, 3) ∷ (7, 5, 8) ∷ (3, 5, 9) ∷ (7, 5, 12) ∷ []) (omega arith) (omega arith) in
    subst (λ b. IsBuilt zeros zeros-IsPages b rows swapped_rows) (sym (ap bitmap_of runs)) built

-- the lines through (first, 0) and (last, 1), and what `buildIndex` enters for two pairs or more
abbrev index_of : ℕ → ℕ → ℕ → ColumnIndex
index_of first last offset = record {
  lower = λ line id. if ltb id last then none else some ((id - last) / (last - first));
  upper = λ line id. some ((id - first + (last - first - 1)) / (last - first));
  table = record {
    ids = first ∷ last ∷ [];
    start_id = first ∷ 4294967295 ∷ 4294967295 ∷ 4294967295 ∷ [];
  };
  offsets = 0 ∷ offset ∷ [];
  ahead = 128 ∷ [];
}

-- by the room at the start of a column and its number of pairs
unfoldable pub index : Column → ColumnIndex
index c =
    if c.meta == 80
    then (if c.count == 3 then index_of 3 7 4 else index_of 2 3 2)
    else (if c.count == 3 then index_of 8 12 4 else index_of 8 9 2)

-- what `getOffsetByID` gives in the two columns of a manager
abbrev Gives : Manager → ℕ → ℕ → ℕ → Type 0
Gives m id first second =
    (get_offset_by_id by_x (index m.first) m.first id 77 ≡ some (some first))
    × (get_offset_by_id by_sum (index m.second) m.second id (carried 77 (some first))
        ≡ some (some second))

-- The last line: no pair of that column has a key of 8 or more, and getOffsetByID gives the last pair, whose
-- key is 3.
offsets :
    Gives (find_manager zeros table.by_subject 5) 7 2 0
    × Gives (find_manager zeros table.by_subject 5) 3 0 0
    × Gives (find_manager zeros table.by_object 5) 3 2 0
    × (get_offset_by_id by_x
          (index (find_manager zeros table.by_object 5).first)
          (find_manager zeros table.by_object 5).first
          8
          77
        ≡ some (some 2))
unfolding table index zeros get_offset_by_id mgtag.LineIndex.Offset.search_column
    mgtag.LineIndex.Offset.end_of mgtag.LineIndex.Offset.halve_column
    mgtag.LineIndex.Offset.settle_offset mgtag.LineIndex.Offset.middle
    mgtag.LineIndex.Offset.walk_back mgtag.LineIndex.Offset.offset_of
    mgtag.LineIndex.Offset.pair_from mgtag.LineIndex.Offset.skip_from
    mgtag.LineIndex.Offset.read_key mgtag.Chunk.read_x_id mgtag.Chunk.read_x mgtag.Chunk.read_y_id
    mgtag.Chunk.read_y mgtag.Chunk.skip_backward mgtag.Chunk.back_zeros mgtag.Chunk.back_y
    mgtag.Chunk.back_x mgtag.Chunk.Backward.back mgtag.LineIndex.search_chunk
    mgtag.LineIndex.line_no mgtag.LineIndex.search_between mgtag.LineIndex.halve
    mgtag.LineIndex.settle mgtag.LineIndex.guess mgtag.LineIndex.walk_down mgtag.LineIndex.walk_up
    mgtag.LineIndex.clamp_lower mgtag.LineIndex.clamp_upper resolve_triples mgtag.Builder.run_pass
    mgtag.Builder.rounds mgtag.Builder.next_fact mgtag.Builder.insert_fact mgtag.Builder.count_fact
    mgtag.Bitmap.insert_triple mgtag.Bitmap.insert_pair mgtag.Bitmap.put_manager
    mgtag.Bitmap.find_manager mgtag.Bitmap.new_manager mgtag.Bitmap.new_column
    mgtag.Bitmap.insert_xy mgtag.Bitmap.is_ptr_full mgtag.Bitmap.append_rest mgtag.Bitmap.resize
    mgtag.Compact.copy_to mgtag.Chunk.get_len mgtag.Chunk.groups mgtag.Chunk.get_insert_chars
    mgtag.Chunk.write_x_id mgtag.Chunk.write_y_id mgtag.Chunk.x_bytes mgtag.Chunk.y_bytes
    mgtag.Chunk.generate_xy swap_fact carried
offsets = ((refl, refl), (refl, refl), (refl, refl), refl)

pub rows_from_7 :
    IsPosition index 77 (find_manager zeros table.by_subject 5) (with_predicate 5 rows) 7
unfolding low_pairs high_pairs with_predicate bytes_of_pairs mgtag.Chunk.get_insert_chars
    mgtag.Chunk.write_x_id mgtag.Chunk.x_bytes mgtag.Chunk.write_y_id mgtag.Chunk.y_bytes
rows_from_7 =
    let ((a, b), _, _, _) = offsets in
    record {
      first = some 2;
      second = some 0;
      runs_first = a;
      runs_second = b;
      low =
          present ((3, 6) ∷ []) ((7, 1) ∷ (7, 5) ∷ []) refl refl (omega arith, tt)
            (omega arith, (omega arith, tt));
      high = present [] ((2, 6) ∷ (3, 6) ∷ []) refl refl tt (omega arith, (omega arith, tt));
    }

pub rows_from_3 :
    IsPosition index 77 (find_manager zeros table.by_subject 5) (with_predicate 5 rows) 3
unfolding low_pairs high_pairs with_predicate bytes_of_pairs mgtag.Chunk.get_insert_chars
    mgtag.Chunk.write_x_id mgtag.Chunk.x_bytes mgtag.Chunk.write_y_id mgtag.Chunk.y_bytes
rows_from_3 =
    let (_, (a, b), _, _) = offsets in
    record {
      first = some 0;
      second = some 0;
      runs_first = a;
      runs_second = b;
      low =
          present [] ((3, 6) ∷ (7, 1) ∷ (7, 5) ∷ []) refl refl tt
            (omega arith, (omega arith, (omega arith, tt)));
      high = present [] ((2, 6) ∷ (3, 6) ∷ []) refl refl tt (omega arith, (omega arith, tt));
    }

pub swapped_rows_from_3 :
    IsPosition index 77 (find_manager zeros table.by_object 5) (with_predicate 5 swapped_rows) 3
unfolding low_pairs high_pairs with_predicate bytes_of_pairs mgtag.Chunk.get_insert_chars
    mgtag.Chunk.write_x_id mgtag.Chunk.x_bytes mgtag.Chunk.write_y_id mgtag.Chunk.y_bytes
swapped_rows_from_3 =
    let (_, _, (a, b), _) = offsets in
    record {
      first = some 2;
      second = some 0;
      runs_first = a;
      runs_second = b;
      low = present ((2, 6) ∷ []) ((3, 6) ∷ []) refl refl (omega arith, tt) (omega arith, tt);
      high =
          present [] ((7, 1) ∷ (3, 6) ∷ (7, 5) ∷ []) refl refl tt
            (omega arith, (omega arith, (omega arith, tt)));
    }
