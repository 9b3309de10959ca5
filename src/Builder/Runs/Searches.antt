-- ===== src/Builder/Runs/Searches.antt =====
-- The theorems on the searches within bounds, and on those with a tag, at concrete facts.
use mgtag.Prelude.{◌≡◌, refl, [], ◌∷◌, none, some, drop, arith}
use mgtag.Bitmap.Pairs.{Holds}
use mgtag.Buffer.{Buffer, contents, new_buffer}
use mgtag.Find.{Finder}
use mgtag.Find.Merges.{flat, keys}
use mgtag.Find.Searches.{IsReady}
use mgtag.Find.{loop}
use mgtag.Find.Merges.{low_pairs}
use mgtag.Bitmap.{find_manager, behind, get_start_ptr}
use mgtag.Bitmap.Pairs.{bytes_of_pairs}
use mgtag.Find.Positions.{select, first_id}
use mgtag.Find.Others.{others}
use mgtag.Find.Ranges.{
  find_subject_id_and_predicate_id_between, find_object_id_and_predicate_id_between,
  subject_x_between, find_subject_id_between, find_object_id_between,
  find_subject_id_and_object_id_between, find_object_id_and_subject_id_between,
  find_subject_id_by_predicate_and_object, find_object_id_by_predicate_and_subject,
}
use mgtag.Find.Stuck.{subject_loop_stuck}
use mgtag.Builder.Bounds.{find_subjects_between_lem, find_objects_between_lem, find_other_id_lem}
use mgtag.Builder.Managers.{with_predicate}
use mgtag.Builder.Runs.{
  zeros, zeros-IsPages, sevens, sevens-IsAlloc, stored, stored-IsBuilt, subjects, objects, finder,
  finder-IsReady, new_buffer-page,
}
use mgtag.Builder.Runs.Columns.{
  index, table, table-IsBuilt, rows, swapped_rows, rows_from_3, rows_from_7, swapped_rows_from_3,
}
use mgtag.Builder.Tagged.{find_tagged_lem, find_tagged_between_lem}
use mgtag.Buffer.Append.{HasRoom}
use mgtag.Find.Tagged.{Leaves}
use mgtag.Prelude.{true, false}
use mgtag.Find.Ranges.{
  find_subject_id_and_predicate_id, find_predicate_id_and_subject_id,
  find_object_id_and_predicate_id, find_predicate_id_and_object_id,
}

find_subjects_between_lem_example :
    ((g : Finder) × (c : Buffer) × (find_subject_id_between sevens index 77 zeros table 5 7 8 finder
          (new_buffer sevens 0)
        ≡ some (g, c))
      × IsReady g
      × (contents c ≡ keys (select first_id 7 8 (with_predicate 5 rows))))
    × ((g : Finder) × (c : Buffer) × (find_subject_id_and_object_id_between sevens index 77 zeros
            table 5 7 8 finder
            (new_buffer sevens 0)
          ≡ some (g, c))
        × IsReady g
        × (contents c ≡ flat (select first_id 7 8 (with_predicate 5 rows))))
find_subjects_between_lem_example =
    find_subjects_between_lem zeros zeros-IsPages sevens sevens-IsAlloc table rows swapped_rows
      table-IsBuilt index 77 5 7 8 finder (new_buffer sevens 0) finder-IsReady new_buffer-page
      (ground arith) (omega arith) rows_from_7

find_objects_between_lem_example :
    ((g : Finder) × (c : Buffer) × (find_object_id_between sevens index 77 zeros table 5 3 9 finder
          (new_buffer sevens 0)
        ≡ some (g, c))
      × IsReady g
      × (contents c ≡ keys (select first_id 3 9 (with_predicate 5 swapped_rows))))
    × ((g : Finder) × (c : Buffer) × (find_object_id_and_subject_id_between sevens index 77 zeros
            table 5 3 9 finder
            (new_buffer sevens 0)
          ≡ some (g, c))
        × IsReady g
        × (contents c ≡ flat (select first_id 3 9 (with_predicate 5 swapped_rows))))
find_objects_between_lem_example =
    find_objects_between_lem zeros zeros-IsPages sevens sevens-IsAlloc table rows swapped_rows
      table-IsBuilt index 77 5 3 9 finder (new_buffer sevens 0) finder-IsReady new_buffer-page
      (ground arith) (omega arith) swapped_rows_from_3

find_other_id_lem_example :
    ((g : Finder) × (c : Buffer) × (find_subject_id_by_predicate_and_object sevens index 77 zeros
          table 5 3 0 20 finder
          (new_buffer sevens 0)
        ≡ some (g, c))
      × IsReady g
      × (contents c ≡ others 3 0 20 (with_predicate 5 swapped_rows)))
    × ((g : Finder) × (c : Buffer) × (find_object_id_by_predicate_and_subject sevens index 77 zeros
            table 5 3 0 20 finder
            (new_buffer sevens 0)
          ≡ some (g, c))
        × IsReady g
        × (contents c ≡ others 3 0 20 (with_predicate 5 rows)))
find_other_id_lem_example =
    find_other_id_lem zeros zeros-IsPages sevens sevens-IsAlloc table rows swapped_rows
      table-IsBuilt index 77 5 0 20 finder (new_buffer sevens 0) finder-IsReady new_buffer-page 3
      (ground arith) (ground arith) swapped_rows_from_3 rows_from_3

stored_low : Holds (find_manager zeros stored.by_subject 5).first ((3, 6) ∷ [])
unfolding low_pairs with_predicate
stored_low = (stored-IsBuilt.subjects 5).low

subject_loop_stuck_example :
    loop
      (subject_x_between sevens 4 9)
      1000
      (behind (find_manager zeros stored.by_subject 5).first)
      (drop 0 (get_start_ptr (find_manager zeros stored.by_subject 5).first))
      (new_buffer sevens 0)
    ≡ none
unfolding bytes_of_pairs
subject_loop_stuck_example =
    subject_loop_stuck sevens 4 9 (find_manager zeros stored.by_subject 5).first [] [] 3 6 1000
      (new_buffer sevens 0) stored_low (omega arith) (omega arith)

new_buffer-HasRoom : HasRoom (new_buffer sevens 0)
unfolding new_buffer
new_buffer-HasRoom = record { room = omega arith; size = sevens-IsAlloc 1024; page = refl }

find_tagged_lem_example :
    Leaves
      (find_subject_id_and_predicate_id sevens zeros stored 5 finder (new_buffer sevens 0))
      (new_buffer sevens 0)
      true
      5
      (with_predicate 5 subjects)
    × Leaves
        (find_predicate_id_and_subject_id sevens zeros stored 5 finder (new_buffer sevens 0))
        (new_buffer sevens 0)
        false
        5
        (with_predicate 5 subjects)
    × Leaves
        (find_object_id_and_predicate_id sevens zeros stored 5 finder (new_buffer sevens 0))
        (new_buffer sevens 0)
        true
        5
        (with_predicate 5 objects)
    × Leaves
        (find_predicate_id_and_object_id sevens zeros stored 5 finder (new_buffer sevens 0))
        (new_buffer sevens 0)
        false
        5
        (with_predicate 5 objects)
find_tagged_lem_example =
    find_tagged_lem zeros zeros-IsPages sevens sevens-IsAlloc stored subjects objects stored-IsBuilt
      5 finder (new_buffer sevens 0) (ground arith) (ground arith) finder-IsReady new_buffer-HasRoom

find_tagged_between_lem_example :
    Leaves
      (find_subject_id_and_predicate_id_between sevens index 77 zeros table 5 3 9 finder
        (new_buffer sevens 0))
      (new_buffer sevens 0)
      true
      5
      (select first_id 3 9 (with_predicate 5 rows))
    × Leaves
        (find_object_id_and_predicate_id_between sevens index 77 zeros table 5 3 9 finder
          (new_buffer sevens 0))
        (new_buffer sevens 0)
        true
        5
        (select first_id 3 9 (with_predicate 5 swapped_rows))
find_tagged_between_lem_example =
    find_tagged_between_lem zeros zeros-IsPages sevens sevens-IsAlloc table rows swapped_rows
      table-IsBuilt index 77 5 3 9 finder (new_buffer sevens 0) (ground arith) (ground arith)
      rows_from_3 swapped_rows_from_3 finder-IsReady new_buffer-HasRoom
