-- ===== src/Builder/Runs.antt =====
-- The theorems on chunks, bitmaps, `resolveTriples` and the searches at concrete facts.
mod Columns
mod Searches
use mgtag.Prelude.{
  ℕ, ◌+◌, ◌≤◌, ◌≡◌, refl, List, [], ◌∷◌, ◌++◌, map, Option, none, some, drop, length-replicate,
  get_or-replicate, replicate, arith,
}
use mgtag.Chunk.{
  get_len, get_insert_chars, read_x_id, read_y_id, skip_x, skip_y, write_x_id, write_y_id, y_bytes,
  skip_backward,
}
use mgtag.Chunk.Backward.{back, skip_backward_lem}
use mgtag.Chunk.Codec.{read-get_insert_chars}
use mgtag.Bitmap.{Bitmap, Column, page_size, new_column, insert_xy}
use mgtag.Bitmap.Columns.{IsPages}
use mgtag.Bitmap.Pairs.{Holds, new_column-Holds, insert_xy_lem}
use mgtag.Buffer.{Buffer, contents, page_ids, new_buffer}
use mgtag.Buffer.Insert.{IsAlloc}
use mgtag.Find.{
  Finder, find_subject_id_by_predicate, find_object_id_by_predicate,
  find_subject_id_and_object_id_by_predicate, find_object_id_and_subject_id_by_predicate,
}
use mgtag.Find.Merges.{flat, keys}
use mgtag.Find.Searches.{IsReady}
use mgtag.Find.{loop}
use mgtag.Find.Merges.{low_pairs, high_pairs}
use mgtag.Bitmap.{find_manager, behind, get_start_ptr}
use mgtag.Bitmap.Pairs.{bytes_of_pairs}
use mgtag.Find.Positions.{IsPosition, present, select, first_id}
use mgtag.Find.Others.{others}
use mgtag.Find.Ranges.{
  subject_x_between, find_subject_id_between, find_object_id_between,
  find_subject_id_and_object_id_between, find_object_id_and_subject_id_between,
  find_subject_id_by_predicate_and_object, find_object_id_by_predicate_and_subject,
}
use mgtag.Find.Stuck.{subject_loop_stuck}
use mgtag.Builder.Bounds.{find_subjects_between_lem, find_objects_between_lem, find_other_id_lem}
use mgtag.Builder.Counts.{Counted}
use mgtag.Builder.Statis.{statis_lem}
use mgtag.Builder.Stored.{resolve_triples-find}
use mgtag.Builder.{Fact, Pass, swap_fact, run_pass, resolve_triples}
use mgtag.Builder.Managers.{with_predicate}
use mgtag.Builder.Passes.{distinct, distinct_from, no_facts, IsBuilt, resolve_triples_lem}
use mgtag.Builder.Answers.{find_subject_id_by_predicate_lem, find_object_id_by_predicate_lem}

unfoldable pub zeros : ℕ → List ℕ
zeros n = replicate page_size 0

pub zeros-IsPages : IsPages zeros
unfolding zeros
zeros-IsPages = record {
  size = λ n. length-replicate {A = ℕ} page_size 0;
  zeros = λ n i. get_or-replicate page_size 0 i;
}

-- new cells that hold 7
abbrev pub sevens : ℕ → List ℕ
sevens n = replicate n 7

pub sevens-IsAlloc : IsAlloc sevens
sevens-IsAlloc n = length-replicate n 7

read-get_insert_chars_example :
    (middle : List ℕ) × (read_x_id (get_insert_chars 300 5 ++ 0 ∷ 9 ∷ []) ≡ some (300, middle))
    × (read_y_id middle ≡ some (5, 0 ∷ 9 ∷ []))
    × (skip_x (get_insert_chars 300 5 ++ 0 ∷ 9 ∷ []) ≡ some middle)
    × (skip_y middle ≡ some (0 ∷ 9 ∷ []))
read-get_insert_chars_example =
    read-get_insert_chars 300 5 0 (9 ∷ []) (omega arith) (omega arith) (omega arith)

five : write_y_id 5 ≡ 133 ∷ []
unfolding write_y_id y_bytes
five = refl

skip_backward_lem_example :
    (skip_backward (back (write_x_id 300 ++ 133 ∷ [] ++ replicate 2 0) (130 ∷ 1 ∷ []))
      ≡ some (130 ∷ 1 ∷ []))
    × (skip_backward (back (write_x_id 300 ++ 133 ∷ [] ++ replicate 2 0) []) ≡ none)
skip_backward_lem_example = skip_backward_lem 300 5 2 133 130 [] [] (1 ∷ []) five (omega arith)

insert_xy_lem_example :
    Holds (insert_xy zeros (new_column zeros 80) 300 5 (get_len 300 + get_len 5)) ((300, 5) ∷ [])
insert_xy_lem_example =
    insert_xy_lem zeros zeros-IsPages (new_column zeros 80) [] 300 5
      (new_column-Holds zeros zeros-IsPages 80 (omega arith)) (omega arith)

-- facts with the predicates 5 and 6, one of them twice
abbrev by_subject : List Fact
by_subject = (3, 5, 9) ∷ (3, 5, 9) ∷ (4, 5, 2) ∷ (4, 6, 7) ∷ []

abbrev by_object : List Fact
by_object = (4, 5, 2) ∷ (4, 6, 7) ∷ (3, 5, 9) ∷ (3, 5, 9) ∷ []

resolve_triples_lem_example :
    (first : Pass) × (second : Pass) × (resolve_triples zeros no_facts by_subject by_object
      ≡ some (first, second))
    × IsBuilt zeros zeros-IsPages second.bitmap
        (distinct by_subject)
        (distinct (map swap_fact by_object))
unfolding swap_fact
resolve_triples_lem_example =
    resolve_triples_lem zeros zeros-IsPages (3, 5, 9) (4, 5, 2)
      ((3, 5, 9) ∷ (4, 5, 2) ∷ (4, 6, 7) ∷ []) ((4, 6, 7) ∷ (3, 5, 9) ∷ (3, 5, 9) ∷ [])
      (omega arith) (omega arith)

-- what the two passes leave
built :
    (first : Pass) × (second : Pass) × (resolve_triples zeros no_facts by_subject by_object
      ≡ some (first, second))
    × IsBuilt zeros zeros-IsPages second.bitmap
        (distinct by_subject)
        (distinct (map swap_fact by_object))
unfolding swap_fact
built =
    resolve_triples_lem zeros zeros-IsPages (3, 5, 9) (4, 5, 2)
      ((3, 5, 9) ∷ (4, 5, 2) ∷ (4, 6, 7) ∷ []) ((4, 6, 7) ∷ (3, 5, 9) ∷ (3, 5, 9) ∷ [])
      (omega arith) (omega arith)

pub stored : Bitmap
stored = built.1.bitmap

abbrev pub subjects : List Fact
subjects = (3, 5, 9) ∷ (4, 5, 2) ∷ (4, 6, 7) ∷ []

abbrev pub objects : List Fact
objects = (2, 5, 4) ∷ (7, 6, 4) ∷ (9, 5, 3) ∷ []

pub stored-IsBuilt : IsBuilt zeros zeros-IsPages stored subjects objects
unfolding stored swap_fact distinct_from
stored-IsBuilt = built.3

abbrev pub finder : Finder
finder = record { x_temp = new_buffer sevens 0; xy_temp = new_buffer sevens 0 }

pub finder-IsReady : IsReady finder
unfolding new_buffer
finder-IsReady = record {
  x = record { size = sevens-IsAlloc 1024; page = refl };
  xy = record { size = sevens-IsAlloc 1024; page = refl };
}

pub new_buffer-page : (new_buffer sevens 0).size_per_page ≡ page_ids
unfolding new_buffer
new_buffer-page = refl

find_subject_id_by_predicate_lem_example :
    (g : Finder) × (c : Buffer) × (find_subject_id_by_predicate sevens zeros stored 5 finder
        (new_buffer sevens 0)
      ≡ some (g, c))
    × IsReady g
    × (contents c ≡ keys (with_predicate 5 subjects))
find_subject_id_by_predicate_lem_example =
    find_subject_id_by_predicate_lem zeros zeros-IsPages sevens sevens-IsAlloc stored subjects
      objects stored-IsBuilt 5 finder (new_buffer sevens 0) finder-IsReady new_buffer-page
      (ground arith)

resolve_triples-find_example :
    (first : Pass) × (second : Pass) × (resolve_triples zeros no_facts by_subject by_object
      ≡ some (first, second))
    × ((p : ℕ)
        → ((g : Finder) × (c : Buffer) × (find_subject_id_and_object_id_by_predicate sevens zeros
                second.bitmap p finder
                (new_buffer sevens 0)
              ≡ some (g, c))
            × IsReady g
            × (contents c ≡ flat (with_predicate p (distinct by_subject))))
          × ((g : Finder) × (c : Buffer) × (find_object_id_and_subject_id_by_predicate sevens zeros
                  second.bitmap p finder
                  (new_buffer sevens 0)
                ≡ some (g, c))
              × IsReady g
              × (contents c ≡ flat (with_predicate p (distinct (map swap_fact by_object))))))
unfolding swap_fact
resolve_triples-find_example =
    resolve_triples-find zeros zeros-IsPages sevens sevens-IsAlloc (3, 5, 9) (4, 5, 2)
      ((3, 5, 9) ∷ (4, 5, 2) ∷ (4, 6, 7) ∷ []) ((4, 6, 7) ∷ (3, 5, 9) ∷ (3, 5, 9) ∷ []) finder
      (new_buffer sevens 0) (omega arith) (omega arith) (ground arith) (ground arith) finder-IsReady
      new_buffer-page

statis_lem_example :
    (s : Pass) × (run_pass zeros 0 no_facts by_subject ≡ some s) × Counted s (distinct by_subject)
statis_lem_example =
    statis_lem zeros 0 no_facts (3, 5, 9) ((3, 5, 9) ∷ (4, 5, 2) ∷ (4, 6, 7) ∷ []) (ground arith)
      (omega arith)
