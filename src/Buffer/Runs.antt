-- ===== src/Buffer/Runs.antt =====
-- The theorems on EntityIDBuffer at concrete buffers.
use mgtag.Buffer.Union.{Ascending, merge_single_buffer}
use mgtag.Buffer.Merged.{merge_single_buffer_lem}
use mgtag.Buffer.Search.{
  key_of, get_entity_id_pos, find_value_by_key, modify_value_by_key, Found, get_entity_id_pos_lem,
}
use mgtag.Buffer.Modify.{find-modify}
use mgtag.Buffer.Unique.{unique_from, uniqe, uniqe_lem}
use mgtag.Compact.{copy_to}
use mgtag.Prelude.{
  Option, ◌≤◌, ◌<◌, ◌↔◌, ◌⊎◌, Memᴰ, ascends_test, ascends_test-Ascends, ℕ, ◌≡◌, refl, true, List,
  [], ◌∷◌, ◌++◌, some, length, get_or, length-replicate, take, replicate, arith,
}
use mgtag.Buffer.{Buffer, contents, insert_id, append_buffer1}
use mgtag.Buffer.Insert.{IsValid, IsAlloc, insert_id_lem}
use mgtag.Buffer.Append.{insert_after_append}

-- new cells that hold 7
abbrev sevens : ℕ → List ℕ
sevens n = replicate n 7

sevens-IsAlloc : IsAlloc sevens
sevens-IsAlloc n = length-replicate n 7

-- a full block of two IDs
abbrev full : Buffer
full = record {
  id_count = 1;
  cells = 4 ∷ 9 ∷ [];
  p = some 0;
  pos = 2;
  used_size = 2;
  total_size = 2;
  size_per_page = 1024;
  sort_key = 0;
  sorted = true;
  first_time = true;
}

-- a block of four cells with one ID
abbrev roomy : Buffer
roomy = record full { cells = 4 ∷ 0 ∷ 0 ∷ 0 ∷ []; pos = 1; used_size = 1; total_size = 4 }

full-IsValid : IsValid full
full-IsValid = record {
  off = 0;
  points = refl;
  next = refl;
  room = omega arith;
  size = refl;
  page = refl;
}

roomy-IsValid : IsValid roomy
roomy-IsValid = record {
  off = 0;
  points = refl;
  next = refl;
  room = omega arith;
  size = refl;
  page = refl;
}

insert_id_lem_example :
    (b' : Buffer) × (insert_id sevens full 5 ≡ some b')
    × IsValid b'
    × (contents b' ≡ contents full ++ 5 ∷ [])
insert_id_lem_example = insert_id_lem sevens sevens-IsAlloc full 5 full-IsValid

insert_after_append_example :
    (b1 : Buffer) × (b2 : Buffer) × (append_buffer1 sevens roomy (5 ∷ 6 ∷ []) ≡ some b1)
    × (insert_id sevens b1 8 ≡ some b2)
    × (b2.used_size ≡ 4)
    × (take 3 (contents b2) ≡ contents roomy ++ 8 ∷ 6 ∷ [])
    × (get_or b2.cells 3 0 ≡ 0)
insert_after_append_example =
    insert_after_append sevens sevens-IsAlloc roomy 5 8 (6 ∷ []) roomy-IsValid (omega arith)

merge_single_buffer_lem_example :
    (b' : Buffer) × (merge_single_buffer sevens roomy (1 ∷ 5 ∷ []) (2 ∷ 5 ∷ 8 ∷ []) ≡ some b')
    × IsValid b'
    × Ascending (contents b')
    × ((a : ℕ) → Memᴰ a (contents b') ↔ (Memᴰ a (1 ∷ 5 ∷ []) ⊎ Memᴰ a (2 ∷ 5 ∷ 8 ∷ [])))
merge_single_buffer_lem_example =
    merge_single_buffer_lem sevens sevens-IsAlloc roomy (1 ∷ 5 ∷ []) (2 ∷ 5 ∷ 8 ∷ []) refl refl
      ((omega arith, tt), (tt, tt))
      ((omega arith, (omega arith, tt)), ((omega arith, tt), (tt, tt)))

-- three pairs
abbrev table : Buffer
table = record full {
  id_count = 2;
  cells = 2 ∷ 20 ∷ 4 ∷ 40 ∷ 4 ∷ 41 ∷ [];
  used_size = 6;
  total_size = 6;
}

table-Ascending : (i j : ℕ) → i ≤ j → j < 3 → key_of table i ≤ key_of table j
unfolding ascends_test
table-Ascending = ascends_test-Ascends (key_of table) 3 refl

get_entity_id_pos_lem_example :
    (r : Option ℕ) × (get_entity_id_pos table 4 ≡ some r) × Found (key_of table) 3 4 r
get_entity_id_pos_lem_example = get_entity_id_pos_lem table 4 table-Ascending

find-modify_example :
    (b' : Buffer) × (modify_value_by_key table 4 99 ≡ some (true, b'))
    × (find_value_by_key b' 4 ≡ some 99)
find-modify_example =
    find-modify table refl (omega arith) table-Ascending 2 4 99 (omega arith) (omega arith) refl

-- ascending IDs, one of them twice
abbrev twice : Buffer
twice = record full { cells = 2 ∷ 2 ∷ 5 ∷ 0 ∷ []; pos = 3; used_size = 3; total_size = 4 }

-- The ID 7 of the new block counts as well.
uniqe-twice : contents (uniqe sevens twice) ≡ 2 ∷ 5 ∷ 7 ∷ []
unfolding uniqe unique_from copy_to
uniqe-twice = refl

uniqe_lem_example :
    (us : List ℕ) × Ascending us
    × ((x : ℕ) → Memᴰ x us ↔ Memᴰ x (2 ∷ 2 ∷ 5 ∷ []))
    × (take (length us) (uniqe sevens twice).cells ≡ us)
    × (length us ≤ (uniqe sevens twice).used_size)
    × ((uniqe sevens twice).used_size ≡ 3)
    × ((i : ℕ) → length us ≤ i → get_or (uniqe sevens twice).cells i 0 ≡ get_or (sevens 4) i 0)
uniqe_lem_example =
    uniqe_lem sevens twice sevens-IsAlloc refl refl (omega arith) (ground arith) (ground arith)
