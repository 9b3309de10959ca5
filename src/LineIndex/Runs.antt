-- ===== src/LineIndex/Runs.antt =====
-- The theorem on `searchChunk` at the index that `buildIndex` makes of a column whose first pair has the key 3
-- and whose last one has the key 7.
use mgtag.Prelude.{
  ℕ, ◌-◌, ◌/◌, ◌≤◌, ◌<◌, ◌≡◌, ◌⊎◌, refl, [], ◌∷◌, get_or, ascends_test, ascends_test-Ascends,
  Option, none, some, ltb, if◌then◌else◌, arith,
}
use mgtag.LineIndex.{
  Index, table_size, entry, clamp_lower, clamp_upper, search_chunk, line_no, search_between, halve,
  settle, guess, walk_down, walk_up,
}
use mgtag.LineIndex.Chunks.{Found, search_chunk_lem}

abbrev index : Index
index = record { ids = 3 ∷ 7 ∷ []; start_id = 3 ∷ 4294967295 ∷ 4294967295 ∷ 4294967295 ∷ [] }

-- the lower line: (id - 7) / 4
abbrev lower : ℕ → ℕ → Option ℕ
lower line id = if ltb id 7 then none else some ((id - 7) / 4)

-- the upper line: (id - 3) / 4, rounded up
abbrev upper : ℕ → ℕ → Option ℕ
upper line id = some (id / 4)

ascend : (a b : ℕ) → a ≤ b → b < table_size index → entry index a ≤ entry index b
unfolding ascends_test
ascend = ascends_test-Ascends (entry index) 2 refl

search_5 : search_chunk lower upper index 5 ≡ some (some 0)
unfolding search_chunk line_no search_between halve settle guess walk_down walk_up clamp_lower
    clamp_upper
search_5 = refl

-- the bounds meet
search_3 : search_chunk lower upper index 3 ≡ some (some 0)
unfolding search_chunk line_no search_between clamp_lower clamp_upper
search_3 = refl

search_chunk_lem_example :
    ((5 < get_or index.start_id 0 0) × (search_chunk lower upper index 5 ≡ some none))
    ⊎ ((get_or index.start_id 0 0 ≤ 5)
        × (line : ℕ) × (line_no index 5 ≡ some line)
        × Found lower upper index 5 line)
search_chunk_lem_example = search_chunk_lem lower upper index 5 (omega arith) ascend
