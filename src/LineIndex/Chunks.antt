-- ===== src/LineIndex/Chunks.antt =====
-- TripleBit/LineHashIndex.cpp: `searchChunk` finds the chunk in which the pairs of an ID begin.
use mgtag.Prelude.{
  ℕ, suc, ◌≤◌, ◌<◌, ◌≡◌, inl, inr, refl, false, Option, none, some, get_or, ltb, ◌==◌, ◌⊎◌,
  Bool-cases, arith, if◌then◌else◌,
}
use mgtag.LineIndex.{
  Index, table_size, entry, line_no, clamp_upper, clamp_lower, search_between, search_chunk, settle,
  guess,
}
use mgtag.LineIndex.Walks.{IsChunk, settle-IsChunk, halve-guess}

clamp_upper_lem : (size : ℕ) (n : Option ℕ) → 0 < size → clamp_upper size n < size
unfolding clamp_upper
clamp_upper_lem size none h = omega arith
clamp_upper_lem size (some n) h = ground arith

module _ (lower upper : ℕ → ℕ → Option ℕ) (t : Index) where
  abbrev low_of : ℕ → ℕ → ℕ
  low_of line id = clamp_lower (table_size t) (lower line id)

  abbrev high_of : ℕ → ℕ → ℕ
  high_of line id = clamp_upper (table_size t) (upper line id)

  -- what `searchChunk` gives in a line: the lines cross, they meet, or they leave entries between them
  pub data Found (id line : ℕ) : Type 0 where
    crossed :
        high_of line id < low_of line id → search_chunk lower upper t id ≡ none → Found id line
    met :
        low_of line id ≡ high_of line id
        → search_chunk lower upper t id ≡ some (some (low_of line id))
        → Found id line
    between :
        low_of line id < high_of line id
        → (r : ℕ) → search_chunk lower upper t id ≡ some (some r)
        → IsChunk (entry t) (table_size t) id r
        → Found id line

  below_steps : (id : ℕ) → line_no t id ≡ none → search_chunk lower upper t id ≡ some none
  unfolding search_chunk
  below_steps id e = ground arith

  found_steps :
      (id line r : ℕ)
      → line_no t id ≡ some line
      → search_between (entry t) id (table_size t) (low_of line id) (high_of line id) ≡ some r
      → search_chunk lower upper t id ≡ some (some r)
  unfolding search_chunk
  found_steps id line r e f = ground arith

  crossed_steps :
      (id line : ℕ)
      → line_no t id ≡ some line
      → high_of line id < low_of line id
      → search_chunk lower upper t id ≡ none
  unfolding search_chunk search_between
  crossed_steps id line e h = ground arith

  met_steps :
      (id line : ℕ)
      → low_of line id ≡ high_of line id
      → search_between (entry t) id (table_size t) (low_of line id) (high_of line id)
        ≡ some (low_of line id)
  unfolding search_between
  met_steps id line h = ground arith

  between_steps :
      (id line : ℕ)
      → 0 < table_size t
      → ((a b : ℕ) → a ≤ b → b < table_size t → entry t a ≤ entry t b)
      → low_of line id < high_of line id
      → (r : ℕ) × (search_between (entry t) id (table_size t) (low_of line id) (high_of line id)
          ≡ some r)
        × IsChunk (entry t) (table_size t) id r
  unfolding search_between
  between_steps id line some_entry ascend apart =
      let low = low_of line id in
      let high = high_of line id in
      let inside = clamp_upper_lem (table_size t) (upper line id) some_entry in
      let tested : ltb high low ≡ false = ground arith in
      let differ : (low == high) ≡ false = ground arith in
      let (stop, runs, lands) =
        halve-guess (entry t) (table_size t) id (suc high) low high (omega arith) inside
          (omega arith) in
      rw (tested, differ, runs)
        (
          settle (entry t) id (table_size t) (guess (entry t) id stop),
          refl,
          settle-IsChunk (entry t) (table_size t) id ascend (guess (entry t) id stop) lands,
        )

  in_line :
      (id line : ℕ)
      → 0 < table_size t
      → ((a b : ℕ) → a ≤ b → b < table_size t → entry t a ≤ entry t b)
      → line_no t id ≡ some line
      → Found id line
  in_line id line some_entry ascend e =
      let low = low_of line id in
      let high = high_of line id in
      elim (Bool-cases (ltb high low)) [
        | inl o ↦
            let over : high < low = ground arith in crossed over (crossed_steps id line e over)
        | inr o ↦ elim (Bool-cases (low == high)) [
          | inl s ↦
              let same : low ≡ high = ground arith in
              met same (found_steps id line low e (met_steps id line same))
          | inr s ↦
              let apart : low < high = ground arith in
              let (r, runs, chunk) = between_steps id line some_entry ascend apart in
              between apart r (found_steps id line r e runs) chunk
        ]
      ]

  -- For a table that is not empty, with its entries ascending, and whatever its lines give, searchChunk gives
  -- -1 exactly for an ID below the first line. In the line of another ID, where the bounds, once moved into
  -- the table, leave entries between them, its loops end, and it gives the last entry below the ID, or the
  -- first entry of all, with no entry below the ID behind it, also where the chunk lies outside the bounds;
  -- where the bounds meet it gives that entry, which it does not compare with the ID; and where they cross
  -- its assertion fails.
  pub search_chunk_lem :
      (id : ℕ)
      → 0 < table_size t
      → ((a b : ℕ) → a ≤ b → b < table_size t → entry t a ≤ entry t b)
      → ((id < get_or t.start_id 0 0) × (search_chunk lower upper t id ≡ some none))
        ⊎ ((get_or t.start_id 0 0 ≤ id) × (line : ℕ) × (line_no t id ≡ some line) × Found id line)
  unfolding line_no
  search_chunk_lem id some_entry ascend = elim (Bool-cases (ltb id (get_or t.start_id 0 0))) [
    | inl e ↦ inl (ground arith, below_steps id (rw e refl))
    | inr e ↦
        let line : ℕ =
          if ltb id (get_or t.start_id 1 0)
          then 0
          else if ltb id (get_or t.start_id 2 0)
          then 1
          else if ltb id (get_or t.start_id 3 0)
          then 2
          else 3 in
        let here : line_no t id ≡ some line = rw e refl in
        inr (ground arith, line, here, in_line id line some_entry ascend here)
  ]
