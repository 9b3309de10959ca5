-- ===== src/LineIndex.antt =====
-- TripleBit/LineHashIndex.h, TripleBit/LineHashIndex.cpp: the search for the chunk of an ID.
-- The lines are evaluated in floating point: what `floor` and `ceil` give is a parameter, `none` below 0.
pub mod Walks
pub mod Chunks
pub mod Offset
mod Runs
use mgtag.Prelude.{
  ℕ, zero, suc, ◌+◌, ◌-◌, ◌/◌, Bool, true, List, Option, none, some, get_or, length, ltb, leb, ◌==◌,
  ◌&&◌, ◌||◌, if◌then◌else◌,
}

pub record Index : Type 0 where
  pub ids : List ℕ
  -- the first ID of each of the four lines, UINT_MAX where there is none
  pub start_id : List ℕ

abbrev pub table_size : Index → ℕ
table_size t = length t.ids

abbrev pub entry : Index → ℕ → ℕ
entry t i = get_or t.ids i 0

-- the number of the line, or `none` for the early return of -1
unfoldable pub line_no : Index → ℕ → Option ℕ
line_no t id =
    if ltb id (get_or t.start_id 0 0)
    then none
    else some (
        if ltb id (get_or t.start_id 1 0)
        then 0
        else if ltb id (get_or t.start_id 2 0)
        then 1
        else if ltb id (get_or t.start_id 3 0)
        then 2
        else 3)

unfoldable pub clamp_upper : ℕ → Option ℕ → ℕ
clamp_upper size none = size - 1
clamp_upper size (some n) = if leb size n then size - 1 else n

unfoldable pub clamp_lower : ℕ → Option ℕ → ℕ
clamp_lower size none = 0
clamp_lower size (some n) = if leb size n then 0 else n

-- how the loop ends: `break` at a middle, or low and high have met
pub data Stop : Type 0 where
  at : ℕ → Stop
  met : ℕ → Stop

module _ (key : ℕ → ℕ) (id : ℕ) where
  -- the loop `while (low != high)`; out of fuel it is `none`
  unfoldable pub halve : ℕ → ℕ → ℕ → Option Stop
  halve zero low high = none
  halve (suc fuel) low high =
      let mid = low + (high - low) / 2 in
      let right = halve fuel (mid + 1) high in
      let left = halve fuel low mid in
      if low == high
      then some (met low)
      else if ltb (key mid) id
      then right
      else if (mid == 0) || ltb (key (mid - 1)) id
      then some (at mid)
      else left

  unfoldable pub guess : Stop → ℕ
  guess (met low) = if ltb 0 low && ltb id (key low) then low - 1 else low
  guess (at mid) = if key mid == id then mid else if ltb 0 mid then mid - 1 else mid

  unfoldable pub walk_down : ℕ → ℕ
  walk_down zero = zero
  walk_down (suc r) = let rest = walk_down r in if leb id (key (suc r)) then rest else suc r

  -- over at most `n` entries behind
  unfoldable pub walk_up : ℕ → ℕ → ℕ
  walk_up zero r = r
  walk_up (suc n) r =
      let rest = walk_up n (r + 1) in if ltb (key r) id && ltb (key (r + 1)) id then rest else r

  unfoldable pub settle : ℕ → ℕ → ℕ
  settle size r = if leb id (key r) && ltb 0 r then walk_down (r - 1) else walk_up (size - 1 - r) r

  -- from the chunks that the lines give, in a table of `size` entries; `none`: the assertion fails
  unfoldable pub search_between : ℕ → ℕ → ℕ → Option ℕ
  search_between size low high =
      if ltb high low
      then none
      else if low == high
      then some low
      else elim (halve (suc high) low high) [
        | none ↦ none
        | some stop ↦ some (settle size (guess stop))
      ]

-- `searchChunk`: `some none` is its -1
unfoldable pub search_chunk :
    (ℕ → ℕ → Option ℕ) → (ℕ → ℕ → Option ℕ) → Index → ℕ → Option (Option ℕ)
search_chunk lower upper t id = elim (line_no t id) [
  | none ↦ some none
  | some line ↦
      elim (search_between (entry t) id (table_size t) (clamp_lower (table_size t) (lower line id))
        (clamp_upper (table_size t) (upper line id))) [ none ↦ none | some r ↦ some (some r) ]
]
