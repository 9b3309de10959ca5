-- ===== src/Chunk.antt =====
-- TripleBit/BitmapBuffer.h, TripleBit/BitmapBuffer.cpp: the pairs of IDs in a chunk, as bytes.
-- A pointer into a chunk is the list of the bytes from it on. `none`: a read behind the memory.
pub mod Codec
pub mod Backward
use mgtag.Prelude.{
  ℕ, zero, suc, ◌+◌, ◌-◌, ◌*◌, ◌/◌, ◌%◌, ◌^◌, Bool, true, false, List, [], ◌∷◌, ◌++◌, Option, none,
  some, ltb, ◌==◌, if◌then◌else◌, ◌>>=◌,
}

-- The loop of `getLen`. Each round divides the ID, so that fuel above the ID is enough, here and below.
unfoldable pub groups : ℕ → ℕ → ℕ
groups zero id = 0
groups (suc fuel) id = let rest = groups fuel (id / 128) in if ltb id 128 then 1 else suc rest

unfoldable pub get_len : ℕ → ℕ
get_len id = groups (suc id) id

-- `writeXId`: groups of 7 bits, the lowest first, in bytes whose top bit is 0
unfoldable pub x_bytes : ℕ → ℕ → List ℕ
x_bytes zero id = []
x_bytes (suc fuel) id =
    let rest = x_bytes fuel (id / 128) in if ltb id 128 then (id % 128) ∷ [] else (id % 128) ∷ rest

unfoldable pub write_x_id : ℕ → List ℕ
write_x_id id = x_bytes (suc id) id

-- `writeYId`: the same in bytes whose top bit is 1
unfoldable pub y_bytes : ℕ → ℕ → List ℕ
y_bytes zero id = []
y_bytes (suc fuel) id =
    let rest = y_bytes fuel (id / 128) in
    if ltb id 128 then (128 + id % 128) ∷ [] else (128 + id % 128) ∷ rest

unfoldable pub write_y_id : ℕ → List ℕ
write_y_id id = y_bytes (suc id) id

unfoldable pub get_insert_chars : ℕ → ℕ → List ℕ
get_insert_chars x y = write_x_id x ++ write_y_id y

-- The loops of `readXId` and `readYId`, without WORD_ALIGN, on words of 32 bits. The groups do not meet,
-- so that `|` adds.
unfoldable pub read_x : List ℕ → ℕ → ℕ → Option (ℕ × List ℕ)
read_x [] id shift = none
read_x (c ∷ reader) id shift =
    let rest = read_x reader ((id + c * 2 ^ shift) % 2 ^ 32) (shift + 7) in
    if ltb c 128 then rest else some (id, c ∷ reader)

unfoldable pub read_x_id : List ℕ → Option (ℕ × List ℕ)
read_x_id reader = read_x reader 0 0

unfoldable pub read_y : List ℕ → ℕ → ℕ → Option (ℕ × List ℕ)
read_y [] id shift = none
read_y (c ∷ reader) id shift =
    let rest = read_y reader ((id + c % 128 * 2 ^ shift) % 2 ^ 32) (shift + 7) in
    if ltb c 128 then some (id, c ∷ reader) else rest

unfoldable pub read_y_id : List ℕ → Option (ℕ × List ℕ)
read_y_id reader = read_y reader 0 0

-- `skipId`: with flag 1 over the bytes of a y, and else over those of an x
unfoldable pub skip_y : List ℕ → Option (List ℕ)
skip_y [] = none
skip_y (c ∷ reader) = let rest = skip_y reader in if ltb c 128 then some (c ∷ reader) else rest

unfoldable pub skip_x : List ℕ → Option (List ℕ)
skip_x [] = none
skip_x (c ∷ reader) = let rest = skip_x reader in if ltb c 128 then rest else some (c ∷ reader)

unfoldable pub skip_forward : List ℕ → Option (List ℕ)
skip_forward reader = do r ← skip_x reader; skip_y r

-- `skipBackward`. A pointer that moves back is the list of the bytes up to it, the last one first; the
-- result is the list before the pointer returned.
unfoldable pub back_zeros : List ℕ → Option (List ℕ)
back_zeros [] = none
back_zeros (c ∷ reader) = let rest = back_zeros reader in if c == 0 then rest else some (c ∷ reader)

unfoldable pub back_y : List ℕ → Option (List ℕ)
back_y [] = none
back_y (c ∷ reader) = let rest = back_y reader in if ltb c 128 then some (c ∷ reader) else rest

unfoldable pub back_x : List ℕ → Option (List ℕ)
back_x [] = none
back_x (c ∷ reader) = let rest = back_x reader in if ltb c 128 then rest else some (c ∷ reader)

unfoldable pub skip_backward : List ℕ → Option (List ℕ)
skip_backward reader = do r ← back_zeros reader; s ← back_y r; back_x s

-- `generateXY`: the smaller ID, the difference, and whether the first was the bigger one
unfoldable pub generate_xy : ℕ → ℕ → ℕ × ℕ × Bool
generate_xy a b = if ltb b a then (b, a - b, true) else (a, b - a, false)
