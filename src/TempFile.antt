-- ===== src/TempFile.antt =====
-- TripleBit/TempFile.h, TripleBit/TempFile.cpp: the buffered temporary file of bytes. `out` is what the
-- stream was given, and `buffer` is `writeBuffer` up to `writePointer`. `none`: a write past the buffer.
pub mod Writes
pub mod Order
pub mod Floats
mod Runs
use mgtag.Prelude.{
  ℕ, zero, suc, ◌+◌, ◌-◌, ◌*◌, ◌/◌, ◌%◌, ◌^◌, Bool, true, false, List, [], ◌∷◌, ◌++◌, Option, none,
  some, length, take, drop, ltb, ◌==◌, if◌then◌else◌,
}

abbrev pub buffer_size : ℕ
buffer_size = 16384

pub record File : Type 0 where
  pub out : List ℕ
  pub buffer : List ℕ

-- the constructors; the file is truncated
abbrev pub new_file : File
new_file = record { out = []; buffer = [] }

-- `out.write(writeBuffer, writePointer); writePointer = 0;`
abbrev pub spill : File → File
spill f = record { out = f.out ++ f.buffer; buffer = [] }

unfoldable pub flush : File → File
flush f = if length f.buffer == 0 then f else spill f

unfoldable pub is_empty : File → Bool
is_empty f = length f.buffer == 0

-- one byte, after the buffer is written out if it is full
unfoldable pub put_byte : File → ℕ → File
put_byte f c =
    let g = if length f.buffer == buffer_size then spill f else f in
    record g { buffer = g.buffer ++ c ∷ [] }

-- the loop of `writeId(id)`, for the last `n` bytes
unfoldable pub put_bytes : ℕ → File → ℕ → File
put_bytes zero f id = f
put_bytes (suc n) f id = put_bytes n (put_byte f (id % 256)) (id / 256)

unfoldable pub write_id : File → ℕ → File
write_id f id = put_bytes 4 f id

-- `writeId(id, flag)`: bytes from 7 bits each. `id | (flag << 8)` cast to a byte is the low byte of `id`,
-- whose top bit is not set by the code. An ID has 32 bits, so five bytes are enough.
unfoldable pub put_groups : ℕ → File → ℕ → Option File
put_groups zero f id = none
put_groups (suc n) f id =
    let rest = put_groups n (put_byte f (id % 256)) (id / 128) in
    if ltb id 128 then some (put_byte f (id % 256)) else rest

unfoldable pub write_flagged_id : File → ℕ → ℕ → Option File
write_flagged_id f id flag = put_groups 5 f id

-- The loop of `write(len, data)`. It ends since each round but the first writes a whole buffer.
unfoldable pub fill : ℕ → File → List ℕ → Option (File × List ℕ)
fill zero f bytes = none
fill (suc fuel) f bytes =
    let remaining = buffer_size - length f.buffer in
    let rest =
      fill fuel (record { out = f.out ++ f.buffer ++ take remaining bytes; buffer = [] })
        (drop remaining bytes) in
    if ltb buffer_size (length f.buffer + length bytes) then rest else some (f, bytes)

-- After the loop the branch for big chunks is not taken, as its test is that of the loop.
unfoldable pub write : File → List ℕ → Option File
write f bytes = elim (fill (suc (suc (length bytes))) f bytes) [
  | none ↦ none
  | some (g, rest) ↦ some (record g { buffer = g.buffer ++ rest })
]

unfoldable pub write_string : File → List ℕ → Option File
write_string f str = write (write_id f (length str)) str

-- `direct_write` passes the buffer by.
unfoldable pub direct_write : File → List ℕ → File
direct_write f bytes = record f { out = f.out ++ bytes }

-- `writeFloat`, of the four bytes of a float. The buffer is written out when it has room.
unfoldable pub write_float : File → List ℕ → Option File
write_float f bytes =
    let g = if ltb (length f.buffer + 4) buffer_size then spill f else f in
    if ltb buffer_size (length g.buffer + 4)
    then none
    else some (record g { buffer = g.buffer ++ bytes })

-- The loop of `readId`, for the last `n` bytes: the bits of the bytes do not meet, so that `|` adds.
-- `none`: the reader runs past the bytes.
unfoldable pub get_bytes : ℕ → List ℕ → ℕ → ℕ → Option (ℕ × List ℕ)
get_bytes zero reader id shift = some (id, reader)
get_bytes (suc n) [] id shift = none
get_bytes (suc n) (c ∷ reader) id shift =
    get_bytes n reader ((id + c * 2 ^ shift) % 2 ^ 32) (shift + 8)

unfoldable pub read_id : List ℕ → Option (ℕ × List ℕ)
read_id reader = get_bytes 4 reader 0 0

unfoldable pub skip_id : List ℕ → List ℕ
skip_id reader = drop 4 reader

unfoldable pub skip_id_id : List ℕ → List ℕ
skip_id_id reader = drop 8 reader

-- the results -1, 0 and 1
pub data Sign : Type 0 where
  less same more : Sign

unfoldable pub sign : ℕ → ℕ → Sign
sign l r = if ltb r l then more else if ltb l r then less else same

unfoldable pub read_pair : List ℕ → Option (ℕ × ℕ)
read_pair reader = elim (read_id reader) [
  | none ↦ none
  | some (a, rest) ↦ elim (read_id rest) [ none ↦ none | some (b, end) ↦ some (a, b) ]
]

-- by the first ID, then by the second
unfoldable pub order12 : ℕ × ℕ → ℕ × ℕ → Sign
order12 (l1, l2) (r1, r2) =
    if ltb r1 l1
    then more
    else if ltb l1 r1
    then less
    else if ltb r2 l2
    then more
    else if ltb l2 r2
    then less
    else same

-- by the second ID, then by the first
unfoldable pub order21 : ℕ × ℕ → ℕ × ℕ → Sign
order21 (l1, l2) (r1, r2) =
    if ltb r2 l2
    then more
    else if ltb l2 r2
    then less
    else if ltb r1 l1
    then more
    else if ltb l1 r1
    then less
    else same

-- two pairs read and compared
unfoldable pub on_pairs : (ℕ × ℕ → ℕ × ℕ → Sign) → List ℕ → List ℕ → Option Sign
on_pairs order left right = elim (read_pair left) [
  | none ↦ none
  | some l ↦ elim (read_pair right) [ none ↦ none | some r ↦ some (order l r) ]
]

unfoldable pub compare12 : List ℕ → List ℕ → Option Sign
compare12 left right = on_pairs order12 left right

unfoldable pub compare21 : List ℕ → List ℕ → Option Sign
compare21 left right = on_pairs order21 left right

-- `compare`, of single IDs
unfoldable pub compare_ids : List ℕ → List ℕ → Option Sign
compare_ids left right = elim (read_id left) [
  | none ↦ none
  | some (l, a) ↦ elim (read_id right) [ none ↦ none | some (r, b) ↦ some (sign l r) ]
]
