-- ===== src/TempFile/Writes.antt =====
-- TripleBit/TempFile.cpp: what the writes append, and that `readId` gives back what `writeId` wrote.
use mgtag.Prelude.{
  ℕ, zero, suc, ◌+◌, ◌-◌, ◌/◌, ◌%◌, ◌^◌, ◌≤◌, ◌<◌, ◌≡◌, inl, inr, refl, sym, ap, ◌∙◌, true, false,
  List, [], ◌∷◌, ◌++◌, some, append-nil, append_assoc, length, length-append, take-append,
  take-append-drop, drop-append, length-drop_le, take, drop, ltb, ◌==◌, Bool-cases, arith,
}
use mgtag.TempFile.{
  File, buffer_size, put_byte, put_bytes, write_id, fill, write, write_string, get_bytes, read_id,
}

-- what the file holds once it is closed
abbrev pub written : File → List ℕ
written f = f.out ++ f.buffer

abbrev pub Fits : File → Type 0
Fits f = length f.buffer ≤ buffer_size

-- the `n` low bytes of an ID, the lowest first
unfoldable pub bytes_of : ℕ → ℕ → List ℕ
bytes_of zero id = []
bytes_of (suc n) id = id % 256 ∷ bytes_of n (id / 256)

pub put_byte_lem :
    (f : File) (c : ℕ)
    → Fits f
    → Fits (put_byte f c) × (written (put_byte f c) ≡ written f ++ c ∷ [])
unfolding put_byte
put_byte_lem f c h = elim (Bool-cases (length f.buffer == buffer_size)) [
  | inl full ↦ rw full (omega arith, refl)
  | inr room ↦
      let grown = length-append f.buffer (c ∷ []) in
      let below : length f.buffer < buffer_size = ground arith in
      rw room (omega arith, sym (append_assoc f.out f.buffer (c ∷ [])))
]

put_bytes_lem :
    (n : ℕ) (f : File) (id : ℕ)
    → Fits f
    → Fits (put_bytes n f id) × (written (put_bytes n f id) ≡ written f ++ bytes_of n id)
unfolding put_bytes bytes_of
put_bytes_lem zero f id h = (h, sym (append-nil (written f)))
put_bytes_lem (suc n) f id h =
    let (fits, one) = put_byte_lem f (id % 256) h in
    let (still, more) = put_bytes_lem n (put_byte f (id % 256)) (id / 256) fits in
    (still, more ∙ rw (one, append_assoc) refl)

-- `writeId` appends the four bytes of the ID, the lowest first, and the buffer stays in bounds.
pub write_id_lem :
    (f : File) (id : ℕ)
    → Fits f
    → Fits (write_id f id) × (written (write_id f id) ≡ written f ++ bytes_of 4 id)
unfolding write_id
write_id_lem f id h = put_bytes_lem 4 f id h

pub read_id-bytes_of :
    (id : ℕ) (rest : List ℕ) → id < 2 ^ 32 → read_id (bytes_of 4 id ++ rest) ≡ some (id, rest)
unfolding read_id get_bytes bytes_of
read_id-bytes_of id rest h = ap (λ t. some (t, rest)) (omega arith)

-- On a file whose buffer is in bounds, `writeId` of an ID of 32 bits keeps the buffer in bounds, keeps the
-- bytes written before, and from the bytes that it adds `readId` gives the ID back, whatever follows.
pub read_id-write_id :
    (f : File) (id : ℕ) (rest : List ℕ)
    → Fits f
    → id < 2 ^ 32
    → Fits (write_id f id)
      × (take (length (written f)) (written (write_id f id)) ≡ written f)
      × (read_id (drop (length (written f)) (written (write_id f id) ++ rest)) ≡ some (id, rest))
read_id-write_id f id rest h word =
    let (fits, same) = write_id_lem f id h in
    let behind : drop (length (written f)) (written (write_id f id) ++ rest)
        ≡ bytes_of 4 id ++ rest =
      ap (λ t. drop (length (written f)) (t ++ rest)) same
      ∙ ap (drop (length (written f))) (append_assoc (written f) (bytes_of 4 id) rest)
      ∙ drop-append (written f) (bytes_of 4 id ++ rest) in
    (
      fits,
      ap (take (length (written f))) same ∙ take-append (written f) (bytes_of 4 id),
      ap read_id behind ∙ read_id-bytes_of id rest word,
    )

-- what `fill` leaves to be copied: it has room in the buffer
record Filled (f : File) (bytes : List ℕ) (g : File) (rest : List ℕ) : Type 0 where
  room : length g.buffer + length rest ≤ buffer_size
  same : written g ++ rest ≡ written f ++ bytes

spilled : File → List ℕ → File
spilled f bytes = record {
  out = f.out ++ f.buffer ++ take (buffer_size - length f.buffer) bytes;
  buffer = [];
}

fill_done :
    (fuel : ℕ) (f : File) (bytes : List ℕ)
    → ltb buffer_size (length f.buffer + length bytes) ≡ false
    → (fill (suc fuel) f bytes ≡ some (f, bytes)) × Filled f bytes f bytes
unfolding fill
fill_done fuel f bytes off = (ground arith, record { room = ground arith; same = refl })

fill_goes :
    (fuel : ℕ) (f : File) (bytes : List ℕ)
    → ltb buffer_size (length f.buffer + length bytes) ≡ true
    → fill (suc fuel) f bytes
      ≡ fill fuel (spilled f bytes) (drop (buffer_size - length f.buffer) bytes)
unfolding fill spilled
fill_goes fuel f bytes on = ground arith

spilled_same :
    (f : File) (bytes : List ℕ) (g : File) (rest : List ℕ)
    → Filled (spilled f bytes) (drop (buffer_size - length f.buffer) bytes) g rest
    → Filled f bytes g rest
unfolding spilled
spilled_same f bytes g rest d = record {
  room = d.room;
  same =
      d.same
      ∙ rw (append-nil, append_assoc, append_assoc, append_assoc)
          (ap (λ t. f.out ++ (f.buffer ++ t))
            (take-append-drop (buffer_size - length f.buffer) bytes));
}

spilled_room : (f : File) (bytes : List ℕ) → length (spilled f bytes).buffer < buffer_size
unfolding spilled
spilled_room f bytes = omega arith

-- A buffer that is not full takes a byte in each round.
fill_open :
    (fuel : ℕ) (f : File) (bytes : List ℕ)
    → length f.buffer < buffer_size
    → length bytes < fuel
    → (g : File) × (rest : List ℕ) × (fill fuel f bytes ≡ some (g, rest)) × Filled f bytes g rest
fill_open zero f bytes room enough = absurd (omega arith)
fill_open (suc fuel) f bytes room enough =
    elim (Bool-cases (ltb buffer_size (length f.buffer + length bytes))) [
      | inl on ↦
          let over : buffer_size < length f.buffer + length bytes = ground arith in
          let left = length-drop_le (buffer_size - length f.buffer) bytes (omega arith) in
          let (g, rest, e, d) =
            fill_open fuel (spilled f bytes) (drop (buffer_size - length f.buffer) bytes)
              (spilled_room f bytes) (omega arith) in
          (g, rest, fill_goes fuel f bytes on ∙ e, spilled_same f bytes g rest d)
      | inr off ↦ let (e, d) = fill_done fuel f bytes off in (f, bytes, e, d)
    ]

fill_lem :
    (f : File) (bytes : List ℕ)
    → Fits f
    → (g : File) × (rest : List ℕ) × (fill (suc (suc (length bytes))) f bytes ≡ some (g, rest))
      × Filled f bytes g rest
fill_lem f bytes h = elim (Bool-cases (ltb buffer_size (length f.buffer + length bytes))) [
  | inl on ↦
      let over : buffer_size < length f.buffer + length bytes = ground arith in
      let left = length-drop_le (buffer_size - length f.buffer) bytes (omega arith) in
      let (g, rest, e, d) =
        fill_open (suc (length bytes)) (spilled f bytes)
          (drop (buffer_size - length f.buffer) bytes) (spilled_room f bytes) (omega arith) in
      (g, rest, fill_goes (suc (length bytes)) f bytes on ∙ e, spilled_same f bytes g rest d)
  | inr off ↦ let (e, d) = fill_done (suc (length bytes)) f bytes off in (f, bytes, e, d)
]

write_filled :
    (f : File) (bytes : List ℕ) (g : File) (rest : List ℕ)
    → fill (suc (suc (length bytes))) f bytes ≡ some (g, rest)
    → write f bytes ≡ some (record g { buffer = g.buffer ++ rest })
unfolding write
write_filled f bytes g rest e = ground arith

-- `write` ends, appends the bytes, and keeps the buffer in bounds.
pub write_lem :
    (f : File) (bytes : List ℕ)
    → Fits f
    → (g : File) × (write f bytes ≡ some g) × Fits g × (written g ≡ written f ++ bytes)
write_lem f bytes h =
    let (g, rest, e, d) = fill_lem f bytes h in
    (
      record g { buffer = g.buffer ++ rest },
      write_filled f bytes g rest e,
      omega (arith, length-append g.buffer rest, d.room),
      sym (append_assoc g.out g.buffer rest) ∙ d.same,
    )

-- `writeString` ends, appends the length as an ID and then the bytes, and keeps the buffer in bounds.
pub write_string_lem :
    (f : File) (str : List ℕ)
    → Fits f
    → (g : File) × (write_string f str ≡ some g)
      × Fits g
      × (written g ≡ written f ++ bytes_of 4 (length str) ++ str)
unfolding write_string
write_string_lem f str h =
    let (fits, same) = write_id_lem f (length str) h in
    let (g, e, w, c) = write_lem (write_id f (length str)) str fits in
    (g, e, w, c ∙ ap (λ t. t ++ str) same)
