-- ===== src/TempFile/Floats.antt =====
-- TripleBit/TempFile.cpp: `writeFloat` writes the buffer out when it has room, and not when it is full.
use mgtag.Prelude.{
  ℕ, ◌+◌, ◌≤◌, ◌<◌, ◌≡◌, inl, inr, refl, sym, List, ◌++◌, none, some, append_assoc, length,
  length-append, ltb, Bool-cases, arith,
}
use mgtag.TempFile.{File, buffer_size, write_float}
use mgtag.TempFile.Writes.{written, Fits}

float_spills :
    (f : File) (bytes : List ℕ)
    → length f.buffer + 4 < buffer_size
    → write_float f bytes ≡ some (record { out = f.out ++ f.buffer; buffer = bytes })
unfolding write_float
float_spills f bytes h = ground arith

float_fits :
    (f : File) (bytes : List ℕ)
    → length f.buffer + 4 ≡ buffer_size
    → write_float f bytes ≡ some (record f { buffer = f.buffer ++ bytes })
unfolding write_float
float_fits f bytes h = ground arith

float_fails :
    (f : File) (bytes : List ℕ) → buffer_size < length f.buffer + 4 → write_float f bytes ≡ none
unfolding write_float
float_fails f bytes h = ground arith

-- `writeFloat` appends the four bytes of a float where they fit behind the buffer; where they do not, it
-- writes past the buffer, though this is the case in which the buffer should be written out.
pub write_float_lem :
    (f : File) (bytes : List ℕ)
    → Fits f
    → length bytes ≡ 4
    → (buffer_size < length f.buffer + 4 → write_float f bytes ≡ none)
      × (length f.buffer + 4 ≤ buffer_size
          → (g : File) × (write_float f bytes ≡ some g) × Fits g × (written g ≡ written f ++ bytes))
write_float_lem f bytes h four = (
  float_fails f bytes,
  λ room. elim (Bool-cases (ltb (length f.buffer + 4) buffer_size)) [
    | inl small ↦ (_, float_spills f bytes (ground arith), omega arith, refl)
    | inr exact ↦
        let edge : length f.buffer + 4 ≡ buffer_size = ground arith in
        (
          _,
          float_fits f bytes edge,
          omega (arith, length-append f.buffer bytes),
          sym (append_assoc f.out f.buffer bytes),
        )
  ],
)
