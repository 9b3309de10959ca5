-- ===== src/TempFile/Runs.antt =====
-- The theorems on TempFile at concrete files.
use mgtag.Prelude.{
  ℕ, ◌+◌, ◌≤◌, ◌<◌, ◌≡◌, refl, [], ◌∷◌, ◌++◌, none, some, length, take, drop, arith,
}
use mgtag.TempFile.{File, buffer_size, write, write_float, read_id, write_id, put_bytes, put_byte}
use mgtag.TempFile.Writes.{written, Fits, read_id-write_id, write_lem}
use mgtag.TempFile.Floats.{write_float_lem}

abbrev started : File
started = record { out = 7 ∷ []; buffer = 1 ∷ 2 ∷ [] }

started-Fits : Fits started
started-Fits = omega arith

bytes_258 : (write_id started 258).buffer ≡ 1 ∷ 2 ∷ 2 ∷ 1 ∷ 0 ∷ 0 ∷ []
unfolding write_id put_bytes put_byte
bytes_258 = refl

read_id-write_id_example :
    Fits (write_id started 258)
    × (take 3 (written (write_id started 258)) ≡ written started)
    × (read_id (drop 3 (written (write_id started 258) ++ 9 ∷ [])) ≡ some (258, 9 ∷ []))
read_id-write_id_example = read_id-write_id started 258 (9 ∷ []) started-Fits (omega arith)

write_lem_example :
    (g : File) × (write started (5 ∷ 6 ∷ []) ≡ some g)
    × Fits g
    × (written g ≡ written started ++ 5 ∷ 6 ∷ [])
write_lem_example = write_lem started (5 ∷ 6 ∷ []) started-Fits

write_float_lem_example :
    (buffer_size < length started.buffer + 4 → write_float started (0 ∷ 0 ∷ 128 ∷ 63 ∷ []) ≡ none)
    × (length started.buffer + 4 ≤ buffer_size
        → (g : File) × (write_float started (0 ∷ 0 ∷ 128 ∷ 63 ∷ []) ≡ some g)
          × Fits g
          × (written g ≡ written started ++ 0 ∷ 0 ∷ 128 ∷ 63 ∷ []))
write_float_lem_example = write_float_lem started (0 ∷ 0 ∷ 128 ∷ 63 ∷ []) started-Fits refl

abbrev one : ℕ
one = 1

abbrev lower : ℕ
lower = 500

abbrev upper : ℕ
upper = 501
