-- ===== src/Find/Stuck.antt =====
-- TripleBit/FindEntityID.cpp: where the first loop of findSubjectIDByPredicate with bounds does not end.
use mgtag.Prelude.{
  ℕ, zero, suc, ◌^◌, ◌≤◌, ◌<◌, ◌≡◌, refl, ap, ◌∙◌, List, ◌∷◌, ◌++◌, none, some, append_assoc,
  length, length-append, drop, drop-append, arith,
}
use mgtag.Chunk.{get_insert_chars, read_x_id}
use mgtag.Chunk.Codec.{read_x_id-middle, read_x_id_nothing, get_insert_chars-cons}
use mgtag.Bitmap.{Column, get_start_ptr, behind}
use mgtag.Bitmap.Pairs.{bytes_of_pairs, Holds, start-Holds}
use mgtag.Buffer.{Buffer}
use mgtag.Find.{more, loop}
use mgtag.Find.Scans.{loop_step, first_byte, bytes_of_pairs-append}
use mgtag.Find.Ranges.{Body, subject_x_between}

get_insert_chars-some : (x y : ℕ) → 0 < length (get_insert_chars x y)
get_insert_chars-some x y =
    let (c, rest, e, _) = get_insert_chars-cons x y in
    omega (arith, ap (λ (k : List ℕ). length k) e)

module _ (alloc : ℕ → List ℕ) (min_id max_id : ℕ) where
  abbrev body : Body
  body = subject_x_between alloc min_id max_id

  low_turn :
      (x : ℕ) (reader r : List ℕ) (t : Buffer)
      → x < min_id
      → read_x_id reader ≡ some (x, r)
      → subject_x_between alloc min_id max_id reader t ≡ some (more r t)
  unfolding subject_x_between
  low_turn x reader r t h e = ground arith

  stuck :
      (fuel stop d : ℕ) (rest : List ℕ) (t : Buffer)
      → 0 < min_id
      → 128 ≤ d
      → stop < length (d ∷ rest)
      → loop body fuel stop (d ∷ rest) t ≡ none
  unfolding loop
  stuck zero stop d rest t h high room = refl
  stuck (suc fuel) stop d rest t h high room =
      let turn = low_turn 0 (d ∷ rest) (d ∷ rest) t h (read_x_id_nothing d rest high) in
      let again = stuck fuel stop d rest t h high room in
      loop_step body fuel stop (d ∷ rest) (d ∷ rest) t t (ground arith) turn ∙ again

  stuck_from :
      (fuel stop x d : ℕ) (reader rest : List ℕ) (t : Buffer)
      → x < min_id
      → 128 ≤ d
      → stop < length (d ∷ rest)
      → read_x_id reader ≡ some (x, d ∷ rest)
      → stop < length reader
      → loop body fuel stop reader t ≡ none
  unfolding loop
  stuck_from zero stop x d reader rest t low high room read inside = refl
  stuck_from (suc fuel) stop x d reader rest t low high room read inside =
      loop_step body fuel stop reader (d ∷ rest) t t (ground arith)
        (low_turn x reader (d ∷ rest) t low read)
      ∙ stuck fuel stop d rest t (omega arith) high room

  -- Where the first loop of findSubjectIDByPredicate with bounds comes to a pair of a column whose x is below
  -- the lower bound, it never ends, whatever the fuel: `continue` leaves the pointer at the y, where readXId
  -- reads 0 and does not move.
  pub subject_loop_stuck :
      (c : Column) (ps qs : List (ℕ × ℕ)) (x y fuel : ℕ) (t : Buffer)
      → Holds c (ps ++ (x, y) ∷ qs)
      → x < 2 ^ 32
      → x < min_id
      → loop
          (subject_x_between alloc min_id max_id)
          fuel
          (behind c)
          (drop (length (bytes_of_pairs ps)) (get_start_ptr c))
          t
        ≡ none
  unfolding bytes_of_pairs
  subject_loop_stuck c ps qs x y fuel t h word low =
      let (rest, start, stop) = start-Holds c (ps ++ (x, y) ∷ qs) h in
      let (b, tail, e, small) = first_byte qs rest in
      let (d, middle, read, high, long) = read_x_id-middle x y b tail word in
      let memory : drop (length (bytes_of_pairs ps)) (get_start_ptr c)
          ≡ get_insert_chars x y ++ b ∷ tail =
        ap (drop (length (bytes_of_pairs ps))) (
          start
          ∙ ap (λ k. k ++ 0 ∷ rest) (bytes_of_pairs-append ps ((x, y) ∷ qs))
          ∙ append_assoc (bytes_of_pairs ps) (get_insert_chars x y ++ bytes_of_pairs qs) (0 ∷ rest))
        ∙ drop-append (bytes_of_pairs ps) ((get_insert_chars x y ++ bytes_of_pairs qs) ++ 0 ∷ rest)
        ∙ append_assoc (get_insert_chars x y) (bytes_of_pairs qs) (0 ∷ rest)
        ∙ ap (λ k. get_insert_chars x y ++ k) e in
      let size = ap (λ (k : List ℕ). length k) e in
      let parts = length-append (bytes_of_pairs qs) (0 ∷ rest) in
      let room : behind c < length (d ∷ middle) = omega arith in
      ap (λ k. loop body fuel (behind c) k t) memory
      ∙ stuck_from fuel (behind c) x d (get_insert_chars x y ++ b ∷ tail) middle t low high room
          read
          (omega
            (arith, length-append (get_insert_chars x y) (b ∷ tail), get_insert_chars-some x y))
