-- ===== src/Bitmap/Pairs.antt =====
-- TripleBit/BitmapBuffer.cpp: a column holds the pairs that were inserted, in their order.
use mgtag.Prelude.{
  ℕ, zero, suc, ◌+◌, ◌^◌, ◌<◌, ◌≡◌, refl, sym, ap, ◌∙◌, List, [], ◌∷◌, ◌++◌, append_assoc,
  append-nil, All, length, length-append, take, drop, get_or, length-take_le, take-append-drop,
  length-drop_le, arith, All-append,
}
use mgtag.Chunk.{get_len, get_insert_chars}
use mgtag.Bitmap.{Column, page_size, get_start_ptr, behind, new_column, insert_xy}
use mgtag.Bitmap.Columns.{
  IsPages, IsColumn, content, drop-append_le, new_column-IsColumn, insert_xy-Grows,
}

-- the bytes of pairs, one after the other
unfoldable pub bytes_of_pairs : List (ℕ × ℕ) → List ℕ
bytes_of_pairs [] = []
bytes_of_pairs ((x, y) ∷ ps) = get_insert_chars x y ++ bytes_of_pairs ps

bytes_of_pairs-concat :
    (ps : List (ℕ × ℕ)) (x y : ℕ)
    → bytes_of_pairs (ps ++ (x, y) ∷ []) ≡ bytes_of_pairs ps ++ get_insert_chars x y
unfolding bytes_of_pairs
bytes_of_pairs-concat [] x y = append-nil (get_insert_chars x y)
bytes_of_pairs-concat ((a, b) ∷ ps) x y =
    ap (λ t. get_insert_chars a b ++ t) (bytes_of_pairs-concat ps x y)
    ∙ sym (append_assoc (get_insert_chars a b) (bytes_of_pairs ps) (get_insert_chars x y))

-- IDs of 32 bits, with a sum of 32 bits
abbrev pub IsPair : ℕ × ℕ → Type 0
IsPair (x, y) = x + y < 2 ^ 32

pub record Holds (c : Column) (ps : List (ℕ × ℕ)) : Type 0 where
  pub valid : IsColumn c
  pub written : content c ≡ bytes_of_pairs ps
  pub counted : c.count ≡ length ps
  pub words : All IsPair ps

drop_head :
    (n : ℕ) (xs : List ℕ) → n < length xs → (rest : List ℕ) × (drop n xs ≡ get_or xs n 0 ∷ rest)
drop_head n [] h = absurd (omega arith)
drop_head zero (x ∷ xs) h = (xs, refl)
drop_head (suc n) (x ∷ xs) h = drop_head n xs (omega arith)

-- The memory from the start of a column on: the bytes of the pairs, and then a zero byte.
pub start-Holds :
    (c : Column) (ps : List (ℕ × ℕ))
    → Holds c ps
    → (rest : List ℕ) × (get_start_ptr c ≡ bytes_of_pairs ps ++ 0 ∷ rest)
      × (behind c ≡ suc (length rest))
start-Holds c ps h =
    let (rest, e) = drop_head c.end_ptr c.bytes (omega (arith, h.valid.spaced, h.valid.left)) in
    let tail : drop c.end_ptr c.bytes ≡ 0 ∷ rest =
      e ∙ ap (λ t. t ∷ rest) (h.valid.zeros c.end_ptr (omega arith)) in
    let all : get_start_ptr c ≡ bytes_of_pairs ps ++ 0 ∷ rest =
      ap (drop c.meta) (sym (take-append-drop c.end_ptr c.bytes))
      ∙ drop-append_le c.meta (take c.end_ptr c.bytes) (drop c.end_ptr c.bytes) (
          omega
            (arith, h.valid.ends, h.valid.left, h.valid.spaced, length-take_le c.end_ptr c.bytes))
      ∙ ap (λ t. t ++ drop c.end_ptr c.bytes) h.written
      ∙ ap (λ t. bytes_of_pairs ps ++ t) tail in
    (
      rest,
      all,
      omega (
        arith,
        h.valid.ends,
        h.valid.left,
        h.valid.spaced,
        length-drop_le c.meta c.bytes,
        length-drop_le c.end_ptr c.bytes,
        ap (λ (t : List ℕ). length t) tail,
      ),
    )

module _ (page : ℕ → List ℕ) (pages : IsPages page) where
  pub new_column-Holds : (meta : ℕ) → meta < page_size → Holds (new_column page meta) []
  unfolding new_column bytes_of_pairs
  new_column-Holds meta h =
      let (valid, none_yet) = new_column-IsColumn page pages meta h in
      record { valid = valid; written = none_yet; counted = refl; words = tt }

  -- On a column that holds pairs, `insertXY` of a pair whose sum has 32 bits appends it, however its bytes
  -- fall on the pages, which come filled with zeros: the column then holds these pairs and this one, and a
  -- byte is left behind them.
  pub insert_xy_lem :
      (c : Column) (ps : List (ℕ × ℕ)) (x y : ℕ)
      → Holds c ps
      → x + y < 2 ^ 32
      → Holds (insert_xy page c x y (get_len x + get_len y)) (ps ++ (x, y) ∷ [])
  insert_xy_lem c ps x y h small =
      let (valid, grown, meta, used, count) =
        insert_xy-Grows page pages c x y h.valid (omega arith) (omega arith) in
      let c' = insert_xy page c x y (get_len x + get_len y) in
      let front = take c.end_ptr c.bytes in
      record {
        valid = valid;
        written =
            ap (λ k. drop k (take c'.end_ptr c'.bytes)) meta
            ∙ ap (drop c.meta) grown
            ∙ drop-append_le c.meta front (get_insert_chars x y) (
                omega (
                  arith,
                  h.valid.ends,
                  h.valid.left,
                  h.valid.spaced,
                  length-take_le c.end_ptr c.bytes,
                ))
            ∙ ap (λ t. t ++ get_insert_chars x y) h.written
            ∙ sym (bytes_of_pairs-concat ps x y);
        counted = omega (arith, count, h.counted, length-append ps ((x, y) ∷ []));
        words = All-append IsPair ps ((x, y) ∷ []) h.words (small, tt);
      }
