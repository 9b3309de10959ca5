-- ===== src/Bitmap/Columns.antt =====
-- TripleBit/BitmapBuffer.cpp: `insertXY` appends a pair to a column, within its pages.
use mgtag.Prelude.{
  ℕ, zero, suc, ◌+◌, ◌-◌, ◌^◌, ◌≤◌, ◌<◌, ◌≡◌, inl, inr, refl, sym, ap, ◌∙◌, List, [], ◌∷◌, ◌++◌,
  append_assoc, length, length-append, take, drop, get_or, take-append_le, take-append-drop,
  length-drop_le, length-take_le, leb, Bool-cases, arith,
}
use mgtag.Compact.{copy_to}
use mgtag.Compact.Laws.{length-copy_to, take-copy_to, get_or-copy_to}
use mgtag.Chunk.{get_len, get_insert_chars}
use mgtag.Chunk.Codec.{get_insert_chars-get_len}
use mgtag.Bitmap.{Column, page_size, is_ptr_full, append_rest, new_column, resize, insert_xy}

-- What is known of the pages of a mapped file: they have the page's size, and hold zeros.
pub record IsPages (page : ℕ → List ℕ) : Type 0 where
  pub size : (n : ℕ) → length (page n) ≡ page_size
  pub zeros : (n i : ℕ) → get_or (page n) i 0 ≡ 0

-- the end stands behind the pairs, and a zero byte at the end
pub record IsColumn (c : Column) : Type 0 where
  pub ends : c.end_ptr ≡ c.meta + c.used
  pub spaced : length c.bytes ≡ c.space
  pub left : c.end_ptr < c.space
  pub zeros : (i : ℕ) → c.end_ptr ≤ i → get_or c.bytes i 0 ≡ 0

-- the bytes of the pairs
abbrev pub content : Column → List ℕ
content c = drop c.meta (take c.end_ptr c.bytes)

get_or-append_ge :
    (xs ys : List ℕ) (i : ℕ) → length xs ≤ i → get_or (xs ++ ys) i 0 ≡ get_or ys (i - length xs) 0
get_or-append_ge [] ys i h = ap (λ k. get_or ys k 0) (omega arith)
get_or-append_ge (x ∷ xs) ys zero h = absurd (omega arith)
get_or-append_ge (x ∷ xs) ys (suc i) h =
    get_or-append_ge xs ys i (omega arith) ∙ ap (λ k. get_or ys k 0) (omega arith)

pub drop-append_le : (n : ℕ) (xs ys : List ℕ) → n ≤ length xs → drop n (xs ++ ys) ≡ drop n xs ++ ys
drop-append_le zero xs ys h = refl
drop-append_le (suc n) [] ys h = absurd (omega arith)
drop-append_le (suc n) (x ∷ xs) ys h = drop-append_le n xs ys (omega arith)

take_all : (n : ℕ) (xs : List ℕ) → length xs ≤ n → take n xs ≡ xs
take_all zero [] h = refl
take_all zero (x ∷ xs) h = absurd (omega arith)
take_all (suc n) [] h = refl
take_all (suc n) (x ∷ xs) h = ap (λ t. x ∷ t) (take_all n xs (omega arith))

drop-take_self : (n : ℕ) (xs : List ℕ) → drop n (take n xs) ≡ []
drop-take_self zero xs = refl
drop-take_self (suc n) [] = refl
drop-take_self (suc n) (x ∷ xs) = drop-take_self n xs

-- what `insertXY` leaves: the column with the bytes behind the old ones
abbrev pub Grows : Column → Column → List ℕ → Type 0
Grows c c' temp =
    IsColumn c'
    × (take c'.end_ptr c'.bytes ≡ take c.end_ptr c.bytes ++ temp)
    × (c'.meta ≡ c.meta)
    × (c'.used ≡ c.used + length temp)
    × (c'.count ≡ c.count + 1)

append_fits :
    (c : Column) (temp : List ℕ)
    → IsColumn c
    → c.end_ptr + length temp < c.space
    → Grows c (append_rest c temp (length temp) (length temp)) temp
unfolding append_rest
append_fits c temp v fits =
    let whole = take_all (length temp) temp (omega arith) in
    rw whole (
      record {
        ends = omega (arith, v.ends);
        spaced = length-copy_to c.bytes c.end_ptr temp ∙ v.spaced;
        left = fits;
        zeros = λ i h. get_or-copy_to c.bytes c.end_ptr i temp h ∙ v.zeros i (omega arith);
      },
      take-copy_to c.bytes c.end_ptr temp (omega (arith, v.spaced)),
      refl,
      refl,
      refl,
    )

module _ (page : ℕ → List ℕ) (pages : IsPages page) where
  pub new_column-IsColumn :
      (meta : ℕ)
      → meta < page_size
      → IsColumn (new_column page meta) × (content (new_column page meta) ≡ [])
  unfolding new_column
  new_column-IsColumn meta h = (
    record { ends = omega arith; spaced = pages.size 0; left = h; zeros = λ i l. pages.zeros 0 i },
    drop-take_self meta (page 0),
  )

  append_split :
      (c : Column) (temp : List ℕ) (offset : ℕ)
      → IsColumn c
      → c.end_ptr + offset ≡ c.space
      → offset ≤ length temp
      → length temp < page_size
      → Grows c
          (append_rest
            (resize page (record c { bytes = copy_to c.bytes c.end_ptr (take offset temp) }))
            (drop offset temp)
            (length temp - offset)
            (length temp))
          temp
  unfolding append_rest resize
  append_split c temp offset v full inside small =
      let front = take offset temp in
      let back = drop offset temp in
      let n = length temp - offset in
      let old = copy_to c.bytes c.end_ptr front in
      let front_size : length front ≡ offset = length-take_le offset temp inside in
      let back_size : length back ≡ n = omega (arith, length-drop_le offset temp inside) in
      let old_size : length old ≡ c.space = length-copy_to c.bytes c.end_ptr front ∙ v.spaced in
      let all_back : take n back ≡ back = take_all n back (omega arith) in
      let bytes_size : length (old ++ page c.space) ≡ c.space + page_size =
        omega (arith, length-append old (page c.space), pages.size c.space) in
      let kept : take c.space (old ++ page c.space) ≡ take c.end_ptr c.bytes ++ front =
        take-append_le c.space old (page c.space) (omega arith)
        ∙ ap (λ k. take k old) (omega arith)
        ∙ take-copy_to c.bytes c.end_ptr front (omega (arith, v.spaced)) in
      rw all_back (
        record {
          ends = omega (arith, v.ends);
          spaced = length-copy_to (old ++ page c.space) c.space back ∙ bytes_size;
          left = omega arith;
          zeros = λ i h.
              get_or-copy_to (old ++ page c.space) c.space i back (omega arith)
              ∙ get_or-append_ge old (page c.space) i (omega arith)
              ∙ pages.zeros c.space _;
        },
        ap (λ k. take (c.space + k) (copy_to (old ++ page c.space) c.space back)) (sym back_size)
            ∙ take-copy_to (old ++ page c.space) c.space back (omega arith)
            ∙ ap (λ t. t ++ back) kept
            ∙ append_assoc (take c.end_ptr c.bytes) front back
            ∙ ap (λ t. take c.end_ptr c.bytes ++ t) (take-append-drop offset temp),
        refl,
        refl,
        refl,
      )

  pub insert_xy-Grows :
      (c : Column) (x y : ℕ)
      → IsColumn c
      → x < 2 ^ 32
      → y < 2 ^ 32
      → Grows c (insert_xy page c x y (get_len x + get_len y)) (get_insert_chars x y)
  unfolding insert_xy is_ptr_full
  insert_xy-Grows c x y v hx hy =
      let temp = get_insert_chars x y in
      let (size, few) = get_insert_chars-get_len x y hx hy in
      elim (Bool-cases (leb c.space (c.used + (length temp + c.meta)))) [
        | inl full ↦
            rw (← size, full)
              (append_split c temp (c.space - c.used - c.meta) v (omega (arith, v.ends, v.left))
                (ground (arith, v.ends, v.left)) (omega (arith, size)))
        | inr fits ↦ rw (← size, fits) (append_fits c temp v (ground (arith, v.ends)))
      ]
