-- ===== src/Buffer/Combined.antt =====
-- TripleBit/EntityIDBuffer.cpp: what `mergeBuffer` leaves in the buffer.
use mgtag.Prelude.{
  ℕ, zero, suc, ◌+◌, ◌-◌, ◌*◌, ◌/◌, ◌≤◌, ◌≡◌, inl, inr, refl, sym, ap, ap₂, ◌∙◌, List, [], ◌∷◌,
  length, false, length-append, length-take_le, length-drop_le, get_or, take, take-take_le, drop,
  leb, ◌==◌, Bool-cases, arith,
}
use mgtag.Compact.{copy_to}
use mgtag.Compact.Laws.{take-copy_to}
use mgtag.Buffer.{Buffer, contents, get_size, page_ids}
use mgtag.Buffer.Insert.{IsAlloc}
use mgtag.Buffer.Combine.{choose, merge_ids, merge_records, merged, merge_buffer}

length-merge_ids : (xs ys : List ℕ) → length (merge_ids xs ys) ≡ length xs + length ys
unfolding merge_ids
length-merge_ids [] ys = omega arith
length-merge_ids (x ∷ xs) [] = omega arith
length-merge_ids (x ∷ xs) (y ∷ ys) =
    ground (arith, length-merge_ids xs (y ∷ ys), length-merge_ids (x ∷ xs) ys)

length-merge_records :
    (l1 l2 : ℕ) (xs ys : List ℕ)
    → length xs ≡ l1 * 2
    → length ys ≡ l2 * 2
    → length (merge_records 2 0 xs l1 ys l2) ≡ (l1 + l2) * 2
unfolding merge_records
length-merge_records zero l2 xs ys hx hy = omega (arith, length-take_le (l2 * 2) ys)
length-merge_records (suc l1) zero xs ys hx hy = omega (arith, length-take_le (suc l1 * 2) xs)
length-merge_records (suc l1) (suc l2) xs ys hx hy =
    elim (Bool-cases (leb (get_or ys 0 0) (get_or xs 0 0))) [
      | inl e ↦
          let rest =
            length-merge_records (suc l1) l2 xs (drop 2 ys) hx
              (omega (arith, length-drop_le 2 ys)) in
          rw e (
            omega (
              arith,
              length-append (take 2 ys) (merge_records 2 0 xs (suc l1) (drop 2 ys) l2),
              length-take_le 2 ys,
            ))
      | inr e ↦
          let rest =
            length-merge_records l1 (suc l2) (drop 2 xs) ys (omega (arith, length-drop_le 2 xs))
              hy in
          rw e (
            omega (
              arith,
              length-append (take 2 xs) (merge_records 2 0 (drop 2 xs) l1 ys (suc l2)),
              length-take_le 2 xs,
            ))
    ]

merge_ids_none : (xs : List ℕ) → merge_ids xs [] ≡ xs
unfolding merge_ids
merge_ids_none [] = refl
merge_ids_none (x ∷ xs) = refl

some_eq_zero : (n : ℕ) → (suc n == 0) ≡ false
some_eq_zero n = ground arith

choose_ids :
    (n key total gx gy : ℕ) (xs ys x_cells y_cells : List ℕ)
    → n ≡ 1
    → total ≡ gx + gy
    → xs ≡ take gx x_cells
    → ys ≡ take gy y_cells
    → choose n key total gx gy xs ys x_cells y_cells ≡ merge_ids (take gx x_cells) (take gy y_cells)
unfolding choose merge_ids
choose_ids n key total zero gy xs ys x_cells y_cells one sum ex ey =
    let e : total ≡ gy = omega arith in ap (λ k. take k y_cells) e
choose_ids n key total (suc gx) zero xs ys x_cells y_cells one sum ex ey =
    let e : total ≡ suc gx = omega arith in
    rw (some_eq_zero gx) (ap (λ k. take k x_cells) e ∙ sym (merge_ids_none (take (suc gx) x_cells)))
choose_ids n key total (suc gx) (suc gy) xs ys x_cells y_cells one sum ex ey =
    rw (some_eq_zero gx, some_eq_zero gy, one, ex, ey) refl

take_twice : (n : ℕ) (xs : List ℕ) → take (n * 2) (take (n * 2) xs) ≡ take (n * 2) xs
take_twice n xs = take-take_le (n * 2) (n * 2) xs (omega arith)

records_of_second : (n : ℕ) (xs ys : List ℕ) → merge_records 2 0 xs 0 ys n ≡ take (n * 2) ys
unfolding merge_records
records_of_second n xs ys = refl

records_of_first :
    (n : ℕ) (xs ys : List ℕ) → merge_records 2 0 xs (suc n) ys 0 ≡ take (suc n * 2) xs
unfolding merge_records
records_of_first n xs ys = refl

choose_records :
    (n total gx gy : ℕ) (xs ys x_cells y_cells : List ℕ)
    → n ≡ 2
    → total ≡ (gx + gy) * 2
    → xs ≡ take (gx * 2) x_cells
    → ys ≡ take (gy * 2) y_cells
    → choose n 0 total gx gy xs ys x_cells y_cells
      ≡ merge_records 2 0 (take (gx * 2) x_cells) gx (take (gy * 2) y_cells) gy
unfolding choose
choose_records n total zero gy xs ys x_cells y_cells two sum ex ey =
    let e : total ≡ gy * 2 = omega arith in
    ap (λ k. take k y_cells) e
    ∙ sym (records_of_second gy [] (take (gy * 2) y_cells) ∙ take_twice gy y_cells)
choose_records n total (suc gx) zero xs ys x_cells y_cells two sum ex ey =
    let e : total ≡ suc gx * 2 = omega arith in
    rw (some_eq_zero gx) (
      ap (λ k. take k x_cells) e
      ∙ sym (records_of_first gx (take (suc gx * 2) x_cells) [] ∙ take_twice (suc gx) x_cells))
choose_records n total (suc gx) (suc gy) xs ys x_cells y_cells two sum ex ey =
    rw (some_eq_zero gx, some_eq_zero gy, two)
      (ap₂ (λ a b. merge_records 2 0 a (suc gx) b (suc gy)) ex ey)

over_one : (n k : ℕ) → k ≡ 1 → n / k ≡ n
over_one n k e = ap (λ t. n / t) e ∙ omega arith

module _ (alloc : ℕ → List ℕ) (law : IsAlloc alloc) where
  contents-merged :
      (b x xy : Buffer)
      → b.size_per_page ≡ page_ids
      → length (merged b x xy) ≡ (get_size x + get_size xy) * x.id_count
      → contents (merge_buffer alloc b x xy) ≡ merged b x xy
  unfolding merge_buffer
  contents-merged b x xy page size =
      let total = (get_size x + get_size xy) * x.id_count in
      let cells = alloc ((total + (b.size_per_page - 1)) / b.size_per_page * b.size_per_page) in
      let pages : (total + (b.size_per_page - 1)) / b.size_per_page * b.size_per_page
          ≡ (total + 1023) / 1024 * 1024 =
        ap (λ p. (total + (p - 1)) / p * p) page in
      let room : total ≤ length cells =
        omega (
          arith,
          law ((total + (b.size_per_page - 1)) / b.size_per_page * b.size_per_page),
          pages,
        ) in
      ap (λ k. take k (copy_to cells 0 (merged b x xy))) (sym size ∙ omega arith)
      ∙ take-copy_to cells 0 (merged b x xy) (omega arith)

  -- Of two buffers of single IDs `mergeBuffer` leaves the merge by `std::merge`, whatever the buffer held.
  pub merge_buffer-ids :
      (b x xy : Buffer)
      → b.size_per_page ≡ page_ids
      → b.id_count ≡ 1
      → x.id_count ≡ 1
      → xy.id_count ≡ 1
      → x.used_size ≤ length x.cells
      → xy.used_size ≤ length xy.cells
      → contents (merge_buffer alloc b x xy) ≡ merge_ids (contents x) (contents xy)
  unfolding merged
  merge_buffer-ids b x xy page nb nx ny hx hy =
      let sx : get_size x ≡ x.used_size = over_one x.used_size x.id_count nx in
      let sy : get_size xy ≡ xy.used_size = over_one xy.used_size xy.id_count ny in
      let xs : get_size x * x.id_count ≡ get_size x = ap (λ k. get_size x * k) nx ∙ omega arith in
      let ys : get_size xy * xy.id_count ≡ get_size xy =
        ap (λ k. get_size xy * k) ny ∙ omega arith in
      let total : (get_size x + get_size xy) * x.id_count ≡ get_size x + get_size xy =
        ap (λ k. (get_size x + get_size xy) * k) nx ∙ omega arith in
      let chosen : merged b x xy ≡ merge_ids (contents x) (contents xy) =
        choose_ids b.id_count b.sort_key _ (get_size x) (get_size xy) _ _ x.cells xy.cells nb total
          (ap (λ k. take k x.cells) xs) (ap (λ k. take k xy.cells) ys)
        ∙ ap₂ (λ i j. merge_ids (take i x.cells) (take j xy.cells)) sx sy in
      contents-merged b x xy page (
        ap (λ (k : List ℕ). length k) chosen
        ∙ omega (
          arith,
          length-merge_ids (contents x) (contents xy),
          length-take_le x.used_size x.cells hx,
          length-take_le xy.used_size xy.cells hy,
        ))
      ∙ chosen

  -- Of two buffers of records of two IDs `mergeBuffer` leaves the merge by the first ID.
  pub merge_buffer-records :
      (b x xy : Buffer) (m n : ℕ)
      → b.size_per_page ≡ page_ids
      → b.id_count ≡ 2
      → b.sort_key ≡ 0
      → x.id_count ≡ 2
      → xy.id_count ≡ 2
      → x.used_size ≡ m * 2
      → xy.used_size ≡ n * 2
      → x.used_size ≤ length x.cells
      → xy.used_size ≤ length xy.cells
      → contents (merge_buffer alloc b x xy) ≡ merge_records 2 0 (contents x) m (contents xy) n
  unfolding merged
  merge_buffer-records b x xy m n page nb key nx ny ux uy hx hy =
      let sx : get_size x ≡ m = ap₂ (λ u k. u / k) ux nx ∙ omega arith in
      let sy : get_size xy ≡ n = ap₂ (λ u k. u / k) uy ny ∙ omega arith in
      let total : (get_size x + get_size xy) * x.id_count ≡ (get_size x + get_size xy) * 2 =
        ap (λ k. (get_size x + get_size xy) * k) nx in
      let chosen : merged b x xy ≡ merge_records 2 0 (contents x) m (contents xy) n =
        ap
          (λ k.
            choose b.id_count k ((get_size x + get_size xy) * x.id_count) (get_size x) (get_size xy)
              (take (get_size x * x.id_count) x.cells) (take (get_size xy * xy.id_count) xy.cells)
              x.cells xy.cells)
          key
        ∙ choose_records b.id_count _ (get_size x) (get_size xy) _ _ x.cells xy.cells nb total
            (ap (λ k. take (get_size x * k) x.cells) nx)
            (ap (λ k. take (get_size xy * k) xy.cells) ny)
        ∙ ap₂ (λ i j. merge_records 2 0 (take (i * 2) x.cells) i (take (j * 2) xy.cells) j) sx sy
        ∙ ap₂ (λ i j. merge_records 2 0 (take i x.cells) m (take j xy.cells) n) (sym ux) (sym uy) in
      contents-merged b x xy page (
        ap (λ (k : List ℕ). length k) chosen
        ∙ omega (
          arith,
          length-merge_records m n (contents x) (contents xy),
          length-take_le x.used_size x.cells hx,
          length-take_le xy.used_size xy.cells hy,
          total,
          sx,
          sy,
        ))
      ∙ chosen
