-- ===== src/Buffer/Filter.antt =====
-- TripleBit/EntityIDBuffer.cpp: `modifyByFlag` keeps the records with a given flag.
use native.Mathlib.Nat.{mul-le-mul_right, div-mul-le_self}
use mgtag.Prelude.{
  ℕ, zero, suc, ◌+◌, ◌*◌, ◌≤◌, ◌≡◌, inl, inr, refl, sym, subst, ◌∙◌, Bool, true, false, List,
  Option, none, some, append-nil, length, get_or, ◌==◌, Bool-cases, arith, if◌then◌else◌,
}
use mgtag.Buffer.{Buffer, contents, page_ids, get_size}
use mgtag.Compact.{Page, start, write_back, emit, kept}
use mgtag.Compact.Laws.{
  Compacted, start-Compacted, skip-Compacted, emit-Compacted, write_back-Compacted,
}

unfoldable pub filter_from : ℕ → ℕ → List ℕ → ℕ → ℕ → ℕ → Page → Option Page
filter_from cap n flags flag zero j p = some p
filter_from cap n flags flag (suc m) j p =
    elim (if get_or flags j 0 == flag then emit cap n p j else some p) [
      | none ↦ none
      | some q ↦ filter_from cap n flags flag m (suc j) q
    ]

unfoldable pub modify_by_flag : Buffer → List ℕ → ℕ → Option Buffer
modify_by_flag b flags flag =
    elim (filter_from page_ids b.id_count flags flag (get_size b) 0 (start b.cells)) [
      | none ↦ none
      | some p ↦ let q = write_back p in some (record b { cells = q.cells; used_size = q.size })
    ]

abbrev pub has_flag : List ℕ → ℕ → ℕ → Bool
has_flag flags flag j = get_or flags j 0 == flag

module _ (old : List ℕ) (cap n pages : ℕ) (even : cap ≡ pages * n) (holds : n ≤ cap)
    (flags : List ℕ) (flag : ℕ) where
  take_record :
      (m j : ℕ) (p q : Page)
      → has_flag flags flag j ≡ true
      → emit cap n p j ≡ some q
      → filter_from cap n flags flag (suc m) j p ≡ filter_from cap n flags flag m (suc j) q
  unfolding filter_from
  take_record m j p q keep e = ground arith

  pass_record :
      (m j : ℕ) (p : Page)
      → has_flag flags flag j ≡ false
      → filter_from cap n flags flag (suc m) j p ≡ filter_from cap n flags flag m (suc j) p
  unfolding filter_from
  pass_record m j p drop = ground arith

  filter_from-Compacted :
      (m j limit : ℕ) (p : Page)
      → limit ≡ j + m
      → limit * n ≤ length old
      → Compacted old cap n (has_flag flags flag) j p
      → (q : Page) × (filter_from cap n flags flag m j p ≡ some q)
        × Compacted old cap n (has_flag flags flag) limit q
  unfolding filter_from
  filter_from-Compacted zero j limit p e bound c =
      (p, refl, subst (λ i. Compacted old cap n (has_flag flags flag) i p) (omega arith) c)
  filter_from-Compacted (suc m) j limit p e bound c =
      let upto : suc j * n ≤ limit * n = mul-le-mul_right n (omega arith) in
      elim (Bool-cases (has_flag flags flag j)) [
        | inl keep ↦
            let (p1, e1, c1) =
              emit-Compacted old cap n (has_flag flags flag) pages even holds j p keep (omega arith)
                c in
            let (q, e2, d) = filter_from-Compacted m (suc j) limit p1 (omega arith) bound c1 in
            (q, take_record m j p p1 keep e1 ∙ e2, d)
        | inr drop ↦
            let c1 = skip-Compacted old cap n (has_flag flags flag) j p drop (omega arith) c in
            let (q, e2, d) = filter_from-Compacted m (suc j) limit p (omega arith) bound c1 in
            (q, pass_record m j p drop ∙ e2, d)
      ]

modified :
    (b : Buffer) (flags : List ℕ) (flag : ℕ) (p : Page)
    → filter_from page_ids b.id_count flags flag (get_size b) 0 (start b.cells) ≡ some p
    → modify_by_flag b flags flag
      ≡ some (record b { cells = (write_back p).cells; used_size = (write_back p).size })
unfolding modify_by_flag
modified b flags flag p e = ground arith

-- If the IDs of a record divide the page, `modifyByFlag` ends without a write past its page, and the
-- contents are the records whose flag is the given one, in their order and as they were.
pub modify_by_flag_lem :
    (b : Buffer) (flags : List ℕ) (flag pages : ℕ)
    → page_ids ≡ pages * b.id_count
    → b.id_count ≤ page_ids
    → b.used_size ≤ length b.cells
    → (b' : Buffer) × (modify_by_flag b flags flag ≡ some b')
      × (contents b' ≡ kept b.cells b.id_count (has_flag flags flag) (get_size b))
unfolding write_back
modify_by_flag_lem b flags flag pages even holds room =
    let whole : get_size b * b.id_count ≤ b.used_size = div-mul-le_self b.used_size b.id_count in
    let (p, e, c) =
      filter_from-Compacted b.cells page_ids b.id_count pages even holds flags flag (get_size b) 0
        (get_size b) (start b.cells) (omega arith) (omega arith)
        (start-Compacted b.cells page_ids b.id_count (has_flag flags flag)) in
    let w =
      write_back-Compacted b.cells page_ids b.id_count (has_flag flags flag) (get_size b) p c in
    (
      record b { cells = (write_back p).cells; used_size = (write_back p).size },
      modified b flags flag p e,
      sym (append-nil _) ∙ w.result,
    )
