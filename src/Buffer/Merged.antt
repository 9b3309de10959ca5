-- ===== src/Buffer/Merged.antt =====
-- TripleBit/EntityIDBuffer.cpp: `mergeSingleBuffer` makes the union.
use mgtag.Prelude.{
  ℕ, zero, suc, ◌+◌, ◌≤◌, ◌≡◌, ◌↔◌, ◌⊎◌, inl, inr, refl, sym, ap, ◌∙◌, List, [], ◌∷◌, ◌++◌, Option,
  some, Memᴰ, append-nil, append_assoc, length, ltb, ◌==◌, Bool-cases, arith,
}
use mgtag.Buffer.{Buffer, contents, empty, page_ids}
use mgtag.Buffer.Insert.{IsValid, IsAlloc, empty-IsValid, insert_id_lem}
use mgtag.Buffer.Union.{
  insert_all, insert_then, merge_loop, merge_single_buffer, union, Ascending, union-Ascending,
  union_mem,
}

module _ (alloc : ℕ → List ℕ) (law : IsAlloc alloc) where
  -- a buffer that came of `b` by appending `xs`
  Appended : Buffer → Option Buffer → List ℕ → Type 0
  Appended b result xs =
      (b' : Buffer) × (result ≡ some b') × IsValid b' × (contents b' ≡ contents b ++ xs)

  insert_then_lem :
      (b : Buffer) (x : ℕ) (xs : List ℕ) (next : Buffer → Option Buffer)
      → IsValid b
      → ((c : Buffer) → IsValid c → Appended c (next c) xs)
      → Appended b (insert_then alloc b x next) (x ∷ xs)
  unfolding Appended insert_then
  insert_then_lem b x xs next v rest =
      let (c, e, w, same) = insert_id_lem alloc law b x v in
      let (d, f, u, more) = rest c w in (d, ground arith, u, more ∙ rw (same, append_assoc) refl)

  insert_all_lem : (xs : List ℕ) (b : Buffer) → IsValid b → Appended b (insert_all alloc b xs) xs
  unfolding Appended insert_all
  insert_all_lem [] b v = (b, refl, v, sym (append-nil (contents b)))
  insert_all_lem (x ∷ xs) b v =
      let (c, e, w, same) = insert_id_lem alloc law b x v in
      let (d, f, u, more) = insert_all_lem xs c w in
      (d, ground arith, u, more ∙ rw (same, append_assoc) refl)

  merge_loop_lem :
      (fuel : ℕ) (xs ys : List ℕ) (b : Buffer)
      → length xs + length ys ≤ fuel
      → IsValid b
      → Appended b (merge_loop alloc fuel b xs ys) (union fuel xs ys)
  unfolding merge_loop union
  merge_loop_lem fuel [] ys b h v = insert_all_lem ys b v
  merge_loop_lem fuel (x ∷ xs) [] b h v = insert_all_lem (x ∷ xs) b v
  merge_loop_lem zero (x ∷ xs) (y ∷ ys) b h v = absurd (omega arith)
  merge_loop_lem (suc fuel) (x ∷ xs) (y ∷ ys) b h v = elim (Bool-cases (ltb y x)) [
    | inl low ↦ rw low (
        insert_then_lem b y (union fuel (x ∷ xs) ys) _ v
          (λ c w. merge_loop_lem fuel (x ∷ xs) ys c (omega arith) w))
    | inr high ↦ rw high (elim (Bool-cases (y == x)) [
      | inl same ↦ rw same (merge_loop_lem fuel (x ∷ xs) ys b (omega arith) v)
      | inr apart ↦ rw apart (
          insert_then_lem b x (union fuel xs (y ∷ ys)) _ v
            (λ c w. merge_loop_lem fuel xs (y ∷ ys) c (omega arith) w))
    ])
  ]

  -- Of two strictly ascending lists of IDs `mergeSingleBuffer` makes their union: it ends, and the buffer,
  -- whatever it held, then holds in strictly ascending order the IDs that are in one of the two.
  pub merge_single_buffer_lem :
      (b : Buffer) (xs ys : List ℕ)
      → length b.cells ≡ b.total_size
      → b.size_per_page ≡ page_ids
      → Ascending xs
      → Ascending ys
      → (b' : Buffer) × (merge_single_buffer alloc b xs ys ≡ some b')
        × IsValid b'
        × Ascending (contents b')
        × ((a : ℕ) → Memᴰ a (contents b') ↔ (Memᴰ a xs ⊎ Memᴰ a ys))
  unfolding merge_single_buffer Appended
  merge_single_buffer_lem b xs ys size page ax ay =
      let n = length xs + length ys in
      let (valid, none_yet) = empty-IsValid b size page in
      let (b', e, w, c) = merge_loop_lem n xs ys (empty b) (omega arith) valid in
      let all : contents b' ≡ union n xs ys = c ∙ ap (λ t. t ++ union n xs ys) none_yet in
      (
        b',
        e,
        w,
        rw all (union-Ascending n xs ys ax ay),
        λ a. rw all (union_mem n xs ys a (omega arith)),
      )
