-- ===== src/Buffer/Modify.antt =====
-- TripleBit/EntityIDBuffer.cpp: `findValueByKey` after `modifyValueByKey`.
use mgtag.Prelude.{
  ℕ, ◌+◌, ◌*◌, ◌≤◌, ◌<◌, ◌≡◌, inl, inr, sym, ap, ◌∙◌, true, Option, some, length, get_or,
  get_or-set_self, get_or-set_ne, set, ltb, Bool-cases, arith,
}
use mgtag.Buffer.{Buffer, get_size}
use mgtag.Buffer.Search.{
  key_of, value_index, get_entity_id_pos, find_value_by_key, modify_value_by_key, Found, at_first,
  absent, get_entity_id_pos_lem,
}

-- the buffer with another value in record `i`
abbrev with_value : Buffer → ℕ → ℕ → Buffer
with_value b i value = record b { cells = set b.cells (value_index b i) value }

modified :
    (b : Buffer) (key value i : ℕ)
    → get_entity_id_pos b key ≡ some (some i)
    → modify_value_by_key b key value ≡ some (true, with_value b i value)
unfolding modify_value_by_key
modified b key value i e = ground arith

value_found :
    (b : Buffer) (key i : ℕ)
    → get_entity_id_pos b key ≡ some (some i)
    → find_value_by_key b key ≡ some (get_or b.cells (value_index b i) 0)
unfolding find_value_by_key
value_found b key i e = ground arith

module _ (b : Buffer) (pairs : b.id_count ≡ 2) (column : b.sort_key ≤ 1)
    (ascends : (i j : ℕ) → i ≤ j → j < get_size b → key_of b i ≤ key_of b j) where
  same_key : (i value j : ℕ) → key_of (with_value b i value) j ≡ key_of b j
  same_key i value j =
      get_or-set_ne b.cells (value_index b i) (j * b.id_count + b.sort_key) value 0
        (rw pairs (λ e. omega arith))

  first_again :
      (i i' id : ℕ) (value : ℕ)
      → key_of b i ≡ id
      → ((j : ℕ) → j < i → key_of b j < id)
      → key_of (with_value b i value) i' ≡ id
      → ((j : ℕ) → j < i' → key_of (with_value b i value) j < id)
      → i ≡ i'
  first_again i i' id value e less e' less' = elim (Bool-cases (ltb i i')) [
    | inl before ↦ absurd (omega (arith, less' i (ground arith), same_key i value i))
    | inr after ↦ elim (Bool-cases (ltb i' i)) [
      | inl before ↦ absurd (omega (arith, less i' (ground arith), same_key i value i'))
      | inr here ↦ ground arith
    ]
  ]

  Found-again :
      (i id value : ℕ) (r : Option ℕ)
      → i < get_size b
      → key_of b i ≡ id
      → ((j : ℕ) → j < i → key_of b j < id)
      → get_entity_id_pos (with_value b i value) id ≡ some r
      → Found (key_of (with_value b i value)) (get_size b) id r
      → get_entity_id_pos (with_value b i value) id ≡ some (some i)
  Found-again i id value r l e less run (at_first i' l' e' less') =
      run ∙ ap (λ k. some (some k)) (sym (first_again i i' id value e less e' less'))
  Found-again i id value r l e less run (absent n) = absurd (n i l (same_key i value i ∙ e))

  -- On pairs whose keys ascend, a value that `modifyValueByKey` gives to a key that is there is the one that
  -- `findValueByKey` then finds.
  pub find-modify :
      (i id value : ℕ)
      → get_size b * 2 ≤ length b.cells
      → i < get_size b
      → key_of b i ≡ id
      → (b' : Buffer) × (modify_value_by_key b id value ≡ some (true, b'))
        × (find_value_by_key b' id ≡ some value)
  find-modify k id value room l e =
      let (r, run, f) = get_entity_id_pos_lem b id ascends in go r run f
    where
      go :
          (r : Option ℕ)
          → get_entity_id_pos b id ≡ some r
          → Found (key_of b) (get_size b) id r
          → (b' : Buffer) × (modify_value_by_key b id value ≡ some (true, b'))
            × (find_value_by_key b' id ≡ some value)
      go r run (absent n) = absurd (n k l e)
      go r run (at_first i inside here less) =
          let c = with_value b i value in
          let (r', run', f') =
            get_entity_id_pos_lem c id
              (λ x y h u. omega (arith, same_key i value x, same_key i value y, ascends x y h u)) in
          let again = Found-again i id value r' inside here less run' f' in
          let bound : value_index b i < length b.cells = rw pairs (omega arith) in
          (
            c,
            modified b id value i run,
            value_found c id i again
                ∙ ap some (get_or-set_self b.cells (value_index b i) value 0 bound),
          )
