-- ===== src/Buffer/Search.antt =====
-- TripleBit/EntityIDBuffer.cpp: the binary searches by the sort key. `bound` is the code's `high + 1`, and
-- a result of `none` stands for `size_t(-1)`; the outer option is the fuel of the loop.
use mgtag.Prelude.{
  ℕ, zero, suc, ◌+◌, ◌-◌, ◌*◌, ◌/◌, ◌≤◌, ◌<◌, ◌≡◌, ◌≢◌, inl, inr, refl, Bool, true, false, Option,
  none, some, get_or, set, ltb, ◌==◌, Bool-cases, arith, if◌then◌else◌,
}
use mgtag.Buffer.{Buffer, get_size}

abbrev pub key_of : Buffer → ℕ → ℕ
key_of b i = get_or b.cells (i * b.id_count + b.sort_key) 0

-- the other ID of a record
abbrev pub value_index : Buffer → ℕ → ℕ
value_index b i = i * b.id_count + 1 - b.sort_key

-- `while (mid != -1 && buffer[mid] == id) mid--; mid++;`
unfoldable pub run_start : (ℕ → ℕ) → ℕ → ℕ → ℕ
run_start key id zero = if key 0 == id then 0 else 1
run_start key id (suc m) =
    let rest = run_start key id m in if key (suc m) == id then rest else suc (suc m)

-- the loop that the searches share
unfoldable pub search : (ℕ → ℕ) → ℕ → ℕ → ℕ → ℕ → Option (Option ℕ)
search key id zero low bound = if ltb low bound then none else some none
search key id (suc fuel) low bound =
    let mid = low + (bound - 1 - low) / 2 in
    let left = search key id fuel low mid in
    let right = search key id fuel (mid + 1) bound in
    if ltb low bound
    then (if key mid == id
        then some (some (run_start key id mid))
        else if ltb id (key mid)
        then left
        else right)
    else some none

unfoldable pub get_entity_id_pos : Buffer → ℕ → Option (Option ℕ)
get_entity_id_pos b id = search (key_of b) id (get_size b) 0 (get_size b)

-- `ID(-1)`
abbrev pub no_id : ℕ
no_id = 4294967295

unfoldable pub find_value_by_key : Buffer → ℕ → Option ℕ
find_value_by_key b key = elim (get_entity_id_pos b key) [
  | none ↦ none
  | some none ↦ some no_id
  | some (some i) ↦ some (get_or b.cells (value_index b i) 0)
]

unfoldable pub modify_value_by_key : Buffer → ℕ → ℕ → Option (Bool × Buffer)
modify_value_by_key b key value = elim (get_entity_id_pos b key) [
  | none ↦ none
  | some none ↦ some (false, b)
  | some (some i) ↦ some (true, record b { cells = set b.cells (value_index b i) value })
]

-- the first record of the key, or that there is none
pub data Found (key : ℕ → ℕ) (size id : ℕ) : Option ℕ → Type 0 where
  at_first :
      (i : ℕ) → i < size → key i ≡ id → ((j : ℕ) → j < i → key j < id) → Found key size id (some i)
  absent : ((j : ℕ) → j < size → key j ≢ id) → Found key size id none

module _ (key : ℕ → ℕ) (size id : ℕ) (ascends : (a b : ℕ) → a ≤ b → b < size → key a ≤ key b) where
  run_start_past : (m : ℕ) → key m ≢ id → run_start key id m ≡ suc m
  unfolding run_start
  run_start_past zero n = ground arith
  run_start_past (suc m) n = ground arith

  run_start_lem :
      (m : ℕ)
      → m < size
      → key m ≡ id
      → (run_start key id m ≤ m)
        × (key (run_start key id m) ≡ id)
        × ((j : ℕ) → j < run_start key id m → key j < id)
  unfolding run_start
  run_start_lem zero h e =
      let hit : (key 0 == id) ≡ true = ground arith in
      rw hit (omega arith, e, λ j l. absurd (omega arith))
  run_start_lem (suc m) h e =
      let hit : (key (suc m) == id) ≡ true = ground arith in
      rw hit (elim (Bool-cases (key m == id)) [
        | inl again ↦
            let (low, same, below) = run_start_lem m (omega arith) (ground arith) in
            (omega arith, same, below)
        | inr other ↦
            let differs : key m ≢ id = ground arith in
            let step = ascends m (suc m) (omega arith) h in
            rw (run_start_past m differs)
              (omega arith, e, λ j l. omega (arith, ascends j m (omega arith) (omega arith)))
      ])

  search_lem :
      (fuel low bound : ℕ)
      → low ≤ bound
      → bound ≤ size
      → bound ≤ low + fuel
      → ((j : ℕ) → j < low → key j < id)
      → ((j : ℕ) → bound ≤ j → j < size → id < key j)
      → (r : Option ℕ) × (search key id fuel low bound ≡ some r) × Found key size id r
  unfolding search
  search_lem zero low bound le inside enough below above = (
    none,
    ground arith,
    absent (λ j l e. elim (Bool-cases (ltb j low)) [
      | inl b ↦ omega (arith, below j (ground arith), e)
      | inr b ↦ let past : low ≤ j = ground arith in omega (arith, above j (omega arith) l, e)
    ]),
  )
  search_lem (suc fuel) low bound le inside enough below above = elim (Bool-cases (ltb low bound)) [
    | inl wide ↦
        let room : low < bound = ground arith in
        let mid = low + (bound - 1 - low) / 2 in
        let mid_low : mid < bound = omega arith in
        rw wide (elim (Bool-cases (key mid == id)) [
          | inl hit ↦
              let (first, same, less) = run_start_lem mid (omega arith) (ground arith) in
              rw hit (
                some (run_start key id mid),
                refl,
                at_first (run_start key id mid) (omega arith) same less,
              )
          | inr miss ↦ rw miss (elim (Bool-cases (ltb id (key mid))) [
            | inl high ↦
                let over : id < key mid = ground arith in
                rw high (
                  search_lem fuel low mid (omega arith) (omega arith) (omega arith) below
                    (λ j l u. omega (arith, ascends mid j l u)))
            | inr low_key ↦
                let under : key mid < id = ground arith in
                rw low_key (
                  search_lem fuel (mid + 1) bound (omega arith) inside (omega arith)
                    (λ j l. omega (arith, ascends j mid (omega arith) (omega arith))) above)
          ])
        ])
    | inr shut ↦ rw shut (
      none,
      refl,
      absent (λ j l e. elim (Bool-cases (ltb j low)) [
        | inl b ↦ omega (arith, below j (ground arith), e)
        | inr b ↦
            let past : low ≤ j = ground arith in
            let met : bound ≤ low = ground arith in omega (arith, above j (omega arith) l, e)
      ]),
    )
  ]

-- On records whose keys ascend `getEntityIDPos` ends, with the first record of the key, or with -1 exactly
-- when no record has it.
pub get_entity_id_pos_lem :
    (b : Buffer) (id : ℕ)
    → ((i j : ℕ) → i ≤ j → j < get_size b → key_of b i ≤ key_of b j)
    → (r : Option ℕ) × (get_entity_id_pos b id ≡ some r) × Found (key_of b) (get_size b) id r
unfolding get_entity_id_pos
get_entity_id_pos_lem b id ascends =
    search_lem (key_of b) (get_size b) id ascends (get_size b) 0 (get_size b) (omega arith)
      (omega arith) (omega arith) (λ j l. absurd (omega arith)) (λ j l u. absurd (omega arith))
