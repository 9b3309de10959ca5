-- ===== src/Join.antt =====
-- TripleBit/SortMergeJoin.cpp: the semijoin of two buffers sorted by their join keys. The two buffers are
-- different objects. A read behind the block gives 0.
pub mod Sides
pub mod Taken
pub mod Apart
pub mod Rounds
pub mod Round1
pub mod Round2
pub mod Merge
pub mod Stale
mod Runs
use mgtag.Prelude.{
  ℕ, zero, suc, ◌+◌, ◌*◌, Bool, true, false, ◌&&◌, List, [], ◌∷◌, Option, none, some, get_or, ltb,
  ◌==◌, if◌then◌else◌,
}
use mgtag.Compact.{Page, start, write_back, emit}
use mgtag.Buffer.{Buffer, get_size}

-- the capacity of `temp1` and `temp2`
abbrev pub page_cells : ℕ
page_cells = 4096

-- `IDCount`, `joinKey` and `length` of one buffer
pub record Side : Type 0 where
  pub id_count : ℕ
  pub join_key : ℕ
  pub records : ℕ

abbrev pub key_at : Side → List ℕ → ℕ → ℕ
key_at s cells i = get_or cells (i * s.id_count + s.join_key) 0

-- `while (buffer[j] < keyValue && j < length) j++;`
unfoldable pub skip_less : Side → List ℕ → ℕ → ℕ → ℕ → ℕ
skip_less s cells key zero j = j
skip_less s cells key (suc fuel) j =
    let rest = skip_less s cells key fuel (suc j) in
    if ltb (key_at s cells j) key && ltb j s.records then rest else j

-- `while (buffer[i] == keyValue && i < length) i++;`
unfoldable pub skip_equal : Side → List ℕ → ℕ → ℕ → ℕ → ℕ
skip_equal s cells key zero i = i
skip_equal s cells key (suc fuel) i =
    let rest = skip_equal s cells key fuel (suc i) in
    if (key_at s cells i == key) && ltb i s.records then rest else i

-- The same loop, with each record taken into the page.
unfoldable pub take_equal : Side → ℕ → ℕ → ℕ → Page → Option (ℕ × Page)
take_equal s key zero i p = none
take_equal s key (suc fuel) i p = elim ((key_at s p.cells i == key) && ltb i s.records) [
  | false ↦ some (i, p)
  | true ↦ elim (emit page_cells s.id_count p i) [
    | none ↦ none
    | some q ↦ take_equal s key fuel (suc i) q
  ]
]

pub record State : Type 0 where
  pub i : ℕ
  pub j : ℕ
  pub page1 : Page
  pub page2 : Page

module _ (s1 s2 : Side) where
  abbrev pub running : State → Bool
  running t = ltb t.i s1.records && ltb t.j s2.records

  -- one round of the loop of `Merge1`
  unfoldable pub round1 : State → Option State
  round1 t =
      let key = key_at s1 t.page1.cells t.i in
      let j1 = skip_less s2 t.page2.cells key s2.records t.j in
      if key_at s2 t.page2.cells j1 == key
      then (elim (take_equal s1 key (suc s1.records) t.i t.page1) [
        | none ↦ none
        | some (i, p) ↦ elim (take_equal s2 key (suc s2.records) j1 t.page2) [
          | none ↦ none
          | some (j, q) ↦ some (record { i = i; j = j; page1 = p; page2 = q })
        ]
      ])
      else some (record t { i = skip_equal s1 t.page1.cells key s1.records t.i; j = j1 })

  -- one round of the loop of `Merge2`, which leaves the second buffer
  unfoldable pub round2 : State → Option State
  round2 t =
      let key = key_at s1 t.page1.cells t.i in
      let j1 = skip_less s2 t.page2.cells key s2.records t.j in
      if key_at s2 t.page2.cells j1 == key
      then (elim (take_equal s1 key (suc s1.records) t.i t.page1) [
        | none ↦ none
        | some (i, p) ↦
            some (record t { i = i; j = skip_equal s2 t.page2.cells key s2.records j1; page1 = p })
      ])
      else some (record t { i = skip_equal s1 t.page1.cells key s1.records t.i; j = j1 })

  unfoldable pub rounds : (State → Option State) → ℕ → State → Option State
  rounds round zero t = none
  rounds round (suc fuel) t = elim (running t) [
    | false ↦ some t
    | true ↦ elim (round t) [ none ↦ none | some u ↦ rounds round fuel u ]
  ]

abbrev pub side : Buffer → ℕ → Side
side b key = record { id_count = b.id_count; join_key = key; records = get_size b }

abbrev pub begin : Buffer → Buffer → State
begin b1 b2 = record { i = 0; j = 0; page1 = start b1.cells; page2 = start b2.cells }

abbrev pub store : Buffer → Page → Buffer
store b p = record b { cells = (write_back p).cells; used_size = (write_back p).size }

-- `Merge1` filters both buffers.
unfoldable pub merge1 : Buffer → Buffer → ℕ → ℕ → Option (Buffer × Buffer)
merge1 b1 b2 key1 key2 =
    let s1 = side b1 key1 in
    let s2 = side b2 key2 in
    elim (rounds s1 s2 (round1 s1 s2) (suc s1.records) (begin b1 b2)) [
      | none ↦ none
      | some t ↦ some (store b1 t.page1, store b2 t.page2)
    ]

-- `Merge2` filters the first buffer.
unfoldable pub merge2 : Buffer → Buffer → ℕ → ℕ → Option Buffer
merge2 b1 b2 key1 key2 =
    let s1 = side b1 key1 in
    let s2 = side b2 key2 in
    elim (rounds s1 s2 (round2 s1 s2) (suc s1.records) (begin b1 b2)) [
      | none ↦ none
      | some t ↦ some (store b1 t.page1)
    ]
