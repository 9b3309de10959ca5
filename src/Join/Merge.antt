-- ===== src/Join/Merge.antt =====
-- TripleBit/SortMergeJoin.cpp: `Merge1` leaves the records whose key the other buffer has.
use mgtag.Prelude.{ℕ, suc, ◌<◌, ◌≡◌, ◌≢◌, sym, ◌∙◌, Bool, List, some, append-nil, arith}
use mgtag.Compact.{Page, write_back, kept}
use mgtag.Compact.Laws.{Compacted, write_back-Compacted}
use mgtag.Buffer.{Buffer, contents, get_size}
use mgtag.Join.{
  State, page_cells, key_at, round1, round2, rounds, side, begin, store, merge1, merge2,
}
use mgtag.Join.Rounds.{IsSide}
use mgtag.Join.Sides.{has}
use mgtag.Join.Round1.{rounds1_lem}
use mgtag.Join.Round2.{rounds2_lem}

-- the records of one buffer whose key is that of a record of the other
abbrev pub partners : Buffer → ℕ → Buffer → ℕ → List ℕ
partners b key other key' =
    kept b.cells b.id_count
      (λ a.
        has (key_at (side other key') other.cells) (get_size other) (key_at (side b key) b.cells a))
      (get_size b)

merged1 :
    (b1 b2 : Buffer) (key1 key2 : ℕ) (t : State)
    → rounds
        (side b1 key1)
        (side b2 key2)
        (round1 (side b1 key1) (side b2 key2))
        (suc (get_size b1))
        (begin b1 b2)
      ≡ some t
    → merge1 b1 b2 key1 key2 ≡ some (store b1 t.page1, store b2 t.page2)
unfolding merge1
merged1 b1 b2 key1 key2 t e = ground arith

pub contents-store :
    (b : Buffer) (test : ℕ → Bool) (m : ℕ) (p : Page)
    → Compacted b.cells page_cells b.id_count test m p
    → contents (store b p) ≡ kept b.cells b.id_count test m
unfolding write_back
contents-store b test m p c =
    let w = write_back-Compacted b.cells page_cells b.id_count test m p c in
    sym (append-nil _) ∙ w.result

-- For two buffers of whole records, each with its keys ascending and with a number of IDs in a record that
-- divides the 4096 cells of the page, `Merge1` ends, and each buffer is left with its records whose key the
-- other one has, in their order and as they were; this where the cell that `Merge1` reads behind the second
-- buffer's records holds no key of the first.
pub merge1_lem :
    (b1 b2 : Buffer) (key1 key2 : ℕ)
    → IsSide (side b1 key1) b1.cells
    → IsSide (side b2 key2) b2.cells
    → ((a : ℕ)
        → a < get_size b1
        → key_at (side b1 key1) b1.cells a ≢ key_at (side b2 key2) b2.cells (get_size b2))
    → (b1' : Buffer) × (b2' : Buffer) × (merge1 b1 b2 key1 key2 ≡ some (b1', b2'))
      × (contents b1' ≡ partners b1 key1 b2 key2)
      × (contents b2' ≡ partners b2 key2 b1 key1)
merge1_lem b1 b2 key1 key2 v1 v2 fresh =
    let (t, e, c1, c2) = rounds1_lem (side b1 key1) (side b2 key2) b1.cells b2.cells v1 v2 fresh in
    (
      store b1 t.page1,
      store b2 t.page2,
      merged1 b1 b2 key1 key2 t e,
      contents-store b1 _ (get_size b1) t.page1 c1,
      contents-store b2 _ (get_size b2) t.page2 c2,
    )

merged2 :
    (b1 b2 : Buffer) (key1 key2 : ℕ) (t : State)
    → rounds
        (side b1 key1)
        (side b2 key2)
        (round2 (side b1 key1) (side b2 key2))
        (suc (get_size b1))
        (begin b1 b2)
      ≡ some t
    → merge2 b1 b2 key1 key2 ≡ some (store b1 t.page1)
unfolding merge2
merged2 b1 b2 key1 key2 t e = ground arith

-- For two buffers of whole records, each with its keys ascending and with a number of IDs in a record that
-- divides the 4096 cells of the page, `Merge2` ends, and leaves the first one with its records whose key the
-- second one has, in their order and as they were; this where the cell that `Merge2` reads behind the second
-- buffer's records holds no key of the first.
pub merge2_lem :
    (b1 b2 : Buffer) (key1 key2 : ℕ)
    → IsSide (side b1 key1) b1.cells
    → IsSide (side b2 key2) b2.cells
    → ((a : ℕ)
        → a < get_size b1
        → key_at (side b1 key1) b1.cells a ≢ key_at (side b2 key2) b2.cells (get_size b2))
    → (b1' : Buffer) × (merge2 b1 b2 key1 key2 ≡ some b1')
      × (contents b1' ≡ partners b1 key1 b2 key2)
merge2_lem b1 b2 key1 key2 v1 v2 fresh =
    let (t, e, c) = rounds2_lem (side b1 key1) (side b2 key2) b1.cells b2.cells v1 v2 fresh in
    (store b1 t.page1, merged2 b1 b2 key1 key2 t e, contents-store b1 _ (get_size b1) t.page1 c)
