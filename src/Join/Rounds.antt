-- ===== src/Join/Rounds.antt =====
-- TripleBit/SortMergeJoin.cpp: the outer loop of `Merge1` and `Merge2` ends.
use mgtag.Prelude.{
  ℕ, zero, suc, ◌+◌, ◌*◌, ◌≤◌, ◌<◌, ◌≡◌, ◌⊎◌, inl, inr, ◌∙◌, true, false, List, Option, some,
  length, ltb, Bool-cases, arith,
}
use mgtag.Join.{Side, State, page_cells, key_at, running, rounds}
use mgtag.Join.Apart.{Ascends}

-- What the loops need of one buffer: whole records, with keys that ascend, and a number of IDs in a record
-- that divides the cells of the page. The code tests `pos1 == 4096` for a full page, and does not test
-- that a record still fits.
pub record IsSide (s : Side) (old : List ℕ) : Type 0 where
  pub pages : ℕ
  pub even : page_cells ≡ pages * s.id_count
  pub holds : s.id_count ≤ page_cells
  pub room : s.records * s.id_count ≤ length old
  pub ascends : Ascends (key_at s old) s.records

module _ (s1 s2 : Side) where
  module _ (Inv : State → Type 0) (round : State → Option State)
      (upto : (t : State) → Inv t → t.i ≤ s1.records)
      (step : (t : State)
        → Inv t
        → running s1 s2 t ≡ true
        → (u : State) × (round t ≡ some u) × Inv u × (t.i < u.i)) where
    goes :
        (fuel : ℕ) (t u : State)
        → running s1 s2 t ≡ true
        → round t ≡ some u
        → rounds s1 s2 round (suc fuel) t ≡ rounds s1 s2 round fuel u
    unfolding rounds
    goes fuel t u on e = ground arith

    stops :
        (fuel : ℕ) (t : State) → running s1 s2 t ≡ false → rounds s1 s2 round (suc fuel) t ≡ some t
    unfolding rounds
    stops fuel t off = ground arith

    pub rounds_lem :
        (fuel : ℕ) (t : State)
        → Inv t
        → s1.records < t.i + fuel
        → (u : State) × (rounds s1 s2 round fuel t ≡ some u) × Inv u × (running s1 s2 u ≡ false)
    rounds_lem zero t v enough = absurd (omega (arith, upto t v))
    rounds_lem (suc fuel) t v enough = elim (Bool-cases (running s1 s2 t)) [
      | inl on ↦
          let (u, e, w, l) = step t v on in
          let (x, f, y, off) = rounds_lem fuel u w (omega arith) in
          (x, goes fuel t u on e ∙ f, y, off)
      | inr off ↦ (t, stops fuel t off, v, off)
    ]

pub halted :
    (s1 s2 : Side) (t : State) → running s1 s2 t ≡ false → (s1.records ≤ t.i) ⊎ (s2.records ≤ t.j)
halted s1 s2 t off = elim (Bool-cases (ltb t.i s1.records)) [
  | inl on ↦ inr (ground arith)
  | inr done ↦ inl (ground arith)
]
