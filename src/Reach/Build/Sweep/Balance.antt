-- ===== src/Reach/Build/Sweep/Balance.antt =====
-- Matrix/reach.cpp: counting the edges down that lead into a vertex.
use mgtag.Prelude.{
  ℕ, suc, ◌+◌, ◌-◌, ◌≤◌, ◌<◌, ◌≡◌, ◌≢◌, inl, inr, false, List, ◌∷◌, Memᴰ, ◌==◌, Bool-cases, arith,
}
use mgtag.Reach.Build.Degrees.{num}
use mgtag.Reach.Build.Counts.{count, edges_into}
use mgtag.Reach.Build.Sums.{elem, edges_from, edges_from-cons, edges_from_room, edges_from_all}

-- `indeg` counts the edges to come, after the rows of `seen` and `extra v` edges of the row of `u`.
abbrev pub Balanced : (ℕ → List ℕ) → ℕ → List ℕ → (ℕ → ℕ) → List ℕ → Type 0
Balanced row n seen extra indeg =
    (v : ℕ) → v < n → num indeg v + (edges_from row v seen n 0 + extra v) ≡ edges_into row v n 0

-- The row of `u` leads to `x` once more.
module _ (row : ℕ → List ℕ) (n : ℕ) (seen : List ℕ) (extra extra' : ℕ → ℕ) (u x : ℕ)
    (indeg : List ℕ) (balance : Balanced row n seen extra indeg) (start : u < n)
    (unread : elem u seen ≡ false) (vertex : x < n) (one_more : extra' x ≡ suc (extra x))
    (others : (v : ℕ) → x ≢ v → extra' v ≡ extra v)
    (of_row : (v : ℕ) → extra' v ≤ count v (row u)) where
  pub to_come : 1 ≤ num indeg x
  to_come = omega (arith, edges_from_room row x u seen n start unread, balance x vertex, of_row x)

  module _ (down : List ℕ) (own : num down x ≡ num indeg x - 1)
      (rest : (v : ℕ) → x ≢ v → num down v ≡ num indeg v) where
    pub down_balance : Balanced row n seen extra' down
    down_balance v h = elim (Bool-cases (x == v)) [
      | inl same ↦
          let e : x ≡ v = ground arith in
          rw (← e) (omega (arith, to_come, own, one_more, balance x vertex))
      | inr apart ↦ let k : x ≢ v = ground arith in omega (arith, rest v k, others v k, balance v h)
    ]

    -- Once no edge into `x` is to come, each comes from a row that has been read.
    pub starts_read : num down x ≡ 0 → (w : ℕ) → w < n → Memᴰ x (row w) → Memᴰ w (u ∷ seen)
    starts_read none_left w h m =
        let added = edges_from-cons row x u seen n 0 (omega arith) (omega arith) unread in
        edges_from_all row x w (u ∷ seen) n h (omega (arith, down_balance x vertex, of_row x)) m
