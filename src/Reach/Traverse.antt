-- ===== src/Reach/Traverse.antt =====
-- Matrix/reach.cpp: `tranverse`, the breadth-first search that answers without the index.
pub mod Scan
pub mod Decides
use mgtag.Prelude.{
  ℕ, zero, suc, ◌+◌, Bool, true, false, not, List, [], ◌∷◌, ◌++◌, Option, none, some, get_or, set,
  replicate, ◌==◌, if◌then◌else◌,
}
use mgtag.Reach.Graph.{Image, dag_get_offset, row_id, row_targets}

-- `visit`, and the vertices in `que`, front first
pub record Search : Type 0 where
  pub visit : List Bool
  pub que : List ℕ

-- `aborted` is a failed `assert(addr[0] == curID)`, or a missing row.
pub data Verdict : Type 0 where
  found : Bool → Verdict
  aborted out_of_fuel : Verdict

abbrev pub visited : Search → ℕ → Bool
visited s v = get_or s.visit v false

abbrev pub push : Search → ℕ → Search
push s v = record { visit = set s.visit v true; que = s.que ++ v ∷ [] }

-- The loop over `addr[0 .. count)`; the flag says that it returned on `y`.
unfoldable pub scan : ℕ → List ℕ → Search → Bool × Search
scan y [] s = (false, s)
scan y (v ∷ vs) s =
    let rest = scan y vs (if visited s v then s else push s v) in if v == y then (true, s) else rest

module _ (im : Image) (y : ℕ) where
  -- one round of the `while` loop, after `u` left the queue: none if the row is not that of `u`
  unfoldable pub expand : ℕ → Search → Option (Bool × Search)
  expand u s = elim (dag_get_offset im u) [
    | none ↦ none
    | some p ↦ if row_id p == u then some (scan y (row_targets p) s) else none
  ]

  unfoldable pub loop : ℕ → Search → Verdict
  loop zero s = elim s.que [ [] ↦ found false | _ ∷ _ ↦ out_of_fuel ]
  loop (suc fuel) s = elim s.que [
    | [] ↦ found false
    | u ∷ rest ↦ elim (expand u (record s { que = rest })) [
      | none ↦ aborted
      | some (true, t) ↦ found true
      | some (false, t) ↦ loop fuel t
    ]
  ]

-- Each round takes a vertex from the queue, and no vertex enters it twice.
unfoldable pub tranverse : Image → ℕ → ℕ → Verdict
tranverse im x y =
    loop im y (suc im.max_id)
      (push (record { visit = replicate (suc im.max_id) false; que = [] }) x)
