-- ===== src/Reach/Build/Degrees.antt =====
-- Matrix/reach.cpp: `init_degree`, and the choice of roots in `get_forward_root_vertices`.
use mgtag.Prelude.{
  ℕ, zero, suc, ◌+◌, ◌-◌, ◌%◌, ◌^◌, Bool, false, not, ◌&&◌, List, [], ◌∷◌, length, get_or, set,
  replicate, ◌==◌, if◌then◌else◌,
}
use mathlib.Core.List.{foldl}
use mgtag.Reach.Graph.{Image, targets}

-- `x++` and `x--` on an unsigned word
abbrev pub inc32 : ℕ → ℕ
inc32 x = (x + 1) % 2 ^ 32

abbrev pub dec32 : ℕ → ℕ
dec32 x = (x + 2 ^ 32 - 1) % 2 ^ 32

abbrev pub num : List ℕ → ℕ → ℕ
num xs i = get_or xs i 0

abbrev pub flag : List Bool → ℕ → Bool
flag xs i = get_or xs i false

-- `globalDegree`
pub record Degrees : Type 0 where
  pub indeg : List ℕ
  pub outdeg : List ℕ

abbrev pub count_edge : Degrees → ℕ → Degrees
count_edge d v = record d { indeg = set d.indeg v (inc32 (num d.indeg v)) }

unfoldable pub count_row : Image → ℕ → Degrees → Degrees
count_row im i d =
    let vs = targets im i in foldl count_edge (record d { outdeg = set d.outdeg i (length vs) }) vs

-- the `n` vertices from `i` on
unfoldable pub count_rows : Image → ℕ → ℕ → Degrees → Degrees
count_rows im zero i d = d
count_rows im (suc n) i d = count_rows im n (i + 1) (count_row im i d)

unfoldable pub init_degree : Image → Degrees
init_degree im =
    let n = suc im.max_id in
    count_rows im n 0 (record { indeg = replicate n 0; outdeg = replicate n 0 })

-- the vertices from `i` on that pass the test, in order
unfoldable pub select_from : (ℕ → Bool) → ℕ → ℕ → List ℕ
select_from test zero i = []
select_from test (suc n) i =
    let rest = select_from test n (i + 1) in if test i then i ∷ rest else rest

-- `qsort` orders the buffer by out-degree, in any order where these are equal. What the function
-- writes to the root file is what `construct_index` maps.
module _ (qsort : List ℕ → List ℕ) where
  unfoldable pub get_forward_root_vertices : Image → Degrees → List ℕ
  get_forward_root_vertices im d =
      let sorted = qsort (select_from (λ v. num d.indeg v == 0) (suc im.max_id) 0) in
      if length sorted == 0 then 0 ∷ [] else sorted

  unfoldable pub get_backward_root_vertices : Image → Degrees → List ℕ
  get_backward_root_vertices im d =
      let is_sink = λ (v : ℕ). not (num d.indeg v == 0) && num d.outdeg v == 0 in
      let sorted = qsort (select_from is_sink (suc im.max_id) 0) in
      if length sorted == 0 then 0 ∷ [] else sorted
