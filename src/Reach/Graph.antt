-- ===== src/Reach/Graph.antt =====
-- Matrix/reach.cpp: the adjacency image that `DAG_getOffset` reads, and the walks of the graph.
use mgtag.Prelude.{
  ℕ, zero, suc, ◌+◌, ◌*◌, ◌≤◌, ◌≡◌, arith, List, [], ◌∷◌, Option, none, some, Memᴰ, get_or, drop,
  ◌==◌, if◌then◌else◌,
}

-- `files` holds the bytes of the mapped files DAG.0, DAG.1, …; `index` is `global_DAG_index`, a byte
-- offset and a file number for each vertex.
pub record Image : Type 0 where
  pub files : List (List ℕ)
  pub index : List ℕ
  pub max_id : ℕ

-- the little-endian `ID` at the front of the bytes that a pointer points to
abbrev pub word : List ℕ → ℕ
word p = get_or p 0 0 + 256 * (get_or p 1 0 + 256 * (get_or p 2 0 + 256 * get_or p 3 0))

unfoldable pub words : ℕ → List ℕ → List ℕ
words zero p = []
words (suc n) p = word p ∷ words n (drop 4 p)

-- A pointer is the rest of its file. Offset 0 says that there is no row, and 1 stands for 0.
unfoldable pub dag_get_offset : Image → ℕ → Option (List ℕ)
dag_get_offset im id =
    let adj_off = get_or im.index (2 * id) 0 in
    if adj_off == 0
    then none
    else some (
        drop (if adj_off == 1 then 0 else adj_off)
          (get_or im.files (get_or im.index (2 * id + 1) 0) []))

-- `addr[0]`, the vertex that the row is stored for
abbrev pub row_id : List ℕ → ℕ
row_id p = word p

-- `addr[1]` entries from `addr + 2` on
unfoldable pub row_targets : List ℕ → List ℕ
row_targets p = words (word (drop 4 p)) (drop 8 p)

-- Without a row the C++ reads through a null pointer: see `IsWhole`.
unfoldable pub targets : Image → ℕ → List ℕ
targets im u = elim (dag_get_offset im u) [ none ↦ [] | some p ↦ row_targets p ]

-- Each vertex has a row of its own, and all edges lead to vertices.
pub record IsWhole (im : Image) : Type 0 where
  pub has_row :
      (u : ℕ) → u ≤ im.max_id → (p : List ℕ) × (dag_get_offset im u ≡ some p) × (row_id p ≡ u)
  pub in_range : (u v : ℕ) → u ≤ im.max_id → Memᴰ v (targets im u) → v ≤ im.max_id

pub data Walk (im : Image) (x : ℕ) : ℕ → Type 0 where
  here : Walk im x x
  step : {u v : ℕ} → Walk im x u → Memᴰ v (targets im u) → Walk im x v

-- some walk of one edge at least
abbrev pub Path+ : Image → ℕ → ℕ → Type 0
Path+ im x y = (u : ℕ) × Walk im x u × Memᴰ y (targets im u)

pub targets_of_row :
    (im : Image) (u : ℕ) {p : List ℕ} → dag_get_offset im u ≡ some p → targets im u ≡ row_targets p
unfolding targets
targets_of_row im u e = ground arith
