-- ===== src/Reach/Query.antt =====
-- Matrix/reach.cpp: `same_layer_tree_reach`, `down_layer_to_up_layer_without_cross_located`, `query`
-- and the answer that `process` computes for a pair of vertices.
pub mod Laws
pub mod SameTree
pub mod Down
pub mod Answer
use mgtag.Prelude.{
  ℕ, zero, suc, ◌+◌, Bool, true, false, not, ◌||◌, Option, none, some, List, [], ◌∷◌, leb, ltb,
  ◌==◌, if◌then◌else◌,
}
use mgtag.Reach.Labels.{
  Labels, new_of, up_of, down_of, layer_of, tree_of, end_of, excp_of, cross_of,
}

-- `none`: the fuel that stands for the depth of the C++ recursion ran out.
abbrev pub Outcome : Type 0
Outcome = Option (Bool × ℕ)

-- `if (call) return true;`, and else the statements that follow, with the counter of the call
abbrev pub or_else : Outcome → (ℕ → Outcome) → Outcome
or_else none rest = none
or_else (some (true, cnt)) rest = some (true, cnt)
or_else (some (false, cnt)) rest = rest cnt

module _ (lb : Labels) where
  -- the loop over `excpID[id1]`
  unfoldable pub scan_excp : List ℕ → ℕ → Bool
  scan_excp [] id2 = false
  scan_excp (e ∷ es) id2 =
      if ltb id2 e
      then false
      else if leb (end_of lb id2) (end_of lb e)
      then true
      else scan_excp es id2

  unfoldable pub same_layer_tree_reach : ℕ → ℕ → Bool
  same_layer_tree_reach id1 id2 =
      if not (tree_of lb id1 == tree_of lb id2)
      then false
      else if leb (end_of lb id2) (end_of lb id1)
      then true
      else scan_excp (excp_of lb id1) id2

  -- The loop over `id_cross_arr[id1]`: `down` is the recursive call, and `cnt` is `querycnt`.
  unfoldable pub scan_cross : (ℕ → ℕ → Outcome) → List ℕ → ℕ → ℕ → Outcome
  scan_cross down [] id2 cnt = some (false, cnt)
  scan_cross down (c ∷ cs) id2 cnt =
      if ltb id2 c
      then some (false, cnt)
      else if ltb (layer_of lb c) (layer_of lb id2)
      then or_else (down c (cnt + 1)) (λ n. scan_cross down cs id2 n)
      else if same_layer_tree_reach c id2
      then some (true, cnt)
      else scan_cross down cs id2 cnt

  unfoldable pub down_layer_to_up_layer : ℕ → ℕ → ℕ → ℕ → Outcome
  down_layer_to_up_layer zero id1 id2 cnt = none
  down_layer_to_up_layer (suc fuel) id1 id2 cnt =
      scan_cross (λ c n. down_layer_to_up_layer fuel c id2 n) (cross_of lb id1) id2 cnt

  -- Each call goes to a higher layer, below that of `id2`, so the layer of `id2` bounds the depth.
  unfoldable pub query : ℕ → ℕ → ℕ → Outcome
  query id1 id2 cnt =
      if ltb (layer_of lb id1) (layer_of lb id2)
      then down_layer_to_up_layer (layer_of lb id2) id1 id2 cnt
      else some (same_layer_tree_reach id1 id2, cnt)

  -- the body of the query loop of `process`
  unfoldable pub answer : ℕ → ℕ → ℕ → Outcome
  answer x y cnt =
      if x == y
      then some (true, cnt)
      else if leb (down_of lb y) (down_of lb x) || leb (up_of lb x) (up_of lb y)
      then some (false, cnt)
      else if ltb (new_of lb y) (new_of lb x)
      then some (false, cnt)
      else query (new_of lb x) (new_of lb y) cnt
