-- ===== src/Reach/Build/Entries.antt =====
-- Matrix/reach.cpp: `same_tree_reach`, `is_reachable` and `cal_excp_and_cross_arr`, which collect the
-- exceptions and the entry points of each vertex.
use mgtag.Prelude.{
  ℕ, ◌+◌, Bool, true, false, not, ◌&&◌, ◌||◌, List, [], ◌∷◌, ◌++◌, length, get_or, set, sort, take,
  leb, ltb, ◌==◌, if◌then◌else◌,
}
use mathlib.Core.List.{foldl, reverse}
use mgtag.Reach.Graph.{Image, targets}
use mgtag.Reach.Build.Degrees.{num}

abbrev pub row : List (List ℕ) → ℕ → List ℕ
row xs i = get_or xs i []

abbrev pub add_to : List (List ℕ) → ℕ → ℕ → List (List ℕ)
add_to xs i v = set xs i (row xs i ++ v ∷ [])

-- `cnt` is `querycnt`, which goes up by 2 for each vertex: the two flag arrays are never cleared.
pub record Entries : Type 0 where
  pub reach_flag : List ℕ
  pub exit_flag : List ℕ
  pub cnt : ℕ
  pub excp : List (List ℕ)
  pub cross : List (List ℕ)
  pub cross_pro : List (List ℕ)

-- The arrays that are complete by now.
pub record Known : Type 0 where
  pub new_id : List ℕ
  pub rlt : List ℕ
  pub interval : List ℕ
  pub excp_o : List (List ℕ)

abbrev pub mark_reached : Entries → ℕ → Entries
mark_reached s v = record s { reach_flag = set s.reach_flag v s.cnt }

module _ (k : Known) where
  abbrev pub end_at : ℕ → ℕ
  end_at a = num k.interval a

  -- the loop over `excpID[id1]`
  unfoldable pub same_tree_scan : List ℕ → ℕ → Entries → Bool × Entries
  same_tree_scan [] id2 s = (false, s)
  same_tree_scan (e ∷ es) id2 s =
      let s' = mark_reached s e in
      let rest = same_tree_scan es id2 s' in
      if ltb id2 e then (false, s') else if leb (end_at id2) (end_at e) then (true, s') else rest

  unfoldable pub same_tree_reach : ℕ → ℕ → Entries → Bool × Entries
  same_tree_reach id1 id2 s =
      if leb (end_at id2) (end_at id1) then (true, s) else same_tree_scan (row s.excp id1) id2 s

  -- the loop over the first `len` entries of `id_cross_arr_pro[id1]`
  unfoldable pub is_reachable_scan : List ℕ → ℕ → Entries → Bool × Entries
  is_reachable_scan [] id2 s = (false, s)
  is_reachable_scan (id ∷ ids) id2 s =
      elim (num s.reach_flag id == s.cnt || not (num k.rlt id == num k.rlt id2)) [
        | true ↦ is_reachable_scan ids id2 s
        | false ↦ elim (ltb id2 id) [
          | true ↦
              let (hit, s') = same_tree_reach id2 id s in
              is_reachable_scan ids id2 (if hit then mark_reached s' id else s')
          | false ↦
              let (hit, s') = same_tree_reach id id2 s in
              elim hit [ true ↦ (true, mark_reached s' id2) | false ↦ is_reachable_scan ids id2 s' ]
        ]
      ]

  unfoldable pub is_reachable : ℕ → ℕ → ℕ → Entries → Bool × Entries
  is_reachable id1 id2 len s = is_reachable_scan (take len (row s.cross_pro id1)) id2 s

  -- The exception edges of the vertex itself.
  unfoldable pub own_excp : ℕ → Entries → ℕ → Entries
  own_excp u s v =
      let e = num k.new_id v in
      if ltb (end_at u) (end_at e)
      then record s { excp = add_to s.excp u e; exit_flag = set s.exit_flag e s.cnt }
      else s

  -- An exception of a successor of the same tree.
  unfoldable pub take_excp : ℕ → Entries → ℕ → Entries
  take_excp u s e =
      if ltb (end_at u) (end_at e) && not (num s.exit_flag e == s.cnt)
      then record s { excp = add_to s.excp u e; exit_flag = set s.exit_flag e s.cnt }
      else s

  abbrev pub settled : Entries → ℕ → Bool
  settled s c = num s.exit_flag c == s.cnt + 1 || num s.reach_flag c == s.cnt

  -- A candidate entry point, unless an earlier one leads to it.
  unfoldable pub take_cross : ℕ → ℕ → Entries → ℕ → Entries
  take_cross u len s c =
      if settled s c
      then s
      else let (hit, s') = is_reachable u c len s in
        if hit then s' else record s' {
          cross_pro = add_to s'.cross_pro u c;
          exit_flag = set s'.exit_flag c (s'.cnt + 1);
        }

  unfoldable pub take_edge : ℕ → Entries → ℕ → Entries
  take_edge u s v =
      let len = length (row s.cross_pro u) in
      let a = num k.new_id v in
      if num k.rlt a == num k.rlt u
      then (let s' = foldl (take_excp u) s (row s.excp a) in
          foldl (take_cross u len) s' (row s'.cross a))
      else take_cross u len s a

  abbrev pub keep_cross : ℕ → Entries → ℕ → Entries
  keep_cross u s c =
      if not (num s.reach_flag c == s.cnt) then record s { cross = add_to s.cross u c } else s

  -- The rounds count from 1: `querycnt` starts at -1 and goes up by 2 first.
  unfoldable pub entries_vertex : Image → Entries → ℕ → Entries
  entries_vertex im s0 old =
      let u = num k.new_id old in
      let s2 = foldl (own_excp u) s0 (row k.excp_o old) in
      let s3 = foldl (take_edge u) s2 (targets im old) in
      let s4 = foldl (keep_cross u) s3 (row s3.cross_pro u) in
      record s4 {
        cnt = s4.cnt + 2;
        cross = set s4.cross u (sort (row s4.cross u));
        excp = set s4.excp u (sort (row s4.excp u));
      }

  unfoldable pub cal_excp_and_cross_arr : Image → List ℕ → Entries → Entries
  cal_excp_and_cross_arr im topo s = foldl (entries_vertex im) s (reverse topo)
