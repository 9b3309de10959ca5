-- ===== src/Reach/Build/Index.antt =====
-- Matrix/reach.cpp: `is_excp` and `cal_index`, which computes `Lup` and the intervals.
use mgtag.Prelude.{
  ℕ, zero, suc, ◌+◌, ◌-◌, ◌/◌, Bool, true, false, not, ◌&&◌, List, [], length, get_or, set, ltb,
  ◌==◌, if◌then◌else◌,
}
use mathlib.Core.List.{foldl, reverse}
use mgtag.Reach.Graph.{Image, targets}
use mgtag.Reach.Build.Degrees.{num}

-- The binary search of `is_excp` over `xs`, the exceptions of `id1`. The C++ bounds are `f` and `l`,
-- signed and inclusive: `hi` is `l + 1`.
unfoldable pub is_excp : List ℕ → ℕ → ℕ → ℕ → ℕ → Bool
is_excp xs id2 zero f hi = false
is_excp xs id2 (suc fuel) f hi =
    let m = (f + (hi - 1)) / 2 in
    let right = is_excp xs id2 fuel (m + 1) hi in
    let left = is_excp xs id2 fuel f m in
    if ltb f hi
    then if num xs m == id2 then true else if ltb (num xs m) id2 then right else left
    else false

-- `tmpLup` and `tmpInterval`
pub record Scan : Type 0 where
  pub top : ℕ
  pub reach : ℕ

pub record Heights : Type 0 where
  pub lup : List ℕ
  pub interval : List ℕ

module _ (im : Image) (located new_id : List ℕ) (excp_o : List (List ℕ)) where
  abbrev pub skipped : ℕ → ℕ → Bool
  skipped u v =
      let xs = get_or excp_o u [] in
      not (length xs == 0) && is_excp xs v (suc (length xs)) 0 (length xs)

  unfoldable pub scan_edge : ℕ → Heights → Scan → ℕ → Scan
  scan_edge u h s v =
      let top = if ltb s.top (num h.lup v) then num h.lup v else s.top in
      let end = num h.interval (num new_id v) in
      record {
        top = top;
        reach =
            if num located v == num located u
            then if not (skipped u v) && ltb s.reach end then end else s.reach
            else s.reach;
      }

  unfoldable pub index_vertex : Heights → ℕ → Heights
  index_vertex h u =
      let s = foldl (scan_edge u h) (record { top = 0; reach = num new_id u }) (targets im u) in
      record { lup = set h.lup u (s.top + 1); interval = set h.interval (num new_id u) s.reach }

  -- from the last vertex of `TopoOrder` to the first
  unfoldable pub cal_index : List ℕ → Heights → Heights
  cal_index topo h = foldl index_vertex h (reverse topo)
