-- ===== src/Reach/Build/Number.antt =====
-- Matrix/reach.cpp: `cal_cross_degree`, which counts the edges inside the trees, and `decode`, which
-- numbers the vertices depth first and sets the exception edges aside.
pub mod Trees
pub mod Opened
pub mod Row
pub mod Tally
pub mod Tallies
pub mod Cross
pub mod Numbered
pub mod Tree
pub mod Forest
pub mod Decode
use mgtag.Prelude.{
  ℕ, zero, suc, ◌+◌, ◌-◌, Bool, true, false, not, List, [], ◌∷◌, ◌++◌, Option, none, some, get_or,
  set, replicate, ◌==◌, if◌then◌else◌,
}
use mathlib.Core.List.{foldl}
use mgtag.Reach.Graph.{Image, targets}
use mgtag.Reach.Build.Degrees.{num, flag, inc32}

-- `curInDegree`, `visited_arr` and `que`, front first
pub record Counting : Type 0 where
  pub indeg : List ℕ
  pub seen : List Bool
  pub que : List ℕ

module _ (im : Image) (located : List ℕ) where
  abbrev pub same_tree : ℕ → ℕ → Bool
  same_tree u v = num located v == num located u

  unfoldable pub count_edge : ℕ → Counting → ℕ → Counting
  count_edge u c v =
      if same_tree u v
      then (let c' = record c { indeg = set c.indeg v (inc32 (num c.indeg v)) } in
          if not (flag c.seen v)
          then record c' { seen = set c.seen v true; que = c.que ++ v ∷ [] }
          else c')
      else c

  unfoldable pub count_tree : ℕ → Counting → Option Counting
  count_tree zero c = elim c.que [ [] ↦ some c | _ ∷ _ ↦ none ]
  count_tree (suc fuel) c = elim c.que [
    | [] ↦ some c
    | u ∷ rest ↦ count_tree fuel (foldl (count_edge u) (record c { que = rest }) (targets im u))
  ]

  unfoldable pub count_trees : List ℕ → Counting → Option Counting
  count_trees [] c = some c
  count_trees (r ∷ rs) c = elim (count_tree (suc (suc im.max_id)) (record c { que = r ∷ c.que })) [
    | none ↦ none
    | some c' ↦ count_trees rs c'
  ]

  unfoldable pub cal_cross_degree : List ℕ → List ℕ → Option (List ℕ)
  cal_cross_degree roots indeg =
      let start : Counting = record {
        indeg = indeg;
        seen = replicate (suc im.max_id) false;
        que = [];
      } in
      elim (count_trees roots start) [ none ↦ none | some c ↦ some c.indeg ]

-- What `decode` writes; `stack` is `que`, front first.
pub record Numbering : Type 0 where
  pub indeg : List ℕ
  pub count : ℕ
  pub new_id : List ℕ
  pub rl : List ℕ
  pub rlt : List ℕ
  pub excp_o : List (List ℕ)
  pub stack : List ℕ

module _ (im : Image) (located : List ℕ) where
  unfoldable pub number_edge : ℕ → Numbering → ℕ → Numbering
  number_edge u s v =
      if same_tree im located u v
      then (let left = num s.indeg v - 1 in
          let s' = record s { indeg = set s.indeg v left } in
          if not (left == 0)
          then record s' { excp_o = set s.excp_o u (get_or s.excp_o u [] ++ v ∷ []) }
          else record s' { stack = v ∷ s.stack })
      else s

  abbrev pub assign : ℕ → ℕ → Numbering → Numbering
  assign layer u s = record s {
    count = s.count + 1;
    new_id = set s.new_id u (s.count + 1);
    rl = set s.rl (s.count + 1) layer;
    rlt = set s.rlt (s.count + 1) (num located u);
  }

  unfoldable pub number_tree : ℕ → ℕ → Numbering → Option Numbering
  number_tree zero layer s = elim s.stack [ [] ↦ some s | _ ∷ _ ↦ none ]
  number_tree (suc fuel) layer s = elim s.stack [
    | [] ↦ some s
    | u ∷ rest ↦
        number_tree fuel layer
          (foldl (number_edge u) (assign layer u (record s { stack = rest })) (targets im u))
  ]

  unfoldable pub number_trees : List ℕ → List ℕ → Numbering → Option Numbering
  number_trees root_layer [] s = some s
  number_trees root_layer (r ∷ rs) s =
      elim (number_tree (suc (suc im.max_id)) (num root_layer r)
        (record s { stack = r ∷ s.stack })) [
          | none ↦ none
          | some s' ↦ number_trees root_layer rs s'
        ]

  unfoldable pub decode : List ℕ → List ℕ → List ℕ → Option Numbering
  decode roots root_layer indeg =
      let ids = replicate (suc (suc im.max_id)) 0 in
      number_trees root_layer roots (record {
        indeg = indeg;
        count = 0;
        new_id = replicate (suc im.max_id) 0;
        rl = ids;
        rlt = ids;
        excp_o = replicate (suc im.max_id) [];
        stack = [];
      })
