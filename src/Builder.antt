-- ===== src/Builder.antt =====
-- TripleBit/TripleBitBuilder.cpp: `resolveTriples`, which fills the bitmaps from the sorted facts.
-- The facts are a list in the order that the sorter leaves. The calls of `addStatis` are a log.
pub mod Managers
pub mod Passes
pub mod Answers
pub mod Bounds
pub mod Stored
pub mod Tagged
pub mod Counts
pub mod Statis
mod Runs
use mgtag.Prelude.{
  ℕ, ◌+◌, ◌%◌, ◌^◌, Bool, true, false, List, [], ◌∷◌, ◌++◌, map, Option, none, some, ◌==◌, ◌&&◌,
  if◌then◌else◌,
}
use mgtag.Chunk.{generate_xy}
use mgtag.Bitmap.{Bitmap, insert_triple}

-- a fact as a pass reads it: the ID by which the pass is sorted, the predicate, and the other ID
abbrev pub Fact : Type 0
Fact = ℕ × ℕ × ℕ

pub record Pass : Type 0 where
  pub bitmap : Bitmap
  pub last : Fact
  pub count0 : ℕ
  pub count1 : ℕ
  -- of the IDs, and of the pairs of an ID and a predicate
  pub statis : List (ℕ × ℕ)
  pub pair_statis : List Fact

abbrev pub same_fact : Fact → Fact → Bool
same_fact (a, b, c) (d, e, f) = (a == d) && ((b == e) && (c == f))

abbrev inc : ℕ → ℕ
inc n = (n + 1) % 2 ^ 32

module _ (page : ℕ → List ℕ) (f : ℕ) where
  -- `generateXY` and `insertTriple`
  unfoldable pub insert_fact : Bitmap → Fact → Bitmap
  insert_fact b (k, p, o) = let (x, y, v) = generate_xy k o in insert_triple page b p x y v f

  -- the counts of a new fact
  unfoldable pub count_fact : Pass → Fact → Pass
  count_fact s (k, p, o) =
      let (last_k, last_p, last_o) = s.last in
      if (k == last_k) && (p == last_p)
      then record s { count0 = inc s.count0; count1 = inc s.count1 }
      else if k == last_k
      then record s {
        pair_statis = s.pair_statis ++ (last_k, last_p, s.count1) ∷ [];
        count0 = inc s.count0;
        count1 = 1;
      }
      else record s {
        statis = s.statis ++ (last_k, s.count0) ∷ [];
        pair_statis = s.pair_statis ++ (last_k, last_p, s.count1) ∷ [];
        count0 = 1;
        count1 = 1;
      }

  -- a round of the loop; a fact like the last one is passed over
  unfoldable pub next_fact : Pass → Fact → Pass
  next_fact s t =
      if same_fact s.last t
      then s
      else record (count_fact s t) { bitmap = insert_fact s.bitmap t; last = t }

  unfoldable pub rounds : Pass → List Fact → Pass
  rounds s [] = s
  rounds s (t ∷ ts) = rounds (next_fact s t) ts

  -- A pass over the sorted facts. The first one is read before any test, so that there has to be one.
  unfoldable pub run_pass : Bitmap → List Fact → Option Pass
  run_pass b [] = none
  run_pass b (t ∷ ts) = some (
      rounds
        (record {
          bitmap = insert_fact b t;
          last = t;
          count0 = 1;
          count1 = 1;
          statis = [];
          pair_statis = [];
        })
        ts)

-- the facts as the second pass reads them
unfoldable pub swap_fact : Fact → Fact
swap_fact (s, p, o) = (o, p, s)

-- Both passes, over the facts sorted by subject and over the facts sorted by object.
unfoldable pub resolve_triples :
    (ℕ → List ℕ) → Bitmap → List Fact → List Fact → Option (Pass × Pass)
resolve_triples page b by_subject by_object = elim (run_pass page 0 b by_subject) [
  | none ↦ none
  | some first ↦ elim (run_pass page 1 first.bitmap (map swap_fact by_object)) [
    | none ↦ none
    | some second ↦ some (first, second)
  ]
]
