-- ===== src/Join/Runs.antt =====
-- The theorems on SortMergeJoin at concrete buffers.
use mgtag.Prelude.{
  ascends_test, ascends_test-Ascends, ℕ, ◌<◌, ◌≡◌, ◌≢◌, refl, true, false, [], ◌∷◌, none, some,
  arith,
}
use mgtag.Compact.{kept}
use mgtag.Buffer.{Buffer, contents}
use mgtag.Buffer.Filter.{modify_by_flag, has_flag, modify_by_flag_lem}
use mgtag.Join.{key_at, side, merge1, merge2}
use mgtag.Join.Sides.{has, has_found}
use mgtag.Join.Rounds.{IsSide}
use mgtag.Join.Merge.{partners, merge1_lem, merge2_lem}
use mgtag.Join.Stale.{single, merge2_stale}

has-none : (key : ℕ → ℕ) (m x : ℕ) → has key m x ≡ false → (a : ℕ) → a < m → key a ≢ x
has-none key m x h a l e = ground (arith, has_found key m x a l e)

abbrev pairs : Buffer
pairs = record {
  id_count = 2;
  cells = 1 ∷ 10 ∷ 3 ∷ 30 ∷ 3 ∷ 31 ∷ 5 ∷ 50 ∷ [];
  p = some 0;
  pos = 8;
  used_size = 8;
  total_size = 8;
  size_per_page = 1024;
  sort_key = 0;
  sorted = true;
  first_time = false;
}

abbrev keys : Buffer
keys = record {
  id_count = 1;
  cells = 3 ∷ 4 ∷ 9 ∷ [];
  p = some 0;
  pos = 2;
  used_size = 2;
  total_size = 3;
  size_per_page = 1024;
  sort_key = 0;
  sorted = true;
  first_time = false;
}

pairs-IsSide : IsSide (side pairs 0) pairs.cells
unfolding ascends_test
pairs-IsSide = record {
  pages = 2048;
  even = refl;
  holds = omega arith;
  room = omega arith;
  ascends = ascends_test-Ascends (key_at (side pairs 0) pairs.cells) 4 refl;
}

keys-IsSide : IsSide (side keys 0) keys.cells
unfolding ascends_test
keys-IsSide = record {
  pages = 4096;
  even = refl;
  holds = omega arith;
  room = omega arith;
  ascends = ascends_test-Ascends (key_at (side keys 0) keys.cells) 2 refl;
}

pairs_fresh :
    (a : ℕ) → a < 4 → key_at (side pairs 0) pairs.cells a ≢ key_at (side keys 0) keys.cells 2
unfolding has
pairs_fresh = has-none (key_at (side pairs 0) pairs.cells) 4 9 refl

partners-pairs : partners pairs 0 keys 0 ≡ 3 ∷ 30 ∷ 3 ∷ 31 ∷ []
unfolding kept has mgtag.Compact.read
partners-pairs = refl

merge1-runs : merge1 pairs keys 0 0 ≢ none
unfolding merge1 mgtag.Join.rounds mgtag.Join.round1 mgtag.Join.skip_less mgtag.Join.skip_equal
    mgtag.Join.take_equal mgtag.Compact.emit mgtag.Compact.start mgtag.Compact.read
    mgtag.Compact.write_back mgtag.Compact.copy_to
merge1-runs e = ground arith

merge1_lem_example :
    (b1' : Buffer) × (b2' : Buffer) × (merge1 pairs keys 0 0 ≡ some (b1', b2'))
    × (contents b1' ≡ partners pairs 0 keys 0)
    × (contents b2' ≡ partners keys 0 pairs 0)
merge1_lem_example = merge1_lem pairs keys 0 0 pairs-IsSide keys-IsSide pairs_fresh

merge2_lem_example :
    (b1' : Buffer) × (merge2 pairs keys 0 0 ≡ some b1') × (contents b1' ≡ partners pairs 0 keys 0)
merge2_lem_example = merge2_lem pairs keys 0 0 pairs-IsSide keys-IsSide pairs_fresh

merge2_stale_example :
    (b : Buffer) × (merge2 (single 7 []) (single 4 (7 ∷ [])) 0 0 ≡ some b)
    × (contents b ≡ 7 ∷ [])
    × (partners (single 7 []) 0 (single 4 (7 ∷ [])) 0 ≡ [])
merge2_stale_example = merge2_stale 7 4 (omega arith)

modify_by_flag_lem_example :
    (b' : Buffer) × (modify_by_flag pairs (1 ∷ 0 ∷ 1 ∷ 0 ∷ []) 1 ≡ some b')
    × (contents b' ≡ kept pairs.cells 2 (has_flag (1 ∷ 0 ∷ 1 ∷ 0 ∷ []) 1) 4)
modify_by_flag_lem_example =
    modify_by_flag_lem pairs (1 ∷ 0 ∷ 1 ∷ 0 ∷ []) 1 512 refl (omega arith) (omega arith)
