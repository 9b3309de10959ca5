-- ===== src/Join/Stale.antt =====
-- TripleBit/SortMergeJoin.cpp: `Merge2` compares the key it seeks with the cell behind the second buffer's
-- records, since it reads the cell before it tests the bound and once more after it.
use mgtag.Prelude.{ℕ, suc, ◌<◌, ◌≡◌, refl, true, false, List, [], ◌∷◌, some, length, arith}
use mgtag.Compact.{copy_to, start, read, write_back, emit, kept}
use mgtag.Buffer.{Buffer, contents}
use mgtag.Join.{skip_less, skip_equal, take_equal, round2, rounds, merge2}
use mgtag.Join.Sides.{has}
use mgtag.Join.Merge.{partners}

-- a buffer of one ID, with what cells lie behind it
abbrev pub single : ℕ → List ℕ → Buffer
single x rest = record {
  id_count = 1;
  cells = x ∷ rest;
  p = some 0;
  pos = 1;
  used_size = 1;
  total_size = suc (length rest);
  size_per_page = 1024;
  sort_key = 0;
  sorted = true;
  first_time = false;
}

-- If the cell behind the second buffer's only ID holds the first buffer's ID, `Merge2` keeps that ID, though
-- the second buffer holds only a smaller one.
pub merge2_stale :
    (x y : ℕ)
    → y < x
    → (b : Buffer) × (merge2 (single x []) (single y (x ∷ [])) 0 0 ≡ some b)
      × (contents b ≡ x ∷ [])
      × (partners (single x []) 0 (single y (x ∷ [])) 0 ≡ [])
unfolding merge2 rounds round2 skip_less skip_equal take_equal emit start read write_back copy_to
    kept has
merge2_stale x y h = (single x [], ground arith, refl, ground arith)
