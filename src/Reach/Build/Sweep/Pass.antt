-- ===== src/Reach/Build/Sweep/Pass.antt =====
-- Matrix/reach.cpp: what holds in a pass over the vertices of one layer.
use mgtag.Prelude.{ℕ, suc, ◌+◌, ◌≤◌, ◌<◌, ◌≡◌, ◌≢◌, ◌⊎◌, ◌↔◌, true, false, List, Memᴰ, length}
use mgtag.Reach.Build.Degrees.{num, flag}
use mgtag.Reach.Build.Layers.{Layering}
use mgtag.Reach.Build.Positions.{NoDup}
use mgtag.Reach.Build.Sums.{edges_from}
use mgtag.Reach.Build.Sweep.Balance.{Balanced}
use mgtag.Reach.Build.Sweep.Touch.{Joined}

-- The pass goes over the vertices of `ws`, all below `n`, from those of `roots`; `row` gives the edges between
-- them, and `old` is `root_located` at its start. The rows of `seen` are read, and those of `bad` are the crossed
-- ones of them; `extra` and `extra_next` count the edges read of the row of one vertex more, the other of `done`.
pub record Pass (n : ℕ) (row : ℕ → List ℕ) (ws roots old : List ℕ) (seen done bad : List ℕ)
    (extra extra_next : ℕ → ℕ) (l : Layering) : Type 0 where
  pub size_in : length l.indeg ≡ n
  pub size_located : length l.located ≡ n
  pub size_crossed : length l.crossed ≡ n
  pub size_next : length l.next ≡ n
  pub balance : Balanced row n seen extra l.indeg
  pub inside : (w : ℕ) → Memᴰ w l.order → Memᴰ w ws
  pub ready : (v : ℕ) → Memᴰ v ws → (num l.indeg v ≡ 0) ↔ Memᴰ v l.order
  pub distinct : NoDup l.order
  pub starts : (v w : ℕ) → Memᴰ v l.order → w < n → Memᴰ v (row w) → Memᴰ w done
  pub done_queued : (w : ℕ) → Memᴰ w done → Memᴰ w l.order
  pub roots_kept :
      (r : ℕ)
      → Memᴰ r roots
      → Memᴰ r l.order × (flag l.crossed r ≡ false) × (num l.located r ≡ suc r)
  pub crossed_zero : (v : ℕ) → flag l.crossed v ≡ true → num l.located v ≡ 0
  pub tree :
      (v : ℕ)
      → Memᴰ v ws
      → flag l.crossed v ≡ false
      → (num l.located v ≡ 0) ⊎ ((r : ℕ) × Memᴰ r roots × (num l.located v ≡ suc r))
  pub named : (w : ℕ) → Memᴰ w l.order → flag l.crossed w ≡ false → num l.located w ≢ 0
  pub next_count : (v : ℕ) → v < n → num l.next v ≡ edges_from row v bad n 0 + extra_next v
  pub bad_iff : (w : ℕ) → Memᴰ w bad ↔ (Memᴰ w seen × (flag l.crossed w ≡ true))
  pub joined : (w v : ℕ) → Memᴰ w seen → Memᴰ v (row w) → Joined l w v
  pub cross_in : (v : ℕ) → Memᴰ v l.cross_id → Memᴰ v ws × (flag l.crossed v ≡ true)
  pub cross_distinct : NoDup l.cross_id
  pub cross_known : (v : ℕ) → flag l.crossed v ≡ true → Memᴰ v l.cross_id ⊎ (1 ≤ num l.next v)
  pub outside : (v : ℕ) → ¬ Memᴰ v ws → (num l.located v ≡ num old v) × (flag l.crossed v ≡ false)
