-- ===== src/Reach/Build/Levels.antt =====
-- Matrix/reach.cpp: the rounds of `pre_process` end.
use mathlib.Core.List.{foldl}
use mgtag.Prelude.{
  ℕ, zero, suc, ◌+◌, ◌^◌, ◌≤◌, ◌<◌, ◌≡◌, ◌↔◌, ◌⊎◌, inl, inr, refl, ap, ◌∙◌, List, [], ◌∷◌, some,
  Memᴰ, Memᴰ-append, length, drop, drop-append, arith,
}
use mgtag.Reach.Graph.{Image, IsWhole, targets}
use mgtag.Reach.Build.Layers.{Layering, visit_row, rounds}
use mgtag.Reach.Build.Counts.{edges_into}
use mgtag.Reach.Build.Sums.{elem_iff}
use mgtag.Reach.Build.Kahn.{Kahn}
use mgtag.Reach.Build.Rows.{Grows-old}
use mgtag.Reach.Build.Front.{Front, front_lem}
use mgtag.Reach.Build.Unseen.{unseen, unseen_lt, elem-false}

module _ (im : Image) (whole : IsWhole im)
    (small : (v : ℕ) → v ≤ im.max_id → edges_into (targets im) v (suc im.max_id) 0 < 2 ^ 32) where
  -- the state before a round
  pub record Between (layer : ℕ) (seen front : List ℕ) (l : Layering) : Type 0 where
    pub kahn : Kahn im layer seen (λ v. 0) l
    pub next : Front im whole layer small seen front l
    pub covers : (w : ℕ) → Memᴰ w l.order → Memᴰ w seen ⊎ Memᴰ w front

  raise :
      (layer : ℕ) (seen : List ℕ) (l : Layering)
      → Kahn im layer seen (λ v. 0) l
      → Kahn im (layer + 1) seen (λ v. 0) l
  raise layer seen l k = record {
    size_in = k.size_in;
    size_down = k.size_down;
    balance = k.balance;
    inside = k.inside;
    ready = k.ready;
    level = k.level;
    before = k.before;
    below = λ w m. omega (arith, k.below w m);
  }

  pub round_lem :
      (layer : ℕ) (seen front : List ℕ) (l : Layering)
      → Between layer seen front l
      → (seen' : List ℕ) × Between
          (layer + 1)
          seen'
          (drop (length l.order) (foldl (visit_row im (some layer)) l front).order)
          (foldl (visit_row im (some layer)) l front)
        × ((w : ℕ) → Memᴰ w seen' ↔ (Memᴰ w seen ⊎ Memᴰ w front))
  round_lem layer seen front l b =
      let l' = foldl (visit_row im (some layer)) l front in
      let (seen', k, g, same) = front_lem im whole layer small front seen l b.kahn b.next in
      let new : drop (length l.order) l'.order ≡ g.new =
        ap (drop (length l.order)) g.order ∙ drop-append l.order g.new in
      let old : (w : ℕ) → Memᴰ w seen' → Memᴰ w l.order = λ w m. elim ((same w).0 m) [
        | inl s ↦ (b.next.seen_queued w s).0
        | inr f ↦ (b.next.members w f).2
      ] in
      (
        seen',
        rw new record {
          kahn = raise layer seen' l' k;
          next = record {
            members = λ w m.
                let queued : Memᴰ w l'.order =
                  rw (g.order) ((Memᴰ-append w l.order g.new).1 (inr m)) in
                (
                  k.inside w queued,
                  elem-false w seen' (λ s. g.fresh w m (old w s)),
                  queued,
                  omega (arith, k.below w queued),
                );
            distinct = g.distinct;
            seen_queued = λ w s.
                let queued = Grows-old l l' g w (old w s) in
                (queued, omega (arith, k.below w queued));
          };
          covers = λ w m. elim ((Memᴰ-append w l.order g.new).0 (rw (g.order) at m)) [
            | inl o ↦ inl ((same w).1 (b.covers w o))
            | inr n ↦ inr n
          ];
        },
        same,
      )

  rounds_go :
      (fuel layer u : ℕ) (us : List ℕ) (l : Layering)
      → rounds im (suc fuel) (some layer) (u ∷ us) l
        ≡ rounds im fuel
            (some (layer + 1))
            (drop (length l.order) (foldl (visit_row im (some layer)) l (u ∷ us)).order)
            (foldl (visit_row im (some layer)) l (u ∷ us))
  unfolding rounds
  rounds_go fuel layer u us l = refl

  -- The rounds end: with enough fuel no vertex is left to be read.
  pub rounds_lem :
      (fuel layer : ℕ) (seen front : List ℕ) (l : Layering)
      → Between layer seen front l
      → unseen seen (suc im.max_id) 0 ≤ fuel
      → (layer' : ℕ) × (seen' : List ℕ) × (l' : Layering) × (rounds im fuel (some layer) front l
          ≡ some l')
        × Between layer' seen' [] l'
  unfolding rounds
  rounds_lem fuel layer seen [] l b enough = (layer, seen, l, refl, b)
  rounds_lem zero layer seen (u ∷ us) l b enough =
      let (vertex, fresh, queued, lower) = b.next.members u (Memᴰ.head refl) in
      let fewer =
        unseen_lt seen (u ∷ seen) u (suc im.max_id) 0
          (λ w e. (elem_iff w (u ∷ seen)).1 (Memᴰ.tail ((elem_iff w seen).0 e))) (omega arith)
          (omega arith) fresh ((elem_iff u (u ∷ seen)).1 (Memᴰ.head refl)) in
      absurd (omega arith)
  rounds_lem (suc fuel) layer seen (u ∷ us) l b enough =
      let l1 = foldl (visit_row im (some layer)) l (u ∷ us) in
      let (seen1, b1, same) = round_lem layer seen (u ∷ us) l b in
      let (vertex, fresh, queued, lower) = b.next.members u (Memᴰ.head refl) in
      let fewer =
        unseen_lt seen seen1 u (suc im.max_id) 0
          (λ w e. (elem_iff w seen1).1 ((same w).1 (inl ((elem_iff w seen).0 e)))) (omega arith)
          (omega arith) fresh ((elem_iff u seen1).1 ((same u).1 (inr (Memᴰ.head refl)))) in
      rounds_lem fuel (layer + 1) seen1 (drop (length l.order) l1.order) l1 b1 (omega arith)
