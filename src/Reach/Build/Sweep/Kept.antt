-- ===== src/Reach/Build/Sweep/Kept.antt =====
-- Matrix/reach.cpp: `pre_process_cross` leaves `Ldown` as it is.
use mathlib.Core.List.{foldl}
use mgtag.Prelude.{
  ℕ, zero, suc, ◌≡◌, inl, inr, refl, sym, ap, ◌∙◌, List, [], ◌∷◌, none, some, length, drop, ◌==◌,
  Bool-cases, arith,
}
use mgtag.Reach.Graph.{Image, targets}
use mgtag.Reach.Build.Degrees.{num}
use mgtag.Reach.Build.Edge.{mark_keeps}
use mgtag.Reach.Build.Layers.{
  Layering, Roots, mark_edge, count_down, arrive, visit_edge, visit_row, rounds, add_cross_root,
}

arrive-ldown : (v : ℕ) (l : Layering) → (arrive none v l).ldown ≡ l.ldown
unfolding arrive
arrive-ldown v l = ground arith

edge-ldown : (u : ℕ) (l : Layering) (v : ℕ) → (visit_edge none u l v).ldown ≡ l.ldown
unfolding visit_edge
edge-ldown u l v =
    let (a, b, c) = mark_keeps u v (count_down v l) in
    arrive-ldown v (mark_edge u v (count_down v l)) ∙ c

row-ldown : (u : ℕ) (l : Layering) (vs : List ℕ) → (foldl (visit_edge none u) l vs).ldown ≡ l.ldown
row-ldown u l [] = refl
row-ldown u l (v ∷ vs) = row-ldown u (visit_edge none u l v) vs ∙ edge-ldown u l v

rows-ldown :
    (im : Image) (l : Layering) (us : List ℕ) → (foldl (visit_row im none) l us).ldown ≡ l.ldown
unfolding visit_row
rows-ldown im l [] = refl
rows-ldown im l (u ∷ us) = rows-ldown im (visit_row im none l u) us ∙ row-ldown u l (targets im u)

pub some_inj {ℓ} : {A : Type ℓ} (a b : A) → some a ≡ some b → a ≡ b
some_inj a b e = cc

pub rounds-ldown :
    (im : Image) (fuel : ℕ) (us : List ℕ) (l l' : Layering)
    → rounds im fuel none us l ≡ some l'
    → l'.ldown ≡ l.ldown
unfolding rounds
rounds-ldown im fuel [] l l' e = ap (λ t. t.ldown) (sym (some_inj l l' e))
rounds-ldown im zero (u ∷ us) l l' e = cc
rounds-ldown im (suc fuel) (u ∷ us) l l' e =
    let l1 = foldl (visit_row im none) l (u ∷ us) in
    rounds-ldown im fuel (drop (length l.order) l1.order) l1 l' e ∙ rows-ldown im l (u ∷ us)

root-ldown : (p : Layering × Roots) (v : ℕ) → (add_cross_root p v).0.ldown ≡ p.0.ldown
root-ldown (l, r) v = elim (Bool-cases (num l.indeg v == 0)) [
  | inl e ↦ rw e refl
  | inr e ↦ rw e refl
]

pub roots-ldown :
    (vs : List ℕ) (p : Layering × Roots) → (foldl add_cross_root p vs).0.ldown ≡ p.0.ldown
roots-ldown [] p = refl
roots-ldown (v ∷ vs) p = roots-ldown vs (add_cross_root p v) ∙ root-ldown p v
