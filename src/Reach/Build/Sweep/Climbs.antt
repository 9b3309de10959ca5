-- ===== src/Reach/Build/Sweep/Climbs.antt =====
-- Matrix/reach.cpp: the roots in the order of their layers, and the edges between the layers.
use mathlib.Core.List.Memᴰ
use mgtag.Prelude.{ℕ, suc, ◌≤◌, ◌<◌, ◌≡◌, refl, List, [], ◌∷◌, ◌++◌, Memᴰ, All, All-append, arith}
use mgtag.Reach.Build.Degrees.{num}
use mgtag.Reach.Build.Number.Forest.{Climbs}

-- the roots of a layer more, above all before
pub Climbs-more :
    (before after rs news : List ℕ) (top : ℕ)
    → ((q : ℕ) → Memᴰ q rs → (num after q ≡ num before q) × (num before q ≤ top))
    → ((q : ℕ) → Memᴰ q news → num after q ≡ suc top)
    → Climbs before rs
    → Climbs after (rs ++ news)
Climbs-more before after [] [] top old new c = tt
Climbs-more before after [] (q ∷ news) top old new c = (
  level news (λ p m. new p (Memᴰ.tail m)),
  Climbs-more before after [] news top (λ p m. absurd (Memᴰ.not-nil m)) (λ p m. new p (Memᴰ.tail m))
      tt,
)
  where
    level :
        (ps : List ℕ)
        → ((p : ℕ) → Memᴰ p ps → num after p ≡ suc top)
        → All (λ p. num after q ≤ num after p) ps
    level [] h = tt
    level (p ∷ ps) h =
        let a = new q (Memᴰ.head refl) in
        let b = h p (Memᴰ.head refl) in (omega arith, level ps (λ t m. h t (Memᴰ.tail m)))
Climbs-more before after (r ∷ rs) news top old new c = (
  All-append (λ q. num after r ≤ num after q) rs news (kept rs (λ q m. old q (Memᴰ.tail m)) c.0)
      (above news new),
  Climbs-more before after rs news top (λ q m. old q (Memᴰ.tail m)) new c.1,
)
  where
    kept :
        (qs : List ℕ)
        → ((q : ℕ) → Memᴰ q qs → (num after q ≡ num before q) × (num before q ≤ top))
        → All (λ q. num before r ≤ num before q) qs
        → All (λ q. num after r ≤ num after q) qs
    kept [] h a = tt
    kept (q ∷ qs) h a =
        let (e, l) = h q (Memᴰ.head refl) in
        let (e', l') = old r (Memᴰ.head refl) in
        (omega (arith, a.0), kept qs (λ t m. h t (Memᴰ.tail m)) a.1)

    above :
        (ps : List ℕ)
        → ((p : ℕ) → Memᴰ p ps → num after p ≡ suc top)
        → All (λ p. num after r ≤ num after p) ps
    above [] h = tt
    above (p ∷ ps) h =
        let (e', l') = old r (Memᴰ.head refl) in
        let b = h p (Memᴰ.head refl) in (omega arith, above ps (λ t m. h t (Memᴰ.tail m)))

-- Along an edge from `w` to `v` the tree stays the same, or the layer rises.
pub data Rises (located root_layer roots : List ℕ) (w v : ℕ) : Type 0 where
  same_tree : num located v ≡ num located w → Rises located root_layer roots w v
  higher :
      (p q : ℕ)
      → Memᴰ p roots
      → Memᴰ q roots
      → num located w ≡ suc p
      → num located v ≡ suc q
      → num root_layer p < num root_layer q
      → Rises located root_layer roots w v
