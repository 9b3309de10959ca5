-- ===== src/Reach/Query/Answer.antt =====
-- Matrix/reach.cpp: the answer of `process` for a pair of vertices.
use mgtag.Prelude.{
  ℕ, suc, ◌≤◌, ◌<◌, ◌≡◌, ◌≢◌, ◌⊎◌, inl, inr, refl, sym, true, ◌||◌, Bool-cases, leb, ltb, ◌==◌,
  arith,
}
use mgtag.Reach.Graph.{Image, Walk, here, step, Path+}
use mgtag.Reach.Labels.{Labels, new_of, up_of, down_of}
use mgtag.Reach.Query.{Outcome, answer}
use mgtag.Reach.Query.Laws.{IsId, IsIndex}
use mgtag.Reach.Query.Down.{Decides, says_true, says_false, query-Decides}

-- the walks of the graph, as a relation of new ids
pub record NewPath (im : Image) (lb : Labels) (a b : ℕ) : Type 0 where
  pub from : ℕ
  pub to : ℕ
  pub from_le : from ≤ im.max_id
  pub to_le : to ≤ im.max_id
  pub from_id : new_of lb from ≡ a
  pub to_id : new_of lb to ≡ b
  pub walk : Walk im from to

-- `lb` is an index of the graph: the new ids number its vertices, and along an edge `Ldown` rises and
-- `Lup` falls.
pub record IsIndexOf (im : Image) (lb : Labels) : Type 0 where
  pub ids : (x : ℕ) → x ≤ im.max_id → IsId (suc im.max_id) (new_of lb x)
  pub injective : (x y : ℕ) → x ≤ im.max_id → y ≤ im.max_id → new_of lb x ≡ new_of lb y → x ≡ y
  pub laws : IsIndex lb (suc im.max_id) (NewPath im lb)
  pub levels :
      (x y : ℕ)
      → x ≤ im.max_id
      → Path+ im x y
      → (down_of lb x < down_of lb y) × (up_of lb y < up_of lb x)

Walk-cases : (im : Image) (x : ℕ) {y : ℕ} → Walk im x y → (x ≡ y) ⊎ Path+ im x y
Walk-cases im x here = inl refl
Walk-cases im x (step {u} p e) = inr (u, p, e)

Decides-iff : {P Q : Type 0} {out : Outcome} → (P → Q) → (Q → P) → Decides P out → Decides Q out
Decides-iff f g (says_true cnt p) = says_true cnt (f p)
Decides-iff f g (says_false cnt no_p) = says_false cnt (λ q. no_p (g q))

module _ (im : Image) (lb : Labels) (ix : IsIndexOf im lb) (x y : ℕ) (hx : x ≤ im.max_id)
    (hy : y ≤ im.max_id) where
  new_path : Walk im x y → NewPath im lb (new_of lb x) (new_of lb y)
  new_path w = record {
    from = x;
    to = y;
    from_le = hx;
    to_le = hy;
    from_id = refl;
    to_id = refl;
    walk = w;
  }

  old_path : NewPath im lb (new_of lb x) (new_of lb y) → Walk im x y
  old_path p =
      rw
        (
          ix.injective x p.from hx p.from_le (sym p.from_id),
          ix.injective y p.to hy p.to_le (sym p.to_id),
        )
        p.walk

  -- The filters by level answer `false` only where no walk leads.
  filtered :
      x ≢ y
      → (leb (down_of lb y) (down_of lb x) || leb (up_of lb x) (up_of lb y)) ≡ true
      → ¬ Walk im x y
  filtered ne h w = elim (Walk-cases im x w) [
    | inl e ↦ ne e
    | inr p ↦ ground (arith, ix.levels x y hx p)
  ]

  -- Over an index of the graph, the answer to a query on two vertices is given, and is `true` exactly
  -- when a walk leads from the one to the other.
  pub answer-Decides : (cnt : ℕ) → Decides (Walk im x y) (answer lb x y cnt)
  unfolding answer
  answer-Decides cnt = elim (Bool-cases (x == y)) [
    | inl same ↦ let e : x ≡ y = ground arith in rw same (says_true cnt (rw (← e) here))
    | inr other ↦
        rw other
          (elim (Bool-cases (leb (down_of lb y) (down_of lb x) || leb (up_of lb x) (up_of lb y))) [
            | inl cut ↦ rw cut (says_false cnt (filtered (ground arith) cut))
            | inr pass ↦ rw pass (elim (Bool-cases (ltb (new_of lb y) (new_of lb x))) [
              | inl down ↦
                  rw down (says_false cnt (λ w. ground (arith, ix.laws.ascends _ _ (new_path w))))
              | inr up ↦ rw up (
                  Decides-iff old_path new_path (
                    query-Decides lb (suc im.max_id) ix.laws (new_of lb x) (new_of lb y) cnt
                      (ix.ids x hx) (ix.ids y hy) (ground arith)))
            ])
          ])
  ]
