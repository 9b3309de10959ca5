-- ===== src/Find/Others.antt =====
-- TripleBit/FindEntityID.cpp: what the searches of one ID pick from the two columns.
use mgtag.Prelude.{
  ℕ, ◌+◌, ◌-◌, ◌≤◌, ◌<◌, ◌≡◌, ◌⊎◌, inl, inr, refl, sym, ap, ◌∙◌, subst, Bool, List, [], ◌∷◌, ◌++◌,
  All, ltb, leb, ◌==◌, ◌&&◌, ◌||◌, Bool-cases, if◌then◌else◌, arith,
}
use mgtag.Buffer.Combine.{merge_ids}
use mgtag.Find.Scans.{collect, take_while}
use mgtag.Find.Merges.{NotBelow, Ordered, low_pairs, high_pairs, merge_ids_first, merge_ids_nil}
use mgtag.Find.Positions.{key_x, key_sum}

-- the other IDs of a key, within bounds
unfoldable pub others : ℕ → ℕ → ℕ → List (ℕ × ℕ) → List ℕ
others id min_id max_id [] = []
others id min_id max_id ((k, o) ∷ ks) =
    let rest = others id min_id max_id ks in
    if (k == id) && (leb min_id o && leb o max_id) then o ∷ rest else rest

module _ (key other : ℕ × ℕ → ℕ) where
  abbrev pub Ascend2 : List (ℕ × ℕ) → Type 0
  Ascend2 [] = Unit {0}
  Ascend2 (p ∷ ps) =
      All (λ q. (key p < key q) ⊎ ((key p ≡ key q) × (other p ≤ other q))) ps × Ascend2 ps

  module _ (id min_id max_id : ℕ) where
    -- where the loops go on, what they insert, and what they are to find
    abbrev pub goes_on : ℕ × ℕ → Bool
    goes_on p = (key p == id) && (ltb (other p) min_id || leb (other p) max_id)

    abbrev pub out_other : ℕ × ℕ → List ℕ
    out_other p = if ltb (other p) min_id then [] else other p ∷ []

    abbrev pub pick : ℕ × ℕ → List ℕ
    pick p =
        if (key p == id) && (leb min_id (other p) && leb (other p) max_id) then other p ∷ [] else []

    pick_below :
        (before after : List (ℕ × ℕ))
        → All (λ p. key p < id) before
        → collect pick (before ++ after) ≡ collect pick after
    unfolding collect
    pick_below [] after a = refl
    pick_below (p ∷ before) after a = ground (arith, pick_below before after a.1)

    pick_none :
        (p : ℕ × ℕ) (ps : List (ℕ × ℕ))
        → (id < key p) ⊎ ((id ≡ key p) × (max_id < other p))
        → All (λ q. (key p < key q) ⊎ ((key p ≡ key q) × (other p ≤ other q))) ps
        → collect pick ps ≡ []
    unfolding collect
    pick_none p [] h a = refl
    pick_none p (q ∷ ps) h a = ground (arith, pick_none p ps h a.1)

    pick_from :
        (ps : List (ℕ × ℕ))
        → All (λ p. id ≤ key p) ps
        → Ascend2 ps
        → collect out_other (take_while goes_on ps) ≡ collect pick ps
    unfolding collect take_while
    pick_from [] a s = refl
    pick_from (p ∷ ps) a s = elim (Bool-cases (goes_on p)) [
      | inl e ↦ ground (arith, pick_from ps a.1 s.1)
      | inr e ↦ ground (arith, pick_none p ps)
    ]

    Ascend2-right : (ps qs : List (ℕ × ℕ)) → Ascend2 (ps ++ qs) → Ascend2 qs
    Ascend2-right [] qs a = a
    Ascend2-right (p ∷ ps) qs a = Ascend2-right ps qs a.1

    -- From the first pair of the ID on, a loop picks the other IDs of the ID within the bounds.
    pub pick_lem :
        (before after : List (ℕ × ℕ))
        → All (λ p. key p < id) before
        → All (λ p. id ≤ key p) after
        → Ascend2 (before ++ after)
        → collect out_other (take_while goes_on after) ≡ collect pick (before ++ after)
    pick_lem before after a b s =
        pick_from after b (Ascend2-right before after s) ∙ sym (pick_below before after a)

    pub pick_absent : (ps : List (ℕ × ℕ)) → All (λ p. key p < id) ps → collect pick ps ≡ []
    unfolding collect
    pick_absent [] a = refl
    pick_absent (p ∷ ps) a = ground (arith, pick_absent ps a.1)

low_pairs_after :
    (k o : ℕ) (ks : List (ℕ × ℕ))
    → All (NotBelow (k, o)) ks
    → All (λ q. (k < key_x q) ⊎ ((k ≡ key_x q) × (o ≤ key_sum q))) (low_pairs ks)
unfolding low_pairs
low_pairs_after k o [] a = tt
low_pairs_after k o ((l, q) ∷ ks) a = ground (arith, low_pairs_after k o ks a.1)

high_pairs_after :
    (k o : ℕ) (ks : List (ℕ × ℕ))
    → All (NotBelow (k, o)) ks
    → All (λ q. (k < key_sum q) ⊎ ((k ≡ key_sum q) × (o ≤ key_x q))) (high_pairs ks)
unfolding high_pairs
high_pairs_after k o [] a = tt
high_pairs_after k o ((l, q) ∷ ks) a = ground (arith, high_pairs_after k o ks a.1)

pub low_pairs-Ascend2 : (ks : List (ℕ × ℕ)) → Ordered ks → Ascend2 key_x key_sum (low_pairs ks)
unfolding low_pairs
low_pairs-Ascend2 [] s = tt
low_pairs-Ascend2 ((k, o) ∷ ks) s = elim (Bool-cases (ltb o k)) [
  | inl e ↦ rw e (low_pairs-Ascend2 ks s.1)
  | inr e ↦
      let whole : k + (o - k) ≡ o = ground arith in
      rw e (
        subst (λ n. All (λ q. (k < key_x q) ⊎ ((k ≡ key_x q) × (n ≤ key_sum q))) (low_pairs ks))
            (sym whole) (low_pairs_after k o ks s.0),
        low_pairs-Ascend2 ks s.1,
      )
]

pub high_pairs-Ascend2 : (ks : List (ℕ × ℕ)) → Ordered ks → Ascend2 key_sum key_x (high_pairs ks)
unfolding high_pairs
high_pairs-Ascend2 [] s = tt
high_pairs-Ascend2 ((k, o) ∷ ks) s = elim (Bool-cases (ltb o k)) [
  | inl e ↦
      let whole : o + (k - o) ≡ k = ground arith in
      rw e (
        subst (λ n. All (λ q. (n < key_sum q) ⊎ ((n ≡ key_sum q) × (o ≤ key_x q))) (high_pairs ks))
            (sym whole) (high_pairs_after k o ks s.0),
        high_pairs-Ascend2 ks s.1,
      )
  | inr e ↦ rw e (high_pairs-Ascend2 ks s.1)
]

module _ (id min_id max_id : ℕ) where
  abbrev pub pick_low : ℕ × ℕ → List ℕ
  pick_low = pick key_x key_sum id min_id max_id

  abbrev pub pick_high : ℕ × ℕ → List ℕ
  pick_high = pick key_sum key_x id min_id max_id

  low_picks_from : (ks : List (ℕ × ℕ)) → All (λ y. id ≤ y) (collect pick_low (low_pairs ks))
  unfolding collect low_pairs
  low_picks_from [] = tt
  low_picks_from ((k, o) ∷ ks) = ground (arith, low_picks_from ks)

  high_picks_none :
      (o : ℕ) (ks : List (ℕ × ℕ))
      → id ≤ o
      → All (NotBelow (id, o)) ks
      → collect pick_high (high_pairs ks) ≡ []
  unfolding collect high_pairs
  high_picks_none o [] h a = refl
  high_picks_none o ((l, q) ∷ ks) h a = ground (arith, high_picks_none o ks h a.1)

  All-from : (x y : ℕ) (zs : List ℕ) → x ≤ y → All (λ z. y ≤ z) zs → All (λ z. x ≤ z) zs
  All-from x y [] h a = tt
  All-from x y (z ∷ zs) h a = (omega arith, All-from x y zs h a.1)

  merge_ids_nil_first : (ys : List ℕ) → merge_ids [] ys ≡ ys
  unfolding merge_ids
  merge_ids_nil_first ys = refl

  -- What the two columns give merges into the other IDs of the ID, in their order.
  pub merge_ids-others :
      (ks : List (ℕ × ℕ))
      → Ordered ks
      → merge_ids (collect pick_high (high_pairs ks)) (collect pick_low (low_pairs ks))
        ≡ others id min_id max_id ks
  unfolding collect low_pairs high_pairs others
  merge_ids-others [] s = merge_ids_nil
  merge_ids-others ((k, o) ∷ ks) s =
      let rest = merge_ids-others ks s.1 in
      let highs = collect pick_high (high_pairs ks) in
      let lows = collect pick_low (low_pairs ks) in
      elim (Bool-cases (ltb o k)) [
        | inl bigger ↦
            let whole : o + (k - o) ≡ k = ground arith in
            elim (Bool-cases ((k == id) && (leb min_id o && leb o max_id))) [
              | inl e ↦
                  rw (bigger, whole, e)
                    (merge_ids_first o highs lows
                        (All-from o id lows (ground arith) (low_picks_from ks))
                      ∙ ap (λ t. o ∷ t) rest)
              | inr e ↦ rw (bigger, whole, e) rest
            ]
        | inr other ↦
            let whole : k + (o - k) ≡ o = ground arith in
            elim (Bool-cases ((k == id) && (leb min_id o && leb o max_id))) [
              | inl e ↦
                  let same : k ≡ id = ground arith in
                  let none_high =
                    high_picks_none o ks (ground arith)
                      (subst (λ n. All (NotBelow (n, o)) ks) same s.0) in
                  rw (other, whole, e)
                    (ap (λ h. merge_ids h (o ∷ lows)) none_high
                      ∙ merge_ids_nil_first (o ∷ lows)
                      ∙ ap (λ t. o ∷ t)
                          (sym (merge_ids_nil_first lows)
                            ∙ ap (λ h. merge_ids h lows) (sym none_high)
                            ∙ rest))
              | inr e ↦ rw (other, whole, e) rest
            ]
      ]
