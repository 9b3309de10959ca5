-- ===== src/Reach/Build/Reversed.antt =====
-- Matrix/reach.cpp: the order that `pre_process` leaves, read backwards as `cal_index` reads it.
use mathlib.Core.List.Memᴰ
use mathlib.Core.List.{reverse, reverse-cons}
use mgtag.Prelude.{ℕ, ◌≤◌, ◌⊎◌, inl, inr, refl, List, [], ◌∷◌, ◌++◌, Memᴰ, Memᴰ-cons, Memᴰ-concat}
use mgtag.Reach.Graph.{Image, targets}
use mgtag.Reach.Build.Positions.{Before, Before-new}
use mgtag.Reach.Build.Heights.{Follows}

pub reverse-members : (vs : List ℕ) (v : ℕ) → Memᴰ v vs → Memᴰ v (reverse vs)
reverse-members [] v m = m
reverse-members (x ∷ xs) v m = rw (reverse-cons x xs) (
    (Memᴰ-concat v x (reverse xs)).1
      (elim ((Memᴰ-cons v x xs).0 m) [ inl e ↦ inr e | inr r ↦ inl (reverse-members xs v r) ]))

members-reverse : (vs : List ℕ) (v : ℕ) → Memᴰ v (reverse vs) → Memᴰ v vs
members-reverse [] v m = m
members-reverse (x ∷ xs) v m =
    elim ((Memᴰ-concat v x (reverse xs)).0 (rw (reverse-cons x xs) at m)) [
      | inl r ↦ Memᴰ.tail (members-reverse xs v r)
      | inr e ↦ Memᴰ.head e
    ]

module _ (im : Image) where
  Follows-concat :
      (us done : List ℕ) (x : ℕ)
      → Follows im done us
      → x ≤ im.max_id
      → ¬ Memᴰ x done
      → ¬ Memᴰ x us
      → ((v : ℕ) → Memᴰ v (targets im x) → Memᴰ v done ⊎ Memᴰ v us)
      → Follows im done (us ++ x ∷ [])
  unfolding Follows
  Follows-concat [] done x f inside old new before =
      (inside, old, λ v m. elim (before v m) [ inl d ↦ d | inr n ↦ absurd (Memᴰ.not-nil n) ], tt)
  Follows-concat (u ∷ us) done x (i, o, b, rest) inside old new before = (
    i,
    o,
    b,
    Follows-concat us (u ∷ done) x rest inside
        (λ m. elim ((Memᴰ-cons x u done).0 m) [ inl e ↦ new (Memᴰ.head e) | inr d ↦ old d ])
        (λ m. new (Memᴰ.tail m))
        (λ v m. elim (before v m) [
          | inl d ↦ inl (Memᴰ.tail d)
          | inr n ↦ elim ((Memᴰ-cons v u us).0 n) [ inl e ↦ inl (Memᴰ.head e) | inr r ↦ inr r ]
        ]),
  )

  pub reverse-Follows :
      (bs vs : List ℕ)
      → Before im bs vs
      → ((u v : ℕ) → u ≤ im.max_id → Memᴰ v bs → Memᴰ v (targets im u) → Memᴰ u bs)
      → ((v : ℕ) → Memᴰ v vs → v ≤ im.max_id)
      → ((u v : ℕ) → Memᴰ u vs → Memᴰ v (targets im u) → Memᴰ v bs ⊎ Memᴰ v vs)
      → Follows im [] (reverse vs)
  unfolding Follows Before
  reverse-Follows bs [] b closed inside complete = tt
  reverse-Follows bs (x ∷ xs) (starts, fresh, rest) closed inside complete =
      let x_in = inside x (Memᴰ.head refl) in
      let closed' : (u v : ℕ)
          → u ≤ im.max_id
          → Memᴰ v (bs ++ x ∷ [])
          → Memᴰ v (targets im u)
          → Memᴰ u (bs ++ x ∷ []) =
        λ u v h m t. elim ((Memᴰ-concat v x bs).0 m) [
          | inl o ↦ (Memᴰ-concat u x bs).1 (inl (closed u v h o t))
          | inr e ↦ (Memᴰ-concat u x bs).1 (inl (starts u h (rw e at t)))
        ] in
      let complete' : (u v : ℕ)
          → Memᴰ u xs
          → Memᴰ v (targets im u)
          → Memᴰ v (bs ++ x ∷ []) ⊎ Memᴰ v xs =
        λ u v m t. elim (complete u v (Memᴰ.tail m) t) [
          | inl o ↦ inl ((Memᴰ-concat v x bs).1 (inl o))
          | inr n ↦ elim ((Memᴰ-cons v x xs).0 n) [
            | inl e ↦ inl ((Memᴰ-concat v x bs).1 (inr e))
            | inr r ↦ inr r
          ]
        ] in
      let after =
        reverse-Follows (bs ++ x ∷ []) xs rest closed' (λ v m. inside v (Memᴰ.tail m)) complete' in
      rw (reverse-cons x xs) (
        Follows-concat (reverse xs) [] x after x_in (λ m. Memᴰ.not-nil m)
          (λ m.
            Before-new im (bs ++ x ∷ []) xs x rest (members-reverse xs x m)
              ((Memᴰ-concat x x bs).1 (inr refl)))
          (λ v t. elim (complete x v (Memᴰ.head refl) t) [
            | inl o ↦ absurd (fresh (closed x v x_in o t))
            | inr n ↦ elim ((Memᴰ-cons v x xs).0 n) [
              | inl e ↦ absurd (fresh (starts x x_in (rw e at t)))
              | inr r ↦ inr (reverse-members xs v r)
            ]
          ]))
