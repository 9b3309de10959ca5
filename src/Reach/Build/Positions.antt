-- ===== src/Reach/Build/Positions.antt =====
-- Matrix/reach.cpp: an order in which the edges lead forward, as `pre_process` builds it.
use mathlib.Core.List.Memᴰ
use mgtag.Prelude.{
  ℕ, ◌≤◌, inl, inr, refl, List, [], ◌∷◌, ◌++◌, append_assoc, append-nil, Memᴰ, Memᴰ-cons,
  Memᴰ-append, Memᴰ-concat,
}
use mgtag.Reach.Graph.{Image, targets}

abbrev pub NoDup : List ℕ → Type 0
NoDup [] = Unit {0}
NoDup (x ∷ xs) = (¬ Memᴰ x xs) × NoDup xs

pub NoDup-append :
    (xs ys : List ℕ) → NoDup xs → NoDup ys → ((w : ℕ) → Memᴰ w xs → ¬ Memᴰ w ys) → NoDup (xs ++ ys)
NoDup-append [] ys a b apart = b
NoDup-append (x ∷ xs) ys a b apart = (
  λ m. elim ((Memᴰ-append x xs ys).0 m) [
    | inl old ↦ a.0 old
    | inr new ↦ apart x (Memᴰ.head refl) new
  ],
  NoDup-append xs ys a.1 b (λ w m. apart w (Memᴰ.tail m)),
)

module _ (im : Image) where
  -- Each vertex of the list is new, and the starts of the edges into it stand before it; `bs` stands first.
  unfoldable pub Before : List ℕ → List ℕ → Type 0
  Before bs [] = Unit {0}
  Before bs (v ∷ vs) =
      ((w : ℕ) → w ≤ im.max_id → Memᴰ v (targets im w) → Memᴰ w bs)
      × (¬ Memᴰ v bs)
      × Before (bs ++ v ∷ []) vs

  pub Before-concat :
      (bs vs : List ℕ) (x : ℕ)
      → Before bs vs
      → ((w : ℕ) → w ≤ im.max_id → Memᴰ x (targets im w) → Memᴰ w (bs ++ vs))
      → ¬ Memᴰ x (bs ++ vs)
      → Before bs (vs ++ x ∷ [])
  unfolding Before
  Before-concat bs [] x b starts fresh =
      (λ w h t. rw (append-nil bs) at (starts w h t), λ m. fresh (rw (append-nil bs) m), tt)
  Before-concat bs (v ∷ vs) x (s, f, rest) starts fresh = (
    s,
    f,
    Before-concat (bs ++ v ∷ []) vs x rest
        (λ w h t. rw (append_assoc bs (v ∷ []) vs) (starts w h t))
        (λ m. fresh (rw (append_assoc bs (v ∷ []) vs) at m)),
  )

  pub Before-new : (bs vs : List ℕ) (m : ℕ) → Before bs vs → Memᴰ m vs → ¬ Memᴰ m bs
  unfolding Before
  Before-new bs [] m b i = absurd (Memᴰ.not-nil i)
  Before-new bs (v ∷ vs) m (s, f, rest) i = λ old. elim ((Memᴰ-cons m v vs).0 i) [
    | inl e ↦ f (rw (← e) old)
    | inr r ↦ Before-new (bs ++ v ∷ []) vs m rest r ((Memᴰ-append m bs (v ∷ [])).1 (inl old))
  ]

  -- vertices into which no edge leads
  pub Before-sources :
      (bs vs : List ℕ)
      → ((v w : ℕ) → Memᴰ v vs → w ≤ im.max_id → ¬ Memᴰ v (targets im w))
      → NoDup vs
      → ((v : ℕ) → Memᴰ v vs → ¬ Memᴰ v bs)
      → Before bs vs
  unfolding Before
  Before-sources bs [] none_in d apart = tt
  Before-sources bs (v ∷ vs) none_in d apart = (
    λ w h t. absurd (none_in v w (Memᴰ.head refl) h t),
    apart v (Memᴰ.head refl),
    Before-sources (bs ++ v ∷ []) vs (λ u w m. none_in u w (Memᴰ.tail m)) d.1
        (λ u m old. elim ((Memᴰ-concat u v bs).0 old) [
          | inl o ↦ apart u (Memᴰ.tail m) o
          | inr e ↦ d.0 (rw (← e) m)
        ]),
  )
