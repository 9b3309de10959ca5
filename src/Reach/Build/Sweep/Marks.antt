-- ===== src/Reach/Build/Sweep/Marks.antt =====
-- Matrix/reach.cpp: what the marks of an edge keep.
use mathlib.Core.List.Memᴰ
use mgtag.Prelude.{
  ℕ, ◌+◌, ◌^◌, ◌≤◌, ◌<◌, ◌≡◌, ◌≢◌, ◌⊎◌, inl, inr, refl, sym, ◌∙◌, true, false, List, [], ◌∷◌, Memᴰ,
  Memᴰ-concat, ◌==◌, Bool-cases, arith,
}
use mgtag.Reach.Build.Degrees.{num, flag}
use mgtag.Reach.Build.Layers.{Layering}
use mgtag.Reach.Build.Positions.{NoDup, NoDup-append}
use mgtag.Reach.Build.Unseen.{clash}
use mgtag.Reach.Build.Sweep.Touch.{Joined, Touch}

-- A crossed vertex is on the list for the next layer, or counted by an edge from a crossed one.
abbrev pub Known : Layering → Type 0
Known m = (v : ℕ) → flag m.crossed v ≡ true → Memᴰ v m.cross_id ⊎ (1 ≤ num m.next v)

module _ (u x : ℕ) (l l' : Layering) (t : Touch u x l l') where
  -- Between two vertices whose marks are final, or to the vertex that is marked, an edge stays joined.
  pub Joined-kept :
      (w v : ℕ)
      → x ≢ w
      → (flag l.crossed w ≡ false → num l.located w ≢ 0)
      → Joined l w v
      → Joined l' w v
  Joined-kept w v final some_tree j = elim (Bool-cases (x == v)) [
    | inl same ↦ let e : v ≡ x = ground arith in rw e (Joined_at (rw e at j))
    | inr differ ↦
        let k : x ≢ v = ground arith in
        let a = t.crossed_other w final in
        let b = t.crossed_other v k in
        (
          λ h. b ∙ j.0 (sym a ∙ h),
          λ h. elim (j.1 (sym a ∙ h)) [
            | inl c ↦ inl (b ∙ c)
            | inr c ↦ inr (t.located_other v k ∙ c ∙ sym (t.located_other w final))
          ],
        )
  ]
    where
      Joined_at : Joined l w x → Joined l' w x
      Joined_at j =
          let a = t.crossed_other w final in
          (
            λ h. t.stays_crossed (j.0 (sym a ∙ h)),
            λ h. elim (Bool-cases (flag l'.crossed x)) [
              | inl c ↦ inl c
              | inr c ↦ elim (j.1 (sym a ∙ h)) [
                | inl d ↦ inl (t.stays_crossed d)
                | inr d ↦
                    let named = some_tree (sym a ∙ h) in
                    inr (t.same_tree c (λ z. named (sym d ∙ z)) ∙ d ∙ sym (t.located_other w final))
              ]
            ],
          )

  pub Joined-new : x ≢ u → Joined l' u x
  Joined-new final =
      let a = t.crossed_other u final in
      (
        λ h. t.from_crossed (sym a ∙ h),
        λ h. elim (Bool-cases (flag l'.crossed x)) [
          | inl c ↦ inl c
          | inr c ↦ inr ((t.in_tree c).1 ∙ sym (t.located_other u final))
        ],
      )

  pub stays : (v : ℕ) → flag l.crossed v ≡ true → flag l'.crossed v ≡ true
  stays v c = elim (Bool-cases (x == v)) [
    | inl same ↦ let e : v ≡ x = ground arith in rw e (t.stays_crossed (rw e at c))
    | inr differ ↦ t.crossed_other v (ground arith) ∙ c
  ]

  cross_kept : (v : ℕ) → Memᴰ v l.cross_id → Memᴰ v l'.cross_id
  cross_kept v m = elim t.cross [
    | inl (e, f) ↦ rw e m
    | inr (e, f, g) ↦ rw e ((Memᴰ-concat v x l.cross_id).1 (inl m))
  ]

  pub Known-kept : num l.next x + 1 < 2 ^ 32 → Known l → Known l'
  Known-kept fits known v h = elim (Bool-cases (x == v)) [
    | inl same ↦ let e : v ≡ x = ground arith in rw e (at_x (rw e at h))
    | inr differ ↦
        let k : x ≢ v = ground arith in
        elim (known v (sym (t.crossed_other v k) ∙ h)) [
          | inl m ↦ inl (cross_kept v m)
          | inr c ↦ inr (omega (arith, t.next_other v k))
        ]
  ]
    where
      next_grows : num l.next x ≤ num l'.next x
      next_grows = ground (arith, t.next_own, fits)

      next_crossed : flag l.crossed u ≡ true → 1 ≤ num l'.next x
      next_crossed h = ground (arith, t.next_own, fits)

      was_crossed : flag l.crossed x ≡ true → Memᴰ x l'.cross_id ⊎ (1 ≤ num l'.next x)
      was_crossed c = elim (known x c) [
        | inl m ↦ inl (cross_kept x m)
        | inr k ↦ inr (omega (arith, next_grows))
      ]

      at_x : flag l'.crossed x ≡ true → Memᴰ x l'.cross_id ⊎ (1 ≤ num l'.next x)
      at_x h = elim t.cross [
        | inl (e, f) ↦ elim (f h) [ inl c ↦ inr (next_crossed c) | inr c ↦ was_crossed c ]
        | inr (e, f, g) ↦ inl (rw e ((Memᴰ-concat x x l.cross_id).1 (inr refl)))
      ]

  module _ (ws : List ℕ) (target : Memᴰ x ws)
      (inside : (v : ℕ) → Memᴰ v l.cross_id → Memᴰ v ws × (flag l.crossed v ≡ true)) where
    pub cross_in : (v : ℕ) → Memᴰ v l'.cross_id → Memᴰ v ws × (flag l'.crossed v ≡ true)
    cross_in v m = elim t.cross [
      | inl (e, f) ↦ old_cross v (rw e at m)
      | inr (e, f, g) ↦ elim ((Memᴰ-concat v x l.cross_id).0 (rw e at m)) [
        | inl o ↦ old_cross v o
        | inr q ↦ rw q (target, g)
      ]
    ]
      where
        old_cross : (v : ℕ) → Memᴰ v l.cross_id → Memᴰ v ws × (flag l'.crossed v ≡ true)
        old_cross v m = let (i, c) = inside v m in (i, stays v c)

    pub cross_distinct : NoDup l.cross_id → NoDup l'.cross_id
    cross_distinct d = elim t.cross [
      | inl (e, f) ↦ rw e d
      | inr (e, f, g) ↦ rw e (
          NoDup-append l.cross_id (x ∷ []) d ((λ m. Memᴰ.not-nil m), tt)
            (λ w m k.
              let q : w ≡ x = Memᴰ.eq_of_singleton k in clash (sym (inside x (rw q at m)).1 ∙ f)))
    ]
