-- ===== src/Reach/Build/Sweep/Touch.antt =====
-- Matrix/reach.cpp: what the chain of conditions on an edge does to the marks of the vertex it leads to.
use mgtag.Prelude.{
  ℕ, ◌<◌, ◌≡◌, ◌≢◌, ◌⊎◌, inl, inr, refl, sym, ◌∙◌, true, false, [], ◌∷◌, ◌++◌, length, length-set,
  get_or-set_self, get_or-set_ne, set, ◌==◌, Bool-cases, arith, if◌then◌else◌,
}
use mgtag.Reach.Build.Degrees.{num, flag, inc32}
use mgtag.Reach.Build.Unseen.{clash}
use mgtag.Reach.Build.Layers.{Layering, mark_edge}

-- Along an edge from `w` to `v`: a crossed vertex leads to crossed ones only, any other one to crossed ones and
-- those of its tree.
abbrev pub Joined : Layering → ℕ → ℕ → Type 0
Joined l w v =
    (flag l.crossed w ≡ true → flag l.crossed v ≡ true)
    × (flag l.crossed w ≡ false → (flag l.crossed v ≡ true) ⊎ (num l.located v ≡ num l.located w))

-- the marks of all vertices but `x` stay, and those of `x` after the edge from `u`
pub record Touch (u x : ℕ) (l m : Layering) : Type 0 where
  pub size_located : length m.located ≡ length l.located
  pub size_crossed : length m.crossed ≡ length l.crossed
  pub size_next : length m.next ≡ length l.next
  pub located_other : (v : ℕ) → x ≢ v → num m.located v ≡ num l.located v
  pub crossed_other : (v : ℕ) → x ≢ v → flag m.crossed v ≡ flag l.crossed v
  pub next_other : (v : ℕ) → x ≢ v → num m.next v ≡ num l.next v
  pub from_crossed : flag l.crossed u ≡ true → flag m.crossed x ≡ true
  pub stays_crossed : flag l.crossed x ≡ true → flag m.crossed x ≡ true
  pub no_tree :
      (flag l.crossed x ≡ true → num l.located x ≡ 0)
      → flag m.crossed x ≡ true
      → num m.located x ≡ 0
  pub in_tree :
      flag m.crossed x ≡ false → (flag l.crossed u ≡ false) × (num m.located x ≡ num l.located u)
  pub same_tree : flag m.crossed x ≡ false → num l.located x ≢ 0 → num m.located x ≡ num l.located x
  pub next_own : num m.next x ≡ (if flag l.crossed u then inc32 (num l.next x) else num l.next x)
  pub cross :
      (m.cross_id ≡ l.cross_id)
        × (flag m.crossed x ≡ true → (flag l.crossed u ≡ true) ⊎ (flag l.crossed x ≡ true))
      ⊎ (m.cross_id ≡ l.cross_id ++ x ∷ []) × (flag l.crossed x ≡ false) × (flag m.crossed x ≡ true)

module _ (u x : ℕ) (l : Layering) (in_loc : x < length l.located) (in_cr : x < length l.crossed)
    (in_next : x < length l.next) (hot_zero : flag l.crossed x ≡ true → num l.located x ≡ 0) where
  now_crossed : flag (set l.crossed x true) x ≡ true
  now_crossed = get_or-set_self l.crossed x true false in_cr

  hot : flag l.crossed u ≡ true → Touch u x l (mark_edge u x l)
  unfolding mark_edge
  hot h =
      let now = now_crossed in
      rw h record {
        size_located = length-set l.located x 0;
        size_crossed = length-set l.crossed x true;
        size_next = length-set l.next x _;
        located_other = λ v n. get_or-set_ne l.located x v 0 0 n;
        crossed_other = λ v n. get_or-set_ne l.crossed x v true false n;
        next_other = λ v n. get_or-set_ne l.next x v (inc32 (num l.next x)) 0 n;
        from_crossed = λ e. now;
        stays_crossed = λ e. now;
        no_tree = λ z e. get_or-set_self l.located x 0 0 in_loc;
        in_tree = λ e. absurd (clash (sym now ∙ e));
        same_tree = λ e. absurd (clash (sym now ∙ e));
        next_own = rw h (get_or-set_self l.next x (inc32 (num l.next x)) 0 in_next);
        cross = inl (refl, λ e. inl h);
      }

  -- the target is in another tree
  clashing :
      flag l.crossed u ≡ false
      → num l.located x ≢ 0
      → num l.located x ≢ num l.located u
      → flag l.crossed x ≡ false
      → Touch u x l (mark_edge u x l)
  unfolding mark_edge
  clashing h z n c =
      let e1 : (num l.located x == 0) ≡ false = ground arith in
      let e2 : (num l.located x == num l.located u) ≡ false = ground arith in
      let now = now_crossed in
      rw (h, e1, e2, c)
        record {
          size_located = length-set l.located x 0;
          size_crossed = length-set l.crossed x true;
          size_next = refl;
          located_other = λ v n. get_or-set_ne l.located x v 0 0 n;
          crossed_other = λ v n. get_or-set_ne l.crossed x v true false n;
          next_other = λ v n. refl;
          from_crossed = λ e. now;
          stays_crossed = λ e. now;
          no_tree = λ y e. get_or-set_self l.located x 0 0 in_loc;
          in_tree = λ e. absurd (clash (sym now ∙ e));
          same_tree = λ e. absurd (clash (sym now ∙ e));
          next_own = rw h refl;
          cross = inr (refl, c, now);
        }

  -- the target gets the tree of the start
  joining :
      flag l.crossed u ≡ false
      → num l.located x ≡ 0
      → flag l.crossed x ≡ false
      → Touch u x l (mark_edge u x l)
  unfolding mark_edge
  joining h z c =
      let e1 : (num l.located x == 0) ≡ true = ground arith in
      rw (h, e1, c)
        record {
          size_located = length-set l.located x _;
          size_crossed = refl;
          size_next = refl;
          located_other = λ v n. get_or-set_ne l.located x v (num l.located u) 0 n;
          crossed_other = λ v n. refl;
          next_other = λ v n. refl;
          from_crossed = λ e. absurd (clash (sym e ∙ h));
          stays_crossed = λ e. e;
          no_tree = λ y e. absurd (clash (sym e ∙ c));
          in_tree = λ e. (h, get_or-set_self l.located x (num l.located u) 0 in_loc);
          same_tree = λ e y. absurd (y z);
          next_own = rw h refl;
          cross = inl (refl, λ e. inr e);
        }

  same_marks :
      flag l.crossed u ≡ false
      → (num l.located x ≡ num l.located u) ⊎ (flag l.crossed x ≡ true)
      → Touch u x l l
  same_marks h c = record {
    size_located = refl;
    size_crossed = refl;
    size_next = refl;
    located_other = λ v n. refl;
    crossed_other = λ v n. refl;
    next_other = λ v n. refl;
    from_crossed = λ e. absurd (clash (sym e ∙ h));
    stays_crossed = λ e. e;
    no_tree = λ y e. y e;
    in_tree = λ e. elim c [ inl q ↦ (h, q) | inr q ↦ absurd (clash (sym q ∙ e)) ];
    same_tree = λ e y. refl;
    next_own = rw h refl;
    cross = inl (refl, λ e. inr e);
  }

  -- nothing changes
  settled :
      flag l.crossed u ≡ false
      → (num l.located x ≢ 0) × (num l.located x ≡ num l.located u) ⊎ (flag l.crossed x ≡ true)
      → mark_edge u x l ≡ l
  unfolding mark_edge
  settled h c = ground (arith, c, h)

  pub mark_edge-Touch : Touch u x l (mark_edge u x l)
  mark_edge-Touch = elim (Bool-cases (flag l.crossed u)) [
    | inl h ↦ hot h
    | inr h ↦ elim (Bool-cases (flag l.crossed x)) [
      | inl c ↦ rw (settled h (inr c)) (same_marks h (inr c))
      | inr c ↦ elim (Bool-cases (num l.located x == 0)) [
        | inl z ↦ joining h (ground arith) c
        | inr z ↦
            let apart : num l.located x ≢ 0 = ground arith in
            elim (Bool-cases (num l.located x == num l.located u)) [
              | inl same ↦
                  let q : num l.located x ≡ num l.located u = ground arith in
                  rw (settled h (inl (apart, q))) (same_marks h (inl q))
              | inr differ ↦ clashing h apart (ground arith) c
            ]
      ]
    ]
  ]
