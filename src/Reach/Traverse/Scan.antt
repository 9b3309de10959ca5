-- ===== src/Reach/Traverse/Scan.antt =====
-- Matrix/reach.cpp: what the scan of one row in `tranverse` does to the marks and the queue.
use mgtag.Prelude.{
  ℕ, zero, suc, ◌+◌, ◌≤◌, ◌<◌, ◌≡◌, ◌≢◌, ◌↔◌, ◌⊎◌, inl, inr, refl, ◌∙◌, ⊎_elim, Bool, true, false,
  List, [], ◌∷◌, Memᴰ, Memᴰ-cons, Memᴰ-concat, All, length, length-append, length-set, get_or, set,
  get_or-set_self, get_or-set_ne, Bool-cases, ◌==◌, arith, if◌then◌else◌,
}
use mgtag.Reach.Graph.{Image, targets, Walk, step}
use mgtag.Reach.Traverse.{Search, visited, push, scan}

-- the marks that are still to be set
abbrev pub unmarked : List Bool → ℕ
unmarked [] = 0
unmarked (b ∷ bs) = (if b then 0 else 1) + unmarked bs

pub unmarked-set :
    (bs : List Bool) (v : ℕ)
    → v < length bs
    → get_or bs v false ≡ false
    → suc (unmarked (set bs v true)) ≡ unmarked bs
unmarked-set [] v h e = absurd (omega arith)
unmarked-set (b ∷ bs) zero h e = rw e (omega arith)
unmarked-set (b ∷ bs) (suc v) h e = omega (arith, unmarked-set bs v (omega arith) e)

mark_in_range : (bs : List Bool) (v : ℕ) → get_or bs v false ≡ true → v < length bs
mark_in_range [] v h = cc
mark_in_range (b ∷ bs) zero h = omega arith
mark_in_range (b ∷ bs) (suc v) h = omega (arith, mark_in_range bs v h)

pub visited-push :
    (s : Search) (v w : ℕ)
    → v < length s.visit
    → (visited (push s v) w ≡ true) ↔ ((visited s w ≡ true) ⊎ (w ≡ v))
visited-push s v w h = elim (Bool-cases (v == w)) [
  | inl same ↦ ground (arith, get_or-set_self s.visit v true false h)
  | inr other ↦ ground (arith, get_or-set_ne s.visit v w true false (ground arith))
]

-- the offers of the loop body
abbrev pub offer : Search → ℕ → Search
offer s v = if visited s v then s else push s v

-- what a round leaves to do: it falls by one with each vertex taken from the queue
abbrev pub work : Search → ℕ
work s = unmarked s.visit + length s.que

module _ (im : Image) (x y : ℕ) where
  -- The search stands at the row of `u`, with the targets `vs` still to be looked at.
  pub record Inv (u : ℕ) (vs : List ℕ) (s : Search) : Type 0 where
    pub size : length s.visit ≡ suc im.max_id
    pub current : visited s u ≡ true
    pub row : (b : ℕ) → Memᴰ b vs → Memᴰ b (targets im u)
    pub source : visited s x ≡ true
    pub queued : (a : ℕ) → Memᴰ a s.que → visited s a ≡ true
    pub sound : (a : ℕ) → visited s a ≡ true → Walk im x a
    pub closed :
        (a b : ℕ)
        → visited s a ≡ true
        → Memᴰ b (targets im a)
        → Memᴰ a s.que ⊎ (visited s b ≡ true) × (b ≢ y) ⊎ (a ≡ u) × Memᴰ b vs

  pub Inv-le :
      (u : ℕ) (vs : List ℕ) {s : Search} → Inv u vs s → (a : ℕ) → visited s a ≡ true → a ≤ im.max_id
  Inv-le u vs {s} h a m = omega (arith, mark_in_range s.visit a m, h.size)

  Inv-push :
      (u v : ℕ) (vs : List ℕ) (s : Search)
      → v ≤ im.max_id
      → v ≢ y
      → visited s v ≡ false
      → Inv u (v ∷ vs) s
      → Inv u vs (push s v)
  Inv-push u v vs s le ne new h =
      let marks = λ (w : ℕ). visited-push s v w (omega (arith, h.size)) in
      record {
        size = length-set s.visit v true ∙ h.size;
        current = (marks u).1 (inl h.current);
        row = λ b m. h.row b (Memᴰ.tail m);
        source = (marks x).1 (inl h.source);
        queued = λ a m. ground (arith, marks a, Memᴰ-concat a v s.que, h.queued a);
        sound = λ a m.
            ⊎_elim (h.sound a) (λ e. rw e (step (h.sound u h.current) (h.row v (Memᴰ.head refl))))
              ((marks a).0 m);
        closed = λ a b m edge.
            ground (arith, marks a, marks b, Memᴰ-concat a v s.que, Memᴰ-cons b v vs, h.closed a b);
      }

  Inv-pass :
      (u v : ℕ) (vs : List ℕ) (s : Search)
      → v ≢ y
      → visited s v ≡ true
      → Inv u (v ∷ vs) s
      → Inv u vs s
  Inv-pass u v vs s ne old h = record {
    size = h.size;
    current = h.current;
    row = λ b m. h.row b (Memᴰ.tail m);
    source = h.source;
    queued = h.queued;
    sound = h.sound;
    closed = λ a b m edge. ground (arith, Memᴰ-cons b v vs, h.closed a b);
  }

  Inv-offer :
      (u v : ℕ) (vs : List ℕ) (s : Search)
      → v ≤ im.max_id
      → v ≢ y
      → Inv u (v ∷ vs) s
      → Inv u vs (offer s v) × (work (offer s v) ≡ work s)
  Inv-offer u v vs s le ne h = elim (Bool-cases (visited s v)) [
    | inl old ↦ rw old (Inv-pass u v vs s ne old h, refl)
    | inr new ↦ rw new (
      Inv-push u v vs s le ne new h,
      omega
          (arith, unmarked-set s.visit v (omega (arith, h.size)) new, length-append s.que (v ∷ [])),
    )
  ]

  -- A scan that does not return has looked at the whole row, and did not meet `y`.
  pub scan-Inv :
      (u : ℕ) (vs : List ℕ) (s : Search)
      → All (λ v. v ≤ im.max_id) vs
      → Inv u vs s
      → (scan y vs s).0 ≡ false
      → Inv u [] (scan y vs s).1 × (work (scan y vs s).1 ≡ work s)
  unfolding scan
  scan-Inv u [] s le h e = (h, refl)
  scan-Inv u (v ∷ vs) s le h e = elim (Bool-cases (v == y)) [
    | inl hit ↦ ground arith
    | inr miss ↦
        let (kept, same) = Inv-offer u v vs s le.0 (ground arith) h in
        let (inv, w) = scan-Inv u vs (offer s v) le.1 kept (rw miss at e) in rw miss (inv, w ∙ same)
  ]

  -- A scan that returns has met `y`.
  pub scan_hit : (vs : List ℕ) (s : Search) → (scan y vs s).0 ≡ true → Memᴰ y vs
  unfolding scan
  scan_hit [] s e = cc
  scan_hit (v ∷ vs) s e = elim (Bool-cases (v == y)) [
    | inl hit ↦ Memᴰ.head (ground arith)
    | inr miss ↦ Memᴰ.tail (scan_hit vs (offer s v) (rw miss at e))
  ]
