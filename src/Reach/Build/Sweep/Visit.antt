-- ===== src/Reach/Build/Sweep/Visit.antt =====
-- Matrix/reach.cpp: what an edge does to the marks of the vertex it leads to, and to the queue.
use mgtag.Prelude.{
  ℕ, ◌<◌, ◌≡◌, ◌≢◌, ◌⊎◌, inl, inr, refl, sym, ap, ◌∙◌, true, [], ◌∷◌, ◌++◌, Option, none, some,
  length, ◌==◌, Bool-cases, arith,
}
use mgtag.Reach.Build.Degrees.{num, flag}
use mgtag.Reach.Build.Edge.{counted, mark_keeps}
use mgtag.Reach.Build.Layers.{Layering, mark_edge, count_down, arrive, visit_edge}
use mgtag.Reach.Build.Sweep.Touch.{Touch, mark_edge-Touch}

-- what an edge does to the queue, whatever the pass
record Arrived (x : ℕ) (m l' : Layering) : Type 0 where
  indeg : l'.indeg ≡ m.indeg
  located : l'.located ≡ m.located
  crossed : l'.crossed ≡ m.crossed
  next : l'.next ≡ m.next
  cross_id : l'.cross_id ≡ m.cross_id
  outcome :
      ((num m.indeg x ≡ 0) × (l'.order ≡ m.order ++ x ∷ []))
      ⊎ ((num m.indeg x ≢ 0) × (l'.order ≡ m.order))

arrive-Arrived : (layer : Option ℕ) (x : ℕ) (m : Layering) → Arrived x m (arrive layer x m)
unfolding arrive
arrive-Arrived none x m = elim (Bool-cases (num m.indeg x == 0)) [
  | inl e ↦ rw e record {
    indeg = refl;
    located = refl;
    crossed = refl;
    next = refl;
    cross_id = refl;
    outcome = inl (ground arith, refl);
  }
  | inr e ↦ rw e record {
    indeg = refl;
    located = refl;
    crossed = refl;
    next = refl;
    cross_id = refl;
    outcome = inr (ground arith, refl);
  }
]
arrive-Arrived (some k) x m = elim (Bool-cases (num m.indeg x == 0)) [
  | inl e ↦ rw e record {
    indeg = refl;
    located = refl;
    crossed = refl;
    next = refl;
    cross_id = refl;
    outcome = inl (ground arith, refl);
  }
  | inr e ↦ rw e record {
    indeg = refl;
    located = refl;
    crossed = refl;
    next = refl;
    cross_id = refl;
    outcome = inr (ground arith, refl);
  }
]

-- what the edge from `u` to `x` does
pub record Visit (u x : ℕ) (l l' : Layering) : Type 0 where
  pub touch : Touch u x l l'
  pub indeg : l'.indeg ≡ counted l x
  pub outcome :
      ((num (counted l x) x ≡ 0) × (l'.order ≡ l.order ++ x ∷ []))
      ⊎ ((num (counted l x) x ≢ 0) × (l'.order ≡ l.order))

Touch-arrive : (u x : ℕ) (l m l' : Layering) → Arrived x m l' → Touch u x l m → Touch u x l l'
Touch-arrive u x l m l' a t = record {
  size_located = rw (a.located) (t.size_located);
  size_crossed = rw (a.crossed) (t.size_crossed);
  size_next = rw (a.next) (t.size_next);
  located_other = rw (a.located) (t.located_other);
  crossed_other = rw (a.crossed) (t.crossed_other);
  next_other = rw (a.next) (t.next_other);
  from_crossed = rw (a.crossed) (t.from_crossed);
  stays_crossed = rw (a.crossed) (t.stays_crossed);
  no_tree = rw (a.crossed, a.located) (t.no_tree);
  in_tree = rw (a.crossed, a.located) (t.in_tree);
  same_tree = rw (a.crossed, a.located) (t.same_tree);
  next_own = rw (a.next) (t.next_own);
  cross = rw (a.crossed, a.cross_id) (t.cross);
}

Touch-count : (u x : ℕ) (l m : Layering) → Touch u x (count_down x l) m → Touch u x l m
Touch-count u x l m t = record {
  size_located = t.size_located;
  size_crossed = t.size_crossed;
  size_next = t.size_next;
  located_other = t.located_other;
  crossed_other = t.crossed_other;
  next_other = t.next_other;
  from_crossed = t.from_crossed;
  stays_crossed = t.stays_crossed;
  no_tree = t.no_tree;
  in_tree = t.in_tree;
  same_tree = t.same_tree;
  next_own = t.next_own;
  cross = t.cross;
}

pub visit_edge-Visit :
    (layer : Option ℕ) (u x : ℕ) (l : Layering)
    → x < length l.located
    → x < length l.crossed
    → x < length l.next
    → (flag l.crossed x ≡ true → num l.located x ≡ 0)
    → Visit u x l (visit_edge layer u l x)
unfolding visit_edge
visit_edge-Visit layer u x l in_loc in_cr in_next zero =
    let d = count_down x l in
    let m = mark_edge u x d in
    let a = arrive-Arrived layer x m in
    let (e1, e2, e3) = mark_keeps u x d in
    let t = Touch-count u x l m (mark_edge-Touch u x d in_loc in_cr in_next zero) in
    record {
      touch = Touch-arrive u x l m (arrive layer x m) a t;
      indeg = a.indeg ∙ e1;
      outcome = elim a.outcome [
        | inl (z, o) ↦ inl (sym (ap (λ t. num t x) e1) ∙ z, o ∙ ap (λ t. t ++ x ∷ []) e2)
        | inr (z, o) ↦ inr (λ q. z (ap (λ t. num t x) e1 ∙ q), o ∙ e2)
      ];
    }
