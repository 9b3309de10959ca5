-- ===== src/Reach/Traverse/Decides.antt =====
-- Matrix/reach.cpp: `tranverse` ends, and decides whether a path of one edge or more leads to `y`.
use mathlib.Core.List.Memᴰ
use mgtag.Prelude.{
  ℕ, zero, suc, ◌≤◌, ◌<◌, ◌≡◌, inl, inr, refl, ap, ◌∙◌, ◌↔◌, Bool, true, false, List, [], ◌∷◌, some,
  Memᴰ, All, length, length-set, length-replicate, get_or-replicate, replicate, Bool-cases,
  List-cases, arith, if◌then◌else◌,
}
use mgtag.Reach.Graph.{Image, targets, targets_of_row, IsWhole, Walk, here, step, Path+}
use mgtag.Reach.Traverse.{Search, Verdict, found, visited, push, scan, expand, loop, tranverse}
use mgtag.Reach.Traverse.Scan.{
  Inv, Inv-le, scan-Inv, scan_hit, unmarked, unmarked-set, visited-push, work,
}

-- The verdict is an answer, and it is `true` exactly when `P` holds.
pub data Answers (P : Type 0) : Verdict → Type 0 where
  says_true : P → Answers P (found true)
  says_false : ¬ P → Answers P (found false)

module _ (im : Image) (whole : IsWhole im) (x y : ℕ) where
  -- With an empty queue the marks are closed under edges, and no edge of theirs leads to `y`.
  complete :
      (u : ℕ) {s : Search}
      → Inv im x y u [] s
      → s.que ≡ []
      → {v : ℕ} → Walk im x v
      → visited s v ≡ true
  complete u h e here = h.source
  complete u {s} h e (step {u = a} {v} p edge) = elim (h.closed a v (complete u h e p) edge) [
    | inl waiting ↦ absurd (Memᴰ.not-nil (rw e at waiting))
    | inr (inl (m, _)) ↦ m
    | inr (inr (_, m)) ↦ absurd (Memᴰ.not-nil m)
  ]

  no_path : (u : ℕ) {s : Search} → Inv im x y u [] s → s.que ≡ [] → ¬ Path+ im x y
  no_path u h e (a, p, edge) = elim (h.closed a y (complete u h e p) edge) [
    | inl waiting ↦ absurd (Memᴰ.not-nil (rw e at waiting))
    | inr (inl (_, ne)) ↦ ne refl
    | inr (inr (_, m)) ↦ absurd (Memᴰ.not-nil m)
  ]

  row_in_range :
      (u : ℕ)
      → u ≤ im.max_id
      → (vs : List ℕ) → ((b : ℕ) → Memᴰ b vs → Memᴰ b (targets im u))
      → All (λ v. v ≤ im.max_id) vs
  row_in_range u le [] sub = tt
  row_in_range u le (v ∷ vs) sub = (
    whole.in_range u v le (sub v (Memᴰ.head refl)),
    row_in_range u le vs (λ b m. sub b (Memᴰ.tail m)),
  )

  expand_row :
      (u : ℕ) (s : Search) → u ≤ im.max_id → expand im y u s ≡ some (scan y (targets im u) s)
  unfolding expand
  expand_row u s le =
      let (p, e, own) = whole.has_row u le in rw (targets_of_row im u e) (ground (arith, e, own))

  -- The head of the queue becomes the current vertex.
  Inv-take :
      (u w : ℕ) (rest : List ℕ) (s : Search)
      → s.que ≡ u ∷ rest
      → Inv im x y w [] s
      → Inv im x y u (targets im u) (record s { que = rest })
  Inv-take u w rest s e h =
      let waits = λ (a : ℕ) (m : Memᴰ a (u ∷ rest)). h.queued a (rw e m) in
      record {
        size = h.size;
        current = waits u (Memᴰ.head refl);
        row = λ b m. m;
        source = h.source;
        queued = λ a m. waits a (Memᴰ.tail m);
        sound = h.sound;
        closed = λ a b m edge. elim (h.closed a b m edge) [
          | inl waiting ↦ elim (Memᴰ.cases_cons (rw e at waiting)) [
            | inl now ↦ inr (inr (now, rw (← now) edge))
            | inr later ↦ inl later
          ]
          | inr (inl seen) ↦ inr (inl seen)
          | inr (inr (_, m')) ↦ absurd (Memᴰ.not-nil m')
        ];
      }

  loop_round :
      (fuel u : ℕ) (rest : List ℕ) (s : Search)
      → s.que ≡ u ∷ rest
      → u ≤ im.max_id
      → let (hit, t) = scan y (targets im u) (record s { que = rest }) in
        loop im y (suc fuel) s ≡ (if hit then found true else loop im y fuel t)
  unfolding loop
  loop_round fuel u rest s e le = ground (arith, expand_row u (record s { que = rest }) le)

  round :
      (fuel u w : ℕ) (rest : List ℕ) (s : Search)
      → s.que ≡ u ∷ rest
      → Inv im x y w [] s
      → ((t : Search)
          → Inv im x y u [] t
          → work t < work s
          → Answers (Path+ im x y) (loop im y fuel t))
      → Answers (Path+ im x y) (loop im y (suc fuel) s)
  round fuel u w rest s e h next =
      let row = targets im u in
      let s' = record s { que = rest } in
      let inv = Inv-take u w rest s e h in
      let le = Inv-le im x y u row inv u inv.current in
      rw (loop_round fuel u rest s e le) (elim (Bool-cases (scan y row s').0) [
        | inl hit ↦ rw hit (says_true (u, inv.sound u inv.current, scan_hit im x y row s' hit))
        | inr miss ↦
            let (kept, same) =
              scan-Inv im x y u row s' (row_in_range u le row (λ b m. m)) inv miss in
            rw miss (next (scan y row s').1 kept (omega (arith, ap length e)))
      ])

  loop-Answers :
      (fuel w : ℕ) (s : Search)
      → Inv im x y w [] s
      → work s ≤ fuel
      → Answers (Path+ im x y) (loop im y fuel s)
  loop-Answers zero w s h enough = elim (List-cases s.que) [
    | inl empty ↦ unfold loop in rw empty (says_false (no_path w h empty))
    | inr (u, rest, e) ↦ absurd (omega (arith, ap length e))
  ]
  loop-Answers (suc fuel) w s h enough = elim (List-cases s.que) [
    | inl empty ↦ unfold loop in rw empty (says_false (no_path w h empty))
    | inr (u, rest, e) ↦
        round fuel u w rest s e h (λ t inv less. loop-Answers fuel u t inv (omega arith))
  ]

  abbrev blank : List Bool
  blank = replicate (suc im.max_id) false

  abbrev start : Search
  start = push (record { visit = blank; que = [] }) x

  unmarked-replicate : (n : ℕ) → unmarked (replicate n false) ≡ n
  unmarked-replicate zero = refl
  unmarked-replicate (suc n) = omega (arith, unmarked-replicate n)

  visited-start : x ≤ im.max_id → (w : ℕ) → (visited start w ≡ true) ↔ (w ≡ x)
  visited-start le w = ground (
    arith,
    visited-push (record { visit = blank; que = [] }) x w,
    get_or-replicate (suc im.max_id) false w,
    length-replicate (suc im.max_id) false,
  )

  Inv-start : x ≤ im.max_id → Inv im x y x [] start
  Inv-start le = record {
    size = length-set blank x true ∙ length-replicate (suc im.max_id) false;
    current = (visited-start le x).1 refl;
    row = λ b m. absurd (Memᴰ.not-nil m);
    source = (visited-start le x).1 refl;
    queued = λ a m. (visited-start le a).1 (Memᴰ.eq_of_singleton m);
    sound = λ a m. rw ((visited-start le a).0 m) here;
    closed = λ a b m edge. inl (Memᴰ.head ((visited-start le a).0 m));
  }

  work-start : x ≤ im.max_id → work start ≤ suc im.max_id
  work-start le = omega (
    arith,
    unmarked-set blank x (omega (arith, length-replicate (suc im.max_id) false))
        (get_or-replicate (suc im.max_id) false x),
    unmarked-replicate (suc im.max_id),
  )

  -- From a vertex of a whole graph `tranverse` ends within its queue's bound, no assertion fails, and
  -- the answer is `true` exactly when a path of one edge or more leads from `x` to `y`.
  pub tranverse-Answers : x ≤ im.max_id → Answers (Path+ im x y) (tranverse im x y)
  unfolding tranverse
  tranverse-Answers le = loop-Answers (suc im.max_id) x start (Inv-start le) (work-start le)
