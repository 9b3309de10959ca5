-- ===== src/Reach/Runs/Laws.antt =====
-- The index built for the graph of three vertices meets its laws.
use mathlib.Core.List.Memᴰ
use mgtag.Prelude.{
  ℕ, zero, suc, ◌≤◌, ◌<◌, ◌≡◌, ◌≢◌, ◌⊎◌, inl, inr, refl, ap, ◌∙◌, [], ◌∷◌, Memᴰ, IsSorted, arith,
}
use mgtag.Reach.Graph.{Walk, here, step, Path+}
use mgtag.Reach.Labels.{new_of, up_of, down_of, end_of, tree_of, layer_of, excp_of, cross_of}
use mgtag.Reach.Query.Laws.{IsId, IsIndex}
use mgtag.Reach.Query.Answer.{NewPath, IsIndexOf}
use mgtag.Reach.Runs.Graph.{fork, fork_labels, edge-fork, edge_to_2, Walk-fork}

pub new_of-fork : (x : ℕ) → x ≤ 2 → new_of fork_labels x ≡ suc x
new_of-fork zero le = refl
new_of-fork (suc zero) le = refl
new_of-fork (suc (suc zero)) le = refl
new_of-fork (suc (suc (suc x))) le = absurd (omega arith)

abbrev pub New : ℕ → ℕ → Type 0
New = NewPath fork fork_labels

-- The pairs of new ids that the relation holds of.
record Shape (a b : ℕ) : Type 0 where
  low : 1 ≤ a
  high : b ≤ 3
  joined : (a ≡ b) ⊎ (a < 3) × (b ≡ 3)

New-Shape : (a b : ℕ) → New a b → Shape a b
New-Shape a b p =
    let f = new_of-fork p.from p.from_le in
    let t = new_of-fork p.to p.to_le in
    record {
      low = omega (arith, f, p.from_id);
      high = omega (arith, t, p.to_id, p.to_le);
      joined = elim (Walk-fork p.from p.from_le p.walk) [
        | inl same ↦ inl (omega (arith, f, t, p.from_id, p.to_id))
        | inr up ↦ inr (omega (arith, f, t, p.from_id, p.to_id))
      ];
    }

make : (a b x y : ℕ) → x ≤ 2 → y ≤ 2 → suc x ≡ a → suc y ≡ b → Walk fork x y → New a b
make a b x y hx hy ea eb w = record {
  from = x;
  to = y;
  from_le = hx;
  to_le = hy;
  from_id = new_of-fork x hx ∙ ea;
  to_id = new_of-fork y hy ∙ eb;
  walk = w;
}

pub New-refl : (a : ℕ) → IsId 3 a → New a a
New-refl zero h = absurd (omega arith)
New-refl (suc x) h = make _ _ x x (omega arith) (omega arith) refl refl here

pub New-up : (a : ℕ) → IsId 3 a → a < 3 → New a 3
New-up zero h lt = absurd (omega arith)
New-up (suc x) h lt =
    make _ _ x 2 (omega arith) (omega arith) refl refl (step here (edge_to_2 x (omega arith)))

-- the rows of the arrays
fork_row :
    (a : ℕ)
    → IsId 3 a
    → (tree_of fork_labels a ≡ a)
      × (end_of fork_labels a ≡ a)
      × (a < 3 → (layer_of fork_labels a ≡ 1) × (cross_of fork_labels a ≡ 3 ∷ []))
      × (a ≡ 3 → (layer_of fork_labels a ≡ 2) × (cross_of fork_labels a ≡ []))
fork_row zero h = absurd (omega arith)
fork_row (suc zero) h = (refl, refl, λ lt. (refl, refl), λ e. absurd (omega arith))
fork_row (suc (suc zero)) h = (refl, refl, λ lt. (refl, refl), λ e. absurd (omega arith))
fork_row (suc (suc (suc zero))) h = (refl, refl, λ lt. absurd (omega arith), λ e. (refl, refl))
fork_row (suc (suc (suc (suc a)))) h = absurd (omega arith)

excp_of-fork : (a : ℕ) → excp_of fork_labels a ≡ []
excp_of-fork zero = refl
excp_of-fork (suc zero) = refl
excp_of-fork (suc (suc zero)) = refl
excp_of-fork (suc (suc (suc zero))) = refl
excp_of-fork (suc (suc (suc (suc zero)))) = refl
excp_of-fork (suc (suc (suc (suc (suc a))))) = refl

cross_of-fork-IsSorted : (a : ℕ) → IsSorted (cross_of fork_labels a)
cross_of-fork-IsSorted zero = tt
cross_of-fork-IsSorted (suc zero) = (tt, tt)
cross_of-fork-IsSorted (suc (suc zero)) = (tt, tt)
cross_of-fork-IsSorted (suc (suc (suc zero))) = tt
cross_of-fork-IsSorted (suc (suc (suc (suc zero)))) = tt
cross_of-fork-IsSorted (suc (suc (suc (suc (suc a))))) = tt

New-trans : (a b c : ℕ) → New a b → New b c → New a c
New-trans a b c p q =
    let s = New-Shape a b p in
    let t = New-Shape b c q in
    elim s.joined [
      | inl same ↦ rw same q
      | inr (lt, e) ↦ elim t.joined [
        | inl same ↦ rw (← same) p
        | inr (lt', e') ↦ absurd (omega arith)
      ]
    ]

New-layer :
    (a b : ℕ)
    → New a b
    → (a ≡ b) ⊎ (layer_of fork_labels a ≡ 1) × (layer_of fork_labels b ≡ 2) × (a < b) × (b ≡ 3)
New-layer a b p =
    let s = New-Shape a b p in
    elim s.joined [
      | inl same ↦ inl same
      | inr (lt, e) ↦ inr (
        ((fork_row a (s.low, omega arith)).2 lt).0,
        ((fork_row b (omega arith)).3 e).0,
        omega arith,
        e,
      )
    ]

cross-fork : (a c : ℕ) → IsId 3 a → Memᴰ c (cross_of fork_labels a) → (a < 3) × (c ≡ 3)
cross-fork zero c h m = absurd (omega arith)
cross-fork (suc zero) c h m = (omega arith, Memᴰ.eq_of_singleton m)
cross-fork (suc (suc zero)) c h m = (omega arith, Memᴰ.eq_of_singleton m)
cross-fork (suc (suc (suc zero))) c h m = absurd (Memᴰ.not-nil m)
cross-fork (suc (suc (suc (suc a)))) c h m = absurd (omega arith)

pub fork_laws : IsIndex fork_labels 3 New
fork_laws = record {
  trans = New-trans;
  ascends = λ a b p. elim (New-layer a b p) [
    | inl same ↦ rw same (omega arith, omega arith)
    | inr up ↦ (omega arith, omega arith)
  ];
  stays = λ a b p e. elim (New-layer a b p) [ inl same ↦ rw same | inr up ↦ absurd (omega arith) ];
  nested = λ a b ia ib t le n.
      let same : a ≡ b = omega (arith, (fork_row a ia).0, (fork_row b ib).0) in
      rw (← same) (New-refl a ia);
  excp_sound = λ a e ia m. absurd (Memᴰ.not-nil (rw excp_of-fork at m));
  excp_complete = λ a b p t.
      let s = New-Shape a b p in
      let ra = fork_row a (s.low, omega (arith, s.joined, s.high)) in
      let rb = fork_row b (omega (arith, s.joined, s.low), s.high) in
      inl (omega (arith, ra.0, rb.0, ra.1, rb.1));
  cross_sound = λ a c ia m.
      let (lt, e) = cross-fork a c ia m in
      rw e (omega arith, New-up a ia lt, omega (arith, ((fork_row a ia).2 lt).0));
  cross_complete = λ a b p low. elim (New-layer a b p) [
    | inl same ↦ absurd (omega (arith, ap (layer_of fork_labels) same))
    | inr (_, _, lt, e) ↦
        let s = New-Shape a b p in
        (
          3,
          rw (((fork_row a (omega (arith, s.low))).2 (omega arith)).1) (Memᴰ.head refl),
          rw e (New-refl 3 (omega arith)),
        )
  ];
  excp_sorted = λ a. rw excp_of-fork tt;
  cross_sorted = cross_of-fork-IsSorted;
}

low_levels :
    (x : ℕ)
    → x < 2
    → (down_of fork_labels x < down_of fork_labels 2) × (up_of fork_labels 2 < up_of fork_labels x)
low_levels zero lt = omega arith
low_levels (suc zero) lt = omega arith
low_levels (suc (suc x)) lt = absurd (omega arith)

fork_levels :
    (x y : ℕ)
    → x ≤ 2
    → Path+ fork x y
    → (down_of fork_labels x < down_of fork_labels y) × (up_of fork_labels y < up_of fork_labels x)
fork_levels x y le (u, w, e) = elim (Walk-fork x le (step w e)) [
  | inl same ↦ absurd (omega (arith, not_loop))
  | inr (lt, two) ↦ rw two (low_levels x lt)
]
  where
    not_loop : x ≢ y
    not_loop same = elim (Walk-fork x le w) [
      | inl at ↦ omega (arith, edge-fork u y (omega arith) e)
      | inr up ↦ omega (arith, edge-fork u y (omega arith) e)
    ]

pub fork-IsIndexOf : IsIndexOf fork fork_labels
fork-IsIndexOf = record {
  ids = λ x le. omega (arith, new_of-fork x le);
  injective = λ x y hx hy e. omega (arith, new_of-fork x hx, new_of-fork y hy);
  laws = fork_laws;
  levels = fork_levels;
}
