-- ===== src/Reach/Build/Sweep/Rounds.antt =====
-- Matrix/reach.cpp: the rounds of a pass end, and it has then read all vertices of its layer.
use mathlib.Core.List.Memᴰ
use mathlib.Core.List.{foldl}
use mgtag.Prelude.{
  ℕ, zero, suc, ◌≤◌, ◌<◌, ◌≡◌, ◌⊎◌, ◌↔◌, inl, inr, refl, ap, ◌∙◌, List, [], ◌∷◌, ◌++◌, Option, some,
  Memᴰ, Memᴰ-append, Memᴰ-cons, length, drop, drop-append, arith,
}
use mgtag.Reach.Graph.{Image}
use mgtag.Reach.Build.Layers.{Layering, visit_row, rounds, next_layer}
use mgtag.Reach.Build.Positions.{NoDup}
use mgtag.Reach.Build.Sums.{elem_iff}
use mgtag.Reach.Build.Unseen.{unseen, unseen_lt, elem-false, edges_from_full}
use mgtag.Reach.Build.Sweep.Reads.{Inner, Rest, Front, front_lem}

NoDup-right : (xs ys : List ℕ) → NoDup (xs ++ ys) → NoDup ys
NoDup-right [] ys d = d
NoDup-right (x ∷ xs) ys d = NoDup-right xs ys d.1

NoDup-apart : (xs ys : List ℕ) (w : ℕ) → NoDup (xs ++ ys) → Memᴰ w ys → ¬ Memᴰ w xs
NoDup-apart [] ys w d m = Memᴰ.not-nil
NoDup-apart (x ∷ xs) ys w d m = λ k. elim ((Memᴰ-cons w x xs).0 k) [
  | inl e ↦ d.0 ((Memᴰ-append x xs ys).1 (inr (rw e at m)))
  | inr o ↦ NoDup-apart xs ys w d.1 m o
]

module _ (im : Image) (row : ℕ → List ℕ) (ws roots old : List ℕ) (inner : Inner im row ws) where
  -- the state before a round
  pub record Between (seen bad front : List ℕ) (l : Layering) : Type 0 where
    pub rest : Rest im row ws roots old inner seen bad l
    pub next : Front im row ws roots old inner seen front l
    pub covers : (w : ℕ) → Memᴰ w l.order → Memᴰ w seen ⊎ Memᴰ w front

  round_lem :
      (layer : Option ℕ) (seen bad front : List ℕ) (l : Layering)
      → Between seen bad front l
      → (seen' bad' : List ℕ) × Between seen' bad'
          (drop (length l.order) (foldl (visit_row im layer) l front).order)
          (foldl (visit_row im layer) l front)
        × ((w : ℕ) → Memᴰ w seen' ↔ (Memᴰ w seen ⊎ Memᴰ w front))
  round_lem layer seen bad front l b =
      let l' = foldl (visit_row im layer) l front in
      let (seen', bad', p, (new, e), same) =
        front_lem im row ws roots old inner layer front seen bad l b.rest b.next in
      let fresh : drop (length l.order) l'.order ≡ new =
        ap (drop (length l.order)) e ∙ drop-append l.order new in
      let distinct : NoDup (l.order ++ new) = rw e at (p.distinct) in
      let was_queued : (w : ℕ) → Memᴰ w seen' → Memᴰ w l.order = λ w m. elim ((same w).0 m) [
        | inl s ↦ b.rest.done_queued w s
        | inr f ↦ (b.next.members w f).0
      ] in
      (
        seen',
        bad',
        rw fresh record {
          rest = p;
          next = record {
            members = λ w m. (
              rw e ((Memᴰ-append w l.order new).1 (inr m)),
              λ s. NoDup-apart l.order new w distinct m (was_queued w s),
            );
            distinct = NoDup-right l.order new distinct;
          };
          covers = λ w m. elim ((Memᴰ-append w l.order new).0 (rw e at m)) [
            | inl o ↦ inl ((same w).1 (b.covers w o))
            | inr k ↦ inr k
          ];
        },
        same,
      )

  fewer :
      (seen bad : List ℕ) (u : ℕ) (us seen' : List ℕ) (l : Layering)
      → Between seen bad (u ∷ us) l
      → ((w : ℕ) → Memᴰ w seen → Memᴰ w seen')
      → Memᴰ u seen'
      → unseen seen' (suc im.max_id) 0 < unseen seen (suc im.max_id) 0
  fewer seen bad u us seen' l b sub m =
      let (queued, new) = b.next.members u (Memᴰ.head refl) in
      let start = inner.below u (b.rest.inside u queued) in
      unseen_lt seen seen' u (suc im.max_id) 0
        (λ w e. (elem_iff w seen').1 (sub w ((elem_iff w seen).0 e))) (omega arith) (omega arith)
        (elem-false u seen new) ((elem_iff u seen').1 m)

  rounds_go :
      (fuel : ℕ) (layer : Option ℕ) (u : ℕ) (us : List ℕ) (l : Layering)
      → rounds im (suc fuel) layer (u ∷ us) l
        ≡ rounds im fuel
            (next_layer layer)
            (drop (length l.order) (foldl (visit_row im layer) l (u ∷ us)).order)
            (foldl (visit_row im layer) l (u ∷ us))
  unfolding rounds
  rounds_go fuel layer u us l = refl

  pub rounds_lem :
      (fuel : ℕ) (layer : Option ℕ) (seen bad front : List ℕ) (l : Layering)
      → Between seen bad front l
      → unseen seen (suc im.max_id) 0 ≤ fuel
      → (seen' bad' : List ℕ) × (l' : Layering) × (rounds im fuel layer front l ≡ some l')
        × Between seen' bad' [] l'
  unfolding rounds
  rounds_lem fuel layer seen bad [] l b enough = (seen, bad, l, refl, b)
  rounds_lem zero layer seen bad (u ∷ us) l b enough =
      let less = fewer seen bad u us (u ∷ seen) l b (λ w m. Memᴰ.tail m) (Memᴰ.head refl) in
      absurd (omega arith)
  rounds_lem (suc fuel) layer seen bad (u ∷ us) l b enough =
      let l1 = foldl (visit_row im layer) l (u ∷ us) in
      let (seen1, bad1, b1, same) = round_lem layer seen bad (u ∷ us) l b in
      let less =
        fewer seen bad u us seen1 l b (λ w m. (same w).1 (inl m))
          ((same u).1 (inr (Memᴰ.head refl))) in
      let (seen', bad', l', e, b') =
        rounds_lem fuel (next_layer layer) seen1 bad1 (drop (length l.order) l1.order) l1 b1
          (omega arith) in
      (seen', bad', l', rounds_go fuel layer u us l ∙ e, b')

  module _ (rank : ℕ → ℕ) (acyclic : (w v : ℕ) → Memᴰ w ws → Memᴰ v (row w) → rank w < rank v)
      (from : (w v : ℕ) → Memᴰ v (row w) → Memᴰ w ws) where
    pub all_read :
        (k : ℕ) (seen bad : List ℕ) (l : Layering)
        → Between seen bad [] l
        → (v : ℕ) → rank v < k
        → Memᴰ v ws
        → Memᴰ v seen
    all_read zero seen bad l b v less m = absurd (omega arith)
    all_read (suc k) seen bad l b v less m =
        let full = edges_from_full row v seen (suc im.max_id) 0 (λ w low high t.
          all_read k seen bad l b w (omega (arith, acyclic w v (from w v t) t)) (from w v t)) in
        let queued : Memᴰ v l.order =
          (b.rest.ready v m).0 (omega (arith, b.rest.balance v (inner.below v m))) in
        elim (b.covers v queued) [ inl s ↦ s | inr k ↦ absurd (Memᴰ.not-nil k) ]
