-- ===== src/Reach/Build/Sweep/Layer.antt =====
-- Matrix/reach.cpp: one layer more in `construct_index`.
use mathlib.Core.List.{foldl}
use mgtag.Prelude.{
  ℕ, suc, ◌+◌, ◌^◌, ◌≤◌, ◌<◌, ◌≡◌, ◌↔◌, inl, inr, refl, sym, ap, ◌∙◌, false, List, [], Option, none,
  some, Memᴰ, Memᴰ-append, length, length-replicate, get_or-replicate, Bool-cases, ◌==◌, ==_iff,
  arith,
}
use mgtag.Reach.Graph.{Image, targets, IsWhole}
use mgtag.Reach.Build.Degrees.{num, flag}
use mgtag.Reach.Build.Counts.{edges_into}
use mgtag.Reach.Build.Layers.{
  Layering, Roots, add_cross_root, no_marks, pre_process_cross, rounds, swap, cross_round,
}
use mgtag.Reach.Build.Unseen.{clash}
use mgtag.Reach.Build.Number.Trees.{Memᴰ-keep}
use mgtag.Reach.Build.Sweep.Reads.{Inner}
use mgtag.Reach.Build.Sweep.Whole.{
  part_row, part_row_iff, part_row_twice, edges_into_same, Start, Done, pass_lem,
}
use mgtag.Reach.Build.Sweep.Laid.{laid_lem, elem-cases}
use mgtag.Reach.Build.Sweep.Kept.{rounds-ldown, roots-ldown}
use mgtag.Reach.Build.Sweep.Placed.{Placed, ready_ones, add_cross_roots_lem, NoDup-keep}
use mgtag.Reach.Build.Sweep.Climbs.{Climbs-more, Rises, same_tree, higher}
use mgtag.Reach.Build.Sweep.Coming.{Layers, inner_of, inner_acyclic, inner_from}

module _ (im : Image) (whole : IsWhole im)
    (small : (v : ℕ) → v ≤ im.max_id → edges_into (targets im) v (suc im.max_id) 0 < 2 ^ 32)
    (rank : ℕ → ℕ)
    (acyclic : (u v : ℕ) → u ≤ im.max_id → Memᴰ v (targets im u) → rank u < rank v) where
  module _ (ws : List ℕ) (l : Layering) (r : Roots)
      (a : Layers im whole small rank acyclic ws l r) where
    abbrev pub news : List ℕ
    news = ready_ones l.indeg l.cross_id

    news_iff : (v : ℕ) → Memᴰ v news ↔ (Memᴰ v l.cross_id × (num l.indeg v ≡ 0))
    news_iff v =
        ground (arith, Memᴰ-keep (λ w. num l.indeg w == 0) v l.cross_id, ==_iff (num l.indeg v) 0)

    new_in : (v : ℕ) → Memᴰ v news → Memᴰ v ws
    new_in v m = a.cross_in v ((news_iff v).0 m).0

    is_new : (v : ℕ) → Memᴰ v ws → num l.indeg v ≡ 0 → Memᴰ v news
    is_new v m z = elim (a.cross_known v m) [
      | inl c ↦ (news_iff v).1 (c, z)
      | inr k ↦ absurd (omega arith)
    ]

    pub sources :
        (v : ℕ)
        → Memᴰ v ws
        → Memᴰ v news ↔ (edges_into (part_row (targets im) ws) v (suc im.max_id) 0 ≡ 0)
    sources v m =
        let degree = a.degrees v (a.laid.below v m) in
        (λ k. sym degree ∙ ((news_iff v).0 k).1, λ z. is_new v m (degree ∙ z))

    inner : Inner im (part_row (targets im) ws) ws
    inner = inner_of im whole small rank acyclic l.located ws r.roots a.laid

    abbrev placed : Layering × Roots
    placed =
        foldl add_cross_root (record l { order = [] }, record r { layers = r.layers + 1 })
          l.cross_id

    placed_lem :
        Placed news
          (record l { order = [] })
          (record r { layers = r.layers + 1 })
          (placed.0)
          (placed.1)
    placed_lem =
        add_cross_roots_lem (suc im.max_id) l.cross_id (record l { order = [] })
          (record r { layers = r.layers + 1 }) a.size_located a.size_layer
          (λ v m. a.laid.below v (a.cross_in v m))

    abbrev begun : Layering
    begun = record (placed.0) { crossed = no_marks im; cross_id = [] }

    begun_lem :
        Start im
          (part_row (targets im) ws)
          ws
          news
          inner
          rank
          (inner_acyclic im whole small rank acyclic l.located ws r.roots a.laid)
          (inner_from im whole small rank acyclic ws)
          begun
    begun_lem =
        let p = placed_lem in
        record {
          size_in = ap length p.indeg ∙ a.size_in;
          size_located = p.size_located ∙ a.size_located;
          size_crossed = length-replicate (suc im.max_id) false;
          size_next = ap length p.next ∙ a.size_next;
          degrees = λ v h. ap (λ t. num t v) p.indeg ∙ a.degrees v h;
          queue = p.order;
          of_ws = new_in;
          distinct = NoDup-keep (λ w. num l.indeg w == 0) l.cross_id a.cross_distinct;
          sources = λ v m. rw (p.indeg) (is_new v m, λ k. ((news_iff v).0 k).1);
          trees = p.trees;
          unset = λ v m. elim (elem-cases v news) [
            | inl k ↦ inl k
            | inr k ↦ inr (p.located_other v k ∙ a.laid.unset v m)
          ];
          uncrossed = λ v. get_or-replicate (suc im.max_id) false v;
          none_next = λ v h. ap (λ t. num t v) p.next ∙ a.none_next v h;
          no_cross = refl;
        }

    edges' :
        (bad : List ℕ) (l' : Layering)
        → Done im
            (part_row (targets im) ws)
            ws
            news
            inner
            rank
            (inner_acyclic im whole small rank acyclic l.located ws r.roots a.laid)
            (inner_from im whole small rank acyclic ws)
            begun.located
            bad
            l'
        → (w v : ℕ) → w < suc im.max_id
        → ¬ Memᴰ w bad
        → ¬ Memᴰ v bad
        → Memᴰ v (targets im w)
        → Rises l'.located (placed.1).root_layer (placed.1).roots w v
    edges' bad l' d w v h k k' t = elim (elem-cases w ws) [
      | inl i ↦
          let j = d.joined w v i ((part_row_iff (targets im) ws w v).1 (i, t)) in
          let i' = a.laid.closed w v i t in
          elim (j.1 (uncrossed w i k)) [
            | inl c ↦ absurd (k' ((d.bad_iff v).1 (i', c)))
            | inr e ↦ same_tree e
          ]
      | inr o ↦ elim (elem-cases v ws) [
        | inl i ↦
            let (e, m, name) = a.laid.fixed w h o in
            let (e', m', name') = d.tree v i (uncrossed v i k') in
            higher e e' (old_root e m) (new_root e' m') (kept w o ∙ name) name' (
              omega (
                arith,
                p.layer_other e (λ q. (a.laid.roots e m).1 (new_in e q)),
                a.capped e m,
                p.root_layers e' m',
              ))
        | inr o' ↦ elim (a.edges w v h o o' t) [
          | same_tree e ↦ same_tree (kept v o' ∙ e ∙ sym (kept w o))
          | higher e e' m m' name name' less ↦
              higher e e' (old_root e m) (old_root e' m') (kept w o ∙ name) (kept v o' ∙ name') (
                omega (
                  arith,
                  p.layer_other e (λ q. (a.laid.roots e m).1 (new_in e q)),
                  p.layer_other e' (λ q. (a.laid.roots e' m').1 (new_in e' q)),
                ))
        ]
      ]
    ]
      where
        p :
            Placed news
              (record l { order = [] })
              (record r { layers = r.layers + 1 })
              (placed.0)
              (placed.1)
        p = placed_lem

        kept : (u : ℕ) → ¬ Memᴰ u ws → num l'.located u ≡ num l.located u
        kept u o = d.outside u o ∙ p.located_other u (λ m. o (new_in u m))

        uncrossed : (u : ℕ) → Memᴰ u ws → ¬ Memᴰ u bad → flag l'.crossed u ≡ false
        uncrossed u i k = elim (Bool-cases (flag l'.crossed u)) [
          | inl c ↦ absurd (k ((d.bad_iff u).1 (i, c)))
          | inr c ↦ c
        ]

        old_root : (q : ℕ) → Memᴰ q r.roots → Memᴰ q (placed.1).roots
        old_root q m = rw (p.roots) ((Memᴰ-append q r.roots news).1 (inl m))

        new_root : (q : ℕ) → Memᴰ q news → Memᴰ q (placed.1).roots
        new_root q m = rw (p.roots) ((Memᴰ-append q r.roots news).1 (inr m))

    next_lem :
        (bad : List ℕ) (l' : Layering)
        → Done im
            (part_row (targets im) ws)
            ws
            news
            inner
            rank
            (inner_acyclic im whole small rank acyclic l.located ws r.roots a.laid)
            (inner_from im whole small rank acyclic ws)
            begun.located
            bad
            l'
        → Layers im whole small rank acyclic bad (swap l') (placed.1)
    next_lem bad l' d =
        let p = placed_lem in
        let outside : (v : ℕ) → ¬ Memᴰ v ws → num begun.located v ≡ num l.located v =
          λ v k. p.located_other v (λ m. k (new_in v m)) in
        let laid =
          laid_lem im l.located ws r.roots a.laid news bad inner rank
            (inner_acyclic im whole small rank acyclic l.located ws r.roots a.laid)
            (inner_from im whole small rank acyclic ws) begun.located outside l' d new_in
            (NoDup-keep (λ w. num l.indeg w == 0) l.cross_id a.cross_distinct) sources in
        let top : num_layers ≡ suc r.layers = p.layers ∙ (omega arith) in
        record {
          laid = rw (p.roots) laid;
          size_in = d.size_next;
          size_located = d.size_located;
          size_next = d.size_in;
          size_layer = p.size_layer ∙ a.size_layer;
          degrees = λ v h.
              d.next_count v h
              ∙ edges_into_same (part_row (part_row (targets im) ws) bad)
                  (part_row (targets im) bad) v (suc im.max_id) 0
                  (part_row_twice (targets im) ws bad (λ w m. ((d.bad_iff w).0 m).0));
          none_next = d.none_left;
          cross_in = d.cross_in;
          cross_distinct = d.cross_distinct;
          cross_known = d.cross_known;
          climbs = rw (p.roots) (
              Climbs-more r.root_layer (placed.1).root_layer r.roots news r.layers
                (λ q m. (p.layer_other q (λ k. (a.laid.roots q m).1 (new_in q k)), a.capped q m))
                (λ q m. p.root_layers q m ∙ (omega arith)) a.climbs);
          capped = λ q m. elim ((Memᴰ-append q r.roots news).0 (rw (p.roots) at m)) [
            | inl o ↦
                omega (
                  arith,
                  p.layer_other q (λ k. (a.laid.roots q o).1 (new_in q k)),
                  a.capped q o,
                  top,
                )
            | inr k ↦ omega (arith, p.root_layers q k, p.layers)
          ];
          edges = edges' bad l' d;
        }
      where
        num_layers : ℕ
        num_layers = (placed.1).layers

    round_go :
        (l' : Layering)
        → rounds im (suc (suc im.max_id)) none begun.order begun ≡ some l'
        → cross_round im l r ≡ some (swap l', placed.1)
    unfolding cross_round pre_process_cross
    round_go l' e =
        ap
          (λ t. elim t as (λ x. Option (Layering × Roots)) [
            | none ↦ none
            | some q ↦ some (swap q, placed.1)
          ])
          e

    pub round_lem :
        (bad : List ℕ) × (l' : Layering) × (r' : Roots) × (cross_round im l r ≡ some (l', r'))
        × Layers im whole small rank acyclic bad l' r'
        × ((v : ℕ) → Memᴰ v bad → Memᴰ v ws)
        × ((v : ℕ) → Memᴰ v news → ¬ Memᴰ v bad)
        × (l'.ldown ≡ l.ldown)
    round_lem =
        let (bad, l', e, d) =
          pass_lem im (part_row (targets im) ws) ws news inner rank
            (inner_acyclic im whole small rank acyclic l.located ws r.roots a.laid)
            (inner_from im whole small rank acyclic ws) none begun begun_lem in
        (
          bad,
          swap l',
          placed.1,
          round_go l' e,
          next_lem bad l' d,
          λ v m. ((d.bad_iff v).0 m).0,
          λ v m k. clash (sym ((d.bad_iff v).0 k).1 ∙ (d.roots_kept v m).0),
          rounds-ldown im (suc (suc im.max_id)) begun.order begun l' e
              ∙ roots-ldown l.cross_id
                  (record l { order = [] }, record r { layers = r.layers + 1 }),
        )
