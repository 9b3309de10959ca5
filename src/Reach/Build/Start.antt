-- ===== src/Reach/Build/Start.antt =====
-- Matrix/reach.cpp: the first pass of `construct_index`, from `init_degree` to `pre_process`.
use mathlib.Core.List.Memᴰ
use mathlib.Core.List.{foldl}
use mgtag.Prelude.{
  ℕ, zero, suc, ◌+◌, ◌^◌, ◌≤◌, ◌<◌, ◌≡◌, ◌≢◌, ◌↔◌, ◌⊎◌, inl, inr, refl, sym, ap, ◌∙◌, Bool, List,
  [], ◌∷◌, ◌++◌, some, append_assoc, append-nil, Memᴰ, Memᴰ-cons, length, length-set,
  length-replicate, replicate, set, get_or-set_self, get_or-set_ne, ◌==◌, Bool-cases, arith,
}
use mgtag.Reach.Graph.{Image, targets, IsWhole, Walk, here, step, Path+}
use mgtag.Reach.Build.Degrees.{
  Degrees, num, inc32, count_edge, count_row, count_rows, init_degree, select_from,
  get_forward_root_vertices,
}
use mgtag.Reach.Build.Layers.{Layering, Roots, add_root, pre_process}
use mgtag.Reach.Build.Counts.{edges_into, init_degree_lem, edges_into-zero}
use mgtag.Reach.Build.Roots.{
  IsSource, select_from_mem, get_forward_root_vertices_lem, kept_roots, chosen_mem,
}
use mgtag.Reach.Build.Positions.{NoDup}
use mgtag.Reach.Build.Topology.{IsStart, pre_process_lem}

length-count_edges :
    (vs : List ℕ) (d : Degrees) → length (foldl count_edge d vs).indeg ≡ length d.indeg
length-count_edges [] d = refl
length-count_edges (x ∷ xs) d =
    length-count_edges xs (count_edge d x) ∙ length-set d.indeg x (inc32 (num d.indeg x))

length-count_rows :
    (im : Image) (n i : ℕ) (d : Degrees) → length (count_rows im n i d).indeg ≡ length d.indeg
unfolding count_rows count_row
length-count_rows im zero i d = refl
length-count_rows im (suc n) i d =
    length-count_rows im n (i + 1) (count_row im i d)
    ∙ length-count_edges (targets im i)
        (record d { outdeg = set d.outdeg i (length (targets im i)) })

length-init_degree : (im : Image) → length (init_degree im).indeg ≡ suc im.max_id
unfolding init_degree
length-init_degree im =
    let n = suc im.max_id in
    length-count_rows im n 0 (record { indeg = replicate n 0; outdeg = replicate n 0 })
    ∙ length-replicate n 0

select_from-NoDup : (test : ℕ → Bool) (n i : ℕ) → NoDup (select_from test n i)
unfolding select_from
select_from-NoDup test zero i = tt
select_from-NoDup test (suc n) i =
    let rest = select_from-NoDup test n (i + 1) in
    let apart : ¬ Memᴰ i (select_from test n (i + 1)) =
      λ m. absurd (omega (arith, (select_from_mem test n (i + 1) i).0 m)) in
    elim (Bool-cases (test i)) [ inl e ↦ rw e (apart, rest) | inr e ↦ rw e rest ]

-- what the loop over the roots leaves
record Rooted (l : Layering) (roots : List ℕ) (l' : Layering) : Type 0 where
  indeg : l'.indeg ≡ l.indeg
  order : l'.order ≡ l.order ++ roots
  size : length l'.ldown ≡ length l.ldown
  one : (w : ℕ) → w < length l.ldown → Memᴰ w roots ⊎ (num l.ldown w ≡ 1) → num l'.ldown w ≡ 1

add_root_one :
    (l : Layering) (v w : ℕ)
    → w < length l.ldown
    → (w ≡ v) ⊎ (num l.ldown w ≡ 1)
    → num (set l.ldown v 1) w ≡ 1
add_root_one l v w h (inl e) = rw (← e) (get_or-set_self l.ldown w 1 0 h)
add_root_one l v w h (inr e) = elim (Bool-cases (v == w)) [
  | inl q ↦ let same : v ≡ w = ground arith in rw same (get_or-set_self l.ldown w 1 0 h)
  | inr q ↦ let apart : v ≢ w = ground arith in get_or-set_ne l.ldown v w 1 0 apart ∙ e
]

add_roots_lem :
    (roots : List ℕ) (l : Layering) (r : Roots) → Rooted l roots (foldl add_root (l, r) roots).0
add_roots_lem [] l r = record {
  indeg = refl;
  order = sym (append-nil l.order);
  size = refl;
  one = λ w h c. elim c [ inl n ↦ absurd (Memᴰ.not-nil n) | inr e ↦ e ];
}
add_roots_lem (v ∷ vs) l r =
    let (l1, r1) = add_root (l, r) v in
    let rest = add_roots_lem vs l1 r1 in
    let kept = length-set l.ldown v 1 in
    record {
      indeg = rest.indeg;
      order = rest.order ∙ append_assoc l.order (v ∷ []) vs;
      size = rest.size ∙ kept;
      one = λ w h c. rest.one w (omega (arith, kept)) (elim c [
        | inl m ↦ elim ((Memᴰ-cons w v vs).0 m) [
          | inl e ↦ inr (add_root_one l v w h (inl e))
          | inr n ↦ inl n
        ]
        | inr e ↦ inr (add_root_one l v w h (inr e))
      ]);
    }

module _ (im : Image) (whole : IsWhole im)
    (small : (v : ℕ) → v ≤ im.max_id → edges_into (targets im) v (suc im.max_id) 0 < 2 ^ 32)
    (qsort : List ℕ → List ℕ) (same_members : (xs : List ℕ) (a : ℕ) → Memᴰ a (qsort xs) ↔ Memᴰ a xs)
    (keeps_distinct : (xs : List ℕ) → NoDup xs → NoDup (qsort xs)) where
  abbrev pub roots_of : List ℕ
  roots_of = get_forward_root_vertices qsort im (init_degree im)

  roots-NoDup : (s : ℕ) → IsSource im s → NoDup roots_of
  roots-NoDup s source =
      rw
        (kept_roots qsort same_members im small s
          ((chosen_mem qsort same_members im small s).1 source))
        (keeps_distinct _ (select_from-NoDup _ (suc im.max_id) 0))

  pub started-IsStart :
      (s : ℕ) (l : Layering) (r : Roots)
      → IsSource im s
      → l.indeg ≡ (init_degree im).indeg
      → l.order ≡ []
      → length l.ldown ≡ suc im.max_id
      → IsStart im whole small (foldl add_root (l, r) roots_of).0
  unfolding IsSource
  started-IsStart s l r source degrees empty size =
      let a = add_roots_lem roots_of l r in
      let order : (foldl add_root (l, r) roots_of).0.order ≡ roots_of =
        a.order ∙ ap (λ t. t ++ roots_of) empty in
      let sources = get_forward_root_vertices_lem qsort same_members im small s source in
      record {
        size_in = ap length (a.indeg ∙ degrees) ∙ length-init_degree im;
        size_down = a.size ∙ size;
        degrees = λ v h. ap (λ t. num t v) (a.indeg ∙ degrees) ∙ init_degree_lem im v h (small v h);
        inside = λ w m. ((sources w).0 (rw order at m)).0;
        sources = λ v h.
            let count =
              ap (λ t. num t v) (a.indeg ∙ degrees) ∙ init_degree_lem im v h (small v h) in
            let free = edges_into-zero (targets im) v (suc im.max_id) 0 in
            rw order (
              λ z. (sources v).1 (h, λ u l. free.0 (omega arith) u (omega arith) (omega arith)),
              λ m.
                  let (k, no_edge) = (sources v).0 m in
                  let none_in = free.1 (λ u l h. no_edge u (omega arith)) in omega arith,
            );
        distinct = rw order (roots-NoDup s source);
        first = λ w m.
            let root : Memᴰ w roots_of = rw order at m in
            a.one w (omega (arith, ((sources w).0 root).0)) (inl root);
      }

  rises :
      (l : Layering)
      → ((u v : ℕ) → u ≤ im.max_id → Memᴰ v (targets im u) → num l.ldown u < num l.ldown v)
      → (x : ℕ) {u : ℕ} → x ≤ im.max_id
      → Walk im x u
      → (u ≤ im.max_id) × (num l.ldown x ≤ num l.ldown u)
  rises l edge x h here = (h, omega arith)
  rises l edge x h (step {u} {v} p e) =
      let (inside, le) = rises l edge x h p in
      (whole.in_range u v inside e, omega (arith, edge u v inside e))

  -- In an acyclic graph with a vertex that no edge leads into, the first pass of `construct_index` ends: from
  -- the degrees of `init_degree` and the roots of `get_forward_root_vertices`, `pre_process` puts every vertex
  -- in its order, and `Ldown` rises along every path of one edge or more; this if qsort keeps the members and
  -- repeats none, and the counts of edges fit a word.
  pub first_pass_lem :
      (rank : ℕ → ℕ)
      → ((u v : ℕ) → u ≤ im.max_id → Memᴰ v (targets im u) → rank u < rank v)
      → (s : ℕ) (l : Layering) (r : Roots) → IsSource im s
      → l.indeg ≡ (init_degree im).indeg
      → l.order ≡ []
      → length l.ldown ≡ suc im.max_id
      → (l' : Layering) × (pre_process im (foldl add_root (l, r) roots_of).0 ≡ some l')
        × ((v : ℕ) → v ≤ im.max_id → Memᴰ v l'.order)
        × ((x y : ℕ) → x ≤ im.max_id → Path+ im x y → num l'.ldown x < num l'.ldown y)
  first_pass_lem rank acyclic s l r source degrees empty size =
      let (l', e, (all, b), edge) =
        pre_process_lem im whole small rank acyclic (foldl add_root (l, r) roots_of).0
          (started-IsStart s l r source degrees empty size) in
      (
        l',
        e,
        λ v. (all v).0,
        λ x y h (u, walk, last).
            let (inside, le) = rises l' edge x h walk in omega (arith, edge u y inside last),
      )
