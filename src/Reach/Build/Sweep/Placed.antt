-- ===== src/Reach/Build/Sweep/Placed.antt =====
-- Matrix/reach.cpp: the loops of `construct_index` that place the roots of a layer.
use mathlib.Core.List.Memᴰ
use mathlib.Core.List.{foldl}
use mgtag.Prelude.{
  ℕ, suc, ◌+◌, ◌<◌, ◌≡◌, inl, inr, refl, sym, subst, ap, ◌∙◌, Bool, List, [], ◌∷◌, ◌++◌, append-nil,
  append_assoc, Memᴰ, Memᴰ-cons, length, length-set, set, get_or-set_self, get_or-set_ne, ◌==◌,
  Bool-cases, arith, Bool-cases,
}
use mgtag.Reach.Build.Degrees.{num}
use mgtag.Reach.Build.Layers.{Layering, Roots, add_root, add_cross_root}
use mgtag.Reach.Build.Positions.{NoDup}
use mgtag.Reach.Build.Number.Trees.{keep, keep_in, keep_out, Memᴰ-keep}
use mgtag.Reach.Build.Sweep.Laid.{elem-cases}

-- what placing one root does
record Place (v : ℕ) (l : Layering) (r : Roots) (l' : Layering) (r' : Roots) : Type 0 where
  indeg : l'.indeg ≡ l.indeg
  next : l'.next ≡ l.next
  crossed : l'.crossed ≡ l.crossed
  cross_id : l'.cross_id ≡ l.cross_id
  located : l'.located ≡ set l.located v (suc v)
  order : l'.order ≡ l.order ++ v ∷ []
  roots : r'.roots ≡ r.roots ++ v ∷ []
  root_layer : r'.root_layer ≡ set r.root_layer v r.layers
  layers : r'.layers ≡ r.layers

-- what placing the roots of `news` does
pub record Placed (news : List ℕ) (l : Layering) (r : Roots) (l' : Layering) (r' : Roots)
    : Type 0 where
  pub indeg : l'.indeg ≡ l.indeg
  pub next : l'.next ≡ l.next
  pub crossed : l'.crossed ≡ l.crossed
  pub cross_id : l'.cross_id ≡ l.cross_id
  pub order : l'.order ≡ l.order ++ news
  pub roots : r'.roots ≡ r.roots ++ news
  pub layers : r'.layers ≡ r.layers
  pub size_located : length l'.located ≡ length l.located
  pub size_layer : length r'.root_layer ≡ length r.root_layer
  pub trees : (v : ℕ) → Memᴰ v news → num l'.located v ≡ suc v
  pub located_other : (v : ℕ) → ¬ Memᴰ v news → num l'.located v ≡ num l.located v
  pub root_layers : (v : ℕ) → Memᴰ v news → num r'.root_layer v ≡ r.layers
  pub layer_other : (v : ℕ) → ¬ Memᴰ v news → num r'.root_layer v ≡ num r.root_layer v

Placed-nil : (l : Layering) (r : Roots) → Placed [] l r l r
Placed-nil l r = record {
  indeg = refl;
  next = refl;
  crossed = refl;
  cross_id = refl;
  order = sym (append-nil l.order);
  roots = sym (append-nil r.roots);
  layers = refl;
  size_located = refl;
  size_layer = refl;
  trees = λ v m. absurd (Memᴰ.not-nil m);
  located_other = λ v k. refl;
  root_layers = λ v m. absurd (Memᴰ.not-nil m);
  layer_other = λ v k. refl;
}

Placed-cons :
    (v : ℕ) (news : List ℕ) (l : Layering) (r : Roots) (l1 : Layering) (r1 : Roots) (l' : Layering)
    (r' : Roots)
    → v < length l.located
    → v < length r.root_layer
    → Place v l r l1 r1
    → Placed news l1 r1 l' r'
    → Placed (v ∷ news) l r l' r'
Placed-cons v news l r l1 r1 l' r' in_loc in_layer p q = record {
  indeg = q.indeg ∙ p.indeg;
  next = q.next ∙ p.next;
  crossed = q.crossed ∙ p.crossed;
  cross_id = q.cross_id ∙ p.cross_id;
  order = q.order ∙ ap (λ t. t ++ news) p.order ∙ append_assoc l.order (v ∷ []) news;
  roots = q.roots ∙ ap (λ t. t ++ news) p.roots ∙ append_assoc r.roots (v ∷ []) news;
  layers = q.layers ∙ p.layers;
  size_located = q.size_located ∙ ap length p.located ∙ length-set l.located v (suc v);
  size_layer = q.size_layer ∙ ap length p.root_layer ∙ length-set r.root_layer v r.layers;
  trees = λ w m. elim (elem-cases w news) [
    | inl k ↦ q.trees w k
    | inr k ↦ elim ((Memᴰ-cons w v news).0 m) [
      | inl e ↦
          q.located_other w k
          ∙ ap (λ t. num t w) p.located
          ∙ rw e (get_or-set_self l.located v (suc v) 0 in_loc)
      | inr o ↦ absurd (k o)
    ]
  ];
  located_other = λ w k.
      q.located_other w (λ m. k (Memᴰ.tail m))
      ∙ ap (λ t. num t w) p.located
      ∙ get_or-set_ne l.located v w (suc v) 0 (λ e. k (Memᴰ.head (sym e)));
  root_layers = λ w m. elim (elem-cases w news) [
    | inl k ↦ q.root_layers w k ∙ p.layers
    | inr k ↦ elim ((Memᴰ-cons w v news).0 m) [
      | inl e ↦
          q.layer_other w k
          ∙ ap (λ t. num t w) p.root_layer
          ∙ rw e (get_or-set_self r.root_layer v r.layers 0 in_layer)
      | inr o ↦ absurd (k o)
    ]
  ];
  layer_other = λ w k.
      q.layer_other w (λ m. k (Memᴰ.tail m))
      ∙ ap (λ t. num t w) p.root_layer
      ∙ get_or-set_ne r.root_layer v w r.layers 0 (λ e. k (Memᴰ.head (sym e)));
}

pub add_roots_lem :
    (n : ℕ) (vs : List ℕ) (l : Layering) (r : Roots)
    → length l.located ≡ n
    → length r.root_layer ≡ n
    → ((v : ℕ) → Memᴰ v vs → v < n)
    → Placed vs l r (foldl add_root (l, r) vs).0 (foldl add_root (l, r) vs).1
add_roots_lem n [] l r a b h = Placed-nil l r
add_roots_lem n (v ∷ vs) l r a b h =
    let less = h v (Memᴰ.head refl) in
    let (l1, r1) = add_root (l, r) v in
    Placed-cons v vs l r l1 r1 _ _ (omega arith) (omega arith)
      record {
        indeg = refl;
        next = refl;
        crossed = refl;
        cross_id = refl;
        located = ap (λ t. set l.located v t) (omega arith);
        order = refl;
        roots = refl;
        root_layer = refl;
        layers = refl;
      }
      (add_roots_lem n vs l1 r1 (length-set l.located v _ ∙ a) (length-set r.root_layer v _ ∙ b)
        (λ w m. h w (Memᴰ.tail m)))

-- the crossed vertices that no edge of their layer leads to
abbrev pub ready_ones : List ℕ → List ℕ → List ℕ
ready_ones indeg vs = keep (λ v. num indeg v == 0) vs

pub add_cross_roots_lem :
    (n : ℕ) (vs : List ℕ) (l : Layering) (r : Roots)
    → length l.located ≡ n
    → length r.root_layer ≡ n
    → ((v : ℕ) → Memᴰ v vs → v < n)
    → Placed
        (ready_ones l.indeg vs)
        l
        r
        (foldl add_cross_root (l, r) vs).0
        (foldl add_cross_root (l, r) vs).1
unfolding keep
add_cross_roots_lem n [] l r a b h = Placed-nil l r
add_cross_roots_lem n (v ∷ vs) l r a b h =
    let less = h v (Memᴰ.head refl) in
    let l1 = record l { order = l.order ++ v ∷ []; located = set l.located v (v + 1) } in
    let r1 = record r { roots = r.roots ++ v ∷ []; root_layer = set r.root_layer v r.layers } in
    elim (Bool-cases (num l.indeg v == 0)) [
      | inl e ↦
          let step : add_cross_root (l, r) v ≡ (l1, r1) = rw e refl in
          rw (keep_in (λ w. num l.indeg w == 0) v vs e) (
            after_step (v ∷ ready_ones l.indeg vs) (l1, r1) step
              (Placed-cons v (ready_ones l.indeg vs) l r l1 r1 _ _ (omega arith) (omega arith)
                record {
                  indeg = refl;
                  next = refl;
                  crossed = refl;
                  cross_id = refl;
                  located = ap (λ t. set l.located v t) (omega arith);
                  order = refl;
                  roots = refl;
                  root_layer = refl;
                  layers = refl;
                }
                (add_cross_roots_lem n vs l1 r1 (length-set l.located v _ ∙ a)
                  (length-set r.root_layer v _ ∙ b) (λ w m. h w (Memᴰ.tail m)))))
      | inr e ↦
          let step : add_cross_root (l, r) v ≡ (l, r) = rw e refl in
          rw (keep_out (λ w. num l.indeg w == 0) v vs e) (
            after_step (ready_ones l.indeg vs) (l, r) step
              (add_cross_roots_lem n vs l r a b (λ w m. h w (Memᴰ.tail m))))
    ]
  where
    after_step :
        (news : List ℕ) (p : Layering × Roots)
        → add_cross_root (l, r) v ≡ p
        → Placed news l r (foldl add_cross_root p vs).0 (foldl add_cross_root p vs).1
        → Placed news l r
            (foldl add_cross_root (add_cross_root (l, r) v) vs).0
            (foldl add_cross_root (add_cross_root (l, r) v) vs).1
    after_step news p e q =
        subst (λ t. Placed news l r (foldl add_cross_root t vs).0 (foldl add_cross_root t vs).1)
          (sym e) q

pub NoDup-keep : (test : ℕ → Bool) (xs : List ℕ) → NoDup xs → NoDup (keep test xs)
unfolding keep
NoDup-keep test [] d = tt
NoDup-keep test (x ∷ xs) d = elim (Bool-cases (test x)) [
  | inl e ↦ rw e (λ m. d.0 ((Memᴰ-keep test x xs).0 m).0, NoDup-keep test xs d.1)
  | inr e ↦ rw e (NoDup-keep test xs d.1)
]
