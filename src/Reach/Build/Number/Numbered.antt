-- ===== src/Reach/Build/Number/Numbered.antt =====
-- Matrix/reach.cpp: the new ids and labels that `decode` gives.
use mgtag.Prelude.{
  ℕ, suc, ◌+◌, ◌≤◌, ◌<◌, ◌≡◌, ◌≢◌, ◌⊎◌, inl, inr, refl, sym, ap, ◌∙◌, List, ◌∷◌, Memᴰ, Memᴰ-cons,
  length, length-set, get_or-set_self, get_or-set_ne, leb, Bool-cases, arith,
}
use mgtag.Reach.Graph.{Image}
use mgtag.Reach.Build.Degrees.{num}
use mgtag.Reach.Build.Unseen.{unseen, unseen-cons, elem-false}
use mgtag.Reach.Build.Number.{Numbering, assign}
use mgtag.Reach.Build.Number.Trees.{tree_row}
use mgtag.Reach.Build.Number.Row.{SameIds}

module _ (im : Image) (located roots root_layer : List ℕ) where
  -- the labels of the vertices in `done`, in layers up to `top`
  pub record Numbered (done : List ℕ) (top : ℕ) (s : Numbering) : Type 0 where
    pub size_id : length s.new_id ≡ suc im.max_id
    pub size_rl : length s.rl ≡ suc (suc im.max_id)
    pub size_rlt : length s.rlt ≡ suc (suc im.max_id)
    pub vertices : (w : ℕ) → Memᴰ w done → w ≤ im.max_id
    pub room : s.count + unseen done (suc im.max_id) 0 ≡ suc im.max_id
    pub ids : (w : ℕ) → Memᴰ w done → (1 ≤ num s.new_id w) × (num s.new_id w ≤ s.count)
    pub injective : (w v : ℕ) → Memᴰ w done → Memᴰ v done → num s.new_id w ≡ num s.new_id v → w ≡ v
    pub onto : (i : ℕ) → 1 ≤ i → i ≤ s.count → (w : ℕ) × Memᴰ w done × (num s.new_id w ≡ i)
    pub ascends :
        (w v : ℕ)
        → w ≤ im.max_id
        → Memᴰ v done
        → Memᴰ v (tree_row im located w)
        → Memᴰ w done × (num s.new_id w < num s.new_id v)
    pub tree_label : (w : ℕ) → Memᴰ w done → num s.rlt (num s.new_id w) ≡ num located w
    pub layer_label :
        (w : ℕ)
        → Memᴰ w done
        → (r : ℕ) × Memᴰ r roots
          × (num located w ≡ suc r)
          × (num s.rl (num s.new_id w) ≡ num root_layer r)
    pub capped : (w : ℕ) → Memᴰ w done → num s.rl (num s.new_id w) ≤ top
    pub layers :
        (w v : ℕ)
        → Memᴰ w done
        → Memᴰ v done
        → num s.rl (num s.new_id w) < num s.rl (num s.new_id v)
        → num s.new_id w < num s.new_id v

  pub Numbered-kept :
      (done : List ℕ) (top : ℕ) (s s' : Numbering)
      → SameIds s s'
      → Numbered done top s
      → Numbered done top s'
  Numbered-kept done top s s' same n = record {
    size_id = rw (same.same_new_id) (n.size_id);
    size_rl = rw (same.same_rl) (n.size_rl);
    size_rlt = rw (same.same_rlt) (n.size_rlt);
    vertices = n.vertices;
    room = rw (same.same_count) (n.room);
    ids = rw (same.same_new_id, same.same_count) (n.ids);
    injective = rw (same.same_new_id) (n.injective);
    onto = rw (same.same_new_id, same.same_count) (n.onto);
    ascends = rw (same.same_new_id) (n.ascends);
    tree_label = rw (same.same_new_id, same.same_rlt) (n.tree_label);
    layer_label = rw (same.same_new_id, same.same_rl) (n.layer_label);
    capped = rw (same.same_new_id, same.same_rl) (n.capped);
    layers = rw (same.same_new_id, same.same_rl) (n.layers);
  }

  module _ (done : List ℕ) (u r : ℕ) (s : Numbering) (n : Numbered done (num root_layer r) s)
      (vertex : u ≤ im.max_id) (new : ¬ Memᴰ u done) (root : Memᴰ r roots)
      (of_tree : num located u ≡ suc r)
      (starts : (w : ℕ) → w ≤ im.max_id → Memᴰ u (tree_row im located w) → Memᴰ w done) where
    abbrev next : Numbering
    next = assign im located (num root_layer r) u s

    fewer : suc (unseen (u ∷ done) (suc im.max_id) 0) ≡ unseen done (suc im.max_id) 0
    fewer = unseen-cons done u (suc im.max_id) 0 (omega arith) (omega arith) (elem-false u done new)

    own_id : num next.new_id u ≡ s.count + 1
    own_id = get_or-set_self s.new_id u (s.count + 1) 0 (omega (arith, n.size_id))

    own_rl : num next.rl (s.count + 1) ≡ num root_layer r
    own_rl =
        get_or-set_self s.rl (s.count + 1) (num root_layer r) 0
          (omega (arith, n.size_rl, n.room, fewer))

    own_rlt : num next.rlt (s.count + 1) ≡ num located u
    own_rlt =
        get_or-set_self s.rlt (s.count + 1) (num located u) 0
          (omega (arith, n.size_rlt, n.room, fewer))

    old_id : (w : ℕ) → Memᴰ w done → num next.new_id w ≡ num s.new_id w
    old_id w m = get_or-set_ne s.new_id u w (s.count + 1) 0 (λ e. new (rw e m))

    old_rl : (w : ℕ) → Memᴰ w done → num next.rl (num next.new_id w) ≡ num s.rl (num s.new_id w)
    old_rl w m =
        ap (num next.rl) (old_id w m)
        ∙ get_or-set_ne s.rl (s.count + 1) (num s.new_id w) (num root_layer r) 0
            (omega (arith, n.ids w m))

    old_rlt : (w : ℕ) → Memᴰ w done → num next.rlt (num next.new_id w) ≡ num s.rlt (num s.new_id w)
    old_rlt w m =
        ap (num next.rlt) (old_id w m)
        ∙ get_or-set_ne s.rlt (s.count + 1) (num s.new_id w) (num located u) 0
            (omega (arith, n.ids w m))

    new_rl : num next.rl (num next.new_id u) ≡ num root_layer r
    new_rl = ap (num next.rl) own_id ∙ own_rl

    split : (w : ℕ) → Memᴰ w (u ∷ done) → (w ≡ u) ⊎ Memᴰ w done
    split w m = (Memᴰ-cons w u done).0 m

    old_less : (w : ℕ) → Memᴰ w done → num next.new_id w < num next.new_id u
    old_less w m = omega (arith, old_id w m, own_id, n.ids w m)

    apart : (w : ℕ) → Memᴰ w done → num next.new_id w ≢ num next.new_id u
    apart w m = omega (arith, old_less w m)

    -- The vertex that `decode` takes from the stack is numbered next.
    pub assign-Numbered : Numbered (u ∷ done) (num root_layer r) next
    assign-Numbered = record {
      size_id = length-set s.new_id u _ ∙ n.size_id;
      size_rl = length-set s.rl _ _ ∙ n.size_rl;
      size_rlt = length-set s.rlt _ _ ∙ n.size_rlt;
      vertices = λ w m. elim (split w m) [ inl e ↦ rw e vertex | inr o ↦ n.vertices w o ];
      room = omega (arith, fewer, n.room);
      ids = λ w m. elim (split w m) [
        | inl e ↦ rw e (omega (arith, own_id))
        | inr o ↦ omega (arith, old_id w o, n.ids w o)
      ];
      injective = λ w v mw mv e. elim (split w mw) [
        | inl a ↦ elim (split v mv) [
          | inl b ↦ a ∙ sym b
          | inr b ↦ absurd (apart v b (sym e ∙ ap (num next.new_id) a))
        ]
        | inr a ↦ elim (split v mv) [
          | inl b ↦ absurd (apart w a (e ∙ ap (num next.new_id) b))
          | inr b ↦ n.injective w v a b (sym (old_id w a) ∙ e ∙ old_id v b)
        ]
      ];
      onto = λ i l h. elim (Bool-cases (leb i s.count)) [
        | inl low ↦ let (w, m, e) = n.onto i l (ground arith) in (w, Memᴰ.tail m, old_id w m ∙ e)
        | inr above ↦ (u, Memᴰ.head refl, own_id ∙ (ground arith))
      ];
      ascends = λ w v h m t. elim (split v m) [
        | inl e ↦
            let before = starts w h (rw e at t) in (Memᴰ.tail before, rw e (old_less w before))
        | inr o ↦
            let (before, less) = n.ascends w v h o t in
            (Memᴰ.tail before, omega (arith, old_id w before, old_id v o))
      ];
      tree_label = λ w m. elim (split w m) [
        | inl e ↦ rw e (ap (num next.rlt) own_id ∙ own_rlt)
        | inr o ↦ old_rlt w o ∙ n.tree_label w o
      ];
      layer_label = λ w m. elim (split w m) [
        | inl e ↦ rw e (r, root, of_tree, new_rl)
        | inr o ↦ let (q, a, b, c) = n.layer_label w o in (q, a, b, old_rl w o ∙ c)
      ];
      capped = λ w m. elim (split w m) [
        | inl e ↦ rw e (omega (arith, new_rl))
        | inr o ↦ omega (arith, old_rl w o, n.capped w o)
      ];
      layers = λ w v mw mv less. elim (split w mw) [
        | inl a ↦ elim (split v mv) [
          | inl b ↦ absurd (omega (arith, ap (λ t. num next.rl (num next.new_id t)) (a ∙ sym b)))
          | inr b ↦ absurd (
              omega (
                arith,
                ap (λ t. num next.rl (num next.new_id t)) a,
                new_rl,
                old_rl v b,
                n.capped v b,
              ))
        ]
        | inr a ↦ elim (split v mv) [
          | inl b ↦ omega (arith, ap (num next.new_id) b, old_less w a)
          | inr b ↦
              let smaller = n.layers w v a b (omega (arith, old_rl w a, old_rl v b)) in
              omega (arith, old_id w a, old_id v b)
        ]
      ];
    }

-- more roots read, up to a higher layer
pub Numbered-raise :
    (im : Image) (located root_layer read read' done : List ℕ) (top top' : ℕ) (s : Numbering)
    → ((r : ℕ) → Memᴰ r read → Memᴰ r read')
    → top ≤ top'
    → Numbered im located read root_layer done top s
    → Numbered im located read' root_layer done top' s
Numbered-raise im located root_layer read read' done top top' s sub h n = record {
  size_id = n.size_id;
  size_rl = n.size_rl;
  size_rlt = n.size_rlt;
  vertices = n.vertices;
  room = n.room;
  ids = n.ids;
  injective = n.injective;
  onto = n.onto;
  ascends = n.ascends;
  tree_label = n.tree_label;
  layer_label = λ w m. let (r, a, b, c) = n.layer_label w m in (r, sub r a, b, c);
  capped = λ w m. omega (arith, n.capped w m);
  layers = n.layers;
}
