-- ===== src/Reach/Build/Number/Forest.antt =====
-- Matrix/reach.cpp: `decode` numbers tree after tree.
use mathlib.Core.List.Memᴰ
use mgtag.Prelude.{
  ℕ, suc, ◌≤◌, ◌≡◌, ◌↔◌, ◌⊎◌, inl, inr, refl, ◌∙◌, List, [], ◌∷◌, some, Memᴰ, Memᴰ-cons, All, arith,
}
use mgtag.Reach.Graph.{Image, IsWhole}
use mgtag.Reach.Build.Degrees.{num}
use mgtag.Reach.Build.Positions.{NoDup}
use mgtag.Reach.Build.Unseen.{unseen_bound}
use mgtag.Reach.Build.Number.{Numbering, number_tree, number_trees}
use mgtag.Reach.Build.Number.Trees.{IsForest, root_iff}
use mgtag.Reach.Build.Number.Opened.{Opened}
use mgtag.Reach.Build.Number.Row.{SameIds-stack}
use mgtag.Reach.Build.Number.Numbered.{Numbered, Numbered-kept, Numbered-raise}
use mgtag.Reach.Build.Number.Tree.{Between, number_tree_lem}

-- The roots stand in the order of their layers.
abbrev pub Climbs : List ℕ → List ℕ → Type 0
Climbs root_layer [] = Unit {0}
Climbs root_layer (r ∷ rs) =
    All (λ q. num root_layer r ≤ num root_layer q) rs × Climbs root_layer rs

module _ (im : Image) (whole : IsWhole im) (located roots root_layer : List ℕ)
    (forest : IsForest im located roots) where
  -- the state between two trees, after those of the roots in `read`
  pub record Apart (read done : List ℕ) (tree top : ℕ) (s : Numbering) : Type 0 where
    pub opened : Opened im located roots tree done done (λ v. 0) s
    pub numbered : Numbered im located read root_layer done top s
    pub empty : s.stack ≡ []
    pub read_done : (q : ℕ) → Memᴰ q read → Memᴰ q done

  module _ (read done : List ℕ) (tree top r : ℕ) (s : Numbering) (a : Apart read done tree top s)
      (root : Memᴰ r roots) (unread : ¬ Memᴰ r read) (climbs : top ≤ num root_layer r) where
    -- only a tree of its own could hold the root
    new : ¬ Memᴰ r done
    new m =
        let (q, old, named, label) = a.numbered.layer_label r m in
        let same : r ≡ q = omega (arith, forest.named r root) in unread (rw same old)

    abbrev with_root : Numbering
    with_root = record s { stack = r ∷ s.stack }

    on_stack : (v : ℕ) → Memᴰ v (r ∷ s.stack) → v ≡ r
    on_stack v m = Memᴰ.eq_of_singleton (rw (a.empty) at m)

    pushed : Opened im located roots (suc r) done done (λ v. 0) with_root
    pushed =
        let o = a.opened in
        let vertex = forest.vertices r root in
        record {
          size_in = o.size_in;
          balance = o.balance;
          inside = λ w m. rw (on_stack w m) vertex;
          of_tree = λ w m. rw (on_stack w m) (forest.named r root);
          distinct = rw (a.empty) ((λ m. Memᴰ.not-nil m, tt));
          fresh = λ w m. rw (on_stack w m) new;
          counted = λ v m. elim m [
            | inl d ↦ o.counted v (inl d)
            | inr q ↦ rw (on_stack v q) (
                omega
                  (arith, o.balance r vertex, (root_iff im located roots forest r vertex).0 root))
          ];
          queued = λ v h z. elim (o.queued v h z) [
            | inl q ↦ inl q
            | inr (inl d) ↦ inr (inl d)
            | inr (inr t) ↦ inr (inr (Memᴰ.tail t))
          ];
          starts = λ v w m h t. elim m [
            | inl d ↦ o.starts v w (inl d) h t
            | inr q ↦ absurd ((forest.sources r vertex).0 root w h (rw (on_stack v q) at t))
          ];
        }

    tree_lem :
        (done' : List ℕ) × (s' : Numbering) × (number_tree im located
            (suc (suc im.max_id))
            (num root_layer r)
            with_root
          ≡ some s')
        × Apart (r ∷ read) done' (suc r) (num root_layer r) s'
    tree_lem =
        let started : Between im whole located roots (r ∷ read) root_layer r (Memᴰ.head refl) done
            with_root =
          record {
            opened = pushed;
            numbered =
                Numbered-kept im located (r ∷ read) root_layer done (num root_layer r) s with_root
                  (SameIds-stack s (r ∷ s.stack))
                  (Numbered-raise im located root_layer read (r ∷ read) done top (num root_layer r)
                    s (λ q m. Memᴰ.tail m) climbs a.numbered);
          } in
        let bound = unseen_bound done (suc im.max_id) 0 in
        let (done', s', ends, b, empty, all) =
          number_tree_lem im whole located roots (r ∷ read) root_layer r (Memᴰ.head refl)
            (suc (suc im.max_id)) done with_root started (omega arith) in
        (
          done',
          s',
          ends,
          record {
            opened = b.opened;
            numbered = b.numbered;
            empty = empty;
            read_done = λ q m. all q (elim ((Memᴰ-cons q r read).0 m) [
              | inl e ↦ inr (Memᴰ.head e)
              | inr old ↦ inl (a.read_done q old)
            ]);
          },
        )

  number_trees_go :
      (r : ℕ) (rs : List ℕ) (s t : Numbering)
      → number_tree im located
          (suc (suc im.max_id))
          (num root_layer r)
          (record s { stack = r ∷ s.stack })
        ≡ some t
      → number_trees im located root_layer (r ∷ rs) s ≡ number_trees im located root_layer rs t
  unfolding number_trees
  number_trees_go r rs s t e = rw (e, number_trees) refl

  pub number_trees_lem :
      (rs read done : List ℕ) (tree top : ℕ) (s : Numbering)
      → ((q : ℕ) → Memᴰ q rs → Memᴰ q roots × (¬ Memᴰ q read))
      → NoDup rs
      → All (λ q. top ≤ num root_layer q) rs
      → Climbs root_layer rs
      → Apart read done tree top s
      → (read' done' : List ℕ) × (tree' top' : ℕ) × (s' : Numbering) × (number_trees im located
            root_layer rs s
          ≡ some s')
        × Apart read' done' tree' top' s'
        × ((q : ℕ) → Memᴰ q read' ↔ (Memᴰ q rs ⊎ Memᴰ q read))
  unfolding number_trees
  number_trees_lem [] read done tree top s of_roots d low climbs a = (
    read,
    done,
    tree,
    top,
    s,
    refl,
    a,
    λ q. (inr, λ m. elim m [ inl n ↦ absurd (Memᴰ.not-nil n) | inr old ↦ old ]),
  )
  number_trees_lem (r ∷ rs) read done tree top s of_roots d low climbs a =
      let (root, unread) = of_roots r (Memᴰ.head refl) in
      let (done1, s1, ends, a1) = tree_lem read done tree top r s a root unread low.0 in
      let (read', done', tree', top', s', rest, a', all) =
        number_trees_lem rs (r ∷ read) done1 (suc r) (num root_layer r) s1
          (λ q m. (
            (of_roots q (Memᴰ.tail m)).0,
            λ old. elim ((Memᴰ-cons q r read).0 old) [
              | inl e ↦ d.0 (rw e at m)
              | inr o ↦ (of_roots q (Memᴰ.tail m)).1 o
            ],
          ))
          d.1 climbs.0 climbs.1 a1 in
      (
        read',
        done',
        tree',
        top',
        s',
        number_trees_go r rs s s1 ends ∙ rest,
        a',
        λ q. ground (arith, all q, Memᴰ-cons q r rs, Memᴰ-cons q r read),
      )
