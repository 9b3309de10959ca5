-- ===== src/Reach/Answers.antt =====
-- Matrix/reach.cpp: the answer of `process` over the labels that `construct_index` leaves.
use mgtag.Prelude.{ℕ, suc, ◌^◌, ◌≤◌, ◌<◌, ◌≡◌, ◌⊎◌, ◌↔◌, sym, ap, ◌∙◌, List, some, Memᴰ, IsSorted}
use mgtag.Reach.Graph.{Image, targets, IsWhole, Walk, here, step}
use mgtag.Reach.Labels.{Labels, layer_of, tree_of, end_of, excp_of, cross_of}
use mgtag.Reach.Query.{answer}
use mgtag.Reach.Query.Laws.{IsId}
use mgtag.Reach.Query.Down.{Decides}
use mgtag.Reach.Query.Answer.{NewPath, IsIndexOf, answer-Decides}
use mgtag.Reach.Build.Counts.{edges_into}
use mgtag.Reach.Build.Positions.{NoDup}
use mgtag.Reach.Build.Construct.{construct_index}
use mgtag.Reach.Build.Sweep.Kept.{some_inj}
use mgtag.Reach.Build.Sweep.Labelled.{IsLabelled}
use mgtag.Reach.Build.Sweep.Constructs.{construct_index_lem}

-- The laws of an index that are about the intervals, the exceptions and the entry points.
pub record IsCovered (lb : Labels) (n : ℕ) (R : ℕ → ℕ → Type 0) : Type 0 where
  -- Intervals of one tree nest only along a path.
  pub nested :
      (a b : ℕ)
      → IsId n a
      → IsId n b
      → tree_of lb a ≡ tree_of lb b
      → a ≤ b
      → end_of lb b ≤ end_of lb a
      → R a b
  -- The exceptions of `a` are reached in its tree, and account for all that its interval misses.
  pub excp_sound :
      (a e : ℕ)
      → IsId n a
      → Memᴰ e (excp_of lb a)
      → IsId n e × R a e × (tree_of lb e ≡ tree_of lb a)
  pub excp_complete :
      (a b : ℕ)
      → R a b
      → tree_of lb a ≡ tree_of lb b
      → (end_of lb b ≤ end_of lb a)
        ⊎ ((e : ℕ) × Memᴰ e (excp_of lb a) × (e ≤ b) × (end_of lb b ≤ end_of lb e))
  -- The entry points of `a` are reached in higher layers, and each path to one passes through one.
  pub cross_sound :
      (a c : ℕ)
      → IsId n a
      → Memᴰ c (cross_of lb a)
      → IsId n c × R a c × (layer_of lb a < layer_of lb c)
  pub cross_complete :
      (a b : ℕ) → R a b → layer_of lb a < layer_of lb b → (c : ℕ) × Memᴰ c (cross_of lb a) × R c b
  pub excp_sorted : (a : ℕ) → IsSorted (excp_of lb a)
  pub cross_sorted : (a : ℕ) → IsSorted (cross_of lb a)

Walk-append : (im : Image) (x y z : ℕ) → Walk im x y → Walk im y z → Walk im x z
Walk-append im x y _ p here = p
Walk-append im x y _ p (step {u} q e) = step (Walk-append im x y u p q) e

NewPath-trans :
    (im : Image) (lb : Labels)
    → IsLabelled im lb
    → (a b c : ℕ) → NewPath im lb a b
    → NewPath im lb b c
    → NewPath im lb a c
NewPath-trans im lb labelled a b c p q =
    let same : p.to ≡ q.from =
      labelled.injective p.to q.from p.to_le q.from_le (p.to_id ∙ sym q.from_id) in
    record {
      from = p.from;
      to = q.to;
      from_le = p.from_le;
      to_le = q.to_le;
      from_id = p.from_id;
      to_id = q.to_id;
      walk = Walk-append im p.from q.from q.to (rw same at p.walk) q.walk;
    }

labelled-IsIndexOf :
    (im : Image) (lb : Labels)
    → IsLabelled im lb
    → IsCovered lb (suc im.max_id) (NewPath im lb)
    → IsIndexOf im lb
labelled-IsIndexOf im lb labelled covered = record {
  ids = labelled.ids;
  injective = labelled.injective;
  laws = record {
    trans = NewPath-trans im lb labelled;
    ascends = λ a b p. rw (← p.from_id, ← p.to_id) (labelled.ascends p.from p.to p.from_le p.walk);
    stays = λ a b p same.
        let law = labelled.stays p.from p.to p.from_le p.walk in
        ap (tree_of lb) (sym p.from_id)
        ∙ law (ap (layer_of lb) p.from_id ∙ same ∙ ap (layer_of lb) (sym p.to_id))
        ∙ ap (tree_of lb) p.to_id;
    nested = covered.nested;
    excp_sound = covered.excp_sound;
    excp_complete = covered.excp_complete;
    cross_sound = covered.cross_sound;
    cross_complete = covered.cross_complete;
    excp_sorted = covered.excp_sorted;
    cross_sorted = covered.cross_sorted;
  };
  levels = labelled.levels;
}

module _ (im : Image) (whole : IsWhole im)
    (small : (v : ℕ) → v ≤ im.max_id → edges_into (targets im) v (suc im.max_id) 0 < 2 ^ 32)
    (qsort : List ℕ → List ℕ) (same_members : (xs : List ℕ) (a : ℕ) → Memᴰ a (qsort xs) ↔ Memᴰ a xs)
    (keeps_distinct : (xs : List ℕ) → NoDup xs → NoDup (qsort xs)) (rank : ℕ → ℕ)
    (acyclic : (u v : ℕ) → u ≤ im.max_id → Memᴰ v (targets im u) → rank u < rank v) where
  -- On an acyclic graph, if the intervals, the exceptions and the entry points that construct_index leaves meet
  -- their laws, the answer to a query over its labels is given, and is true exactly when a walk leads from the
  -- one vertex to the other; this if qsort keeps the members and repeats none, and the counts of edges fit a word.
  pub answer-construct_index :
      (lb : Labels)
      → construct_index qsort im ≡ some lb
      → IsCovered lb (suc im.max_id) (NewPath im lb)
      → (x y cnt : ℕ) → x ≤ im.max_id
      → y ≤ im.max_id
      → Decides (Walk im x y) (answer lb x y cnt)
  answer-construct_index lb e covered x y cnt hx hy =
      let (lb', e', labelled) =
        construct_index_lem im whole small qsort same_members keeps_distinct rank acyclic in
      let same : lb' ≡ lb = some_inj lb' lb (sym e' ∙ e) in
      answer-Decides im lb (labelled-IsIndexOf im lb (rw same at labelled) covered) x y hx hy cnt
