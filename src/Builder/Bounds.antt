-- ===== src/Builder/Bounds.antt =====
-- TripleBit/FindEntityID.cpp: the searches within bounds, and those of one ID, find the stored facts.
use mgtag.Prelude.{
  ℕ, ◌≡◌, inl, inr, refl, sym, ap, ◌∙◌, true, List, [], ◌∷◌, some, All, ◌==◌, ◌&&◌, Bool-cases,
  arith,
}
use mgtag.Bitmap.{Column, Bitmap, find_manager}
use mgtag.Bitmap.Columns.{IsPages}
use mgtag.LineIndex.Offset.{ColumnIndex}
use mgtag.Buffer.{Buffer, contents, page_ids}
use mgtag.Buffer.Insert.{IsAlloc}
use mgtag.Find.{Finder}
use mgtag.Find.Merges.{keys, flat}
use mgtag.Find.Positions.{IsPosition, select, first_id}
use mgtag.Find.Searches.{IsReady}
use mgtag.Find.Ranges.{
  uint_max, find_subject_id_between, find_object_id_between, find_subject_id_and_object_id_between,
  find_object_id_and_subject_id_between, find_subject_id_by_predicate_and_object,
  find_object_id_by_predicate_and_subject,
}
use mgtag.Find.Between.{search_subjects, search_objects, search_pairs}
use mgtag.Find.Others.{others}
use mgtag.Find.OneId.{prepare-IsPrepared, prepare_ids-IsPrepared, search_other_lem}
use mgtag.Builder.{Fact}
use mgtag.Builder.Managers.{with_predicate}
use mgtag.Builder.Passes.{OrderedFacts, AreWords, IsBuilt}
use mgtag.Builder.Answers.{
  stored_subjects, stored_objects, find_subject_id_by_predicate_lem,
  find_object_id_by_predicate_lem, find_subject_id_and_object_id_by_predicate_lem,
  find_object_id_and_subject_id_by_predicate_lem,
}

-- no bounds at all
select_all :
    (p : ℕ) (ts : List Fact)
    → All AreWords ts
    → select first_id 0 uint_max (with_predicate p ts) ≡ with_predicate p ts
unfolding select with_predicate
select_all p [] a = refl
select_all p ((k, q, o) ∷ ts) a = ground (arith, select_all p ts a.1)

no_bounds :
    (min_id max_id : ℕ)
    → ((min_id == 0) && (max_id == uint_max)) ≡ true
    → (min_id ≡ 0) × (max_id ≡ uint_max)
no_bounds min_id max_id e = ground arith

-- The bounds do not matter where there are none.
selected :
    (p min_id max_id : ℕ) (ts : List Fact)
    → All AreWords ts
    → ((min_id == 0) && (max_id == uint_max)) ≡ true
    → with_predicate p ts ≡ select first_id min_id max_id (with_predicate p ts)
selected p min_id max_id ts a e =
    let (low, high) = no_bounds min_id max_id e in
    sym (
      ap (λ i. select first_id i max_id (with_predicate p ts)) low
      ∙ ap (λ i. select first_id 0 i (with_predicate p ts)) high
      ∙ select_all p ts a)

module _ (page : ℕ → List ℕ) (pages : IsPages page) (alloc : ℕ → List ℕ) (law : IsAlloc alloc)
    (b : Bitmap) (ts us : List Fact) (built : IsBuilt page pages b ts us)
    (index : Column → ColumnIndex) (unset : ℕ) (p min_id max_id : ℕ) (f : Finder) (buffer : Buffer)
    (ready : IsReady f) (paged : buffer.size_per_page ≡ page_ids) where
  -- Over a bitmap buffer that holds facts of 32 bits in an order by subject, predicate and object, with buffers
  -- in whole pages, and where getOffsetByID gives, in both columns, the first pair not below the lower bound
  -- (NOT_FOUND only where there is none), the searches findSubjectIDByPredicate and
  -- findSubjectIDAndObjectIDByPredicate with bounds end: they leave the subjects, and the records of subject and
  -- object, of the facts with the predicate whose subject lies within the bounds, in their order.
  pub find_subjects_between_lem :
      OrderedFacts ts
      → All AreWords ts
      → IsPosition index unset (find_manager page b.by_subject p) (with_predicate p ts) min_id
      → ((g : Finder) × (c : Buffer) × (find_subject_id_between alloc index unset page b p min_id
              max_id f buffer
            ≡ some (g, c))
          × IsReady g
          × (contents c ≡ keys (select first_id min_id max_id (with_predicate p ts))))
        × ((g : Finder) × (c : Buffer) × (find_subject_id_and_object_id_between alloc index unset
                page b p min_id max_id f buffer
              ≡ some (g, c))
            × IsReady g
            × (contents c ≡ flat (select first_id min_id max_id (with_predicate p ts))))
  unfolding find_subject_id_between find_subject_id_and_object_id_between
  find_subjects_between_lem s words at =
      let stores = stored_subjects page pages alloc law b ts us built s p in
      elim (Bool-cases ((min_id == 0) && (max_id == uint_max))) [
        | inl e ↦
            let same = selected p min_id max_id ts words e in
            let (g, c, runs, blocks, ids) =
              find_subject_id_by_predicate_lem page pages alloc law b ts us built p f buffer ready
                paged s in
            let (h, d, runs2, blocks2, pairs) =
              find_subject_id_and_object_id_by_predicate_lem page pages alloc law b ts us built p f
                buffer ready paged s in
            rw e (
              (g, c, runs, blocks, ids ∙ ap keys same),
              (h, d, runs2, blocks2, pairs ∙ ap flat same),
            )
        | inr e ↦ rw e (
          search_subjects alloc law min_id max_id index unset _ _ f buffer stores at ready paged,
          search_pairs alloc law min_id max_id index unset _ _ f buffer stores at ready paged,
        )
      ]

  -- Over a bitmap buffer that holds facts of 32 bits in an order by object, predicate and subject, with buffers
  -- in whole pages, and where getOffsetByID gives, in both columns, the first pair not below the lower bound
  -- (NOT_FOUND only where there is none), the searches findObjectIDByPredicate and
  -- findObjectIDAndSubjectIDByPredicate with bounds end: they leave the objects, and the records of object and
  -- subject, of the facts with the predicate whose object lies within the bounds, in their order.
  pub find_objects_between_lem :
      OrderedFacts us
      → All AreWords us
      → IsPosition index unset (find_manager page b.by_object p) (with_predicate p us) min_id
      → ((g : Finder) × (c : Buffer) × (find_object_id_between alloc index unset page b p min_id
              max_id f buffer
            ≡ some (g, c))
          × IsReady g
          × (contents c ≡ keys (select first_id min_id max_id (with_predicate p us))))
        × ((g : Finder) × (c : Buffer) × (find_object_id_and_subject_id_between alloc index unset
                page b p min_id max_id f buffer
              ≡ some (g, c))
            × IsReady g
            × (contents c ≡ flat (select first_id min_id max_id (with_predicate p us))))
  unfolding find_object_id_between find_object_id_and_subject_id_between
  find_objects_between_lem s words at =
      let stores = stored_objects page pages alloc law b ts us built s p in
      elim (Bool-cases ((min_id == 0) && (max_id == uint_max))) [
        | inl e ↦
            let same = selected p min_id max_id us words e in
            let (g, c, runs, blocks, ids) =
              find_object_id_by_predicate_lem page pages alloc law b ts us built p f buffer ready
                paged s in
            let (h, d, runs2, blocks2, pairs) =
              find_object_id_and_subject_id_by_predicate_lem page pages alloc law b ts us built p f
                buffer ready paged s in
            rw e (
              (g, c, runs, blocks, ids ∙ ap keys same),
              (h, d, runs2, blocks2, pairs ∙ ap flat same),
            )
        | inr e ↦ rw e (
          search_objects alloc law min_id max_id index unset _ _ f buffer stores at ready paged,
          search_pairs alloc law min_id max_id index unset _ _ f buffer stores at ready paged,
        )
      ]

  -- Over a bitmap buffer that holds facts in both orders, with buffers in whole pages, and where getOffsetByID
  -- gives, in both columns, the first pair not below the ID given (NOT_FOUND only where there is none),
  -- findSubjectIDByPredicateAndObject and findObjectIDByPredicateAndSubject end: the first leaves the subjects
  -- within the bounds of the facts with the predicate and the object, the second the objects within the bounds
  -- of those with the predicate and the subject, each in the order of the facts.
  pub find_other_id_lem :
      (id : ℕ)
      → OrderedFacts ts
      → OrderedFacts us
      → IsPosition index unset (find_manager page b.by_object p) (with_predicate p us) id
      → IsPosition index unset (find_manager page b.by_subject p) (with_predicate p ts) id
      → ((g : Finder) × (c : Buffer) × (find_subject_id_by_predicate_and_object alloc index unset
              page b p id min_id max_id f buffer
            ≡ some (g, c))
          × IsReady g
          × (contents c ≡ others id min_id max_id (with_predicate p us)))
        × ((g : Finder) × (c : Buffer) × (find_object_id_by_predicate_and_subject alloc index unset
                page b p id min_id max_id f buffer
              ≡ some (g, c))
            × IsReady g
            × (contents c ≡ others id min_id max_id (with_predicate p ts)))
  unfolding find_subject_id_by_predicate_and_object find_object_id_by_predicate_and_subject
  find_other_id_lem id s r at_object at_subject = (
    search_other_lem alloc law id min_id max_id _ index unset _ _ f buffer prepare_ids-IsPrepared
        (stored_objects page pages alloc law b ts us built r p) at_object ready paged,
    search_other_lem alloc law id min_id max_id _ index unset _ _ f buffer prepare-IsPrepared
        (stored_subjects page pages alloc law b ts us built s p) at_subject ready paged,
  )
