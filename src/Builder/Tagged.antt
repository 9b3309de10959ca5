-- ===== src/Builder/Tagged.antt =====
-- TripleBit/FindEntityID.cpp: the searches that add the predicate to each ID, over the stored facts.
use mgtag.Prelude.{ℕ, true, false, List}
use mgtag.Bitmap.{Bitmap, Column, find_manager}
use mgtag.Bitmap.Columns.{IsPages}
use mgtag.LineIndex.Offset.{ColumnIndex}
use mgtag.Buffer.{Buffer}
use mgtag.Buffer.Insert.{IsAlloc}
use mgtag.Buffer.Append.{HasRoom}
use mgtag.Find.{Finder}
use mgtag.Find.Ranges.{
  find_subject_id_and_predicate_id, find_predicate_id_and_subject_id,
  find_object_id_and_predicate_id, find_predicate_id_and_object_id,
  find_subject_id_and_predicate_id_between, find_object_id_and_predicate_id_between,
}
use mgtag.Find.Positions.{IsPosition, select, first_id}
use mgtag.Find.TaggedBetween.{search_tagged_from_lem}
use mgtag.Find.Searches.{IsReady}
use mgtag.Find.Tagged.{Leaves, search_tagged_lem}
use mgtag.Builder.{Fact}
use mgtag.Builder.Managers.{with_predicate}
use mgtag.Builder.Passes.{OrderedFacts, IsBuilt}
use mgtag.Builder.Answers.{stored_subjects, stored_objects}

-- Over a bitmap buffer that holds facts in both orders, with buffers in whole pages, the four searches
-- findSubjectIDAndPredicateIDByPredicate, findPredicateIDAndSubjectIDByPredicate and the two of objects,
-- without bounds, end: behind what the buffer held, which stays, they leave a record of ID and predicate for
-- each fact with the predicate, first for the facts whose subject, or object, is not the bigger ID of the
-- two, and then for the others, each in the order of the facts.
pub find_tagged_lem :
    (page : ℕ → List ℕ) (pages : IsPages page) (alloc : ℕ → List ℕ) (law : IsAlloc alloc)
    (b : Bitmap) (ts us : List Fact) (built : IsBuilt page pages b ts us) (p : ℕ) (f : Finder)
    (buffer : Buffer)
    → OrderedFacts ts
    → OrderedFacts us
    → IsReady f
    → HasRoom buffer
    → Leaves
        (find_subject_id_and_predicate_id alloc page b p f buffer)
        buffer
        true
        p
        (with_predicate p ts)
      × Leaves
          (find_predicate_id_and_subject_id alloc page b p f buffer)
          buffer
          false
          p
          (with_predicate p ts)
      × Leaves
          (find_object_id_and_predicate_id alloc page b p f buffer)
          buffer
          true
          p
          (with_predicate p us)
      × Leaves
          (find_predicate_id_and_object_id alloc page b p f buffer)
          buffer
          false
          p
          (with_predicate p us)
unfolding find_subject_id_and_predicate_id find_predicate_id_and_subject_id
    find_object_id_and_predicate_id find_predicate_id_and_object_id
find_tagged_lem page pages alloc law b ts us built p f buffer s r ready room =
    let subjects = stored_subjects page pages alloc law b ts us built s p in
    let objects = stored_objects page pages alloc law b ts us built r p in
    (
      search_tagged_lem alloc law true p _ (with_predicate p ts) f buffer subjects ready room,
      search_tagged_lem alloc law false p _ (with_predicate p ts) f buffer subjects ready room,
      search_tagged_lem alloc law true p _ (with_predicate p us) f buffer objects ready room,
      search_tagged_lem alloc law false p _ (with_predicate p us) f buffer objects ready room,
    )

-- Over a bitmap buffer that holds facts in both orders, with buffers in whole pages, and where getOffsetByID
-- gives, in both columns, the first pair not below the lower bound (NOT_FOUND only where there is none),
-- findSubjectIDAndPredicateIDByPredicate and findObjectIDAndPredicateIDByPredicate with bounds end: behind what
-- the buffer held, which stays, they leave a record of ID and predicate for each fact with the predicate whose
-- subject, or object, lies within the bounds, first for those that are not the bigger ID of their fact, and then
-- for the others, each in the order of the facts.
pub find_tagged_between_lem :
    (page : ℕ → List ℕ) (pages : IsPages page) (alloc : ℕ → List ℕ) (law : IsAlloc alloc)
    (b : Bitmap) (ts us : List Fact) (built : IsBuilt page pages b ts us)
    (index : Column → ColumnIndex) (unset : ℕ) (p min_id max_id : ℕ) (f : Finder) (buffer : Buffer)
    → OrderedFacts ts
    → OrderedFacts us
    → IsPosition index unset (find_manager page b.by_subject p) (with_predicate p ts) min_id
    → IsPosition index unset (find_manager page b.by_object p) (with_predicate p us) min_id
    → IsReady f
    → HasRoom buffer
    → Leaves
        (find_subject_id_and_predicate_id_between alloc index unset page b p min_id max_id f buffer)
        buffer
        true
        p
        (select first_id min_id max_id (with_predicate p ts))
      × Leaves
          (find_object_id_and_predicate_id_between alloc index unset page b p min_id max_id f
            buffer)
          buffer
          true
          p
          (select first_id min_id max_id (with_predicate p us))
unfolding find_subject_id_and_predicate_id_between find_object_id_and_predicate_id_between
find_tagged_between_lem page pages alloc law b ts us built index unset p min_id max_id f buffer s r
      at_subject at_object ready room =
    (
      search_tagged_from_lem alloc law p min_id max_id index unset _ (with_predicate p ts) f buffer
          (stored_subjects page pages alloc law b ts us built s p) at_subject ready room,
      search_tagged_from_lem alloc law p min_id max_id index unset _ (with_predicate p us) f buffer
          (stored_objects page pages alloc law b ts us built r p) at_object ready room,
    )
