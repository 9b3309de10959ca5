-- ===== src/Builder/Answers.antt =====
-- TripleBit/FindEntityID.cpp: the searches of a predicate find the facts that `resolveTriples` stored.
use mgtag.Prelude.{ℕ, ◌≡◌, List, some}
use mgtag.Bitmap.{Bitmap, find_manager}
use mgtag.Bitmap.Columns.{IsPages}
use mgtag.Buffer.{Buffer, contents, page_ids}
use mgtag.Buffer.Insert.{IsAlloc}
use mgtag.Find.{
  Finder, find_subject_id_by_predicate, find_object_id_by_predicate,
  find_subject_id_and_object_id_by_predicate, find_object_id_and_subject_id_by_predicate,
}
use mgtag.Find.Merges.{flat, keys}
use mgtag.Find.Searches.{IsReady, Stores, search_ids, search_records}
use mgtag.Builder.{Fact}
use mgtag.Builder.Managers.{with_predicate}
use mgtag.Builder.Passes.{OrderedFacts, with_predicate-Ordered, IsBuilt}

module _ (page : ℕ → List ℕ) (pages : IsPages page) (alloc : ℕ → List ℕ) (law : IsAlloc alloc)
    (b : Bitmap) (ts us : List Fact) (built : IsBuilt page pages b ts us) where
  pub stored_subjects :
      OrderedFacts ts → (p : ℕ) → Stores (find_manager page b.by_subject p) (with_predicate p ts)
  stored_subjects s p = record {
    low = (built.subjects p).low;
    high = (built.subjects p).high;
    ordered = with_predicate-Ordered p ts s;
  }

  pub stored_objects :
      OrderedFacts us → (p : ℕ) → Stores (find_manager page b.by_object p) (with_predicate p us)
  stored_objects s p = record {
    low = (built.objects p).low;
    high = (built.objects p).high;
    ordered = with_predicate-Ordered p us s;
  }

  module _ (p : ℕ) (f : Finder) (buffer : Buffer) (ready : IsReady f)
      (paged : buffer.size_per_page ≡ page_ids) where
    -- Over a bitmap buffer that holds facts in an order by subject, predicate and object, and with buffers in
    -- whole pages, findSubjectIDByPredicate ends, and leaves in the buffer the subject of each fact with the
    -- predicate, in the order of the facts: once for each of its facts.
    pub find_subject_id_by_predicate_lem :
        OrderedFacts ts
        → (g : Finder) × (c : Buffer) × (find_subject_id_by_predicate alloc page b p f buffer
            ≡ some (g, c))
          × IsReady g
          × (contents c ≡ keys (with_predicate p ts))
    unfolding find_subject_id_by_predicate
    find_subject_id_by_predicate_lem s =
        search_ids alloc law _ (with_predicate p ts) f buffer (stored_subjects s p) ready paged

    -- Over a bitmap buffer that holds facts in an order by object, predicate and subject, and with buffers in
    -- whole pages, findObjectIDByPredicate ends, and leaves in the buffer the object of each fact with the
    -- predicate, in the order of the facts: once for each of its facts.
    pub find_object_id_by_predicate_lem :
        OrderedFacts us
        → (g : Finder) × (c : Buffer) × (find_object_id_by_predicate alloc page b p f buffer
            ≡ some (g, c))
          × IsReady g
          × (contents c ≡ keys (with_predicate p us))
    unfolding find_object_id_by_predicate
    find_object_id_by_predicate_lem s =
        search_ids alloc law _ (with_predicate p us) f buffer (stored_objects s p) ready paged

    -- Over a bitmap buffer that holds facts in an order by subject, predicate and object, and with buffers in
    -- whole pages, findSubjectIDAndObjectIDByPredicate ends, and leaves the records of subject and object of
    -- the facts with the predicate, in their order.
    pub find_subject_id_and_object_id_by_predicate_lem :
        OrderedFacts ts
        → (g : Finder) × (c : Buffer) × (find_subject_id_and_object_id_by_predicate alloc page b p f
              buffer
            ≡ some (g, c))
          × IsReady g
          × (contents c ≡ flat (with_predicate p ts))
    unfolding find_subject_id_and_object_id_by_predicate
    find_subject_id_and_object_id_by_predicate_lem s =
        search_records alloc law _ (with_predicate p ts) f buffer (stored_subjects s p) ready paged

    -- Over a bitmap buffer that holds facts in an order by object, predicate and subject, and with buffers in
    -- whole pages, findObjectIDAndSubjectIDByPredicate ends, and leaves the records of object and subject of
    -- the facts with the predicate, in their order.
    pub find_object_id_and_subject_id_by_predicate_lem :
        OrderedFacts us
        → (g : Finder) × (c : Buffer) × (find_object_id_and_subject_id_by_predicate alloc page b p f
              buffer
            ≡ some (g, c))
          × IsReady g
          × (contents c ≡ flat (with_predicate p us))
    unfolding find_object_id_and_subject_id_by_predicate
    find_object_id_and_subject_id_by_predicate_lem s =
        search_records alloc law _ (with_predicate p us) f buffer (stored_objects s p) ready paged
