-- ===== src/Builder/Stored.antt =====
-- TripleBit/TripleBitBuilder.cpp, TripleBit/FindEntityID.cpp: the searches after `resolveTriples`.
use mgtag.Prelude.{ℕ, ◌≡◌, List, ◌∷◌, map, some, All}
use mgtag.Bitmap.Columns.{IsPages}
use mgtag.Buffer.{Buffer, contents, page_ids}
use mgtag.Buffer.Insert.{IsAlloc}
use mgtag.Find.{
  Finder, find_subject_id_and_object_id_by_predicate, find_object_id_and_subject_id_by_predicate,
}
use mgtag.Find.Merges.{flat}
use mgtag.Find.Searches.{IsReady}
use mgtag.Builder.{Fact, Pass, swap_fact, resolve_triples}
use mgtag.Builder.Managers.{with_predicate}
use mgtag.Builder.Passes.{
  OrderedFacts, AreWords, distinct, distinct-OrderedFacts, no_facts, resolve_triples_lem,
}
use mgtag.Builder.Answers.{
  find_subject_id_and_object_id_by_predicate_lem, find_object_id_and_subject_id_by_predicate_lem,
}

-- From an empty bitmap buffer and facts of 32 bits, one at least, sorted by subject and sorted by object,
-- resolveTriples ends, and on what it leaves, with pages filled with zeros and buffers in whole pages, both
-- searches without bounds end for each predicate: findSubjectIDAndObjectIDByPredicate leaves the pairs of
-- subject and object of its facts, each once, in the order of the first sorting, and
-- findObjectIDAndSubjectIDByPredicate the pairs of object and subject, each once, in that of the second.
pub resolve_triples-find :
    (page : ℕ → List ℕ) (pages : IsPages page) (alloc : ℕ → List ℕ) (law : IsAlloc alloc)
    (t u : Fact) (ts us : List Fact) (f : Finder) (buffer : Buffer)
    → All AreWords (t ∷ ts)
    → All AreWords (map swap_fact (u ∷ us))
    → OrderedFacts (t ∷ ts)
    → OrderedFacts (map swap_fact (u ∷ us))
    → IsReady f
    → buffer.size_per_page ≡ page_ids
    → (first : Pass) × (second : Pass) × (resolve_triples page no_facts (t ∷ ts) (u ∷ us)
        ≡ some (first, second))
      × ((p : ℕ)
          → ((g : Finder) × (c : Buffer) × (find_subject_id_and_object_id_by_predicate alloc page
                  second.bitmap p f buffer
                ≡ some (g, c))
              × IsReady g
              × (contents c ≡ flat (with_predicate p (distinct (t ∷ ts)))))
            × ((g : Finder) × (c : Buffer) × (find_object_id_and_subject_id_by_predicate alloc page
                    second.bitmap p f buffer
                  ≡ some (g, c))
                × IsReady g
                × (contents c ≡ flat (with_predicate p (distinct (map swap_fact (u ∷ us)))))))
resolve_triples-find page pages alloc law t u ts us f buffer words more_words s r ready paged =
    let facts = distinct (t ∷ ts) in
    let swapped = distinct (map swap_fact (u ∷ us)) in
    let (first, second, runs, built) = resolve_triples_lem page pages t u ts us words more_words in
    (
      first,
      second,
      runs,
      λ p. (
        find_subject_id_and_object_id_by_predicate_lem page pages alloc law second.bitmap facts
            swapped built p f buffer ready paged (distinct-OrderedFacts (t ∷ ts) s),
        find_object_id_and_subject_id_by_predicate_lem page pages alloc law second.bitmap facts
            swapped built p f buffer ready paged (distinct-OrderedFacts (map swap_fact (u ∷ us)) r),
      ),
    )
