-- ===== src/Builder/Statis.antt =====
-- TripleBit/TripleBitBuilder.cpp: what `resolveTriples` hands to `addStatis` of the counts of an ID.
use mgtag.Prelude.{
  ℕ, ◌+◌, ◌^◌, ◌≤◌, ◌<◌, ◌≡◌, inl, inr, refl, sym, ap, ◌∙◌, subst, false, List, [], ◌∷◌, ◌++◌, map,
  some, append_assoc, append-nil, All, All-append, length, length-append, Memᴰ-concat, ◌==◌,
  Bool-cases, arith,
}
use mgtag.Bitmap.{Bitmap}
use mgtag.Builder.{Fact, Pass, same_fact, insert_fact, count_fact, next_fact, rounds, run_pass}
use mgtag.Builder.Passes.{next_fact_same, FactNotBelow, OrderedFacts, distinct, distinct_from}
use mgtag.Builder.Counts.{
  count_key, Counted, count_key-concat, count_key-length, count_key_above, old_key, new_key,
  map-concat, same_count, Ascending-concat, below, up_to, kept_right,
}

module _ (page : ℕ → List ℕ) (f : ℕ) where
  -- the pass after a new fact
  abbrev after : Pass → Fact → Pass
  after s t = record (count_fact page f s t) { bitmap = insert_fact page f s.bitmap t; last = t }

  Counted-old :
      (s : Pass) (done : List Fact) (k p o : ℕ)
      → Counted s done
      → k ≡ s.last.0
      → length done + 1 < 2 ^ 32
      → Counted (after s (k, p, o)) (done ++ (k, p, o) ∷ [])
  Counted-old s done k p o h e small =
      let (statis, count) = old_key page f s (k, p, o) (ground arith) in
      record {
        once = rw statis h.once;
        before = rw statis (below s.last.0 k s.statis (omega arith) h.before);
        right = rw statis (kept_right s done k p o (omega arith) h);
        last_count =
            let step = count_key-concat k done k p o in
            let bound = count_key-length s.last.0 done in
            let here : s.count0 ≡ count_key k done =
              h.last_count ∙ ap (λ i. count_key i done) (sym e) in
            rw count (ground arith);
        highest =
            All-append (λ t. t.0 ≤ k) done ((k, p, o) ∷ [])
              (up_to s.last.0 k done (omega arith) h.highest) (omega arith, tt);
        covered = λ i c. rw statis (elim (Bool-cases (k == i)) [
          | inl q ↦ inl (ground arith)
          | inr q ↦
              let step = count_key-concat i done k p o in
              elim (h.covered i (ground arith)) [ inl l ↦ inl (l ∙ sym e) | inr m ↦ inr m ]
        ]);
      }

  Counted-new :
      (s : Pass) (done : List Fact) (k p o : ℕ)
      → Counted s done
      → s.last.0 < k
      → Counted (after s (k, p, o)) (done ++ (k, p, o) ∷ [])
  Counted-new s done k p o h e =
      let (statis, count) = new_key page f s (k, p, o) (ground arith) in
      let names = map-concat s.statis s.last.0 s.count0 in
      record {
        once = rw (statis, names) (Ascending-concat s.statis s.last.0 h.once h.before);
        before = rw statis (
            All-append (λ x. x.0 < k) s.statis ((s.last.0, s.count0) ∷ [])
              (below s.last.0 k s.statis (omega arith) h.before) (e, tt));
        right = rw statis (
            All-append (λ x. x.1 ≡ count_key x.0 (done ++ (k, p, o) ∷ [])) s.statis
              ((s.last.0, s.count0) ∷ []) (kept_right s done k p o (omega arith) h)
              (h.last_count ∙ sym (same_count done k p o s.last.0 e), tt));
        last_count =
            let step = count_key-concat k done k p o in
            let none_yet = count_key_above k s.last.0 done h.highest e in rw count (ground arith);
        highest =
            All-append (λ t. t.0 ≤ k) done ((k, p, o) ∷ [])
              (up_to s.last.0 k done (omega arith) h.highest) (omega arith, tt);
        covered = λ i c.
            rw (statis, names)
              (elim (Bool-cases (k == i)) [
                | inl q ↦ inl (ground arith)
                | inr q ↦
                    let step = count_key-concat i done k p o in
                    elim (h.covered i (ground arith)) [
                      | inl l ↦ inr ((Memᴰ-concat i s.last.0 (map (λ x. x.0) s.statis)).1 (inr l))
                      | inr m ↦ inr ((Memᴰ-concat i s.last.0 (map (λ x. x.0) s.statis)).1 (inl m))
                    ]
              ]);
      }

  Counted-next :
      (s : Pass) (done : List Fact) (t : Fact)
      → Counted s done
      → FactNotBelow s.last t
      → length done + 1 < 2 ^ 32
      → Counted (after s t) (done ++ t ∷ [])
  Counted-next s done (k, p, o) h below_it small = elim (Bool-cases (k == s.last.0)) [
    | inl e ↦ Counted-old s done k p o h (ground arith) small
    | inr e ↦ Counted-new s done k p o h (ground arith)
  ]

  next_fact_new :
      (s : Pass) (t : Fact) → same_fact s.last t ≡ false → next_fact page f s t ≡ after s t
  unfolding next_fact
  next_fact_new s t e = rw e refl

  rounds-Counted :
      (ts done : List Fact) (s : Pass)
      → Counted s done
      → All (FactNotBelow s.last) ts
      → OrderedFacts ts
      → length done + length ts < 2 ^ 32
      → Counted (rounds page f s ts) (done ++ distinct_from s.last ts)
  unfolding rounds distinct_from
  rounds-Counted [] done s h a o small = subst (λ d. Counted s d) (sym (append-nil done)) h
  rounds-Counted (t ∷ ts) done s h a o small = elim (Bool-cases (same_fact s.last t)) [
    | inl e ↦ rw (e, next_fact_same page f s t e) (rounds-Counted ts done s h a.1 o.1 (omega arith))
    | inr e ↦
        let rest =
          rounds-Counted ts (done ++ t ∷ []) (after s t) (Counted-next s done t h a.0 (omega arith))
            o.0 o.1 (omega (arith, length-append done (t ∷ []))) in
        rw (e, next_fact_new s t e)
          (subst (λ d. Counted (rounds page f (after s t) ts) d)
            (append_assoc done (t ∷ []) (distinct_from t ts)) rest)
  ]

  -- A pass over ordered facts, fewer than 2 ^ 32, ends, and has then told addStatis, once for each ID and in
  -- their order, the counts of the distinct facts of all IDs that it is sorted by but the last one, whose
  -- count is still in count0.
  pub statis_lem :
      (b : Bitmap) (t : Fact) (ts : List Fact)
      → OrderedFacts (t ∷ ts)
      → length (t ∷ ts) < 2 ^ 32
      → (s : Pass) × (run_pass page f b (t ∷ ts) ≡ some s) × Counted s (distinct (t ∷ ts))
  unfolding run_pass count_key
  statis_lem b (k, p, o) ts a small =
      let s : Pass = record {
        bitmap = insert_fact page f b (k, p, o);
        last = (k, p, o);
        count0 = 1;
        count1 = 1;
        statis = [];
        pair_statis = [];
      } in
      let start : Counted s ((k, p, o) ∷ []) = record {
        before = tt;
        once = tt;
        right = tt;
        last_count = ground arith;
        highest = (omega arith, tt);
        covered = λ i c. inl (ground arith);
      } in
      (rounds page f s ts, refl, rounds-Counted ts ((k, p, o) ∷ []) s start a.0 a.1 (omega arith))
