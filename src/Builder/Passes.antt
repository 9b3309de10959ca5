-- ===== src/Builder/Passes.antt =====
-- TripleBit/TripleBitBuilder.cpp: the passes of `resolveTriples` store the distinct facts, in their order.
use mgtag.Prelude.{
  ℕ, ◌^◌, ◌≤◌, ◌<◌, ◌≡◌, ◌⊎◌, inl, inr, refl, sym, ap, ◌∙◌, subst, true, false, List, [], ◌∷◌, ◌++◌,
  map, some, append_assoc, append-nil, All, ◌==◌, Bool-cases, if◌then◌else◌, arith,
}
use mgtag.Bitmap.{Manager, Bitmap, insert_triple}
use mgtag.Bitmap.Columns.{IsPages}
use mgtag.Find.Merges.{NotBelow, Ordered}
use mgtag.Builder.{
  Fact, Pass, same_fact, insert_fact, next_fact, rounds, run_pass, swap_fact, resolve_triples,
}
use mgtag.Builder.Managers.{with_predicate, KeepAll, new-KeepAll, insert_pair-KeepAll}

-- the facts without those that are like the one before them
unfoldable pub distinct_from : Fact → List Fact → List Fact
distinct_from last [] = []
distinct_from last (t ∷ ts) =
    let rest = distinct_from last ts in
    let new = distinct_from t ts in if same_fact last t then rest else t ∷ new

abbrev pub distinct : List Fact → List Fact
distinct [] = []
distinct (t ∷ ts) = t ∷ distinct_from t ts

abbrev pub FactNotBelow : Fact → Fact → Type 0
FactNotBelow (k, p, o) (l, q, r) = (k < l) ⊎ ((k ≡ l) × ((p < q) ⊎ ((p ≡ q) × (o ≤ r))))

-- in the order of `compare123`, the first ID, the predicate, the other ID
abbrev pub OrderedFacts : List Fact → Type 0
OrderedFacts [] = Unit {0}
OrderedFacts (t ∷ ts) = All (FactNotBelow t) ts × OrderedFacts ts

abbrev pub AreWords : Fact → Type 0
AreWords (k, p, o) = (k < 2 ^ 32) × (o < 2 ^ 32)

All-distinct_from {ℓ} :
    (P : Fact → Type ℓ) (last : Fact) (ts : List Fact) → All P ts → All P (distinct_from last ts)
unfolding distinct_from
All-distinct_from P last [] a = tt
All-distinct_from P last (t ∷ ts) a = elim (Bool-cases (same_fact last t)) [
  | inl e ↦ rw e (All-distinct_from P last ts a.1)
  | inr e ↦ rw e (a.0, All-distinct_from P t ts a.1)
]

distinct_from-OrderedFacts :
    (last : Fact) (ts : List Fact) → OrderedFacts ts → OrderedFacts (distinct_from last ts)
unfolding distinct_from
distinct_from-OrderedFacts last [] s = tt
distinct_from-OrderedFacts last (t ∷ ts) s = elim (Bool-cases (same_fact last t)) [
  | inl e ↦ rw e (distinct_from-OrderedFacts last ts s.1)
  | inr e ↦ rw e (All-distinct_from (FactNotBelow t) t ts s.0, distinct_from-OrderedFacts t ts s.1)
]

pub distinct-OrderedFacts : (ts : List Fact) → OrderedFacts ts → OrderedFacts (distinct ts)
distinct-OrderedFacts [] s = tt
distinct-OrderedFacts (t ∷ ts) s =
    (All-distinct_from (FactNotBelow t) t ts s.0, distinct_from-OrderedFacts t ts s.1)

with_predicate_from :
    (p k o : ℕ) (ts : List Fact)
    → All (FactNotBelow (k, p, o)) ts
    → All (NotBelow (k, o)) (with_predicate p ts)
unfolding with_predicate
with_predicate_from p k o [] a = tt
with_predicate_from p k o ((l, q, r) ∷ ts) a = ground (arith, with_predicate_from p k o ts a.1)

pub with_predicate-Ordered :
    (p : ℕ) (ts : List Fact) → OrderedFacts ts → Ordered (with_predicate p ts)
unfolding with_predicate
with_predicate-Ordered p [] s = tt
with_predicate-Ordered p ((k, q, o) ∷ ts) s = elim (Bool-cases (q == p)) [
  | inl e ↦
      let same : q ≡ p = ground arith in
      rw e (
        with_predicate_from p k o ts (subst (λ r. All (FactNotBelow (k, r, o)) ts) same s.0),
        with_predicate-Ordered p ts s.1,
      )
  | inr e ↦ rw e (with_predicate-Ordered p ts s.1)
]

-- the managers that a pass fills
abbrev pub side : ℕ → Bitmap → List (ℕ × Manager)
side f b = if f == 0 then b.by_subject else b.by_object

abbrev pub other_side : ℕ → Bitmap → List (ℕ × Manager)
other_side f b = if f == 0 then b.by_object else b.by_subject

pub next_fact_same :
    (page : ℕ → List ℕ) (f : ℕ) (s : Pass) (t : Fact)
    → same_fact s.last t ≡ true
    → next_fact page f s t ≡ s
unfolding next_fact
next_fact_same page f s t e = rw e refl

module _ (page : ℕ → List ℕ) (pages : IsPages page) (f : ℕ) where
  insert_fact_lem :
      (b : Bitmap) (ts : List Fact) (t : Fact)
      → KeepAll page pages (side f b) ts
      → AreWords t
      → KeepAll page pages (side f (insert_fact page f b t)) (ts ++ t ∷ [])
        × (other_side f (insert_fact page f b t) ≡ other_side f b)
  unfolding insert_fact insert_triple
  insert_fact_lem b ts (k, p, o) h w = elim (Bool-cases (f == 0)) [
    | inl e ↦ rw e (insert_pair-KeepAll page pages b.by_subject ts k p o (rw e at h) w.0 w.1, refl)
    | inr e ↦ rw e (insert_pair-KeepAll page pages b.by_object ts k p o (rw e at h) w.0 w.1, refl)
  ]

  next_fact_bitmap :
      (s : Pass) (t : Fact)
      → same_fact s.last t ≡ false
      → ((next_fact page f s t).bitmap ≡ insert_fact page f s.bitmap t)
        × ((next_fact page f s t).last ≡ t)
  unfolding next_fact
  next_fact_bitmap s t e = rw e (refl, refl)

  rounds_lem :
      (ts done : List Fact) (s : Pass)
      → KeepAll page pages (side f s.bitmap) done
      → All AreWords ts
      → KeepAll page pages (side f (rounds page f s ts).bitmap) (done ++ distinct_from s.last ts)
        × (other_side f (rounds page f s ts).bitmap ≡ other_side f s.bitmap)
  unfolding rounds distinct_from
  rounds_lem [] done s h a =
      (subst (λ d. KeepAll page pages (side f s.bitmap) d) (sym (append-nil done)) h, refl)
  rounds_lem (t ∷ ts) done s h a = elim (Bool-cases (same_fact s.last t)) [
    | inl e ↦
        let (rest, same_rest) = rounds_lem ts done s h a.1 in
        let step : rounds page f (next_fact page f s t) ts ≡ rounds page f s ts =
          ap (λ r. rounds page f r ts) (next_fact_same page f s t e) in
        rw e (
          subst (λ z. KeepAll page pages (side f z.bitmap) (done ++ distinct_from s.last ts))
              (sym step) rest,
          ap (λ z. other_side f z.bitmap) step ∙ same_rest,
        )
    | inr e ↦
        let (filled, last) = next_fact_bitmap s t e in
        let (keeps, same) = insert_fact_lem s.bitmap done t h a.0 in
        let (rest, same_rest) =
          rounds_lem ts (done ++ t ∷ []) (next_fact page f s t)
            (subst (λ b. KeepAll page pages (side f b) (done ++ t ∷ [])) (sym filled) keeps) a.1 in
        rw e (
          subst
              (λ d. KeepAll page pages (side f (rounds page f (next_fact page f s t) ts).bitmap) d)
              (append_assoc done (t ∷ []) (distinct_from (next_fact page f s t).last ts)
                ∙ ap (λ l. done ++ t ∷ distinct_from l ts) last)
              rest,
          same_rest ∙ ap (other_side f) filled ∙ same,
        )
  ]

  -- A pass that starts with no facts on its side ends with the distinct facts there, and leaves the other
  -- side alone.
  pub run_pass_lem :
      (b : Bitmap) (t : Fact) (ts : List Fact)
      → KeepAll page pages (side f b) []
      → All AreWords (t ∷ ts)
      → (s : Pass) × (run_pass page f b (t ∷ ts) ≡ some s)
        × KeepAll page pages (side f s.bitmap) (distinct (t ∷ ts))
        × (other_side f s.bitmap ≡ other_side f b)
  unfolding run_pass
  run_pass_lem b t ts h a =
      let (keeps, same) = insert_fact_lem b [] t h a.0 in
      let s : Pass = record {
        bitmap = insert_fact page f b t;
        last = t;
        count0 = 1;
        count1 = 1;
        statis = [];
        pair_statis = [];
      } in
      let (rest, same_rest) = rounds_lem ts (t ∷ []) s keeps a.1 in
      (rounds page f s ts, refl, rest, same_rest ∙ same)

-- The managers hold the facts of both orders.
pub record IsBuilt (page : ℕ → List ℕ) (pages : IsPages page) (b : Bitmap) (ts us : List Fact)
    : Type 0 where
  pub subjects : KeepAll page pages b.by_subject ts
  pub objects : KeepAll page pages b.by_object us

abbrev pub no_facts : Bitmap
no_facts = record { by_subject = []; by_object = [] }

resolve_steps :
    (page : ℕ → List ℕ) (b : Bitmap) (ts us : List Fact) (first second : Pass)
    → run_pass page 0 b ts ≡ some first
    → run_pass page 1 first.bitmap (map swap_fact us) ≡ some second
    → resolve_triples page b ts us ≡ some (first, second)
unfolding resolve_triples
resolve_steps page b ts us first second e f = ground arith

-- From an empty bitmap buffer, facts of 32 bits in both orders, one at least, and pages filled with zeros,
-- `resolveTriples` ends: for each predicate, the managers for subjects then hold the facts of the first pass,
-- and those for objects the facts of the second one, with subject and object exchanged, each in the order of
-- its pass and without those that are like the one before them.
pub resolve_triples_lem :
    (page : ℕ → List ℕ) (pages : IsPages page) (t u : Fact) (ts us : List Fact)
    → All AreWords (t ∷ ts)
    → All AreWords (map swap_fact (u ∷ us))
    → (first : Pass) × (second : Pass) × (resolve_triples page no_facts (t ∷ ts) (u ∷ us)
        ≡ some (first, second))
      × IsBuilt page pages second.bitmap (distinct (t ∷ ts)) (distinct (map swap_fact (u ∷ us)))
resolve_triples_lem page pages t u ts us a c =
    let (first, e, keeps, same) =
      run_pass_lem page pages 0 no_facts t ts (new-KeepAll page pages) a in
    let (second, f, more_keeps, more_same) =
      run_pass_lem page pages 1 first.bitmap (swap_fact u) (map swap_fact us)
        (subst (λ ms. KeepAll page pages ms []) (sym same) (new-KeepAll page pages)) c in
    (
      first,
      second,
      resolve_steps page no_facts (t ∷ ts) (u ∷ us) first second e f,
      record {
        subjects = subst (λ ms. KeepAll page pages ms (distinct (t ∷ ts))) (sym more_same) keeps;
        objects = more_keeps;
      },
    )
