-- ===== src/Compact/Laws.antt =====
-- TripleBit/EntityIDBuffer.cpp, TripleBit/SortMergeJoin.cpp: filtering a block in place leaves the records
-- that are kept, since the cells written back never reach a record that is still to be read.
use native.Mathlib.Nat.{add-zero, mul-le-mul_right}
use native.Mathlib.Numerals.{add-one}
use mgtag.Prelude.{
  ℕ, zero, suc, ◌+◌, ◌*◌, ◌≤◌, ◌<◌, ◌≡◌, ◌≢◌, inl, inr, refl, ap, ap₂, ◌∙◌, Bool, true, false, List,
  [], ◌∷◌, ◌++◌, some, append-nil, append_assoc, Bool-cases, length, length-append, length-set,
  take, get_or, get_or-set_ne, take-set_next, take-set_before, set, leb, ◌==◌, arith,
}
use mgtag.Compact.{copy_to, Page, start, read, write_back, emit, kept}

pub length-copy_to :
    (cells : List ℕ) (at : ℕ) (xs : List ℕ) → length (copy_to cells at xs) ≡ length cells
unfolding copy_to
length-copy_to cells at [] = refl
length-copy_to cells at (x ∷ xs) =
    length-copy_to (set cells at x) (at + 1) xs ∙ length-set cells at x

-- A copy behind the first `at` cells keeps these.
pub take-copy_to :
    (cells : List ℕ) (at : ℕ) (xs : List ℕ)
    → at + length xs ≤ length cells
    → take (at + length xs) (copy_to cells at xs) ≡ take at cells ++ xs
unfolding copy_to
take-copy_to cells at [] h = rw (add-zero, append-nil)
take-copy_to cells at (x ∷ xs) h =
    let shift : at + suc (length xs) ≡ at + 1 + length xs = omega arith in
    rw shift (
      take-copy_to (set cells at x) (at + 1) xs (omega (arith, length-set cells at x))
      ∙ rw (add-one, take-set_next at cells x (omega arith), append_assoc))

pub take-copy_to_before :
    (cells : List ℕ) (n at : ℕ) (xs : List ℕ) → n ≤ at → take n (copy_to cells at xs) ≡ take n cells
unfolding copy_to
take-copy_to_before cells n at [] h = refl
take-copy_to_before cells n at (x ∷ xs) h =
    take-copy_to_before (set cells at x) n (at + 1) xs (omega arith)
    ∙ take-set_before cells n at x h

pub get_or-copy_to :
    (cells : List ℕ) (at k : ℕ) (xs : List ℕ)
    → at + length xs ≤ k
    → get_or (copy_to cells at xs) k 0 ≡ get_or cells k 0
unfolding copy_to
get_or-copy_to cells at k [] h = refl
get_or-copy_to cells at k (x ∷ xs) h =
    get_or-copy_to (set cells at x) (at + 1) k xs (omega arith)
    ∙ get_or-set_ne cells at k x 0 (omega arith)

length-read : (cells : List ℕ) (n at : ℕ) → length (read cells n at) ≡ n
unfolding read
length-read cells zero at = refl
length-read cells (suc n) at = ap suc (length-read cells n (at + 1))

read_same :
    (xs ys : List ℕ) (n at : ℕ)
    → ((k : ℕ) → at ≤ k → get_or xs k 0 ≡ get_or ys k 0)
    → read xs n at ≡ read ys n at
unfolding read
read_same xs ys zero at h = refl
read_same xs ys (suc n) at h =
    ap₂ (λ x r. x ∷ r) (h at (omega arith)) (read_same xs ys n (at + 1) (λ k hk. h k (omega arith)))

-- The state of the filtering after the records before `i`.
pub record Compacted (old : List ℕ) (cap n : ℕ) (test : ℕ → Bool) (i : ℕ) (p : Page) : Type 0 where
  pub behind : p.size + length p.temp ≤ i * n
  pub inside : i * n ≤ length old
  pub same_length : length p.cells ≡ length old
  pub unread : (k : ℕ) → i * n ≤ k → get_or p.cells k 0 ≡ get_or old k 0
  pub result : take p.size p.cells ++ p.temp ≡ kept old n test i
  pub records : ℕ
  pub whole : length p.temp ≡ records * n
  pub fits : length p.temp ≤ cap

pub start-Compacted :
    (old : List ℕ) (cap n : ℕ) (test : ℕ → Bool) → Compacted old cap n test 0 (start old)
unfolding start kept
start-Compacted old cap n test = record {
  behind = omega arith;
  inside = omega arith;
  same_length = refl;
  unread = λ k h. refl;
  result = refl;
  records = 0;
  whole = omega arith;
  fits = omega arith;
}

module _ (old : List ℕ) (cap n : ℕ) (test : ℕ → Bool) where
  -- the page written back, at any time
  pub write_back-Compacted :
      (i : ℕ) (p : Page) → Compacted old cap n test i p → Compacted old cap n test i (write_back p)
  unfolding write_back
  write_back-Compacted i p c = record {
    behind = omega (arith, c.behind);
    inside = c.inside;
    same_length = length-copy_to p.cells p.size p.temp ∙ c.same_length;
    unread = λ k h. get_or-copy_to p.cells p.size k p.temp (omega (arith, c.behind)) ∙ c.unread k h;
    result =
        append-nil _
        ∙ take-copy_to p.cells p.size p.temp (omega (arith, c.behind, c.inside, c.same_length))
        ∙ c.result;
    records = 0;
    whole = omega arith;
    fits = omega arith;
  }

  pub skip-Compacted :
      (i : ℕ) (p : Page)
      → test i ≡ false
      → i * n + n ≤ length old
      → Compacted old cap n test i p
      → Compacted old cap n test (suc i) p
  unfolding kept
  skip-Compacted i p dropped bound c = record {
    behind = omega (arith, c.behind);
    inside = omega arith;
    same_length = c.same_length;
    unread = λ k h. c.unread k (omega arith);
    result = rw dropped c.result;
    records = c.records;
    whole = c.whole;
    fits = c.fits;
  }

  emitted :
      (i : ℕ) (q : Page)
      → test i ≡ true
      → i * n + n ≤ length old
      → length q.temp + n ≤ cap
      → Compacted old cap n test i q
      → Compacted old cap n test (suc i) (record q { temp = q.temp ++ read q.cells n (i * n) })
  unfolding kept
  emitted i q keep bound room c =
      let grown : length (q.temp ++ read q.cells n (i * n)) ≡ length q.temp + n =
        length-append q.temp _ ∙ ap (λ t. length q.temp + t) (length-read q.cells n (i * n)) in
      record {
        behind = omega (arith, c.behind);
        inside = omega arith;
        same_length = c.same_length;
        unread = λ k h. c.unread k (omega arith);
        result =
            rw (
              keep,
              ← c.result,
              append_assoc,
              read_same q.cells old n (i * n) (λ k h. c.unread k h),
            );
        records = suc c.records;
        whole = omega (arith, c.whole);
        fits = omega arith;
      }

  module _ (pages : ℕ) (even : cap ≡ pages * n) (holds : n ≤ cap) where
    next_fits : (r : ℕ) → r * n < cap → r * n + n ≤ cap
    next_fits r h = elim (Bool-cases (leb pages r)) [
      | inl many ↦
          let over : pages * n ≤ r * n = mul-le-mul_right n (ground arith) in absurd (omega arith)
      | inr few ↦
          let under : suc r * n ≤ pages * n = mul-le-mul_right n (ground arith) in omega arith
    ]

    -- A record that the test keeps goes to the page, and never past it.
    pub emit-Compacted :
        (i : ℕ) (p : Page)
        → test i ≡ true
        → i * n + n ≤ length old
        → Compacted old cap n test i p
        → (p' : Page) × (emit cap n p i ≡ some p') × Compacted old cap n test (suc i) p'
    unfolding emit write_back
    emit-Compacted i p keep bound c = elim (Bool-cases (length p.temp == cap)) [
      | inl full ↦
          let w = write_back-Compacted i p c in
          let room : length (write_back p).temp + n ≤ cap = omega arith in
          (_, rw full (ground arith), emitted i (write_back p) keep bound room w)
      | inr part ↦
          let apart : (length p.temp == cap) ≡ false → length p.temp ≢ cap = ground arith in
          let small : length p.temp < cap = omega (arith, c.fits, apart part) in
          let below : c.records * n < cap = omega (arith, c.whole) in
          let room : length p.temp + n ≤ cap = omega (arith, next_fits c.records below, c.whole) in
          (_, rw part (ground arith), emitted i p keep bound room c)
    ]
