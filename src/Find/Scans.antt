-- ===== src/Find/Scans.antt =====
-- TripleBit/FindEntityID.cpp: a loop over a column ends, and inserts what its body makes of each pair.
use mgtag.Prelude.{
  ℕ, zero, suc, ◌≤◌, ◌<◌, ◌≡◌, refl, sym, ap, ◌∙◌, List, [], ◌∷◌, ◌++◌, Option, some, append_assoc,
  append-nil, All, length, length-append, ltb, true, false, Bool, inl, inr, Bool-cases, drop,
  drop-append, if◌then◌else◌, arith,
}
use mgtag.Chunk.{get_insert_chars}
use mgtag.Chunk.Codec.{get_insert_chars-cons}
use mgtag.Bitmap.{Column, get_start_ptr, behind}
use mgtag.Bitmap.Pairs.{bytes_of_pairs, Holds, start-Holds}
use mgtag.Buffer.{Buffer, contents}
use mgtag.Buffer.Insert.{IsValid}
use mgtag.Find.{Turn, more, halt, loop, scan, scan_from}

-- `u` is `t` with the IDs appended
pub record Inserted (t u : Buffer) (ids : List ℕ) : Type 0 where
  pub valid : IsValid u
  pub filled : contents u ≡ contents t ++ ids
  pub same_count : u.id_count ≡ t.id_count

pub Inserted-none : (t : Buffer) → IsValid t → Inserted t t []
Inserted-none t v = record { valid = v; filled = sym (append-nil (contents t)); same_count = refl }

pub Inserted-trans :
    (t u w : Buffer) (xs ys : List ℕ) → Inserted t u xs → Inserted u w ys → Inserted t w (xs ++ ys)
Inserted-trans t u w xs ys a b = record {
  valid = b.valid;
  filled = b.filled ∙ ap (λ k. k ++ ys) a.filled ∙ append_assoc (contents t) xs ys;
  same_count = b.same_count ∙ a.same_count;
}

unfoldable pub collect : (ℕ × ℕ → List ℕ) → List (ℕ × ℕ) → List ℕ
collect out [] = []
collect out (p ∷ ps) = out p ++ collect out ps

-- the pairs before the first one that fails the test
unfoldable pub take_while : (ℕ × ℕ → Bool) → List (ℕ × ℕ) → List (ℕ × ℕ)
take_while test [] = []
take_while test (p ∷ ps) = let rest = take_while test ps in if test p then p ∷ rest else []

-- On the bytes of a pair that fits and passes the test, with no byte of a y behind them, the body inserts what `out`
-- tells, and moves behind the pair.
unfoldable pub Emits :
    (ℕ × ℕ → Type 0) → (List ℕ → Buffer → Option Turn) → (ℕ × ℕ → Bool) → (ℕ × ℕ → List ℕ) → Type 0
Emits Fits body test out =
    (x y c : ℕ) (rest : List ℕ) (t : Buffer)
    → Fits (x, y)
    → c < 128
    → IsValid t
    → test (x, y) ≡ true
    → (u : Buffer) × (body (get_insert_chars x y ++ c ∷ rest) t ≡ some (more (c ∷ rest) u))
      × Inserted t u (out (x, y))

-- On the bytes of one that fails it, the body breaks.
unfoldable pub Breaks : (ℕ × ℕ → Type 0) → (List ℕ → Buffer → Option Turn) → (ℕ × ℕ → Bool) → Type 0
Breaks Fits body test =
    (x y c : ℕ) (rest : List ℕ) (t : Buffer)
    → Fits (x, y)
    → c < 128
    → test (x, y) ≡ false
    → body (get_insert_chars x y ++ c ∷ rest) t ≡ some (halt t)

pub first_byte :
    (ps : List (ℕ × ℕ)) (rest : List ℕ)
    → (c : ℕ) × (tail : List ℕ) × (bytes_of_pairs ps ++ 0 ∷ rest ≡ c ∷ tail) × (c < 128)
unfolding bytes_of_pairs
first_byte [] rest = (0, rest, refl, omega arith)
first_byte ((x, y) ∷ ps) rest =
    let (c, tail, e, low) = get_insert_chars-cons x y in
    (
      c,
      (tail ++ bytes_of_pairs ps) ++ 0 ∷ rest,
      ap (λ t. (t ++ bytes_of_pairs ps) ++ 0 ∷ rest) e,
      low,
    )

abbrev pub always : ℕ × ℕ → Bool
always p = true

pub take_while-always : (ps : List (ℕ × ℕ)) → take_while always ps ≡ ps
unfolding take_while
take_while-always [] = refl
take_while-always (p ∷ ps) = ap (λ t. p ∷ t) (take_while-always ps)

pub always-Breaks :
    (Fits : ℕ × ℕ → Type 0) (body : List ℕ → Buffer → Option Turn) → Breaks Fits body always
unfolding Breaks
always-Breaks Fits body x y c rest t pair low e = cc

pub bytes_of_pairs-append :
    (ps qs : List (ℕ × ℕ)) → bytes_of_pairs (ps ++ qs) ≡ bytes_of_pairs ps ++ bytes_of_pairs qs
unfolding bytes_of_pairs
bytes_of_pairs-append [] qs = refl
bytes_of_pairs-append ((x, y) ∷ ps) qs =
    ap (λ k. get_insert_chars x y ++ k) (bytes_of_pairs-append ps qs)
    ∙ sym (append_assoc (get_insert_chars x y) (bytes_of_pairs ps) (bytes_of_pairs qs))

module _ (body : List ℕ → Buffer → Option Turn) where
  pub loop_step :
      (fuel stop : ℕ) (reader r : List ℕ) (t u : Buffer)
      → ltb stop (length reader) ≡ true
      → body reader t ≡ some (more r u)
      → loop body (suc fuel) stop reader t ≡ loop body fuel stop r u
  unfolding loop
  loop_step fuel stop reader r t u e f = ground arith

  loop_break :
      (fuel stop : ℕ) (reader : List ℕ) (t : Buffer)
      → ltb stop (length reader) ≡ true
      → body reader t ≡ some (halt t)
      → loop body (suc fuel) stop reader t ≡ some t
  unfolding loop
  loop_break fuel stop reader t e f = ground arith

  loop_end :
      (fuel stop : ℕ) (reader : List ℕ) (t : Buffer)
      → length reader ≤ stop
      → loop body (suc fuel) stop reader t ≡ some t
  unfolding loop
  loop_end fuel stop reader t h = ground arith

module _ (Fits : ℕ × ℕ → Type 0) (body : List ℕ → Buffer → Option Turn) (test : ℕ × ℕ → Bool)
    (out : ℕ × ℕ → List ℕ) (emits : Emits Fits body test out) (breaks : Breaks Fits body test) where
  loop_lem :
      (ps : List (ℕ × ℕ)) (fuel : ℕ) (rest : List ℕ) (t : Buffer)
      → All Fits ps
      → IsValid t
      → length (bytes_of_pairs ps ++ 0 ∷ rest) < fuel
      → (u : Buffer) × (loop body fuel (suc (length rest)) (bytes_of_pairs ps ++ 0 ∷ rest) t
          ≡ some u)
        × Inserted t u (collect out (take_while test ps))
  unfolding bytes_of_pairs collect take_while Emits Breaks
  loop_lem [] zero rest t a v enough = absurd (omega arith)
  loop_lem [] (suc fuel) rest t a v enough =
      (t, loop_end body fuel (suc (length rest)) (0 ∷ rest) t (omega arith), Inserted-none t v)
  loop_lem (p ∷ ps) zero rest t a v enough = absurd (omega arith)
  loop_lem ((x, y) ∷ ps) (suc fuel) rest t a v enough =
      let (c, tail, e, low) = first_byte ps rest in
      let (d, more_bytes, f, _) = get_insert_chars-cons x y in
      let memory : bytes_of_pairs ((x, y) ∷ ps) ++ 0 ∷ rest ≡ get_insert_chars x y ++ c ∷ tail =
        append_assoc (get_insert_chars x y) (bytes_of_pairs ps) (0 ∷ rest)
        ∙ ap (λ k. get_insert_chars x y ++ k) e in
      let whole = ap (λ (k : List ℕ). length k) memory in
      let behind_it = ap (λ (k : List ℕ). length k) e in
      let own = ap (λ (k : List ℕ). length k) f in
      let parts = length-append (get_insert_chars x y) (c ∷ tail) in
      let others = length-append (bytes_of_pairs ps) (0 ∷ rest) in
      elim (Bool-cases (test (x, y))) [
        | inl passes ↦
            let (u, turn, ins) = emits x y c tail t a.0 low v passes in
            let (w, runs, more_ins) = loop_lem ps fuel rest u a.1 ins.valid (omega arith) in
            rw passes (
              w,
              ap (λ k. loop body (suc fuel) (suc (length rest)) k t) memory
                  ∙ loop_step body fuel (suc (length rest)) (get_insert_chars x y ++ c ∷ tail)
                      (c ∷ tail) t u (ground arith) turn
                  ∙ ap (λ k. loop body fuel (suc (length rest)) k u) (sym e)
                  ∙ runs,
              Inserted-trans t u w (out (x, y)) (collect out (take_while test ps)) ins more_ins,
            )
        | inr fails ↦ rw fails (
          t,
          ap (λ k. loop body (suc fuel) (suc (length rest)) k t) memory
              ∙ loop_break body fuel (suc (length rest)) (get_insert_chars x y ++ c ∷ tail) t
                  (ground arith) (breaks x y c tail t a.0 low fails),
          Inserted-none t v,
        )
      ]

  -- A loop over a column that holds pairs ends, and inserts what its body makes of each of them, up to the
  -- first at which it breaks.
  pub scan_lem :
      (c : Column) (ps : List (ℕ × ℕ)) (t : Buffer)
      → Holds c ps
      → All Fits ps
      → IsValid t
      → (u : Buffer) × (scan body c t ≡ some u) × Inserted t u (collect out (take_while test ps))
  unfolding scan
  scan_lem c ps t h a v =
      let (rest, start, stop) = start-Holds c ps h in
      let (u, runs, ins) =
        loop_lem ps (suc (length (bytes_of_pairs ps ++ 0 ∷ rest))) rest t a v (omega arith) in
      (
        u,
        ap (λ k. loop body (suc (length k)) (behind c) k t) start
            ∙ ap
                (λ n.
                  loop body (suc (length (bytes_of_pairs ps ++ 0 ∷ rest))) n
                    (bytes_of_pairs ps ++ 0 ∷ rest) t)
                stop
            ∙ runs,
        ins,
      )

  -- So does one from the offset of a pair on.
  pub scan_from_lem :
      (c : Column) (ps qs : List (ℕ × ℕ)) (t : Buffer)
      → Holds c (ps ++ qs)
      → All Fits qs
      → IsValid t
      → (u : Buffer) × (scan_from body c (some (length (bytes_of_pairs ps))) t ≡ some u)
        × Inserted t u (collect out (take_while test qs))
  unfolding scan_from
  scan_from_lem c ps qs t h a v =
      let (rest, start, stop) = start-Holds c (ps ++ qs) h in
      let off = length (bytes_of_pairs ps) in
      let memory = bytes_of_pairs qs ++ 0 ∷ rest in
      let from : drop off (get_start_ptr c) ≡ memory =
        ap (drop off) (
          start
          ∙ ap (λ k. k ++ 0 ∷ rest) (bytes_of_pairs-append ps qs)
          ∙ append_assoc (bytes_of_pairs ps) (bytes_of_pairs qs) (0 ∷ rest))
        ∙ drop-append (bytes_of_pairs ps) memory in
      let (u, runs, ins) = loop_lem qs (suc (length memory)) rest t a v (omega arith) in
      (
        u,
        ap (λ k. loop body (suc (length k)) (behind c) k t) from
            ∙ ap (λ n. loop body (suc (length memory)) n memory t) stop
            ∙ runs,
        ins,
      )
