-- ===== src/Chunk/Backward.antt =====
-- TripleBit/BitmapBuffer.cpp: `skipBackward` finds the start of the pair in which a pointer stands.
use mgtag.Prelude.{
  ℕ, zero, suc, ◌/◌, ◌%◌, ◌≤◌, ◌<◌, ◌≡◌, inl, inr, refl, sym, subst, ap, ◌∙◌, List, [], ◌∷◌, ◌++◌,
  none, some, All, ltb, Bool-cases, replicate, arith, ◌>>=◌, All-left,
}
use mgtag.Chunk.{
  x_bytes, write_x_id, y_bytes, write_y_id, back_zeros, back_y, back_x, skip_backward,
}

-- the pointer moved forward over bytes
unfoldable pub back : List ℕ → List ℕ → List ℕ
back [] reader = reader
back (c ∷ cs) reader = back cs (c ∷ reader)

back-append : (xs ys reader : List ℕ) → back (xs ++ ys) reader ≡ back ys (back xs reader)
unfolding back
back-append [] ys reader = refl
back-append (x ∷ xs) ys reader = back-append xs ys (x ∷ reader)

over_zeros :
    (n : ℕ) (reader : List ℕ) → back_zeros (back (replicate n 0) reader) ≡ back_zeros reader
unfolding back back_zeros
over_zeros zero reader = refl
over_zeros (suc n) reader = over_zeros n (0 ∷ reader)

stop_zeros :
    (ys : List ℕ) (c : ℕ) (reader : List ℕ)
    → 128 ≤ c
    → All (λ y. 128 ≤ y) ys
    → back_zeros (back ys (c ∷ reader)) ≡ some (back ys (c ∷ reader))
unfolding back back_zeros
stop_zeros [] c reader h a = ground arith
stop_zeros (y ∷ ys) c reader h a = stop_zeros ys y (c ∷ reader) a.0 a.1

over_y : (ys reader : List ℕ) → All (λ y. 128 ≤ y) ys → back_y (back ys reader) ≡ back_y reader
unfolding back back_y
over_y [] reader a = refl
over_y (y ∷ ys) reader a = over_y ys (y ∷ reader) a.1 ∙ ground arith

stop_y :
    (xs : List ℕ) (c : ℕ) (reader : List ℕ)
    → c < 128
    → All (λ x. x < 128) xs
    → back_y (back xs (c ∷ reader)) ≡ some (back xs (c ∷ reader))
unfolding back back_y
stop_y [] c reader h a = ground arith
stop_y (x ∷ xs) c reader h a = stop_y xs x (c ∷ reader) a.0 a.1

over_x : (xs reader : List ℕ) → All (λ x. x < 128) xs → back_x (back xs reader) ≡ back_x reader
unfolding back back_x
over_x [] reader a = refl
over_x (x ∷ xs) reader a = over_x xs (x ∷ reader) a.1 ∙ ground arith

stop_x : (d : ℕ) (reader : List ℕ) → 128 ≤ d → back_x (d ∷ reader) ≡ some (d ∷ reader)
unfolding back_x
stop_x d reader h = ground arith

x_bytes-low :
    (fuel v : ℕ)
    → v < fuel
    → (c : ℕ) × (cs : List ℕ) × (x_bytes fuel v ≡ c ∷ cs) × (c < 128) × All (λ x. x < 128) cs
unfolding x_bytes
x_bytes-low zero v h = absurd (omega arith)
x_bytes-low (suc fuel) v h = elim (Bool-cases (ltb v 128)) [
  | inl e ↦ rw e (v % 128, [], refl, omega arith, tt)
  | inr e ↦
      let (c, cs, f, low, all) = x_bytes-low fuel (v / 128) (ground arith) in
      rw (e, f) (v % 128, c ∷ cs, refl, omega arith, (low, all))
]

y_bytes-high : (fuel v : ℕ) → All (λ y. 128 ≤ y) (y_bytes fuel v)
unfolding y_bytes
y_bytes-high zero v = tt
y_bytes-high (suc fuel) v = elim (Bool-cases (ltb v 128)) [
  | inl e ↦ rw e (omega arith, tt)
  | inr e ↦ rw e (omega arith, y_bytes-high fuel (v / 128))
]

steps :
    (r s t m : List ℕ)
    → back_zeros r ≡ some s
    → back_y s ≡ some t
    → back_x t ≡ back_x m
    → skip_backward r ≡ back_x m
unfolding skip_backward
steps r s t m e f g = rw (e, ◌>>=◌, f) g

-- Over the bytes of the pair to what the last loop makes of the bytes before it.
skip_backward_over :
    (x y n c : ℕ) (front tail memory : List ℕ)
    → write_y_id y ≡ c ∷ front ++ tail
    → skip_backward (back (write_x_id x ++ c ∷ front ++ replicate n 0) memory) ≡ back_x memory
unfolding write_x_id write_y_id back
skip_backward_over x y n c front tail memory split =
    let (x0, xs, ex, low, all_low) = x_bytes-low (suc x) x (omega arith) in
    let all_high =
      All-left (λ z. 128 ≤ z) (c ∷ front) tail
        (subst (λ k. All (λ z. 128 ≤ z) k) split (y_bytes-high (suc y) y)) in
    let whole = x_bytes (suc x) x ++ c ∷ front in
    let start = back (x_bytes (suc x) x) memory in
    steps (back (whole ++ replicate n 0) memory) (back front (c ∷ start)) start memory
      (ap back_zeros (back-append whole (replicate n 0) memory)
        ∙ over_zeros n (back whole memory)
        ∙ ap back_zeros (back-append (x_bytes (suc x) x) (c ∷ front) memory)
        ∙ stop_zeros front c start all_high.0 all_high.1)
      (over_y (c ∷ front) start all_high
        ∙ ap (λ k. back_y (back k memory)) ex
        ∙ stop_y xs x0 memory low all_low
        ∙ ap (λ k. some (back k memory)) (sym ex))
      (ap (λ k. back_x (back k memory)) ex ∙ over_x (x0 ∷ xs) memory (low, all_low))

-- From any byte of the y of a pair, and from zero bytes behind the pair, skipBackward moves to the first
-- byte of the pair if a byte of another pair's y stands before it; for the first pair of a memory it does
-- not stop there, but reads on before the memory.
pub skip_backward_lem :
    (x y n c d : ℕ) (front tail more : List ℕ)
    → write_y_id y ≡ c ∷ front ++ tail
    → 128 ≤ d
    → (skip_backward (back (write_x_id x ++ c ∷ front ++ replicate n 0) (d ∷ more))
        ≡ some (d ∷ more))
      × (skip_backward (back (write_x_id x ++ c ∷ front ++ replicate n 0) []) ≡ none)
unfolding back_x
skip_backward_lem x y n c d front tail more split high =
    let walk = skip_backward_over x y n c front tail in
    (walk (d ∷ more) split ∙ stop_x d more high, walk [] split ∙ refl)
