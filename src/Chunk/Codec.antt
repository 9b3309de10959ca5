-- ===== src/Chunk/Codec.antt =====
-- TripleBit/BitmapBuffer.cpp: a pair that is written is read back, and skipped.
use native.Mathlib.Nat.{div-add-mod}
use native.Mathlib.Numerals.{towards_suc}
use mgtag.Prelude.{
  ℕ, zero, suc, ◌+◌, ◌*◌, ◌/◌, ◌%◌, ◌^◌, ◌≤◌, ◌<◌, ◌≡◌, inl, inr, refl, ap, ◌∙◌, List, [], ◌∷◌,
  ◌++◌, some, append_assoc, length, length-append, ltb, Bool-cases, arith,
}
use mgtag.Chunk.{
  groups, get_len, x_bytes, write_x_id, y_bytes, write_y_id, get_insert_chars, read_x, read_x_id,
  read_y, read_y_id, skip_x, skip_y,
}

-- the lowest group of `v` and the rest, both shifted
split_groups : (v s : ℕ) → v * 2 ^ s ≡ v % 128 * 2 ^ s + v / 128 * 2 ^ (s + 7)
split_groups v s =
    let seven : 2 ^ (s + 7) ≡ 128 * 2 ^ s = simp towards_suc (omega arith) in
    omega (arith, ap (λ (t : ℕ). t * 2 ^ s) (div-add-mod v 128), ap (λ (t : ℕ). v / 128 * t) seven)

read_x_group :
    (g id shift : ℕ) (rest : List ℕ)
    → g < 128
    → id + g * 2 ^ shift < 2 ^ 32
    → read_x (g ∷ rest) id shift ≡ read_x rest (id + g * 2 ^ shift) (shift + 7)
unfolding read_x
read_x_group g id shift rest h fits = ground arith

read_x_stop :
    (c id shift : ℕ) (rest : List ℕ) → 128 ≤ c → read_x (c ∷ rest) id shift ≡ some (id, c ∷ rest)
unfolding read_x
read_x_stop c id shift rest h = ground arith

read_x_bytes :
    (fuel v id shift c : ℕ) (rest : List ℕ)
    → v < fuel
    → id + v * 2 ^ shift < 2 ^ 32
    → 128 ≤ c
    → read_x (x_bytes fuel v ++ c ∷ rest) id shift ≡ some (id + v * 2 ^ shift, c ∷ rest)
unfolding x_bytes
read_x_bytes zero v id shift c rest h fits top = absurd (omega arith)
read_x_bytes (suc fuel) v id shift c rest h fits top = ground (
  arith,
  split_groups v shift,
  read_x_group (v % 128) id shift (c ∷ rest),
  read_x_stop c (id + v % 128 * 2 ^ shift) (shift + 7) rest,
  read_x_group (v % 128) id shift (x_bytes fuel (v / 128) ++ c ∷ rest),
  read_x_bytes fuel (v / 128) (id + v % 128 * 2 ^ shift) (shift + 7) c rest,
)

read_y_group :
    (g id shift : ℕ) (rest : List ℕ)
    → g < 128
    → id + g * 2 ^ shift < 2 ^ 32
    → read_y ((128 + g) ∷ rest) id shift ≡ read_y rest (id + g * 2 ^ shift) (shift + 7)
unfolding read_y
read_y_group g id shift rest h fits = let low : (128 + g) % 128 ≡ g = omega arith in ground arith

read_y_stop :
    (c id shift : ℕ) (rest : List ℕ) → c < 128 → read_y (c ∷ rest) id shift ≡ some (id, c ∷ rest)
unfolding read_y
read_y_stop c id shift rest h = ground arith

read_y_bytes :
    (fuel v id shift c : ℕ) (rest : List ℕ)
    → v < fuel
    → id + v * 2 ^ shift < 2 ^ 32
    → c < 128
    → read_y (y_bytes fuel v ++ c ∷ rest) id shift ≡ some (id + v * 2 ^ shift, c ∷ rest)
unfolding y_bytes
read_y_bytes zero v id shift c rest h fits top = absurd (omega arith)
read_y_bytes (suc fuel) v id shift c rest h fits top = ground (
  arith,
  split_groups v shift,
  read_y_group (v % 128) id shift (c ∷ rest),
  read_y_stop c (id + v % 128 * 2 ^ shift) (shift + 7) rest,
  read_y_group (v % 128) id shift (y_bytes fuel (v / 128) ++ c ∷ rest),
  read_y_bytes fuel (v / 128) (id + v % 128 * 2 ^ shift) (shift + 7) c rest,
)

skip_y_bytes :
    (fuel v c : ℕ) (rest : List ℕ)
    → v < fuel
    → c < 128
    → skip_y (y_bytes fuel v ++ c ∷ rest) ≡ some (c ∷ rest)
unfolding y_bytes skip_y
skip_y_bytes zero v c rest h top = absurd (omega arith)
skip_y_bytes (suc fuel) v c rest h top = ground (arith, skip_y_bytes fuel (v / 128) c rest)

skip_x_bytes :
    (fuel v c : ℕ) (rest : List ℕ)
    → v < fuel
    → 128 ≤ c
    → skip_x (x_bytes fuel v ++ c ∷ rest) ≡ some (c ∷ rest)
unfolding x_bytes skip_x
skip_x_bytes zero v c rest h top = absurd (omega arith)
skip_x_bytes (suc fuel) v c rest h top = ground (arith, skip_x_bytes fuel (v / 128) c rest)

length-x_bytes : (fuel v : ℕ) → v < fuel → length (x_bytes fuel v) ≡ groups fuel v
unfolding x_bytes groups
length-x_bytes zero v h = absurd (omega arith)
length-x_bytes (suc fuel) v h = ground (arith, length-x_bytes fuel (v / 128))

length-y_bytes : (fuel v : ℕ) → v < fuel → length (y_bytes fuel v) ≡ groups fuel v
unfolding y_bytes groups
length-y_bytes zero v h = absurd (omega arith)
length-y_bytes (suc fuel) v h = ground (arith, length-y_bytes fuel (v / 128))

y_bytes-cons :
    (fuel v : ℕ) → v < fuel → (c : ℕ) × (rest : List ℕ) × (y_bytes fuel v ≡ c ∷ rest) × (128 ≤ c)
unfolding y_bytes
y_bytes-cons zero v h = absurd (omega arith)
y_bytes-cons (suc fuel) v h = elim (Bool-cases (ltb v 128)) [
  | inl e ↦ rw e (128 + v % 128, [], refl, omega arith)
  | inr e ↦ rw e (128 + v % 128, y_bytes fuel (v / 128), refl, omega arith)
]

x_bytes-cons :
    (fuel v : ℕ) → v < fuel → (c : ℕ) × (rest : List ℕ) × (x_bytes fuel v ≡ c ∷ rest) × (c < 128)
unfolding x_bytes
x_bytes-cons zero v h = absurd (omega arith)
x_bytes-cons (suc fuel) v h = elim (Bool-cases (ltb v 128)) [
  | inl e ↦ rw e (v % 128, [], refl, omega arith)
  | inr e ↦ rw e (v % 128, x_bytes fuel (v / 128), refl, omega arith)
]

groups_bound : (fuel k v : ℕ) → v < 128 ^ suc k → groups fuel v ≤ suc k
unfolding groups
groups_bound zero k v h = omega arith
groups_bound (suc fuel) zero v h = ground arith
groups_bound (suc fuel) (suc k) v h = ground (arith, groups_bound fuel k (v / 128))

-- A pair of IDs of 32 bits takes as many bytes as `getLen` says, ten at most.
pub get_insert_chars-get_len :
    (x y : ℕ)
    → x < 2 ^ 32
    → y < 2 ^ 32
    → (length (get_insert_chars x y) ≡ get_len x + get_len y) × (get_len x + get_len y ≤ 10)
unfolding get_insert_chars get_len write_x_id write_y_id
get_insert_chars-get_len x y hx hy = (
  omega (
    arith,
    length-append (x_bytes (suc x) x) (y_bytes (suc y) y),
    length-x_bytes (suc x) x (omega arith),
    length-y_bytes (suc y) y (omega arith),
  ),
  omega (arith, groups_bound (suc x) 4 x (omega arith), groups_bound (suc y) 4 y (omega arith)),
)

-- The bytes of a pair start with the byte of an x.
pub get_insert_chars-cons :
    (x y : ℕ) → (c : ℕ) × (rest : List ℕ) × (get_insert_chars x y ≡ c ∷ rest) × (c < 128)
unfolding get_insert_chars write_x_id
get_insert_chars-cons x y =
    let (c, rest, e, h) = x_bytes-cons (suc x) x (omega arith) in
    (c, rest ++ write_y_id y, ap (λ t. t ++ write_y_id y) e, h)

-- A pair of IDs of 32 bits is read back from its bytes, if the byte behind them is not one of a y: readXId
-- gives the first ID, then readYId the second, and skipId passes over the bytes of either.
pub read-get_insert_chars :
    (x y c : ℕ) (rest : List ℕ)
    → x < 2 ^ 32
    → y < 2 ^ 32
    → c < 128
    → (middle : List ℕ) × (read_x_id (get_insert_chars x y ++ c ∷ rest) ≡ some (x, middle))
      × (read_y_id middle ≡ some (y, c ∷ rest))
      × (skip_x (get_insert_chars x y ++ c ∷ rest) ≡ some middle)
      × (skip_y middle ≡ some (c ∷ rest))
unfolding get_insert_chars write_x_id write_y_id read_x_id read_y_id
read-get_insert_chars x y c rest hx hy low =
    let (d, more, e, high) = y_bytes-cons (suc y) y (omega arith) in
    let ys = y_bytes (suc y) y ++ c ∷ rest in
    let first = append_assoc (x_bytes (suc x) x) (y_bytes (suc y) y) (c ∷ rest) in
    let split : ys ≡ d ∷ more ++ c ∷ rest = ap (λ t. t ++ c ∷ rest) e in
    (
      ys,
      rw (first, split)
          (read_x_bytes (suc x) x 0 0 d (more ++ c ∷ rest) (omega arith) (omega arith) high
            ∙ ap (λ t. some (t, d ∷ more ++ c ∷ rest)) (omega arith)),
      read_y_bytes (suc y) y 0 0 c rest (omega arith) (omega arith) low
          ∙ ap (λ t. some (t, c ∷ rest)) (omega arith),
      rw (first, split) (skip_x_bytes (suc x) x d (more ++ c ∷ rest) (omega arith) high),
      skip_y_bytes (suc y) y c rest (omega arith) low,
    )

-- The pointer behind the x of a pair is at a byte of its y.
pub read_x_id-middle :
    (x y c : ℕ) (rest : List ℕ)
    → x < 2 ^ 32
    → (d : ℕ) × (more : List ℕ) × (read_x_id (get_insert_chars x y ++ c ∷ rest)
        ≡ some (x, d ∷ more))
      × (128 ≤ d)
      × (length (c ∷ rest) ≤ length more)
unfolding get_insert_chars write_x_id write_y_id read_x_id
read_x_id-middle x y c rest hx =
    let (d, more, e, high) = y_bytes-cons (suc y) y (omega arith) in
    let first = append_assoc (x_bytes (suc x) x) (y_bytes (suc y) y) (c ∷ rest) in
    let split : y_bytes (suc y) y ++ c ∷ rest ≡ d ∷ more ++ c ∷ rest = ap (λ t. t ++ c ∷ rest) e in
    (
      d,
      more ++ c ∷ rest,
      rw (first, split)
          (read_x_bytes (suc x) x 0 0 d (more ++ c ∷ rest) (omega arith) (omega arith) high
            ∙ ap (λ t. some (t, d ∷ more ++ c ∷ rest)) (omega arith)),
      high,
      omega (arith, length-append more (c ∷ rest)),
    )

-- At a byte of a y `readXId` reads nothing.
pub read_x_id_nothing :
    (d : ℕ) (more : List ℕ) → 128 ≤ d → read_x_id (d ∷ more) ≡ some (0, d ∷ more)
unfolding read_x_id
read_x_id_nothing d more h = read_x_stop d 0 0 more h
