-- ===== src/Stack/Laws.antt =====
-- Matrix/stack.h: a push puts its value on top, and a pop takes it.
use native.Mathlib.Numerals.{add-one}
use mgtag.Prelude.{
  ℕ, zero, suc, ◌+◌, ◌-◌, ◌*◌, ◌/◌, ◌≤◌, ◌<◌, ◌≡◌, ◌≢◌, inl, inr, refl, sym, ap, ap₂, ◌∙◌, ◌&&◌,
  List, [], ◌∷◌, ◌++◌, none, some, length, length-append, length-set, length-take_le, take,
  take-take_le, take-append_le, take-set_next, get_or, set, ltb, leb, Bool-cases, arith,
}
use mgtag.Buffer.Insert.{IsAlloc}
use mgtag.Stack.{Stack, contents, is_full, resize, grown, push, shrunk, pop}

-- From capacity 2 on, a full stack grows.
pub record IsStack (s : Stack) : Type 0 where
  pub room : s.top ≤ s.capacity
  pub block : length s.elements ≡ s.capacity
  pub grows : 2 ≤ s.capacity

take_nested :
    (m n : ℕ) (xs ys : List ℕ) → m ≤ n → m ≤ length xs → take m (take n (xs ++ ys)) ≡ take m xs
take_nested m n xs ys h k = take-take_le m n (xs ++ ys) h ∙ take-append_le m xs ys k

take_next :
    (n : ℕ) (xs : List ℕ) → n < length xs → take (suc n) xs ≡ take n xs ++ get_or xs n 0 ∷ []
take_next n [] h = absurd (omega arith)
take_next zero (x ∷ xs) h = refl
take_next (suc n) (x ∷ xs) h = ap (λ t. x ∷ t) (take_next n xs (omega arith))

cons_eq : (x y : ℕ) (xs ys : List ℕ) → x ∷ xs ≡ y ∷ ys → (x ≡ y) × (xs ≡ ys)
cons_eq x y xs ys e = ground arith

snoc_inj : (xs ys : List ℕ) (a b : ℕ) → xs ++ a ∷ [] ≡ ys ++ b ∷ [] → (xs ≡ ys) × (a ≡ b)
snoc_inj [] [] a b e = (refl, (cons_eq a b [] [] e).0)
snoc_inj [] (y ∷ ys) a b e = absurd (omega (arith, ap length e, length-append ys (b ∷ [])))
snoc_inj (x ∷ xs) [] a b e = absurd (omega (arith, ap length e, length-append xs (a ∷ [])))
snoc_inj (x ∷ xs) (y ∷ ys) a b e =
    let (head, tail) = cons_eq x y _ _ e in
    let (same, last) = snoc_inj xs ys a b tail in (ap₂ (λ z zs. z ∷ zs) head same, last)

not_empty : (s1 s : Stack) (val : ℕ) → contents s1 ≡ contents s ++ val ∷ [] → s1.top ≢ 0
not_empty s1 s val c z =
    let bare : contents s1 ≡ [] = ap (λ n. take n s1.elements) z in
    absurd (omega (arith, ap length (sym bare ∙ c), length-append (contents s) (val ∷ [])))

module _ (alloc : ℕ → List ℕ) (law : IsAlloc alloc) where
  resize-IsStack :
      (n : ℕ) (s : Stack)
      → IsStack s
      → s.top ≤ n
      → 2 ≤ n
      → IsStack (resize alloc n s) × (contents (resize alloc n s) ≡ contents s)
  unfolding resize
  resize-IsStack n s v h two = (
    record {
      room = h;
      block =
          length-take_le n (s.elements ++ alloc n)
            (omega (arith, length-append s.elements (alloc n), law n));
      grows = two;
    },
    take_nested s.top n s.elements (alloc n) h (omega (arith, v.room, v.block)),
  )

  grown-IsStack :
      (s : Stack)
      → IsStack s
      → IsStack (grown alloc s)
        × (contents (grown alloc s) ≡ contents s)
        × ((grown alloc s).top < (grown alloc s).capacity)
        × ((grown alloc s).top ≡ s.top)
  unfolding grown is_full resize
  grown-IsStack s v = elim (Bool-cases (leb s.capacity s.top)) [
    | inl full ↦
        let high : s.capacity ≤ s.top = ground arith in
        let (w, same) =
          resize-IsStack (s.capacity * 3 / 2) s v (omega (arith, v.room, v.grows))
            (omega (arith, v.grows)) in
        rw full (w, same, omega (arith, v.room, v.grows), refl)
    | inr fits ↦ rw fits (v, refl, ground arith, refl)
  ]

  shrunk-IsStack :
      (s : Stack)
      → IsStack s
      → IsStack (shrunk alloc s)
        × (contents (shrunk alloc s) ≡ contents s)
        × ((shrunk alloc s).top ≡ s.top)
  unfolding shrunk resize
  shrunk-IsStack s v = elim (Bool-cases (ltb 4096 s.capacity && ltb s.top (s.capacity / 2))) [
    | inl large ↦
        let big : 4096 < s.capacity = ground arith in
        let low : s.top < s.capacity / 2 = ground arith in
        let (w, same) = resize-IsStack (s.capacity * 2 / 3) s v (omega arith) (omega arith) in
        rw large (w, same, refl)
    | inr small ↦ rw small (v, refl, refl)
  ]

  push_room :
      (s : Stack) (val : ℕ)
      → (grown alloc s).top < length (grown alloc s).elements
      → push alloc s val
        ≡ some (record (grown alloc s) {
          elements = set (grown alloc s).elements (grown alloc s).top val;
          top = (grown alloc s).top + 1;
        })
  unfolding push
  push_room s val h = ground arith

  -- On a stack of capacity 2 or more `push` succeeds, puts the value on top, and keeps such a stack.
  pub push_lem :
      (s : Stack) (val : ℕ)
      → IsStack s
      → (s' : Stack) × (push alloc s val ≡ some s')
        × IsStack s'
        × (contents s' ≡ contents s ++ val ∷ [])
  push_lem s val v =
      let (w, same, below, top) = grown-IsStack s v in
      let t = grown alloc s in
      let inside : t.top < length t.elements = omega (arith, w.block) in
      (
        record t { elements = set t.elements t.top val; top = t.top + 1 },
        push_room s val inside,
        record {
          room = omega arith;
          block = length-set t.elements t.top val ∙ w.block;
          grows = w.grows;
        },
        rw (add-one) (take-set_next t.top t.elements val inside) ∙ ap (λ c. c ++ val ∷ []) same,
      )

  pop-some :
      (s : Stack)
      → (shrunk alloc s).top ≢ 0
      → pop alloc s
        ≡ some (
          get_or (shrunk alloc s).elements ((shrunk alloc s).top - 1) 0,
          record (shrunk alloc s) { top = (shrunk alloc s).top - 1 },
        )
  unfolding pop
  pop-some s h = ground arith

  -- On a stack of capacity 2 or more that is not empty `pop` succeeds, and takes the value on top.
  pub pop_lem :
      (s : Stack)
      → IsStack s
      → s.top ≢ 0
      → (val : ℕ) × (s' : Stack) × (pop alloc s ≡ some (val, s'))
        × IsStack s'
        × (contents s ≡ contents s' ++ val ∷ [])
  pop_lem s v some_left =
      let (w, same, top) = shrunk-IsStack s v in
      let t = shrunk alloc s in
      let last : t.top ≡ suc (t.top - 1) = omega arith in
      (
        get_or t.elements (t.top - 1) 0,
        record t { top = t.top - 1 },
        pop-some s (λ e. some_left (sym top ∙ e)),
        record { room = omega (arith, w.room); block = w.block; grows = w.grows },
        sym same
            ∙ ap (λ n. take n t.elements) last
            ∙ take_next (t.top - 1) t.elements (omega (arith, w.room, w.block)),
      )

  -- On a stack of capacity 2 or more, what is pushed is popped, and the contents are as before; both calls
  -- succeed.
  pub pop-push :
      (s : Stack) (val : ℕ)
      → IsStack s
      → (s1 : Stack) × (s2 : Stack) × (push alloc s val ≡ some s1)
        × (pop alloc s1 ≡ some (val, s2))
        × IsStack s2
        × (contents s2 ≡ contents s)
  pop-push s val v =
      let (s1, e, w, c) = push_lem s val v in
      let size = ap length c ∙ length-append (contents s) (val ∷ []) in
      let (other, s2, f, u, d) = pop_lem s1 w (λ z. not_empty s1 s val c z) in
      let (same, value) = snoc_inj (contents s2) (contents s) other val (sym d ∙ c) in
      (s1, s2, e, f ∙ ap (λ t. some (t, s2)) value, u, same)

  -- A full stack of capacity 0 or 1 does not grow, and `push` writes behind its block.
  pub push_small :
      (s : Stack) (val : ℕ)
      → s.capacity ≤ 1
      → s.top ≡ s.capacity
      → length s.elements ≡ s.capacity
      → push alloc s val ≡ none
  unfolding push grown is_full resize
  push_small s val small full block =
      let same : s.capacity * 3 / 2 ≡ s.capacity = omega arith in
      let size : length (take (s.capacity * 3 / 2) (s.elements ++ alloc (s.capacity * 3 / 2)))
          ≡ s.capacity * 3 / 2 =
        length-take_le (s.capacity * 3 / 2) (s.elements ++ alloc (s.capacity * 3 / 2))
          (omega (arith, length-append s.elements (alloc (s.capacity * 3 / 2)))) in
      ground arith
