-- ===== src/Lexer/Steps.antt =====
-- TripleBit/SPARQLLexer.cpp: the steps of `getNext` stay in the input.
use mgtag.Prelude.{
  ℕ, suc, ◌+◌, ◌≤◌, ◌≡◌, ◌⊎◌, inl, inr, refl, Bool, true, false, ◌||◌, List, [], ◌∷◌, Option, none,
  some, length, length-drop_le, drop, ◌==◌, Bool-cases, arith, if◌then◌else◌,
}
use mgtag.Lexer.{
  Token, error, iri, string, Step, skip, found, is_space, is_alnum, is_ident, count_while, not_char,
  in_line, count_string, simple, closed, delimited, after_bang, after_bracket, word, other_char,
  lex_char,
}

pub count_while_le : (test : ℕ → Bool) (s : List ℕ) → count_while test s ≤ length s
unfolding count_while
count_while_le test [] = omega arith
count_while_le test (c ∷ s) = ground (arith, count_while_le test s)

pub count_string_le : (quote : ℕ) (s : List ℕ) → count_string quote s ≤ length s
unfolding count_string
count_string_le quote [] = omega arith
count_string_le quote (c ∷ []) = ground arith
count_string_le quote (c ∷ d ∷ s) =
    ground (arith, count_string_le quote s, count_string_le quote (d ∷ s))

closed_bounds :
    (n : ℕ) (s : List ℕ)
    → n ≤ length s
    → (n ≤ closed n (drop n s)) × (closed n (drop n s) ≤ length s)
unfolding closed
closed_bounds n s h = go (drop n s) (length-drop_le n s h)
  where
    go : (r : List ℕ) → length r + n ≡ length s → (n ≤ closed n r) × (closed n r ≤ length s)
    go [] e = (omega arith, omega arith)
    go (c ∷ r) e = (omega arith, omega arith)

-- a step on `m` characters that takes at least one, or is an error
unfoldable pub IsStep : Step → ℕ → Type 0
IsStep (skip n) m = (1 ≤ n) × (n ≤ m)
IsStep (found t a none n) m = (a ≤ n) × (n ≤ m) × ((t ≡ error) ⊎ (1 ≤ n))
IsStep (found t a (some e) n) m = (a ≤ e) × (e ≤ n) × (n ≤ m) × (1 ≤ n)

delimited-IsStep :
    (t : Token) (n : ℕ) (s : List ℕ) → n ≤ length s → IsStep (delimited t n s) (suc (length s))
unfolding delimited IsStep
delimited-IsStep t n s h =
    let (low, high) = closed_bounds n s h in (omega arith, omega arith, omega arith, omega arith)

after_bang-IsStep : (s : List ℕ) → IsStep (after_bang s) (suc (length s))
unfolding after_bang IsStep
after_bang-IsStep [] = (omega arith, omega arith, inl refl)
after_bang-IsStep (d ∷ s) = elim (Bool-cases (d == 61)) [
  | inl e ↦ rw e (omega arith, omega arith, inr (omega arith))
  | inr n ↦ rw n (omega arith, omega arith, inl refl)
]

after_bracket-IsStep :
    (n m : ℕ) (r : List ℕ) → length r + n ≡ m → IsStep (after_bracket n r) (suc m)
unfolding after_bracket IsStep
after_bracket-IsStep n m [] h = (omega arith, omega arith, inr (omega arith))
after_bracket-IsStep n m (d ∷ r) h = elim (Bool-cases (d == 93)) [
  | inl e ↦ rw e (omega arith, omega arith, inr (omega arith))
  | inr k ↦ rw k (omega arith, omega arith, inr (omega arith))
]

word-IsStep : (s : List ℕ) → IsStep (word s) (length s)
unfolding word IsStep
word-IsStep s =
    let bound = count_while_le is_ident s in
    elim (Bool-cases (count_while is_ident s == 0)) [
      | inl e ↦ rw e (omega arith, omega arith, inl refl)
      | inr n ↦ rw n (omega arith, omega arith, inr (ground arith))
    ]

if_step : (b : Bool) (x y : Step) (m : ℕ) → IsStep x m → IsStep y m → IsStep (if b then x else y) m
if_step true x y m hx hy = hx
if_step false x y m hx hy = hy

other_char-IsStep : (c : ℕ) (s : List ℕ) → IsStep (other_char c s) (suc (length s))
unfolding other_char IsStep
other_char-IsStep c s =
    let spaces = count_while_le is_space s in
    let alnums = count_while_le is_alnum s in
    let m = suc (length s) in
    if_step (c == 33) _ _ m (after_bang-IsStep s) (
      if_step (c == 91) _ _ m
        (after_bracket-IsStep _ (length s) _ (length-drop_le (count_while is_space s) s spaces))
        (if_step (c == 60) _ _ m (delimited-IsStep iri _ s (count_while_le (not_char 62) s)) (
          if_step (c == 39) _ _ m (delimited-IsStep string _ s (count_string_le 39 s)) (
            if_step (c == 34) _ _ m (delimited-IsStep string _ s (count_string_le 34 s)) (
              if_step ((c == 63) || (c == 36)) _ _ m
                (omega arith, omega arith, omega arith, omega arith) (word-IsStep (c ∷ s)))))))

pub lex_char-IsStep : (c : ℕ) (s : List ℕ) → IsStep (lex_char c s) (suc (length s))
unfolding lex_char IsStep
lex_char-IsStep c s =
    let m = suc (length s) in
    let (low, high) = closed_bounds (count_while in_line s) s (count_while_le in_line s) in
    if_step (is_space c) _ _ m (omega arith, omega arith)
      (if_step (c == 35) _ _ m (omega arith, omega arith) (simple_step (simple c)))
  where
    simple_step :
        (o : Option Token)
        → IsStep (elim o [ some t ↦ found t 0 none 1 | none ↦ other_char c s ]) (suc (length s))
    simple_step (some t) = (omega arith, omega arith, inr (omega arith))
    simple_step none = other_char-IsStep c s
