-- ===== src/Lexer/Next.antt =====
-- TripleBit/SPARQLLexer.cpp: `getNext` ends, stays in the input and moves on.
use mgtag.Prelude.{
  ℕ, zero, suc, ◌+◌, ◌≤◌, ◌<◌, ◌≡◌, ◌⊎◌, inl, inr, refl, sym, ap, ◌∙◌, true, false, List, [], ◌∷◌,
  Option, none, some, length, length-drop_le, drop-drop, drop, arith,
}
use mgtag.Lexer.{
  Token, no_token, error, eof, Lexer, Step, skip, found, lex_char, return_token, loop, is_none,
  get_next, unget,
}
use mgtag.Lexer.Steps.{IsStep, lex_char-IsStep}

-- What `getNext` did: the lexer is in its input, and is at its end, or at an error, or behind where it was.
pub record Advance (l : Lexer) (t : Token) (l' : Lexer) : Type 0 where
  pub same_input : l'.input ≡ l.input
  pub inside : l'.pos ≤ length l.input
  pub forward : l.pos ≤ l'.pos
  pub outcome : ((t ≡ eof) × (l'.pos ≡ length l.input)) ⊎ ((t ≡ error) ⊎ (l.pos < l'.pos))

returned :
    (l : Lexer) (t : Token) (a : ℕ) (e : Option ℕ) (n m : ℕ)
    → m + l.pos ≡ length l.input
    → IsStep (found t a e n) m
    → Advance l t (return_token l t a e n)
unfolding return_token IsStep
returned l t a none n m h (low, high, moves) = record {
  same_input = refl;
  inside = omega arith;
  forward = omega arith;
  outcome = inr (elim moves [ inl e ↦ inl e | inr k ↦ inr (omega arith) ]);
}
returned l t a (some e) n m h (low, mid, high, moves) = record {
  same_input = refl;
  inside = omega arith;
  forward = omega arith;
  outcome = inr (inr (omega arith));
}

-- that the loop ends with `fuel` rounds
Ends : ℕ → Type 0
unfolding loop
Ends fuel =
    (l : Lexer) (s : List ℕ)
    → drop l.pos l.input ≡ s
    → length s + l.pos ≡ length l.input
    → length s ≤ fuel
    → (t : Token) × (l' : Lexer) × (loop fuel l s ≡ some (t, l')) × Advance l t l'

continues :
    (l : Lexer) (n : ℕ) (t : Token) (l' : Lexer)
    → 1 ≤ n
    → Advance (record l { token_start = l.pos; pos = l.pos + n }) t l'
    → Advance l t l'
continues l n t l' low a = record {
  same_input = a.same_input;
  inside = a.inside;
  forward = omega (arith, a.forward);
  outcome = elim a.outcome [
    | inl end ↦ inl end
    | inr (inl e) ↦ inr (inl e)
    | inr (inr m) ↦ inr (inr (omega arith))
  ];
}

loop_lem : (fuel : ℕ) → Ends fuel
unfolding Ends loop IsStep
loop_lem fuel l [] at h enough = (
  eof,
  l,
  refl,
  record {
    same_input = refl;
    inside = omega arith;
    forward = omega arith;
    outcome = inl (refl, omega arith);
  },
)
loop_lem zero l (c ∷ s) at h enough = absurd (omega arith)
loop_lem (suc fuel) l (c ∷ s) at h enough = go (loop_lem fuel) (lex_char c s) (lex_char-IsStep c s)
  where
    go :
        Ends fuel
        → (step : Step) → IsStep step (suc (length s))
        → (t : Token) × (l' : Lexer) × (elim step [
          | skip n ↦ loop fuel (record l { token_start = l.pos; pos = l.pos + n }) (drop n (c ∷ s))
          | found t start end n ↦ some (t, return_token l t start end n)
        ]
            ≡ some (t, l'))
          × Advance l t l'
    go ends (skip n) (low, high) =
        let left = length-drop_le n (c ∷ s) high in
        let (t, l', e, a) =
          ends (record l { token_start = l.pos; pos = l.pos + n }) (drop n (c ∷ s))
            (sym (drop-drop l.pos n l.input) ∙ ap (drop n) at) (omega arith) (omega arith) in
        (t, l', e, continues l n t l' low a)
    go ends (found t a e n) ok =
        (t, return_token l t a e n, refl, returned l t a e n (suc (length s)) h ok)

pub starts :
    (l : Lexer)
    → l.put_back ≡ no_token
    → get_next l ≡ loop (length l.input) (record l { has_token_end = false }) (drop l.pos l.input)
unfolding get_next is_none
starts l empty = let free : is_none l.put_back ≡ true = ap is_none empty in rw free refl

-- With no token put back, `getNext` ends: it stays inside the input and never goes back, and it is at the
-- end of the input, or returns an error, or has moved on.
pub get_next_lem :
    (l : Lexer)
    → l.put_back ≡ no_token
    → l.pos ≤ length l.input
    → (t : Token) × (l' : Lexer) × (get_next l ≡ some (t, l')) × Advance l t l'
unfolding Ends
get_next_lem l empty h =
    let left = length-drop_le l.pos l.input h in
    let (t, l', e, a) =
      loop_lem (length l.input) (record l { has_token_end = false }) (drop l.pos l.input) refl left
        (omega arith) in
    (
      t,
      l',
      starts l empty ∙ e,
      record {
        same_input = a.same_input;
        inside = a.inside;
        forward = a.forward;
        outcome = a.outcome;
      },
    )

-- With no token put back before, a token that `unget` puts back is the next one, and the lexer is then as
-- it was.
pub get_next-unget :
    (l : Lexer) (t : Token)
    → l.put_back ≡ no_token
    → is_none t ≡ false
    → get_next (unget l t) ≡ some (t, l)
unfolding get_next unget
get_next-unget l t empty real = rw real (ap (λ p. some (t, record l { put_back = p })) (sym empty))
