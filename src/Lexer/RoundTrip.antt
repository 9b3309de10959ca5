-- ===== src/Lexer/RoundTrip.antt =====
-- TripleBit/SPARQLLexer.cpp: `getNext` gives the printed tokens back.
use mgtag.Prelude.{
  drop-append, ℕ, zero, suc, ◌+◌, ◌-◌, ◌<◌, ◌≡◌, refl, sym, ap, ap₂, ◌∙◌, Bool, true, false, List,
  [], ◌∷◌, ◌++◌, map, Option, none, some, All, length, length-append, drop-drop, take, drop, arith,
}
use mgtag.Lexer.{
  Token, no_token, eof, Lexer, new_lexer, skip, found, is_space, simple, lex_char, return_token,
  loop, get_next, get_token_value,
}
use mgtag.Lexer.Next.{starts}
use mgtag.Lexer.Words.{
  Lexeme, iri_ref, quoted, query_var, name, mark, text, token_of, value, IsLexeme, limit, Reads,
  reads,
}

-- tokens in print, each with a blank behind it; one more blank stands before them
unfoldable pub inside : List Lexeme → List ℕ
inside [] = []
inside (x ∷ xs) = text x ++ 32 ∷ inside xs

abbrev pub print : List Lexeme → List ℕ
print xs = 32 ∷ inside xs

unfoldable pub is_eof : Token → Bool
is_eof eof = true
is_eof _ = false

-- `getNext` until the end, with the texts of the tokens
unfoldable pub all_tokens : ℕ → Lexer → Option (List (Token × List ℕ))
all_tokens zero l = none
all_tokens (suc fuel) l = elim (get_next l) [
  | none ↦ none
  | some (t, l') ↦ elim (is_eof t) [
    | true ↦ some []
    | false ↦ elim (all_tokens fuel l') [
      | none ↦ none
      | some rest ↦ some ((t, get_token_value l') ∷ rest)
    ]
  ]
]

-- the lexer stands before the text `s`
record At (l : Lexer) (s : List ℕ) : Type 0 where
  here : drop l.pos l.input ≡ s
  size : length s + l.pos ≡ length l.input
  free : l.put_back ≡ no_token

blank : (s : List ℕ) → lex_char 32 s ≡ skip 1
unfolding lex_char is_space
blank s = refl

loop-skip :
    (fuel n : ℕ) (l : Lexer) (c : ℕ) (s : List ℕ)
    → lex_char c s ≡ skip n
    → loop (suc fuel) l (c ∷ s)
      ≡ loop fuel (record l { token_start = l.pos; pos = l.pos + n }) (drop n (c ∷ s))
unfolding loop
loop-skip fuel n l c s e = ground arith

loop-found :
    (fuel : ℕ) (l : Lexer) (c : ℕ) (s : List ℕ) (t : Token) (a : ℕ) (e : Option ℕ) (n : ℕ)
    → lex_char c s ≡ found t a e n
    → loop (suc fuel) l (c ∷ s) ≡ some (t, return_token l t a e n)
unfolding loop
loop-found fuel l c s t a e n h = ground arith

-- the lexer behind a blank
abbrev moved : Lexer → Lexer
moved l = record l { has_token_end = false; token_start = l.pos; pos = l.pos + 1 }

-- behind the printed token
abbrev after : Lexer → (x : Lexeme) (rest : List ℕ) → Reads x rest → Lexer
after l x rest r = return_token (moved l) (token_of x) r.start r.end (length (text x))

next_token :
    (l : Lexer) (x : Lexeme) (rest : List ℕ) (r : Reads x rest)
    → At l (32 ∷ text x ++ 32 ∷ rest)
    → get_next l ≡ some (token_of x, after l x rest r)
next_token l x rest r at =
    let f = length l.input - 2 in
    let size = ap length r.shape in
    let fuel : length l.input ≡ suc (suc f) = omega (arith, at.size, size) in
    starts l at.free
    ∙ ap₂ (λ n s. loop n (record l { has_token_end = false }) s) fuel at.here
    ∙ loop-skip (suc f) 1 (record l { has_token_end = false }) 32 (text x ++ 32 ∷ rest)
        (blank (text x ++ 32 ∷ rest))
    ∙ ap (loop (suc f) (moved l)) r.shape
    ∙ loop-found f (moved l) r.first r.others (token_of x) r.start r.end (length (text x)) r.step

-- where the returned lexer stands, and the text of its token
return_pos :
    (l : Lexer) (t : Token) (a : ℕ) (e : Option ℕ) (n : ℕ)
    → ((return_token l t a e n).pos ≡ l.pos + n)
      × ((return_token l t a e n).input ≡ l.input)
      × ((return_token l t a e n).put_back ≡ l.put_back)
unfolding return_token
return_pos l t a none n = (refl, refl, refl)
return_pos l t a (some e) n = (refl, refl, refl)

return_value :
    (l : Lexer) (t : Token) (a : ℕ) (e : Option ℕ) (n : ℕ)
    → l.has_token_end ≡ false
    → get_token_value (return_token l t a e n) ≡ take (limit e n - a) (drop a (drop l.pos l.input))
unfolding return_token get_token_value
return_value l t a none n h =
    let size : l.pos + n - (l.pos + a) ≡ n - a = omega arith in rw (h, size, drop-drop) refl
return_value l t a (some e) n h =
    let size : l.pos + e - (l.pos + a) ≡ e - a = omega arith in rw (size, drop-drop) refl

behind_blank : (l : Lexer) (s : List ℕ) → At l (32 ∷ s) → drop (l.pos + 1) l.input ≡ s
behind_blank l s at = sym (drop-drop l.pos 1 l.input) ∙ ap (drop 1) at.here

value-after :
    (l : Lexer) (x : Lexeme) (rest : List ℕ) (r : Reads x rest)
    → At l (32 ∷ text x ++ 32 ∷ rest)
    → get_token_value (after l x rest r) ≡ value x
value-after l x rest r at =
    return_value (moved l) (token_of x) r.start r.end (length (text x)) refl
    ∙ ap (λ s. take (limit r.end (length (text x)) - r.start) (drop r.start s))
        (behind_blank l _ at ∙ r.shape)
    ∙ r.inner

after-At :
    (l : Lexer) (x : Lexeme) (rest : List ℕ) (r : Reads x rest)
    → At l (32 ∷ text x ++ 32 ∷ rest)
    → At (after l x rest r) (32 ∷ rest)
after-At l x rest r at =
    let (pos, input, free) = return_pos (moved l) (token_of x) r.start r.end (length (text x)) in
    let size = length-append (text x) (32 ∷ rest) in
    record {
      here =
          ap₂ drop pos input
          ∙ sym (drop-drop (l.pos + 1) (length (text x)) l.input)
          ∙ ap (drop (length (text x))) (behind_blank l _ at)
          ∙ drop-append (text x) (32 ∷ rest);
      size = rw (pos, input) (omega (arith, at.size));
      free = free ∙ at.free;
    }

At-end : (l : Lexer) → At l (32 ∷ []) → (l' : Lexer) × (get_next l ≡ some (eof, l'))
unfolding loop
At-end l at =
    let f = length l.input - 1 in
    let fuel : length l.input ≡ suc f = omega (arith, at.size) in
    (
      moved l,
      starts l at.free
          ∙ ap₂ (λ n s. loop n (record l { has_token_end = false }) s) fuel at.here
          ∙ loop-skip f 1 (record l { has_token_end = false }) 32 [] (blank []),
    )

not_eof : (x : Lexeme) → IsLexeme x → is_eof (token_of x) ≡ false
unfolding is_eof token_of IsLexeme simple
not_eof (iri_ref body) ok = refl
not_eof (quoted body) ok = refl
not_eof (query_var body) ok = refl
not_eof (name body) ok = refl
not_eof (mark c t) ok = ground arith

all_stops :
    (fuel : ℕ) (l l' : Lexer) → get_next l ≡ some (eof, l') → all_tokens (suc fuel) l ≡ some []
unfolding all_tokens is_eof
all_stops fuel l l' e = ground arith

all_goes :
    (fuel : ℕ) (l l' : Lexer) (t : Token) (v : List ℕ) (rest : List (Token × List ℕ))
    → get_next l ≡ some (t, l')
    → is_eof t ≡ false
    → get_token_value l' ≡ v
    → all_tokens fuel l' ≡ some rest
    → all_tokens (suc fuel) l ≡ some ((t, v) ∷ rest)
unfolding all_tokens
all_goes fuel l l' t v rest e real val r = ground arith

-- the tokens with their texts
abbrev pub results : List Lexeme → List (Token × List ℕ)
results xs = map (λ x. (token_of x, value x)) xs

all_tokens-At :
    (fuel : ℕ) (xs : List Lexeme) (l : Lexer)
    → All IsLexeme xs
    → At l (print xs)
    → length xs < fuel
    → all_tokens fuel l ≡ some (results xs)
unfolding inside
all_tokens-At zero xs l ok at enough = absurd (omega arith)
all_tokens-At (suc fuel) [] l ok at enough = let (l', e) = At-end l at in all_stops fuel l l' e
all_tokens-At (suc fuel) (x ∷ xs) l ok at enough =
    let r = reads x (inside xs) ok.0 in
    all_goes fuel l (after l x (inside xs) r) (token_of x) (value x) (results xs)
      (next_token l x (inside xs) r at) (not_eof x ok.0) (value-after l x (inside xs) r at)
      (all_tokens-At fuel xs (after l x (inside xs) r) ok.1 (after-At l x (inside xs) r at)
        (omega arith))

-- The lexer reads printed tokens back: over IRIs, strings, variables, names and marks, with blanks between
-- them, the calls of `getNext` give these tokens with their texts, and then the end.
pub all_tokens-print :
    (xs : List Lexeme)
    → All IsLexeme xs
    → all_tokens (suc (length xs)) (new_lexer (print xs)) ≡ some (results xs)
all_tokens-print xs ok =
    all_tokens-At (suc (length xs)) xs (new_lexer (print xs)) ok
      (record { here = refl; size = omega arith; free = refl }) (omega arith)
