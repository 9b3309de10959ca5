-- ===== src/Lexer/Words.antt =====
-- TripleBit/SPARQLLexer.cpp: how `getNext` reads a printed token.
use mgtag.Prelude.{
  drop-append, ℕ, suc, ◌-◌, ◌≡◌, ◌≢◌, ◌⊎◌, inl, inr, refl, sym, ap, ◌∙◌, Bool, true, false, List,
  [], ◌∷◌, ◌++◌, Option, none, some, append_assoc, All, length, length-append, take, drop, ◌==◌,
  arith,
}
use mgtag.Lexer.{
  Token, iri, string, variable, identifier, found, is_space, is_alnum, is_ident, count_while,
  not_char, count_string, simple, closed, delimited, word, other_char, lex_char,
}

-- A token in print: `<…>`, `"…"`, `?…`, a name, or the one character of a mark.
pub data Lexeme : Type 0 where
  iri_ref quoted query_var name : List ℕ → Lexeme
  mark : ℕ → Token → Lexeme

unfoldable pub text : Lexeme → List ℕ
text (iri_ref body) = 60 ∷ body ++ 62 ∷ []
text (quoted body) = 34 ∷ body ++ 34 ∷ []
text (query_var body) = 63 ∷ body
text (name body) = body
text (mark c t) = c ∷ []

unfoldable pub token_of : Lexeme → Token
token_of (iri_ref body) = iri
token_of (quoted body) = string
token_of (query_var body) = variable
token_of (name body) = identifier
token_of (mark c t) = t

-- what `getTokenValue` is to give
unfoldable pub value : Lexeme → List ℕ
value (iri_ref body) = body
value (quoted body) = body
value (query_var body) = body
value (name body) = body
value (mark c t) = c ∷ []

-- A quote stands behind a backslash, and so does no last character.
unfoldable pub IsQuoted : List ℕ → Type 0
IsQuoted [] = Unit {0}
IsQuoted (c ∷ []) = (c ≢ 92) × (c ≢ 34)
IsQuoted (c ∷ d ∷ s) = ((c ≡ 92) × IsQuoted s) ⊎ ((c ≢ 92) × (c ≢ 34) × IsQuoted (d ∷ s))

unfoldable pub IsName : List ℕ → Type 0
IsName [] = ⊥
IsName (c ∷ s) = (c ≢ 95) × (c ≢ 46) × All (λ k. is_ident k ≡ true) (c ∷ s)

unfoldable pub IsLexeme : Lexeme → Type 0
IsLexeme (iri_ref body) = All (λ k. not_char 62 k ≡ true) body
IsLexeme (quoted body) = IsQuoted body
IsLexeme (query_var body) = All (λ k. is_alnum k ≡ true) body
IsLexeme (name body) = IsName body
IsLexeme (mark c t) = simple c ≡ some t

count_while_stops :
    (test : ℕ → Bool) (body : List ℕ) (d : ℕ) (rest : List ℕ)
    → All (λ k. test k ≡ true) body
    → test d ≡ false
    → count_while test (body ++ d ∷ rest) ≡ length body
unfolding count_while
count_while_stops test [] d rest a stop = rw stop refl
count_while_stops test (c ∷ s) d rest a stop =
    rw (a.0) (ap suc (count_while_stops test s d rest a.1 stop))

count_string_stops :
    (body rest : List ℕ) → IsQuoted body → count_string 34 (body ++ 34 ∷ rest) ≡ length body
unfolding count_string IsQuoted
count_string_stops [] [] q = refl
count_string_stops [] (r ∷ rest) q = refl
count_string_stops (c ∷ []) rest q = let after = count_string_stops [] rest tt in ground arith
count_string_stops (c ∷ d ∷ s) rest (inl (e, q)) =
    let after = count_string_stops s rest q in ground arith
count_string_stops (c ∷ d ∷ s) rest (inr (n, m, q)) =
    let after = count_string_stops (d ∷ s) rest q in ground arith

-- where the token's text ends
abbrev pub limit : Option ℕ → ℕ → ℕ
limit none n = n
limit (some e) n = e

-- what the first round of the loop returns at a printed token
pub record Reads (x : Lexeme) (rest : List ℕ) : Type 0 where
  pub first : ℕ
  pub others : List ℕ
  pub shape : text x ++ 32 ∷ rest ≡ first ∷ others
  pub start : ℕ
  pub end : Option ℕ
  pub step : lex_char first others ≡ found (token_of x) start end (length (text x))
  pub inner : take (limit end (length (text x)) - start) (drop start (first ∷ others)) ≡ value x

take_append : (xs ys : List ℕ) → take (length xs) (xs ++ ys) ≡ xs
take_append [] ys = refl
take_append (x ∷ xs) ys = ap (λ t. x ∷ t) (take_append xs ys)

inner_body : (body rest : List ℕ) → take (suc (length body) - 1) (body ++ rest) ≡ body
inner_body body rest =
    let size : suc (length body) - 1 ≡ length body = omega arith in rw size (take_append body rest)

whole_body : (body rest : List ℕ) → take (length body - 0) (body ++ rest) ≡ body
whole_body body rest =
    let size : length body - 0 ≡ length body = omega arith in rw size (take_append body rest)

iri_reads :
    (body rest : List ℕ)
    → All (λ k. not_char 62 k ≡ true) body
    → lex_char 60 (body ++ 62 ∷ rest)
      ≡ found iri 1 (some (suc (length body))) (suc (suc (length body)))
unfolding lex_char is_space simple other_char delimited closed not_char
iri_reads body rest a =
    rw (count_while_stops (not_char 62) body 62 rest a refl, drop-append body (62 ∷ rest)) refl

quoted_reads :
    (body rest : List ℕ)
    → IsQuoted body
    → lex_char 34 (body ++ 34 ∷ rest)
      ≡ found string 1 (some (suc (length body))) (suc (suc (length body)))
unfolding lex_char is_space simple other_char delimited closed
quoted_reads body rest q = rw (count_string_stops body rest q, drop-append body (34 ∷ rest)) refl

variable_reads :
    (body rest : List ℕ)
    → All (λ k. is_alnum k ≡ true) body
    → lex_char 63 (body ++ 32 ∷ rest)
      ≡ found variable 1 (some (suc (length body))) (suc (length body))
unfolding lex_char is_space simple other_char is_alnum
variable_reads body rest a = rw (count_while_stops is_alnum body 32 rest a refl) refl

simple-not_space : (c : ℕ) (t : Token) → simple c ≡ some t → is_space c ≡ false
unfolding simple is_space
simple-not_space c t e = ground arith

simple-not_comment : (c : ℕ) (t : Token) → simple c ≡ some t → (c == 35) ≡ false
unfolding simple
simple-not_comment c t e = ground arith

mark_reads :
    (c : ℕ) (t : Token) (rest : List ℕ) → simple c ≡ some t → lex_char c rest ≡ found t 0 none 1
unfolding lex_char
mark_reads c t rest e =
    let no_space = simple-not_space c t e in
    let no_comment = simple-not_comment c t e in ground arith

ident_tests :
    (c : ℕ)
    → is_ident c ≡ true
    → c ≢ 95
    → c ≢ 46
    → (is_space c ≡ false) × ((c == 35) ≡ false) × (simple c ≡ none)
unfolding is_ident is_alnum is_space simple
ident_tests c h n m = (ground arith, ground arith, ground arith)

ident_other : (c : ℕ) (s : List ℕ) → is_ident c ≡ true → other_char c s ≡ word (c ∷ s)
unfolding is_ident is_alnum other_char
ident_other c s h = ground arith

ident_head :
    (c : ℕ) (s : List ℕ) → is_ident c ≡ true → c ≢ 95 → c ≢ 46 → lex_char c s ≡ word (c ∷ s)
unfolding lex_char
ident_head c s h n m =
    let (no_space, no_comment, no_mark) = ident_tests c h n m in
    let other = ident_other c s h in ground arith

name_reads :
    (c : ℕ) (s rest : List ℕ)
    → IsName (c ∷ s)
    → lex_char c (s ++ 32 ∷ rest) ≡ found identifier 0 none (suc (length s))
unfolding IsName word is_ident is_alnum
name_reads c s rest (n, m, a) =
    ident_head c (s ++ 32 ∷ rest) a.0 n m
    ∙ rw (count_while_stops is_ident (c ∷ s) 32 rest a refl) (ground arith)

pub reads : (x : Lexeme) (rest : List ℕ) → IsLexeme x → Reads x rest
unfolding IsLexeme IsName text token_of value
reads (iri_ref body) rest ok =
    let size = length-append body (62 ∷ []) in
    let len : length (body ++ 62 ∷ []) ≡ suc (length body) = omega arith in
    record {
      first = 60;
      others = body ++ 62 ∷ 32 ∷ rest;
      shape = ap (λ t. 60 ∷ t) (append_assoc body (62 ∷ []) (32 ∷ rest));
      start = 1;
      end = some (suc (length body));
      step =
          iri_reads body (32 ∷ rest) ok
          ∙ ap (λ n. found iri 1 (some (suc (length body))) (suc n)) (sym len);
      inner = inner_body body (62 ∷ 32 ∷ rest);
    }
reads (quoted body) rest ok =
    let size = length-append body (34 ∷ []) in
    let len : length (body ++ 34 ∷ []) ≡ suc (length body) = omega arith in
    record {
      first = 34;
      others = body ++ 34 ∷ 32 ∷ rest;
      shape = ap (λ t. 34 ∷ t) (append_assoc body (34 ∷ []) (32 ∷ rest));
      start = 1;
      end = some (suc (length body));
      step =
          quoted_reads body (32 ∷ rest) ok
          ∙ ap (λ n. found string 1 (some (suc (length body))) (suc n)) (sym len);
      inner = inner_body body (34 ∷ 32 ∷ rest);
    }
reads (query_var body) rest ok = record {
  first = 63;
  others = body ++ 32 ∷ rest;
  shape = refl;
  start = 1;
  end = some (suc (length body));
  step = variable_reads body rest ok;
  inner = inner_body body (32 ∷ rest);
}
reads (name []) rest ok = absurd ok
reads (name (c ∷ s)) rest ok = record {
  first = c;
  others = s ++ 32 ∷ rest;
  shape = refl;
  start = 0;
  end = none;
  step = name_reads c s rest ok;
  inner = whole_body (c ∷ s) (32 ∷ rest);
}
reads (mark c t) rest ok = record {
  first = c;
  others = 32 ∷ rest;
  shape = refl;
  start = 0;
  end = none;
  step = mark_reads c t (32 ∷ rest) ok;
  inner = refl;
}
