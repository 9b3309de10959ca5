-- ===== src/Lexer.antt =====
-- TripleBit/SPARQLLexer.h, TripleBit/SPARQLLexer.cpp: the lexer of SPARQL queries. Characters are their
-- codes, and iterators are positions in `input`.
pub mod Steps
pub mod Next
pub mod Keywords
pub mod Words
pub mod RoundTrip
mod Runs
use mgtag.Prelude.{
  ℕ, zero, suc, ◌+◌, ◌-◌, ◌*◌, Bool, true, false, not, ◌&&◌, ◌||◌, List, [], ◌∷◌, ◌++◌, Option,
  none, some, length, take, drop, ltb, leb, ◌==◌, if◌then◌else◌,
}

pub data Token : Type 0 where
  no_token error eof iri string variable identifier : Token
  colon semicolon comma dot star underscore l_curly r_curly l_paren r_paren : Token
  l_bracket r_bracket anon equal not_equal : Token

pub record Lexer : Type 0 where
  pub input : List ℕ
  pub pos : ℕ
  pub token_start : ℕ
  pub token_end : ℕ
  pub put_back : Token
  pub has_token_end : Bool

abbrev pub new_lexer : List ℕ → Lexer
new_lexer input = record {
  input = input;
  pos = 0;
  token_start = 0;
  token_end = 0;
  put_back = no_token;
  has_token_end = false;
}

-- ' ', '\t', '\n', '\r' and '\f'
unfoldable pub is_space : ℕ → Bool
is_space c = (c == 32) || (c == 9) || (c == 10) || (c == 13) || (c == 12)

-- 0-9, A-Z and a-z
unfoldable pub is_alnum : ℕ → Bool
is_alnum c = (leb 48 c && leb c 57) || (leb 65 c && leb c 90) || (leb 97 c && leb c 122)

-- and '_', '-' and '.'
unfoldable pub is_ident : ℕ → Bool
is_ident c = is_alnum c || (c == 95) || (c == 45) || (c == 46)

-- the number of characters until one fails the test
unfoldable pub count_while : (ℕ → Bool) → List ℕ → ℕ
count_while test [] = 0
count_while test (c ∷ s) = let rest = count_while test s in if test c then suc rest else 0

unfoldable pub not_char : ℕ → ℕ → Bool
not_char x c = not (c == x)

-- '\n' and '\r'
unfoldable pub in_line : ℕ → Bool
in_line c = not_char 10 c && not_char 13 c

-- A backslash takes the next character with it.
unfoldable pub count_string : ℕ → List ℕ → ℕ
count_string quote [] = 0
count_string quote (c ∷ []) = if c == 92 then 1 else if c == quote then 0 else 1
count_string quote (c ∷ d ∷ s) =
    let after = count_string quote s in
    let rest = count_string quote (d ∷ s) in
    if c == 92 then suc (suc after) else if c == quote then 0 else suc rest

-- the tokens of one character
unfoldable pub simple : ℕ → Option Token
simple c =
    if c == 58
    then some colon
    else if c == 59
    then some semicolon
    else if c == 44
    then some comma
    else if c == 46
    then some dot
    else if c == 42
    then some star
    else if c == 95
    then some underscore
    else if c == 123
    then some l_curly
    else if c == 125
    then some r_curly
    else if c == 40
    then some l_paren
    else if c == 41
    then some r_paren
    else if c == 61
    then some equal
    else if c == 93
    then some r_bracket
    else none

-- What one round of the loop does: it goes on behind `n` characters, or it returns a token, whose text runs
-- from `start` to `end` or to where the lexer stops, `n` characters on.
pub data Step : Type 0 where
  skip : ℕ → Step
  found : (token : Token) (start : ℕ) (end : Option ℕ) (n : ℕ) → Step

-- the length with the closing character, if there is one
unfoldable pub closed : ℕ → List ℕ → ℕ
closed n [] = n
closed n (c ∷ s) = suc n

unfoldable pub delimited : Token → ℕ → List ℕ → Step
delimited token n s = found token 1 (some (suc n)) (suc (closed n (drop n s)))

unfoldable pub after_bang : List ℕ → Step
after_bang [] = found error 0 none 1
after_bang (d ∷ s) = if d == 61 then found not_equal 0 none 2 else found error 0 none 1

unfoldable pub after_bracket : ℕ → List ℕ → Step
after_bracket n [] = found l_bracket 0 none (suc n)
after_bracket n (d ∷ s) =
    if d == 93 then found anon 0 none (suc (suc n)) else found l_bracket 0 none (suc n)

-- the `default` case
unfoldable pub word : List ℕ → Step
word s =
    let n = count_while is_ident s in
    if n == 0 then found error 0 none 0 else found identifier 0 none n

unfoldable pub other_char : ℕ → List ℕ → Step
other_char c s =
    if c == 33
    then after_bang s
    else if c == 91
    then after_bracket (count_while is_space s) (drop (count_while is_space s) s)
    else if c == 60
    then delimited iri (count_while (not_char 62) s) s
    else if c == 39
    then delimited string (count_string 39 s) s
    else if c == 34
    then delimited string (count_string 34 s) s
    else if (c == 63) || (c == 36)
    then found variable 1 (some (suc (count_while is_alnum s))) (suc (count_while is_alnum s))
    else word (c ∷ s)

unfoldable pub lex_char : ℕ → List ℕ → Step
lex_char c s =
    if is_space c
    then skip 1
    else if c == 35
    then skip (suc (closed (count_while in_line s) (drop (count_while in_line s) s)))
    else elim (simple c) [ some t ↦ found t 0 none 1 | none ↦ other_char c s ]

-- the token and where the lexer then is
unfoldable pub return_token : Lexer → Token → ℕ → Option ℕ → ℕ → Lexer
return_token l t start none n = record l { token_start = l.pos + start; pos = l.pos + n }
return_token l t start (some end) n = record l {
  token_start = l.pos + start;
  token_end = l.pos + end;
  has_token_end = true;
  pos = l.pos + n;
}

-- The loop; each round that goes on takes a character.
unfoldable pub loop : ℕ → Lexer → List ℕ → Option (Token × Lexer)
loop fuel l [] = some (eof, l)
loop zero l (c ∷ s) = none
loop (suc fuel) l (c ∷ s) = elim (lex_char c s) [
  | skip n ↦ loop fuel (record l { token_start = l.pos; pos = l.pos + n }) (drop n (c ∷ s))
  | found t start end n ↦ some (t, return_token l t start end n)
]

unfoldable pub is_none : Token → Bool
is_none no_token = true
is_none _ = false

unfoldable pub get_next : Lexer → Option (Token × Lexer)
get_next l =
    if is_none l.put_back
    then loop (length l.input) (record l { has_token_end = false }) (drop l.pos l.input)
    else some (l.put_back, record l { put_back = no_token })

unfoldable pub unget : Lexer → Token → Lexer
unget l t = record l { put_back = t }

unfoldable pub get_token_value : Lexer → List ℕ
get_token_value l =
    let limit = if l.has_token_end then l.token_end else l.pos in
    take (limit - l.token_start) (drop l.token_start l.input)

unfoldable pub lower : ℕ → ℕ
lower c = if leb 65 c && leb c 90 then c + 32 else c

-- The loop of `isKeyword` on the token's characters; a keyword ends in 0.
unfoldable pub matches : List ℕ → List ℕ → Bool
matches [] [] = true
matches [] (k ∷ ks) = k == 0
matches (c ∷ s) [] = false
matches (c ∷ s) (k ∷ ks) =
    let rest = matches s ks in if lower c == k then (if k == 0 then false else rest) else false

unfoldable pub is_keyword : Lexer → List ℕ → Bool
is_keyword l keyword = matches (get_token_value l) keyword
