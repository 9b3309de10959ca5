-- ===== src/Lexer/Runs.antt =====
-- The theorems on SPARQLLexer at concrete queries.
use mgtag.Prelude.{ℕ, ◌≡◌, ◌≢◌, inl, refl, false, List, [], ◌∷◌, some, All, arith}
use mgtag.Lexer.{
  Token, no_token, l_curly, Lexer, new_lexer, get_next, simple, is_alnum, is_ident, not_char,
}
use mgtag.Lexer.Next.{Advance, get_next_lem}
use mgtag.Lexer.Words.{Lexeme, iri_ref, quoted, query_var, name, mark, IsLexeme, IsName, IsQuoted}
use mgtag.Lexer.RoundTrip.{print, all_tokens, results, all_tokens-print}

-- `?x {`
abbrev query : Lexer
query = new_lexer (63 ∷ 120 ∷ 32 ∷ 123 ∷ [])

get_next_lem_example :
    (t : Token) × (l' : Lexer) × (get_next query ≡ some (t, l')) × Advance query t l'
get_next_lem_example = get_next_lem query refl (omega arith)

-- the token `SeLect` of a query
abbrev select_token : Lexer
select_token = record {
  input = 83 ∷ 101 ∷ 76 ∷ 101 ∷ 99 ∷ 116 ∷ 32 ∷ [];
  pos = 6;
  token_start = 0;
  token_end = 0;
  put_back = no_token;
  has_token_end = false;
}

abbrev select : List ℕ
select = 115 ∷ 101 ∷ 108 ∷ 101 ∷ 99 ∷ 116 ∷ []

select-All : All (λ k. k ≢ 0) select
select-All = (
  (λ e. ground arith),
  (
    (λ e. ground arith),
    ((λ e. ground arith), ((λ e. ground arith), ((λ e. ground arith), ((λ e. ground arith), tt)))),
  ),
)

-- `ab <c> "d" ?e {`
abbrev lexemes : List Lexeme
lexemes =
    name (97 ∷ 98 ∷ [])
    ∷ iri_ref (99 ∷ [])
    ∷ quoted (92 ∷ 34 ∷ [])
    ∷ query_var (101 ∷ [])
    ∷ mark 123 l_curly
    ∷ []

lexemes-All : All IsLexeme lexemes
unfolding IsLexeme IsName IsQuoted simple is_alnum is_ident not_char
lexemes-All = (
  ((λ e. ground arith), (λ e. ground arith), (refl, (refl, tt))),
  ((refl, tt), (inl (refl, tt), ((refl, tt), (refl, tt)))),
)

all_tokens-print_example : all_tokens 6 (new_lexer (print lexemes)) ≡ some (results lexemes)
all_tokens-print_example = all_tokens-print lexemes lexemes-All
