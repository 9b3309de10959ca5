-- ===== src/Lexer/Keywords.antt =====
-- TripleBit/SPARQLLexer.cpp: `isKeyword` compares the token with a keyword in small letters.
use mgtag.Prelude.{
  ℕ, ◌≡◌, ◌≢◌, ◌↔◌, inl, inr, refl, ap₂, true, false, List, [], ◌∷◌, map, All, ◌==◌, Bool-cases,
  arith,
}
use mgtag.Lexer.{Lexer, get_token_value, lower, matches, is_keyword}

head_eq : (x y : ℕ) (xs ys : List ℕ) → x ∷ xs ≡ y ∷ ys → (x ≡ y) × (xs ≡ ys)
head_eq x y xs ys e = ground arith

matches_lem :
    (s keyword : List ℕ)
    → All (λ k. k ≢ 0) keyword
    → (matches s keyword ≡ true) ↔ (map lower s ≡ keyword)
unfolding matches
matches_lem [] [] a = (λ e. refl, λ e. refl)
matches_lem [] (k ∷ ks) a = (λ e. absurd (a.0 (ground arith)), λ e. absurd (ground arith))
matches_lem (c ∷ s) [] a = (λ e. absurd (ground arith), λ e. absurd (ground arith))
matches_lem (c ∷ s) (k ∷ ks) a =
    let rest = matches_lem s ks a.1 in
    let real = a.0 in
    elim (Bool-cases (lower c == k)) [
      | inl hit ↦
          let eq : lower c ≡ k = ground arith in
          let live : (k == 0) ≡ false = ground arith in
          rw (hit, live)
            (λ e. ap₂ (λ x xs. x ∷ xs) eq (rest.0 e), λ e. rest.1 (head_eq _ _ _ _ e).1)
      | inr miss ↦
          let differs : lower c ≢ k = ground arith in
          rw miss (λ e. absurd (ground arith), λ e. absurd (differs (head_eq _ _ _ _ e).0))
    ]

-- `isKeyword` holds exactly where the token's text, in small letters, is the keyword.
pub is_keyword_lem :
    (l : Lexer) (keyword : List ℕ)
    → All (λ k. k ≢ 0) keyword
    → (is_keyword l keyword ≡ true) ↔ (map lower (get_token_value l) ≡ keyword)
unfolding is_keyword
is_keyword_lem l keyword a = matches_lem (get_token_value l) keyword a
