-- ===== src/Compiler/Lexer/Found.antt =====
-- crates/compiler/src/lib.rs: an item at a position of the source, and the punctuation.
use polytope_os.Base.{ℕ, ◌+◌, ◌≡◌, ◌≢◌, ◌⊎◌, inl, inr, refl, ap}
use polytope_os.Base.{arith, List, [], ◌∷◌, ◌++◌}
use polytope_os.Base.{true, false, Result, ok, some, none}
use polytope_os.Base.{ne→==}
use native.Mathlib.Decide.{ℕ_discrete}
use polytope_os.Compiler.Chars.{len_utf8, bytes_of}
use polytope_os.Compiler.Chars.Offsets.{bytes_of-append}
use polytope_os.Compiler.Lexer.{
  Lexer, Token, TokenKind, function, left_paren, right_paren, left_brace, right_brace, LexError,
  Item, token, punctuation,
}
use polytope_os.Compiler.Lexer.Spec
use polytope_os.Compiler.Lexer.Spec.{
  Passes, Stops, decimal, IsPunctuation, IsName, IsItem, token_of,
}
use polytope_os.Compiler.Lexer.Loops.{IsAt}

-- The item at a position, and the position behind it.
pub record Found (start : ℕ) (before rest : List ℕ) (result : Result (Unit {0}) Item) : Type 0 where
  pub text : List ℕ
  pub more : List ℕ
  pub self : Lexer
  pub found : Result LexError Token
  pub returns : result ≡ ok (some found, self)
  pub joined : rest ≡ text ++ more
  pub is_item : IsItem start text more found
  pub at : IsAt self (before ++ text) more

pub token-token_of :
    (kind : TokenKind) (start : ℕ) (before text more : List ℕ) (self : Lexer)
    → start ≡ bytes_of before
    → IsAt self (before ++ text) more
    → token kind start self ≡ (some (token_of kind start text), self)
token-token_of kind start before text more self s a =
    let e : self.offset ≡ start + bytes_of text =
      omega (arith, a.offset, bytes_of-append before text) in
    ap (λ o. (some (ok (record { kind = kind; span = record { start = start; end = o } })), self)) e

abbrev pub PunctuationCases : ℕ → Type 0
PunctuationCases c =
    (punctuation c ≡ none)
    ⊎ ((kind : TokenKind) × (punctuation c ≡ some kind) × IsPunctuation c kind × (len_utf8 c ≡ 1))

pub punctuation_cases : (c : ℕ) → PunctuationCases c
unfolding punctuation len_utf8
punctuation_cases c = elim (ℕ_discrete c b'(') [
  | yes e ↦ rw e (inr (left_paren, refl, Spec.opens, refl))
  | no n1 ↦ elim (ℕ_discrete c b')') [
    | yes e ↦ rw e (inr (right_paren, refl, Spec.closes, refl))
    | no n2 ↦ elim (ℕ_discrete c b'{') [
      | yes e ↦ rw e (inr (left_brace, refl, Spec.begins, refl))
      | no n3 ↦ elim (ℕ_discrete c b'}') [
        | yes e ↦ rw e (inr (right_brace, refl, Spec.ends, refl))
        | no n4 ↦ inl (rw (ne→== c b'(' n1, ne→== c b')' n2, ne→== c b'{' n3, ne→== c b'}' n4))
      ]
    ]
  ]
]

pub no_punctuation : (c : ℕ) → punctuation c ≡ none → (kind : TokenKind) → ¬ IsPunctuation c kind
unfolding punctuation
no_punctuation c plain _ Spec.opens = cc
no_punctuation c plain _ Spec.closes = cc
no_punctuation c plain _ Spec.begins = cc
no_punctuation c plain _ Spec.ends = cc

pub head_eq : {x y : ℕ} {xs ys : List ℕ} → ◌≡◌ {A = List ℕ} (x ∷ xs) (y ∷ ys) → x ≡ y
head_eq e = cc

pub true_ne_false : true ≢ false
true_ne_false e = cc

pub keyword-IsItem :
    (start : ℕ) (text more : List ℕ)
    → text ≡ b'f' ∷ b'n' ∷ []
    → IsName text more
    → IsItem start text more (token_of function start text)
keyword-IsItem start text more e n = rw e (Spec.keyword (rw e at n))
