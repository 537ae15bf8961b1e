-- ===== src/Compiler/Lexer/Spec.antt =====
-- What a correct sequence of items is for a source, with no reference to the lexer's loops.
use polytope_os.Base.{ℕ, ◌+◌, ◌-◌, ◌*◌, ◌^◌, ◌≤◌, ◌<◌, ◌≡◌, ◌≢◌, List, [], ◌∷◌, ◌++◌, All}
use polytope_os.Base.{Bool, true, false, Result, ok, err}
use polytope_os.Compiler.Chars.{bytes_of, is_whitespace, is_ascii_digit}
use polytope_os.Compiler.Lexer.{
  TokenKind, function, identifier, integer, left_paren, right_paren, left_brace, right_brace, Token,
  LexError, is_name, is_name_start,
}

abbrev pub Passes : (ℕ → Bool) → List ℕ → Type 0
Passes test = All (λ c. test c ≡ true)

-- The text ends, or goes on with a character that fails the test.
abbrev pub Stops : (ℕ → Bool) → List ℕ → Type 0
Stops test [] = Unit
Stops test (c ∷ cs) = test c ≡ false

-- The number that digits write, behind a value.
abbrev pub decimal : ℕ → List ℕ → ℕ
decimal value [] = value
decimal value (c ∷ cs) = decimal (value * 10 + (c - b'0')) cs

pub data IsPunctuation : ℕ → TokenKind → Type 0 where
  opens : IsPunctuation b'(' left_paren
  closes : IsPunctuation b')' right_paren
  begins : IsPunctuation b'{' left_brace
  ends : IsPunctuation b'}' right_brace

-- The text is a longest name.
pub record IsName (text more : List ℕ) : Type 0 where
  pub head : ℕ
  pub tail : List ℕ
  pub text_eq : text ≡ head ∷ tail
  pub starts : is_name_start head ≡ true
  pub goes_on : Passes is_name tail
  pub stops : Stops is_name more

-- A token of the text that begins at `start`.
abbrev pub token_of : TokenKind → ℕ → List ℕ → Result LexError Token
token_of kind start text =
    ok (record { kind = kind; span = record { start = start; end = start + bytes_of text } })

-- The item of the text that begins at `start`, with `more` behind it.
pub data IsItem (start : ℕ) : List ℕ → List ℕ → Result LexError Token → Type 0 where
  punctuation :
      {c : ℕ} {kind : TokenKind} {more : List ℕ}
      → IsPunctuation c kind
      → IsItem start (c ∷ []) more (token_of kind start (c ∷ []))
  keyword :
      {more : List ℕ}
      → IsName (b'f' ∷ b'n' ∷ []) more
      → IsItem start (b'f' ∷ b'n' ∷ []) more (token_of function start (b'f' ∷ b'n' ∷ []))
  name :
      {text more : List ℕ}
      → IsName text more
      → text ≢ b'f' ∷ b'n' ∷ []
      → IsItem start text more (token_of (identifier text) start text)
  number :
      {text more : List ℕ}
      → text ≢ []
      → Passes is_ascii_digit text
      → Stops is_ascii_digit more
      → decimal 0 text < 2 ^ 64
      → IsItem start text more (token_of (integer (decimal 0 text)) start text)
  -- the first digit with which the number does not fit, behind those with which it does
  overflow :
      {text more : List ℕ} {c : ℕ}
      → text ≢ []
      → Passes is_ascii_digit text
      → decimal 0 text < 2 ^ 64
      → is_ascii_digit c ≡ true
      → 2 ^ 64 ≤ decimal 0 (text ++ (c ∷ []))
      → IsItem start text
          (c ∷ more)
          (err (record { character = c; offset = start + bytes_of text }))
  unexpected :
      {c : ℕ} {more : List ℕ}
      → ((kind : TokenKind) → ¬ IsPunctuation c kind)
      → is_name_start c ≡ false
      → is_ascii_digit c ≡ false
      → is_whitespace c ≡ false
      → IsItem start (c ∷ []) more (err (record { character = c; offset = start }))

-- The items of the text that begins at `start`: each behind whitespace alone.
pub data IsLexing : ℕ → List ℕ → List (Result LexError Token) → Type 0 where
  finish : {start : ℕ} {rest : List ℕ} → Passes is_whitespace rest → IsLexing start rest []
  item :
      {start : ℕ} {rest : List ℕ} {found : Result LexError Token}
      {items : List (Result LexError Token)} (white text more : List ℕ)
      → rest ≡ white ++ (text ++ more)
      → Passes is_whitespace white
      → IsItem (start + bytes_of white) text more found
      → IsLexing (start + bytes_of white + bytes_of text) more items
      → IsLexing start rest (found ∷ items)
