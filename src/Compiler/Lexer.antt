-- ===== src/Compiler/Lexer.antt =====
-- crates/compiler/src/lib.rs: the tokens, and `Lexer` with its iterator.
pub mod Spec
pub mod Loops
pub mod Digits
pub mod Found
pub mod Next
pub mod Correct
use polytope_os.Base.{ℕ, zero, suc, ◌+◌, ◌-◌, ◌==◌, List, [], ◌∷◌, length, list_eq, leb}
use polytope_os.Base.{Bool, true, false, ◌||◌, if◌then◌else◌, Option, none, some}
use polytope_os.Base.{Result, ok, err, panic, ◌>>=◌, or_panic, match_option}
use polytope_os.Elf.Read.{Maybe, checked_add, checked_mul}
use polytope_os.Compiler.Chars.{
  len_utf8, is_whitespace, is_ascii_digit, is_ascii_alphabetic, to_digit, rest_at, front_to,
}

pub record Span : Type 0 where
  pub start : ℕ
  pub end : ℕ

pub data TokenKind : Type 0 where
  function : TokenKind
  identifier : List ℕ → TokenKind
  integer : ℕ → TokenKind
  left_paren right_paren left_brace right_brace : TokenKind

pub record Token : Type 0 where
  pub kind : TokenKind
  pub span : Span

pub record LexError : Type 0 where
  pub character : ℕ
  pub offset : ℕ

pub record Lexer : Type 0 where
  pub source : List ℕ
  pub offset : ℕ

-- `Lexer::new`
abbrev pub new : List ℕ → Lexer
new source = record { source = source; offset = 0 }

abbrev pub first : List ℕ → Option ℕ
first [] = none
first (c ∷ cs) = some c

-- `self.source[self.offset..].chars().next()`
pub peek : Lexer → Maybe (Option ℕ)
peek self = do rest ← or_panic (rest_at self.source self.offset); ok (first rest)

-- `self.offset += character.len_utf8()`
abbrev pub advance : Lexer → ℕ → Lexer
advance self character = record self { offset = self.offset + len_utf8 character }

-- A `while let` loop that advances over characters, with fuel.
pub advance_while : (ℕ → Bool) → ℕ → Lexer → Maybe Lexer
unfolding peek
advance_while test zero self = ok self
advance_while test (suc rounds) self = do
  next ← peek self
  match_option (ok self)
      (λ character.
        let again = advance_while test rounds (advance self character) in
        if test character then again else ok self)
      next

-- `value.checked_mul(10).and_then(|current| current.checked_add(digit))`
unfoldable pub push_digit : ℕ → ℕ → Option ℕ
push_digit value digit = elim (checked_mul value 10) [
  | none ↦ none
  | some current ↦ checked_add current digit
]

-- The loop over digits, with fuel: the value, or the error of a digit that does not fit.
pub read_digits : ℕ → ℕ → Lexer → Maybe (Result LexError ℕ × Lexer)
unfolding peek push_digit
read_digits zero value self = ok (ok value, self)
read_digits (suc rounds) value self = do
  next ← peek self
  match_option (ok (ok value, self))
      (λ character.
        match_option (ok (ok value, self))
          (λ digit.
            match_option (ok (err (record { character = character; offset = self.offset }), self))
              (λ updated. read_digits rounds updated (advance self character))
              (push_digit value digit))
          (to_digit character))
      next

abbrev Item : Type 0
Item = Option (Result LexError Token) × Lexer

-- A token from `start` to the offset.
abbrev token : TokenKind → ℕ → Lexer → Item
token kind start self =
    (some (ok (record { kind = kind; span = record { start = start; end = self.offset } })), self)

pub punctuation : ℕ → Option TokenKind
punctuation character =
    if character == b'('
    then some left_paren
    else if character == b')'
    then some right_paren
    else if character == b'{'
    then some left_brace
    else if character == b'}'
    then some right_brace
    else none

abbrev pub is_name_start : ℕ → Bool
is_name_start character = is_ascii_alphabetic character || character == b'_'

-- `is_ascii_alphanumeric() || '_'`
abbrev pub is_name : ℕ → Bool
is_name character = is_ascii_alphabetic character || is_ascii_digit character || character == b'_'

-- The branch of a name, whose first character is given.
pub read_name : ℕ → ℕ → Lexer → Maybe Item
unfolding advance_while
read_name start character self = do
  self' ← advance_while is_name (length self.source) (advance self character)
  rest ← or_panic (rest_at self.source start)
  text ← or_panic (front_to rest (self'.offset - start))
  let kind = if list_eq text (b'f' ∷ b'n' ∷ []) then function else identifier text
  ok (token kind start self')

-- The branch of an integer.
pub read_integer : ℕ → Lexer → Maybe Item
unfolding read_digits
read_integer start self = do
  (result, self') ← read_digits (length self.source) 0 self
  elim result [
    | ok value ↦ ok (token (integer value) start self')
    | err error ↦ ok (some (err error), self')
    | panic ↦ panic
  ]

-- `next` behind the whitespace, at a character.
pub next_at : ℕ → ℕ → Lexer → Maybe Item
unfolding punctuation read_name read_integer
next_at start character self =
    match_option
      (if is_name_start character
        then read_name start character self
        else if is_ascii_digit character
        then read_integer start self
        else ok
            (some (err (record { character = character; offset = start })), advance self character))
      (λ kind. ok (token kind start (record self { offset = self.offset + 1 })))
      (punctuation character)

pub next : Lexer → Maybe Item
unfolding advance_while peek next_at
next self = do
  self' ← advance_while is_whitespace (length self.source) self
  found ← peek self'
  match_option (ok (none, self')) (λ character. next_at self'.offset character self') found

-- The items that an iteration over the lexer yields, with fuel for the calls of `next`.
pub collect_loop : ℕ → Lexer → Maybe (List (Result LexError Token))
unfolding next
collect_loop zero self = ok []
collect_loop (suc calls) self = do
  (item, self') ← next self
  let rest = collect_loop calls self'
  match_option (ok []) (λ found. do more ← rest; ok (found ∷ more)) item

unfoldable pub lex : List ℕ → Maybe (List (Result LexError Token))
unfolding collect_loop
lex source = collect_loop (length source + 1) (new source)
