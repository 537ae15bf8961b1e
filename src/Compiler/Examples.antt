-- ===== src/Compiler/Examples.antt =====
-- Concrete sources.
use polytope_os.Base.{ℕ, ◌≡◌, refl, List, [], ◌∷◌, Result, ok, err, replicate, list_eq}
use polytope_os.Compiler.Chars.{
  is_whitespace, is_ascii_digit, is_ascii_alphabetic, to_digit, len_utf8, rest_at, front_to,
}
use polytope_os.Compiler.Lexer.{
  Token, LexError, function, identifier, integer, left_paren, right_paren, push_digit, lex,
}
use polytope_os.Compiler.Lexer.Spec.{IsLexing}
use polytope_os.Compiler.Lexer.Correct.{lex-IsLexing}

-- `fn a(4)`
abbrev call : List ℕ
call = b'f' ∷ b'n' ∷ b' ' ∷ b'a' ∷ b'(' ∷ b'4' ∷ b')' ∷ []

abbrev call_items : List (Result LexError Token)
call_items =
    ok (record { kind = function; span = record { start = 0; end = 2 } })
    ∷ ok (record { kind = identifier (b'a' ∷ []); span = record { start = 3; end = 4 } })
    ∷ ok (record { kind = left_paren; span = record { start = 4; end = 5 } })
    ∷ ok (record { kind = integer 4; span = record { start = 5; end = 6 } })
    ∷ ok (record { kind = right_paren; span = record { start = 6; end = 7 } })
    ∷ []

call-lex : lex call ≡ ok call_items
unfolding lex is_whitespace is_ascii_digit is_ascii_alphabetic to_digit len_utf8 rest_at front_to
    push_digit list_eq
call-lex = refl

-- A number of 21 digits: the error stands at its last but one, where the next item begins.
abbrev long_number : List ℕ
long_number = replicate 21 b'9'

abbrev long_items : List (Result LexError Token)
long_items =
    err (record { character = b'9'; offset = 19 })
    ∷ ok (record { kind = integer 99; span = record { start = 19; end = 21 } })
    ∷ []

long_number-lex : lex long_number ≡ ok long_items
unfolding lex is_whitespace is_ascii_digit is_ascii_alphabetic to_digit len_utf8 rest_at front_to
    push_digit list_eq replicate
long_number-lex = refl

lex-IsLexing_example :
    (items : List (Result LexError Token)) × (lex call ≡ ok items) × IsLexing 0 call items
lex-IsLexing_example = lex-IsLexing call
