-- ===== src/Inspect/Words.antt =====
-- crates/xtask/src/inspect.rs: the text operations of `MapLayout::parse` and `parse_hex`. They are the
-- standard library's, on code points.
use polytope_os.Base.{ℕ, ◌+◌, ◌-◌, ◌*◌, ◌^◌, ltb, leb, ◌==◌, List, [], ◌∷◌, list_eq}
use polytope_os.Base.{Bool, true, false, not, ◌&&◌, ◌||◌, if◌then◌else◌, Option, none, some}
use polytope_os.Base.{Result, ◌>>◌, ok_or, match_option}
use polytope_os.Harness.Text.{codes, strip_prefix}
use polytope_os.Inspect.Types.{Text, InspectError, ensure}
use polytope_os.Inspect.Types

unfoldable pub push_line : ℕ → List Text → List Text
push_line c [] = (c ∷ []) ∷ []
push_line c (line ∷ lines) = (c ∷ line) ∷ lines

-- `str::lines`: a line ends with `\n` or `\r\n`, the last one also with the text.
unfoldable pub lines : Text → List Text
unfolding push_line
lines [] = []
lines (c ∷ []) = if c == b'\n' then [] ∷ [] else (c ∷ []) ∷ []
lines (c ∷ d ∷ cs) =
    let rest = lines (d ∷ cs) in
    if c == b'\n' then [] ∷ rest else if c == b'\r' && d == b'\n' then rest else push_line c rest

-- `char::is_whitespace`
is_whitespace : ℕ → Bool
is_whitespace c =
    leb 9 c && leb c 13
    || c == 32
    || c == 0x85
    || c == 0xa0
    || c == 0x1680
    || leb 0x2000 c && leb c 0x200a
    || c == 0x2028
    || c == 0x2029
    || c == 0x202f
    || c == 0x205f
    || c == 0x3000

push_word : Text → List Text → List Text
push_word [] words = words
push_word (c ∷ word) words = (c ∷ word) ∷ words

-- The word that a text starts with, maybe empty, and the words behind it.
split_words : Text → Text × List Text
unfolding is_whitespace push_word
split_words [] = ([], [])
split_words (c ∷ cs) =
    let (word, words) = split_words cs in
    if is_whitespace c then ([], push_word word words) else (c ∷ word, words)

-- `split_whitespace().collect()`
unfoldable pub split_whitespace : Text → List Text
unfolding split_words
split_whitespace line = let (word, words) = split_words line in push_word word words

-- `names.contains(&name)`
unfoldable pub contains : List Text → Text → Bool
contains [] name = false
contains (n ∷ names) name = list_eq n name || contains names name

fields_start_with : List Text → List Text → Bool
fields_start_with fields [] = true
fields_start_with [] (w ∷ window) = false
fields_start_with (f ∷ fields) (w ∷ window) = list_eq f w && fields_start_with fields window

-- `fields.windows(n).any(|w| w == window)`, where `window` is not empty
any_window : List Text → List Text → Bool
unfolding fields_start_with
any_window window [] = false
any_window window (f ∷ fields) = fields_start_with (f ∷ fields) window || any_window window fields

unfoldable pub is_kernel_load_end_expression : List Text → Bool
unfolding any_window
is_kernel_load_end_expression fields =
    any_window (codes "__kernel_load_end" ∷ codes "=" ∷ codes "ALIGN(PAGE_SIZE)" ∷ []) fields
    || any_window
        (codes "__kernel_load_end"
          ∷ codes "="
          ∷ codes "ALIGN"
          ∷ codes "("
          ∷ codes "PAGE_SIZE"
          ∷ codes ")"
          ∷ [])
        fields

-- `char::to_digit(16)`
unfoldable pub hex_digit : ℕ → Option ℕ
hex_digit c =
    if leb b'0' c && leb c b'9'
    then some (c - b'0')
    else if leb b'a' c && leb c b'f'
    then some (c - b'a' + 10)
    else if leb b'A' c && leb c b'F'
    then some (c - b'A' + 10)
    else none

-- The digits of `u64::from_str_radix`: a value beyond 64 bits is refused.
unfoldable pub hex_digits : ℕ → Text → Option ℕ
unfolding hex_digit
hex_digits value [] = some value
hex_digits value (c ∷ cs) =
    match_option none
      (λ digit.
        let rest = hex_digits (value * 16 + digit) cs in
        if ltb (value * 16 + digit) (2 ^ 64) then rest else none)
      (hex_digit c)

-- `u64::from_str_radix(digits, 16)`, which takes a leading `+`
unfoldable pub from_str_radix : Text → Option ℕ
unfolding hex_digits
from_str_radix [] = none
from_str_radix (c ∷ []) = hex_digits 0 (c ∷ [])
from_str_radix (c ∷ d ∷ cs) = hex_digits 0 (if c == b'+' then d ∷ cs else c ∷ d ∷ cs)

is_empty : Text → Bool
is_empty [] = true
is_empty (c ∷ cs) = false

unfoldable pub parse_hex : Text → ℕ → Result InspectError ℕ
unfolding is_empty from_str_radix strip_prefix
parse_hex value line = do
  let digits = match_option value (λ rest. rest) (strip_prefix value (codes "0x"))
  ensure (not (is_empty digits)) (Types.empty_hex line)
  ok_or (from_str_radix digits) (Types.invalid_hex line)
