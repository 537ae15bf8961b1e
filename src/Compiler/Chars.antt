-- ===== src/Compiler/Chars.antt =====
-- Rust's `char` and `str` as crates/compiler/src/lib.rs uses them. A character is its code point, and a
-- text is its characters; offsets count the bytes of UTF-8.
pub mod Offsets
use polytope_os.Base.{ℕ, ◌+◌, ◌-◌, ltb, leb, ◌==◌, List, [], ◌∷◌, Bool, ◌&&◌, ◌||◌}
use polytope_os.Base.{if◌then◌else◌, Option, none, some}

unfoldable pub len_utf8 : ℕ → ℕ
len_utf8 c = if ltb c 0x80 then 1 else if ltb c 0x800 then 2 else if ltb c 0x1_0000 then 3 else 4

abbrev between : ℕ → ℕ → ℕ → Bool
between lo hi c = leb lo c && leb c hi

-- `char::is_whitespace`, the property White_Space of Unicode
unfoldable pub is_whitespace : ℕ → Bool
is_whitespace c =
    between 9 13 c
    || c == 0x20
    || c == 0x85
    || c == 0xa0
    || c == 0x1680
    || between 0x2000 0x200a c
    || between 0x2028 0x2029 c
    || c == 0x202f
    || c == 0x205f
    || c == 0x3000

unfoldable pub is_ascii_digit : ℕ → Bool
is_ascii_digit c = between b'0' b'9' c

unfoldable pub is_ascii_alphabetic : ℕ → Bool
is_ascii_alphabetic c = between b'a' b'z' c || between b'A' b'Z' c

-- `to_digit(10)`
unfoldable pub to_digit : ℕ → Option ℕ
unfolding is_ascii_digit
to_digit c = if is_ascii_digit c then some (c - b'0') else none

-- The number of bytes of a text.
unfoldable pub bytes_of : List ℕ → ℕ
bytes_of [] = 0
bytes_of (c ∷ cs) = len_utf8 c + bytes_of cs

-- `&text[offset..]`, which panics off a character boundary
unfoldable pub rest_at : List ℕ → ℕ → Option (List ℕ)
rest_at [] offset = if offset == 0 then some [] else none
rest_at (c ∷ cs) offset =
    let rest = rest_at cs (offset - len_utf8 c) in
    if offset == 0 then some (c ∷ cs) else if leb (len_utf8 c) offset then rest else none

-- The first `count` bytes of a text, which must end at a character boundary.
unfoldable pub front_to : List ℕ → ℕ → Option (List ℕ)
front_to [] count = if count == 0 then some [] else none
front_to (c ∷ cs) count =
    let rest = front_to cs (count - len_utf8 c) in
    if count == 0
    then some []
    else if leb (len_utf8 c) count
    then elim rest [ none ↦ none | some front ↦ some (c ∷ front) ]
    else none
