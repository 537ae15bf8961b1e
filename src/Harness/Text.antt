-- ===== src/Harness/Text.antt =====
-- The operations on byte slices that the protocol checks of crates/xtask/src/qemu.rs use.
use Prim.Native.String.{String}
use Prim.Native.Char.{code}
use polytope_os.Base.{ℕ, ◌+◌, ◌-◌, ◌*◌, ◌^◌, ltb, leb, ◌==◌, List, [], ◌∷◌}
use polytope_os.Base.{Bool, true, false, ◌&&◌, if◌then◌else◌, Option, none, some}

-- The bytes of an ASCII text.
abbrev pub codes : String → List ℕ
codes String.[] = []
codes (String.◌∷◌ c s) = code c ∷ codes s

unfoldable pub starts_with : List ℕ → List ℕ → Bool
starts_with bytes [] = true
starts_with [] (p ∷ prefix) = false
starts_with (b ∷ bytes) (p ∷ prefix) = b == p && starts_with bytes prefix

unfoldable pub strip_prefix : List ℕ → List ℕ → Option (List ℕ)
strip_prefix bytes [] = some bytes
strip_prefix [] (p ∷ prefix) = none
strip_prefix (b ∷ bytes) (p ∷ prefix) =
    let rest = strip_prefix bytes prefix in if b == p then rest else none

-- `iter().all(test)`
unfoldable pub all : (ℕ → Bool) → List ℕ → Bool
all test [] = true
all test (b ∷ bytes) = test b && all test bytes

-- `split` at a space: there is always a first field.
unfoldable pub split_spaces : List ℕ → List ℕ × List (List ℕ)
split_spaces [] = ([], [])
split_spaces (b ∷ bytes) =
    let (field, fields) = split_spaces bytes in
    if b == b' ' then ([], field ∷ fields) else (b ∷ field, fields)

abbrev pub fields_of : List ℕ → List (List ℕ)
fields_of bytes = let (field, fields) = split_spaces bytes in field ∷ fields

unfoldable pub is_digit : ℕ → Bool
is_digit b = leb b'0' b && leb b b'9'

unfoldable pub is_lowercase : ℕ → Bool
is_lowercase b = leb b'a' b && leb b b'z'

unfoldable pub is_uppercase : ℕ → Bool
is_uppercase b = leb b'A' b && leb b b'Z'

-- The digits of `str::parse`, where the value stays below `limit`.
unfoldable pub parse_digits : ℕ → ℕ → List ℕ → Option ℕ
unfolding is_digit
parse_digits limit value [] = some value
parse_digits limit value (b ∷ bytes) =
    let value' = value * 10 + (b - b'0') in
    let rest = parse_digits limit value' bytes in
    if is_digit b && ltb value' limit then rest else none

-- `str::parse` of a `u16`, which takes a leading `+`
unfoldable pub parse_u16 : List ℕ → Option ℕ
parse_u16 [] = none
parse_u16 (b ∷ []) = parse_digits (2 ^ 16) 0 (b ∷ [])
parse_u16 (b ∷ c ∷ bytes) = parse_digits (2 ^ 16) 0 (if b == b'+' then c ∷ bytes else b ∷ c ∷ bytes)

-- `strip_suffix(b"\r").unwrap_or(line)`
unfoldable pub strip_return : List ℕ → List ℕ
strip_return [] = []
strip_return (b ∷ []) = if b == b'\r' then [] else b ∷ []
strip_return (b ∷ c ∷ bytes) = b ∷ strip_return (c ∷ bytes)
