-- ===== src/Base/Utf8.antt =====
-- `std::str::from_utf8`, as crates/xtask/src/inspect.rs and image.rs call it.
pub mod Ascii
use Prim.Native.Nat.{ℕ, ◌+◌, ◌-◌, ◌*◌}
use mathlib.Core.Bool.{Bool, ◌&&◌}
use mathlib.Core.Option.{Option, none, some}
use mathlib.Core.List.{List, [], ◌∷◌}
use polytope_os.Base.Tests.{ltb, leb, ◌==◌, if◌then◌else◌}
use polytope_os.Base.Outcome.{match_option}

-- The decoder of `str::from_utf8` inside a character: the bytes that are left of it, the bounds of the
-- next one, and the bits read.
pub record Decoder : Type 0 where
  pub left : ℕ
  pub lo : ℕ
  pub hi : ℕ
  pub bits : ℕ

abbrev pub between : Decoder
between = record { left = 0; lo = 0; hi = 0; bits = 0 }

-- The first byte of a character. A byte below 0x80 is one.
unfoldable pub first_byte : ℕ → Option (Decoder × Option ℕ)
first_byte b =
    if ltb b 0x80
    then some (between, some b)
    else if ltb b 0xc2
    then none
    else if ltb b 0xe0
    then some (record { left = 1; lo = 0x80; hi = 0xbf; bits = b - 0xc0 }, none)
    else if ltb b 0xf0
    then some (
      record {
        left = 2;
        lo = if b == 0xe0 then 0xa0 else 0x80;
        hi = if b == 0xed then 0x9f else 0xbf;
        bits = b - 0xe0;
      },
      none,
    )
    else if ltb b 0xf5
    then some (
      record {
        left = 3;
        lo = if b == 0xf0 then 0x90 else 0x80;
        hi = if b == 0xf4 then 0x8f else 0xbf;
        bits = b - 0xf0;
      },
      none,
    )
    else none

-- A later byte.
unfoldable pub next_byte : Decoder → ℕ → Option (Decoder × Option ℕ)
next_byte self b =
    let bits = self.bits * 64 + (b - 0x80) in
    if leb self.lo b && leb b self.hi
    then some (
        if self.left == 1
        then (between, some bits)
        else (record { left = self.left - 1; lo = 0x80; hi = 0xbf; bits = bits }, none))
    else none

unfoldable pub push_char : Option ℕ → Option (List ℕ) → Option (List ℕ)
push_char none rest = rest
push_char (some c) none = none
push_char (some c) (some rest) = some (c ∷ rest)

unfoldable pub decode : Decoder → List ℕ → Option (List ℕ)
unfolding first_byte next_byte push_char
decode self [] = if self.left == 0 then some [] else none
decode self (b ∷ bytes) =
    match_option none (λ step. push_char step.1 (decode step.0 bytes))
      (if self.left == 0 then first_byte b else next_byte self b)

-- `std::str::from_utf8`, as the characters
unfoldable pub from_utf8 : List ℕ → Option (List ℕ)
unfolding decode
from_utf8 = decode between
