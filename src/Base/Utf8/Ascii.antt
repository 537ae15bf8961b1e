-- ===== src/Base/Utf8/Ascii.antt =====
-- `std::str::from_utf8` on texts of ASCII characters.
use Prim.Native.Nat.{ℕ, ◌+◌, ◌-◌, ◌*◌, ◌≤◌, ◌<◌}
use mathlib.Core.Path.{◌≡◌, refl, ap}
use mathlib.Core.Logic.{◌⊎◌, inl, inr}
use mathlib.Core.Bool.{false}
use mathlib.Core.Option.{Option, none, some}
use mathlib.Core.List.{List, [], ◌∷◌}
use native.Mathlib.Omega.{arith}
use polytope_os.Base.Tests.{ltb, ◌==◌, Bool-cases, Option-cases}
use polytope_os.Base.Lists.{All}
use polytope_os.Base.Utf8.{Decoder, between, first_byte, next_byte, push_char, decode, from_utf8}

abbrev pub IsAscii : List ℕ → Type 0
IsAscii = All (λ (c : ℕ). c < 0x80)

-- A decoder inside a character of several bytes, which will be 0x80 or more.
record IsInside (d : Decoder) : Type 0 where
  left_lo : 1 ≤ d.left
  lo_lo : 0x80 ≤ d.lo
  one : d.left ≡ 1 → 0x80 ≤ d.bits * 64 + (d.lo - 0x80)
  two : d.left ≡ 2 → 2 ≤ d.bits * 64 + (d.lo - 0x80)
  three : 3 ≤ d.left → 1 ≤ d.bits * 64 + (d.lo - 0x80)
  left_hi : d.left ≤ 3

first_byte_cases :
    (b : ℕ) {step : Decoder × Option ℕ}
    → first_byte b ≡ some step
    → (step ≡ (between, some b)) ⊎ ((step.1 ≡ none) × IsInside step.0)
unfolding first_byte
first_byte_cases b {step} e = elim (Bool-cases (ltb b 0x80)) [
  | inl ascii ↦ inl (ground (arith, ascii))
  | inr more ↦ inr (
    ground arith,
    record {
      left_lo = ground arith;
      lo_lo = ground arith;
      one = ground arith;
      two = ground arith;
      three = ground arith;
      left_hi = ground arith;
    },
  )
]

next_byte_cases :
    (d : Decoder) (b : ℕ) {step : Decoder × Option ℕ}
    → IsInside d
    → next_byte d b ≡ some step
    → ((c : ℕ) × (step.1 ≡ some c) × (0x80 ≤ c)) ⊎ ((step.1 ≡ none) × IsInside step.0)
unfolding next_byte
next_byte_cases d b {step} h e = elim (Bool-cases (d.left == 1)) [
  | inl last ↦ inl (d.bits * 64 + (b - 0x80), ground arith, ground arith)
  | inr more ↦ inr (
    ground arith,
    record {
      left_lo = ground arith;
      lo_lo = ground arith;
      one = ground arith;
      two = ground arith;
      three = ground arith;
      left_hi = ground arith;
    },
  )
]

push_char-eq-some :
    (c : ℕ) (rest : Option (List ℕ)) {text : List ℕ}
    → push_char (some c) rest ≡ some text
    → (text' : List ℕ) × (rest ≡ some text') × (text ≡ c ∷ text')
unfolding push_char
push_char-eq-some c none e = cc
push_char-eq-some c (some text') e = (text', refl, ground arith)

-- No ASCII text comes of a decoder that is inside a character.
inside_no_ascii :
    (d : Decoder) (bytes text : List ℕ) → IsInside d → decode d bytes ≡ some text → IsAscii text → ⊥
unfolding decode push_char
inside_no_ascii d [] text h e a = ground arith
inside_no_ascii d (b ∷ bytes) text h e a =
    let not_zero : (d.left == 0) ≡ false = ground arith in
    elim (Option-cases (next_byte d b)) [
      | inl refused ↦ ground (arith, not_zero, refused)
      | inr (step, taken) ↦ elim (next_byte_cases d b h taken) [
        | inl (c, emitted, big) ↦
            let e1 : push_char (some c) (decode step.0 bytes) ≡ some text =
              ground (arith, not_zero, taken, emitted) in
            let (text', rest, cons) = push_char-eq-some c (decode step.0 bytes) e1 in
            first_is_small c text' text cons a big
        | inr (none_yet, inside) ↦
            inside_no_ascii step.0 bytes text inside (ground (arith, not_zero, taken, none_yet)) a
      ]
    ]
  where
    first_is_small : (c : ℕ) (text' text : List ℕ) → text ≡ c ∷ text' → IsAscii text → 0x80 ≤ c → ⊥
    first_is_small c text' text cons a big = let a' = rw cons at a in omega arith

-- An ASCII text is decoded from its own bytes alone.
pub ascii_decoded :
    (bytes text : List ℕ) → IsAscii text → from_utf8 bytes ≡ some text → bytes ≡ text
unfolding from_utf8 decode
ascii_decoded bytes text a e = by_bytes bytes text a e
  where
    by_bytes :
        (bytes text : List ℕ) → IsAscii text → decode between bytes ≡ some text → bytes ≡ text
    by_bytes [] text a e = ground arith
    by_bytes (b ∷ bytes) text a e = elim (Option-cases (first_byte b)) [
      | inl refused ↦ absurd (ground (arith, refused))
      | inr (step, taken) ↦ elim (first_byte_cases b taken) [
        | inl whole ↦
            let e1 : push_char (some b) (decode between bytes) ≡ some text =
              ground (arith, taken, whole) in
            let (text', rest, cons) = push_char-eq-some b (decode between bytes) e1 in
            let a' = rw cons at a in rw cons (ap (λ x. b ∷ x) (by_bytes bytes text' a'.1 rest))
        | inr (none_yet, inside) ↦
            absurd (inside_no_ascii step.0 bytes text inside (ground (arith, taken, none_yet)) a)
      ]
    ]
