-- ===== src/Inspect/Hex/Numeral.antt =====
-- crates/xtask/src/inspect.rs: `parse_hex` and its prefixes.
use polytope_os.Base.{ℕ, ◌≡◌, ◌≢◌, ◌↔◌, ◌⊎◌, inl, inr, refl, ◌∙◌, append_assoc, arith}
use polytope_os.Base.{[], ◌∷◌, ◌++◌, ◌==◌, false, none, some, ok}
use polytope_os.Base.{match_option, Bool-cases}
use polytope_os.Harness.Text.{codes, strip_prefix}
use polytope_os.Inspect.Types.{Text}
use polytope_os.Inspect.Words.{hex_digit, hex_digits, from_str_radix, parse_hex}
use polytope_os.Inspect.Hex.{
  AreHex, hex_digits_iff, radix_digits, radix_plus, radix_split, IsNumeral,
}

-- A text that `parse_hex` strips of `0x` has it, and another has it not.
strip_cases :
    (text : Text)
    → ((rest : Text) × (text ≡ b'0' ∷ b'x' ∷ rest) × (strip_prefix text (codes "0x") ≡ some rest))
      ⊎ (strip_prefix text (codes "0x") ≡ none)
unfolding strip_prefix
strip_cases [] = inr refl
strip_cases (a ∷ []) = inr (ground arith)
strip_cases (a ∷ b ∷ cs) = elim (Bool-cases (a == b'0')) [
  | inl zero_digit ↦ elim (Bool-cases (b == b'x')) [
    | inl x ↦ inl (cs, ground (arith, zero_digit, x), rw (zero_digit, x))
    | inr other ↦ inr (rw (zero_digit, other))
  ]
  | inr other ↦ inr (rw other)
]

-- The text behind `0x`, or the whole text.
parse_hex-eq :
    (text rest : Text) (line : ℕ)
    → match_option text (λ stripped. stripped) (strip_prefix text (codes "0x")) ≡ rest
    → (n : ℕ) → (parse_hex text line ≡ ok n) ↔ (from_str_radix rest ≡ some n)
unfolding parse_hex from_str_radix
parse_hex-eq text [] line e n = rw e (ground arith)
parse_hex-eq text (c ∷ rest) line e n = rw e (ground arith)

-- A numeral behind `front`, which is empty or `0x`.
radix-IsNumeral :
    (text front rest : Text) {n : ℕ}
    → (front ≡ []) ⊎ (front ≡ codes "0x")
    → text ≡ front ++ rest
    → from_str_radix rest ≡ some n
    → IsNumeral text n
radix-IsNumeral text front rest {n} fronts spelled read =
    let (digits, signed, nonempty, value) = radix_split rest read in
    let (hex, positional, in_range) = (hex_digits_iff 0 digits n (omega arith)).0 value in
    elim signed [
      | inl same ↦ record {
        prefix = front;
        digits = digits;
        spelled = rw (← same) spelled;
        prefixes = ground arith;
        nonempty = nonempty;
        are_hex = hex;
        positional = omega (arith, positional);
        in_range = in_range;
      }
      | inr plus ↦ record {
        prefix = front ++ b'+' ∷ [];
        digits = digits;
        spelled = rw (append_assoc, ← plus) spelled;
        prefixes = ground arith;
        nonempty = nonempty;
        are_hex = hex;
        positional = omega (arith, positional);
        in_range = in_range;
      }
    ]

parse_hex-IsNumeral :
    (text : Text) (line : ℕ) {n : ℕ} → parse_hex text line ≡ ok n → IsNumeral text n
parse_hex-IsNumeral text line {n} e = elim (strip_cases text) [
  | inl (rest, spelled, stripped) ↦
      radix-IsNumeral text (codes "0x") rest (inr refl) spelled
        ((parse_hex-eq text rest line (rw stripped) n).0 e)
  | inr bare ↦
      radix-IsNumeral text [] text (inl refl) refl ((parse_hex-eq text text line (rw bare) n).0 e)
]

x_is_no_digit : (c : ℕ) → hex_digit c ≢ none → (c == b'x') ≡ false
unfolding hex_digit
x_is_no_digit c h = ground arith

-- Digits, and digits behind a plus sign, do not start with `0x`.
strip_digits : (digits : Text) → AreHex digits → strip_prefix digits (codes "0x") ≡ none
unfolding strip_prefix
strip_digits [] hex = refl
strip_digits (a ∷ []) hex = ground arith
strip_digits (a ∷ b ∷ cs) hex = ground (arith, x_is_no_digit b hex.1.0)

strip_plus : (digits : Text) → strip_prefix (b'+' ∷ digits) (codes "0x") ≡ none
unfolding strip_prefix
strip_plus digits = refl

strip_hex : (text : Text) → strip_prefix (codes "0x" ++ text) (codes "0x") ≡ some text
unfolding strip_prefix
strip_hex text = refl

IsNumeral-parse_hex : (text : Text) (line n : ℕ) → IsNumeral text n → parse_hex text line ≡ ok n
IsNumeral-parse_hex text line n h = rw h.spelled (
    by_prefix h.prefix h.digits h.prefixes h.nonempty h.are_hex (
      (hex_digits_iff 0 h.digits n (omega arith)).1
        (h.are_hex, omega (arith, h.positional), h.in_range)))
  where
    by_prefix :
        (prefix digits : Text)
        → (prefix ≡ []) ⊎ (prefix ≡ codes "+") ⊎ (prefix ≡ codes "0x") ⊎ (prefix ≡ codes "0x+")
        → digits ≢ []
        → AreHex digits
        → hex_digits 0 digits ≡ some n
        → parse_hex (prefix ++ digits) line ≡ ok n
    by_prefix prefix digits (inl e) nonempty hex value = rw e (
        (parse_hex-eq digits digits line (rw (strip_digits digits hex)) n).1
          (radix_digits digits nonempty hex ∙ value))
    by_prefix prefix digits (inr (inl e)) nonempty hex value = rw e (
        (parse_hex-eq (b'+' ∷ digits) (b'+' ∷ digits) line (rw (strip_plus digits)) n).1
          (radix_plus digits nonempty ∙ value))
    by_prefix prefix digits (inr (inr (inl e))) nonempty hex value = rw e (
        (parse_hex-eq (codes "0x" ++ digits) digits line (rw (strip_hex digits)) n).1
          (radix_digits digits nonempty hex ∙ value))
    by_prefix prefix digits (inr (inr (inr e))) nonempty hex value = rw e (
        (parse_hex-eq (codes "0x" ++ b'+' ∷ digits) (b'+' ∷ digits) line
            (rw (strip_hex (b'+' ∷ digits))) n).1
          (radix_plus digits nonempty ∙ value))

-- `parse_hex` reads a number from a text just where the text is a hexadecimal numeral of it: one or
-- more digits, maybe behind `0x`, a plus sign or both, whose positional value is the number and fits
-- 64 bits.
pub parse_hex_iff : (text : Text) (line n : ℕ) → (parse_hex text line ≡ ok n) ↔ IsNumeral text n
parse_hex_iff text line n = (parse_hex-IsNumeral text line, IsNumeral-parse_hex text line n)
