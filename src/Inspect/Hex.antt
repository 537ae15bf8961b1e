-- ===== src/Inspect/Hex.antt =====
-- crates/xtask/src/inspect.rs: `parse_hex` against the positional value of its digits.
pub mod Numeral
use native.Mathlib.Nat.{pow-suc}
use polytope_os.Base.{
  ℕ, zero, suc, ◌+◌, ◌*◌, ◌^◌, ◌≤◌, ◌<◌, ◌≡◌, ◌≢◌, ◌↔◌, ◌⊎◌, inl, inr, refl, ap, ◌∙◌, append_assoc,
  arith,
}
use polytope_os.Base.{
  List, [], ◌∷◌, ◌++◌, All, length, ltb, ◌==◌, true, false, Option, none, some, ok,
}
use polytope_os.Base.{match_option, ==_iff, Option-cases, Bool-cases, if◌then◌else◌, lt→ltb, le→ltb}
use polytope_os.Harness.Text.{codes, strip_prefix}
use polytope_os.Inspect.Types.{Text}
use polytope_os.Inspect.Words.{hex_digit, hex_digits, from_str_radix, parse_hex}

abbrev pub digit_value : ℕ → ℕ
digit_value c = match_option 0 (λ digit. digit) (hex_digit c)

-- The positional value.
unfoldable pub value_of : Text → ℕ
value_of [] = 0
value_of (c ∷ cs) = digit_value c * 16 ^ length cs + value_of cs

abbrev pub AreHex : Text → Type 0
AreHex = All (λ (c : ℕ). hex_digit c ≢ none)

one-le-pow16 : (n : ℕ) → 1 ≤ 16 ^ n
one-le-pow16 zero = omega arith
one-le-pow16 (suc n) = omega (arith, pow-suc 16 n, one-le-pow16 n)

scale_by : (value d w v : ℕ) → value * (w * 16) + (d * w + v) ≡ (value * 16 + d) * w + v
scale_by value d w v = grind arith

scale : (value d k v : ℕ) → value * 16 ^ suc k + (d * 16 ^ k + v) ≡ (value * 16 + d) * 16 ^ k + v
scale value d k v = rw (pow-suc 16 k) (scale_by value d (16 ^ k) v)

le-scale : (value k v : ℕ) → value ≤ value * 16 ^ k + v
le-scale value k v = grind (arith, one-le-pow16 k)

pub hex_digits_iff :
    (value : ℕ) (cs : Text) (n : ℕ)
    → value < 2 ^ 64
    → (hex_digits value cs ≡ some n)
      ↔ AreHex cs × (n ≡ value * 16 ^ length cs + value_of cs) × (n < 2 ^ 64)
unfolding hex_digits value_of
hex_digits_iff value [] n h = ground arith
hex_digits_iff value (c ∷ cs) n h = elim (Option-cases (hex_digit c)) [
  | inl none_found ↦ ground (arith, none_found)
  | inr (d, found) ↦ ground (
    arith,
    found,
    scale value d (length cs) (value_of cs),
    le-scale (value * 16 + d) (length cs) (value_of cs),
    hex_digits_iff (value * 16 + d) cs n,
  )
]

plus_is_no_digit : (c : ℕ) → hex_digit c ≢ none → (c == b'+') ≡ false
unfolding hex_digit
plus_is_no_digit c h = ground arith

pub radix_digits :
    (digits : Text) → digits ≢ [] → AreHex digits → from_str_radix digits ≡ hex_digits 0 digits
unfolding from_str_radix
radix_digits [] nonempty hex = absurd (nonempty refl)
radix_digits (c ∷ []) nonempty hex = refl
radix_digits (c ∷ d ∷ cs) nonempty hex = rw (plus_is_no_digit c hex.0)

pub radix_plus :
    (digits : Text) → digits ≢ [] → from_str_radix (b'+' ∷ digits) ≡ hex_digits 0 digits
unfolding from_str_radix
radix_plus [] nonempty = absurd (nonempty refl)
radix_plus (c ∷ cs) nonempty = refl

-- The digits of a text that is read.
pub radix_split :
    (text : Text) {n : ℕ}
    → from_str_radix text ≡ some n
    → (digits : Text) × ((text ≡ digits) ⊎ (text ≡ b'+' ∷ digits))
      × (digits ≢ [])
      × (hex_digits 0 digits ≡ some n)
unfolding from_str_radix
radix_split [] e = cc
radix_split (c ∷ []) e = (c ∷ [], inl refl, λ h. cc, e)
radix_split (c ∷ d ∷ cs) e = elim (Bool-cases (c == b'+')) [
  | inl plus ↦ (d ∷ cs, inr (ap (λ x. x ∷ d ∷ cs) ((==_iff c b'+').0 plus)), λ h. cc, rw plus at e)
  | inr other ↦ (c ∷ d ∷ cs, inl refl, λ h. cc, rw other at e)
]

-- A hexadecimal numeral: digits, maybe behind `0x`, a plus sign or both, whose value fits 64 bits.
pub record IsNumeral (text : Text) (n : ℕ) : Type 0 where
  pub prefix : Text
  pub digits : Text
  pub spelled : text ≡ prefix ++ digits
  pub prefixes :
      (prefix ≡ []) ⊎ (prefix ≡ codes "+") ⊎ (prefix ≡ codes "0x") ⊎ (prefix ≡ codes "0x+")
  pub nonempty : digits ≢ []
  pub are_hex : AreHex digits
  pub positional : n ≡ value_of digits
  pub in_range : n < 2 ^ 64
