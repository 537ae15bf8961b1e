-- ===== src/Base/Bits.antt =====
-- Bit operations with constant masks as arithmetic, at every value. The library gives only the
-- recursion on binary digits that `bit_and` and `bit_or` stand for.
use Prim.Native.Nat.{
  ℕ, zero, suc, ◌+◌, ◌-◌, ◌*◌, ◌/◌, ◌%◌, ◌^◌, ◌≤◌, ◌<◌, min, max, digits, bit_and, bit_or,
  bit_and-bitwise, bit_or-bitwise,
}
use mathlib.Core.Path.{◌≡◌, refl, sym, ap, ◌∙◌}
use native.Mathlib.Nat.{le_refl, pow-suc, one-le-pow, mod-lt, div-add-mod'}
use native.Mathlib.Omega.{arith}

-- `!x` at a width of `w` bits.
abbrev pub not_bits : ℕ → ℕ → ℕ
not_bits w x = 2 ^ w - 1 - x

module _ (rest : ℕ → ℕ) (join : ℕ → ℕ → ℕ) where
  -- The count of rounds does not matter where it covers the first number.
  rounds_free :
      {x : ℕ} (y k l : ℕ) → x ≤ k → x ≤ l → digits rest join k x y ≡ digits rest join l x y
  rounds_free {x = zero} y zero zero hk hl = refl
  rounds_free {x = zero} y zero (suc l) hk hl = refl
  rounds_free {x = zero} y (suc k) zero hk hl = refl
  rounds_free {x = zero} y (suc k) (suc l) hk hl = refl
  rounds_free {x = suc x} y (suc k) (suc l) hk hl =
      rw (rounds_free {x = suc x / 2} (y / 2) k l (omega arith) (omega arith))
  rounds_free {x = suc x} y zero l hk hl = absurd (omega arith)
  rounds_free {x = suc x} y (suc k) zero hk hl = absurd (omega arith)

bit_and_digit : (x y : ℕ) → bit_and x y ≡ min (x % 2) (y % 2) + 2 * bit_and (x / 2) (y / 2)
bit_and_digit zero y = simp bit_and-bitwise (omega arith)
bit_and_digit (suc x) y =
    let halves = rounds_free (λ _. 0) min (y / 2) x (suc x / 2) (omega arith) (le_refl _) in
    omega (arith, halves, bit_and-bitwise (suc x) y, bit_and-bitwise (suc x / 2) (y / 2))

bit_or_digit : (x y : ℕ) → bit_or x y ≡ max (x % 2) (y % 2) + 2 * bit_or (x / 2) (y / 2)
bit_or_digit zero y = simp bit_or-bitwise (omega arith)
bit_or_digit (suc x) y =
    let halves = rounds_free (λ n. n) max (y / 2) x (suc x / 2) (omega arith) (le_refl _) in
    omega (arith, halves, bit_or-bitwise (suc x) y, bit_or-bitwise (suc x / 2) (y / 2))

digits-min_zero : (k x : ℕ) → digits (λ _. 0) min k x 0 ≡ 0
digits-min_zero zero x = refl
digits-min_zero (suc k) zero = refl
digits-min_zero (suc k) (suc x) = omega (arith, digits-min_zero k (suc x / 2))

pub bit_and-zero : (x : ℕ) → bit_and x 0 ≡ 0
bit_and-zero x = bit_and-bitwise x 0 ∙ digits-min_zero x x

digits-max_zero : (k x : ℕ) → x ≤ k → digits (λ n. n) max k x 0 ≡ x
digits-max_zero zero x h = omega arith
digits-max_zero (suc k) zero h = refl
digits-max_zero (suc k) (suc x) h = omega (arith, digits-max_zero k (suc x / 2) (omega arith))

pub bit_or-one : (x : ℕ) → bit_or x 1 ≡ x / 2 * 2 + 1
bit_or-one x =
    omega (
      arith,
      bit_or_digit x 1,
      bit_or-bitwise (x / 2) 0,
      digits-max_zero (x / 2) (x / 2) (le_refl _),
    )

-- One binary digit is taken off a split `q * 2 ^ k + r`.
mul_two_pow : (q k : ℕ) → q * 2 ^ suc k ≡ 2 * (q * 2 ^ k)
mul_two_pow q k = omega (arith, ap (λ (t : ℕ). q * t) (pow-suc 2 k))

bit_and-ones_split :
    (k q r a m : ℕ) → a ≡ q * 2 ^ k + r → r < 2 ^ k → m + 1 ≡ 2 ^ k → bit_and a m ≡ r
bit_and-ones_split zero q r a zero e h w = omega (arith, bit_and-zero a)
bit_and-ones_split zero q r a (suc m) e h w = absurd (omega arith)
bit_and-ones_split (suc k) q r a m e h w = ground (
  arith,
  pow-suc 2 k,
  one-le-pow k 2,
  mul_two_pow q k,
  bit_and_digit a m,
  bit_and-ones_split k q (r / 2) (a / 2) (m / 2) (omega (arith, mul_two_pow q k)),
)

half_mask : (m k : ℕ) → m * 2 ^ suc k / 2 ≡ m * 2 ^ k
half_mask m k = omega (arith, mul_two_pow m k)

bit_and-shift_split :
    (k q r a m : ℕ) → a ≡ q * 2 ^ k + r → r < 2 ^ k → bit_and a (m * 2 ^ k) ≡ bit_and q m * 2 ^ k
bit_and-shift_split zero q r a m e h =
    let ea : a ≡ q = omega arith in let em : m * 1 ≡ m = omega arith in rw (ea, em) (omega arith)
bit_and-shift_split (suc k) q r a m e h = ground (
  arith,
  pow-suc 2 k,
  mul_two_pow q k,
  mul_two_pow m k,
  mul_two_pow (bit_and q m) k,
  bit_and_digit a (m * 2 ^ suc k),
  half_mask m k,
  bit_and-shift_split k q (r / 2) (a / 2) m (omega (arith, mul_two_pow q k))
      (omega (arith, pow-suc 2 k)),
)

-- A mask of `k` ones keeps the value modulo `2 ^ k`.
pub bit_and-ones : (k a m : ℕ) → m + 1 ≡ 2 ^ k → bit_and a m ≡ a % 2 ^ k
bit_and-ones k a m w =
    bit_and-ones_split k (a / 2 ^ k) (a % 2 ^ k) a m (sym (div-add-mod' a (2 ^ k)))
      (mod-lt a (one-le-pow k 2 (omega arith))) w

-- A mask that ends in `k` zeros is applied to the value shifted by `k`.
pub bit_and-shift : (k a m : ℕ) → bit_and a (m * 2 ^ k) ≡ bit_and (a / 2 ^ k) m * 2 ^ k
bit_and-shift k a m =
    bit_and-shift_split k (a / 2 ^ k) (a % 2 ^ k) a m (sym (div-add-mod' a (2 ^ k)))
      (mod-lt a (one-le-pow k 2 (omega arith)))
