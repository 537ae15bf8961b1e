-- ===== src/Base/Bytes.antt =====
-- Little-endian integers as byte lists: `to_le_bytes` and `from_le_bytes` of Rust's integers.
use mathlib.Core.Path.{◌≡◌, refl, sym, ap, ◌∙◌}
use mathlib.Core.List.{List, [], ◌∷◌, ◌++◌}
use Prim.Native.Nat.{ℕ, zero, suc, ◌+◌, ◌*◌, ◌/◌, ◌%◌, ◌^◌, ◌<◌}
use native.Mathlib.Nat.{pow-suc}
use native.Mathlib.Omega.{arith}
use polytope_os.Base.Lists.{length, take, drop, All, take-append-drop, length-take}
use polytope_os.Base.Lists.{length-drop, All-take, All-drop}

abbrev pub IsByte : ℕ → Type 0
IsByte b = b < 256

abbrev pub IsU16 : ℕ → Type 0
IsU16 v = v < 2 ^ 16

abbrev pub IsU32 : ℕ → Type 0
IsU32 v = v < 2 ^ 32

abbrev pub IsU64 : ℕ → Type 0
IsU64 v = v < 2 ^ 64

-- `to_le_bytes` of an integer of `n` bytes.
unfoldable pub to_le : ℕ → ℕ → List ℕ
to_le zero v = []
to_le (suc n) v = (v % 256) ∷ to_le n (v / 256)

unfoldable pub from_le : List ℕ → ℕ
from_le [] = 0
from_le (b ∷ bs) = b + 256 * from_le bs

pub length-to_le : (n v : ℕ) → length (to_le n v) ≡ n
unfolding to_le
length-to_le zero v = refl
length-to_le (suc n) v = ap suc (length-to_le n (v / 256))

pub to_le-IsByte : (n v : ℕ) → All IsByte (to_le n v)
unfolding to_le
to_le-IsByte zero v = tt
to_le-IsByte (suc n) v = (omega arith, to_le-IsByte n (v / 256))

pub from_le-to_le : (n v : ℕ) → v < 256 ^ n → from_le (to_le n v) ≡ v
unfolding from_le to_le
from_le-to_le zero v h = omega arith
from_le-to_le (suc n) v h =
    omega (arith, pow-suc 256 n, from_le-to_le n (v / 256) (omega (arith, pow-suc 256 n)))

pub from_le-lt : (bs : List ℕ) → All IsByte bs → from_le bs < 256 ^ length bs
unfolding from_le
from_le-lt [] h = omega arith
from_le-lt (b ∷ bs) h = omega (arith, pow-suc 256 (length bs), from_le-lt bs h.1)

pub to_le-from_le : (bs : List ℕ) → All IsByte bs → to_le (length bs) (from_le bs) ≡ bs
unfolding to_le from_le
to_le-from_le [] h = refl
to_le-from_le (b ∷ bs) h =
    let low : (b + 256 * from_le bs) % 256 ≡ b = omega arith in
    let high : (b + 256 * from_le bs) / 256 ≡ from_le bs = omega arith in
    rw (low, high, to_le-from_le bs h.1)

-- The first `n` bytes of a byte list, and what follows.
pub record Split (n m : ℕ) (bytes : List ℕ) : Type 0 where
  pub front : List ℕ
  pub rest : List ℕ
  pub joined : bytes ≡ front ++ rest
  pub length_front : length front ≡ n
  pub length_rest : length rest ≡ m
  pub front_bytes : All IsByte front
  pub rest_bytes : All IsByte rest

pub split : (n m : ℕ) (bytes : List ℕ) → length bytes ≡ n + m → All IsByte bytes → Split n m bytes
split n m bytes e h = record {
  front = take n bytes;
  rest = drop n bytes;
  joined = sym (take-append-drop n bytes);
  length_front = omega (arith, length-take n bytes);
  length_rest = omega (arith, length-drop n bytes);
  front_bytes = All-take IsByte n bytes h;
  rest_bytes = All-drop IsByte n bytes h;
}

-- The same, with the first `n` bytes read as an integer.
pub record SplitWord (n m : ℕ) (bytes : List ℕ) : Type 0 where
  pub word : ℕ
  pub rest : List ℕ
  pub joined : bytes ≡ to_le n word ++ rest
  pub in_range : word < 256 ^ n
  pub length_rest : length rest ≡ m
  pub rest_bytes : All IsByte rest

pub split_word :
    (n m : ℕ) (bytes : List ℕ) → length bytes ≡ n + m → All IsByte bytes → SplitWord n m bytes
split_word n m bytes e h =
    let s = split n m bytes e h in
    record {
      word = from_le s.front;
      rest = s.rest;
      joined =
          s.joined ∙ ap (λ t. t ++ s.rest) (sym (word_bytes s.front s.length_front s.front_bytes));
      in_range = rw s.length_front at (from_le-lt s.front s.front_bytes);
      length_rest = s.length_rest;
      rest_bytes = s.rest_bytes;
    }
  where
    word_bytes :
        (front : List ℕ) → length front ≡ n → All IsByte front → to_le n (from_le front) ≡ front
    word_bytes front l b = rw (← l) (to_le-from_le front b)
