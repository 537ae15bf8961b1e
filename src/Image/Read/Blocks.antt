-- ===== src/Image/Read/Blocks.antt =====
-- crates/xtask/src/image.rs: ranges of logical blocks, as lists.
use polytope_os.Base.{
  ℕ, ◌+◌, ◌-◌, ◌*◌, ◌^◌, ◌≤◌, ◌<◌, ◌≡◌, ◌↔◌, refl, arith, List, [], ◌∷◌, All, length, take, drop,
  slice,
}
use polytope_os.Base.{length-take, length-drop, slice-eq-some, ◌==◌, true, ok}
use polytope_os.Harness.Text.{all}
use polytope_os.Image.Types.{Area}
use polytope_os.Image.Read.{lba_range, sector, ensure_zero}

abbrev pub AllZero : List ℕ → Type 0
AllZero = All (λ (b : ℕ). b ≡ 0)

pub all_zero_iff : (bytes : List ℕ) → (all (λ b. b == 0) bytes ≡ true) ↔ AllZero bytes
unfolding all
all_zero_iff [] = (λ e. tt, λ h. refl)
all_zero_iff (b ∷ bytes) = ground (arith, all_zero_iff bytes)

pub ensure_zero_iff :
    (bytes : List ℕ) (area : Area) → (ensure_zero bytes area ≡ ok tt) ↔ AllZero bytes
unfolding ensure_zero
ensure_zero_iff bytes area = ground (arith, all_zero_iff bytes)

-- The bytes of the blocks from `start` to `end`.
abbrev pub blocks : List ℕ → ℕ → ℕ → List ℕ
blocks bytes start end = take (end * 512 - start * 512) (drop (start * 512) bytes)

abbrev pub block : List ℕ → ℕ → List ℕ
block bytes lba = blocks bytes lba (lba + 1)

module _ (bytes : List ℕ) (start end : ℕ) (up : start ≤ end)
    (inside : end * 512 ≤ length bytes) where
  pub lba_range_inside :
      end * 512 < 2 ^ 64 → lba_range bytes start end ≡ ok (blocks bytes start end)
  unfolding lba_range
  lba_range_inside small =
      ground (arith, slice-eq-some bytes (start * 512) (end * 512) (omega arith) inside)

  pub length-blocks : length (blocks bytes start end) ≡ end * 512 - start * 512
  length-blocks = omega (
    arith,
    length-take (end * 512 - start * 512) (drop (start * 512) bytes),
    length-drop (start * 512) bytes,
  )

pub sector_inside :
    (bytes : List ℕ) (lba : ℕ)
    → (lba + 1) * 512 ≤ length bytes
    → (lba + 1) * 512 < 2 ^ 64
    → sector bytes lba ≡ ok (block bytes lba)
unfolding sector
sector_inside bytes lba inside small =
    ground (arith, lba_range_inside bytes lba (lba + 1) (omega arith) inside small)

pub length-block :
    (bytes : List ℕ) (lba : ℕ) → (lba + 1) * 512 ≤ length bytes → length (block bytes lba) ≡ 512
length-block bytes lba inside =
    omega (arith, length-blocks bytes lba (lba + 1) (omega arith) inside)

-- What a successful read of a range returns.
pub lba_range-eq-ok :
    (bytes : List ℕ) (start end : ℕ) {found : List ℕ}
    → lba_range bytes start end ≡ ok found
    → (start ≤ end) × (end * 512 ≤ length bytes) × (found ≡ blocks bytes start end)
unfolding lba_range slice
lba_range-eq-ok bytes start end e = ground arith

pub sector-eq-ok :
    (bytes : List ℕ) (lba : ℕ) {found : List ℕ}
    → sector bytes lba ≡ ok found
    → ((lba + 1) * 512 ≤ length bytes) × (found ≡ block bytes lba)
unfolding sector
sector-eq-ok bytes lba {found} e =
    ground (arith, lba_range-eq-ok bytes lba (lba + 1) {found = found})
