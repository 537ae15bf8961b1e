-- ===== src/Image/Read.antt =====
-- crates/xtask/src/image.rs: reads of little-endian numbers, and ranges of logical blocks.
pub mod Blocks
use polytope_os.Base.{ℕ, ◌+◌, leb, ◌==◌, List, slice, Option, none, some}
use polytope_os.Base.{Result, ok, err, panic, ◌>>=◌, ◌>>◌, ok_or, match_option}
use polytope_os.Base.Bytes.{from_le}
use polytope_os.Harness.Text.{all}
use polytope_os.Elf.Read.{checked_add, checked_mul}
use polytope_os.Image.Types.{Area, ImageError, ensure}
use polytope_os.Image.Types

-- `n` bytes at an offset, if they are there
unfoldable pub read : ℕ → List ℕ → ℕ → Option ℕ
read n bytes offset =
    match_option none
      (λ end. match_option none (λ raw. some (from_le raw)) (slice bytes offset end))
      (checked_add offset n)

unfoldable pub read_u16 : List ℕ → ℕ → Option ℕ
unfolding read
read_u16 = read 2

unfoldable pub read_u32 : List ℕ → ℕ → Option ℕ
unfolding read
read_u32 = read 4

unfoldable pub read_u64 : List ℕ → ℕ → Option ℕ
unfolding read
read_u64 = read 8

-- `usize` has 64 bits, so that the conversion keeps the product.
unfoldable pub lba_to_offset : ℕ → Result ImageError ℕ
lba_to_offset lba = ok_or (checked_mul lba Types.logical_block_bytes) Types.lba_overflow

unfoldable pub lba_range : List ℕ → ℕ → ℕ → Result ImageError (List ℕ)
unfolding lba_to_offset
lba_range bytes start_lba end_lba = do
  ensure (leb start_lba end_lba) Types.descending_range
  start ← lba_to_offset start_lba
  end ← lba_to_offset end_lba
  ok_or (slice bytes start end) Types.lba_outside

unfoldable pub sector : List ℕ → ℕ → Result ImageError (List ℕ)
unfolding lba_range
sector bytes lba = do end ← ok_or (checked_add lba 1) Types.lba_overflow; lba_range bytes lba end

unfoldable pub ensure_zero : List ℕ → Area → Result ImageError (Unit {0})
ensure_zero bytes description = ensure (all (λ b. b == 0) bytes) (Types.nonzero description)
