-- ===== src/Image/Files/Whole.antt =====
-- crates/xtask/src/image.rs: `read_fat_file`, on a file that it reads to its end.
use polytope_os.Base.{ℕ, ◌+◌, ◌≤◌, ◌<◌, ◌^◌, ◌≡◌, arith, List, [], ◌++◌, length, Bool, true}
use polytope_os.Base.{ok, some}
use polytope_os.Base.Chunks.{Reads}
use polytope_os.Base.Chunks.Ends.{IsWhole}
use polytope_os.Base.Chunks.Whole.{loop_whole}
use polytope_os.Image.Types.{ImageError, ensure}
use polytope_os.Image.Types
use polytope_os.Image.Files.{take_chunk, read_fat_file}

module _ (reserve : ℕ → ℕ → Bool) (maximum : ℕ) (reads : Reads)
    (enough : (size more : ℕ) → reserve size more ≡ true)
    (short : (at : ℕ) (chunk : List ℕ) → reads at ≡ some chunk → length chunk ≤ 8_192)
    (small : maximum < 2 ^ 64) where
  take_chunk_all :
      (at : ℕ) (bytes chunk : List ℕ)
      → reads at ≡ some chunk
      → length bytes + length chunk ≤ maximum
      → take_chunk reserve maximum bytes chunk ≡ ok (bytes ++ chunk)
  unfolding take_chunk
  take_chunk_all at bytes chunk found fits =
      let is_short = short at chunk found in
      ground (arith, is_short, enough (length bytes) (length chunk), fits, small)

  -- Where the memory suffices, the reads return no more than the buffer of 8 KiB each, and the maximum
  -- is below 2^64: a file that has no more than the maximum before its first empty read is returned, all of it.
  pub read_fat_file_whole :
      (out : List ℕ)
      → IsWhole reads maximum 0 [] out
      → read_fat_file reserve maximum reads ≡ some (ok out)
  unfolding read_fat_file
  read_fat_file_whole out whole =
      loop_whole (take_chunk reserve maximum) Types.file_read maximum reads take_chunk_all out whole
