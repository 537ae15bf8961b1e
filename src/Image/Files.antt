-- ===== src/Image/Files.antt =====
-- crates/xtask/src/image.rs: `read_fat_file`, on a file that was opened.
pub mod Ends
pub mod Whole
use polytope_os.Base.{ℕ, ◌+◌, leb, List, [], ◌++◌, length, Bool, true, false, Option}
use polytope_os.Base.{Result, ok, ◌>>=◌, ◌>>◌, ok_or, or_panic, if◌then◌else◌, some, none}
use polytope_os.Base.Chunks.{Reads, new_length_of, read_loop}
use polytope_os.Image.Types.{ImageError, ensure}
use polytope_os.Image.Types

-- What a round of the loop does with a read of `length chunk` bytes, which is not 0: the checks, and then
-- the longer vector. `reserve` says whether `try_reserve_exact` finds the memory. `&chunk[..read]` panics
-- behind the end of the buffer of 8 KiB.
unfoldable pub take_chunk : (ℕ → ℕ → Bool) → ℕ → List ℕ → List ℕ → Result ImageError (List ℕ)
take_chunk reserve maximum bytes chunk = do
  new_length ← ok_or (new_length_of (length bytes) (length chunk)) Types.file_length_overflow
  ensure (leb new_length maximum) Types.file_too_large
  ensure (reserve (length bytes) (length chunk)) Types.file_reserve
  read ← or_panic (if leb (length chunk) 8_192 then some chunk else none)
  ok (bytes ++ read)

-- The loop ends within two more rounds than the maximum.
unfoldable pub read_fat_file : (ℕ → ℕ → Bool) → ℕ → Reads → Option (Result ImageError (List ℕ))
read_fat_file reserve maximum reads =
    read_loop (take_chunk reserve maximum) Types.file_read (maximum + 2) reads 0 []
