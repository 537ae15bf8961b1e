-- ===== src/Image/Files/Ends.antt =====
-- crates/xtask/src/image.rs: the end of `read_fat_file`.
use polytope_os.Base.{ℕ, ◌+◌, ◌≤◌, ◌≡◌, arith, List, [], ◌++◌, length, length-append, Bool, some}
use polytope_os.Base.{Result, ok}
use polytope_os.Base.Chunks.{Reads}
use polytope_os.Base.Chunks.Ends.{IsWhole, loop_ends}
use polytope_os.Image.Types.{ImageError}
use polytope_os.Image.Types
use polytope_os.Image.Files.{take_chunk, read_fat_file}

take_chunk-eq-ok :
    (reserve : ℕ → ℕ → Bool) (maximum : ℕ) (bytes chunk longer : List ℕ)
    → take_chunk reserve maximum bytes chunk ≡ ok longer
    → (longer ≡ bytes ++ chunk) × (length longer ≤ maximum)
unfolding take_chunk
take_chunk-eq-ok reserve maximum bytes chunk longer e = ground (arith, length-append bytes chunk)

module _ (reserve : ℕ → ℕ → Bool) (maximum : ℕ) (reads : Reads) where
  -- The loop of `read_fat_file` ends within two more rounds than the maximum, whatever the file's reads
  -- return; and where it returns bytes, these are all that the file had before its first empty read,
  -- and no more than the maximum.
  pub read_fat_file_ends :
      (result : Result ImageError (List ℕ)) × (read_fat_file reserve maximum reads ≡ some result)
      × ((out : List ℕ) → result ≡ ok out → IsWhole reads maximum 0 [] out)
  unfolding read_fat_file
  read_fat_file_ends =
      loop_ends (take_chunk reserve maximum) Types.file_read maximum
        (take_chunk-eq-ok reserve maximum) reads (maximum + 2) 0 [] (omega arith) (omega arith)
