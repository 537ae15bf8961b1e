-- ===== src/Loader/Firmware.antt =====
-- What crates/uefi-loader/src/main.rs calls of the crate uefi, as a record of functions, and the memory
-- that it writes. The crate is not part of the repository.
use polytope_os.Base.{ℕ, zero, suc, ◌+◌, ◌-◌, ltb, leb, List, [], ◌∷◌, length, Bool, ◌&&◌}
use polytope_os.Base.{if◌then◌else◌, Option}
use polytope_os.Base.Chunks.{Reads}

-- The pages and the bytes of the machine. The state `S` is the firmware's own.
pub record Machine (S : Type 0) : Type 0 where
  pub firmware : S
  pub memory : ℕ → ℕ

-- `uefi::boot::AllocateType`
pub data AllocateType : Type 0 where
  any_pages : AllocateType
  at_address : ℕ → AllocateType

-- What `open` returns: `into_regular_file` is `none` on a directory.
pub record Handle : Type 0 where
  pub into_regular_file : Option Reads

-- `open` on a path; `none` is an error.
abbrev pub Directory : Type 0
Directory = List ℕ → Option Handle

-- `none` is an error. `allocate_pages` returns the address of the pages.
pub record Firmware (S : Type 0) : Type 0 where
  -- `get_image_file_system`, and `open_volume` on what it returns
  pub file_system : Option (Option Directory)
  -- whether `try_reserve_exact` finds the memory, on a length and what it is to grow by
  pub reserve : ℕ → ℕ → Bool
  pub allocate_pages : AllocateType → ℕ → ℕ → Machine S → Option (ℕ × Machine S)

-- The value at an index of a list, and 0 behind its end.
unfoldable pub byte_at : List ℕ → ℕ → ℕ
byte_at [] i = 0
byte_at (b ∷ bs) zero = b
byte_at (b ∷ bs) (suc i) = byte_at bs i

-- `ptr::write_bytes(destination, value, count)`
unfoldable pub write_bytes : ℕ → ℕ → ℕ → (ℕ → ℕ) → ℕ → ℕ
write_bytes destination value count memory x =
    if leb destination x && ltb x (destination + count) then value else memory x

-- `ptr::copy_nonoverlapping(source, destination, source.len())`
unfoldable pub copy_nonoverlapping : List ℕ → ℕ → (ℕ → ℕ) → ℕ → ℕ
unfolding byte_at
copy_nonoverlapping source destination memory x =
    if leb destination x && ltb x (destination + length source)
    then byte_at source (x - destination)
    else memory x
