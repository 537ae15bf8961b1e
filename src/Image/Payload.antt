-- ===== src/Image/Payload.antt =====
-- crates/xtask/src/image.rs: `validate_uefi_loader`, `validate_kernel_elf` and `read_host_artifact`.
pub mod Correct
use polytope_os.Base.{ℕ, ◌+◌, leb, List, [], ◌∷◌, ◌++◌, length, slice, list_eq, Bool, true, false}
use polytope_os.Base.{Option, none, some, Result, ok, ◌>>=◌, ◌>>◌, ok_or, map_err, match_option}
use polytope_os.Harness.Text.{codes}
use polytope_os.Elf.Read.{checked_add, add}
use polytope_os.Elf.Parse
use polytope_os.Image.Types.{ImageError, ensure}
use polytope_os.Image.Types
use polytope_os.Image.Read.{read_u16, read_u32}
use polytope_os.Image.Gpt.{cut, is_some_of}

-- The conversion of the offset to `usize` keeps it.
unfoldable pub validate_uefi_loader : List ℕ → Result ImageError (Unit {0})
validate_uefi_loader bytes = do
  ensure (leb 0x40 (length bytes)) Types.loader_small
  dos ← cut bytes 0 2
  ensure (list_eq dos (codes "MZ")) Types.loader_mz
  pe_offset ← ok_or (read_u32 bytes 0x3c) Types.loader_offset
  signature_end ← ok_or (checked_add pe_offset 4) Types.loader_offset_overflow
  ensure
      (match_option false (λ found. list_eq found (codes "PE" ++ 0 ∷ 0 ∷ []))
        (slice bytes pe_offset signature_end))
      Types.loader_pe
  machine ← add 64 pe_offset 4
  ensure (is_some_of (read_u16 bytes machine) 0x8664) Types.loader_machine
  optional ← ok_or (checked_add pe_offset 24) Types.loader_optional_overflow
  ensure (is_some_of (read_u16 bytes optional) 0x20b) Types.loader_magic
  subsystem ← add 64 optional 68
  ensure (is_some_of (read_u16 bytes subsystem) 10) Types.loader_subsystem

unfoldable pub validate_kernel_elf : List ℕ → Result ImageError (Unit {0})
validate_kernel_elf bytes = do _ ← map_err Types.kernel_rejected (Parse.parse bytes); ok tt
