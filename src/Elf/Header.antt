-- ===== src/Elf/Header.antt =====
-- crates/boot-elf/src/lib.rs: `validate_identification` and `parse_header`.
pub mod Facts
use polytope_os.Base.{
  ℕ, ◌+◌, ◌*◌, ◌^◌, ltb, leb, ◌==◌, List, [], ◌∷◌, length, slice, list_eq, get_elem?,
}
use polytope_os.Base.{Bool, true, false, not, ◌&&◌, ◌||◌, if◌then◌else◌, Option, none, some}
use polytope_os.Base.{Result, ok, err, panic, ◌>>=◌, ◌>>◌, reject, ok_or, or_panic, map_err}
use polytope_os.Elf.Error
use polytope_os.Elf.Error.{ParseError}
use polytope_os.Elf.Types.{ElfHeader}
use polytope_os.Elf.Types
use polytope_os.Elf.Read.{Maybe, checked_add, checked_mul, read_u16, read_u32, read_u64}

-- `bytes.get(0..4) != Some(magic)`
has_magic : Option (List ℕ) → Bool
has_magic none = false
has_magic (some prefix) = list_eq prefix Types.elf_magic

-- `iter().any(|byte| *byte != 0)`
any_nonzero : List ℕ → Bool
any_nonzero [] = false
any_nonzero (b ∷ bs) = not (b == 0) || any_nonzero bs

unfoldable pub validate_identification : List ℕ → Result ParseError (Unit {0})
unfolding has_magic any_nonzero
validate_identification bytes = do
  reject (not (has_magic (slice bytes 0 4))) Error.bad_magic
  class ← or_panic (get_elem? bytes 4)
  reject (not (class == Types.elfclass64)) (Error.unsupported_class class)
  encoding ← or_panic (get_elem? bytes 5)
  reject (not (encoding == Types.elfdata2lsb)) (Error.unsupported_byte_order encoding)
  version ← or_panic (get_elem? bytes 6)
  reject (not (version == Types.ev_current)) (Error.unsupported_identification_version version)
  os_abi ← or_panic (get_elem? bytes 7)
  reject (not (os_abi == Types.elfosabi_sysv)) (Error.unsupported_os_abi os_abi)
  abi_version ← or_panic (get_elem? bytes 8)
  reject (not (abi_version == 0)) (Error.unsupported_abi_version abi_version)
  padding ← or_panic (slice bytes 9 16)
  reject (any_nonzero padding) Error.non_zero_identification_padding

-- `ok_or(truncated)?` on a read
abbrev or_truncated : List ℕ → Maybe ℕ → Result ParseError ℕ
or_truncated bytes = map_err (λ _. Error.truncated (length bytes) Types.elf_header_size)

-- The header's fields that `parse_header` reads.
pub record Fields : Type 0 where
  pub object_type : ℕ
  pub machine : ℕ
  pub version : ℕ
  pub entry : ℕ
  pub program_header_offset : ℕ
  pub flags : ℕ
  pub header_size : ℕ
  pub program_header_size : ℕ
  pub program_header_count : ℕ

-- The reads of `parse_header`.
pub read_fields : List ℕ → Result ParseError Fields
read_fields bytes = do
  object_type ← or_truncated bytes (read_u16 bytes 16)
  machine ← or_truncated bytes (read_u16 bytes 18)
  version ← or_truncated bytes (read_u32 bytes 20)
  entry ← or_truncated bytes (read_u64 bytes 24)
  program_header_offset ← or_truncated bytes (read_u64 bytes 32)
  flags ← or_truncated bytes (read_u32 bytes 48)
  header_size ← or_truncated bytes (read_u16 bytes 52)
  program_header_size ← or_truncated bytes (read_u16 bytes 54)
  program_header_count ← or_truncated bytes (read_u16 bytes 56)
  ok (record {
    object_type = object_type;
    machine = machine;
    version = version;
    entry = entry;
    program_header_offset = program_header_offset;
    flags = flags;
    header_size = header_size;
    program_header_size = program_header_size;
    program_header_count = program_header_count;
  })

-- The checks of `parse_header`. The conversions between `usize` and `u64` keep every value.
pub check_fields : Fields → ℕ → Result ParseError ElfHeader
check_fields f file_size = do
  reject (not (f.object_type == Types.et_exec)) (Error.unsupported_object_type f.object_type)
  reject (not (f.machine == Types.em_x86_64)) (Error.unsupported_machine f.machine)
  reject (not (f.version == Types.ev_current)) (Error.unsupported_version f.version)
  reject (not (f.flags == 0)) (Error.unsupported_elf_flags f.flags)
  reject (not (f.header_size == Types.elf_header_size))
      (Error.invalid_header_size f.header_size Types.elf_header_size)
  reject (not (f.program_header_size == Types.program_header_size))
      (Error.invalid_program_header_size f.program_header_size Types.program_header_size)
  reject (f.program_header_count == 0 || ltb Types.max_program_headers f.program_header_count)
      (Error.invalid_program_header_count f.program_header_count Types.max_program_headers)
  reject (ltb f.program_header_offset 64)
      (Error.program_header_table_overlaps_header f.program_header_offset)
  table_size ← ok_or (checked_mul f.program_header_count 56) Error.program_header_table_overflow
  table_end ←
      ok_or (checked_add f.program_header_offset table_size) Error.program_header_table_overflow
  reject (ltb file_size table_end) (Error.program_header_table_out_of_bounds table_end file_size)
  reject (not (leb Types.min_load_address f.entry && ltb f.entry Types.max_load_address_exclusive))
      (Error.entry_outside_load_window f.entry)
  ok (record {
    entry = f.entry;
    program_header_offset = f.program_header_offset;
    program_header_count = f.program_header_count;
    program_header_table_end = table_end;
    file_size = file_size;
  })

unfoldable pub parse_header : List ℕ → Result ParseError ElfHeader
unfolding read_fields check_fields
parse_header bytes = do fields ← read_fields bytes; check_fields fields (length bytes)
