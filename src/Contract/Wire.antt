-- ===== src/Contract/Wire.antt =====
-- crates/boot-contract/src/lib.rs: `prevalidate`, `parse` and `encode`. A debug assertion that fails
-- panics.
pub mod Parse
pub mod RoundTrip
pub mod Lengths
pub mod Regions
use polytope_os.Base.{
  ℕ, ◌+◌, bit_and, ltb, ◌==◌, List, [], ◌++◌, length, take, drop, slice, list_eq,
}
use polytope_os.Base.{
  Bool, not, ◌&&◌, Result, ok, err, panic, ◌>>=◌, ◌>>◌, reject, map_err, or_panic,
}
use polytope_os.Base.{if◌then◌else◌}
use polytope_os.Base.Bits.{not_bits}
use polytope_os.Contract.Error
use polytope_os.Contract.Error.{ValidationError, EncodeError, invalid, buffer_too_small}
use polytope_os.Contract.Types.{BootInfo, PrevalidatedHeader, ValidatedBootInfo}
use polytope_os.Contract.Types
use polytope_os.Contract.Reader.{reader, read_header, read_info}
use polytope_os.Contract.Writer.{writer, write_info}
use polytope_os.Contract.Validate.{validate, validate_ref}

-- `debug_assert_eq!`
abbrev pub debug_assert {ℓ} : {E : Type ℓ} → Bool → Result E (Unit {0})
debug_assert test = if test then ok tt else panic

-- The reads of the eight fields are those of `parse`.
pub prevalidate : List ℕ → Result ValidationError PrevalidatedHeader
prevalidate bytes = do
  reject (ltb (length bytes) Types.boot_header_size)
      (Error.truncated (length bytes) Types.boot_header_size)
  (header, _) ← read_header (reader bytes)
  reject (not (list_eq header.magic Types.boot_magic)) Error.bad_magic
  reject (not (header.abi_major == Types.abi_major && header.abi_minor == Types.abi_minor))
      (Error.unsupported_version header.abi_major header.abi_minor)
  reject (not (header.header_size == Types.boot_header_size))
      (Error.header_size header.header_size Types.boot_header_size)
  reject (not (header.total_size == Types.boot_info_size))
      (Error.total_size header.total_size Types.boot_info_size)
  reject (not (header.memory_region_size == Types.memory_region_size))
      (Error.memory_region_size header.memory_region_size Types.memory_region_size)
  reject (ltb Types.max_memory_regions header.memory_region_count)
      (Error.too_many_memory_regions header.memory_region_count Types.max_memory_regions)
  reject (not (bit_and header.flags (not_bits 32 Types.known_header_flags) == 0))
      (Error.unknown_header_flags header.flags)
  let declared = header.total_size
  reject (ltb (length bytes) declared) (Error.truncated (length bytes) declared)
  reject (not (length bytes == declared)) (Error.length_mismatch (length bytes) declared)
  ok (record {
    abi_major = header.abi_major;
    abi_minor = header.abi_minor;
    total_size = header.total_size;
    memory_region_count = header.memory_region_count;
  })

pub parse : List ℕ → Result ValidationError ValidatedBootInfo
parse bytes = do
  _ ← prevalidate bytes
  (info, end) ← read_info (reader bytes)
  debug_assert (end.position == Types.boot_info_size)
  validate info

-- `encode` returns the number of bytes, and the output buffer behind it.
pub encode : BootInfo → List ℕ → Result EncodeError (ℕ × List ℕ)
encode self output = do
  map_err invalid (validate_ref self)
  reject (ltb (length output) Types.boot_info_size)
      (buffer_too_small (length output) Types.boot_info_size)
  window ← or_panic (slice output 0 Types.boot_info_size)
  end ← write_info self (writer window)
  debug_assert (end.position == Types.boot_info_size)
  ok (Types.boot_info_size, end.bytes ++ drop Types.boot_info_size output)
