-- ===== src/Elf/Segment.antt =====
-- crates/boot-elf/src/lib.rs: `validate_load_segment` and `load_segment_from_header`.
pub mod Valid
use polytope_os.Base.{ℕ, zero, suc, ◌+◌, ◌%◌, ◌^◌, bit_and, ltb, leb, ◌==◌, List, slice}
use polytope_os.Base.{Bool, true, false, not, ◌&&◌, ◌||◌, Result, ok, ◌>>=◌, ◌>>◌, reject, ok_or}
use polytope_os.Base.Bits.{not_bits}
use polytope_os.Elf.Error
use polytope_os.Elf.Error.{ParseError}
use polytope_os.Elf.Types.{ProgramHeader, LoadSegment}
use polytope_os.Elf.Types
use polytope_os.Elf.Read.{Maybe, some_or_return, checked_add}

-- `u64::is_power_of_two`: one of the powers of two below 2 ^ `k`.
pub is_power_below : ℕ → ℕ → Bool
is_power_below zero x = false
is_power_below (suc k) x = x == 2 ^ k || is_power_below k x

unfoldable pub is_power_of_two : ℕ → Bool
unfolding is_power_below
is_power_of_two = is_power_below 64

unfoldable pub validate_load_segment : ℕ → ProgramHeader → ℕ → Result ParseError ℕ
validate_load_segment index header file_size = do
  reject (not (bit_and header.flags (not_bits 32 Types.known_segment_flags) == 0))
      (Error.unknown_segment_flags index header.flags)
  reject (bit_and header.flags Types.pf_r == 0) (Error.non_readable_segment index)
  reject (bit_and header.flags Types.pf_wx == Types.pf_wx) (Error.write_execute_segment index)
  reject (header.memory_size == 0) (Error.empty_memory_segment index)
  reject (ltb header.memory_size header.file_size)
      (Error.file_larger_than_memory index header.file_size header.memory_size)
  file_end ←
      ok_or (checked_add header.file_offset header.file_size)
        (Error.segment_file_range_overflow index)
  reject (ltb file_size file_end) (Error.segment_file_range_out_of_bounds index file_end file_size)
  reject (not (header.virtual_address == header.physical_address))
      (Error.virtual_physical_address_mismatch index header.virtual_address header.physical_address)
  reject
      (not (is_power_of_two header.alignment)
        || not (
            leb Types.page_size header.alignment
            && leb header.alignment Types.max_segment_alignment))
      (Error.invalid_segment_alignment index header.alignment)
  reject
      (not (header.physical_address % Types.page_size == 0)
        || not
            (header.physical_address % header.alignment == header.file_offset % header.alignment))
      (Error.misaligned_segment index header.physical_address header.file_offset header.alignment)
  end ←
      ok_or (checked_add header.physical_address header.memory_size)
        (Error.segment_memory_range_overflow index)
  reject
      (ltb header.physical_address Types.min_load_address
        || ltb Types.max_load_address_exclusive end)
      (Error.segment_outside_load_window index header.physical_address end)
  ok end

-- The conversions from `u64` to `usize` keep every value.
unfoldable pub load_segment_from_header : List ℕ → ℕ → ProgramHeader → Maybe LoadSegment
load_segment_from_header bytes index header = do
  end ← some_or_return (checked_add header.file_offset header.file_size)
  file_data ← some_or_return (slice bytes header.file_offset end)
  ok (record {
    index = index;
    flags = header.flags;
    file_offset = header.file_offset;
    virtual_address = header.virtual_address;
    physical_address = header.physical_address;
    file_size = header.file_size;
    memory_size = header.memory_size;
    alignment = header.alignment;
    file_data = file_data;
  })
