-- ===== src/Elf/Error.antt =====
-- crates/boot-elf/src/lib.rs: `ParseError`. A constructor's arguments are the fields of the variant,
-- in their order.
use polytope_os.Base.{ℕ}

pub data ParseError : Type 0 where
  truncated : ℕ → ℕ → ParseError
  file_too_large : ℕ → ℕ → ParseError
  bad_magic : ParseError
  unsupported_class : ℕ → ParseError
  unsupported_byte_order : ℕ → ParseError
  unsupported_identification_version : ℕ → ParseError
  unsupported_os_abi : ℕ → ParseError
  unsupported_abi_version : ℕ → ParseError
  non_zero_identification_padding : ParseError
  unsupported_object_type : ℕ → ParseError
  unsupported_machine : ℕ → ParseError
  unsupported_version : ℕ → ParseError
  unsupported_elf_flags : ℕ → ParseError
  invalid_header_size : ℕ → ℕ → ParseError
  invalid_program_header_size : ℕ → ℕ → ParseError
  invalid_program_header_count : ℕ → ℕ → ParseError
  program_header_table_overlaps_header : ℕ → ParseError
  program_header_table_overflow : ParseError
  program_header_table_out_of_bounds : ℕ → ℕ → ParseError
  unsupported_program_header_type : ℕ → ℕ → ParseError
  too_many_load_segments : ℕ → ℕ → ParseError
  no_load_segments : ParseError
  unknown_segment_flags : ℕ → ℕ → ParseError
  non_readable_segment : ℕ → ParseError
  write_execute_segment : ℕ → ParseError
  empty_memory_segment : ℕ → ParseError
  file_larger_than_memory : ℕ → ℕ → ℕ → ParseError
  segment_file_range_overflow : ℕ → ParseError
  segment_file_range_out_of_bounds : ℕ → ℕ → ℕ → ParseError
  segment_memory_range_overflow : ℕ → ParseError
  segment_outside_load_window : ℕ → ℕ → ℕ → ParseError
  virtual_physical_address_mismatch : ℕ → ℕ → ℕ → ParseError
  invalid_segment_alignment : ℕ → ℕ → ParseError
  misaligned_segment : ℕ → ℕ → ℕ → ℕ → ParseError
  unsorted_segments : ℕ → ℕ → ParseError
  overlapping_segments : ℕ → ℕ → ParseError
  total_load_size_overflow : ParseError
  total_load_size_too_large : ℕ → ℕ → ParseError
  entry_outside_load_window : ℕ → ParseError
  entry_not_executable : ℕ → ParseError
