-- ===== src/Contract/Error.antt =====
-- crates/boot-contract/src/lib.rs: `ValidationError` and `EncodeError`. A constructor's arguments
-- are the fields of the variant, in their order.
use polytope_os.Base.{ℕ}

pub data ValidationError : Type 0 where
  truncated : ℕ → ℕ → ValidationError
  length_mismatch : ℕ → ℕ → ValidationError
  bad_magic : ValidationError
  unsupported_version : ℕ → ℕ → ValidationError
  header_size : ℕ → ℕ → ValidationError
  total_size : ℕ → ℕ → ValidationError
  memory_region_size : ℕ → ℕ → ValidationError
  too_many_memory_regions : ℕ → ℕ → ValidationError
  unknown_header_flags : ℕ → ValidationError
  region_index_out_of_bounds : ℕ → ValidationError
  unsupported_firmware : ℕ → ValidationError
  unsupported_architecture : ℕ → ValidationError
  unknown_platform_flags : ℕ → ValidationError
  inconsistent_rsdp_presence : ValidationError
  invalid_rsdp_range : ℕ → ℕ → ValidationError
  unknown_scenario : ℕ → ValidationError
  unknown_scenario_flags : ℕ → ValidationError
  scenario_not_marked_test_only : ℕ → ValidationError
  normal_scenario_has_test_state : ValidationError
  active_memory_region_is_empty : ℕ → ValidationError
  empty_memory_region : ℕ → ValidationError
  unaligned_memory_region : ℕ → ℕ → ℕ → ValidationError
  memory_region_overflow : ℕ → ValidationError
  unknown_memory_kind : ℕ → ℕ → ValidationError
  unsorted_memory_regions : ℕ → ℕ → ValidationError
  overlapping_memory_regions : ℕ → ℕ → ValidationError
  non_zero_unused_memory_region : ℕ → ValidationError

pub data EncodeError : Type 0 where
  invalid : ValidationError → EncodeError
  buffer_too_small : ℕ → ℕ → EncodeError
