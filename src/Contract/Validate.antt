-- ===== src/Contract/Validate.antt =====
-- crates/boot-contract/src/lib.rs: the checks of a typed contract.
pub mod Spec
pub mod Fields
pub mod Regions
pub mod Correct
use polytope_os.Base.{ℕ, ◌+◌, ◌%◌, ◌^◌, bit_and, ltb, leb, ◌==◌, List, [], ◌∷◌, length, slice}
use polytope_os.Base.{Bool, not, ◌&&◌, ◌||◌, if◌then◌else◌, list_eq}
use polytope_os.Base.{Result, ok, ◌>>=◌, ◌>>◌, reject, ok_or, or_panic, Option, none, some}
use polytope_os.Base.Bits.{not_bits}
use polytope_os.Contract.Error
use polytope_os.Contract.Error.{ValidationError}
use polytope_os.Contract.Types.{
  BootHeader, PlatformInfo, ScenarioInfo, MemoryRegion, BootInfo, ValidatedBootInfo, empty_region,
}
use polytope_os.Contract.Types

-- `checked_add` of two `u64`.
abbrev pub checked_add : ℕ → ℕ → Option ℕ
checked_add a b = if ltb (a + b) (2 ^ 64) then some (a + b) else none

unfoldable pub validate_header : BootHeader → Result ValidationError (Unit {0})
validate_header header = do
  reject (not (list_eq header.magic Types.boot_magic)) Error.bad_magic
  reject (not (header.abi_major == Types.abi_major && header.abi_minor == Types.abi_minor))
      (Error.unsupported_version header.abi_major header.abi_minor)
  reject (not (header.header_size == Types.boot_header_size))
      (Error.header_size header.header_size Types.boot_header_size)
  reject (not (header.total_size == Types.boot_info_size))
      (Error.total_size header.total_size Types.boot_info_size)
  reject (not (header.memory_region_size == Types.memory_region_size))
      (Error.memory_region_size header.memory_region_size Types.memory_region_size)
  reject (ltb Types.max_memory_regions header.memory_region_count)
      (Error.too_many_memory_regions header.memory_region_count Types.max_memory_regions)
  reject (not (bit_and header.flags (not_bits 32 Types.known_header_flags) == 0))
      (Error.unknown_header_flags header.flags)

-- The checks of an RSDP that is present.
validate_rsdp : PlatformInfo → Result ValidationError (Unit {0})
validate_rsdp platform =
    let valid_length =
      leb Types.min_rsdp_length platform.rsdp_length
      && leb platform.rsdp_length Types.max_rsdp_length in
    let valid_address = not (platform.rsdp_address == 0) && platform.rsdp_address % 16 == 0 in
    let has_end = ltb (platform.rsdp_address + platform.rsdp_length) (2 ^ 64) in
    reject (not valid_length || not valid_address || not has_end)
      (Error.invalid_rsdp_range platform.rsdp_address platform.rsdp_length)

unfoldable pub validate_platform : PlatformInfo → Result ValidationError (Unit {0})
unfolding validate_rsdp
validate_platform platform = do
  reject (not (platform.firmware == Types.uefi)) (Error.unsupported_firmware platform.firmware)
  reject (not (platform.architecture == Types.x86_64))
      (Error.unsupported_architecture platform.architecture)
  reject (not (bit_and platform.flags (not_bits 64 Types.known_platform_flags) == 0))
      (Error.unknown_platform_flags platform.flags)
  let rsdp_present = not (bit_and platform.flags Types.platform_flag_rsdp_present == 0)
  if rsdp_present
      then validate_rsdp platform
      else reject (not (platform.rsdp_address == 0) || not (platform.rsdp_length == 0))
          Error.inconsistent_rsdp_presence

unfoldable pub validate_scenario : ScenarioInfo → Result ValidationError (Unit {0})
validate_scenario scenario = do
  reject (not (leb scenario.kind 3)) (Error.unknown_scenario scenario.kind)
  reject (not (bit_and scenario.flags (not_bits 32 Types.known_scenario_flags) == 0))
      (Error.unknown_scenario_flags scenario.flags)
  if scenario.kind == Types.normal
      then reject (not (scenario.flags == 0) || not (scenario.argument == 0))
          Error.normal_scenario_has_test_state
      else reject (bit_and scenario.flags Types.scenario_flag_test_only == 0)
          (Error.scenario_not_marked_test_only scenario.kind)

-- `MemoryKind::is_known`
abbrev pub is_known : ℕ → Bool
is_known kind = leb 1 kind && leb kind 9

-- The loop body of `validate_regions` up to `end`.
pub region_end : ℕ → MemoryRegion → Result ValidationError ℕ
region_end index region = do
  reject (region.kind == Types.empty) (Error.active_memory_region_is_empty index)
  reject (not (is_known region.kind)) (Error.unknown_memory_kind index region.kind)
  reject (region.length == 0) (Error.empty_memory_region index)
  reject (not (region.start % Types.page_size == 0) || not (region.length % Types.page_size == 0))
      (Error.unaligned_memory_region index region.start region.length)
  ok_or (checked_add region.start region.length) (Error.memory_region_overflow index)

-- The comparison with `previous`, the index, start and end of the region before.
pub follows_previous : ℕ → Option (ℕ × ℕ × ℕ) → MemoryRegion → Result ValidationError (Unit {0})
follows_previous index none region = ok tt
follows_previous index (some (previous_index, previous_start, previous_end)) region = do
  reject (ltb region.start previous_start) (Error.unsorted_memory_regions previous_index index)
  reject (ltb region.start previous_end) (Error.overlapping_memory_regions previous_index index)

-- The first loop, over the active regions.
pub check_active : ℕ → Option (ℕ × ℕ × ℕ) → List MemoryRegion → Result ValidationError (Unit {0})
check_active index previous [] = ok tt
check_active index previous (region ∷ regions) = do
  end ← region_end index region
  follows_previous index previous region
  check_active (index + 1) (some (index, region.start, end)) regions

-- `==` on regions, which the source derives.
pub region_eq : MemoryRegion → MemoryRegion → Bool
region_eq a b =
    a.start == b.start
    && a.length == b.length
    && a.kind == b.kind
    && a.source_kind == b.source_kind
    && a.attributes == b.attributes

-- The second loop, over the unused slots.
pub check_unused : ℕ → ℕ → List MemoryRegion → Result ValidationError (Unit {0})
unfolding region_eq
check_unused count offset [] = ok tt
check_unused count offset (region ∷ regions) = do
  reject (not (region_eq region empty_region))
      (Error.non_zero_unused_memory_region (count + offset))
  check_unused count (offset + 1) regions

unfoldable pub validate_regions : BootInfo → Result ValidationError (Unit {0})
unfolding region_end follows_previous check_active check_unused
validate_regions info = do
  let count = info.header.memory_region_count
  active ← or_panic (slice info.memory_regions 0 count)
  check_active 0 none active
  unused ← or_panic (slice info.memory_regions count (length info.memory_regions))
  check_unused count 0 unused

unfoldable pub validate_ref : BootInfo → Result ValidationError (Unit {0})
validate_ref info = do
  validate_header info.header
  validate_platform info.platform
  validate_scenario info.scenario
  validate_regions info
  ok tt

unfoldable pub validate : BootInfo → Result ValidationError ValidatedBootInfo
validate info = do validate_ref info; ok (record { info = info })

-- `ValidatedBootInfo::memory_regions`
unfoldable pub validated_regions : ValidatedBootInfo → Result ValidationError (List MemoryRegion)
validated_regions self =
    or_panic (slice self.info.memory_regions 0 self.info.header.memory_region_count)
