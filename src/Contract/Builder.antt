-- ===== src/Contract/Builder.antt =====
-- crates/boot-contract/src/lib.rs: the constructors of the structs and `set_memory_region`.
pub mod Filled
pub mod Slots
use polytope_os.Base.{ℕ, ◌+◌, ◌^◌, bit_or, ltb, leb, List, ◌∷◌, [], zero, suc, replicate}
use polytope_os.Base.{Result, ok, err, ◌>>=◌, ◌>>◌, reject, or_panic, if◌then◌else◌}
use mathlib.Core.Option
use polytope_os.Base.{Option, none, some, length}
use polytope_os.Contract.Error.{ValidationError, region_index_out_of_bounds}
use polytope_os.Contract.Types
use polytope_os.Contract.Types.{
  BootHeader, PlatformInfo, ScenarioInfo, MemoryRegion, BootInfo, empty_region, max_memory_regions,
}

-- `BootHeader::current`
abbrev pub current : BootHeader
current = record {
  magic = Types.boot_magic;
  abi_major = Types.abi_major;
  abi_minor = Types.abi_minor;
  header_size = Types.boot_header_size;
  total_size = Types.boot_info_size;
  memory_region_size = Types.memory_region_size;
  memory_region_count = 0;
  flags = 0;
}

-- `PlatformInfo::x86_64_uefi`
unfoldable pub x86_64_uefi : ℕ → PlatformInfo
x86_64_uefi boot_cpu_id = record {
  firmware = Types.uefi;
  architecture = Types.x86_64;
  flags = 0;
  rsdp_address = 0;
  rsdp_length = 0;
  boot_cpu_id = boot_cpu_id;
}

unfoldable pub with_rsdp : PlatformInfo → ℕ → ℕ → PlatformInfo
with_rsdp self address length = record self {
  flags = bit_or self.flags Types.platform_flag_rsdp_present;
  rsdp_address = address;
  rsdp_length = length;
}

-- `ScenarioInfo::normal` and `ScenarioInfo::test`
abbrev pub normal_scenario : ScenarioInfo
normal_scenario = record { kind = Types.normal; flags = 0; argument = 0 }

unfoldable pub test_scenario : ℕ → ℕ → ScenarioInfo
test_scenario kind argument = record {
  kind = kind;
  flags = Types.scenario_flag_test_only;
  argument = argument;
}

-- `MemoryRegion::new`
unfoldable pub region_new : ℕ → ℕ → ℕ → ℕ → ℕ → MemoryRegion
region_new start length kind source_kind attributes = record {
  start = start;
  length = length;
  kind = kind;
  source_kind = source_kind;
  attributes = attributes;
}

-- `BootInfo::new`
unfoldable pub new : PlatformInfo → ScenarioInfo → BootInfo
new platform scenario = record {
  header = current;
  platform = platform;
  scenario = scenario;
  memory_regions = replicate max_memory_regions empty_region;
}

-- `array[index] = region`, which panics out of bounds.
set_region : List MemoryRegion → ℕ → MemoryRegion → Option (List MemoryRegion)
set_region [] index region = none
set_region (r ∷ rs) zero region = some (region ∷ rs)
set_region (r ∷ rs) (suc index) region = Option.map (λ xs. r ∷ xs) (set_region rs index region)

-- `u32::try_from(count)` with its error.
u32_count : ℕ → ℕ → Result ValidationError ℕ
u32_count index count =
    if ltb count (2 ^ 32) then ok count else err (region_index_out_of_bounds index)

-- `set_memory_region` returns the new contract.
unfoldable pub set_memory_region : BootInfo → ℕ → MemoryRegion → Result ValidationError BootInfo
unfolding set_region u32_count
set_memory_region self index region = do
  reject (leb max_memory_regions index) (region_index_out_of_bounds index)
  regions ← or_panic (set_region self.memory_regions index region)
  count ←
      if ltb self.header.memory_region_count (index + 1)
      then u32_count index (index + 1)
      else ok self.header.memory_region_count
  ok (record self {
    memory_regions = regions;
    header = record (self.header) { memory_region_count = count };
  })
