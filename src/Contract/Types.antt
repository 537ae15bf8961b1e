-- ===== src/Contract/Types.antt =====
-- crates/boot-contract/src/lib.rs: the constants and the structs of the contract. The transparent
-- `u32` structs are numbers, and their associated constants are constants here. A `uN` field is a
-- number, whose range `IsTyped` of Contract/Typed.antt states.
use polytope_os.Base.{ℕ, List, [], ◌∷◌}

abbrev pub boot_magic : List ℕ
boot_magic = b'P' ∷ b'O' ∷ b'L' ∷ b'Y' ∷ b'B' ∷ b'O' ∷ b'O' ∷ b'T' ∷ []

abbrev pub abi_major : ℕ
abi_major = 1

abbrev pub abi_minor : ℕ
abi_minor = 0

abbrev pub page_size : ℕ
page_size = 4_096

abbrev pub max_memory_regions : ℕ
max_memory_regions = 128

abbrev pub boot_header_size : ℕ
boot_header_size = 32

abbrev pub memory_region_size : ℕ
memory_region_size = 32

abbrev pub boot_info_size : ℕ
boot_info_size = 4_176

abbrev pub known_header_flags : ℕ
known_header_flags = 0

abbrev pub platform_flag_rsdp_present : ℕ
platform_flag_rsdp_present = 1

abbrev pub known_platform_flags : ℕ
known_platform_flags = platform_flag_rsdp_present

abbrev pub scenario_flag_test_only : ℕ
scenario_flag_test_only = 1

abbrev pub known_scenario_flags : ℕ
known_scenario_flags = scenario_flag_test_only

abbrev pub min_rsdp_length : ℕ
min_rsdp_length = 20

abbrev pub max_rsdp_length : ℕ
max_rsdp_length = 4_096

pub record BootHeader : Type 0 where
  pub magic : List ℕ
  pub abi_major : ℕ
  pub abi_minor : ℕ
  pub header_size : ℕ
  pub total_size : ℕ
  pub memory_region_size : ℕ
  pub memory_region_count : ℕ
  pub flags : ℕ

-- `FirmwareKind::UEFI`
abbrev pub uefi : ℕ
uefi = 1

-- `Architecture::X86_64`
abbrev pub x86_64 : ℕ
x86_64 = 1

pub record PlatformInfo : Type 0 where
  pub firmware : ℕ
  pub architecture : ℕ
  pub flags : ℕ
  pub rsdp_address : ℕ
  pub rsdp_length : ℕ
  pub boot_cpu_id : ℕ

-- `ScenarioKind::NORMAL` and the others.
abbrev pub normal : ℕ
normal = 0

abbrev pub incompatible_version : ℕ
incompatible_version = 1

abbrev pub malformed_metadata : ℕ
malformed_metadata = 2

abbrev pub deliberate_panic : ℕ
deliberate_panic = 3

pub record ScenarioInfo : Type 0 where
  pub kind : ℕ
  pub flags : ℕ
  pub argument : ℕ

-- `MemoryKind::EMPTY` and the others.
abbrev pub empty : ℕ
empty = 0

abbrev pub reserved : ℕ
reserved = 1

abbrev pub usable : ℕ
usable = 2

abbrev pub reclaimable : ℕ
reclaimable = 3

abbrev pub kernel_image : ℕ
kernel_image = 4

abbrev pub boot_contract : ℕ
boot_contract = 5

abbrev pub firmware_runtime : ℕ
firmware_runtime = 6

abbrev pub acpi_reclaimable : ℕ
acpi_reclaimable = 7

abbrev pub acpi_nvs : ℕ
acpi_nvs = 8

abbrev pub mmio : ℕ
mmio = 9

pub record MemoryRegion : Type 0 where
  pub start : ℕ
  pub length : ℕ
  pub kind : ℕ
  pub source_kind : ℕ
  pub attributes : ℕ

-- `MemoryRegion::EMPTY`
abbrev pub empty_region : MemoryRegion
empty_region = record { start = 0; length = 0; kind = empty; source_kind = 0; attributes = 0 }

pub record BootInfo : Type 0 where
  pub header : BootHeader
  pub platform : PlatformInfo
  pub scenario : ScenarioInfo
  pub memory_regions : List MemoryRegion

pub record PrevalidatedHeader : Type 0 where
  pub abi_major : ℕ
  pub abi_minor : ℕ
  pub total_size : ℕ
  pub memory_region_count : ℕ

-- The field is private in the source: `validate` and `parse` alone build the wrapper.
pub record ValidatedBootInfo : Type 0 where
  pub info : BootInfo
