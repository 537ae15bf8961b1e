-- ===== src/Contract/Typed.antt =====
-- The ranges of the integer fields, which Rust's types give, and the lengths of the arrays.
use polytope_os.Base.{◌≡◌, length, All}
use polytope_os.Base.Bytes.{IsByte, IsU16, IsU32, IsU64}
use polytope_os.Contract.Types.{BootHeader, PlatformInfo, ScenarioInfo, MemoryRegion, BootInfo}
use polytope_os.Contract.Types

pub record IsTypedHeader (h : BootHeader) : Type 0 where
  pub magic_length : length h.magic ≡ 8
  pub magic : All IsByte h.magic
  pub abi_major : IsU16 h.abi_major
  pub abi_minor : IsU16 h.abi_minor
  pub header_size : IsU32 h.header_size
  pub total_size : IsU32 h.total_size
  pub memory_region_size : IsU32 h.memory_region_size
  pub memory_region_count : IsU32 h.memory_region_count
  pub flags : IsU32 h.flags

pub record IsTypedPlatform (p : PlatformInfo) : Type 0 where
  pub firmware : IsU32 p.firmware
  pub architecture : IsU32 p.architecture
  pub flags : IsU64 p.flags
  pub rsdp_address : IsU64 p.rsdp_address
  pub rsdp_length : IsU32 p.rsdp_length
  pub boot_cpu_id : IsU32 p.boot_cpu_id

pub record IsTypedScenario (s : ScenarioInfo) : Type 0 where
  pub kind : IsU32 s.kind
  pub flags : IsU32 s.flags
  pub argument : IsU64 s.argument

pub record IsTypedRegion (r : MemoryRegion) : Type 0 where
  pub start : IsU64 r.start
  pub length : IsU64 r.length
  pub kind : IsU32 r.kind
  pub source_kind : IsU32 r.source_kind
  pub attributes : IsU64 r.attributes

pub record IsTyped (info : BootInfo) : Type 0 where
  pub header : IsTypedHeader info.header
  pub platform : IsTypedPlatform info.platform
  pub scenario : IsTypedScenario info.scenario
  pub regions_length : length info.memory_regions ≡ Types.max_memory_regions
  pub regions : All IsTypedRegion info.memory_regions
