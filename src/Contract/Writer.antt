-- ===== src/Contract/Writer.antt =====
-- crates/boot-contract/src/lib.rs: `Writer`, and the writes of `encode` in their order. A write that
-- leaves the byte slice panics.
pub mod Rules
use polytope_os.Base.{ℕ, ◌+◌, List, [], ◌∷◌, ◌++◌, Result, ok, err, panic, leb, if◌then◌else◌}
use polytope_os.Base.{take, drop, length}
use polytope_os.Base.Bytes.{to_le}
use polytope_os.Contract.Error.{EncodeError}
use polytope_os.Contract.Types.{BootHeader, PlatformInfo, ScenarioInfo, MemoryRegion, BootInfo}

pub record Writer : Type 0 where
  pub bytes : List ℕ
  pub position : ℕ

-- A method with `&mut self` and no result.
abbrev pub Write : Type 0
Write = Writer → Result EncodeError Writer

infixl 5 ◌>>◌
abbrev pub ◌>>◌ : Write → Write → Write
◌>>◌ m k self = elim (m self) [ ok self' ↦ k self' | err e ↦ err e | panic ↦ panic ]

-- `Writer::new`
abbrev pub writer : List ℕ → Writer
writer bytes = record { bytes = bytes; position = 0 }

-- `Writer::bytes`
pub write_bytes : List ℕ → Write
write_bytes value self =
    let end = self.position + length value in
    if leb end (length self.bytes)
    then ok (record {
      bytes = take self.position self.bytes ++ (value ++ drop end self.bytes);
      position = end;
    })
    else panic

unfoldable pub write_u16 : ℕ → Write
unfolding write_bytes
write_u16 value = write_bytes (to_le 2 value)

unfoldable pub write_u32 : ℕ → Write
unfolding write_bytes
write_u32 value = write_bytes (to_le 4 value)

unfoldable pub write_u64 : ℕ → Write
unfolding write_bytes
write_u64 value = write_bytes (to_le 8 value)

pub write_header : BootHeader → Write
write_header header = do
  write_bytes header.magic
  write_u16 header.abi_major
  write_u16 header.abi_minor
  write_u32 header.header_size
  write_u32 header.total_size
  write_u32 header.memory_region_size
  write_u32 header.memory_region_count
  write_u32 header.flags

pub write_platform : PlatformInfo → Write
write_platform platform = do
  write_u32 platform.firmware
  write_u32 platform.architecture
  write_u64 platform.flags
  write_u64 platform.rsdp_address
  write_u32 platform.rsdp_length
  write_u32 platform.boot_cpu_id

pub write_scenario : ScenarioInfo → Write
write_scenario scenario = do
  write_u32 scenario.kind
  write_u32 scenario.flags
  write_u64 scenario.argument

pub write_region : MemoryRegion → Write
write_region region = do
  write_u64 region.start
  write_u64 region.length
  write_u32 region.kind
  write_u32 region.source_kind
  write_u64 region.attributes

-- The loop over the regions.
pub write_regions : List MemoryRegion → Write
write_regions [] self = ok self
write_regions (region ∷ regions) self = (write_region region >> write_regions regions) self

pub write_info : BootInfo → Write
write_info info = do
  write_header info.header
  write_platform info.platform
  write_scenario info.scenario
  write_regions info.memory_regions
