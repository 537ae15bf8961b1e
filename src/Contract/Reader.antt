-- ===== src/Contract/Reader.antt =====
-- crates/boot-contract/src/lib.rs: `Reader`, and the reads of `parse` in their order. A read that
-- leaves the byte slice panics. Positions stay below the length of a slice, so that the additions
-- on `usize` are exact.
pub mod Rules
use polytope_os.Base.{ℕ, zero, suc, ◌+◌, List, [], ◌∷◌, Result, ok, err, panic, none, some, slice}
use polytope_os.Base.Bytes.{from_le}
use polytope_os.Contract.Error.{ValidationError}
use polytope_os.Contract.Types.{BootHeader, PlatformInfo, ScenarioInfo, MemoryRegion, BootInfo}
use polytope_os.Contract.Types

pub record Reader : Type 0 where
  pub bytes : List ℕ
  pub position : ℕ

-- A method with `&mut self`.
abbrev pub Read : Type 0 → Type 0
Read A = Reader → Result ValidationError (A × Reader)

infixl 5 ◌>>=◌
abbrev pub ◌>>=◌ : {A B : Type 0} → Read A → (A → Read B) → Read B
◌>>=◌ m f self = elim (m self) [ ok (a, self') ↦ f a self' | err e ↦ err e | panic ↦ panic ]

abbrev pub pure : {A : Type 0} → A → Read A
pure a self = ok (a, self)

-- `Reader::new`
abbrev pub reader : List ℕ → Reader
reader bytes = record { bytes = bytes; position = 0 }

-- `copy_from_slice` of the next `n` bytes, and the step of the position.
pub read_array : ℕ → Read (List ℕ)
read_array n self = elim (slice self.bytes self.position (self.position + n)) [
  | none ↦ panic
  | some value ↦ ok (value, record self { position = self.position + n })
]

-- `array_8`
unfoldable pub array_8 : Read (List ℕ)
unfolding read_array
array_8 = read_array 8

unfoldable pub u16 : Read ℕ
unfolding read_array
u16 = do value ← read_array 2; pure (from_le value)

unfoldable pub u32 : Read ℕ
unfolding read_array
u32 = do value ← read_array 4; pure (from_le value)

unfoldable pub u64 : Read ℕ
unfolding read_array
u64 = do value ← read_array 8; pure (from_le value)

pub read_header : Read BootHeader
read_header = do
  magic ← array_8
  abi_major ← u16
  abi_minor ← u16
  header_size ← u32
  total_size ← u32
  memory_region_size ← u32
  memory_region_count ← u32
  flags ← u32
  pure (record {
    magic = magic;
    abi_major = abi_major;
    abi_minor = abi_minor;
    header_size = header_size;
    total_size = total_size;
    memory_region_size = memory_region_size;
    memory_region_count = memory_region_count;
    flags = flags;
  })

pub read_platform : Read PlatformInfo
read_platform = do
  firmware ← u32
  architecture ← u32
  flags ← u64
  rsdp_address ← u64
  rsdp_length ← u32
  boot_cpu_id ← u32
  pure (record {
    firmware = firmware;
    architecture = architecture;
    flags = flags;
    rsdp_address = rsdp_address;
    rsdp_length = rsdp_length;
    boot_cpu_id = boot_cpu_id;
  })

pub read_scenario : Read ScenarioInfo
read_scenario = do
  kind ← u32
  flags ← u32
  argument ← u64
  pure (record { kind = kind; flags = flags; argument = argument })

pub read_region : Read MemoryRegion
read_region = do
  start ← u64
  length ← u64
  kind ← u32
  source_kind ← u32
  attributes ← u64
  pure (record {
    start = start;
    length = length;
    kind = kind;
    source_kind = source_kind;
    attributes = attributes;
  })

-- The loop that overwrites the `n` slots of the array.
pub read_regions : ℕ → Read (List MemoryRegion)
read_regions zero = pure []
read_regions (suc n) = do region ← read_region; regions ← read_regions n; pure (region ∷ regions)

pub read_info : Read BootInfo
read_info = do
  header ← read_header
  platform ← read_platform
  scenario ← read_scenario
  memory_regions ← read_regions Types.max_memory_regions
  pure (record {
    header = header;
    platform = platform;
    scenario = scenario;
    memory_regions = memory_regions;
  })
