-- ===== src/Contract/Layout.antt =====
-- The byte layout of the contract: every field in its order, little-endian, with no padding.
pub mod Onto
pub mod Bytes
use polytope_os.Base.{ℕ, ◌+◌, ◌*◌, ◌≡◌, refl, arith, List, [], ◌∷◌, ◌++◌, length, length-append}
use polytope_os.Base.Bytes.{to_le, length-to_le}
use polytope_os.Contract.Types.{BootHeader, PlatformInfo, ScenarioInfo, MemoryRegion, BootInfo}
use polytope_os.Contract.Typed.{IsTyped}

abbrev pub header_layout : BootHeader → List ℕ
header_layout h =
    h.magic
    ++ (to_le 2 h.abi_major
        ++ (to_le 2 h.abi_minor
            ++ (to_le 4 h.header_size
                ++ (to_le 4 h.total_size
                    ++ (to_le 4 h.memory_region_size
                        ++ (to_le 4 h.memory_region_count ++ to_le 4 h.flags))))))

abbrev pub platform_layout : PlatformInfo → List ℕ
platform_layout p =
    to_le 4 p.firmware
    ++ (to_le 4 p.architecture
        ++ (to_le 8 p.flags
            ++ (to_le 8 p.rsdp_address ++ (to_le 4 p.rsdp_length ++ to_le 4 p.boot_cpu_id))))

abbrev pub scenario_layout : ScenarioInfo → List ℕ
scenario_layout s = to_le 4 s.kind ++ (to_le 4 s.flags ++ to_le 8 s.argument)

abbrev pub region_layout : MemoryRegion → List ℕ
region_layout r =
    to_le 8 r.start
    ++ (to_le 8 r.length ++ (to_le 4 r.kind ++ (to_le 4 r.source_kind ++ to_le 8 r.attributes)))

abbrev pub regions_layout : List MemoryRegion → List ℕ
regions_layout [] = []
regions_layout (r ∷ rs) = region_layout r ++ regions_layout rs

unfoldable pub layout : BootInfo → List ℕ
layout info =
    header_layout info.header
    ++ (platform_layout info.platform
        ++ (scenario_layout info.scenario ++ regions_layout info.memory_regions))

pub length-region_layout : (r : MemoryRegion) → length (region_layout r) ≡ 32
length-region_layout r = simp (length-append, length-to_le)

pub length-regions_layout : (rs : List MemoryRegion) → length (regions_layout rs) ≡ 32 * length rs
length-regions_layout [] = refl
length-regions_layout (r ∷ rs) = omega (
  arith,
  length-append (region_layout r) (regions_layout rs),
  length-region_layout r,
  length-regions_layout rs,
)

pub length-header_layout : (h : BootHeader) → length h.magic ≡ 8 → length (header_layout h) ≡ 32
length-header_layout h e = simp (length-append, length-to_le) (omega arith)

pub length-platform_layout : (p : PlatformInfo) → length (platform_layout p) ≡ 32
length-platform_layout p = simp (length-append, length-to_le)

pub length-scenario_layout : (s : ScenarioInfo) → length (scenario_layout s) ≡ 16
length-scenario_layout s = simp (length-append, length-to_le)

pub length-layout : (info : BootInfo) → IsTyped info → length (layout info) ≡ 4176
unfolding layout
length-layout info t =
    simp (length-append, length-to_le)
      (omega
        (arith, length-regions_layout info.memory_regions, t.regions_length, t.header.magic_length))
