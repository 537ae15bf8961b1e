-- ===== src/Contract/Validate/Spec.antt =====
-- What a valid contract is, in plain arithmetic and with no reference to the checks.
use polytope_os.Base.{ℕ, ◌+◌, ◌%◌, ◌^◌, ◌≤◌, ◌<◌, ◌≡◌, ◌⊎◌, List, [], ◌∷◌, All, take, drop}
use polytope_os.Contract.Types.{
  BootHeader, PlatformInfo, ScenarioInfo, MemoryRegion, BootInfo, empty_region,
}
use polytope_os.Contract.Types

pub record IsValidHeader (h : BootHeader) : Type 0 where
  pub magic : h.magic ≡ Types.boot_magic
  pub abi_major : h.abi_major ≡ 1
  pub abi_minor : h.abi_minor ≡ 0
  pub header_size : h.header_size ≡ 32
  pub total_size : h.total_size ≡ 4176
  pub memory_region_size : h.memory_region_size ≡ 32
  pub memory_region_count : h.memory_region_count ≤ 128
  pub flags : h.flags ≡ 0

-- Without the flag the range is zero; with it the range is a plausible RSDP.
abbrev pub IsRsdp : PlatformInfo → Type 0
IsRsdp p =
    (p.flags ≡ 0) × (p.rsdp_address ≡ 0) × (p.rsdp_length ≡ 0)
    ⊎ (p.flags ≡ 1)
      × (20 ≤ p.rsdp_length)
      × (p.rsdp_length ≤ 4096)
      × (0 < p.rsdp_address)
      × (p.rsdp_address % 16 ≡ 0)
      × (p.rsdp_address + p.rsdp_length < 2 ^ 64)

pub record IsValidPlatform (p : PlatformInfo) : Type 0 where
  pub firmware : p.firmware ≡ 1
  pub architecture : p.architecture ≡ 1
  pub rsdp : IsRsdp p

-- A test scenario is marked, and a normal boot carries no test state.
abbrev pub IsValidScenario : ScenarioInfo → Type 0
IsValidScenario s =
    (s.kind ≡ 0) × (s.flags ≡ 0) × (s.argument ≡ 0) ⊎ (1 ≤ s.kind) × (s.kind ≤ 3) × (s.flags ≡ 1)

abbrev pub end : MemoryRegion → ℕ
end r = r.start + r.length

pub record IsValidRegion (r : MemoryRegion) : Type 0 where
  pub kind_lo : 1 ≤ r.kind
  pub kind_hi : r.kind ≤ 9
  pub nonempty : 0 < r.length
  pub start_aligned : r.start % 4096 ≡ 0
  pub length_aligned : r.length % 4096 ≡ 0
  pub end_fits : end r < 2 ^ 64

-- Every region ends before every later one starts.
abbrev pub AreOrdered : List MemoryRegion → Type 0
AreOrdered [] = Unit
AreOrdered (r ∷ rs) = All (λ s. end r ≤ s.start) rs × AreOrdered rs

-- The active regions of a contract.
abbrev pub active : BootInfo → List MemoryRegion
active info = take info.header.memory_region_count info.memory_regions

abbrev pub unused : BootInfo → List MemoryRegion
unused info = drop info.header.memory_region_count info.memory_regions

pub record IsValid (info : BootInfo) : Type 0 where
  pub header : IsValidHeader info.header
  pub platform : IsValidPlatform info.platform
  pub scenario : IsValidScenario info.scenario
  pub regions : All IsValidRegion (active info)
  pub ordered : AreOrdered (active info)
  pub zeroed : All (λ r. r ≡ empty_region) (unused info)
