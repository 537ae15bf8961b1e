-- ===== src/Loader/Contract/Spec.antt =====
-- What the loader's contract says of a memory map and a scenario, independent of the code that builds it.
use polytope_os.Base.{ℕ, ◌*◌, ◌==◌, List, [], ◌∷◌, if◌then◌else◌}
use polytope_os.Contract.Types.{PlatformInfo, ScenarioInfo, MemoryRegion}
use polytope_os.Loader.Scenario.{
  BootScenario, normal, incompatible_version, truncated_contract, deliberate_panic,
}
use polytope_os.Loader.Contract.{MemoryTypes, MemoryDescriptor}

-- The kind of each type of memory: 1 is reserved, 2 usable, 3 reclaimable, 4 the kernel, 5 the contract,
-- 6 the firmware's at run time, 7 and 8 of ACPI, and 9 of devices.
abbrev pub kind_table : MemoryTypes → List (ℕ × ℕ)
kind_table types =
    (0x8000_0002, 1)
    ∷ (0x8000_0000, 4)
    ∷ (0x8000_0001, 5)
    ∷ (types.conventional, 2)
    ∷ (types.loader_code, 3)
    ∷ (types.loader_data, 3)
    ∷ (types.boot_services_code, 3)
    ∷ (types.boot_services_data, 3)
    ∷ (types.runtime_services_code, 6)
    ∷ (types.runtime_services_data, 6)
    ∷ (types.acpi_reclaim, 7)
    ∷ (types.acpi_non_volatile, 8)
    ∷ (types.mmio, 9)
    ∷ (types.mmio_port_space, 9)
    ∷ []

-- The kind of the first row with the type; a type with no row is reserved.
abbrev pub kind_in : List (ℕ × ℕ) → ℕ → ℕ
kind_in [] ty = 1
kind_in ((key, kind) ∷ rows) ty = if ty == key then kind else kind_in rows ty

-- The region of a descriptor.
abbrev pub region_for : MemoryTypes → MemoryDescriptor → MemoryRegion
region_for types d = record {
  start = d.phys_start;
  length = d.page_count * 4096;
  kind = kind_in (kind_table types) d.ty;
  source_kind = d.ty;
  attributes = d.att;
}

-- A UEFI platform of the architecture x86_64, with no RSDP.
abbrev pub platform_for : PlatformInfo
platform_for = record {
  firmware = 1;
  architecture = 1;
  flags = 0;
  rsdp_address = 0;
  rsdp_length = 0;
  boot_cpu_id = 0;
}

-- The tests are marked as such, with their numbers.
abbrev pub scenario_for : BootScenario → ScenarioInfo
scenario_for normal = record { kind = 0; flags = 0; argument = 0 }
scenario_for incompatible_version = record { kind = 1; flags = 1; argument = 0 }
scenario_for truncated_contract = record { kind = 2; flags = 1; argument = 0 }
scenario_for deliberate_panic = record { kind = 3; flags = 1; argument = 0 }
