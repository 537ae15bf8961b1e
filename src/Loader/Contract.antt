-- ===== src/Loader/Contract.antt =====
-- crates/uefi-loader/src/main.rs: `encode_contract` and `normalize_memory_kind`. The crate uefi is not
-- part of the repository: its `MemoryType` constants are a parameter, and a descriptor is the four
-- fields that the loader reads.
pub mod Spec
pub mod Built
pub mod Sent
pub mod Handed
use polytope_os.Base.{ℕ, ◌+◌, ◌-◌, ltb, leb, ◌==◌, List, [], ◌∷◌, ◌++◌, length, take, drop}
use polytope_os.Base.{replicate, Bool, ◌||◌, if◌then◌else◌, Option, none, some}
use polytope_os.Base.{Result, ok, ◌>>=◌, ◌>>◌, ok_or, or_panic, map_err}
use polytope_os.Base.Bytes.{to_le}
use polytope_os.Contract.Types.{ScenarioInfo, MemoryRegion, BootInfo}
use polytope_os.Contract.Types
use polytope_os.Contract.Builder.{
  normal_scenario, test_scenario, x86_64_uefi, new, region_new, set_memory_region,
}
use polytope_os.Contract.Wire.{encode}
use polytope_os.Elf.Read.{checked_add, checked_mul}
use polytope_os.Loader.Error
use polytope_os.Loader.Error.{LoaderError}
use polytope_os.Loader.Scenario
use polytope_os.Loader.Scenario.{BootScenario}

-- The constants of `uefi::boot::MemoryType`.
pub record MemoryTypes : Type 0 where
  pub conventional : ℕ
  pub loader_code : ℕ
  pub loader_data : ℕ
  pub boot_services_code : ℕ
  pub boot_services_data : ℕ
  pub runtime_services_code : ℕ
  pub runtime_services_data : ℕ
  pub acpi_reclaim : ℕ
  pub acpi_non_volatile : ℕ
  pub mmio : ℕ
  pub mmio_port_space : ℕ

pub record MemoryDescriptor : Type 0 where
  pub ty : ℕ
  pub phys_start : ℕ
  pub page_count : ℕ
  pub att : ℕ

abbrev pub kernel_memory_type : ℕ
kernel_memory_type = 0x8000_0000

abbrev pub contract_memory_type : ℕ
contract_memory_type = 0x8000_0001

abbrev pub stack_guard_memory_type : ℕ
stack_guard_memory_type = 0x8000_0002

-- `ABI_MAJOR_OFFSET`
abbrev pub abi_major_offset : ℕ
abi_major_offset = 8

-- The `match` on the scenario.
unfoldable pub scenario_info : BootScenario → ScenarioInfo
scenario_info Scenario.normal = normal_scenario
scenario_info Scenario.incompatible_version = test_scenario Types.incompatible_version 0
scenario_info Scenario.truncated_contract = test_scenario Types.malformed_metadata 0
scenario_info Scenario.deliberate_panic = test_scenario Types.deliberate_panic 0

-- `self[start..start + value.len()].copy_from_slice(value)`
pub overwrite : List ℕ → ℕ → List ℕ → Option (List ℕ)
overwrite self start value =
    if leb (start + length value) (length self)
    then some (take start self ++ (value ++ drop (start + length value) self))
    else none

-- The corruption of the version.
pub patch_version : BootScenario → List ℕ → Result LoaderError (List ℕ)
unfolding overwrite
patch_version Scenario.incompatible_version output =
    or_panic (overwrite output abi_major_offset (to_le 2 (Types.abi_major + 1)))
patch_version scenario output = ok output

-- The length that is handed over.
pub handed_length : BootScenario → ℕ → Result LoaderError ℕ
handed_length Scenario.truncated_contract encoded =
    ok_or (if ltb encoded 1 then none else some (encoded - 1)) Error.contract
handed_length scenario encoded = ok encoded

module _ (types : MemoryTypes) where
  unfoldable pub normalize_memory_kind : MemoryDescriptor → ℕ
  normalize_memory_kind descriptor =
      let ty = descriptor.ty in
      if ty == stack_guard_memory_type
      then Types.reserved
      else if ty == kernel_memory_type
      then Types.kernel_image
      else if ty == contract_memory_type
      then Types.boot_contract
      else if ty == types.conventional
      then Types.usable
      else if ty == types.loader_code
          || ty == types.loader_data
          || ty == types.boot_services_code
          || ty == types.boot_services_data
      then Types.reclaimable
      else if ty == types.runtime_services_code || ty == types.runtime_services_data
      then Types.firmware_runtime
      else if ty == types.acpi_reclaim
      then Types.acpi_reclaimable
      else if ty == types.acpi_non_volatile
      then Types.acpi_nvs
      else if ty == types.mmio || ty == types.mmio_port_space
      then Types.mmio
      else Types.reserved

  -- The region of a descriptor, whose length is given.
  unfoldable pub region_of : MemoryDescriptor → ℕ → MemoryRegion
  unfolding normalize_memory_kind
  region_of descriptor length =
      region_new descriptor.phys_start length (normalize_memory_kind descriptor) descriptor.ty
        descriptor.att

  -- The loop body of `encode_contract`, on `region_index` and `info`.
  pub add_region : MemoryDescriptor → ℕ × BootInfo → Result LoaderError (ℕ × BootInfo)
  unfolding region_of
  add_region descriptor (region_index, info) =
      if descriptor.page_count == 0 then ok (region_index, info) else do
        length ← ok_or (checked_mul descriptor.page_count Types.page_size) Error.contract
        info' ←
            map_err (λ _. Error.contract)
              (set_memory_region info region_index (region_of descriptor length))
        region_index' ← ok_or (checked_add region_index 1) Error.contract
        ok (region_index', info')

  pub add_regions : List MemoryDescriptor → ℕ × BootInfo → Result LoaderError (ℕ × BootInfo)
  unfolding add_region
  add_regions [] s = ok s
  add_regions (descriptor ∷ entries) s = do s' ← add_region descriptor s; add_regions entries s'

  -- `encode_contract` returns the length, and the storage behind it.
  pub encode_contract :
      List MemoryDescriptor → List ℕ → BootScenario → Result LoaderError (ℕ × List ℕ)
  unfolding scenario_info add_regions patch_version handed_length
  encode_contract memory_map storage scenario = do
    (_, info) ← add_regions memory_map (0, new (x86_64_uefi 0) (scenario_info scenario))
    let output = replicate (length storage) 0
    (encoded, written) ← map_err (λ _. Error.contract) (encode info output)
    patched ← patch_version scenario written
    handed ← handed_length scenario encoded
    ok (handed, patched)
