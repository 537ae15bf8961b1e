-- ===== src/Loader/Examples.antt =====
-- A concrete memory map, and the theorems on the handoff at it. The numbers of the memory types are
-- those of the UEFI specification.
use polytope_os.Base.{ℕ, ◌≤◌, ◌≡◌, ◌↔◌, refl, arith, List, [], ◌∷◌, All, length, take}
use polytope_os.Base.{replicate, length-replicate, ok}
use polytope_os.Base.Bytes.{IsByte}
use polytope_os.Contract.Builder.{region_new}
use polytope_os.Contract.Layout.{layout}
use polytope_os.Contract.Layout.Bytes.{layout-IsByte}
use polytope_os.Kernel.Entry.{ready, panic_handler, polytope_kernel_main}
use polytope_os.Kernel.Entry.Verdict.{IsHandoff, kernel_ready_iff, kernel_panic_iff}
use polytope_os.Loader.Scenario.{parse, normal, incompatible_version, bad_version_file}
use polytope_os.Loader.Scenario.Tokens.{scenario_parse_iff}
use polytope_os.Loader.Contract.{
  MemoryTypes, MemoryDescriptor, normalize_memory_kind, region_of, encode_contract,
}
use polytope_os.Loader.Contract.Built.{IsTypedDescriptor, regions_of}
use polytope_os.Loader.Contract.Handed.{
  IsUsable, contract_for, contract_for-IsTyped, written, encode_contract_iff,
}
use polytope_os.Loader.Contract.Sent.{sent_length}
use polytope_os.Loader.Handoff.{outcome_of, handoff_outcome}
use polytope_os.Harness.Boot.{verdict, documented_status, expected, boot_verdict}

abbrev pub uefi_types : MemoryTypes
uefi_types = record {
  conventional = 7;
  loader_code = 1;
  loader_data = 2;
  boot_services_code = 3;
  boot_services_data = 4;
  runtime_services_code = 5;
  runtime_services_data = 6;
  acpi_reclaim = 9;
  acpi_non_volatile = 10;
  mmio = 11;
  mmio_port_space = 12;
}

-- Usable memory, a descriptor with no pages, and the kernel image.
abbrev pub memory_map : List MemoryDescriptor
memory_map =
    record { ty = 7; phys_start = 0x10_0000; page_count = 256; att = 15 }
    ∷ record { ty = 3; phys_start = 0x20_0000; page_count = 0; att = 15 }
    ∷ record { ty = 0x8000_0000; phys_start = 0x400_0000; page_count = 16; att = 15 }
    ∷ []

pub memory_map-IsTyped : All IsTypedDescriptor memory_map
memory_map-IsTyped = (omega arith, (omega arith, (omega arith, tt)))

pub memory_map-IsUsable : IsUsable uefi_types memory_map
unfolding regions_of region_of region_new normalize_memory_kind
memory_map-IsUsable = record {
  fits = (omega arith, (omega arith, (omega arith, tt)));
  count = omega arith;
  regions = (omega arith, (omega arith, tt));
  ordered = ((omega arith, tt), (tt, tt));
}

abbrev storage : List ℕ
storage = replicate 8192 0

storage_room : 4176 ≤ length storage
storage_room = omega (arith, length-replicate {A = ℕ} 8192 0)

encode_contract_iff_example :
    (encode_contract uefi_types memory_map storage incompatible_version
      ≡ ok (4176, written uefi_types memory_map incompatible_version storage))
    ↔ (IsUsable uefi_types memory_map
        × (4176 ≤ length storage)
        × (◌≡◌ {A = ℕ} 4176 (sent_length incompatible_version))
        × (written uefi_types memory_map incompatible_version storage
            ≡ written uefi_types memory_map incompatible_version storage))
encode_contract_iff_example =
    encode_contract_iff uefi_types memory_map incompatible_version storage memory_map-IsTyped 4176
      (written uefi_types memory_map incompatible_version storage)

memory_map_encoded :
    encode_contract uefi_types memory_map storage incompatible_version
    ≡ ok (4176, written uefi_types memory_map incompatible_version storage)
unfolding sent_length
memory_map_encoded =
    (encode_contract_iff uefi_types memory_map incompatible_version storage memory_map-IsTyped 4176
        (written uefi_types memory_map incompatible_version storage)).1
      (memory_map-IsUsable, storage_room, refl, refl)

abbrev memory : List ℕ → ℕ → ℕ → List ℕ
memory bytes address length = take length bytes

handoff_outcome_example :
    polytope_kernel_main
      (memory (written uefi_types memory_map incompatible_version storage))
      0x10_0000
      4176
    ≡ outcome_of incompatible_version
handoff_outcome_example =
    handoff_outcome uefi_types memory_map incompatible_version storage
      (written uefi_types memory_map incompatible_version storage) 4176 0x10_0000
      (memory (written uefi_types memory_map incompatible_version storage)) memory_map-IsTyped
      memory_map_encoded (omega arith) refl

abbrev normal_bytes : ℕ → ℕ → List ℕ
normal_bytes address length = layout (contract_for uefi_types memory_map normal)

normal_bytes-IsByte : All IsByte (normal_bytes 0x10_0000 4176)
normal_bytes-IsByte = layout-IsByte (contract_for uefi_types memory_map normal) (
    contract_for-IsTyped uefi_types memory_map normal memory_map-IsTyped memory_map-IsUsable.fits
      memory_map-IsUsable.count)

kernel_ready_iff_example :
    (polytope_kernel_main normal_bytes 0x10_0000 4176 ≡ ready)
    ↔ IsHandoff normal_bytes 0x10_0000 4176 0
kernel_ready_iff_example = kernel_ready_iff normal_bytes 0x10_0000 4176 normal_bytes-IsByte

kernel_panic_iff_example :
    (polytope_kernel_main normal_bytes 0x10_0000 4176 ≡ panic_handler)
    ↔ IsHandoff normal_bytes 0x10_0000 4176 3
kernel_panic_iff_example = kernel_panic_iff normal_bytes 0x10_0000 4176 normal_bytes-IsByte

scenario_parse_iff_example :
    (parse bad_version_file ≡ ok incompatible_version) ↔ (bad_version_file ≡ bad_version_file)
scenario_parse_iff_example = scenario_parse_iff bad_version_file incompatible_version

boot_verdict_example :
    verdict documented_status (
      polytope_kernel_main
        (memory (written uefi_types memory_map incompatible_version storage))
        0x10_0000
        4176)
    ≡ expected incompatible_version
boot_verdict_example =
    boot_verdict uefi_types memory_map incompatible_version storage
      (written uefi_types memory_map incompatible_version storage) 4176 0x10_0000
      (memory (written uefi_types memory_map incompatible_version storage)) documented_status
      (λ value. refl) memory_map-IsTyped memory_map_encoded (omega arith) refl
