-- ===== src/Image/Build.antt =====
-- crates/xtask/src/image.rs: `build_image_bytes` and `validate_image_bytes`. What the code calls of the
-- crates gpt, fatfs, uuid and sha2 is a record of functions.
pub mod Tree
pub mod Validated
pub mod Built
pub mod Correct
use polytope_os.Base.{
  ℕ, ◌+◌, ◌-◌, ◌/◌, ◌^◌, leb, ltb, ◌==◌, List, [], ◌∷◌, ◌++◌, length, slice, list_eq, replicate,
  take, drop,
}
use polytope_os.Base.{Bool, true, false, ◌&&◌, Option, none, some, if◌then◌else◌}
use polytope_os.Base.{Result, ok, err, ◌>>=◌, ◌>>◌, ok_or, or_panic, match_option}
use polytope_os.Harness.Text.{codes}
use polytope_os.Elf.Types.{max_elf_file_size}
use polytope_os.Image.Types.{ImageError, ensure}
use polytope_os.Image.Types
use polytope_os.Image.Read.{lba_to_offset}
use polytope_os.Image.Gpt.{cut, validate_raw_gpt_layout}
use polytope_os.Image.Fat.{validate_raw_fat32_layout}
use polytope_os.Image.Scenario.{BootScenario, as_str, parse_scenario}
use polytope_os.Image.Scenario
use polytope_os.Image.Payload.{validate_uefi_loader, validate_kernel_elf}
use polytope_os.Image.Directory.{DirEntry, validate_directory}
use polytope_os.Image.Files.{read_fat_file}

pub record Partition : Type 0 where
  pub part_type_guid : List ℕ
  pub part_guid : List ℕ
  pub first_lba : ℕ
  pub last_lba : ℕ
  pub flags : ℕ
  pub name : List ℕ

pub record GptDisk : Type 0 where
  pub guid : List ℕ
  pub partitions : List (ℕ × Partition)

-- A mounted file system: directories and files by their paths, a file by the results of its reads.
pub record Volume : Type 0 where
  pub is_fat32 : Bool
  pub volume_id : ℕ
  pub volume_label : List ℕ
  pub directory : List ℕ → Option (List (Option DirEntry))
  pub file : List ℕ → Option (ℕ → Option (List ℕ))

pub record Crates : Type 0 where
  pub sha256_hex : List ℕ → List ℕ
  pub parse_uuid : List ℕ → Option (List ℕ)
  pub uuid_text : List ℕ → List ℕ
  pub efi_type : List ℕ
  -- `GptConfig::open_from_device` with valid headers only, and `FileSystem::new`
  pub open_gpt : List ℕ → Option GptDisk
  pub open_fat : List ℕ → Option Volume
  -- `ProtectiveMBR::overwrite_lba0`, and `create_from_device` up to `write`
  pub overwrite_mbr : ℕ → List ℕ → Option (List ℕ)
  pub write_gpt : List ℕ → List ℕ → List (ℕ × Partition) → Option (List ℕ)
  -- `format_volume` with the options of the code, and the writes into the new file system
  pub format_volume : List ℕ → Option (List ℕ)
  pub write_tree : List ℕ → List (List ℕ) → List (List ℕ × List ℕ) → Option (List ℕ)
  -- `try_reserve_exact` on a vector of a length
  pub reserve : ℕ → ℕ → Bool

pub record ImageManifest : Type 0 where
  pub schema_version : ℕ
  pub image_bytes : ℕ
  pub image_sha256 : List ℕ
  pub loader_sha256 : List ℕ
  pub kernel_sha256 : List ℕ
  pub scenario : BootScenario
  pub esp_first_lba : ℕ
  pub esp_last_lba : ℕ
  pub disk_guid : List ℕ
  pub esp_guid : List ℕ

abbrev pub disk_guid_text : List ℕ
disk_guid_text = codes "4ed83d8f-20d8-4c3d-9a4c-25bccd13a6a1"

abbrev pub esp_guid_text : List ℕ
esp_guid_text = codes "f607134d-0901-4d7b-a512-5a49d6ba66bf"

-- `BTreeMap::get`
unfoldable pub partition_at : ℕ → List (ℕ × Partition) → Option Partition
partition_at number [] = none
partition_at number ((key, partition) ∷ rest) =
    if key == number then some partition else partition_at number rest

-- `PartialEq` of the derived `BootScenario`
unfoldable pub same_scenario : BootScenario → BootScenario → Bool
unfolding as_str list_eq
same_scenario a b = list_eq (as_str a) (as_str b)

unfoldable pub validate_tree : Volume → Result ImageError (Unit {0})
validate_tree filesystem = do
  root ← ok_or (filesystem.directory []) Types.directory_missing
  validate_directory root ((codes "EFI", true) ∷ (codes "POLYTOPE", true) ∷ [])
  efi ← ok_or (filesystem.directory (codes "EFI")) Types.directory_missing
  validate_directory efi ((codes "BOOT", true) ∷ [])
  boot ← ok_or (filesystem.directory (codes "EFI/BOOT")) Types.directory_missing
  validate_directory boot ((codes "BOOTX64.EFI", false) ∷ [])
  polytope ← ok_or (filesystem.directory (codes "POLYTOPE")) Types.directory_missing
  validate_directory polytope ((codes "KERNEL.ELF", false) ∷ (codes "BOOT.CFG", false) ∷ [])

module _ (crates : Crates) where
  open crates use {
    sha256_hex, parse_uuid, uuid_text, efi_type, open_gpt, open_fat, overwrite_mbr, write_gpt,
    format_volume, write_tree, reserve,
  }

  unfoldable pub validate_gpt : List ℕ → List ℕ → List ℕ → Result ImageError (Unit {0})
  validate_gpt image disk_guid esp_guid = do
    gpt_disk ← ok_or (open_gpt image) Types.gpt_invalid
    ensure (list_eq gpt_disk.guid disk_guid) Types.disk_guid
    ensure (length gpt_disk.partitions == 1) Types.gpt_count
    partition ← ok_or (partition_at 1 gpt_disk.partitions) Types.gpt_missing
    ensure (list_eq partition.part_type_guid efi_type) Types.not_esp
    ensure (list_eq partition.part_guid esp_guid) Types.esp_guid
    ensure (partition.first_lba == Types.esp_first_lba) Types.esp_first
    ensure (partition.last_lba == Types.esp_last_lba) Types.esp_last

  unfoldable pub mount : List ℕ → Result ImageError Volume
  mount partition_bytes = do
    ensure
        (match_option false (λ label. list_eq label Types.fat_volume_label)
          (slice partition_bytes Types.fat32_volume_label_offset
            (Types.fat32_volume_label_offset + 11)))
        Types.raw_label
    filesystem ← ok_or (open_fat partition_bytes) Types.fat_invalid
    ensure filesystem.is_fat32 Types.not_fat32
    ensure (filesystem.volume_id == Types.fat_volume_id) Types.volume_id
    ensure (list_eq filesystem.volume_label Types.fat_volume_label_visible) Types.volume_label
    ok filesystem

  -- `read_fat_file` from its path on. Its loop always ends: the outcome of one that does not is never
  -- taken.
  unfoldable pub read_path : Volume → List ℕ → ℕ → Result ImageError (List ℕ)
  read_path filesystem path maximum = do
    reads ← ok_or (filesystem.file path) Types.file_missing
    match_option Result.panic (λ result. result) (read_fat_file reserve maximum reads)

  -- The files of the system partition.
  unfoldable pub read_payloads : Volume → Result ImageError (List ℕ × List ℕ × BootScenario)
  read_payloads filesystem = do
    validate_tree filesystem
    loader ← read_path filesystem Types.loader_image_path Types.max_payload_bytes
    kernel ← read_path filesystem Types.kernel_image_path max_elf_file_size
    scenario_bytes ← read_path filesystem Types.scenario_image_path Types.max_scenario_file_bytes
    validate_uefi_loader loader
    validate_kernel_elf kernel
    scenario ← parse_scenario scenario_bytes
    ok (loader, kernel, scenario)

  unfoldable pub validate_image_bytes : List ℕ → Result ImageError ImageManifest
  validate_image_bytes image = do
    ensure (length image == Types.disk_bytes) Types.image_size
    validate_raw_gpt_layout image
    disk_guid ← ok_or (parse_uuid disk_guid_text) Types.bad_uuid
    esp_guid ← ok_or (parse_uuid esp_guid_text) Types.bad_uuid
    validate_gpt image disk_guid esp_guid
    start ← lba_to_offset Types.esp_first_lba
    end ← lba_to_offset (Types.esp_last_lba + 1)
    partition_bytes ← cut image start end
    validate_raw_fat32_layout partition_bytes
    filesystem ← mount partition_bytes
    (loader, kernel, scenario) ← read_payloads filesystem
    ok (record {
      schema_version = 1;
      image_bytes = length image;
      image_sha256 = sha256_hex image;
      loader_sha256 = sha256_hex loader;
      kernel_sha256 = sha256_hex kernel;
      scenario = scenario;
      esp_first_lba = Types.esp_first_lba;
      esp_last_lba = Types.esp_last_lba;
      disk_guid = uuid_text disk_guid;
      esp_guid = uuid_text esp_guid;
    })

  unfoldable pub create_gpt_disk : Result ImageError (List ℕ)
  create_gpt_disk = do
    let total_lbas = Types.disk_bytes / Types.logical_block_bytes
    device ← ok_or (overwrite_mbr (total_lbas - 1) (replicate Types.disk_bytes 0)) Types.gpt_failed
    disk_guid ← ok_or (parse_uuid disk_guid_text) Types.bad_uuid
    esp_guid ← ok_or (parse_uuid esp_guid_text) Types.bad_uuid
    let esp : Partition = record {
      part_type_guid = efi_type;
      part_guid = esp_guid;
      first_lba = Types.esp_first_lba;
      last_lba = Types.esp_last_lba;
      flags = 0;
      name = codes "PolytopeOS ESP";
    }
    ok_or (write_gpt device disk_guid ((1, esp) ∷ [])) Types.gpt_failed

  -- The file system is written in place, between what comes before and behind it.
  unfoldable pub format_esp : List ℕ → List ℕ → List ℕ → List ℕ → Result ImageError (List ℕ)
  format_esp disk loader kernel scenario = do
    start ← lba_to_offset Types.esp_first_lba
    end ← lba_to_offset (Types.esp_last_lba + 1)
    esp ← ok_or (slice disk start end) Types.format_failed
    formatted ← ok_or (format_volume esp) Types.format_failed
    written ←
        ok_or
          (write_tree formatted (codes "EFI" ∷ codes "EFI/BOOT" ∷ codes "POLYTOPE" ∷ []) (
            (Types.loader_image_path, loader)
            ∷ (Types.kernel_image_path, kernel)
            ∷ (Types.scenario_image_path, scenario)
            ∷ []))
          Types.format_failed
    ok (take start disk ++ written ++ drop end disk)

  unfoldable pub build_image_bytes :
      List ℕ → List ℕ → BootScenario → Result ImageError (List ℕ × ImageManifest)
  build_image_bytes loader kernel scenario = do
    validate_uefi_loader loader
    validate_kernel_elf kernel
    ensure (leb (length loader) Types.max_payload_bytes) Types.loader_too_large
    ensure (leb (length kernel) Types.max_payload_bytes) Types.kernel_too_large
    disk ← create_gpt_disk
    disk' ← format_esp disk loader kernel (as_str scenario ++ b'\n' ∷ [])
    validated ← validate_image_bytes disk'
    ensure (list_eq validated.loader_sha256 (sha256_hex loader)) Types.loader_digest
    ensure (list_eq validated.kernel_sha256 (sha256_hex kernel)) Types.kernel_digest
    ensure (same_scenario validated.scenario scenario) Types.scenario_differs
    ok (disk', validated)
