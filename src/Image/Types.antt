-- ===== src/Image/Types.antt =====
-- crates/xtask/src/image.rs: the constants of the disk image, and the errors of its checks.
-- `ImageError` has the messages of `anyhow`, without the values that they print; the messages of the
-- writes into a new image are two.
use polytope_os.Base.{ℕ, List, [], ◌∷◌, Bool, true, false, Result, ok, err}
use polytope_os.Harness.Text.{codes}
use polytope_os.Elf.Error.{ParseError}

abbrev pub disk_bytes : ℕ
disk_bytes = 67_108_864

abbrev pub logical_block_bytes : ℕ
logical_block_bytes = 512

abbrev pub esp_first_lba : ℕ
esp_first_lba = 2_048

abbrev pub esp_last_lba : ℕ
esp_last_lba = 129_023

abbrev pub fat_volume_id : ℕ
fat_volume_id = 0x5054_4f53

abbrev pub fat_volume_label : List ℕ
fat_volume_label = codes "POLYTOPEOS "

abbrev pub fat_volume_label_visible : List ℕ
fat_volume_label_visible = codes "POLYTOPEOS"

abbrev pub fat32_volume_label_offset : ℕ
fat32_volume_label_offset = 71

abbrev pub loader_image_path : List ℕ
loader_image_path = codes "EFI/BOOT/BOOTX64.EFI"

abbrev pub kernel_image_path : List ℕ
kernel_image_path = codes "POLYTOPE/KERNEL.ELF"

abbrev pub scenario_image_path : List ℕ
scenario_image_path = codes "POLYTOPE/BOOT.CFG"

abbrev pub max_payload_bytes : ℕ
max_payload_bytes = 25_165_824

abbrev pub max_scenario_file_bytes : ℕ
max_scenario_file_bytes = 32

abbrev pub gpt_entry_count : ℕ
gpt_entry_count = 128

abbrev pub gpt_entry_bytes : ℕ
gpt_entry_bytes = 128

abbrev pub gpt_entry_array_sectors : ℕ
gpt_entry_array_sectors = 32

abbrev pub backup_gpt_entries_lba : ℕ
backup_gpt_entries_lba = 131_039

abbrev pub backup_gpt_header_lba : ℕ
backup_gpt_header_lba = 131_071

abbrev pub protective_entry : List ℕ
protective_entry =
    0x00 ∷ 0x00 ∷ 0x02 ∷ 0x00 ∷ 0xee ∷ 0xff ∷ 0xff ∷ 0xff ∷ 0x01 ∷ 0x00 ∷ 0x00 ∷ 0x00 ∷ 0xff ∷ 0xff
    ∷ 0x01 ∷ 0x00 ∷ []

-- The descriptions that `ensure_zero` takes.
pub data Area : Type 0 where
  bootstrap_area unused_mbr_entries unused_gpt_entries pre_esp post_esp header_padding : Area
  unused_reserved backup_adjacent : Area

pub data ImageError : Type 0 where
  nonzero : Area → ImageError
  descending_range lba_overflow lba_outside : ImageError
  mbr_entry mbr_signature : ImageError
  gpt_signature gpt_revision gpt_header_size gpt_reserved gpt_current_lba : ImageError
  gpt_backup_lba gpt_first_usable gpt_last_usable gpt_entries_lba gpt_entry_shape : ImageError
  gpt_identity gpt_entries_differ gpt_entry_empty : ImageError
  fat_oem fat_sector_size fat_cluster_size fat_reserved_count fat_mirrors : ImageError
  fat_root_entries fat_sectors_16 fat_media fat_size_16 esp_too_large fat_total : ImageError
  fat_size_truncated fat_size_zero fat_mirroring fat_version fat_root_cluster : ImageError
  fat_info_sector fat_backup_sector fat_signature fat_backup_differs : ImageError
  info_lead info_structure info_free_count info_trail : ImageError
  fat_data_outside fat_copies_differ : ImageError
  fat_underflow fat_too_short fat_reserved_entries fat_truncated fat_not_prefix : ImageError
  fat_successor : ℕ → ImageError
  fat_sentinels fat_full fat_hint_range fat_hint : ImageError
  not_utf8 not_one_token unknown_scenario : ImageError
  loader_small loader_mz loader_offset loader_offset_overflow loader_pe : ImageError
  loader_machine loader_optional_overflow loader_magic loader_subsystem : ImageError
  kernel_rejected : ParseError → ImageError
  file_missing file_read file_length_overflow file_too_large file_reserve : ImageError
  directory_read directory_bound directory_extra directory_entry : ImageError
  directory_timestamp directory_count directory_count_overflow directory_missing : ImageError
  image_size bad_uuid gpt_invalid disk_guid gpt_count gpt_missing not_esp esp_guid : ImageError
  esp_first esp_last raw_label fat_invalid not_fat32 volume_id volume_label : ImageError
  loader_too_large kernel_too_large gpt_failed format_failed : ImageError
  loader_digest kernel_digest scenario_differs : ImageError

-- `ensure!`
abbrev pub ensure : Bool → ImageError → Result ImageError (Unit {0})
ensure true e = ok tt
ensure false e = err e
