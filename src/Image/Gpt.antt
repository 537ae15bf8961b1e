-- ===== src/Image/Gpt.antt =====
-- crates/xtask/src/image.rs: `validate_raw_gpt_layout` and `validate_raw_gpt_header`.
pub mod Spec
pub mod Correct
use polytope_os.Base.{ℕ, ◌+◌, ◌-◌, ◌*◌, ◌==◌, List, [], ◌∷◌, length, slice, list_eq, not}
use polytope_os.Base.{Bool, true, false, ◌&&◌, Option, none, some}
use polytope_os.Base.{Result, ok, err, panic, ◌>>=◌, ◌>>◌, or_panic, match_option}
use polytope_os.Harness.Text.{codes, all}
use polytope_os.Image.Types.{Area, ImageError, ensure}
use polytope_os.Image.Types
use polytope_os.Image.Read.{read_u32, read_u64, lba_range, sector, ensure_zero}

-- `bytes[start..end]`
abbrev pub cut : List ℕ → ℕ → ℕ → Result ImageError (List ℕ)
cut bytes start end = or_panic (slice bytes start end)

-- `o == Some(expected)`
abbrev pub is_some_of : Option ℕ → ℕ → Bool
is_some_of o expected = match_option false (λ value. value == expected) o

unfoldable pub validate_raw_gpt_header : List ℕ → ℕ → ℕ → ℕ → Result ImageError (Unit {0})
validate_raw_gpt_header header current_lba backup_lba entries_lba = do
  signature ← cut header 0 8
  ensure (list_eq signature (codes "EFI PART")) Types.gpt_signature
  ensure (is_some_of (read_u32 header 8) 0x1_0000) Types.gpt_revision
  ensure (is_some_of (read_u32 header 12) 92) Types.gpt_header_size
  ensure (is_some_of (read_u32 header 20) 0) Types.gpt_reserved
  ensure (is_some_of (read_u64 header 24) current_lba) Types.gpt_current_lba
  ensure (is_some_of (read_u64 header 32) backup_lba) Types.gpt_backup_lba
  ensure (is_some_of (read_u64 header 40) 34) Types.gpt_first_usable
  ensure (is_some_of (read_u64 header 48) (Types.backup_gpt_entries_lba - 1)) Types.gpt_last_usable
  ensure (is_some_of (read_u64 header 72) entries_lba) Types.gpt_entries_lba
  ensure
      (is_some_of (read_u32 header 80) Types.gpt_entry_count
        && is_some_of (read_u32 header 84) Types.gpt_entry_bytes)
      Types.gpt_entry_shape
  padding ← cut header 92 (length header)
  ensure_zero padding Types.header_padding

-- The protective master boot record in the first block.
unfoldable pub validate_protective_mbr : List ℕ → Result ImageError (Unit {0})
validate_protective_mbr image = do
  bootstrap ← cut image 0 446
  ensure_zero bootstrap Types.bootstrap_area
  ensure (match_option false (λ entry. list_eq entry Types.protective_entry) (slice image 446 462))
      Types.mbr_entry
  unused ← cut image 462 510
  ensure_zero unused Types.unused_mbr_entries
  signature ← cut image 510 512
  ensure (list_eq signature (0x55 ∷ 0xaa ∷ [])) Types.mbr_signature

-- The primary and the backup header.
unfoldable pub validate_headers : List ℕ → Result ImageError (Unit {0})
validate_headers image = do
  primary_header ← sector image 1
  backup_header ← sector image Types.backup_gpt_header_lba
  validate_raw_gpt_header primary_header 1 Types.backup_gpt_header_lba 2
  validate_raw_gpt_header backup_header Types.backup_gpt_header_lba 1 Types.backup_gpt_entries_lba
  primary_identity ← cut primary_header 56 72
  backup_identity ← cut backup_header 56 72
  primary_crc ← cut primary_header 88 92
  backup_crc ← cut backup_header 88 92
  ensure (list_eq primary_identity backup_identity && list_eq primary_crc backup_crc)
      Types.gpt_identity

-- The entry arrays and the space around the partition.
unfoldable pub validate_entries : List ℕ → Result ImageError (Unit {0})
validate_entries image = do
  primary_entries ← lba_range image 2 (2 + Types.gpt_entry_array_sectors)
  backup_entries ←
      lba_range image Types.backup_gpt_entries_lba
        (Types.backup_gpt_entries_lba + Types.gpt_entry_array_sectors)
  ensure (list_eq primary_entries backup_entries) Types.gpt_entries_differ
  first ← cut primary_entries 0 Types.gpt_entry_bytes
  ensure (not (all (λ b. b == 0) first)) Types.gpt_entry_empty
  unused ← cut primary_entries Types.gpt_entry_bytes (Types.gpt_entry_count * Types.gpt_entry_bytes)
  ensure_zero unused Types.unused_gpt_entries
  before ← lba_range image 34 Types.esp_first_lba
  ensure_zero before Types.pre_esp
  after ← lba_range image (Types.esp_last_lba + 1) Types.backup_gpt_entries_lba
  ensure_zero after Types.post_esp

unfoldable pub validate_raw_gpt_layout : List ℕ → Result ImageError (Unit {0})
validate_raw_gpt_layout image = do
  validate_protective_mbr image
  validate_headers image
  validate_entries image
