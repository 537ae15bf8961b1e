-- ===== src/Image/Fat.antt =====
-- crates/xtask/src/image.rs: `validate_raw_fat32_layout` and `validate_canonical_fat_entries`.
pub mod NoPanic
pub mod Canonical
pub mod Table
pub mod Layout
use polytope_os.Base.{ℕ, zero, suc, ◌+◌, ◌-◌, ◌*◌, ◌/◌, ◌^◌, bit_and, ltb, leb, ◌==◌, List, [], ◌∷◌}
use polytope_os.Base.{length, slice, list_eq, get_elem?, drop, Bool, true, false, not, ◌&&◌, ◌||◌}
use polytope_os.Base.{Option, none, some, if◌then◌else◌}
use polytope_os.Base.{Result, ok, err, panic, ◌>>=◌, ◌>>◌, ok_or, or_panic, match_option}
use polytope_os.Harness.Text.{codes}
use polytope_os.Elf.Read.{checked_mul, add}
use polytope_os.Image.Types.{Area, ImageError, ensure}
use polytope_os.Image.Types
use polytope_os.Image.Read.{read_u16, read_u32, lba_range, sector, ensure_zero}
use polytope_os.Image.Gpt.{cut, is_some_of}

-- The fields of the boot sector that have one value each.
unfoldable pub validate_boot_sector : List ℕ → Result ImageError (Unit {0})
validate_boot_sector boot = do
  oem ← cut boot 3 11
  ensure (list_eq oem (codes "MSWIN4.1")) Types.fat_oem
  ensure (is_some_of (read_u16 boot 11) 512) Types.fat_sector_size
  cluster_size ← or_panic (get_elem? boot 13)
  ensure (cluster_size == 1) Types.fat_cluster_size
  ensure (is_some_of (read_u16 boot 14) 8) Types.fat_reserved_count
  mirrors ← or_panic (get_elem? boot 16)
  ensure (mirrors == 2) Types.fat_mirrors
  ensure (is_some_of (read_u16 boot 17) 0) Types.fat_root_entries
  ensure (is_some_of (read_u16 boot 19) 0) Types.fat_sectors_16
  media ← or_panic (get_elem? boot 21)
  ensure (media == 0xf8) Types.fat_media
  ensure (is_some_of (read_u16 boot 22) 0) Types.fat_size_16

-- The fields behind the size of a FAT.
unfoldable pub validate_boot_tail : List ℕ → Result ImageError (Unit {0})
validate_boot_tail boot = do
  ensure (is_some_of (read_u16 boot 40) 0) Types.fat_mirroring
  ensure (is_some_of (read_u16 boot 42) 0) Types.fat_version
  ensure (is_some_of (read_u32 boot 44) 2) Types.fat_root_cluster
  ensure (is_some_of (read_u16 boot 48) 1) Types.fat_info_sector
  ensure (is_some_of (read_u16 boot 50) 6) Types.fat_backup_sector
  signature ← cut boot 510 (length boot)
  ensure (list_eq signature (0x55 ∷ 0xaa ∷ [])) Types.fat_signature

unfoldable pub validate_fs_info : List ℕ → Result ImageError (Unit {0})
validate_fs_info fs_info = do
  ensure (is_some_of (read_u32 fs_info 0) 0x4161_5252) Types.info_lead
  ensure (is_some_of (read_u32 fs_info 484) 0x6141_7272) Types.info_structure
  ensure (is_some_of (read_u32 fs_info 488) (2 ^ 32 - 1)) Types.info_free_count
  trail ← cut fs_info 508 512
  ensure (list_eq trail (0 ∷ 0 ∷ 0x55 ∷ 0xaa ∷ [])) Types.info_trail

-- A successor that a cluster may have: another cluster, or an end of chain.
abbrev pub is_successor : ℕ → ℕ → Bool
is_successor entry_count value = leb 2 value && ltb value entry_count || leb 0xfff_fff8 value

-- The body of the loop over the clusters. It returns `first_free`.
unfoldable pub step_cluster : ℕ → List ℕ → ℕ → Option ℕ → Result ImageError (Option ℕ)
step_cluster cluster fat entry_count first_free = do
  raw ← ok_or (read_u32 fat (cluster * 4)) Types.fat_truncated
  let value = bit_and raw 0xfff_ffff
  if value == 0 then ok (some (match_option cluster (λ first. first) first_free)) else (do
    ensure (match_option true (λ _. false) first_free) Types.fat_not_prefix
    ensure (is_successor entry_count value) (Types.fat_successor cluster)
    ok first_free)

-- The loop, with the rounds that are left.
unfoldable pub check_clusters : ℕ → ℕ → List ℕ → ℕ → Option ℕ → Result ImageError (Option ℕ)
check_clusters zero cluster fat entry_count first_free = ok first_free
check_clusters (suc rounds) cluster fat entry_count first_free = do
  first_free' ← step_cluster cluster fat entry_count first_free
  check_clusters rounds (cluster + 1) fat entry_count first_free'

-- `chunks_exact(4).all(..)`: what is left of less than four bytes is ignored.
unfoldable pub are_sentinels : List ℕ → Bool
are_sentinels (a ∷ b ∷ c ∷ d ∷ bytes) =
    list_eq (a ∷ b ∷ c ∷ d ∷ []) (0xff ∷ 0xff ∷ 0xff ∷ 0x0f ∷ []) && are_sentinels bytes
are_sentinels _ = true

-- The test on the two reserved entries.
unfoldable pub are_reserved : List ℕ → Bool
are_reserved fat =
    match_option false (λ value. bit_and value 0xff == 0xf8) (read_u32 fat 0)
    && match_option false (λ value. leb 0xfff_fff8 (bit_and value 0xfff_ffff)) (read_u32 fat 4)

-- The checks of a table for a number of entries. The product does not overflow where it is used.
unfoldable pub check_table : ℕ → List ℕ → List ℕ → Result ImageError (Unit {0})
check_table entry_count fat fs_info = do
  ensure (match_option false (λ bytes. leb bytes (length fat)) (checked_mul entry_count 4))
      Types.fat_too_short
  ensure (are_reserved fat) Types.fat_reserved_entries
  first_free ← check_clusters (entry_count - 2) 2 fat entry_count none
  tail ← cut fat (entry_count * 4) (length fat)
  ensure (are_sentinels tail) Types.fat_sentinels
  first ← ok_or first_free Types.fat_full
  expected_next ← ok_or (if ltb first (2 ^ 32) then some first else none) Types.fat_hint_range
  ensure (is_some_of (read_u32 fs_info 492) expected_next) Types.fat_hint

-- The conversion to `usize` keeps every value.
unfoldable pub validate_canonical_fat_entries :
    List ℕ → ℕ → ℕ → List ℕ → Result ImageError (Unit {0})
validate_canonical_fat_entries fat total_sectors data_lba fs_info = do
  total_clusters ←
      ok_or (if leb data_lba total_sectors then some (total_sectors - data_lba) else none)
        Types.fat_underflow
  entry_count ← add 64 total_clusters 2
  check_table entry_count fat fs_info

-- The reserved sectors behind the boot sector. The result is the FSInfo sector.
unfoldable pub read_fs_info : List ℕ → List ℕ → Result ImageError (List ℕ)
read_fs_info partition boot = do
  backup ← sector partition 6
  ensure (list_eq boot backup) Types.fat_backup_differs
  reserved ← lba_range partition 2 6
  ensure_zero reserved Types.unused_reserved
  adjacent ← sector partition 7
  ensure_zero adjacent Types.backup_adjacent
  fs_info ← sector partition 1
  validate_fs_info fs_info
  ok fs_info

-- The two copies of the table.
unfoldable pub validate_copies : List ℕ → ℕ → ℕ → List ℕ → Result ImageError (Unit {0})
validate_copies partition fat_sectors expected_sectors fs_info = do
  second_fat_lba ← add 64 8 fat_sectors
  data_lba ← add 64 second_fat_lba fat_sectors
  ensure (ltb data_lba expected_sectors) Types.fat_data_outside
  first_fat ← lba_range partition 8 second_fat_lba
  second_fat ← lba_range partition second_fat_lba data_lba
  ensure (list_eq first_fat second_fat) Types.fat_copies_differ
  validate_canonical_fat_entries first_fat expected_sectors data_lba fs_info

-- `u32::try_from(partition.len() / LOGICAL_BLOCK_BYTES)`
unfoldable pub sectors_of : List ℕ → Result ImageError ℕ
sectors_of partition =
    ok_or
      (if ltb (length partition / Types.logical_block_bytes) (2 ^ 32)
        then some (length partition / Types.logical_block_bytes)
        else none)
      Types.esp_too_large

unfoldable pub validate_raw_fat32_layout : List ℕ → Result ImageError (Unit {0})
validate_raw_fat32_layout partition = do
  boot ← sector partition 0
  validate_boot_sector boot
  expected_sectors ← sectors_of partition
  ensure (is_some_of (read_u32 boot 32) expected_sectors) Types.fat_total
  fat_sectors ← ok_or (read_u32 boot 36) Types.fat_size_truncated
  ensure (ltb 0 fat_sectors) Types.fat_size_zero
  validate_boot_tail boot
  fs_info ← read_fs_info partition boot
  validate_copies partition fat_sectors expected_sectors fs_info
