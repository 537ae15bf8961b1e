-- ===== src/Image/Fat/Layout.antt =====
-- crates/xtask/src/image.rs: `validate_raw_fat32_layout` against a description by the bytes.
use polytope_os.Base.{ℕ, ◌+◌, ◌-◌, ◌^◌, ◌<◌, ◌≡◌, ◌↔◌, arith, List, [], ◌∷◌}
use polytope_os.Base.{length, take, drop, slice-eq-some, slice_suffix, list_eq_iff, get_elem?}
use polytope_os.Base.{some, ok, ok_or, ok_or-eq-ok, >>=-eq-ok, lt→ltb, ltb, ap, sym, ◌∙◌}
use polytope_os.Harness.Text.{codes}
use polytope_os.Image.Types
use polytope_os.Image.Types.{ImageError, ensure}
use polytope_os.Image.Read.{read_u16, read_u32}
use polytope_os.Image.Read.Blocks.{
  AllZero, blocks, block, ensure_zero_iff, sector_inside, lba_range_inside, length-block,
}
use polytope_os.Image.Gpt.{is_some_of}
use polytope_os.Image.Fat.{
  validate_boot_sector, validate_boot_tail, validate_fs_info, read_fs_info, validate_copies,
  sectors_of, validate_raw_fat32_layout,
}
use polytope_os.Image.Fat.Table.{IsCanonical, fat_entries_iff}

-- The fields of a boot sector before the sizes: sectors of 512 bytes, one in a cluster, 8 reserved ones,
-- two tables.
pub record HasGeometry (boot : List ℕ) : Type 0 where
  pub oem : take 8 (drop 3 boot) ≡ codes "MSWIN4.1"
  pub sector_size : read_u16 boot 11 ≡ some 512
  pub cluster_size : get_elem? boot 13 ≡ some 1
  pub reserved : read_u16 boot 14 ≡ some 8
  pub tables : get_elem? boot 16 ≡ some 2
  pub root_entries : read_u16 boot 17 ≡ some 0
  pub sectors_16 : read_u16 boot 19 ≡ some 0
  pub media : get_elem? boot 21 ≡ some 0xf8
  pub table_size_16 : read_u16 boot 22 ≡ some 0

-- The fields behind them.
pub record HasRoot (boot : List ℕ) : Type 0 where
  pub mirroring : read_u16 boot 40 ≡ some 0
  pub version : read_u16 boot 42 ≡ some 0
  pub root_cluster : read_u32 boot 44 ≡ some 2
  pub info_sector : read_u16 boot 48 ≡ some 1
  pub backup_sector : read_u16 boot 50 ≡ some 6
  pub signature : drop 510 boot ≡ 0x55 ∷ 0xaa ∷ []

pub record IsFsInfo (info : List ℕ) : Type 0 where
  pub lead : read_u32 info 0 ≡ some 0x4161_5252
  pub structure : read_u32 info 484 ≡ some 0x6141_7272
  pub free_count : read_u32 info 488 ≡ some 0xffff_ffff
  pub trail : take 4 (drop 508 info) ≡ 0 ∷ 0 ∷ 0x55 ∷ 0xaa ∷ []

-- The reserved sectors: the boot sector is copied to sector 6, FSInfo is sector 1, the others are zero.
pub record HasInfo (partition : List ℕ) : Type 0 where
  pub backup : block partition 0 ≡ block partition 6
  pub unused : AllZero (blocks partition 2 6)
  pub adjacent : AllZero (block partition 7)
  pub info : IsFsInfo (block partition 1)

-- The two tables of `n` sectors are the same and canonical, with data behind them.
pub record HasTables (partition : List ℕ) (n : ℕ) : Type 0 where
  pub data_inside : 8 + n + n < 126_976
  pub same : blocks partition 8 (8 + n) ≡ blocks partition (8 + n) (8 + n + n)
  pub canonical :
      IsCanonical (126_976 - (8 + n + n) + 2) (blocks partition 8 (8 + n)) (block partition 1)

-- A FAT32 partition of 126,976 sectors.
pub record IsFatVolume (partition : List ℕ) : Type 0 where
  pub boot : HasGeometry (block partition 0)
  pub total : read_u32 (block partition 0) 32 ≡ some 126_976
  pub table_sectors : ℕ
  pub table_size : read_u32 (block partition 0) 36 ≡ some table_sectors
  pub nonzero : 0 < table_sectors
  pub tail : HasRoot (block partition 0)
  pub has_info : HasInfo partition
  pub has_tables : HasTables partition table_sectors

boot_sector_iff :
    (boot : List ℕ) → length boot ≡ 512 → (validate_boot_sector boot ≡ ok tt) ↔ HasGeometry boot
unfolding validate_boot_sector
boot_sector_iff boot size =
    rw (slice-eq-some boot 3 11 (omega arith) (omega arith))
      (ground (arith, list_eq_iff (take 8 (drop 3 boot)) (codes "MSWIN4.1")))

boot_tail_iff :
    (boot : List ℕ) → length boot ≡ 512 → (validate_boot_tail boot ≡ ok tt) ↔ HasRoot boot
unfolding validate_boot_tail
boot_tail_iff boot size =
    rw (slice_suffix boot 510 (omega arith))
      (ground (arith, list_eq_iff (drop 510 boot) (0x55 ∷ 0xaa ∷ [])))

fs_info_iff : (info : List ℕ) → length info ≡ 512 → (validate_fs_info info ≡ ok tt) ↔ IsFsInfo info
unfolding validate_fs_info
fs_info_iff info size =
    rw (slice-eq-some info 508 512 (omega arith) (omega arith))
      (ground (arith, list_eq_iff (take 4 (drop 508 info)) (0 ∷ 0 ∷ 0x55 ∷ 0xaa ∷ [])))

module _ (partition : List ℕ) (size : length partition ≡ 65_011_712) where
  reserved_iff :
      (read_fs_info partition (block partition 0) ≡ ok (block partition 1)) ↔ HasInfo partition
  unfolding read_fs_info
  reserved_iff =
      rw
        (
          sector_inside partition 6 (omega arith) (omega arith),
          lba_range_inside partition 2 6 (omega arith) (omega arith) (omega arith),
          sector_inside partition 7 (omega arith) (omega arith),
          sector_inside partition 1 (omega arith) (omega arith),
        )
        (ground (
          arith,
          list_eq_iff (block partition 0) (block partition 6),
          ensure_zero_iff (blocks partition 2 6) Types.unused_reserved,
          ensure_zero_iff (block partition 7) Types.backup_adjacent,
          fs_info_iff (block partition 1) (length-block partition 1 (omega arith)),
        ))

  copies_iff :
      (n : ℕ)
      → 8 + n + n < 126_976
      → (validate_copies partition n 126_976 (block partition 1) ≡ ok tt) ↔ HasTables partition n
  unfolding validate_copies
  copies_iff n inside =
      rw
        (
          lt→ltb (8 + n) (2 ^ 64) (omega arith),
          lt→ltb (8 + n + n) (2 ^ 64) (omega arith),
          lt→ltb (8 + n + n) 126_976 inside,
          lba_range_inside partition 8 (8 + n) (omega arith) (omega arith) (omega arith),
          lba_range_inside partition (8 + n) (8 + n + n) (omega arith) (omega arith) (omega arith),
        )
        (ground (
          arith,
          list_eq_iff (blocks partition 8 (8 + n)) (blocks partition (8 + n) (8 + n + n)),
          fat_entries_iff (blocks partition 8 (8 + n)) (block partition 1) 126_976 (8 + n + n)
              (omega arith),
        ))

  info_read :
      {info : List ℕ}
      → read_fs_info partition (block partition 0) ≡ ok info
      → block partition 1 ≡ info
  unfolding read_fs_info
  info_read e =
      let e' =
        rw
          (
            sector_inside partition 6 (omega arith) (omega arith),
            lba_range_inside partition 2 6 (omega arith) (omega arith) (omega arith),
            sector_inside partition 7 (omega arith) (omega arith),
            sector_inside partition 1 (omega arith) (omega arith),
          )
          at e in
      ground (arith, e')

  copies_inside :
      (n : ℕ) (info : List ℕ)
      → validate_copies partition n 126_976 info ≡ ok tt
      → 8 + n + n < 126_976
  unfolding validate_copies
  copies_inside n info e = ground (arith, e)

  counted : sectors_of partition ≡ ok 126_976
  unfolding sectors_of
  counted = rw size

  accepted-IsFatVolume : validate_raw_fat32_layout partition ≡ ok tt → IsFatVolume partition
  unfolding validate_raw_fat32_layout
  accepted-IsFatVolume e =
      let boot = block partition 0 in
      let full = length-block partition 0 (omega arith) in
      let e0 = rw (sector_inside partition 0 (omega arith) (omega arith), counted) at e in
      let (u0, head, e1) = >>=-eq-ok (validate_boot_sector boot) _ e0 in
      let (u1, total, e2) =
        >>=-eq-ok (ensure (is_some_of (read_u32 boot 32) 126_976) Types.fat_total) _ e1 in
      let (n, sized, e3) = >>=-eq-ok (ok_or (read_u32 boot 36) Types.fat_size_truncated) _ e2 in
      let (u2, nonzero, e4) = >>=-eq-ok (ensure (ltb 0 n) Types.fat_size_zero) _ e3 in
      let (u3, tail, e5) = >>=-eq-ok (validate_boot_tail boot) _ e4 in
      let (info, read, e6) = >>=-eq-ok (read_fs_info partition boot) _ e5 in
      let same = info_read read in
      let copies = rw (← same) at e6 in
      record {
        boot = (boot_sector_iff boot full).0 head;
        total = ground (arith, total);
        table_sectors = n;
        table_size = ok_or-eq-ok (read_u32 boot 36) Types.fat_size_truncated sized;
        nonzero = ground (arith, nonzero);
        tail = (boot_tail_iff boot full).0 tail;
        has_info = reserved_iff.0 (read ∙ ap ok (sym same));
        has_tables = (copies_iff n (copies_inside n (block partition 1) copies)).0 copies;
      }

  IsFatVolume-accepted : IsFatVolume partition → validate_raw_fat32_layout partition ≡ ok tt
  unfolding validate_raw_fat32_layout
  IsFatVolume-accepted h =
      let full = length-block partition 0 (omega arith) in
      rw (
        sector_inside partition 0 (omega arith) (omega arith),
        (boot_sector_iff (block partition 0) full).1 h.boot,
        counted,
        h.total,
        h.table_size,
        lt→ltb 0 h.table_sectors h.nonzero,
        (boot_tail_iff (block partition 0) full).1 h.tail,
        reserved_iff.1 h.has_info,
        (copies_iff h.table_sectors h.has_tables.data_inside).1 h.has_tables,
      )

  -- Of a partition of 126,976 sectors, `validate_raw_fat32_layout` accepts just those where the boot
  -- sector has the expected fields, with this number of sectors and a table of one sector or more; the
  -- boot sector is copied to sector 6, sector 1 is an FSInfo sector, and the other reserved sectors are
  -- zero; and the two tables are the same, end before the partition does, and are canonical for the
  -- clusters behind them.
  pub raw_fat32_layout_iff : (validate_raw_fat32_layout partition ≡ ok tt) ↔ IsFatVolume partition
  raw_fat32_layout_iff = (accepted-IsFatVolume, IsFatVolume-accepted)
