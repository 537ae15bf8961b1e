-- ===== src/Image/Build/Validated.antt =====
-- crates/xtask/src/image.rs: `validate_image_bytes` as a whole.
use polytope_os.Base.{ℕ, ◌≡◌, ◌↔◌, arith, List, length, slice, list_eq, list_eq_iff}
use polytope_os.Base.{true, ◌==◌, some, ok, >>=-eq-ok, ok_or}
use polytope_os.Image.Types.{ImageError, ensure}
use polytope_os.Image.Types
use polytope_os.Image.Payload.Correct.{slice_test_iff}
use polytope_os.Image.Build.{Partition, GptDisk, Volume, Crates, partition_at, validate_gpt, mount}

module _ (crates : Crates) where
  -- The partition table has one partition, the system partition at its place.
  pub record HasEsp (image disk_guid esp_guid : List ℕ) : Type 0 where
    pub gpt_disk : GptDisk
    pub opened : crates.open_gpt image ≡ some gpt_disk
    pub same_disk : gpt_disk.guid ≡ disk_guid
    pub one_partition : length gpt_disk.partitions ≡ 1
    pub partition : Partition
    pub first : partition_at 1 gpt_disk.partitions ≡ some partition
    pub is_esp : partition.part_type_guid ≡ crates.efi_type
    pub same_esp : partition.part_guid ≡ esp_guid
    pub first_lba : partition.first_lba ≡ 2_048
    pub last_lba : partition.last_lba ≡ 129_023

  pub gpt-HasEsp :
      (image disk_guid esp_guid : List ℕ)
      → validate_gpt crates image disk_guid esp_guid ≡ ok tt
      → HasEsp image disk_guid esp_guid
  unfolding validate_gpt
  gpt-HasEsp image disk_guid esp_guid e =
      let (gpt_disk, opened, e1) =
        >>=-eq-ok (ok_or (crates.open_gpt image) Types.gpt_invalid) _ e in
      let (u0, same_disk, e2) =
        >>=-eq-ok (ensure (list_eq gpt_disk.guid disk_guid) Types.disk_guid) _ e1 in
      let (u1, one, e3) =
        >>=-eq-ok (ensure (length gpt_disk.partitions == 1) Types.gpt_count) _ e2 in
      let (p, first, e4) =
        >>=-eq-ok (ok_or (partition_at 1 gpt_disk.partitions) Types.gpt_missing) _ e3 in
      record {
        gpt_disk = gpt_disk;
        opened = ground (arith, opened);
        same_disk = ground (arith, same_disk, list_eq_iff gpt_disk.guid disk_guid);
        one_partition = ground (arith, one);
        partition = p;
        first = ground (arith, first);
        is_esp = ground (arith, e4, list_eq_iff p.part_type_guid crates.efi_type);
        same_esp = ground (arith, e4, list_eq_iff p.part_guid esp_guid);
        first_lba = ground (arith, e4);
        last_lba = ground (arith, e4);
      }

  pub HasEsp-gpt :
      (image disk_guid esp_guid : List ℕ)
      → HasEsp image disk_guid esp_guid
      → validate_gpt crates image disk_guid esp_guid ≡ ok tt
  unfolding validate_gpt
  HasEsp-gpt image disk_guid esp_guid h = ground (
    arith,
    h.opened,
    h.first,
    list_eq_iff h.gpt_disk.guid disk_guid,
    list_eq_iff h.partition.part_type_guid crates.efi_type,
    list_eq_iff h.partition.part_guid esp_guid,
  )

  -- The file system that the partition is mounted as.
  pub record IsMounted (partition : List ℕ) (volume : Volume) : Type 0 where
    pub raw_label : slice partition 71 82 ≡ some Types.fat_volume_label
    pub opened : crates.open_fat partition ≡ some volume
    pub is_fat32 : volume.is_fat32 ≡ true
    pub volume_id : volume.volume_id ≡ 0x5054_4f53
    pub volume_label : volume.volume_label ≡ Types.fat_volume_label_visible

  pub mount_iff :
      (partition : List ℕ) (volume : Volume)
      → (mount crates partition ≡ ok volume) ↔ IsMounted partition volume
  unfolding mount
  mount_iff partition volume = ground (
    arith,
    slice_test_iff (slice partition 71 82) Types.fat_volume_label,
    list_eq_iff volume.volume_label Types.fat_volume_label_visible,
  )
