-- ===== src/Image/Fat/NoPanic.antt =====
-- crates/xtask/src/image.rs: `validate_raw_fat32_layout` and its panics.
use polytope_os.Base.{
  ℕ, zero, suc, ◌+◌, ◌-◌, ◌*◌, ◌^◌, ◌≤◌, ◌<◌, ◌≡◌, ◌≢◌, arith, List, [], ◌∷◌, All, All-take,
  All-drop, length, length-take, length-drop, take, drop, slice, slice-eq-some, slice_suffix,
}
use polytope_os.Base.{
  inl, inr, Bool, true, false, lt→ltb, ltb, list_eq, Option, none, some, get_elem?, Option-cases,
}
use polytope_os.Base.{ok, panic, >>=-ne-panic, ok_or}
use polytope_os.Base.Bytes.{IsByte, from_le-lt}
use polytope_os.Image.Types.{ImageError, ensure}
use polytope_os.Image.Types
use polytope_os.Image.Read.{read_u32, sector, lba_range, ensure_zero}
use polytope_os.Image.Read.Blocks.{block, sector-eq-ok, length-block}
use polytope_os.Image.Gpt.{is_some_of}
use polytope_os.Image.Fat.{
  validate_boot_sector, validate_boot_tail, validate_fs_info, step_cluster, check_clusters,
  check_table, validate_canonical_fat_entries, validate_raw_fat32_layout, sectors_of, read_fs_info,
  validate_copies,
}

pub ensure-ne-panic : (test : Bool) (e : ImageError) → ensure test e ≢ panic
ensure-ne-panic true e h = cc
ensure-ne-panic false e h = cc

pub ok_or-ne-panic {ℓ} : {A : Type ℓ} (o : Option A) (e : ImageError) → ok_or o e ≢ panic
ok_or-ne-panic none e h = cc
ok_or-ne-panic (some a) e h = cc

pub lba_range-ne-panic : (bytes : List ℕ) (start end : ℕ) → lba_range bytes start end ≢ panic
unfolding lba_range
lba_range-ne-panic bytes start end h = ground arith

pub sector-ne-panic : (bytes : List ℕ) (lba : ℕ) → sector bytes lba ≢ panic
unfolding sector
sector-ne-panic bytes lba h = ground (arith, lba_range-ne-panic bytes lba (lba + 1))

pub elem_inside : (bytes : List ℕ) (i : ℕ) → i < length bytes → get_elem? bytes i ≢ none
elem_inside [] i h = absurd (omega arith)
elem_inside (b ∷ bytes) zero h = λ e. cc
elem_inside (b ∷ bytes) (suc i) h = elem_inside bytes i (omega arith)

boot_sector-ne-panic : (boot : List ℕ) → length boot ≡ 512 → validate_boot_sector boot ≢ panic
unfolding validate_boot_sector
boot_sector-ne-panic boot size h =
    ground (
      arith,
      slice-eq-some boot 3 11,
      elem_inside boot 13,
      elem_inside boot 16,
      elem_inside boot 21,
    )

boot_tail-ne-panic : (boot : List ℕ) → length boot ≡ 512 → validate_boot_tail boot ≢ panic
unfolding validate_boot_tail
boot_tail-ne-panic boot size h = ground (arith, slice_suffix boot 510)

fs_info-ne-panic : (fs_info : List ℕ) → length fs_info ≡ 512 → validate_fs_info fs_info ≢ panic
unfolding validate_fs_info
fs_info-ne-panic fs_info size h = ground (arith, slice-eq-some fs_info 508 512)

step-ne-panic :
    (cluster : ℕ) (fat : List ℕ) (entry_count : ℕ) (first_free : Option ℕ)
    → step_cluster cluster fat entry_count first_free ≢ panic
unfolding step_cluster
step-ne-panic cluster fat entry_count first_free h = ground arith

clusters-ne-panic :
    (rounds cluster : ℕ) (fat : List ℕ) (entry_count : ℕ) (first_free : Option ℕ)
    → check_clusters rounds cluster fat entry_count first_free ≢ panic
unfolding check_clusters
clusters-ne-panic zero cluster fat entry_count first_free = λ h. cc
clusters-ne-panic (suc rounds) cluster fat entry_count first_free =
    >>=-ne-panic (step_cluster cluster fat entry_count first_free) _
      (step-ne-panic cluster fat entry_count first_free)
      λ next e. clusters-ne-panic rounds (cluster + 1) fat entry_count next

table-ne-panic : (n : ℕ) (fat fs_info : List ℕ) → n ≤ 2 ^ 33 → check_table n fat fs_info ≢ panic
unfolding check_table
table-ne-panic n fat fs_info small h =
    ground (arith, clusters-ne-panic (n - 2) 2 fat n none, slice_suffix fat (n * 4))

canonical-ne-panic :
    (fat fs_info : List ℕ) (total_sectors data_lba : ℕ)
    → total_sectors < 2 ^ 32
    → validate_canonical_fat_entries fat total_sectors data_lba fs_info ≢ panic
unfolding validate_canonical_fat_entries
canonical-ne-panic fat fs_info total_sectors data_lba small h =
    ground (arith, table-ne-panic (total_sectors - data_lba + 2) fat fs_info)

-- A number read from four bytes.
pub read_u32-lt :
    (bytes : List ℕ) (offset : ℕ) {value : ℕ}
    → All IsByte bytes
    → read_u32 bytes offset ≡ some value
    → value < 2 ^ 32
unfolding read_u32 slice
read_u32-lt bytes offset b e =
    let raw = take (offset + 4 - offset) (drop offset bytes) in
    let small = from_le-lt raw (
      All-take IsByte (offset + 4 - offset) (drop offset bytes) (All-drop IsByte offset bytes b)) in
    let inside : offset + 4 ≤ length bytes = ground arith in
    let size : length raw ≡ 4 = omega (
      arith,
      length-take (offset + 4 - offset) (drop offset bytes),
      length-drop offset bytes,
      inside,
    ) in
    let bound = rw size at small in ground (arith, bound)

block-IsByte : (bytes : List ℕ) (lba : ℕ) → All IsByte bytes → All IsByte (block bytes lba)
block-IsByte bytes lba b = All-take IsByte _ _ (All-drop IsByte _ bytes b)

length-sector :
    (bytes : List ℕ) (lba : ℕ) {found : List ℕ} → sector bytes lba ≡ ok found → length found ≡ 512
length-sector bytes lba e =
    let (inside, is_block) = sector-eq-ok bytes lba e in rw is_block (length-block bytes lba inside)

fat_sectors-lt :
    (partition boot : List ℕ) {n : ℕ}
    → All IsByte partition
    → sector partition 0 ≡ ok boot
    → ok_or (read_u32 boot 36) Types.fat_size_truncated ≡ ok n
    → n < 2 ^ 32
fat_sectors-lt partition boot b boot_read e =
    let (inside, is_block) = sector-eq-ok partition 0 boot_read in
    let bytes : All IsByte boot = rw is_block (block-IsByte partition 0 b) in
    elim (Option-cases (read_u32 boot 36)) [
      | inl missing ↦ absurd (ground (arith, missing))
      | inr (value, found) ↦ ground (arith, found, read_u32-lt boot 36 bytes found)
    ]

-- The sizes are below 2 ^ 32, so that the sums of block numbers do not overflow.
copies-ne-panic :
    (partition : List ℕ) (fat_sectors expected_sectors : ℕ) (fs_info : List ℕ)
    → fat_sectors < 2 ^ 32
    → expected_sectors < 2 ^ 32
    → validate_copies partition fat_sectors expected_sectors fs_info ≢ panic
unfolding validate_copies
copies-ne-panic partition n total fs_info f x =
    rw (lt→ltb (8 + n) (2 ^ 64) (omega arith), lt→ltb (8 + n + n) (2 ^ 64) (omega arith))
      (>>=-ne-panic (ensure (ltb (8 + n + n) total) _) _ (ensure-ne-panic _ _) λ _ inside.
        >>=-ne-panic (lba_range partition 8 (8 + n)) _ (lba_range-ne-panic _ _ _) λ first found.
          >>=-ne-panic (lba_range partition (8 + n) (8 + n + n)) _ (lba_range-ne-panic _ _ _)
            λ second found'.
              >>=-ne-panic (ensure (list_eq first second) _) _ (ensure-ne-panic _ _)
                λ _ same. canonical-ne-panic first fs_info total (8 + n + n) x)

read_fs_info-ne-panic : (partition boot : List ℕ) → read_fs_info partition boot ≢ panic
unfolding read_fs_info ensure_zero
read_fs_info-ne-panic partition boot =
    >>=-ne-panic (sector partition 6) _ (sector-ne-panic partition 6) λ backup _.
      >>=-ne-panic (ensure (list_eq boot backup) _) _ (ensure-ne-panic _ _) λ _ _.
        >>=-ne-panic (lba_range partition 2 6) _ (lba_range-ne-panic partition 2 6) λ reserved _.
          >>=-ne-panic (ensure_zero reserved _) _ (ensure-ne-panic _ _) λ _ _.
            >>=-ne-panic (sector partition 7) _ (sector-ne-panic partition 7) λ adjacent _.
              >>=-ne-panic (ensure_zero adjacent _) _ (ensure-ne-panic _ _) λ _ _.
                >>=-ne-panic (sector partition 1) _ (sector-ne-panic partition 1) λ fs_info found.
                  >>=-ne-panic (validate_fs_info fs_info) _
                    (fs_info-ne-panic fs_info (length-sector partition 1 found)) (λ _ _ h. cc)

sectors_of-lt : (partition : List ℕ) {n : ℕ} → sectors_of partition ≡ ok n → n < 2 ^ 32
unfolding sectors_of
sectors_of-lt partition e = ground arith

-- For every list of bytes, the validation of a FAT32 partition returns or fails with an error, and does
-- not panic.
pub raw_fat32-ne-panic :
    (partition : List ℕ) → All IsByte partition → validate_raw_fat32_layout partition ≢ panic
unfolding validate_raw_fat32_layout sectors_of
raw_fat32-ne-panic partition b =
    >>=-ne-panic (sector partition 0) _ (sector-ne-panic partition 0) λ boot boot_read.
      let size = length-sector partition 0 boot_read in
      >>=-ne-panic (validate_boot_sector boot) _ (boot_sector-ne-panic boot size) λ _ _.
        >>=-ne-panic (sectors_of partition) _ (ok_or-ne-panic _ _) λ total counted.
          >>=-ne-panic (ensure (is_some_of (read_u32 boot 32) total) _) _ (ensure-ne-panic _ _)
            λ _ _. >>=-ne-panic (ok_or (read_u32 boot 36) _) _ (ok_or-ne-panic _ _) λ n read_size.
              >>=-ne-panic (ensure (ltb 0 n) _) _ (ensure-ne-panic _ _) λ _ _.
                >>=-ne-panic (validate_boot_tail boot) _ (boot_tail-ne-panic boot size) λ _ _.
                  >>=-ne-panic (read_fs_info partition boot) _
                    (read_fs_info-ne-panic partition boot)
                    λ fs_info _.
                      copies-ne-panic partition n total fs_info
                        (fat_sectors-lt partition boot b boot_read read_size)
                        (sectors_of-lt partition counted)
