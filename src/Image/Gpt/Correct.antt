-- ===== src/Image/Gpt/Correct.antt =====
-- crates/xtask/src/image.rs: `validate_raw_gpt_layout` as a whole.
use polytope_os.Base.{ℕ, ◌≤◌, ◌≡◌, ◌↔◌, arith, List, [], ◌∷◌, length, take, drop}
use polytope_os.Base.{slice-eq-some, slice_prefix, slice_suffix, list_eq_iff, ok}
use polytope_os.Harness.Text.{codes}
use polytope_os.Image.Types.{ImageError}
use polytope_os.Image.Types
use polytope_os.Image.Read.Blocks.{
  blocks, block, ensure_zero_iff, all_zero_iff, sector_inside, lba_range_inside, length-block,
  length-blocks,
}
use polytope_os.Image.Gpt.{
  validate_raw_gpt_header, validate_protective_mbr, validate_headers, validate_entries,
  validate_raw_gpt_layout,
}
use polytope_os.Image.Gpt.Spec.{IsHeader, IsProtective, AreHeaders, AreEntries, IsGptLayout}

validate_raw_gpt_header_iff :
    (header : List ℕ) (current backup entries : ℕ)
    → length header ≡ 512
    → (validate_raw_gpt_header header current backup entries ≡ ok tt)
      ↔ IsHeader header current backup entries
unfolding validate_raw_gpt_header
validate_raw_gpt_header_iff header current backup entries e =
    rw (slice_prefix header 8 (omega arith), slice_suffix header 92 (omega arith))
      (ground (
        arith,
        list_eq_iff (take 8 header) (codes "EFI PART"),
        ensure_zero_iff (drop 92 header) Types.header_padding,
      ))

mbr_iff :
    (image : List ℕ)
    → 512 ≤ length image
    → (validate_protective_mbr image ≡ ok tt) ↔ IsProtective image
unfolding validate_protective_mbr
mbr_iff image h =
    rw
      (
        slice_prefix image 446 (omega arith),
        slice-eq-some image 446 462 (omega arith) (omega arith),
        slice-eq-some image 462 510 (omega arith) (omega arith),
        slice-eq-some image 510 512 (omega arith) (omega arith),
      )
      (ground (
        arith,
        ensure_zero_iff (take 446 image) Types.bootstrap_area,
        list_eq_iff (take 16 (drop 446 image)) Types.protective_entry,
        ensure_zero_iff (take 48 (drop 462 image)) Types.unused_mbr_entries,
        list_eq_iff (take 2 (drop 510 image)) (0x55 ∷ 0xaa ∷ []),
      ))

-- The two headers, as blocks of 512 bytes.
headers_iff :
    (image : List ℕ)
    → length image ≡ 67_108_864
    → (validate_headers image ≡ ok tt) ↔ AreHeaders image
unfolding validate_headers
headers_iff image size =
    let one = length-block image 1 (omega arith) in
    let last = length-block image 131_071 (omega arith) in
    rw
      (
        sector_inside image 1 (omega arith) (omega arith),
        sector_inside image 131_071 (omega arith) (omega arith),
        slice-eq-some (block image 1) 56 72 (omega arith) (omega arith),
        slice-eq-some (block image 131_071) 56 72 (omega arith) (omega arith),
        slice-eq-some (block image 1) 88 92 (omega arith) (omega arith),
        slice-eq-some (block image 131_071) 88 92 (omega arith) (omega arith),
      )
      (ground (
        arith,
        validate_raw_gpt_header_iff (block image 1) 1 131_071 2 one,
        validate_raw_gpt_header_iff (block image 131_071) 131_071 1 131_039 last,
        list_eq_iff (take 16 (drop 56 (block image 1))) (take 16 (drop 56 (block image 131_071))),
        list_eq_iff (take 4 (drop 88 (block image 1))) (take 4 (drop 88 (block image 131_071))),
      ))

entries_iff :
    (image : List ℕ)
    → length image ≡ 67_108_864
    → (validate_entries image ≡ ok tt) ↔ AreEntries image
unfolding validate_entries
entries_iff image size =
    let array = length-blocks image 2 34 (omega arith) (omega arith) in
    rw
      (
        lba_range_inside image 2 34 (omega arith) (omega arith) (omega arith),
        lba_range_inside image 131_039 131_071 (omega arith) (omega arith) (omega arith),
        slice_prefix (blocks image 2 34) 128 (omega arith),
        slice-eq-some (blocks image 2 34) 128 16_384 (omega arith) (omega arith),
        lba_range_inside image 34 2_048 (omega arith) (omega arith) (omega arith),
        lba_range_inside image 129_024 131_039 (omega arith) (omega arith) (omega arith),
      )
      (ground (
        arith,
        list_eq_iff (blocks image 2 34) (blocks image 131_039 131_071),
        all_zero_iff (take 128 (blocks image 2 34)),
        ensure_zero_iff (take 16_256 (drop 128 (blocks image 2 34))) Types.unused_gpt_entries,
        ensure_zero_iff (blocks image 34 2_048) Types.pre_esp,
        ensure_zero_iff (blocks image 129_024 131_039) Types.post_esp,
      ))

-- Of an image of 64 MiB, `validate_raw_gpt_layout` accepts just those where the first block is a
-- protective master boot record of one entry, with all else of it zero; the primary and the backup
-- header have the expected fields, name each other, and agree on the identity and the checksum; the
-- two entry arrays are the same, with the first entry in use and the others zero; and the blocks
-- between the arrays and the system partition are zero.
pub raw_gpt_layout_iff :
    (image : List ℕ)
    → length image ≡ 67_108_864
    → (validate_raw_gpt_layout image ≡ ok tt) ↔ IsGptLayout image
unfolding validate_raw_gpt_layout
raw_gpt_layout_iff image size =
    ground (arith, mbr_iff image (omega arith), headers_iff image size, entries_iff image size)
