-- ===== src/Image/Sample/Disk.antt =====
-- The sample image as a disk: its GPT layout.
use polytope_os.Base.{
  ℕ, ◌+◌, ◌-◌, ◌≤◌, ◌≡◌, refl, sym, ap, ◌∙◌, arith, List, [], ◌∷◌, ◌++◌, length, take, drop, slice,
  replicate, length-append, length-replicate, All-replicate, append_assoc, take-append-drop,
}
use polytope_os.Base.Bytes.{to_le, from_le}
use polytope_os.Image.Types.{protective_entry}
use polytope_os.Image.Read.{read_u32, read_u64}
use polytope_os.Image.Read.Blocks.{AllZero, blocks, block}
use polytope_os.Image.Gpt.Spec.{IsHeader, IsGptLayout}
use polytope_os.Image.Build.Correct.{esp_of}
use polytope_os.Image.Sample.{
  zeros, record_bytes, header, first_entry, entries, partition, from_header, from_entries, from_gap,
  from_partition, from_zeros, from_table, from_primary, image,
}
use polytope_os.Image.Sample.Pieces.{drop_to, drop_none, skip, here, within}
use polytope_os.Image.Sample.Partition.{length-partition}

abbrev primary : List ℕ
primary = header 1 131_071 2

abbrev backup : List ℕ
backup = header 131_071 1 131_039

primary-IsHeader : IsHeader primary 1 131_071 2
unfolding read_u32 read_u64 slice take drop from_le to_le replicate
primary-IsHeader = record {
  signature = refl;
  revision = refl;
  header_size = refl;
  reserved = refl;
  current_lba = refl;
  backup_lba = refl;
  first_usable = refl;
  last_usable = refl;
  entries_lba = refl;
  entry_count = refl;
  entry_size = refl;
  padding = All-replicate (λ (b : ℕ). b ≡ 0) 420 0 refl;
}

backup-IsHeader : IsHeader backup 131_071 1 131_039
unfolding read_u32 read_u64 slice take drop from_le to_le replicate
backup-IsHeader = record {
  signature = refl;
  revision = refl;
  header_size = refl;
  reserved = refl;
  current_lba = refl;
  backup_lba = refl;
  first_usable = refl;
  last_usable = refl;
  entries_lba = refl;
  entry_count = refl;
  entry_size = refl;
  padding = All-replicate (λ (b : ℕ). b ≡ 0) 420 0 refl;
}

same_identity :
    (take 16 (drop 56 primary) ≡ take 16 (drop 56 backup))
    × (take 4 (drop 88 primary) ≡ take 4 (drop 88 backup))
unfolding take drop to_le replicate
same_identity = (refl, refl)

header_lengths : (length primary ≡ 512) × (length backup ≡ 512) × (length record_bytes ≡ 512)
unfolding to_le replicate
header_lengths = (refl, refl, refl)

length-first_entry : length first_entry ≡ 128
unfolding replicate
length-first_entry = refl

length-entries : length entries ≡ 16_384
length-entries = omega (
  arith,
  length-first_entry,
  length-append first_entry (zeros 16_256 ++ []),
  length-append (zeros 16_256) [],
  length-replicate {A = ℕ} 16_256 0,
)

record_parts :
    (take 446 (drop 0 record_bytes) ≡ zeros 446)
    × (take 16 (drop 446 record_bytes) ≡ protective_entry)
    × (take 48 (drop 462 record_bytes) ≡ zeros 48)
    × (take 2 (drop 510 record_bytes) ≡ 0x55 ∷ 0xaa ∷ [])
unfolding take drop replicate
record_parts = (refl, refl, refl, refl)

in_record : (m n : ℕ) → m + n ≤ 512 → take n (drop m image) ≡ take n (drop m record_bytes)
in_record m n h = within record_bytes from_primary m n (omega (arith, header_lengths.2))

-- The pieces of the image.
module _ (m n : ℕ) where
  to_primary : 512 ≤ m → take n (drop m image) ≡ take n (drop (m - 512) from_primary)
  to_primary h = skip record_bytes from_primary 512 m n header_lengths.2 h

  to_table : 1_024 ≤ m → take n (drop m image) ≡ take n (drop (m - 512 - 512) from_table)
  to_table h =
      to_primary (omega arith)
      ∙ skip primary from_table 512 (m - 512) n header_lengths.0 (omega arith)

  to_zeros : 17_408 ≤ m → take n (drop m image) ≡ take n (drop (m - 512 - 512 - 16_384) from_zeros)
  to_zeros h =
      to_table (omega arith)
      ∙ skip entries from_zeros 16_384 (m - 512 - 512) n length-entries (omega arith)

  to_partition :
      1_048_576 ≤ m
      → take n (drop m image) ≡ take n (drop (m - 512 - 512 - 16_384 - 1_031_168) from_partition)
  to_partition h =
      to_zeros (omega arith)
      ∙ skip (zeros 1_031_168) from_partition 1_031_168 (m - 512 - 512 - 16_384) n
          (length-replicate {A = ℕ} 1_031_168 0) (omega arith)

  to_gap :
      66_060_288 ≤ m
      → take n (drop m image)
        ≡ take n (drop (m - 512 - 512 - 16_384 - 1_031_168 - 65_011_712) from_gap)
  to_gap h =
      to_partition (omega arith)
      ∙ skip partition from_gap 65_011_712 (m - 512 - 512 - 16_384 - 1_031_168) n length-partition
          (omega arith)

  to_entries :
      67_091_968 ≤ m
      → take n (drop m image)
        ≡ take n (drop (m - 512 - 512 - 16_384 - 1_031_168 - 65_011_712 - 1_031_680) from_entries)
  to_entries h =
      to_gap (omega arith)
      ∙ skip (zeros 1_031_680) from_entries 1_031_680
          (m - 512 - 512 - 16_384 - 1_031_168 - 65_011_712) n (length-replicate {A = ℕ} 1_031_680 0)
          (omega arith)

  to_header :
      67_108_352 ≤ m
      → take n (drop m image)
        ≡ take n (
            drop (m - 512 - 512 - 16_384 - 1_031_168 - 65_011_712 - 1_031_680 - 16_384) from_header)
  to_header h =
      to_entries (omega arith)
      ∙ skip entries from_header 16_384
          (m - 512 - 512 - 16_384 - 1_031_168 - 65_011_712 - 1_031_680) n length-entries
          (omega arith)

block_1 : block image 1 ≡ primary
block_1 = to_primary 512 512 (omega arith) ∙ here primary from_table 512 header_lengths.0

blocks_2 : blocks image 2 34 ≡ entries
blocks_2 = to_table 1_024 16_384 (omega arith) ∙ here entries from_zeros 16_384 length-entries

blocks_34 : blocks image 34 2_048 ≡ zeros 1_031_168
blocks_34 =
    to_zeros 17_408 1_031_168 (omega arith)
    ∙ here (zeros 1_031_168) from_partition 1_031_168 (length-replicate {A = ℕ} 1_031_168 0)

pub esp_of-image : esp_of image ≡ partition
esp_of-image =
    to_partition 1_048_576 65_011_712 (omega arith)
    ∙ here partition from_gap 65_011_712 length-partition

blocks_behind : blocks image 129_024 131_039 ≡ zeros 1_031_680
blocks_behind =
    to_gap 66_060_288 1_031_680 (omega arith)
    ∙ here (zeros 1_031_680) from_entries 1_031_680 (length-replicate {A = ℕ} 1_031_680 0)

blocks_mirror : blocks image 131_039 131_071 ≡ entries
blocks_mirror =
    to_entries 67_091_968 16_384 (omega arith) ∙ here entries from_header 16_384 length-entries

block_last : block image 131_071 ≡ backup
block_last = to_header 67_108_352 512 (omega arith) ∙ here backup [] 512 header_lengths.1

entries_used : ¬ AllZero (take 128 entries)
unfolding take
entries_used h = omega (arith, h.0)

entries_unused : take 16_256 (drop 128 entries) ≡ zeros 16_256
entries_unused =
    skip first_entry (zeros 16_256 ++ []) 128 128 16_256 length-first_entry (omega arith)
    ∙ here (zeros 16_256) [] 16_256 (length-replicate {A = ℕ} 16_256 0)

zeros-AllZero : (n : ℕ) → AllZero (zeros n)
zeros-AllZero n = All-replicate (λ (b : ℕ). b ≡ 0) n 0 refl

pub image-IsGptLayout : IsGptLayout image
image-IsGptLayout = record {
  protective = record {
    bootstrap =
        rw (sym (ap (take 446) (drop_none image)) ∙ in_record 0 446 (omega arith) ∙ record_parts.0)
          (zeros-AllZero 446);
    entry = in_record 446 16 (omega arith) ∙ record_parts.1;
    unused = rw (in_record 462 48 (omega arith) ∙ record_parts.2) (zeros-AllZero 48);
    signature = in_record 510 2 (omega arith) ∙ record_parts.3;
  };
  headers = record {
    primary = rw block_1 primary-IsHeader;
    backup = rw block_last backup-IsHeader;
    same_identity = rw (block_1, block_last) same_identity.0;
    same_crc = rw (block_1, block_last) same_identity.1;
  };
  entries = record {
    mirrored = blocks_2 ∙ sym blocks_mirror;
    used = rw blocks_2 entries_used;
    unused = rw (blocks_2, entries_unused) (zeros-AllZero 16_256);
    before = rw blocks_34 (zeros-AllZero 1_031_168);
    after = rw blocks_behind (zeros-AllZero 1_031_680);
  };
}

pub length-image : length image ≡ 67_108_864
length-image = omega (
  arith,
  header_lengths.0,
  header_lengths.1,
  header_lengths.2,
  length-entries,
  length-partition,
  length-append record_bytes from_primary,
  length-append primary from_table,
  length-append entries from_zeros,
  length-append (zeros 1_031_168) from_partition,
  length-append partition from_gap,
  length-append (zeros 1_031_680) from_entries,
  length-append entries from_header,
  length-append backup [],
  length-replicate {A = ℕ} 1_031_168 0,
  length-replicate {A = ℕ} 1_031_680 0,
)

from_partition_on : drop 1_048_576 image ≡ from_partition
from_partition_on =
    drop_to record_bytes from_primary 512 1_048_576 header_lengths.2 (omega arith)
    ∙ drop_to primary from_table 512 1_048_064 header_lengths.0 (omega arith)
    ∙ drop_to entries from_zeros 16_384 1_047_552 length-entries (omega arith)
    ∙ drop_to (zeros 1_031_168) from_partition 1_031_168 1_031_168
        (length-replicate {A = ℕ} 1_031_168 0) (omega arith)
    ∙ drop_none from_partition

from_gap_on : drop 66_060_288 image ≡ from_gap
from_gap_on =
    drop_to record_bytes from_primary 512 66_060_288 header_lengths.2 (omega arith)
    ∙ drop_to primary from_table 512 66_059_776 header_lengths.0 (omega arith)
    ∙ drop_to entries from_zeros 16_384 66_059_264 length-entries (omega arith)
    ∙ drop_to (zeros 1_031_168) from_partition 1_031_168 66_042_880
        (length-replicate {A = ℕ} 1_031_168 0) (omega arith)
    ∙ drop_to partition from_gap 65_011_712 65_011_712 length-partition (omega arith)
    ∙ drop_none from_gap

-- The image with its own system partition written in place.
pub image_joined : image ≡ take 1_048_576 image ++ partition ++ drop 66_060_288 image
image_joined =
    sym (take-append-drop 1_048_576 image)
    ∙ ap (λ rest. take 1_048_576 image ++ rest) from_partition_on
    ∙ sym (append_assoc (take 1_048_576 image) partition from_gap)
    ∙ ap (λ rest. take 1_048_576 image ++ partition ++ rest) (sym from_gap_on)
