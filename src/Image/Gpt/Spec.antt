-- ===== src/Image/Gpt/Spec.antt =====
-- What a raw GPT layout is, by the bytes of an image.
use polytope_os.Base.{ℕ, ◌≡◌, List, [], ◌∷◌, take, drop, some}
use polytope_os.Harness.Text.{codes}
use polytope_os.Image.Types
use polytope_os.Image.Read.{read_u32, read_u64}
use polytope_os.Image.Read.Blocks.{AllZero, blocks, block}

-- A header at the block `current`, with its copy at `backup` and the entries at `entries`.
pub record IsHeader (header : List ℕ) (current backup entries : ℕ) : Type 0 where
  pub signature : take 8 header ≡ codes "EFI PART"
  pub revision : read_u32 header 8 ≡ some 0x1_0000
  pub header_size : read_u32 header 12 ≡ some 92
  pub reserved : read_u32 header 20 ≡ some 0
  pub current_lba : read_u64 header 24 ≡ some current
  pub backup_lba : read_u64 header 32 ≡ some backup
  pub first_usable : read_u64 header 40 ≡ some 34
  pub last_usable : read_u64 header 48 ≡ some 131_038
  pub entries_lba : read_u64 header 72 ≡ some entries
  pub entry_count : read_u32 header 80 ≡ some 128
  pub entry_size : read_u32 header 84 ≡ some 128
  pub padding : AllZero (drop 92 header)

-- The first block is a protective master boot record of one entry.
pub record IsProtective (image : List ℕ) : Type 0 where
  pub bootstrap : AllZero (take 446 image)
  pub entry : take 16 (drop 446 image) ≡ Types.protective_entry
  pub unused : AllZero (take 48 (drop 462 image))
  pub signature : take 2 (drop 510 image) ≡ 0x55 ∷ 0xaa ∷ []

-- Both headers name each other, and hold the same disk identity and checksum.
pub record AreHeaders (image : List ℕ) : Type 0 where
  pub primary : IsHeader (block image 1) 1 131_071 2
  pub backup : IsHeader (block image 131_071) 131_071 1 131_039
  pub same_identity : take 16 (drop 56 (block image 1)) ≡ take 16 (drop 56 (block image 131_071))
  pub same_crc : take 4 (drop 88 (block image 1)) ≡ take 4 (drop 88 (block image 131_071))

-- The two entry arrays are the same, only the first entry is used, and the blocks between the arrays
-- and the partition are empty.
pub record AreEntries (image : List ℕ) : Type 0 where
  pub mirrored : blocks image 2 34 ≡ blocks image 131_039 131_071
  pub used : ¬ AllZero (take 128 (blocks image 2 34))
  pub unused : AllZero (take 16_256 (drop 128 (blocks image 2 34)))
  pub before : AllZero (blocks image 34 2_048)
  pub after : AllZero (blocks image 129_024 131_039)

pub record IsGptLayout (image : List ℕ) : Type 0 where
  pub protective : IsProtective image
  pub headers : AreHeaders image
  pub entries : AreEntries image
