-- ===== src/Image/Sample.antt =====
-- A boot image of 64 MiB in pieces, as test data: an empty file allocation table, and the files as what
-- the crate fatfs reads.
pub mod Pieces
pub mod Disk
pub mod Partition
mod Examples
use polytope_os.Base.{ℕ, zero, suc, List, [], ◌∷◌, ◌++◌, replicate}
use polytope_os.Base.Bytes.{to_le}
use polytope_os.Harness.Text.{codes}
use polytope_os.Image.Types.{protective_entry, fat_volume_label}

abbrev pub zeros : ℕ → List ℕ
zeros n = replicate n 0

abbrev pub record_bytes : List ℕ
record_bytes = zeros 446 ++ protective_entry ++ zeros 48 ++ 0x55 ∷ 0xaa ∷ []

abbrev pub header : ℕ → ℕ → ℕ → List ℕ
header current backup entries =
    codes "EFI PART"
    ++ to_le 4 0x1_0000
    ++ to_le 4 92
    ++ zeros 8
    ++ to_le 8 current
    ++ to_le 8 backup
    ++ to_le 8 34
    ++ to_le 8 131_038
    ++ zeros 16
    ++ to_le 8 entries
    ++ to_le 4 128
    ++ to_le 4 128
    ++ zeros 424

abbrev pub first_entry : List ℕ
first_entry = 1 ∷ zeros 127

abbrev pub entries : List ℕ
entries = first_entry ++ (zeros 16_256 ++ [])

abbrev pub boot : List ℕ
boot =
    zeros 3
    ++ codes "MSWIN4.1"
    ++ to_le 2 512
    ++ (1 ∷ [])
    ++ to_le 2 8
    ++ (2 ∷ [])
    ++ zeros 4
    ++ (0xf8 ∷ [])
    ++ zeros 10
    ++ to_le 4 126_976
    ++ to_le 4 977
    ++ zeros 4
    ++ to_le 4 2
    ++ to_le 2 1
    ++ to_le 2 6
    ++ zeros 19
    ++ fat_volume_label
    ++ zeros 428
    ++ 0x55 ∷ 0xaa ∷ []

abbrev pub info : List ℕ
info =
    to_le 4 0x4161_5252
    ++ zeros 480
    ++ to_le 4 0x6141_7272
    ++ to_le 4 0xffff_ffff
    ++ to_le 4 2
    ++ zeros 14
    ++ 0x55 ∷ 0xaa ∷ []

-- The reserved entries, 125,014 free ones, and 40 marks.
abbrev pub reserved : List ℕ
reserved = to_le 4 0xfff_fff8 ++ to_le 4 0xfff_ffff

unfoldable pub marks : ℕ → List ℕ
marks zero = []
marks (suc n) = 0xff ∷ 0xff ∷ 0xff ∷ 0x0f ∷ marks n

abbrev pub table : List ℕ
table = reserved ++ (zeros 500_056 ++ (marks 40 ++ []))

-- The system partition from the sectors 0, 1, 2, 6, 7, 8, 985 and 1962 on.
abbrev pub from_data : List ℕ
from_data = zeros 64_007_168 ++ []

abbrev pub from_second : List ℕ
from_second = table ++ from_data

abbrev pub from_first : List ℕ
from_first = table ++ from_second

abbrev pub from_adjacent : List ℕ
from_adjacent = zeros 512 ++ from_first

abbrev pub from_backup : List ℕ
from_backup = boot ++ from_adjacent

abbrev pub from_unused : List ℕ
from_unused = zeros 2_048 ++ from_backup

abbrev pub from_info : List ℕ
from_info = info ++ from_unused

abbrev pub partition : List ℕ
partition = boot ++ from_info

-- The image from the blocks 0, 1, 2, 34, 2048, 129024, 131039 and 131071 on.
abbrev pub from_header : List ℕ
from_header = header 131_071 1 131_039 ++ []

abbrev pub from_entries : List ℕ
from_entries = entries ++ from_header

abbrev pub from_gap : List ℕ
from_gap = zeros 1_031_680 ++ from_entries

abbrev pub from_partition : List ℕ
from_partition = partition ++ from_gap

abbrev pub from_zeros : List ℕ
from_zeros = zeros 1_031_168 ++ from_partition

abbrev pub from_table : List ℕ
from_table = entries ++ from_zeros

abbrev pub from_primary : List ℕ
from_primary = header 1 131_071 2 ++ from_table

abbrev pub image : List ℕ
image = record_bytes ++ from_primary
