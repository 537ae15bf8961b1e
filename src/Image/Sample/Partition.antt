-- ===== src/Image/Sample/Partition.antt =====
-- The system partition of the sample image, and its layout.
use polytope_os.Base.{
  ℕ, zero, suc, ◌+◌, ◌-◌, ◌*◌, ◌^◌, ◌≤◌, ◌<◌, ◌≡◌, refl, ap, ◌∙◌, arith, List, [], ◌++◌, length,
  take, drop, slice, slice-eq-some, replicate, length-append, length-replicate, All-replicate,
  lt→ltb, some,
}
use polytope_os.Base.Bytes.{to_le, from_le}
use polytope_os.Image.Types.{fat_volume_label}
use polytope_os.Image.Read.{read_u16, read_u32}
use polytope_os.Image.Read.Blocks.{blocks, block}
use polytope_os.Image.Fat.Table.{IsCanonical, AreSentinels}
use polytope_os.Image.Fat.Layout.{HasGeometry, HasRoot, IsFsInfo, IsFatVolume}
use polytope_os.Image.Sample.{
  zeros, boot, info, reserved, marks, table, from_data, from_second, from_first, from_adjacent,
  from_backup, from_unused, from_info, partition,
}
use polytope_os.Image.Sample.Pieces.{drop_to, drop_none, skip, here, within}

boot-HasGeometry : HasGeometry boot
unfolding read_u16 slice take drop from_le to_le replicate
boot-HasGeometry = record {
  oem = refl;
  sector_size = refl;
  cluster_size = refl;
  reserved = refl;
  tables = refl;
  root_entries = refl;
  sectors_16 = refl;
  media = refl;
  table_size_16 = refl;
}

boot-HasRoot : HasRoot boot
unfolding read_u16 read_u32 slice take drop from_le to_le replicate
boot-HasRoot = record {
  mirroring = refl;
  version = refl;
  root_cluster = refl;
  info_sector = refl;
  backup_sector = refl;
  signature = refl;
}

boot_sizes : (read_u32 boot 32 ≡ some 126_976) × (read_u32 boot 36 ≡ some 977)
unfolding read_u32 slice take drop from_le to_le replicate
boot_sizes = (refl, refl)

info-IsFsInfo : IsFsInfo info
unfolding read_u32 slice take drop from_le to_le replicate
info-IsFsInfo = record { lead = refl; structure = refl; free_count = refl; trail = refl }

info_hint : read_u32 info 492 ≡ some 2
unfolding read_u32 slice take drop from_le to_le replicate
info_hint = refl

length-boot : length boot ≡ 512
unfolding to_le replicate
length-boot = refl

length-info : length info ≡ 512
unfolding to_le replicate
length-info = refl

length-marks : length (marks 40) ≡ 160
unfolding marks
length-marks = refl

length-reserved : length reserved ≡ 8
unfolding to_le
length-reserved = refl

length-table : length table ≡ 500_224
length-table = omega (
  arith,
  length-append reserved (zeros 500_056 ++ (marks 40 ++ [])),
  length-append (zeros 500_056) (marks 40 ++ []),
  length-append (marks 40) [],
  length-replicate {A = ℕ} 500_056 0,
  length-reserved,
  length-marks,
)

marks-AreSentinels : (n : ℕ) → AreSentinels (marks n ++ [])
unfolding marks
marks-AreSentinels zero = tt
marks-AreSentinels (suc n) = (refl, refl, refl, refl, marks-AreSentinels n)

-- Four of the zeros.
zeros_inside : (j n : ℕ) (rest : List ℕ) → j + 4 ≤ n → take 4 (drop j (zeros n ++ rest)) ≡ zeros 4
unfolding take drop replicate
zeros_inside zero zero rest h = absurd (omega arith)
zeros_inside zero (suc zero) rest h = absurd (omega arith)
zeros_inside zero (suc (suc zero)) rest h = absurd (omega arith)
zeros_inside zero (suc (suc (suc zero))) rest h = absurd (omega arith)
zeros_inside zero (suc (suc (suc (suc n)))) rest h = refl
zeros_inside (suc j) zero rest h = absurd (omega arith)
zeros_inside (suc j) (suc n) rest h = zeros_inside j n rest (omega arith)

read_at :
    (bytes raw : List ℕ) (o : ℕ)
    → o + 4 ≤ length bytes
    → o + 4 < 2 ^ 64
    → take 4 (drop o bytes) ≡ raw
    → read_u32 bytes o ≡ some (from_le raw)
unfolding read_u32
read_at bytes raw o inside small e =
    let width : o + 4 - o ≡ 4 = omega arith in
    rw (lt→ltb (o + 4) (2 ^ 64) small, slice-eq-some bytes o (o + 4) (omega arith) inside, width, e)
      refl

no_bytes : from_le (zeros 4) ≡ 0
unfolding from_le replicate
no_bytes = refl

free_entry : (k : ℕ) → 2 ≤ k → k < 125_016 → read_u32 table (k * 4) ≡ some 0
free_entry k lo hi =
    let size = length-table in
    let zero_bytes =
      skip reserved (zeros 500_056 ++ (marks 40 ++ [])) 8 (k * 4) 4 length-reserved (omega arith)
      ∙ zeros_inside (k * 4 - 8) 500_056 (marks 40 ++ []) (omega arith) in
    read_at table (zeros 4) (k * 4) (omega arith) (omega arith) zero_bytes ∙ ap some no_bytes

reserved_bytes :
    (from_le (take 4 (drop 0 reserved)) ≡ 0xfff_fff8)
    × (from_le (take 4 (drop 4 reserved)) ≡ 0xfff_ffff)
unfolding take drop from_le to_le
reserved_bytes = (refl, refl)

reserved_entry : (o : ℕ) → o + 4 ≤ 8 → read_u32 table o ≡ some (from_le (take 4 (drop o reserved)))
reserved_entry o h =
    let size = length-table in
    let first = length-reserved in
    read_at table (take 4 (drop o reserved)) o (omega arith) (omega arith)
      (within reserved (zeros 500_056 ++ (marks 40 ++ [])) o 4 (omega arith))

table_tail : drop 500_064 table ≡ marks 40 ++ []
table_tail =
    drop_to reserved (zeros 500_056 ++ (marks 40 ++ [])) 8 500_064 length-reserved (omega arith)
    ∙ drop_to (zeros 500_056) (marks 40 ++ []) 500_056 500_056 (length-replicate {A = ℕ} 500_056 0)
        (omega arith)
    ∙ drop_none (marks 40 ++ [])

table-IsCanonical : IsCanonical 125_016 table info
table-IsCanonical = record {
  fits = omega (arith, length-table);
  reserved = record {
    media = 0xfff_fff8;
    media_entry = reserved_entry 0 (omega arith) ∙ ap some reserved_bytes.0;
    media_byte = omega arith;
    mark = 0xfff_ffff;
    mark_entry = reserved_entry 4 (omega arith) ∙ ap some reserved_bytes.1;
    mark_value = omega arith;
  };
  first_free = 2;
  splits = record {
    from_le = omega arith;
    lt_to = omega arith;
    allocated = λ k lo hi. absurd (omega arith);
    free = λ k lo hi. record { raw = 0; present = free_entry k lo hi; low_bits = omega arith };
  };
  in_range = omega arith;
  hint = info_hint;
  sentinels = rw table_tail (marks-AreSentinels 40);
}

-- The pieces of the partition.
module _ (m n : ℕ) where
  to_info : 512 ≤ m → take n (drop m partition) ≡ take n (drop (m - 512) from_info)
  to_info h = skip boot from_info 512 m n length-boot h

  to_unused : 1_024 ≤ m → take n (drop m partition) ≡ take n (drop (m - 512 - 512) from_unused)
  to_unused h =
      to_info (omega arith) ∙ skip info from_unused 512 (m - 512) n length-info (omega arith)

  to_backup :
      3_072 ≤ m → take n (drop m partition) ≡ take n (drop (m - 512 - 512 - 2_048) from_backup)
  to_backup h =
      to_unused (omega arith)
      ∙ skip (zeros 2_048) from_backup 2_048 (m - 512 - 512) n (length-replicate {A = ℕ} 2_048 0)
          (omega arith)

  to_adjacent :
      3_584 ≤ m
      → take n (drop m partition) ≡ take n (drop (m - 512 - 512 - 2_048 - 512) from_adjacent)
  to_adjacent h =
      to_backup (omega arith)
      ∙ skip boot from_adjacent 512 (m - 512 - 512 - 2_048) n length-boot (omega arith)

  to_first :
      4_096 ≤ m
      → take n (drop m partition) ≡ take n (drop (m - 512 - 512 - 2_048 - 512 - 512) from_first)
  to_first h =
      to_adjacent (omega arith)
      ∙ skip (zeros 512) from_first 512 (m - 512 - 512 - 2_048 - 512) n
          (length-replicate {A = ℕ} 512 0) (omega arith)

  to_second :
      504_320 ≤ m
      → take n (drop m partition)
        ≡ take n (drop (m - 512 - 512 - 2_048 - 512 - 512 - 500_224) from_second)
  to_second h =
      to_first (omega arith)
      ∙ skip table from_second 500_224 (m - 512 - 512 - 2_048 - 512 - 512) n length-table
          (omega arith)

sector_0 : block partition 0 ≡ boot
sector_0 = here boot from_info 512 length-boot

sector_1 : block partition 1 ≡ info
sector_1 = to_info 512 512 (omega arith) ∙ here info from_unused 512 length-info

sectors_2 : blocks partition 2 6 ≡ zeros 2_048
sectors_2 =
    to_unused 1_024 2_048 (omega arith)
    ∙ here (zeros 2_048) from_backup 2_048 (length-replicate {A = ℕ} 2_048 0)

sector_6 : block partition 6 ≡ boot
sector_6 = to_backup 3_072 512 (omega arith) ∙ here boot from_adjacent 512 length-boot

sector_7 : block partition 7 ≡ zeros 512
sector_7 =
    to_adjacent 3_584 512 (omega arith)
    ∙ here (zeros 512) from_first 512 (length-replicate {A = ℕ} 512 0)

first_table : blocks partition 8 985 ≡ table
first_table = to_first 4_096 500_224 (omega arith) ∙ here table from_second 500_224 length-table

second_table : blocks partition 985 1_962 ≡ table
second_table = to_second 504_320 500_224 (omega arith) ∙ here table from_data 500_224 length-table

pub partition-IsFatVolume : IsFatVolume partition
partition-IsFatVolume = record {
  boot = rw sector_0 boot-HasGeometry;
  total = rw sector_0 boot_sizes.0;
  table_sectors = 977;
  table_size = rw sector_0 boot_sizes.1;
  nonzero = omega arith;
  tail = rw sector_0 boot-HasRoot;
  has_info = record {
    backup = rw (sector_0, sector_6) refl;
    unused = rw sectors_2 (All-replicate (λ (b : ℕ). b ≡ 0) 2_048 0 refl);
    adjacent = rw sector_7 (All-replicate (λ (b : ℕ). b ≡ 0) 512 0 refl);
    info = rw sector_1 info-IsFsInfo;
  };
  has_tables = record {
    data_inside = omega arith;
    same = rw (first_table, second_table) refl;
    canonical = rw (first_table, sector_1) table-IsCanonical;
  };
}

pub length-partition : length partition ≡ 65_011_712
length-partition = omega (
  arith,
  length-boot,
  length-info,
  length-table,
  length-append boot from_info,
  length-append info from_unused,
  length-append (zeros 2_048) from_backup,
  length-append boot from_adjacent,
  length-append (zeros 512) from_first,
  length-append table from_second,
  length-append table from_data,
  length-append (zeros 64_007_168) [],
  length-replicate {A = ℕ} 2_048 0,
  length-replicate {A = ℕ} 512 0,
  length-replicate {A = ℕ} 64_007_168 0,
)

boot_label : take 11 (drop 71 boot) ≡ fat_volume_label
unfolding take drop replicate to_le
boot_label = refl

pub partition_label : slice partition 71 82 ≡ some fat_volume_label
partition_label =
    slice-eq-some partition 71 82 (omega arith) (omega (arith, length-partition))
    ∙ ap some (within boot from_info 71 11 (omega (arith, length-boot)) ∙ boot_label)
