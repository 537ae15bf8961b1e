-- ===== src/Image/Examples.antt =====
-- crates/xtask/src/image.rs: small inputs for the checks of an image, and the theorems at them.
use polytope_os.Base.{zero, suc, length, ◌<◌, ◌+◌, ◌≤◌}
use polytope_os.Base.{
  ℕ, ◌+◌, ◌-◌, ◌≤◌, ◌≡◌, ◌≢◌, ◌↔◌, refl, arith, List, [], ◌∷◌, ◌++◌, All, All-replicate, take, drop,
  replicate, slice, list_eq, ◌==◌, if◌then◌else◌, Bool, true, false, Option, none, some,
}
use polytope_os.Base.{Result, ok, err}
use polytope_os.Base.Bytes.{to_le, from_le, IsByte}
use polytope_os.Base.Utf8.{from_utf8}
use polytope_os.Harness.Text.{codes}
use polytope_os.Inspect.Words.{lines}
use polytope_os.Loader.Scenario as LoaderScenario
use polytope_os.Image.Types.{ImageError}
use polytope_os.Image.Types
use polytope_os.Image.Read.{read_u16, read_u32}
use polytope_os.Image.Fat.{
  check_table, check_clusters, step_cluster, are_reserved, are_sentinels,
  validate_canonical_fat_entries, validate_raw_fat32_layout,
}
use polytope_os.Image.Fat.Table.{IsCanonical, fat_entries_iff}
use polytope_os.Image.Fat.NoPanic.{raw_fat32-ne-panic}
use polytope_os.Image.Scenario.{BootScenario, parse_scenario}
use polytope_os.Image.Scenario
use polytope_os.Image.Scenario.Tokens.{scenario_file, loader_scenario, scenario_file_iff}
use polytope_os.Image.Payload.{validate_uefi_loader}
use polytope_os.Image.Payload.Correct.{IsUefiLoader, efi_application_iff}
use polytope_os.Image.Files.{read_fat_file, take_chunk}
use polytope_os.Base.Chunks.{read_loop, read_round}
use polytope_os.Image.Files.Ends.{read_fat_file_ends}
use polytope_os.Image.Files.Whole.{read_fat_file_whole}
use polytope_os.Base.Chunks.Ends.{IsWhole}
use polytope_os.Image.Directory.{
  DirEntry, current_date, current_date_time, validate_directory, observe_entries, observe_entry,
  ensure_fixed_timestamp, is_dot, bool_eq, date_time_eq, date_eq,
}
use polytope_os.Image.Build.Tree.{IsTree, validate_tree_iff}
use polytope_os.Image.Build.{Volume, validate_tree}

-- A table of four entries, with one allocated and one free cluster, and the mark behind them.
abbrev table : List ℕ
table =
    to_le 4 0xfff_fff8
    ++ to_le 4 0xfff_ffff
    ++ to_le 4 0xfff_ffff
    ++ to_le 4 0
    ++ to_le 4 0xfff_ffff

-- An FSInfo sector that names the cluster 3.
abbrev info : List ℕ
info = replicate 492 0 ++ to_le 4 3

table_canonical : validate_canonical_fat_entries table 12 10 info ≡ ok tt
unfolding validate_canonical_fat_entries check_table check_clusters step_cluster are_reserved
    are_sentinels read_u32 slice take drop list_eq from_le to_le replicate
table_canonical = refl

-- A table where a free cluster comes before an allocated one.
table_not_prefix :
    validate_canonical_fat_entries
      (take 8 table ++ to_le 4 0 ++ to_le 4 0xfff_ffff ++ to_le 4 0xfff_ffff)
      12
      10
      info
    ≡ err Types.fat_not_prefix
unfolding validate_canonical_fat_entries check_table check_clusters step_cluster are_reserved
    are_sentinels read_u32 slice take drop list_eq from_le to_le replicate
table_not_prefix = refl

fat_entries_iff_example :
    (validate_canonical_fat_entries table 12 10 info ≡ ok tt)
    ↔ (10 ≤ 12) × IsCanonical (12 - 10 + 2) table info
fat_entries_iff_example = fat_entries_iff table info 12 10 (omega arith)

abbrev small_partition : List ℕ
small_partition = replicate 512 0

raw_fat32-ne-panic_example : validate_raw_fat32_layout small_partition ≢ Result.panic
raw_fat32-ne-panic_example =
    raw_fat32-ne-panic small_partition (All-replicate IsByte 512 0 (omega arith))

-- A carriage return is not trimmed.
scenario_return : parse_scenario (codes "panic\r\n") ≡ err Types.unknown_scenario
unfolding parse_scenario Scenario.from_str Scenario.ends_with_newline Scenario.trim_newlines lines
    from_utf8 list_eq
scenario_return = refl

scenario_file_iff_example :
    ((parse_scenario (codes "truncated\n") ≡ ok Scenario.truncated)
      ↔ (codes "truncated\n" ≡ scenario_file Scenario.truncated))
    × ((parse_scenario (codes "truncated\n") ≡ ok Scenario.truncated)
        ↔ (LoaderScenario.parse (codes "truncated\n") ≡ ok (loader_scenario Scenario.truncated)))
scenario_file_iff_example = scenario_file_iff (codes "truncated\n") Scenario.truncated

-- A PE32+ header at the offset 64.
abbrev pub loader_bytes : List ℕ
loader_bytes =
    codes "MZ"
    ++ replicate 58 0
    ++ to_le 4 64
    ++ codes "PE"
    ++ to_le 2 0
    ++ to_le 2 0x8664
    ++ replicate 18 0
    ++ to_le 2 0x20b
    ++ replicate 66 0
    ++ to_le 2 10

pub loader_accepted : validate_uefi_loader loader_bytes ≡ ok tt
unfolding validate_uefi_loader read_u16 read_u32 slice take drop list_eq from_le to_le replicate
loader_accepted = refl

loader_bytes-IsByte : All IsByte loader_bytes
unfolding to_le replicate
loader_bytes-IsByte = omega arith

efi_application_iff_example :
    (validate_uefi_loader loader_bytes ≢ Result.panic)
    × ((validate_uefi_loader loader_bytes ≡ ok tt) ↔ IsUefiLoader loader_bytes)
efi_application_iff_example = efi_application_iff loader_bytes loader_bytes-IsByte

-- A file of two chunks.
abbrev two_chunks : ℕ → Option (List ℕ)
two_chunks i = if i == 0 then some (codes "ab") else if i == 1 then some (codes "c") else some []

abbrev pub enough_memory : ℕ → ℕ → Bool
enough_memory size more = true

two_chunks_read : read_fat_file enough_memory 3 two_chunks ≡ some (ok (codes "abc"))
unfolding read_fat_file read_loop read_round take_chunk
two_chunks_read = refl

two_chunks_too_long : read_fat_file enough_memory 2 two_chunks ≡ some (err Types.file_too_large)
unfolding read_fat_file read_loop read_round take_chunk
two_chunks_too_long = refl

read_fat_file_ends_example :
    (result : Result ImageError (List ℕ)) × (read_fat_file enough_memory 3 two_chunks ≡ some result)
    × ((out : List ℕ) → result ≡ ok out → IsWhole two_chunks 3 0 [] out)
read_fat_file_ends_example = read_fat_file_ends enough_memory 3 two_chunks

two_chunks_short : (at : ℕ) (chunk : List ℕ) → two_chunks at ≡ some chunk → length chunk ≤ 8_192
two_chunks_short at chunk e = ground arith

two_chunks_go_on :
    (i : ℕ) → i < 2 → (b : ℕ) × (chunk : List ℕ) × (two_chunks (0 + i) ≡ some (b ∷ chunk))
two_chunks_go_on zero l = (97, codes "b", refl)
two_chunks_go_on (suc zero) l = (99, [], refl)
two_chunks_go_on (suc (suc i)) l = absurd (omega arith)

two_chunks-IsWhole : IsWhole two_chunks 3 0 [] (codes "abc")
two_chunks-IsWhole = record {
  count = 2;
  all_bytes = refl;
  not_before = two_chunks_go_on;
  end_of_file = refl;
  bounded = omega arith;
}

read_fat_file_whole_example : read_fat_file enough_memory 3 two_chunks ≡ some (ok (codes "abc"))
read_fat_file_whole_example =
    read_fat_file_whole enough_memory 3 two_chunks (λ size more. refl) two_chunks_short
      (omega arith) (codes "abc") two_chunks-IsWhole

abbrev entry : List ℕ → Bool → DirEntry
entry name is_dir = record {
  file_name = name;
  is_dir = is_dir;
  created = current_date_time;
  modified = current_date_time;
  accessed = current_date;
}

boot_directory :
    validate_directory
      (some (entry (codes ".") true)
        ∷ some (entry (codes "..") true)
        ∷ some (entry (codes "BOOT") true)
        ∷ [])
      ((codes "BOOT", true) ∷ [])
    ≡ ok tt
unfolding validate_directory observe_entries observe_entry ensure_fixed_timestamp is_dot bool_eq
    list_eq
boot_directory = refl

-- A volume with the four directories, and a second with a file in the place of a directory.
abbrev pub directories : Bool → List ℕ → Option (List (Option DirEntry))
directories is_dir path =
    if list_eq path []
    then some (some (entry (codes "EFI") true) ∷ some (entry (codes "POLYTOPE") true) ∷ [])
    else if list_eq path (codes "EFI")
    then some (
        some (entry (codes ".") true)
        ∷ some (entry (codes "..") true)
        ∷ some (entry (codes "BOOT") is_dir)
        ∷ [])
    else if list_eq path (codes "EFI/BOOT")
    then some (some (entry (codes "BOOTX64.EFI") false) ∷ [])
    else if list_eq path (codes "POLYTOPE")
    then some (some (entry (codes "KERNEL.ELF") false) ∷ some (entry (codes "BOOT.CFG") false) ∷ [])
    else none

abbrev pub volume : Bool → Volume
volume is_dir = record {
  is_fat32 = true;
  volume_id = 0x5054_4f53;
  volume_label = Types.fat_volume_label_visible;
  directory = directories is_dir;
  file = λ path. none;
}

pub volume_accepted : validate_tree (volume true) ≡ ok tt
unfolding validate_tree validate_directory observe_entries observe_entry ensure_fixed_timestamp
    date_time_eq date_eq is_dot bool_eq list_eq
volume_accepted = refl

volume_refused : validate_tree (volume false) ≡ err Types.directory_entry
unfolding validate_tree validate_directory observe_entries observe_entry ensure_fixed_timestamp
    date_time_eq date_eq is_dot bool_eq list_eq
volume_refused = refl

validate_tree_iff_example : (validate_tree (volume true) ≡ ok tt) ↔ IsTree (volume true)
validate_tree_iff_example = validate_tree_iff (volume true)
