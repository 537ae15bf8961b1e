-- ===== src/Inspect/Examples.antt =====
-- crates/xtask/src/inspect.rs: the linker map of its tests, with an image whose segments are all read
-- from the start of the file.
use polytope_os.Base.{
  ℕ, ◌≡◌, ◌≢◌, ◌↔◌, refl, arith, List, [], ◌∷◌, ◌++◌, All, length, ok, err, panic,
}
use polytope_os.Base.{take, drop, replicate, slice, list_eq, true, false, ◌-◌}
use polytope_os.Base.Bytes.{from_le, to_le, IsByte}
use polytope_os.Harness.Text.{codes, strip_prefix}
use polytope_os.Elf.Types.{zero_fill_size}
use polytope_os.Elf.Read.{read_u16, read_u32, read_u64, decode_program_header}
use polytope_os.Elf.Read
use polytope_os.Elf.Header.{validate_identification, parse_header}
use polytope_os.Elf.Segment.{is_power_of_two, validate_load_segment, load_segment_from_header}
use polytope_os.Elf.Parse
use polytope_os.Elf.Iterate.{collect}
use polytope_os.Inspect.Types.{
  Text, InspectError, SegmentInspection, SectionInspection, KernelInspection, MapSection,
}
use polytope_os.Inspect.Types
use polytope_os.Base.Utf8.{from_utf8}
use polytope_os.Inspect.Words.{
  lines, split_whitespace, contains, parse_hex, from_str_radix, hex_digits,
  is_kernel_load_end_expression,
}
use polytope_os.Inspect.Map
use polytope_os.Inspect.Map.{
  MapLayout, take_lines, take_fields, take_row, row_section, get, insert_unique, section,
  section_end, require_sections, report, report_sections,
}
use polytope_os.Inspect.Map.Rows.{rows_named}
use polytope_os.Inspect.Map.Unique.{HasRow, parse_sections}
use polytope_os.Inspect.Symbols.{validate_constants_and_symbols, require_values, align_up}
use polytope_os.Inspect.Combined.{
  validate_combined, validate_section_order, validate_segment, validate_data_segment,
  validate_stack_segment, find_sections, check_sections, check_segments, all_miss_guard,
}
use polytope_os.Inspect.Combined.Correct.{validate_combined_iff}
use polytope_os.Inspect.Spec.{IsCombined}
use polytope_os.Inspect.Hex.{IsNumeral}
use polytope_os.Inspect.Hex.Numeral.{parse_hex_iff}
use polytope_os.Inspect.Report.{inspect_segments, contains_nul, make_report, inspect_kernel_bytes}
use polytope_os.Inspect.Report.Facts.{IsReport}
use polytope_os.Inspect.Report.Layout.{inspect_kernel_lem}
use polytope_os.Inspect.Report.NoPanic.{inspect_kernel-ne-panic}

abbrev map_bytes : List ℕ
map_bytes =
    codes "VMA LMA Size Align Out In Symbol\n"
    ++ codes "0 0 0 1 KERNEL_BASE = 0x04000000\n"
    ++ codes "0 0 0 1 KERNEL_LOAD_LIMIT = 0x04800000\n"
    ++ codes "0 0 0 1 KERNEL_STACK_GUARD_BASE = 0x047ff000\n"
    ++ codes "0 0 0 1 KERNEL_STACK_BASE = 0x04800000\n"
    ++ codes "0 0 0 1 KERNEL_STACK_SIZE = 0x00010000\n"
    ++ codes "0 0 0 1 PAGE_SIZE = 0x1000\n"
    ++ codes "4000000 0 0 1 __kernel_start = .\n"
    ++ codes "4000000 4000000 100 16 .text\n"
    ++ codes "4000000 4000000 0 1 __text_start = .\n"
    ++ codes "4000000 4000000 40 1 polytope_kernel_entry\n"
    ++ codes "4000100 4000100 0 1 __text_end = .\n"
    ++ codes "4001000 4001000 80 8 .rodata\n"
    ++ codes "4001000 4001000 0 1 __rodata_start = .\n"
    ++ codes "4001080 4001080 0 1 __rodata_end = .\n"
    ++ codes "4002000 4002000 20 8 .data\n"
    ++ codes "4002000 4002000 0 1 __data_start = .\n"
    ++ codes "4002020 4002020 0 1 __data_end = .\n"
    ++ codes "4003000 4003000 8 8 .bss\n"
    ++ codes "4003000 4003000 0 1 __bss_start = .\n"
    ++ codes "4003008 4003008 0 1 __bss_end = .\n"
    ++ codes "4003008 4003008 0 1 __kernel_load_end = ALIGN ( PAGE_SIZE )\n"
    ++ codes "47ff000 47ff000 1000 1 .stack_guard\n"
    ++ codes "47ff000 47ff000 0 1 __bootstrap_stack_guard_start = .\n"
    ++ codes "4800000 4800000 0 1 __bootstrap_stack_guard_end = .\n"
    ++ codes "4800000 4800000 10000 1 .stack\n"
    ++ codes "4800000 4800000 0 1 __bootstrap_stack_bottom = .\n"
    ++ codes "4810000 4810000 0 1 __bootstrap_stack_top = .\n"
    ++ codes "4810000 4810000 0 1 __kernel_end = ALIGN(PAGE_SIZE)\n"

-- One program header of the tests: `write_program_header`.
abbrev program_header : ℕ → ℕ → ℕ → ℕ → ℕ → List ℕ
program_header flags file_offset address file_size memory_size =
    to_le 4 1
    ++ to_le 4 flags
    ++ to_le 8 file_offset
    ++ to_le 8 address
    ++ to_le 8 address
    ++ to_le 8 file_size
    ++ to_le 8 memory_size
    ++ to_le 8 0x1000

abbrev kernel_bytes : List ℕ
kernel_bytes =
    (0x7f ∷ b'E' ∷ b'L' ∷ b'F' ∷ 2 ∷ 1 ∷ 1 ∷ [])
    ++ replicate 9 0
    ++ to_le 2 2
    ++ to_le 2 62
    ++ to_le 4 1
    ++ to_le 8 0x400_0000
    ++ to_le 8 64
    ++ to_le 8 0
    ++ to_le 4 0
    ++ to_le 2 64
    ++ to_le 2 56
    ++ to_le 2 4
    ++ to_le 6 0
    ++ program_header 5 0 0x400_0000 0x100 0x100
    ++ program_header 4 0 0x400_1000 0x80 0x80
    ++ program_header 6 0 0x400_2000 0x20 0x1008
    ++ program_header 6 0 0x480_0000 0 0x1_0000

-- A digest for the tests.
abbrev no_digest : List ℕ → Text
no_digest bytes = []

abbrev segment : ℕ → ℕ → ℕ → ℕ → ℕ → SegmentInspection
segment index flags address file_size memory_size = record {
  index = index;
  flags = flags;
  file_offset = 0;
  virtual_address = address;
  physical_address = address;
  file_size = file_size;
  memory_size = memory_size;
  zero_fill_size = memory_size - file_size;
  alignment = 4096;
}

abbrev section_row : Text → ℕ → ℕ → SectionInspection
section_row name address size = record { name = name; address = address; size = size }

abbrev kernel_report : KernelInspection
kernel_report = record {
  schema_version = 1;
  kernel_sha256 = [];
  map_sha256 = [];
  kernel_bytes = 288;
  map_bytes = length map_bytes;
  entry_point = 0x400_0000;
  kernel_base = 0x400_0000;
  kernel_load_end = 0x400_4000;
  stack_guard_base = 0x47f_f000;
  stack_guard_bytes = 4096;
  stack_base = 0x480_0000;
  stack_top = 0x481_0000;
  bss_start = 0x400_3000;
  bss_end = 0x400_3008;
  data_zero_fill_bytes = 0xfe8;
  write_xor_execute = true;
  segments =
      segment 0 5 0x400_0000 0x100 0x100
      ∷ segment 1 4 0x400_1000 0x80 0x80
      ∷ segment 2 6 0x400_2000 0x20 0x1008
      ∷ segment 3 6 0x480_0000 0 0x1_0000
      ∷ [];
  sections =
      section_row Types.text 0x400_0000 0x100
      ∷ section_row Types.rodata 0x400_1000 0x80
      ∷ section_row Types.data_name 0x400_2000 0x20
      ∷ section_row Types.bss 0x400_3000 8
      ∷ section_row Types.stack_guard 0x47f_f000 0x1000
      ∷ section_row Types.stack 0x480_0000 0x1_0000
      ∷ [];
}

image-inspect : inspect_kernel_bytes no_digest kernel_bytes map_bytes ≡ ok kernel_report
unfolding inspect_kernel_bytes make_report contains_nul from_utf8 Parse.parse
    validate_identification parse_header decode_program_header validate_load_segment
    load_segment_from_header is_power_of_two Read.align_up read_u16 read_u32 read_u64 slice take
    drop list_eq from_le to_le Map.parse take_lines take_fields take_row row_section lines
    split_whitespace contains parse_hex from_str_radix strip_prefix insert_unique get
    is_kernel_load_end_expression require_sections section section_end report report_sections
    collect inspect_segments validate_combined validate_constants_and_symbols require_values
    validate_section_order find_sections check_sections align_up check_segments validate_segment
    validate_data_segment validate_stack_segment all_miss_guard zero_fill_size replicate hex_digits
image-inspect = refl

kernel_bytes-IsByte : All IsByte kernel_bytes
unfolding to_le replicate
kernel_bytes-IsByte = omega arith

inspect_kernel_lem_example : IsReport kernel_bytes map_bytes kernel_report
inspect_kernel_lem_example =
    inspect_kernel_lem no_digest kernel_bytes map_bytes kernel_bytes-IsByte image-inspect

inspect_kernel-ne-panic_example : inspect_kernel_bytes no_digest kernel_bytes [] ≢ panic
inspect_kernel-ne-panic_example =
    inspect_kernel-ne-panic no_digest kernel_bytes [] kernel_bytes-IsByte

-- A second row for a section, as in the tests.
abbrev duplicate_row : Text
duplicate_row = codes "4000000 4000000 100 16 .text\n" ++ codes "4000000 4000000 100 16 .text\r\n"

duplicate-parse : Map.parse duplicate_row ≡ err (Types.duplicate Types.text)
unfolding Map.parse take_lines take_fields take_row row_section lines split_whitespace contains
    parse_hex from_str_radix strip_prefix insert_unique get is_kernel_load_end_expression list_eq
    hex_digits
duplicate-parse = refl

-- The six rows, the last without an end of line.
abbrev six_rows : Text
six_rows =
    codes "4000000 0 100 16 .text\n"
    ++ codes "4001000 0 80 8 .rodata\n"
    ++ codes "4002000 0 20 8 .data\n"
    ++ codes "4003000 0 8 8 .bss\n"
    ++ codes "47ff000 0 0x1000 1 .stack_guard\n"
    ++ codes "4800000 0 +10000 1 .stack"

abbrev found : Text → ℕ → ℕ → ℕ → Text × MapSection
found name address size line =
    (name, record { name = name; address = address; size = size; line = line })

abbrev six_layout : MapLayout
six_layout = record {
  sections =
      found Types.stack 0x480_0000 0x1_0000 6
      ∷ found Types.stack_guard 0x47f_f000 0x1000 5
      ∷ found Types.bss 0x400_3000 8 4
      ∷ found Types.data_name 0x400_2000 0x20 3
      ∷ found Types.rodata 0x400_1000 0x80 2
      ∷ found Types.text 0x400_0000 0x100 1
      ∷ [];
  constants = [];
  symbols = [];
  saw_load_end_expression = false;
}

six_rows-parse : Map.parse six_rows ≡ ok six_layout
unfolding Map.parse take_lines take_fields take_row row_section lines split_whitespace contains
    parse_hex from_str_radix strip_prefix insert_unique get is_kernel_load_end_expression list_eq
    hex_digits require_sections section
six_rows-parse = refl

parse_sections_example :
    All
      (λ (name : Text). HasRow name (rows_named name 1 (lines six_rows)) six_layout)
      Types.section_names
parse_sections_example = parse_sections six_rows six_rows-parse

validate_combined_iff_example :
    (validate_combined 0x400_0000 kernel_report.segments six_layout ≡ ok tt)
    ↔ IsCombined 0x400_0000 kernel_report.segments six_layout
validate_combined_iff_example = validate_combined_iff 0x400_0000 kernel_report.segments six_layout

parse_hex_iff_example :
    (parse_hex (codes "0x04800000") 3 ≡ ok 0x480_0000) ↔ IsNumeral (codes "0x04800000") 0x480_0000
parse_hex_iff_example = parse_hex_iff (codes "0x04800000") 3 0x480_0000
