-- ===== src/Inspect/Types.antt =====
-- crates/xtask/src/inspect.rs and crates/boot-elf/src/lib.rs: the constants, the report and the errors
-- of the kernel inspector. A text is the list of its characters' code points. `InspectError` has the
-- messages of `anyhow`, without the values that they print beside a name.
use polytope_os.Base.{ℕ, List, [], ◌∷◌, Bool, true, false}
use polytope_os.Base.{Result, ok, err}
use polytope_os.Harness.Text.{codes}
use polytope_os.Elf.Error.{ParseError}

abbrev pub kernel_base_address : ℕ
kernel_base_address = 0x400_0000

abbrev pub kernel_load_limit : ℕ
kernel_load_limit = 0x480_0000

abbrev pub stack_guard_address : ℕ
stack_guard_address = 0x47f_f000

abbrev pub stack_base_address : ℕ
stack_base_address = 0x480_0000

abbrev pub stack_size_bytes : ℕ
stack_size_bytes = 0x1_0000

abbrev pub max_map_file_size : ℕ
max_map_file_size = 4_194_304

abbrev pub expected_segments : ℕ
expected_segments = 4

abbrev pub Text : Type 0
Text = List ℕ

pub data InspectError : Type 0 where
  kernel_too_large map_too_large nul_byte not_utf8 : InspectError
  kernel_rejected : ParseError → InspectError
  segment_count entry_point : InspectError
  dynamic_section missing_section missing_constant wrong_constant : Text → InspectError
  missing_symbol wrong_symbol out_of_order end_overflow duplicate : Text → InspectError
  missing_value : ℕ → Text → InspectError
  empty_hex invalid_hex : ℕ → InspectError
  missing_load_end alignment_not_power alignment_overflow : InspectError
  text_base rodata_misaligned data_misaligned bss_misaligned : InspectError
  text_overlaps rodata_overlaps data_overlaps guard_page stack_range load_overlaps : InspectError
  segment_flags segment_address not_identity initialized_size : Text → InspectError
  unexpected_zero_fill not_page_aligned : Text → InspectError
  bss_reservation data_memory_end data_file_end : InspectError
  stack_flags stack_address stack_file_bytes stack_reservation stack_alignment : InspectError
  stack_end guard_mapped : InspectError
  no_metadata not_regular too_large read_failed : Text → InspectError

-- `ensure!`
abbrev pub ensure : Bool → InspectError → Result InspectError (Unit {0})
ensure true e = ok tt
ensure false e = err e

pub record SegmentInspection : Type 0 where
  pub index : ℕ
  pub flags : ℕ
  pub file_offset : ℕ
  pub virtual_address : ℕ
  pub physical_address : ℕ
  pub file_size : ℕ
  pub memory_size : ℕ
  pub zero_fill_size : ℕ
  pub alignment : ℕ

pub record SectionInspection : Type 0 where
  pub name : Text
  pub address : ℕ
  pub size : ℕ

pub record KernelInspection : Type 0 where
  pub schema_version : ℕ
  pub kernel_sha256 : Text
  pub map_sha256 : Text
  pub kernel_bytes : ℕ
  pub map_bytes : ℕ
  pub entry_point : ℕ
  pub kernel_base : ℕ
  pub kernel_load_end : ℕ
  pub stack_guard_base : ℕ
  pub stack_guard_bytes : ℕ
  pub stack_base : ℕ
  pub stack_top : ℕ
  pub bss_start : ℕ
  pub bss_end : ℕ
  pub data_zero_fill_bytes : ℕ
  pub write_xor_execute : Bool
  pub segments : List SegmentInspection
  pub sections : List SectionInspection

pub record MapSection : Type 0 where
  pub name : Text
  pub address : ℕ
  pub size : ℕ
  pub line : ℕ

abbrev pub text : Text
text = codes ".text"

abbrev pub rodata : Text
rodata = codes ".rodata"

abbrev pub data_name : Text
data_name = codes ".data"

abbrev pub bss : Text
bss = codes ".bss"

abbrev pub stack_guard : Text
stack_guard = codes ".stack_guard"

abbrev pub stack : Text
stack = codes ".stack"

abbrev pub section_names : List Text
section_names = text ∷ rodata ∷ data_name ∷ bss ∷ stack_guard ∷ stack ∷ []
