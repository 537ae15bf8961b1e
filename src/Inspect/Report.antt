-- ===== src/Inspect/Report.antt =====
-- crates/xtask/src/inspect.rs: `inspect_kernel_bytes`. The digest of crates/xtask/src/lib.rs is a
pub mod Facts
-- parameter.
pub mod Layout
pub mod NoPanic
use polytope_os.Base.{
  ℕ, ◌+◌, leb, ◌==◌, List, [], ◌∷◌, length, get_elem?, Bool, true, false, ◌||◌, not,
}
use polytope_os.Base.{Option}
use polytope_os.Base.{Result, ok, err, panic, ◌>>=◌, ◌>>◌, ok_or, or_panic, map_err}
use polytope_os.Elf.Types.{LoadSegment, ValidatedElf, zero_fill_size, page_size, max_elf_file_size}
use polytope_os.Elf.Parse
use polytope_os.Elf.Iterate.{collect}
use polytope_os.Inspect.Types.{Text, InspectError, ensure, SegmentInspection, KernelInspection}
use polytope_os.Inspect.Types
use polytope_os.Harness.Text.{codes}
use polytope_os.Base.Utf8.{from_utf8}
use polytope_os.Inspect.Map
use polytope_os.Inspect.Map.{MapLayout, section, section_end, report_sections}
use polytope_os.Inspect.Symbols.{align_up}
use polytope_os.Inspect.Combined.{validate_combined}

unfoldable pub inspect_segment : LoadSegment → SegmentInspection
unfolding zero_fill_size
inspect_segment segment = record {
  index = segment.index;
  flags = segment.flags;
  file_offset = segment.file_offset;
  virtual_address = segment.virtual_address;
  physical_address = segment.physical_address;
  file_size = segment.file_size;
  memory_size = segment.memory_size;
  zero_fill_size = zero_fill_size segment;
  alignment = segment.alignment;
}

unfoldable pub inspect_segments : List LoadSegment → List SegmentInspection
unfolding inspect_segment
inspect_segments [] = []
inspect_segments (segment ∷ segments) = inspect_segment segment ∷ inspect_segments segments

-- `map.contains(&0)`
unfoldable pub contains_nul : List ℕ → Bool
contains_nul [] = false
contains_nul (b ∷ bytes) = b == 0 || contains_nul bytes

module _ (sha256_hex : List ℕ → Text) where
  -- What follows the checks: the report.
  unfoldable pub make_report :
      List ℕ
      → List ℕ
      → ValidatedElf
      → List SegmentInspection
      → MapLayout
      → Result InspectError KernelInspection
  make_report kernel map elf segments map_layout = do
    bss ← section map_layout Types.bss
    load_bytes ← section_end bss
    kernel_load_end ← align_up load_bytes page_size
    bss_end ← section_end bss
    s2 ← or_panic (get_elem? segments 2)
    ok (record {
      schema_version = 1;
      kernel_sha256 = sha256_hex kernel;
      map_sha256 = sha256_hex map;
      kernel_bytes = length kernel;
      map_bytes = length map;
      entry_point = elf.entry_point;
      kernel_base = Types.kernel_base_address;
      kernel_load_end = kernel_load_end;
      stack_guard_base = Types.stack_guard_address;
      stack_guard_bytes = page_size;
      stack_base = Types.stack_base_address;
      stack_top = Types.stack_base_address + Types.stack_size_bytes;
      bss_start = bss.address;
      bss_end = bss_end;
      data_zero_fill_bytes = s2.zero_fill_size;
      write_xor_execute = true;
      segments = segments;
      sections = report_sections map_layout;
    })

  -- Collecting the segments cannot fail: `err` does not come of an iterator.
  unfoldable pub inspect_kernel_bytes : List ℕ → List ℕ → Result InspectError KernelInspection
  inspect_kernel_bytes kernel map = do
    ensure (leb (length kernel) max_elf_file_size) Types.kernel_too_large
    ensure (leb (length map) Types.max_map_file_size) Types.map_too_large
    ensure (not (contains_nul map)) Types.nul_byte
    map_text ← ok_or (from_utf8 map) Types.not_utf8
    elf ← map_err Types.kernel_rejected (Parse.parse kernel)
    map_layout ← Map.parse map_text
    plan ← map_err (λ _. Types.segment_count) (collect elf)
    validate_combined elf.entry_point (inspect_segments plan) map_layout
    make_report kernel map elf (inspect_segments plan) map_layout

-- What the file system says of a path: whether it is a regular file and its length, and its bytes.
pub record Artifact : Type 0 where
  pub metadata : Option (Bool × ℕ)
  pub contents : Option (List ℕ)

unfoldable pub read_bounded : Artifact → ℕ → Text → Result InspectError (List ℕ)
read_bounded path maximum description = do
  metadata ← ok_or path.metadata (Types.no_metadata description)
  ensure metadata.0 (Types.not_regular description)
  ensure (leb metadata.1 maximum) (Types.too_large description)
  ok_or path.contents (Types.read_failed description)

unfoldable pub inspect_kernel :
    (List ℕ → Text) → Artifact → Artifact → Result InspectError KernelInspection
inspect_kernel sha256_hex kernel_path map_path = do
  kernel ← read_bounded kernel_path max_elf_file_size (codes "kernel ELF")
  map ← read_bounded map_path Types.max_map_file_size (codes "kernel linker map")
  inspect_kernel_bytes sha256_hex kernel map
