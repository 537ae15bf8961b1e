-- ===== src/Inspect/Combined.antt =====
-- crates/xtask/src/inspect.rs: the checks of the load segments against the sections of the map.
pub mod Parts
pub mod Correct
use polytope_os.Base.{ℕ, ◌+◌, ◌%◌, ltb, leb, ◌==◌, List, [], ◌∷◌, length, get_elem?}
use polytope_os.Base.{Bool, true, false, ◌&&◌, ◌||◌, Option, none, some}
use polytope_os.Base.{Result, ok, err, panic, ◌>>=◌, ◌>>◌, or_panic, match_option}
use polytope_os.Elf.Types.{pf_r}
use polytope_os.Elf.Read.{checked_add}
use polytope_os.Inspect.Types.{Text, InspectError, ensure, MapSection, SegmentInspection}
use polytope_os.Inspect.Types
use polytope_os.Inspect.Map.{MapLayout, section, section_end}
use polytope_os.Inspect.Symbols.{validate_constants_and_symbols, align_up}

abbrev pub pf_rx : ℕ
pf_rx = 5

abbrev pub pf_rw : ℕ
pf_rw = 6

unfoldable pub validate_segment :
    SegmentInspection → MapSection → ℕ → Bool → Result InspectError (Unit {0})
validate_segment segment section flags exact_memory_size = do
  ensure (segment.flags == flags) (Types.segment_flags section.name)
  ensure (segment.physical_address == section.address) (Types.segment_address section.name)
  ensure (segment.virtual_address == segment.physical_address) (Types.not_identity section.name)
  ensure (segment.file_size == section.size) (Types.initialized_size section.name)
  elim exact_memory_size [
    | true ↦ ensure (segment.memory_size == section.size) (Types.unexpected_zero_fill section.name)
    | false ↦ ok tt
  ]
  ensure (segment.alignment == 4_096) (Types.not_page_aligned section.name)

-- `segment.physical_address.checked_add(size) == Some(end)`
abbrev pub ends_at : SegmentInspection → ℕ → ℕ → Bool
ends_at segment size end =
    match_option false (λ sum. sum == end) (checked_add segment.physical_address size)

unfoldable pub validate_data_segment :
    SegmentInspection → MapSection → MapSection → Result InspectError (Unit {0})
validate_data_segment segment data_section bss = do
  validate_segment segment data_section pf_rw false
  ensure (leb bss.size segment.zero_fill_size) Types.bss_reservation
  bss_end ← section_end bss
  ensure (ends_at segment segment.memory_size bss_end) Types.data_memory_end
  data_end ← section_end data_section
  ensure (ends_at segment segment.file_size data_end) Types.data_file_end

unfoldable pub validate_stack_segment :
    SegmentInspection → MapSection → Result InspectError (Unit {0})
validate_stack_segment segment stack = do
  ensure (segment.flags == pf_rw) Types.stack_flags
  ensure
      (segment.physical_address == Types.stack_base_address
        && segment.virtual_address == Types.stack_base_address)
      Types.stack_address
  ensure (segment.file_size == 0) Types.stack_file_bytes
  ensure
      (segment.memory_size == Types.stack_size_bytes
        && segment.zero_fill_size == Types.stack_size_bytes)
      Types.stack_reservation
  ensure (segment.alignment == 4_096) Types.stack_alignment
  end ← section_end stack
  ensure (end == Types.stack_base_address + Types.stack_size_bytes) Types.stack_end

-- The loop of `validate_section_order`.
unfoldable pub in_order : Option ℕ → List Text → MapLayout → Result InspectError (Unit {0})
in_order previous_line [] map = ok tt
in_order previous_line (name ∷ names) map = do
  found ← section map name
  ensure (match_option true (λ previous. ltb previous found.line) previous_line)
      (Types.out_of_order name)
  in_order (some found.line) names map

unfoldable pub validate_section_order : MapLayout → Result InspectError (Unit {0})
unfolding in_order
validate_section_order = in_order none Types.section_names

-- The six sections that `validate_combined` looks up.
pub record Sections : Type 0 where
  pub text : MapSection
  pub rodata : MapSection
  pub data_section : MapSection
  pub bss : MapSection
  pub guard : MapSection
  pub stack : MapSection

unfoldable pub find_sections : MapLayout → Result InspectError Sections
find_sections map = do
  text ← section map Types.text
  rodata ← section map Types.rodata
  data_section ← section map Types.data_name
  bss ← section map Types.bss
  guard ← section map Types.stack_guard
  stack ← section map Types.stack
  ok (record {
    text = text;
    rodata = rodata;
    data_section = data_section;
    bss = bss;
    guard = guard;
    stack = stack;
  })

-- The checks on the sections alone.
unfoldable pub check_sections : Sections → Result InspectError (Unit {0})
check_sections self = do
  ensure (self.text.address == Types.kernel_base_address && ltb 0 self.text.size) Types.text_base
  ensure (self.rodata.address % 4_096 == 0 && ltb 0 self.rodata.size) Types.rodata_misaligned
  ensure (self.data_section.address % 4_096 == 0 && ltb 0 self.data_section.size)
      Types.data_misaligned
  ensure (self.bss.address % 4_096 == 0 && ltb 0 self.bss.size) Types.bss_misaligned
  text_end ← section_end self.text
  ensure (leb text_end self.rodata.address) Types.text_overlaps
  rodata_end ← section_end self.rodata
  ensure (leb rodata_end self.data_section.address) Types.rodata_overlaps
  data_end ← section_end self.data_section
  ensure (leb data_end self.bss.address) Types.data_overlaps
  ensure (self.guard.address == Types.stack_guard_address && self.guard.size == 4_096)
      Types.guard_page
  ensure
      (self.stack.address == Types.stack_base_address && self.stack.size == Types.stack_size_bytes)
      Types.stack_range
  bss_end ← section_end self.bss
  load_end ← align_up bss_end 4_096
  ensure (leb load_end Types.stack_guard_address) Types.load_overlaps

-- The closure over the segments: one that leaves the guard page alone.
pub misses_guard : SegmentInspection → Bool
misses_guard segment =
    match_option false
      (λ end.
        leb end Types.stack_guard_address || leb Types.stack_base_address segment.physical_address)
      (checked_add segment.physical_address segment.memory_size)

unfoldable pub all_miss_guard : List SegmentInspection → Bool
unfolding misses_guard
all_miss_guard [] = true
all_miss_guard (segment ∷ segments) = misses_guard segment && all_miss_guard segments

-- The checks on the segments, which are indexed.
unfoldable pub check_segments : List SegmentInspection → Sections → Result InspectError (Unit {0})
check_segments segments self = do
  s0 ← or_panic (get_elem? segments 0)
  validate_segment s0 self.text pf_rx true
  s1 ← or_panic (get_elem? segments 1)
  validate_segment s1 self.rodata pf_r true
  s2 ← or_panic (get_elem? segments 2)
  validate_data_segment s2 self.data_section self.bss
  s3 ← or_panic (get_elem? segments 3)
  validate_stack_segment s3 self.stack
  ensure (all_miss_guard segments) Types.guard_mapped

unfoldable pub validate_combined :
    ℕ → List SegmentInspection → MapLayout → Result InspectError (Unit {0})
validate_combined entry_point segments map = do
  ensure (length segments == Types.expected_segments) Types.segment_count
  ensure (entry_point == Types.kernel_base_address) Types.entry_point
  validate_constants_and_symbols map entry_point
  validate_section_order map
  sections ← find_sections map
  check_sections sections
  check_segments segments sections
