-- ===== src/Inspect/Combined/Parts.antt =====
-- crates/xtask/src/inspect.rs: the checks one by one.
use polytope_os.Base.{ℕ, ◌+◌, ◌^◌, ◌≤◌, ◌<◌, ◌≡◌, refl, ◌↔◌, arith, List, [], ◌∷◌}
use polytope_os.Base.{ltb, Bool, true, false, if◌then◌else◌, ok, err}
use polytope_os.Elf.Spec.{page_up}
use polytope_os.Elf.Segment.{is_power_of_two}
use polytope_os.Elf.Segment.Valid.{align_up-page}
use polytope_os.Elf.Read
use polytope_os.Inspect.Types.{Text, InspectError, MapSection, SegmentInspection}
use polytope_os.Inspect.Types
use polytope_os.Inspect.Map.{MapLayout, section, section_end}
use polytope_os.Inspect.Symbols.{require_values, align_up}
use polytope_os.Inspect.Combined.{
  Sections, validate_segment, validate_data_segment, validate_stack_segment, check_sections,
  find_sections, validate_section_order, pf_rw,
}
use polytope_os.Inspect.Spec.{end_of, AreLaidOut, Holds, AreFound, AreOrdered, AllHave}

pub align_up_page :
    (n : ℕ)
    → align_up n 4096
      ≡ (if ltb (n + 4095) (2 ^ 64) then ok (page_up n) else err Types.alignment_overflow)
unfolding align_up is_power_of_two Read.align_up
align_up_page n = ground (arith, align_up-page n)

pub require_values_iff :
    (missing wrong : Text → InspectError) (values expected : List (Text × ℕ))
    → (require_values missing wrong values expected ≡ ok tt) ↔ AllHave values expected
unfolding require_values
require_values_iff missing wrong values [] = (λ _. tt, λ _. refl)
require_values_iff missing wrong values (p ∷ expected) =
    ground (arith, require_values_iff missing wrong values expected)

pub validate_segment_iff :
    (segment : SegmentInspection) (s : MapSection) (flags : ℕ) (exact : Bool)
    → (validate_segment segment s flags exact ≡ ok tt)
      ↔ Holds segment s flags × (exact ≡ true → segment.memory_size ≡ s.size)
unfolding validate_segment
validate_segment_iff segment s flags true = ground arith
validate_segment_iff segment s flags false = ground arith

pub check_sections_iff : (s : Sections) → (check_sections s ≡ ok tt) ↔ AreLaidOut s
unfolding check_sections section_end
check_sections_iff s = ground (arith, align_up_page (end_of s.bss))

pub validate_stack_segment_iff :
    (segment : SegmentInspection) (s : MapSection)
    → s.address ≡ 0x480_0000
    → s.size ≡ 0x1_0000
    → (validate_stack_segment segment s ≡ ok tt)
      ↔ (segment.flags ≡ 6)
        × (segment.physical_address ≡ 0x480_0000)
        × (segment.virtual_address ≡ 0x480_0000)
        × (segment.file_size ≡ 0)
        × (segment.memory_size ≡ 0x1_0000)
        × (segment.zero_fill_size ≡ 0x1_0000)
        × (segment.alignment ≡ 4096)
unfolding validate_stack_segment section_end
validate_stack_segment_iff segment s a z = ground arith

pub validate_data_segment_iff :
    (segment : SegmentInspection) (s bss : MapSection)
    → end_of s ≤ bss.address
    → end_of bss < 2 ^ 64
    → (validate_data_segment segment s bss ≡ ok tt)
      ↔ Holds segment s 6
        × (bss.size ≤ segment.zero_fill_size)
        × (segment.physical_address + segment.memory_size ≡ end_of bss)
unfolding validate_data_segment section_end
validate_data_segment_iff segment s bss h k =
    ground (arith, validate_segment_iff segment s pf_rw false)

pub find_sections_iff :
    (map : MapLayout) (s : Sections) → (find_sections map ≡ ok s) ↔ AreFound map s
unfolding find_sections section
find_sections_iff map s = ground arith

pub validate_section_order_iff :
    (map : MapLayout) (s : Sections)
    → AreFound map s
    → (validate_section_order map ≡ ok tt) ↔ AreOrdered s
unfolding validate_section_order section
validate_section_order_iff map s f = ground arith
