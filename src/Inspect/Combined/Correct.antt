-- ===== src/Inspect/Combined/Correct.antt =====
-- crates/xtask/src/inspect.rs: `validate_combined` as a whole.
use polytope_os.Base.{ℕ, ◌≡◌, refl, ◌↔◌, arith, List, [], ◌∷◌, length}
use polytope_os.Base.{◌==◌, true, ok, >>=-eq-ok}
use polytope_os.Inspect.Types.{Text, InspectError, ensure, MapSection, SegmentInspection}
use polytope_os.Inspect.Types
use polytope_os.Inspect.Map.{MapLayout, section, section_end}
use polytope_os.Inspect.Symbols.{validate_constants_and_symbols, expected_constants}
use polytope_os.Inspect.Combined.{
  Sections, check_segments, check_sections, find_sections, validate_section_order,
  validate_combined, pf_rx, all_miss_guard,
}
use polytope_os.Inspect.Combined.Parts.{
  require_values_iff, validate_segment_iff, check_sections_iff, validate_stack_segment_iff,
  validate_data_segment_iff, find_sections_iff, validate_section_order_iff,
}
use polytope_os.Inspect.Spec.{
  AreLaidOut, AreSegments, AreFound, AllHave, IsCombined, constant_values, symbol_values,
}

-- Of a list of four segments.
check_segments_iff :
    (segments : List SegmentInspection) (s : Sections)
    → length segments ≡ 4
    → AreLaidOut s
    → (check_segments segments s ≡ ok tt) ↔ AreSegments segments s
unfolding check_segments all_miss_guard
check_segments_iff [] s h l = absurd (omega arith)
check_segments_iff (a ∷ []) s h l = absurd (omega arith)
check_segments_iff (a ∷ b ∷ []) s h l = absurd (omega arith)
check_segments_iff (a ∷ b ∷ c ∷ []) s h l = absurd (omega arith)
check_segments_iff (a ∷ b ∷ c ∷ d ∷ e ∷ segments) s h l = absurd (omega arith)
check_segments_iff (a ∷ b ∷ c ∷ d ∷ []) s h l = ground (
  arith,
  validate_segment_iff a s.text pf_rx true,
  validate_segment_iff b s.rodata 4 true,
  validate_data_segment_iff c s.data_section s.bss,
  validate_stack_segment_iff d s.stack,
)

-- The constants, the symbols and the expression of the map.
symbols_iff :
    (map : MapLayout) (s : Sections) (entry : ℕ)
    → AreFound map s
    → AreLaidOut s
    → (validate_constants_and_symbols map entry ≡ ok tt)
      ↔ AllHave map.constants constant_values
        × AllHave map.symbols (symbol_values s entry)
        × (map.saw_load_end_expression ≡ true)
unfolding validate_constants_and_symbols expected_constants section section_end
symbols_iff map s entry f l = ground (
  arith,
  f,
  require_values_iff Types.missing_constant Types.wrong_constant map.constants constant_values,
  require_values_iff Types.missing_symbol Types.wrong_symbol map.symbols (symbol_values s entry),
)

accepted-IsCombined :
    (entry : ℕ) (segments : List SegmentInspection) (map : MapLayout)
    → validate_combined entry segments map ≡ ok tt
    → IsCombined entry segments map
unfolding validate_combined
accepted-IsCombined entry segments map e =
    let (u0, counted, e1) = >>=-eq-ok (ensure (length segments == 4) Types.segment_count) _ e in
    let (u1, based, e2) = >>=-eq-ok (ensure (entry == 0x400_0000) Types.entry_point) _ e1 in
    let (u2, named, e3) = >>=-eq-ok (validate_constants_and_symbols map entry) _ e2 in
    let (u3, ordered, e4) = >>=-eq-ok (validate_section_order map) _ e3 in
    let (s, found, e5) = >>=-eq-ok (find_sections map) _ e4 in
    let (u4, checked, e6) = >>=-eq-ok (check_sections s) _ e5 in
    let are_found = (find_sections_iff map s).0 found in
    let laid_out = (check_sections_iff s).0 checked in
    let symbols = (symbols_iff map s entry are_found laid_out).0 named in
    record {
      sections = s;
      found = are_found;
      ordered = (validate_section_order_iff map s are_found).0 ordered;
      laid_out = laid_out;
      are_segments = (check_segments_iff segments s (ground arith) laid_out).0 e6;
      entry_base = ground arith;
      constants = symbols.0;
      symbols = symbols.1;
      load_end = symbols.2;
    }

length-AreSegments :
    (segments : List SegmentInspection) (s : Sections)
    → AreSegments segments s
    → length segments ≡ 4
length-AreSegments [] s h = elim h [ ]
length-AreSegments (a ∷ []) s h = elim h [ ]
length-AreSegments (a ∷ b ∷ []) s h = elim h [ ]
length-AreSegments (a ∷ b ∷ c ∷ []) s h = elim h [ ]
length-AreSegments (a ∷ b ∷ c ∷ d ∷ []) s h = refl
length-AreSegments (a ∷ b ∷ c ∷ d ∷ e ∷ segments) s h = elim h [ ]

IsCombined-accepted :
    (entry : ℕ) (segments : List SegmentInspection) (map : MapLayout)
    → IsCombined entry segments map
    → validate_combined entry segments map ≡ ok tt
unfolding validate_combined
IsCombined-accepted entry segments map h =
    let four = length-AreSegments segments h.sections h.are_segments in
    rw
      (
        four,
        h.entry_base,
        (symbols_iff map h.sections 0x400_0000 h.found h.laid_out).1
            (h.constants, rw h.entry_base at h.symbols, h.load_end),
        (validate_section_order_iff map h.sections h.found).1 h.ordered,
        (find_sections_iff map h.sections).1 h.found,
        (check_sections_iff h.sections).1 h.laid_out,
      )
      ((check_segments_iff segments h.sections four h.laid_out).1 h.are_segments)

-- `validate_combined` accepts an entry point, load segments and a parsed linker map just where: the
-- entry point is the kernel's base; the map has the six sections, on lines in this order; `.text`
-- starts at the base, `.rodata`, `.data` and `.bss` follow it without overlap, each at a page and not
-- empty, and the pages of `.bss` end below the guard page; the guard page and the stack lie at their
-- addresses; the segments are four, with the permissions, addresses and sizes of `.text`, `.rodata`,
-- `.data` with `.bss`, and the stack; and the constants, the symbols and the load-end expression of the
-- map have the expected values.
pub validate_combined_iff :
    (entry : ℕ) (segments : List SegmentInspection) (map : MapLayout)
    → (validate_combined entry segments map ≡ ok tt) ↔ IsCombined entry segments map
validate_combined_iff entry segments map =
    (accepted-IsCombined entry segments map, IsCombined-accepted entry segments map)
