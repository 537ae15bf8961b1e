-- ===== src/Inspect/Report/NoPanic.antt =====
-- crates/xtask/src/inspect.rs: `inspect_kernel_bytes` and its panics.
use polytope_os.Base.{ℕ, ◌+◌, ◌≡◌, ◌≢◌, refl, arith, List, [], ◌∷◌, All, length}
use polytope_os.Base.{leb, Bool, true, false, not, Option, none, some}
use polytope_os.Base.{Result, ok, err, panic, ◌>>◌, ◌>>=◌, >>=-ne-panic, ok_or, map_err, map_err_ok}
use polytope_os.Base.Bytes.{IsByte}
use polytope_os.Elf.Types.{ValidatedElf, LoadSegment}
use polytope_os.Elf.Parse
use polytope_os.Elf.Parse.NoPanic.{elf_parse-ne-panic}
use polytope_os.Elf.Iterate.{collect}
use polytope_os.Elf.Iterate.Correct.{collect-parse}
use polytope_os.Inspect.Types.{Text, InspectError, ensure, MapSection, SegmentInspection}
use polytope_os.Inspect.Types
use polytope_os.Base.Utf8.{from_utf8}
use polytope_os.Inspect.Words.{lines, split_whitespace, parse_hex}
use polytope_os.Inspect.Map
use polytope_os.Inspect.Map.{
  MapLayout, row_section, take_row, take_fields, take_lines, require_sections, section,
  insert_unique, section_end,
}
use polytope_os.Inspect.Symbols.{require_values, validate_constants_and_symbols}
use polytope_os.Inspect.Combined.{
  Sections, validate_segment, validate_data_segment, validate_stack_segment, in_order,
  validate_section_order, find_sections, check_sections, check_segments, validate_combined,
}
use polytope_os.Elf.Types.{pf_r}
use polytope_os.Inspect.Combined.{pf_rx, pf_rw}
use polytope_os.Inspect.Combined.Parts.{align_up_page}
use polytope_os.Inspect.Spec.{end_of}
use polytope_os.Inspect.Combined.Correct.{validate_combined_iff}
use polytope_os.Inspect.Report.{inspect_segments, contains_nul, make_report, inspect_kernel_bytes}
use polytope_os.Inspect.Report.Layout.{make_report_lem}

ensure-ne-panic : (test : Bool) (e : InspectError) → ensure test e ≢ panic
ensure-ne-panic true e h = cc
ensure-ne-panic false e h = cc

ok_or-ne-panic {ℓ} : {A : Type ℓ} (o : Option A) (e : InspectError) → ok_or o e ≢ panic
ok_or-ne-panic none e h = cc
ok_or-ne-panic (some a) e h = cc

map_err-ne-panic {ℓ κ} :
    {E : Type ℓ} {A : Type κ} (f : E → InspectError) (r : Result E A)
    → r ≢ panic
    → map_err f r ≢ panic
map_err-ne-panic f (ok a) h = λ e. cc
map_err-ne-panic f (err x) h = λ e. cc
map_err-ne-panic f panic h = λ e. h refl

parse_hex-ne-panic : (value : Text) (line : ℕ) → parse_hex value line ≢ panic
unfolding parse_hex
parse_hex-ne-panic value line h = ground arith

take_row-ne-panic :
    (line : ℕ) (a z name : Text) (more : List Text) (self : MapLayout)
    → take_row line a z name more self ≢ panic
unfolding take_row row_section insert_unique
take_row-ne-panic line a z name more self h = grind (arith, λ (v : Text). parse_hex-ne-panic v line)

take_fields-ne-panic :
    (line : ℕ) (fields : List Text) (self : MapLayout) → take_fields line fields self ≢ panic
unfolding take_fields
take_fields-ne-panic line [] self h = cc
take_fields-ne-panic line (a ∷ []) self h = cc
take_fields-ne-panic line (a ∷ b ∷ []) self h = cc
take_fields-ne-panic line (a ∷ b ∷ c ∷ []) self h = cc
take_fields-ne-panic line (a ∷ b ∷ c ∷ d ∷ []) self h = cc
take_fields-ne-panic line (a ∷ b ∷ c ∷ d ∷ name ∷ more) self h =
    ground (arith, take_row-ne-panic line a c name more self)

take_lines-ne-panic :
    (line : ℕ) (rows : List Text) (self : MapLayout) → take_lines line rows self ≢ panic
unfolding take_lines
take_lines-ne-panic line [] self = λ h. cc
take_lines-ne-panic line (row ∷ rows) self =
    >>=-ne-panic (take_fields line (split_whitespace row) self) _
      (take_fields-ne-panic line (split_whitespace row) self)
      λ self' e. take_lines-ne-panic (line + 1) rows self'

require_sections-ne-panic :
    (names : List Text) (self : MapLayout) → require_sections names self ≢ panic
unfolding require_sections section
require_sections-ne-panic [] self h = cc
require_sections-ne-panic (name ∷ names) self h =
    ground (arith, require_sections-ne-panic names self)

map_parse-ne-panic : (text : Text) → Map.parse text ≢ panic
unfolding Map.parse
map_parse-ne-panic text =
    >>=-ne-panic (take_lines 1 (lines text) _) _ (take_lines-ne-panic 1 (lines text) _) λ layout e.
      >>=-ne-panic (require_sections Types.section_names layout) _
        (require_sections-ne-panic Types.section_names layout) (λ u e' h. cc)

require_values-ne-panic :
    (missing wrong : Text → InspectError) (values expected : List (Text × ℕ))
    → require_values missing wrong values expected ≢ panic
unfolding require_values
require_values-ne-panic missing wrong values [] h = cc
require_values-ne-panic missing wrong values (p ∷ expected) h =
    ground (arith, require_values-ne-panic missing wrong values expected)

symbols-ne-panic : (map : MapLayout) (entry : ℕ) → validate_constants_and_symbols map entry ≢ panic
unfolding validate_constants_and_symbols section section_end
symbols-ne-panic map entry h = grind (
  arith,
  require_values-ne-panic Types.missing_constant Types.wrong_constant,
  require_values-ne-panic Types.missing_symbol Types.wrong_symbol,
)

in_order-ne-panic :
    (previous : Option ℕ) (names : List Text) (map : MapLayout)
    → in_order previous names map ≢ panic
unfolding in_order section
in_order-ne-panic previous [] map h = cc
in_order-ne-panic previous (name ∷ names) map h =
    grind (arith, λ (line : ℕ). in_order-ne-panic (some line) names map)

find_sections-ne-panic : (map : MapLayout) → find_sections map ≢ panic
unfolding find_sections section
find_sections-ne-panic map h = ground arith

check_sections-ne-panic : (s : Sections) → check_sections s ≢ panic
unfolding check_sections section_end
check_sections-ne-panic s h = ground (arith, align_up_page (end_of s.bss))

validate_segment-ne-panic :
    (segment : SegmentInspection) (s : MapSection) (flags : ℕ) (exact : Bool)
    → validate_segment segment s flags exact ≢ panic
unfolding validate_segment
validate_segment-ne-panic segment s flags true h = ground arith
validate_segment-ne-panic segment s flags false h = ground arith

data-ne-panic :
    (segment : SegmentInspection) (s bss : MapSection) → validate_data_segment segment s bss ≢ panic
unfolding validate_data_segment section_end
data-ne-panic segment s bss h = ground (arith, validate_segment-ne-panic segment s pf_rw false)

stack-ne-panic :
    (segment : SegmentInspection) (s : MapSection) → validate_stack_segment segment s ≢ panic
unfolding validate_stack_segment section_end
stack-ne-panic segment s h = ground arith

check_segments-ne-panic :
    (segments : List SegmentInspection) (s : Sections)
    → length segments ≡ 4
    → check_segments segments s ≢ panic
unfolding check_segments
check_segments-ne-panic [] s four h = absurd (omega arith)
check_segments-ne-panic (a ∷ []) s four h = absurd (omega arith)
check_segments-ne-panic (a ∷ b ∷ []) s four h = absurd (omega arith)
check_segments-ne-panic (a ∷ b ∷ c ∷ []) s four h = absurd (omega arith)
check_segments-ne-panic (a ∷ b ∷ c ∷ d ∷ e ∷ more) s four h = absurd (omega arith)
check_segments-ne-panic (a ∷ b ∷ c ∷ d ∷ []) s four h = ground (
  arith,
  validate_segment-ne-panic a s.text pf_rx true,
  validate_segment-ne-panic b s.rodata pf_r true,
  data-ne-panic c s.data_section s.bss,
  stack-ne-panic d s.stack,
)

validate_combined-ne-panic :
    (entry : ℕ) (segments : List SegmentInspection) (map : MapLayout)
    → validate_combined entry segments map ≢ panic
unfolding validate_combined validate_section_order
validate_combined-ne-panic entry segments map h = grind (
  arith,
  symbols-ne-panic map entry,
  in_order-ne-panic none Types.section_names map,
  find_sections-ne-panic map,
  check_sections-ne-panic,
  check_segments-ne-panic segments,
)

module _ (sha256_hex : List ℕ → Text) (kernel map : List ℕ) where
  checked-ne-panic :
      (elf : ValidatedElf) (plan : List LoadSegment) (layout : MapLayout)
      → (validate_combined elf.entry_point (inspect_segments plan) layout
          >> make_report sha256_hex kernel map elf (inspect_segments plan) layout)
        ≢ panic
  checked-ne-panic elf plan layout =
      >>=-ne-panic (validate_combined elf.entry_point (inspect_segments plan) layout) _
        (validate_combined-ne-panic elf.entry_point (inspect_segments plan) layout)
        λ u validated h.
          let c =
            (validate_combined_iff elf.entry_point (inspect_segments plan) layout).0 validated in
          let made = make_report_lem sha256_hex kernel map elf (inspect_segments plan) layout c in
          ground (arith, made.1)

  collected-ne-panic :
      (elf : ValidatedElf) (plan : List LoadSegment) (layout : MapLayout)
      → collect elf ≡ ok plan
      → (map_err (λ _. Types.segment_count) (collect elf) >>= λ plan'.
          validate_combined elf.entry_point (inspect_segments plan') layout
          >> make_report sha256_hex kernel map elf (inspect_segments plan') layout)
        ≢ panic
  collected-ne-panic elf plan layout collected = rw collected (checked-ne-panic elf plan layout)

  -- The inspector does not panic, on any list of bytes as the image and any linker map.
  pub inspect_kernel-ne-panic :
      All IsByte kernel → inspect_kernel_bytes sha256_hex kernel map ≢ panic
  unfolding inspect_kernel_bytes
  inspect_kernel-ne-panic b =
      >>=-ne-panic (ensure (leb (length kernel) _) _) _ (ensure-ne-panic _ _) λ _ small.
        >>=-ne-panic (ensure (leb (length map) _) _) _ (ensure-ne-panic _ _) λ _ short.
          >>=-ne-panic (ensure (not (contains_nul map)) _) _ (ensure-ne-panic _ _) λ _ no_nul.
            >>=-ne-panic (ok_or (from_utf8 map) _) _ (ok_or-ne-panic _ _) λ map_text decoded.
              >>=-ne-panic (map_err Types.kernel_rejected (Parse.parse kernel)) _
                (map_err-ne-panic _ (Parse.parse kernel) (elf_parse-ne-panic kernel b))
                λ elf accepted.
                  >>=-ne-panic (Map.parse map_text) _ (map_parse-ne-panic map_text) λ layout parsed.
                    let (plan, collected, is_plan, count) =
                      collect-parse kernel elf b (map_err_ok _ _ accepted) in
                    collected-ne-panic elf plan layout collected
