-- ===== src/Inspect/Report/Layout.antt =====
-- crates/xtask/src/inspect.rs: what the report of `inspect_kernel_bytes` states of the image.
use polytope_os.Base.{ℕ, ◌≤◌, ◌≡◌, refl, sym, ◌∙◌, arith, List, [], ◌∷◌, All, length}
use polytope_os.Base.{leb, true, not, some}
use polytope_os.Base.{ok, ◌>>◌, ◌>>=◌, >>=-eq-ok, ok_or, map_err, map_err_ok}
use mathlib.Core.Path.{subst}
use polytope_os.Base.Bytes.{IsByte}
use polytope_os.Elf.Types.{LoadSegment, ValidatedElf, max_elf_file_size}
use polytope_os.Elf.Spec.{IsPlan, page_up}
use polytope_os.Elf.Parse
use polytope_os.Elf.Iterate.{collect}
use polytope_os.Elf.Iterate.Correct.{collect-parse}
use polytope_os.Inspect.Types.{
  Text, InspectError, ensure, MapSection, SegmentInspection, KernelInspection,
}
use polytope_os.Inspect.Types
use polytope_os.Base.Utf8.{from_utf8}
use polytope_os.Inspect.Map
use polytope_os.Inspect.Map.{MapLayout, get, section, section_end, report, report_sections}
use polytope_os.Inspect.Combined.{Sections, validate_combined}
use polytope_os.Inspect.Combined.Parts.{align_up_page}
use polytope_os.Inspect.Combined.Correct.{validate_combined_iff}
use polytope_os.Inspect.Spec.{end_of, IsCombined}
use polytope_os.Inspect.Report.{inspect_segments, contains_nul, make_report, inspect_kernel_bytes}
use polytope_os.Inspect.Report.Facts.{
  IsReport, report_found, combined-safe, third_segment, ok_injective,
}

module _ (sha256_hex : List ℕ → Text) (kernel map : List ℕ) where
  -- The report of a kernel whose segments and sections agree.
  abbrev reported :
      ValidatedElf → List SegmentInspection → MapLayout → Sections → ℕ → KernelInspection
  reported elf segments layout s zero_fill = record {
    schema_version = 1;
    kernel_sha256 = sha256_hex kernel;
    map_sha256 = sha256_hex map;
    kernel_bytes = length kernel;
    map_bytes = length map;
    entry_point = elf.entry_point;
    kernel_base = 0x400_0000;
    kernel_load_end = page_up (end_of s.bss);
    stack_guard_base = 0x47f_f000;
    stack_guard_bytes = 4096;
    stack_base = 0x480_0000;
    stack_top = 0x481_0000;
    bss_start = s.bss.address;
    bss_end = end_of s.bss;
    data_zero_fill_bytes = zero_fill;
    write_xor_execute = true;
    segments = segments;
    sections =
        report s.text
        ∷ report s.rodata
        ∷ report s.data_section
        ∷ report s.bss
        ∷ report s.guard
        ∷ report s.stack
        ∷ [];
  }

  pub make_report_lem :
      (elf : ValidatedElf) (segments : List SegmentInspection) (layout : MapLayout)
      (c : IsCombined elf.entry_point segments layout)
      → (zero_fill : ℕ) × (make_report sha256_hex kernel map elf segments layout
          ≡ ok (reported elf segments layout c.sections zero_fill))
        × (c.sections.bss.size ≤ zero_fill)
  unfolding make_report section section_end
  make_report_lem elf segments layout c =
      let (data_segment, indexed, reserved) = third_segment segments c.sections c.are_segments in
      let low = c.laid_out.bss_le_guard in
      (
        data_segment.zero_fill_size,
        rw (report_found layout c.sections c.found)
            (ground (arith, c.found.bss, align_up_page (end_of c.sections.bss), indexed, low)),
        reserved,
      )

  IsReport-reported :
      (elf : ValidatedElf) (plan : List LoadSegment) (map_text : Text) (layout : MapLayout)
      (zero_fill : ℕ) (c : IsCombined elf.entry_point (inspect_segments plan) layout)
      → IsPlan kernel elf.entry_point plan
      → from_utf8 map ≡ some map_text
      → Map.parse map_text ≡ ok layout
      → c.sections.bss.size ≤ zero_fill
      → IsReport kernel map (reported elf (inspect_segments plan) layout c.sections zero_fill)
  IsReport-reported elf plan map_text layout zero_fill c is_plan decoded parsed reserved = record {
    plan = plan;
    entry_point = c.entry_base;
    is_plan = is_plan;
    segments = refl;
    map_text = map_text;
    layout = layout;
    decoded = decoded;
    parsed = parsed;
    combined = c;
    safe = combined-safe elf.entry_point (inspect_segments plan) layout c;
    kernel_bytes = refl;
    map_bytes = refl;
    bss_start = refl;
    bss_end = refl;
    load_end = refl;
    load_le_guard = c.laid_out.bss_le_guard;
    guard_below_stack = refl;
    stack_top = refl;
    zero_fill = reserved;
    sections = refl;
  }

  -- The last two steps, on a collected plan.
  checked-IsReport :
      (elf : ValidatedElf) (plan : List LoadSegment) (map_text : Text) (layout : MapLayout)
      {r : KernelInspection}
      → IsPlan kernel elf.entry_point plan
      → from_utf8 map ≡ some map_text
      → Map.parse map_text ≡ ok layout
      → (validate_combined elf.entry_point (inspect_segments plan) layout
          >> make_report sha256_hex kernel map elf (inspect_segments plan) layout)
        ≡ ok r
      → IsReport kernel map r
  checked-IsReport elf plan map_text layout is_plan decoded parsed e =
      let (u, validated, e') =
        >>=-eq-ok (validate_combined elf.entry_point (inspect_segments plan) layout) _ e in
      let c = (validate_combined_iff elf.entry_point (inspect_segments plan) layout).0 validated in
      let (zero_fill, made, reserved) = make_report_lem elf (inspect_segments plan) layout c in
      subst (IsReport kernel map) (ok_injective (sym made ∙ e'))
        (IsReport-reported elf plan map_text layout zero_fill c is_plan decoded parsed reserved)

  collected_run :
      (elf : ValidatedElf) (plan : List LoadSegment) (layout : MapLayout) {r : KernelInspection}
      → collect elf ≡ ok plan
      → (map_err (λ _. Types.segment_count) (collect elf) >>= λ plan'.
          validate_combined elf.entry_point (inspect_segments plan') layout
          >> make_report sha256_hex kernel map elf (inspect_segments plan') layout)
        ≡ ok r
      → (validate_combined elf.entry_point (inspect_segments plan) layout
          >> make_report sha256_hex kernel map elf (inspect_segments plan) layout)
        ≡ ok r
  collected_run elf plan layout collected e = rw collected at e

  -- Where the inspector accepts an image (a list of bytes) and a linker map, its report is true: the
  -- map decodes and parses to a layout; the reported segments are those of a load plan of the image;
  -- the entry point, the segments and the layout agree as `IsCombined` says; no segment is both
  -- writable and executable, and none has a byte in the guard page; the load end is the page boundary
  -- at or above the end of `.bss`, at most the guard's address, and the guard page ends where the
  -- stack starts; the lengths and the six sections are those of the inputs.
  pub inspect_kernel_lem :
      {r : KernelInspection}
      → All IsByte kernel
      → inspect_kernel_bytes sha256_hex kernel map ≡ ok r
      → IsReport kernel map r
  unfolding inspect_kernel_bytes
  inspect_kernel_lem b e =
      let (u0, small, e1) =
        >>=-eq-ok (ensure (leb (length kernel) max_elf_file_size) Types.kernel_too_large) _ e in
      let (u1, short, e2) =
        >>=-eq-ok (ensure (leb (length map) Types.max_map_file_size) Types.map_too_large) _ e1 in
      let (u2, no_nul, e3) = >>=-eq-ok (ensure (not (contains_nul map)) Types.nul_byte) _ e2 in
      let (map_text, decoded, e4) = >>=-eq-ok (ok_or (from_utf8 map) Types.not_utf8) _ e3 in
      let (elf, accepted, e5) =
        >>=-eq-ok (map_err Types.kernel_rejected (Parse.parse kernel)) _ e4 in
      let (layout, parsed, e6) = >>=-eq-ok (Map.parse map_text) _ e5 in
      let (plan, collected, is_plan, count) =
        collect-parse kernel elf b (map_err_ok _ _ accepted) in
      checked-IsReport elf plan map_text layout is_plan (ground (arith, decoded)) parsed
        (collected_run elf plan layout collected e6)
