-- ===== src/Inspect/Report/Facts.antt =====
-- crates/xtask/src/inspect.rs: what a report states, and its parts.
use polytope_os.Base.{ℕ, ◌+◌, ◌≤◌, ◌≡◌, refl, ◌⊎◌, arith, List, [], ◌∷◌, All, length, get_elem?}
use polytope_os.Base.{some}
use polytope_os.Base.{Result, ok}
use polytope_os.Elf.Types.{LoadSegment}
use polytope_os.Elf.Spec.{IsPlan, page_up}
use polytope_os.Inspect.Types.{Text, InspectError, SegmentInspection, KernelInspection}
use polytope_os.Base.Utf8.{from_utf8}
use polytope_os.Inspect.Map
use polytope_os.Inspect.Map.{MapLayout, get, section, section_end, report, report_sections}
use polytope_os.Inspect.Combined.{Sections}
use polytope_os.Inspect.Spec.{end_of, AreSegments, AreFound, IsCombined}
use polytope_os.Inspect.Report.{inspect_segments}

-- A segment that is not both writable and executable and has no byte in the guard page.
abbrev pub IsSafeSegment : SegmentInspection → Type 0
IsSafeSegment s =
    ((s.flags ≡ 4) ⊎ (s.flags ≡ 5) ⊎ (s.flags ≡ 6))
    × ((s.physical_address + s.memory_size ≤ 0x47f_f000) ⊎ (0x480_0000 ≤ s.physical_address))

-- The report of the image `kernel` and of the linker map `map`.
pub record IsReport (kernel map : List ℕ) (r : KernelInspection) : Type 0 where
  pub plan : List LoadSegment
  pub entry_point : r.entry_point ≡ 0x400_0000
  pub is_plan : IsPlan kernel r.entry_point plan
  pub segments : r.segments ≡ inspect_segments plan
  pub map_text : Text
  pub layout : MapLayout
  pub decoded : from_utf8 map ≡ some map_text
  pub parsed : Map.parse map_text ≡ ok layout
  pub combined : IsCombined r.entry_point (inspect_segments plan) layout
  pub safe : All IsSafeSegment (inspect_segments plan)
  pub kernel_bytes : r.kernel_bytes ≡ length kernel
  pub map_bytes : r.map_bytes ≡ length map
  pub bss_start : r.bss_start ≡ combined.sections.bss.address
  pub bss_end : r.bss_end ≡ end_of combined.sections.bss
  pub load_end : r.kernel_load_end ≡ page_up r.bss_end
  pub load_le_guard : r.kernel_load_end ≤ r.stack_guard_base
  pub guard_below_stack : r.stack_guard_base + r.stack_guard_bytes ≡ r.stack_base
  pub stack_top : r.stack_top ≡ 0x481_0000
  pub zero_fill : combined.sections.bss.size ≤ r.data_zero_fill_bytes
  pub sections :
      r.sections
      ≡ report combined.sections.text
        ∷ report combined.sections.rodata
        ∷ report combined.sections.data_section
        ∷ report combined.sections.bss
        ∷ report combined.sections.guard
        ∷ report combined.sections.stack
        ∷ []

pub report_found :
    (map : MapLayout) (s : Sections)
    → AreFound map s
    → report_sections map
      ≡ report s.text
        ∷ report s.rodata
        ∷ report s.data_section
        ∷ report s.bss
        ∷ report s.guard
        ∷ report s.stack
        ∷ []
unfolding report_sections
report_found map s f = rw (f.text, f.rodata, f.data_section, f.bss, f.guard, f.stack)

pub combined-safe :
    (entry : ℕ) (segments : List SegmentInspection) (map : MapLayout)
    → IsCombined entry segments map
    → All IsSafeSegment segments
combined-safe entry segments map c = by_roles segments c.are_segments
  where
    by_roles :
        (found : List SegmentInspection) → AreSegments found c.sections → All IsSafeSegment found
    by_roles [] h = tt
    by_roles (a ∷ []) h = elim h [ ]
    by_roles (a ∷ b ∷ []) h = elim h [ ]
    by_roles (a ∷ b ∷ d ∷ []) h = elim h [ ]
    by_roles (a ∷ b ∷ d ∷ e ∷ []) h = let l = c.laid_out in ground arith
    by_roles (a ∷ b ∷ d ∷ e ∷ f ∷ more) h = elim h [ ]

-- `segments[2]`
pub third_segment :
    (segments : List SegmentInspection) (s : Sections)
    → AreSegments segments s
    → (data_segment : SegmentInspection) × (get_elem? segments 2 ≡ some data_segment)
      × (s.bss.size ≤ data_segment.zero_fill_size)
third_segment [] s h = elim h [ ]
third_segment (a ∷ []) s h = elim h [ ]
third_segment (a ∷ b ∷ []) s h = elim h [ ]
third_segment (a ∷ b ∷ c ∷ []) s h = elim h [ ]
third_segment (a ∷ b ∷ c ∷ d ∷ []) s h = (c, refl, h.data_reserves)
third_segment (a ∷ b ∷ c ∷ d ∷ f ∷ more) s h = elim h [ ]

pub ok_injective :
    {r s : KernelInspection} → ◌≡◌ {A = Result InspectError KernelInspection} (ok r) (ok s) → r ≡ s
ok_injective e = cc
