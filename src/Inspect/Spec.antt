-- ===== src/Inspect/Spec.antt =====
-- What a kernel layout is, in plain arithmetic and with no reference to the checks.
use polytope_os.Base.{ℕ, ◌+◌, ◌%◌, ◌≤◌, ◌<◌, ◌≡◌, List, [], ◌∷◌, All, some, true}
use polytope_os.Harness.Text.{codes}
use polytope_os.Elf.Spec.{page_up}
use polytope_os.Inspect.Types.{Text, MapSection, SegmentInspection}
use polytope_os.Inspect.Types
use polytope_os.Inspect.Map.{MapLayout, get}
use polytope_os.Inspect.Combined.{Sections}

abbrev pub end_of : MapSection → ℕ
end_of s = s.address + s.size

-- Where the sections of the map lie.
pub record AreLaidOut (s : Sections) : Type 0 where
  pub text_base : s.text.address ≡ 0x400_0000
  pub text_nonempty : 0 < s.text.size
  pub rodata_aligned : s.rodata.address % 4096 ≡ 0
  pub rodata_nonempty : 0 < s.rodata.size
  pub data_aligned : s.data_section.address % 4096 ≡ 0
  pub data_nonempty : 0 < s.data_section.size
  pub bss_aligned : s.bss.address % 4096 ≡ 0
  pub bss_nonempty : 0 < s.bss.size
  pub text_le_rodata : end_of s.text ≤ s.rodata.address
  pub rodata_le_data : end_of s.rodata ≤ s.data_section.address
  pub data_le_bss : end_of s.data_section ≤ s.bss.address
  pub bss_le_guard : page_up (end_of s.bss) ≤ 0x47f_f000
  pub guard_base : s.guard.address ≡ 0x47f_f000
  pub guard_page : s.guard.size ≡ 4096
  pub stack_base : s.stack.address ≡ 0x480_0000
  pub stack_size : s.stack.size ≡ 0x1_0000

-- A segment that holds a section's bytes, with permissions `flags`.
pub record Holds (segment : SegmentInspection) (s : MapSection) (flags : ℕ) : Type 0 where
  pub permissions : segment.flags ≡ flags
  pub address : segment.physical_address ≡ s.address
  pub identity_mapped : segment.virtual_address ≡ segment.physical_address
  pub file_size : segment.file_size ≡ s.size
  pub alignment : segment.alignment ≡ 4096

-- The roles of the four segments: text may be executed, read-only data may only be read, and neither
-- has memory beyond the file; data may be written and runs to the end of `.bss`; the stack may be
-- written and has no bytes in the file.
pub record HaveRoles (text_segment rodata_segment data_segment stack_segment : SegmentInspection)
    (s : Sections) : Type 0 where
  pub text_holds : Holds text_segment s.text 5
  pub text_memory : text_segment.memory_size ≡ s.text.size
  pub rodata_holds : Holds rodata_segment s.rodata 4
  pub rodata_memory : rodata_segment.memory_size ≡ s.rodata.size
  pub data_holds : Holds data_segment s.data_section 6
  pub data_memory : data_segment.physical_address + data_segment.memory_size ≡ end_of s.bss
  pub data_reserves : s.bss.size ≤ data_segment.zero_fill_size
  pub stack_permissions : stack_segment.flags ≡ 6
  pub stack_address : stack_segment.physical_address ≡ 0x480_0000
  pub stack_identity : stack_segment.virtual_address ≡ 0x480_0000
  pub stack_file : stack_segment.file_size ≡ 0
  pub stack_memory : stack_segment.memory_size ≡ 0x1_0000
  pub stack_zero_fill : stack_segment.zero_fill_size ≡ 0x1_0000
  pub stack_alignment : stack_segment.alignment ≡ 4096

abbrev pub AreSegments : List SegmentInspection → Sections → Type 0
AreSegments (a ∷ b ∷ c ∷ d ∷ []) s = HaveRoles a b c d s
AreSegments _ s = ⊥

-- The map has the six sections, and in this order.
pub record AreFound (map : MapLayout) (s : Sections) : Type 0 where
  pub text : get Types.text map.sections ≡ some s.text
  pub rodata : get Types.rodata map.sections ≡ some s.rodata
  pub data_section : get Types.data_name map.sections ≡ some s.data_section
  pub bss : get Types.bss map.sections ≡ some s.bss
  pub guard : get Types.stack_guard map.sections ≡ some s.guard
  pub stack : get Types.stack map.sections ≡ some s.stack

pub record AreOrdered (s : Sections) : Type 0 where
  pub text_lt : s.text.line < s.rodata.line
  pub rodata_lt : s.rodata.line < s.data_section.line
  pub data_lt : s.data_section.line < s.bss.line
  pub bss_lt : s.bss.line < s.guard.line
  pub guard_lt : s.guard.line < s.stack.line

-- The values of the symbols that the linker script defines.
abbrev pub symbol_values : Sections → ℕ → List (Text × ℕ)
symbol_values s entry =
    (codes "__kernel_start", 0x400_0000)
    ∷ (codes "__text_start", s.text.address)
    ∷ (codes "__text_end", end_of s.text)
    ∷ (codes "__rodata_start", s.rodata.address)
    ∷ (codes "__rodata_end", end_of s.rodata)
    ∷ (codes "__data_start", s.data_section.address)
    ∷ (codes "__data_end", end_of s.data_section)
    ∷ (codes "__bss_start", s.bss.address)
    ∷ (codes "__bss_end", end_of s.bss)
    ∷ (codes "__bootstrap_stack_guard_start", 0x47f_f000)
    ∷ (codes "__bootstrap_stack_guard_end", 0x480_0000)
    ∷ (codes "__bootstrap_stack_bottom", 0x480_0000)
    ∷ (codes "__bootstrap_stack_top", 0x481_0000)
    ∷ (codes "__kernel_end", 0x481_0000)
    ∷ (codes "polytope_kernel_entry", entry)
    ∷ []

abbrev pub constant_values : List (Text × ℕ)
constant_values =
    (codes "KERNEL_BASE", 0x400_0000)
    ∷ (codes "KERNEL_LOAD_LIMIT", 0x480_0000)
    ∷ (codes "KERNEL_STACK_GUARD_BASE", 0x47f_f000)
    ∷ (codes "KERNEL_STACK_BASE", 0x480_0000)
    ∷ (codes "KERNEL_STACK_SIZE", 0x1_0000)
    ∷ (codes "PAGE_SIZE", 4096)
    ∷ []

abbrev pub AllHave : List (Text × ℕ) → List (Text × ℕ) → Type 0
AllHave values expected = All (λ (p : Text × ℕ). get p.0 values ≡ some p.1) expected

-- A kernel whose segments, sections and symbols agree.
pub record IsCombined (entry : ℕ) (segments : List SegmentInspection) (map : MapLayout)
    : Type 0 where
  pub sections : Sections
  pub found : AreFound map sections
  pub ordered : AreOrdered sections
  pub laid_out : AreLaidOut sections
  pub are_segments : AreSegments segments sections
  pub entry_base : entry ≡ 0x400_0000
  pub constants : AllHave map.constants constant_values
  pub symbols : AllHave map.symbols (symbol_values sections entry)
  pub load_end : map.saw_load_end_expression ≡ true
