-- ===== src/Inspect/Symbols.antt =====
-- crates/xtask/src/inspect.rs: the checks of the map's constants and symbols, and `align_up`.
use polytope_os.Base.{ℕ, ◌+◌, ◌-◌, bit_and, ◌==◌, List, [], ◌∷◌}
use polytope_os.Base.{none, some}
use polytope_os.Base.{Result, ok, ◌>>=◌, ◌>>◌, ok_or, match_option}
use polytope_os.Base.Bits.{not_bits}
use polytope_os.Harness.Text.{codes}
use polytope_os.Elf.Read.{checked_add}
use polytope_os.Elf.Segment.{is_power_of_two}
use polytope_os.Inspect.Types.{Text, InspectError, ensure}
use polytope_os.Inspect.Types
use polytope_os.Inspect.Map.{get, MapLayout, section, section_end}

-- The loops over the expected constants and over the expected symbols.
unfoldable pub require_values :
    (Text → InspectError)
    → (Text → InspectError)
    → List (Text × ℕ)
    → List (Text × ℕ)
    → Result InspectError (Unit {0})
require_values missing wrong values [] = ok tt
require_values missing wrong values ((name, expected) ∷ rest) = do
  actual ← ok_or (get name values) (missing name)
  ensure (actual == expected) (wrong name)
  require_values missing wrong values rest

unfoldable pub expected_constants : List (Text × ℕ)
expected_constants =
    (codes "KERNEL_BASE", Types.kernel_base_address)
    ∷ (codes "KERNEL_LOAD_LIMIT", Types.kernel_load_limit)
    ∷ (codes "KERNEL_STACK_GUARD_BASE", Types.stack_guard_address)
    ∷ (codes "KERNEL_STACK_BASE", Types.stack_base_address)
    ∷ (codes "KERNEL_STACK_SIZE", Types.stack_size_bytes)
    ∷ (codes "PAGE_SIZE", 4_096)
    ∷ []

unfoldable pub validate_constants_and_symbols : MapLayout → ℕ → Result InspectError (Unit {0})
unfolding expected_constants
validate_constants_and_symbols self entry_point = do
  require_values Types.missing_constant Types.wrong_constant self.constants expected_constants
  text ← section self Types.text
  rodata ← section self Types.rodata
  data_section ← section self Types.data_name
  bss ← section self Types.bss
  text_end ← section_end text
  rodata_end ← section_end rodata
  data_end ← section_end data_section
  bss_end ← section_end bss
  require_values Types.missing_symbol Types.wrong_symbol self.symbols (
      (codes "__kernel_start", Types.kernel_base_address)
      ∷ (codes "__text_start", text.address)
      ∷ (codes "__text_end", text_end)
      ∷ (codes "__rodata_start", rodata.address)
      ∷ (codes "__rodata_end", rodata_end)
      ∷ (codes "__data_start", data_section.address)
      ∷ (codes "__data_end", data_end)
      ∷ (codes "__bss_start", bss.address)
      ∷ (codes "__bss_end", bss_end)
      ∷ (codes "__bootstrap_stack_guard_start", Types.stack_guard_address)
      ∷ (codes "__bootstrap_stack_guard_end", Types.stack_base_address)
      ∷ (codes "__bootstrap_stack_bottom", Types.stack_base_address)
      ∷ (codes "__bootstrap_stack_top", Types.stack_base_address + Types.stack_size_bytes)
      ∷ (codes "__kernel_end", Types.stack_base_address + Types.stack_size_bytes)
      ∷ (codes "polytope_kernel_entry", entry_point)
      ∷ [])
  ensure self.saw_load_end_expression Types.missing_load_end

unfoldable pub align_up : ℕ → ℕ → Result InspectError ℕ
align_up value alignment = do
  ensure (is_power_of_two alignment) Types.alignment_not_power
  ok_or
      (match_option none (λ sum. some (bit_and sum (not_bits 64 (alignment - 1))))
        (checked_add value (alignment - 1)))
      Types.alignment_overflow
