-- ===== src/Inspect/Map.antt =====
-- crates/xtask/src/inspect.rs: `MapSection`, `MapLayout` and its parser. A `BTreeMap` from names is the
-- list of its entries, since the code only looks names up.
pub mod Rows
pub mod Unique
use polytope_os.Base.{ℕ, ◌+◌, List, [], ◌∷◌, list_eq}
use polytope_os.Base.{Bool, true, false, not, ◌&&◌, if◌then◌else◌, Option, none, some, get_elem?}
use polytope_os.Base.{Result, ok, ◌>>=◌, ◌>>◌, ok_or, match_option}
use polytope_os.Harness.Text.{codes}
use polytope_os.Elf.Read.{checked_add}
use polytope_os.Inspect.Types.{Text, InspectError, ensure, MapSection, SectionInspection}
use polytope_os.Inspect.Types
use polytope_os.Inspect.Words.{
  lines, split_whitespace, contains, is_kernel_load_end_expression, parse_hex,
}

-- `MapSection::end`
unfoldable pub section_end : MapSection → Result InspectError ℕ
section_end self = ok_or (checked_add self.address self.size) (Types.end_overflow self.name)

unfoldable pub report : MapSection → SectionInspection
report self = record { name = self.name; address = self.address; size = self.size }

-- `BTreeMap::get`
unfoldable pub get {ℓ} : {T : Type ℓ} → Text → List (Text × T) → Option T
get name [] = none
get name ((key, value) ∷ values) = if list_eq key name then some value else get name values

unfoldable pub insert_unique {ℓ} :
    {T : Type ℓ} → List (Text × T) → Text → T → Result InspectError (List (Text × T))
insert_unique values name value = do
  ensure (match_option true (λ _. false) (get name values)) (Types.duplicate name)
  ok ((name, value) ∷ values)

pub record MapLayout : Type 0 where
  pub sections : List (Text × MapSection)
  pub constants : List (Text × ℕ)
  pub symbols : List (Text × ℕ)
  pub saw_load_end_expression : Bool

abbrev pub empty_layout : MapLayout
empty_layout = record {
  sections = [];
  constants = [];
  symbols = [];
  saw_load_end_expression = false;
}

abbrev pub forbidden_names : List Text
forbidden_names =
    codes ".interp"
    ∷ codes ".dynamic"
    ∷ codes ".dynsym"
    ∷ codes ".dynstr"
    ∷ codes ".rela.dyn"
    ∷ codes ".rel.dyn"
    ∷ codes ".plt"
    ∷ codes ".got.plt"
    ∷ []

abbrev pub constant_names : List Text
constant_names =
    codes "KERNEL_BASE"
    ∷ codes "KERNEL_LOAD_LIMIT"
    ∷ codes "KERNEL_STACK_GUARD_BASE"
    ∷ codes "KERNEL_STACK_BASE"
    ∷ codes "KERNEL_STACK_SIZE"
    ∷ codes "PAGE_SIZE"
    ∷ []

abbrev pub symbol_names : List Text
symbol_names =
    codes "__kernel_start"
    ∷ codes "__text_start"
    ∷ codes "__text_end"
    ∷ codes "__rodata_start"
    ∷ codes "__rodata_end"
    ∷ codes "__data_start"
    ∷ codes "__data_end"
    ∷ codes "__bss_start"
    ∷ codes "__bss_end"
    ∷ codes "__bootstrap_stack_guard_start"
    ∷ codes "__bootstrap_stack_guard_end"
    ∷ codes "__bootstrap_stack_bottom"
    ∷ codes "__bootstrap_stack_top"
    ∷ codes "__kernel_end"
    ∷ codes "polytope_kernel_entry"
    ∷ []

-- The section of a row of the map.
unfoldable pub row_section : ℕ → Text → Text → Text → Result InspectError MapSection
row_section line name address_field size_field = do
  address ← parse_hex address_field line
  size ← parse_hex size_field line
  ok (record { name = name; address = address; size = size; line = line })

-- `fields.get(5) == Some(&"=")`, where `more` are the fields from the fifth on
has_equals : List Text → Bool
has_equals more = match_option false (λ field. list_eq field (codes "=")) (get_elem? more 0)

-- The three branches on a row's name.
unfoldable pub take_row :
    ℕ → Text → Text → Text → List Text → MapLayout → Result InspectError MapLayout
unfolding has_equals
take_row line address_field size_field name more self =
    if contains Types.section_names name
    then (do
      section ← row_section line name address_field size_field
      sections ← insert_unique self.sections name section
      ok (record self { sections = sections }))
    else if contains constant_names name && has_equals more
    then (do
      field ← ok_or (get_elem? more 1) (Types.missing_value line name)
      value ← parse_hex field line
      constants ← insert_unique self.constants name value
      ok (record self { constants = constants }))
    else if contains symbol_names name
    then (do
      value ← parse_hex address_field line
      symbols ← insert_unique self.symbols name value
      ok (record self { symbols = symbols }))
    else ok self

-- One round of the loop of `MapLayout::parse`.
unfoldable pub take_fields : ℕ → List Text → MapLayout → Result InspectError MapLayout
take_fields line (f0 ∷ f1 ∷ f2 ∷ f3 ∷ name ∷ more) self = do
  ensure (not (contains forbidden_names name)) (Types.dynamic_section name)
  self' ← take_row line f0 f2 name more self
  ok (
      if is_kernel_load_end_expression (f0 ∷ f1 ∷ f2 ∷ f3 ∷ name ∷ more)
      then record self' { saw_load_end_expression = true }
      else self')
take_fields line _ self = ok self

-- The loop, which counts the lines from 1.
unfoldable pub take_lines : ℕ → List Text → MapLayout → Result InspectError MapLayout
take_lines line [] self = ok self
take_lines line (row ∷ rows) self = do
  self' ← take_fields line (split_whitespace row) self
  take_lines (line + 1) rows self'

-- `MapLayout::section`
unfoldable pub section : MapLayout → Text → Result InspectError MapSection
section self name = ok_or (get name self.sections) (Types.missing_section name)

unfoldable pub require_sections : List Text → MapLayout → Result InspectError (Unit {0})
require_sections [] self = ok tt
require_sections (name ∷ names) self = do _ ← section self name; require_sections names self

-- `MapLayout::parse`
unfoldable pub parse : Text → Result InspectError MapLayout
parse text = do
  layout ← take_lines 1 (lines text) empty_layout
  require_sections Types.section_names layout
  ok layout

unfoldable pub report_named : List Text → MapLayout → List SectionInspection
report_named [] self = []
report_named (name ∷ names) self =
    let rest = report_named names self in
    match_option rest (λ found. report found ∷ rest) (get name self.sections)

unfoldable pub report_sections : MapLayout → List SectionInspection
unfolding report_named
report_sections = report_named Types.section_names
