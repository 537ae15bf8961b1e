-- ===== src/Inspect/Map/Unique.antt =====
-- crates/xtask/src/inspect.rs: `MapLayout::parse` and the rows of a section.
use mathlib.Core.Path.{subst}
use polytope_os.Base.{ℕ, ◌+◌, ◌≡◌, refl, ◌∙◌, inl, inr, arith, List, [], ◌∷◌, All, list_eq}
use polytope_os.Base.{true, Option, none, some, match_option}
use polytope_os.Base.{Result, ok, >>=-eq-ok, Option-cases}
use polytope_os.Inspect.Types.{Text, InspectError, ensure, MapSection}
use polytope_os.Inspect.Types
use polytope_os.Inspect.Words.{lines, split_whitespace, contains}
use polytope_os.Inspect.Map
use polytope_os.Inspect.Map.{
  MapLayout, get, insert_unique, row_section, take_row, take_fields, take_lines, require_sections,
  section, forbidden_names, empty_layout,
}
use polytope_os.Inspect.Map.Rows.{named, Row, rows_named, Sections, Round, take_fields-Round}

-- The entry `name` of a layout, by the rows of that name.
abbrev pub Lines : Text → List Row → Sections → Type 0
Lines name [] after = get name after ≡ none
Lines name (row ∷ []) after =
    (s : MapSection) × (row_section row.line name row.address_field row.size_field ≡ ok s)
    × (get name after ≡ some s)
Lines name (row ∷ other ∷ rows) after = ⊥

-- The rows with the row of this round, if it has one.
abbrev joined : ℕ → Option (Text × Text) → List Row → List Row
joined line o rest =
    match_option rest
      (λ fields. record { line = line; address_field = fields.0; size_field = fields.1 } ∷ rest) o

module _ (name : Text) (line : ℕ) (before middle after : Sections) (rest : List Row) where
  Round-later :
      (o : Option (Text × Text)) (s : MapSection)
      → Round name line o before middle
      → get name before ≡ some s
      → (get name middle ≡ some s → (rest ≡ []) × (get name after ≡ some s))
      → (joined line o rest ≡ []) × (get name after ≡ some s)
  unfolding Round
  Round-later none s round present later = later (round ∙ present)
  Round-later (some (a, z)) s round present later = cc

  Round-rows :
      (o : Option (Text × Text))
      → Round name line o before middle
      → get name before ≡ none
      → (get name middle ≡ none → Lines name rest after)
      → ((s : MapSection) → get name middle ≡ some s → (rest ≡ []) × (get name after ≡ some s))
      → Lines name (joined line o rest) after
  unfolding Round
  Round-rows none round absent absent_later later = absent_later (round ∙ absent)
  Round-rows (some (a, z)) round absent absent_later later =
      let (s, made, now) = round.1 in let (last, kept) = later s now in rw last (s, made, kept)

-- After the row for a section there is no other, and its entry stays.
take_lines_later :
    (name : Text) (line : ℕ) (rows : List Text) (self : MapLayout) {self' : MapLayout}
    (s : MapSection)
    → contains Types.section_names name ≡ true
    → get name self.sections ≡ some s
    → take_lines line rows self ≡ ok self'
    → (rows_named name line rows ≡ []) × (get name self'.sections ≡ some s)
unfolding take_lines rows_named
take_lines_later name line [] self s known present e = ground arith
take_lines_later name line (row ∷ rows) self s known present e =
    let (taken, round, e1) = >>=-eq-ok (take_fields line (split_whitespace row) self) _ e in
    Round-later name line self.sections taken.sections _ _ (named name (split_whitespace row)) s
      (take_fields-Round name line (split_whitespace row) self known round) present
      (λ now. take_lines_later name (line + 1) rows taken s known now e1)

take_lines_rows :
    (name : Text) (line : ℕ) (rows : List Text) (self : MapLayout) {self' : MapLayout}
    → contains Types.section_names name ≡ true
    → get name self.sections ≡ none
    → take_lines line rows self ≡ ok self'
    → Lines name (rows_named name line rows) self'.sections
unfolding take_lines rows_named
take_lines_rows name line [] self known absent e = ground arith
take_lines_rows name line (row ∷ rows) self known absent e =
    let (taken, round, e1) = >>=-eq-ok (take_fields line (split_whitespace row) self) _ e in
    Round-rows name line self.sections taken.sections _ _ (named name (split_whitespace row))
      (take_fields-Round name line (split_whitespace row) self known round) absent
      (λ now. take_lines_rows name (line + 1) rows taken known now e1)
      (λ s now. take_lines_later name (line + 1) rows taken s known now e1)

require_sections-eq-ok :
    (names : List Text) (self : MapLayout)
    → require_sections names self ≡ ok tt
    → All (λ (name : Text). (s : MapSection) × (get name self.sections ≡ some s)) names
unfolding require_sections section
require_sections-eq-ok [] self e = tt
require_sections-eq-ok (name ∷ names) self e = elim (Option-cases (get name self.sections)) [
  | inl missing ↦ absurd (ground (arith, missing))
  | inr (s, found) ↦ ((s, found), require_sections-eq-ok names self (ground (arith, found)))
]

-- The one row of a section that has an entry.
pub record HasRow (name : Text) (rows : List Row) (self : MapLayout) : Type 0 where
  pub row : Row
  pub one_row : rows ≡ row ∷ []
  pub found : MapSection
  pub read : row_section row.line name row.address_field row.size_field ≡ ok found
  pub present : get name self.sections ≡ some found

Lines-HasRow :
    (name : Text) (rows : List Row) (self : MapLayout) (s : MapSection)
    → Lines name rows self.sections
    → get name self.sections ≡ some s
    → HasRow name rows self
Lines-HasRow name [] self s h e = absurd (cc)
Lines-HasRow name (row ∷ []) self s h e = record {
  row = row;
  one_row = refl;
  found = h.0;
  read = h.1;
  present = h.2;
}
Lines-HasRow name (row ∷ other ∷ rows) self s h e = elim h [ ]

all_rows :
    (names : List Text) (text : Text) (taken : MapLayout)
    → All (λ (name : Text). contains Types.section_names name ≡ true) names
    → All (λ (name : Text). (s : MapSection) × (get name taken.sections ≡ some s)) names
    → take_lines 1 (lines text) empty_layout ≡ ok taken
    → All (λ (name : Text). HasRow name (rows_named name 1 (lines text)) taken) names
unfolding get
all_rows [] text taken known present run = tt
all_rows (name ∷ names) text taken known present run = (
  Lines-HasRow name (rows_named name 1 (lines text)) taken present.0.0
      (take_lines_rows name 1 (lines text) empty_layout known.0 refl run) present.0.1,
  all_rows names text taken known.1 present.1 run,
)

known_names : All (λ (name : Text). contains Types.section_names name ≡ true) Types.section_names
unfolding contains list_eq
known_names = (refl, (refl, (refl, (refl, (refl, (refl, tt))))))

layout_injective : {a b : MapLayout} → ◌≡◌ {A = Result InspectError MapLayout} (ok a) (ok b) → a ≡ b
layout_injective e = cc

-- Where a linker map parses, each of the six output sections has exactly one row in its lines, and the
-- section of the layout is read from that row, with its line number.
pub parse_sections :
    (text : Text) {layout : MapLayout}
    → Map.parse text ≡ ok layout
    → All (λ (name : Text). HasRow name (rows_named name 1 (lines text)) layout) Types.section_names
unfolding Map.parse
parse_sections text {layout} e =
    let (taken, run, e1) = >>=-eq-ok (take_lines 1 (lines text) empty_layout) _ e in
    let (u, required, e2) = >>=-eq-ok (require_sections Types.section_names taken) _ e1 in
    subst
      (λ (found : MapLayout).
        All (λ (name : Text). HasRow name (rows_named name 1 (lines text)) found)
          Types.section_names)
      (layout_injective e2)
      (all_rows Types.section_names text taken known_names
        (require_sections-eq-ok Types.section_names taken required) run)
