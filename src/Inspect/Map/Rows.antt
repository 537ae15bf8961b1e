-- ===== src/Inspect/Map/Rows.antt =====
-- crates/xtask/src/inspect.rs: the rows of the linker map behind a parsed layout.
use polytope_os.Base.{ℕ, ◌+◌, ◌≡◌, refl, inl, inr, arith, List, [], ◌∷◌, list_eq, list_eq_iff}
use polytope_os.Base.{Bool, true, false, not, if◌then◌else◌, Option, none, some, match_option}
use polytope_os.Base.{Result, ok, >>=-eq-ok, Bool-cases}
use polytope_os.Inspect.Types.{Text, InspectError, ensure, MapSection}
use polytope_os.Inspect.Types
use polytope_os.Inspect.Words.{split_whitespace, contains, is_kernel_load_end_expression}
use polytope_os.Inspect.Map.{
  MapLayout, get, insert_unique, row_section, take_row, take_fields, forbidden_names,
}

-- The address and size fields of a row, if it has five fields and the fifth is `name`.
unfoldable pub named : Text → List Text → Option (Text × Text)
named name (f0 ∷ f1 ∷ f2 ∷ f3 ∷ n ∷ more) = if list_eq n name then some (f0, f2) else none
named name _ = none

pub record Row : Type 0 where
  pub line : ℕ
  pub address_field : Text
  pub size_field : Text

-- The rows of that name, with their line numbers.
unfoldable pub rows_named : Text → ℕ → List Text → List Row
rows_named name line [] = []
rows_named name line (row ∷ rows) =
    let rest = rows_named name (line + 1) rows in
    match_option rest
      (λ fields. record { line = line; address_field = fields.0; size_field = fields.1 } ∷ rest)
      (named name (split_whitespace row))

abbrev pub Sections : Type 0
Sections = List (Text × MapSection)

-- What a round does to the section `name`.
unfoldable pub Round : Text → ℕ → Option (Text × Text) → Sections → Sections → Type 0
Round name line none before after = get name after ≡ get name before
Round name line (some (a, z)) before after =
    (get name before ≡ none)
    × ((s : MapSection) × (row_section line name a z ≡ ok s) × (get name after ≡ some s))

list_eq_refl : (xs : Text) → list_eq xs xs ≡ true
list_eq_refl xs = (list_eq_iff xs xs).1 refl

insert_unique-eq-ok :
    (values : List (Text × MapSection)) (name : Text) (s : MapSection)
    {values' : List (Text × MapSection)}
    → insert_unique values name s ≡ ok values'
    → (get name values ≡ none) × (values' ≡ (name, s) ∷ values)
unfolding insert_unique
insert_unique-eq-ok values name s e = ground arith

take_named_row :
    (name : Text) (line : ℕ) (a z : Text) (more : List Text) (self : MapLayout) {self' : MapLayout}
    → contains Types.section_names name ≡ true
    → take_row line a z name more self ≡ ok self'
    → (get name self.sections ≡ none)
      × ((s : MapSection) × (row_section line name a z ≡ ok s) × (get name self'.sections ≡ some s))
unfolding take_row get
take_named_row name line a z more self known e =
    let e0 = rw known at e in
    let (s, made, e1) = >>=-eq-ok (row_section line name a z) _ e0 in
    let (sections, inserted, e2) = >>=-eq-ok (insert_unique self.sections name s) _ e1 in
    let (fresh, grown) = insert_unique-eq-ok self.sections name s inserted in
    (fresh, (s, made, ground (arith, grown, list_eq_refl name)))

take_other_row :
    (name : Text) (line : ℕ) (a z n : Text) (more : List Text) (self : MapLayout)
    {self' : MapLayout}
    → list_eq n name ≡ false
    → take_row line a z n more self ≡ ok self'
    → get name self'.sections ≡ get name self.sections
unfolding take_row insert_unique get
take_other_row name line a z n more self other e = ground arith

take_row-Round :
    (name : Text) (line : ℕ) (a z n : Text) (more : List Text) (self : MapLayout)
    {self' : MapLayout}
    → contains Types.section_names name ≡ true
    → take_row line a z n more self ≡ ok self'
    → Round name line (if list_eq n name then some (a, z) else none) self.sections self'.sections
unfolding Round
take_row-Round name line a z n more self known e = elim (Bool-cases (list_eq n name)) [
  | inl same ↦
      rw same (take_named_row name line a z more self known (rw ((list_eq_iff n name).0 same) at e))
  | inr other ↦ rw other (take_other_row name line a z n more self other e)
]

kept_sections :
    (seen : Bool) (taken : MapLayout) {self' : MapLayout}
    → ◌≡◌ {A = Result InspectError MapLayout}
        (ok (if seen then record taken { saw_load_end_expression = true } else taken))
        (ok self')
    → taken.sections ≡ self'.sections
kept_sections true taken e = ground arith
kept_sections false taken e = ground arith

pub take_fields-Round :
    (name : Text) (line : ℕ) (fields : List Text) (self : MapLayout) {self' : MapLayout}
    → contains Types.section_names name ≡ true
    → take_fields line fields self ≡ ok self'
    → Round name line (named name fields) self.sections self'.sections
unfolding Round take_fields named
take_fields-Round name line [] self known e = ground arith
take_fields-Round name line (f0 ∷ []) self known e = ground arith
take_fields-Round name line (f0 ∷ f1 ∷ []) self known e = ground arith
take_fields-Round name line (f0 ∷ f1 ∷ f2 ∷ []) self known e = ground arith
take_fields-Round name line (f0 ∷ f1 ∷ f2 ∷ f3 ∷ []) self known e = ground arith
take_fields-Round name line (f0 ∷ f1 ∷ f2 ∷ f3 ∷ n ∷ more) self known e =
    let (u, allowed, e1) =
      >>=-eq-ok (ensure (not (contains forbidden_names n)) (Types.dynamic_section n)) _ e in
    let (taken, row, e2) = >>=-eq-ok (take_row line f0 f2 n more self) _ e1 in
    let round = take_row-Round name line f0 f2 n more self known row in
    rw (kept_sections (is_kernel_load_end_expression (f0 ∷ f1 ∷ f2 ∷ f3 ∷ n ∷ more)) taken e2) at
      round
