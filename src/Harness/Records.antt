-- ===== src/Harness/Records.antt =====
-- crates/xtask/src/qemu.rs: the diagnostic records, their grammar and their kinds.
use polytope_os.Base.{ℕ, ltb, ◌==◌, List, [], ◌∷◌, length, drop, list_eq, get_elem?}
use polytope_os.Base.{Bool, false, not, ◌&&◌, ◌||◌, if◌then◌else◌, Option, none, some}
use polytope_os.Base.{match_option}
use polytope_os.Harness.Text.{
  codes, starts_with, strip_prefix, all, fields_of, is_digit, is_lowercase, is_uppercase, parse_u16,
}

abbrev pub loader_start_marker : List ℕ
loader_start_marker =
    codes "POLYTOPE_BOOT schema=1 seq=0001 phase=loader level=info code=LOADER_START"

abbrev pub elf_valid_marker : List ℕ
elf_valid_marker = codes "POLYTOPE_BOOT schema=1 seq=0002 phase=loader level=info code=ELF_VALID"

abbrev pub handoff_ready_marker : List ℕ
handoff_ready_marker =
    codes "POLYTOPE_BOOT schema=1 seq=0003 phase=handoff level=info code=HANDOFF_READY"

abbrev pub ready_marker : List ℕ
ready_marker =
    codes "POLYTOPE_BOOT schema=1 seq=0004 phase=kernel_entry level=info code=KERNEL_READY"

abbrev pub bad_version_marker : List ℕ
bad_version_marker =
    codes "POLYTOPE_BOOT schema=1 seq=0004 phase=kernel_entry level=error code=ABI_VERSION"

abbrev pub truncated_marker : List ℕ
truncated_marker =
    codes "POLYTOPE_BOOT schema=1 seq=0004 phase=kernel_entry level=error code=CONTRACT_LENGTH"

abbrev pub contract_invalid_marker : List ℕ
contract_invalid_marker =
    codes "POLYTOPE_BOOT schema=1 seq=0004 phase=kernel_entry level=error code=CONTRACT_INVALID"

abbrev pub panic_marker : List ℕ
panic_marker = codes "POLYTOPE_BOOT schema=1 seq=0005 phase=panic level=fatal code=KERNEL_PANIC"

abbrev pub max_diagnostic_record_bytes : ℕ
max_diagnostic_record_bytes = 256

pub data RecordKind : Type 0 where
  loader_start elf_valid handoff ready_record abi_version contract_length : RecordKind
  contract_invalid panicked : RecordKind
  loader_failure_sequence2 loader_failure_sequence3 loader_failure_sequence4 : RecordKind

-- The fields of a record, which are six.
pub valid_fields : List (List ℕ) → Bool
valid_fields (f0 ∷ f1 ∷ f2 ∷ f3 ∷ f4 ∷ f5 ∷ []) =
    let sequence = drop 4 f2 in
    let phase = drop 6 f3 in
    let level = drop 6 f4 in
    let code = drop 5 f5 in
    list_eq f0 (codes "POLYTOPE_BOOT")
    && list_eq f1 (codes "schema=1")
    && starts_with f2 (codes "seq=")
    && starts_with f3 (codes "phase=")
    && starts_with f4 (codes "level=")
    && starts_with f5 (codes "code=")
    && length sequence == 4
    && all is_digit sequence
    && not (length phase == 0)
    && all (λ b. is_lowercase b || is_digit b || b == b'_') phase
    && (list_eq level (codes "info")
        || list_eq level (codes "error")
        || list_eq level (codes "fatal"))
    && not (length code == 0)
    && all (λ b. is_uppercase b || is_digit b || b == b'_') code
valid_fields fields = false

unfoldable pub valid_record_grammar : List ℕ → Bool
unfolding valid_fields
valid_record_grammar line = all (λ b. ltb b 128) line && valid_fields (fields_of line)

-- A line that passed the grammar is ASCII, and `from_utf8` succeeds on it.
unfoldable pub record_sequence : List ℕ → Option ℕ
record_sequence line =
    match_option none (λ field. match_option none parse_u16 (strip_prefix field (codes "seq=")))
      (get_elem? (fields_of line) 2)

-- `contains` of a table of records
pub contains : List (List ℕ) → List ℕ → Bool
contains [] line = false
contains (r ∷ records) line = list_eq line r || contains records line

abbrev pub sequence_2_records : List (List ℕ)
sequence_2_records =
    codes "POLYTOPE_BOOT schema=1 seq=0002 phase=loader level=error code=FILE_READ"
    ∷ codes "POLYTOPE_BOOT schema=1 seq=0002 phase=loader level=error code=CONFIG_INVALID"
    ∷ codes "POLYTOPE_BOOT schema=1 seq=0002 phase=loader level=error code=ELF_INVALID"
    ∷ codes "POLYTOPE_BOOT schema=1 seq=0002 phase=loader level=error code=ALLOCATION"
    ∷ codes "POLYTOPE_BOOT schema=1 seq=0002 phase=loader level=error code=KERNEL_ADDRESS"
    ∷ codes "POLYTOPE_BOOT schema=1 seq=0002 phase=loader level=error code=CONTRACT_STORAGE"
    ∷ codes "POLYTOPE_BOOT schema=1 seq=0002 phase=loader level=fatal code=LOADER_PANIC"
    ∷ []

abbrev pub sequence_3_records : List (List ℕ)
sequence_3_records =
    codes "POLYTOPE_BOOT schema=1 seq=0003 phase=handoff level=error code=CONTRACT_BUILD"
    ∷ codes "POLYTOPE_BOOT schema=1 seq=0003 phase=handoff level=fatal code=LOADER_PANIC"
    ∷ []

abbrev pub sequence_4_records : List (List ℕ)
sequence_4_records =
    codes "POLYTOPE_BOOT schema=1 seq=0004 phase=handoff level=fatal code=LOADER_PANIC" ∷ []

unfoldable pub loader_failure_kind : List ℕ → Option RecordKind
unfolding contains
loader_failure_kind line =
    if contains sequence_2_records line
    then some loader_failure_sequence2
    else if contains sequence_3_records line
    then some loader_failure_sequence3
    else if contains sequence_4_records line
    then some loader_failure_sequence4
    else none

unfoldable pub record_kind : List ℕ → Option RecordKind
unfolding loader_failure_kind
record_kind line =
    if list_eq line loader_start_marker
    then some loader_start
    else if list_eq line elf_valid_marker
    then some elf_valid
    else if list_eq line handoff_ready_marker
    then some handoff
    else if list_eq line ready_marker
    then some ready_record
    else if list_eq line bad_version_marker
    then some abi_version
    else if list_eq line truncated_marker
    then some contract_length
    else if list_eq line contract_invalid_marker
    then some contract_invalid
    else if list_eq line panic_marker
    then some panicked
    else loader_failure_kind line
