-- ===== src/Elf/Parse.antt =====
-- crates/boot-elf/src/lib.rs: `validate_program_headers` and `parse`.
pub mod Step
pub mod Plan
pub mod NoPanic
use polytope_os.Base.{ℕ, zero, suc, ◌+◌, ◌^◌, bit_and, ltb, leb, ◌==◌, List, length}
use polytope_os.Base.{Bool, true, false, not, ◌&&◌, ◌||◌, if◌then◌else◌, Option, none, some}
use polytope_os.Base.{Result, ok, err, panic, ◌>>=◌, ◌>>◌, reject, ok_or, map_err}
use polytope_os.Elf.Error
use polytope_os.Elf.Error.{ParseError}
use polytope_os.Elf.Types.{ElfHeader, ProgramHeader, ValidatedElf}
use polytope_os.Elf.Types
use polytope_os.Elf.Read.{checked_add, add, decode_program_header, align_up}
use polytope_os.Elf.Header.{validate_identification, parse_header}
use polytope_os.Elf.Segment.{validate_load_segment}

-- The variables of the loop of `validate_program_headers`.
pub record Progress : Type 0 where
  pub load_count : ℕ
  pub total_load_size : ℕ
  pub previous : Option (ℕ × ℕ × ℕ)
  pub entry_is_executable : Bool

abbrev pub start : Progress
start = record { load_count = 0; total_load_size = 0; previous = none; entry_is_executable = false }

-- The comparison with the segment before: its index, its start and its page-rounded end.
pub follows_previous : ℕ → Option (ℕ × ℕ × ℕ) → ℕ → Result ParseError (Unit {0})
follows_previous index none address = ok tt
follows_previous index (some (previous_index, previous_start, previous_end)) address = do
  reject (ltb address previous_start) (Error.unsorted_segments previous_index index)
  reject (ltb address previous_end) (Error.overlapping_segments previous_index index)

-- `flags & PF_X != 0 && entry >= address && entry < address + size`; the sum is taken last.
pub holds_entry : ℕ → ProgramHeader → Result ParseError Bool
holds_entry entry header =
    if not (bit_and header.flags Types.pf_x == 0) && leb header.virtual_address entry
    then (do limit ← add 64 header.virtual_address header.memory_size; ok (ltb entry limit))
    else ok false

-- The loop body on a `PT_LOAD` header.
pub load_header : ElfHeader → ℕ → ProgramHeader → Progress → Result ParseError Progress
unfolding follows_previous holds_entry
load_header elf index header s = do
  load_count ← add 16 s.load_count 1
  reject (ltb Types.max_load_segments load_count)
      (Error.too_many_load_segments load_count Types.max_load_segments)
  end ← validate_load_segment index header elf.file_size
  page_end ← ok_or (align_up end Types.page_size) (Error.segment_memory_range_overflow index)
  follows_previous index s.previous header.physical_address
  total ← ok_or (checked_add s.total_load_size header.memory_size) Error.total_load_size_overflow
  reject (ltb Types.max_total_load_size total)
      (Error.total_load_size_too_large total Types.max_total_load_size)
  holds ← holds_entry elf.entry header
  ok (record {
    load_count = load_count;
    total_load_size = total;
    previous = some (index, header.physical_address, page_end);
    entry_is_executable = holds || s.entry_is_executable;
  })

-- The loop body.
pub step_header : ElfHeader → ℕ → ProgramHeader → Progress → Result ParseError Progress
unfolding load_header
step_header elf index header s = if header.kind == Types.pt_null then ok s else do
  reject (not (header.kind == Types.pt_load))
      (Error.unsupported_program_header_type index header.kind)
  load_header elf index header s

-- `for index in 0..count`, from `index` on with `rounds` rounds left.
pub check_headers : ℕ → ℕ → List ℕ → ElfHeader → Progress → Result ParseError Progress
unfolding step_header
check_headers zero index bytes elf s = ok s
check_headers (suc rounds) index bytes elf s = do
  header ←
      map_err
        (λ _. Error.program_header_table_out_of_bounds elf.program_header_table_end elf.file_size)
        (decode_program_header bytes elf.program_header_offset index)
  s' ← step_header elf index header s
  check_headers rounds (index + 1) bytes elf s'

pub validate_program_headers : List ℕ → ElfHeader → Result ParseError ℕ
unfolding check_headers
validate_program_headers bytes elf = do
  s ← check_headers elf.program_header_count 0 bytes elf start
  reject (s.load_count == 0) Error.no_load_segments
  reject (not s.entry_is_executable) (Error.entry_not_executable elf.entry)
  ok s.load_count

unfoldable pub parse : List ℕ → Result ParseError ValidatedElf
unfolding validate_program_headers
parse bytes = do
  reject (ltb (length bytes) Types.elf_header_size)
      (Error.truncated (length bytes) Types.elf_header_size)
  reject (ltb Types.max_elf_file_size (length bytes))
      (Error.file_too_large (length bytes) Types.max_elf_file_size)
  validate_identification bytes
  header ← parse_header bytes
  load_segment_count ← validate_program_headers bytes header
  ok (record {
    bytes = bytes;
    entry_point = header.entry;
    program_header_offset = header.program_header_offset;
    program_header_count = header.program_header_count;
    load_segment_count = load_segment_count;
  })
