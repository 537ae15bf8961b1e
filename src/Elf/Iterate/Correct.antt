-- ===== src/Elf/Iterate/Correct.antt =====
-- crates/boot-elf/src/lib.rs: the parser and the iterator together.
use polytope_os.Base.{ℕ, ◌+◌, ◌≤◌, ◌≡◌, sym, arith, List, All, length, ltb}
use polytope_os.Base.{ok, reject, >>=-eq-ok}
use polytope_os.Base.Bytes.{IsByte}
use polytope_os.Elf.Types.{ElfHeader, LoadSegment, ValidatedElf}
use polytope_os.Elf.Header.{validate_identification, parse_header}
use polytope_os.Elf.Header.Facts.{parse_header-IsHeader}
use polytope_os.Elf.Parse.{validate_program_headers, parse}
use polytope_os.Elf.Parse.Plan.{Table, done, skip, load, validate_program_headers-IsPlan}
use polytope_os.Elf.Spec.{IsPlan}
use polytope_os.Elf.Iterate.{collect}
use polytope_os.Elf.Iterate.Total.{collect_loop-Table}

-- What an accepted image came from.
record Accepted (bytes : List ℕ) (v : ValidatedElf) : Type 0 where
  header : ElfHeader
  count : ℕ
  size_lo : 64 ≤ length bytes
  size_hi : length bytes ≤ 16_777_216
  parsed : parse_header bytes ≡ ok header
  validated : validate_program_headers bytes header ≡ ok count
  same_bytes : v.bytes ≡ bytes
  same_entry : v.entry_point ≡ header.entry
  same_offset : v.program_header_offset ≡ header.program_header_offset
  same_headers : v.program_header_count ≡ header.program_header_count
  same_segments : v.load_segment_count ≡ count

parse-Accepted : (bytes : List ℕ) (v : ValidatedElf) → parse bytes ≡ ok v → Accepted bytes v
unfolding parse
parse-Accepted bytes v e =
    let (u, long, e1) = >>=-eq-ok (reject (ltb (length bytes) 64) _) _ e in
    let (w, short, e2) = >>=-eq-ok (reject (ltb 16_777_216 (length bytes)) _) _ e1 in
    let (x, identified, e3) = >>=-eq-ok (validate_identification bytes) _ e2 in
    let (header, parsed, e4) = >>=-eq-ok (parse_header bytes) _ e3 in
    let (count, validated, e5) = >>=-eq-ok (validate_program_headers bytes header) _ e4 in
    record {
      header = header;
      count = count;
      size_lo = ground arith;
      size_hi = ground arith;
      parsed = parsed;
      validated = validated;
      same_bytes = ground arith;
      same_entry = ground arith;
      same_offset = ground arith;
      same_headers = ground arith;
      same_segments = ground arith;
    }

length-Table :
    {bytes : List ℕ} {offset rounds index : ℕ} {plan : List LoadSegment}
    → Table bytes offset rounds index plan
    → length plan ≤ rounds
length-Table done = omega arith
length-Table (skip h d k t) = omega (arith, length-Table t)
length-Table (load h s d k l t) = omega (arith, length-Table t)

collect-Table :
    (bytes : List ℕ) (header : ElfHeader) (v : ValidatedElf) (plan : List LoadSegment)
    → v.bytes ≡ bytes
    → v.program_header_offset ≡ header.program_header_offset
    → v.program_header_count ≡ header.program_header_count
    → length plan ≤ header.program_header_count
    → Table bytes header.program_header_offset header.program_header_count 0 plan
    → collect v ≡ ok plan
unfolding collect
collect-Table bytes header v plan eb eo ec few t =
    rw (eb, eo, ec)
      (collect_loop-Table bytes header.program_header_offset header.program_header_count
        (header.program_header_count + 1) header.program_header_count 0 plan (omega arith)
        (omega arith) t)

pub IsPlan-of_entry :
    (bytes : List ℕ) (a b : ℕ) (plan : List LoadSegment)
    → a ≡ b
    → IsPlan bytes a plan
    → IsPlan bytes b plan
IsPlan-of_entry bytes a b plan e h = rw e at h

-- For every list of bytes that `parse` accepts, the iterator over the segments returns, with no panic,
-- a load plan of the image, of as many segments as were counted. Of a plan, each segment is readable
-- and not both writable and executable, its bytes lie in the file, its memory is not empty, lies in
-- the load window at its identity address and is page-aligned; the pages of each end before the next
-- starts; there are 1 to 4 segments of 64 MiB together at most; and the entry point lies in one that
-- may be executed.
pub collect-parse :
    (bytes : List ℕ) (v : ValidatedElf)
    → All IsByte bytes
    → parse bytes ≡ ok v
    → (plan : List LoadSegment) × (collect v ≡ ok plan)
      × IsPlan bytes v.entry_point plan
      × (length plan ≡ v.load_segment_count)
collect-parse bytes v b e =
    let a = parse-Accepted bytes v e in
    let facts = parse_header-IsHeader bytes a.parsed in
    let (plan, table, is_plan, count) =
      validate_program_headers-IsPlan bytes a.header facts.file_size a.count b a.validated in
    (
      plan,
      collect-Table bytes a.header v plan a.same_bytes a.same_offset a.same_headers
          (length-Table table) table,
      IsPlan-of_entry bytes a.header.entry v.entry_point plan (sym a.same_entry) is_plan,
      omega (arith, count, a.same_segments),
    )
