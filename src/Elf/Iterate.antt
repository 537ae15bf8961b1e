-- ===== src/Elf/Iterate.antt =====
-- crates/boot-elf/src/lib.rs: `ValidatedElf::segments` and the iterator `LoadSegments`.
pub mod Total
pub mod Correct
use polytope_os.Base.{ℕ, zero, suc, ◌+◌, ◌-◌, ltb, ◌==◌, List, [], ◌∷◌, if◌then◌else◌}
use polytope_os.Base.{Option, none, some, Result, ok, err, panic, ◌>>=◌}
use polytope_os.Elf.Types.{ProgramHeader, LoadSegment, LoadSegments, ValidatedElf}
use polytope_os.Elf.Types
use polytope_os.Elf.Read.{Maybe, add, decode_program_header}
use polytope_os.Elf.Segment.{load_segment_from_header}

unfoldable pub segments : ValidatedElf → LoadSegments
segments self = record {
  bytes = self.bytes;
  program_header_offset = self.program_header_offset;
  program_header_count = self.program_header_count;
  next_index = 0;
}

-- What `next` returns with the iterator behind it. A `?` on `None` returns `None`; a panic goes on.
unfoldable pub returned :
    Maybe LoadSegment → LoadSegments → Maybe (Option LoadSegment × LoadSegments)
returned (ok segment) self = ok (some segment, self)
returned (err none_found) self = ok (none, self)
returned panic self = panic

-- The `while` loop of `next` with fuel: there is one round for each header that is left.
unfoldable pub next_loop : ℕ → LoadSegments → Maybe (Option LoadSegment × LoadSegments)
unfolding returned
next_loop zero self = ok (none, self)
next_loop (suc rounds) self =
    let index = self.next_index in
    let again = next_loop rounds (record self { next_index = self.next_index + 1 }) in
    if ltb self.next_index self.program_header_count
    then elim (decode_program_header self.bytes self.program_header_offset index) [
      | ok header ↦
          if header.kind == Types.pt_load
          then returned (load_segment_from_header self.bytes index header)
              (record self { next_index = self.next_index + 1 })
          else again
      | err none_found ↦ ok (none, record self { next_index = self.next_index + 1 })
      | panic ↦ panic
    ]
    else ok (none, self)

unfoldable pub next : LoadSegments → Maybe (Option LoadSegment × LoadSegments)
unfolding next_loop
next self = next_loop (self.program_header_count - self.next_index) self

-- `for segment in segments`: the segments in their order, with fuel for the calls of `next`.
unfoldable pub collect_loop : ℕ → LoadSegments → Maybe (List LoadSegment)
unfolding next
collect_loop zero self = ok []
collect_loop (suc calls) self = do
  (item, self') ← next self
  let rest = collect_loop calls self'
  elim item [ none ↦ ok [] | some segment ↦ (do found ← rest; ok (segment ∷ found)) ]

unfoldable pub collect : ValidatedElf → Maybe (List LoadSegment)
unfolding segments collect_loop
collect self = collect_loop (self.program_header_count + 1) (segments self)

-- `size_hint`, whose second component is always present
unfoldable pub size_hint : LoadSegments → ℕ × ℕ
size_hint self = (0, self.program_header_count - self.next_index)
