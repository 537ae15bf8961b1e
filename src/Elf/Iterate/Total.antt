-- ===== src/Elf/Iterate/Total.antt =====
-- crates/boot-elf/src/lib.rs: the iterator over a table of program headers.
use polytope_os.Base.{ℕ, zero, suc, ◌+◌, ◌-◌, ◌<◌, ◌≡◌, refl, arith}
use polytope_os.Base.{List, [], ◌∷◌, Option, none, some, length, ok}
use polytope_os.Elf.Types.{ProgramHeader, LoadSegment, LoadSegments}
use polytope_os.Elf.Read.{Maybe, decode_program_header}
use polytope_os.Elf.Segment.{load_segment_from_header}
use polytope_os.Elf.Parse.Plan.{Table, done, skip, load}
use polytope_os.Elf.Iterate.{next_loop, next, collect_loop}

module _ (bytes : List ℕ) (offset count : ℕ) where
  -- The iterator before the header `index`.
  abbrev before : ℕ → LoadSegments
  before index = record {
    bytes = bytes;
    program_header_offset = offset;
    program_header_count = count;
    next_index = index;
  }

  -- What a call of `next` returns, given the segments that are left.
  abbrev NextIs : List LoadSegment → Maybe (Option LoadSegment × LoadSegments) → Type 0
  NextIs [] r = (i : ℕ) × (r ≡ ok (none, before i))
  NextIs (segment ∷ rest) r =
      (i : ℕ) × (n : ℕ) × (i + n ≡ count)
      × Table bytes offset n i rest
      × (r ≡ ok (some segment, before i))

  next_loop_skip :
      (rounds index : ℕ) (h : ProgramHeader)
      → index < count
      → decode_program_header bytes offset index ≡ ok h
      → h.kind ≡ 0
      → next_loop (suc rounds) (before index) ≡ next_loop rounds (before (index + 1))
  unfolding next_loop
  next_loop_skip rounds index h l d k = ground arith

  next_loop_load :
      (rounds index : ℕ) (h : ProgramHeader) (segment : LoadSegment)
      → index < count
      → decode_program_header bytes offset index ≡ ok h
      → h.kind ≡ 1
      → load_segment_from_header bytes index h ≡ ok segment
      → next_loop (suc rounds) (before index) ≡ ok (some segment, before (index + 1))
  unfolding next_loop
  next_loop_load rounds index h segment l d k s = ground arith

  next_loop-NextIs :
      (rounds index : ℕ) (plan : List LoadSegment)
      → index + rounds ≡ count
      → Table bytes offset rounds index plan
      → NextIs plan (next_loop rounds (before index))
  next_loop-NextIs rounds index plan e done = (index, unfold next_loop in refl)
  next_loop-NextIs total index plan e (skip {rounds = rounds} h d k t) =
      rw (next_loop_skip rounds index h (omega arith) d k)
        (next_loop-NextIs rounds (index + 1) plan (omega arith) t)
  next_loop-NextIs total index plan e (load {rounds = rounds} h segment d k s t) =
      (index + 1, rounds, omega arith, t, next_loop_load rounds index h segment (omega arith) d k s)

  collect_cons :
      (calls index i : ℕ) (segment : LoadSegment) {plan : List LoadSegment}
      → next (before index) ≡ ok (some segment, before i)
      → collect_loop calls (before i) ≡ ok plan
      → collect_loop (suc calls) (before index) ≡ ok (segment ∷ plan)
  unfolding collect_loop
  collect_cons calls index i segment r rest = ground arith

  next-NextIs :
      (rounds index : ℕ) (plan : List LoadSegment)
      → index + rounds ≡ count
      → Table bytes offset rounds index plan
      → NextIs plan (next (before index))
  unfolding next
  next-NextIs rounds index plan e t =
      let left : count - index ≡ rounds = omega arith in
      rw left (next_loop-NextIs rounds index plan e t)

  pub collect_loop-Table :
      (calls rounds index : ℕ) (plan : List LoadSegment)
      → length plan < calls
      → index + rounds ≡ count
      → Table bytes offset rounds index plan
      → collect_loop calls (before index) ≡ ok plan
  collect_loop-Table zero rounds index plan l e t = absurd (omega arith)
  collect_loop-Table (suc calls) rounds index [] l e t =
      let (i, r) = next-NextIs rounds index [] e t in unfold collect_loop in rw r
  collect_loop-Table (suc calls) rounds index (segment ∷ plan) l e t =
      let (i, n, left, table, r) = next-NextIs rounds index (segment ∷ plan) e t in
      let rest = collect_loop-Table calls n i plan (omega arith) left table in
      collect_cons calls index i segment r rest
