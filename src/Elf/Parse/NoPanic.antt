-- ===== src/Elf/Parse/NoPanic.antt =====
-- crates/boot-elf/src/lib.rs: the slices and sums of `parse` that could panic.
use polytope_os.Base.{ℕ, zero, suc, ◌+◌, ◌*◌, ◌≤◌, ◌<◌, ◌≡◌, ◌≢◌, ◌^◌, inl, inr, arith}
use polytope_os.Base.{List, Bool, true, false, Option, none, some, All, length, ltb, ◌==◌, not}
use polytope_os.Base.{ok, panic, reject, ok_or, >>=-ne-panic}
use polytope_os.Base.{lt→ltb}
use polytope_os.Base.Bytes.{IsByte}
use polytope_os.Elf.Types.{ElfHeader, ProgramHeader}
use polytope_os.Elf.Read.{checked_add, align_up}
use polytope_os.Elf.Read.Ranges.{decode-IsTypedHeader, decode-in_file, header_at}
use polytope_os.Elf.Header.{validate_identification, parse_header}
use polytope_os.Elf.Header.Facts.{
  IsHeader, parse_header-IsHeader, parse_header-ne-panic, validate_identification-ne-panic,
}
use polytope_os.Elf.Segment.{validate_load_segment}
use polytope_os.Elf.Segment.Valid.{IsTypedHeader, IsChecked, validate_load_segment-IsChecked}
use polytope_os.Elf.Parse.{
  Progress, start, follows_previous, holds_entry, load_header, step_header, check_headers,
}
use polytope_os.Elf.Parse.{validate_program_headers, parse}
use polytope_os.Elf.Parse.Step.{load_header-Loads}
use polytope_os.Elf.Parse.Plan.{step_cases}

segment-ne-panic : (index : ℕ) (h : ProgramHeader) (n : ℕ) → validate_load_segment index h n ≢ panic
unfolding validate_load_segment
segment-ne-panic index h n = ground arith

follows-ne-panic :
    (index : ℕ) (previous : Option (ℕ × ℕ × ℕ)) (address : ℕ)
    → follows_previous index previous address ≢ panic
unfolding follows_previous
follows-ne-panic index none address = ground arith
follows-ne-panic index (some p) address = ground arith

-- The sum of a checked segment's address and size fits 64 bits.
holds_entry-ne-panic :
    (entry : ℕ) (h : ProgramHeader) {n end : ℕ} → IsChecked h n end → holds_entry entry h ≢ panic
unfolding holds_entry
holds_entry-ne-panic entry h c =
    rw (lt→ltb (h.virtual_address + h.memory_size) (2 ^ 64) (omega arith)) (ground arith)

ok_or-ne-panic {ℓ κ} : {E : Type ℓ} {A : Type κ} (o : Option A) (e : E) → ok_or o e ≢ panic
ok_or-ne-panic none e p = cc
ok_or-ne-panic (some a) e p = cc

reject-ne-panic {ℓ} : {E : Type ℓ} (b : Bool) (e : E) → reject b e ≢ panic
reject-ne-panic true e p = cc
reject-ne-panic false e p = cc

module _ (elf : ElfHeader) where
  load_header-ne-panic :
      (index : ℕ) (h : ProgramHeader) (s : Progress)
      → IsTypedHeader h
      → s.load_count ≤ 4
      → load_header elf index h s ≢ panic
  unfolding load_header
  load_header-ne-panic index h s t few = rw (lt→ltb (s.load_count + 1) (2 ^ 16) (omega arith)) (
      >>=-ne-panic (reject (ltb 4 (s.load_count + 1)) _) _ (reject-ne-panic _ _) λ _ _.
        >>=-ne-panic (validate_load_segment index h elf.file_size) _
          (segment-ne-panic index h elf.file_size)
          λ end valid.
            >>=-ne-panic (ok_or (align_up end 4096) _) _ (ok_or-ne-panic _ _) λ page_end _.
              >>=-ne-panic (follows_previous index s.previous h.physical_address) _
                (follows-ne-panic index s.previous h.physical_address)
                λ _ _.
                  >>=-ne-panic (ok_or (checked_add s.total_load_size h.memory_size) _) _
                    (ok_or-ne-panic _ _)
                    λ total _.
                      >>=-ne-panic (reject (ltb 67_108_864 total) _) _ (reject-ne-panic _ _) λ _ _.
                        >>=-ne-panic (holds_entry elf.entry h) _
                          (holds_entry-ne-panic elf.entry h
                            (validate_load_segment-IsChecked index h elf.file_size t valid))
                          λ holds _ p. cc)

  step_header-ne-panic :
      (index : ℕ) (h : ProgramHeader) (s : Progress)
      → IsTypedHeader h
      → s.load_count ≤ 4
      → step_header elf index h s ≢ panic
  unfolding step_header
  step_header-ne-panic index h s t few = ground (arith, load_header-ne-panic index h s t few)

-- The table of program headers lies in the file.
module _ (bytes : List ℕ) (elf : ElfHeader) (b : All IsByte bytes) (small : length bytes < 2 ^ 64)
    (header : IsHeader (length bytes) elf) where
  few_segments :
      (index : ℕ) (h : ProgramHeader) (s s' : Progress)
      → IsTypedHeader h
      → s.load_count ≤ 4
      → step_header elf index h s ≡ ok s'
      → s'.load_count ≤ 4
  few_segments index h s s' t few e = elim (step_cases bytes elf header.file_size index h s s' e) [
    | inl (null, same) ↦ rw same few
    | inr (kind, loaded) ↦ (load_header-Loads elf index h s s' t loaded).load_count_hi
  ]

  check_headers-ne-panic :
      (rounds index : ℕ) (s : Progress)
      → index + rounds ≡ elf.program_header_count
      → s.load_count ≤ 4
      → check_headers rounds index bytes elf s ≢ panic
  unfolding check_headers
  check_headers-ne-panic zero index s e few = λ p. cc
  check_headers-ne-panic (suc rounds) index s e few =
      let decoded =
        decode-in_file bytes elf.program_header_offset index (omega (arith, header.table_hi))
          small in
      let typed = decode-IsTypedHeader bytes elf.program_header_offset index b decoded in
      let h = header_at bytes (elf.program_header_offset + index * 56) in
      rw decoded (
        >>=-ne-panic (step_header elf index h s) _ (step_header-ne-panic elf index h s typed few)
          λ s' stepped.
            check_headers-ne-panic rounds (index + 1) s' (omega arith)
              (few_segments index h s s' typed few stepped))

  validate_program_headers-ne-panic : validate_program_headers bytes elf ≢ panic
  unfolding validate_program_headers
  validate_program_headers-ne-panic =
      >>=-ne-panic (check_headers elf.program_header_count 0 bytes elf start) _
        (check_headers-ne-panic elf.program_header_count 0 start (omega arith) (omega arith))
        λ s _. >>=-ne-panic (reject (s.load_count == 0) _) _ (reject-ne-panic _ _) λ _ _.
          >>=-ne-panic (reject (not s.entry_is_executable) _) _ (reject-ne-panic _ _) λ _ _ p. cc

-- For every list of bytes, `parse` returns an image or an error and never panics.
pub elf_parse-ne-panic : (bytes : List ℕ) → All IsByte bytes → parse bytes ≢ panic
unfolding parse
elf_parse-ne-panic bytes b =
    >>=-ne-panic (reject (ltb (length bytes) 64) _) _ (reject-ne-panic _ _) λ _ long.
      >>=-ne-panic (reject (ltb 16_777_216 (length bytes)) _) _ (reject-ne-panic _ _) λ _ short.
        >>=-ne-panic (validate_identification bytes) _
          (validate_identification-ne-panic bytes (ground arith))
          λ _ _. >>=-ne-panic (parse_header bytes) _ (parse_header-ne-panic bytes) λ header parsed.
            >>=-ne-panic (validate_program_headers bytes header) _
              (validate_program_headers-ne-panic bytes header b (ground arith)
                (parse_header-IsHeader bytes parsed))
              λ count _ p. cc
