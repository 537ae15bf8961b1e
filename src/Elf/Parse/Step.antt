-- ===== src/Elf/Parse/Step.antt =====
-- crates/boot-elf/src/lib.rs: one round of the loop over the program headers.
use polytope_os.Base.{ℕ, ◌+◌, ◌≤◌, ◌<◌, ◌≡◌, ◌⊎◌, inl, inr, arith, ltb}
use polytope_os.Base.{Bool, true, false, Option, none, some, ◌%◌, ◌||◌}
use polytope_os.Base.{ok, reject, ok_or, >>=-eq-ok}
use polytope_os.Elf.Error
use polytope_os.Elf.Error.{ParseError}
use polytope_os.Elf.Types.{ElfHeader, ProgramHeader}
use polytope_os.Elf.Read.{add, checked_add, align_up}
use polytope_os.Elf.Segment.{validate_load_segment}
use polytope_os.Elf.Segment.Valid.{
  IsTypedHeader, IsChecked, validate_load_segment-IsChecked, align_up-page, executable_flag,
}
use polytope_os.Elf.Spec.{page_up}
use polytope_os.Elf.Parse.{Progress, follows_previous, holds_entry, load_header}

-- What `previous` asks of a later start address.
abbrev pub Follows : Option (ℕ × ℕ × ℕ) → ℕ → Type 0
Follows none address = Unit
Follows (some (i, start, end)) address = end ≤ address

abbrev pub IsPrevious : Option (ℕ × ℕ × ℕ) → Type 0
IsPrevious none = Unit
IsPrevious (some (i, start, end)) = start ≤ end

follows_previous-Follows :
    (index : ℕ) (previous : Option (ℕ × ℕ × ℕ)) (address : ℕ)
    → follows_previous index previous address ≡ ok tt
    → Follows previous address
unfolding follows_previous
follows_previous-Follows index none address e = tt
follows_previous-Follows index (some (i, start, end)) address e = ground arith

-- An executable segment that contains the entry point.
abbrev pub Holds : ℕ → ProgramHeader → Type 0
Holds entry h =
    (h.flags % 2 ≡ 1) × (h.virtual_address ≤ entry) × (entry < h.virtual_address + h.memory_size)

holds_entry-Holds : (entry : ℕ) (h : ProgramHeader) → holds_entry entry h ≡ ok true → Holds entry h
unfolding holds_entry
holds_entry-Holds entry h e = ground (arith, executable_flag h.flags)

found_by :
    (entry : ℕ) (h : ProgramHeader) (holds old : Bool)
    → holds_entry entry h ≡ ok holds
    → (holds || old) ≡ true
    → Holds entry h ⊎ (old ≡ true)
found_by entry h true old e found = inl (holds_entry-Holds entry h e)
found_by entry h false old e found = inr found

-- The progress behind a `PT_LOAD` header.
pub record Loads (file_size entry index : ℕ) (h : ProgramHeader) (s s' : Progress) : Type 0 where
  pub end : ℕ
  pub checked : IsChecked h file_size end
  pub follows : Follows s.previous h.physical_address
  pub load_count : s'.load_count ≡ s.load_count + 1
  pub load_count_hi : s'.load_count ≤ 4
  pub total : s'.total_load_size ≡ s.total_load_size + h.memory_size
  pub total_hi : s'.total_load_size ≤ 67_108_864
  pub previous : s'.previous ≡ some (index, h.physical_address, page_up end)
  pub entry_found : s'.entry_is_executable ≡ true → Holds entry h ⊎ (s.entry_is_executable ≡ true)

pub load_header-Loads :
    (elf : ElfHeader) (index : ℕ) (h : ProgramHeader) (s s' : Progress)
    → IsTypedHeader h
    → load_header elf index h s ≡ ok s'
    → Loads elf.file_size elf.entry index h s s'
unfolding load_header
load_header-Loads elf index h s s' t e =
    let (count, hc, e1) = >>=-eq-ok (add 16 s.load_count 1) _ e in
    let (u, hr, e2) =
      >>=-eq-ok (reject (ltb 4 count) (Error.too_many_load_segments count 4)) _ e1 in
    let (end, hv, e3) = >>=-eq-ok (validate_load_segment index h elf.file_size) _ e2 in
    let c = validate_load_segment-IsChecked index h elf.file_size t hv in
    let (page_end, ha, e4) =
      >>=-eq-ok (ok_or (align_up end 4096) (Error.segment_memory_range_overflow index)) _ e3 in
    let rounded = align_up-page end (omega arith) in
    let (v, hf, e5) = >>=-eq-ok (follows_previous index s.previous h.physical_address) _ e4 in
    let (total, ht, e6) =
      >>=-eq-ok (ok_or (checked_add s.total_load_size h.memory_size) Error.total_load_size_overflow)
        _ e5 in
    let (w, hl, e7) =
      >>=-eq-ok (reject (ltb 67_108_864 total) (Error.total_load_size_too_large total 67_108_864)) _
        e6 in
    let (holds, hh, e8) = >>=-eq-ok (holds_entry elf.entry h) _ e7 in
    record {
      end = end;
      checked = c;
      follows = follows_previous-Follows index s.previous h.physical_address hf;
      load_count = ground arith;
      load_count_hi = ground arith;
      total = ground arith;
      total_hi = ground arith;
      previous = ground arith;
      entry_found = λ found. found_by elf.entry h holds s.entry_is_executable hh (ground arith);
    }
