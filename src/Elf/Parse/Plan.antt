-- ===== src/Elf/Parse/Plan.antt =====
-- crates/boot-elf/src/lib.rs: the loop over the program headers, and the load plan.
use polytope_os.Base.{ℕ, zero, suc, ◌+◌, ◌≤◌, ◌≡◌, ◌⊎◌, inl, inr, arith}
use polytope_os.Base.{List, [], ◌∷◌, Bool, true, false, Option, none, some, length, All, ◌==◌}
use polytope_os.Base.{ok, ◌>>◌, reject, map_err, map_err_ok, >>=-eq-ok, not}
use polytope_os.Base.Bytes.{IsByte}
use polytope_os.Elf.Error
use polytope_os.Elf.Error.{ParseError}
use polytope_os.Elf.Types.{ElfHeader, ProgramHeader, LoadSegment}
use polytope_os.Elf.Read.{decode_program_header}
use polytope_os.Elf.Read.Ranges.{decode-IsTypedHeader}
use polytope_os.Elf.Segment.{load_segment_from_header}
use polytope_os.Elf.Segment.Valid.{
  IsTypedHeader, segment_of, load_segment_from_header_lem, segment_of-IsLoadable,
}
use polytope_os.Elf.Spec.{IsLoadable, page_up, AreDisjoint, total_size, HoldsEntry, IsPlan}
use polytope_os.Elf.Parse.{
  Progress, start, load_header, step_header, check_headers, validate_program_headers,
}
use polytope_os.Elf.Parse.Step.{Follows, Loads, load_header-Loads}

-- The segments of a table of program headers from an index on, with as many headers as rounds.
pub data Table (bytes : List ℕ) (offset : ℕ) : ℕ → ℕ → List LoadSegment → Type 0 where
  done : {index : ℕ} → Table bytes offset zero index []
  skip :
      {rounds index : ℕ} {plan : List LoadSegment} (h : ProgramHeader)
      → decode_program_header bytes offset index ≡ ok h
      → h.kind ≡ 0
      → Table bytes offset rounds (index + 1) plan
      → Table bytes offset (suc rounds) index plan
  load :
      {rounds index : ℕ} {plan : List LoadSegment} (h : ProgramHeader) (segment : LoadSegment)
      → decode_program_header bytes offset index ≡ ok h
      → h.kind ≡ 1
      → load_segment_from_header bytes index h ≡ ok segment
      → Table bytes offset rounds (index + 1) plan
      → Table bytes offset (suc rounds) index (segment ∷ plan)

-- What the rest of the loop adds to the progress `s`.
pub record Extends (bytes : List ℕ) (entry : ℕ) (s s' : Progress) (plan : List LoadSegment)
    : Type 0 where
  pub loadable : All (IsLoadable bytes) plan
  pub follows : All (λ t. Follows s.previous t.physical_address) plan
  pub disjoint : AreDisjoint plan
  pub load_count : s'.load_count ≡ s.load_count + length plan
  pub load_count_hi : s.load_count ≤ 4 → s'.load_count ≤ 4
  pub total : s'.total_load_size ≡ s.total_load_size + total_size plan
  pub total_hi : s.total_load_size ≤ 67_108_864 → s'.total_load_size ≤ 67_108_864
  pub entry_found :
      s'.entry_is_executable ≡ true → (s.entry_is_executable ≡ true) ⊎ HoldsEntry entry plan

-- What a segment follows, later segments follow too.
Follows-later :
    (previous : Option (ℕ × ℕ × ℕ)) (a e : ℕ) (plan : List LoadSegment)
    → Follows previous a
    → a ≤ e
    → All (λ t. e ≤ t.physical_address) plan
    → All (λ t. Follows previous t.physical_address) plan
Follows-later previous a e [] f h k = tt
Follows-later none a e (t ∷ ts) f h k = (tt, Follows-later none a e ts f h k.1)
Follows-later (some (i, b, c)) a e (t ∷ ts) f h k =
    (omega arith, Follows-later (some (i, b, c)) a e ts f h k.1)

-- The checks behind the loop.
accepted :
    (elf : ElfHeader) (s : Progress) (count : ℕ)
    → (do
      reject (s.load_count == 0) Error.no_load_segments
      reject (not s.entry_is_executable) (Error.entry_not_executable elf.entry)
      ok s.load_count)
      ≡ ok count
    → (1 ≤ s.load_count) × (s.entry_is_executable ≡ true) × (s.load_count ≡ count)
accepted elf s count e = ground arith

module _ (bytes : List ℕ) (elf : ElfHeader) (size : elf.file_size ≡ length bytes) where
  -- One loadable header in front of a plan.
  Extends-cons :
      (index : ℕ) (h : ProgramHeader) (s s1 s' : Progress) (plan : List LoadSegment)
      → Loads (length bytes) elf.entry index h s s1
      → Extends bytes elf.entry s1 s' plan
      → Extends bytes elf.entry s s' (segment_of bytes index h ∷ plan)
  Extends-cons index h s s1 s' plan l x =
      let behind : All (λ t. page_up l.end ≤ t.physical_address) plan =
        rw l.previous at x.follows in
      let ends : l.end ≡ h.physical_address + h.memory_size = l.checked.end_lem in
      record {
        loadable = (segment_of-IsLoadable bytes index h l.checked, x.loadable);
        follows = (
          l.follows,
          Follows-later s.previous h.physical_address (page_up l.end) plan l.follows (omega arith)
              behind,
        );
        disjoint = (rw ends at behind, x.disjoint);
        load_count = omega (arith, l.load_count, x.load_count);
        load_count_hi = λ _. x.load_count_hi l.load_count_hi;
        total = omega (arith, l.total, x.total);
        total_hi = λ _. x.total_hi l.total_hi;
        entry_found = λ found. elim (x.entry_found found) [
          | inl early ↦ elim (l.entry_found early) [
            | inl holds ↦ inr (inl (ground (arith, l.checked)))
            | inr before ↦ inl before
          ]
          | inr later ↦ inr (inr later)
        ];
      }

  pub step_cases :
      (index : ℕ) (h : ProgramHeader) (s s1 : Progress)
      → step_header elf index h s ≡ ok s1
      → (h.kind ≡ 0) × (s1 ≡ s) ⊎ (h.kind ≡ 1) × (load_header elf index h s ≡ ok s1)
  unfolding step_header
  step_cases index h s s1 e = ground arith

  Extends-same :
      (s1 s s' : Progress) (plan : List LoadSegment)
      → s1 ≡ s
      → Extends bytes elf.entry s1 s' plan
      → Extends bytes elf.entry s s' plan
  Extends-same s1 s s' plan e x = rw e at x

  loads :
      (index : ℕ) (h : ProgramHeader) (s s1 : Progress)
      → IsTypedHeader h
      → load_header elf index h s ≡ ok s1
      → Loads (length bytes) elf.entry index h s s1
  loads index h s s1 t e = rw size at (load_header-Loads elf index h s s1 t e)

  pub check_headers-Table :
      (rounds index : ℕ) (s s' : Progress)
      → All IsByte bytes
      → check_headers rounds index bytes elf s ≡ ok s'
      → (plan : List LoadSegment) × Table bytes elf.program_header_offset rounds index plan
        × Extends bytes elf.entry s s' plan
  unfolding check_headers
  check_headers-Table zero index s s' b e =
      let same : s ≡ s' = ground arith in
      (
        [],
        done,
        rw (← same) (record {
          loadable = tt;
          follows = tt;
          disjoint = tt;
          load_count = omega arith;
          load_count_hi = λ h. h;
          total = omega arith;
          total_hi = λ h. h;
          entry_found = inl;
        }),
      )
  check_headers-Table (suc rounds) index s s' b e =
      let (h, hd, e1) =
        >>=-eq-ok
          (map_err
            (λ _.
              Error.program_header_table_out_of_bounds elf.program_header_table_end elf.file_size)
            (decode_program_header bytes elf.program_header_offset index))
          _ e in
      let (s1, hs, e2) = >>=-eq-ok (step_header elf index h s) _ e1 in
      let decoded : decode_program_header bytes elf.program_header_offset index ≡ ok h =
        map_err_ok _ _ hd in
      let (plan, table, extends) = check_headers-Table rounds (index + 1) s1 s' b e2 in
      elim (step_cases index h s s1 hs) [
        | inl (null, same) ↦
            (plan, skip h decoded null table, Extends-same s1 s s' plan same extends)
        | inr (kind, loaded) ↦
            let l =
              loads index h s s1
                (decode-IsTypedHeader bytes elf.program_header_offset index b decoded) loaded in
            (
              segment_of bytes index h ∷ plan,
              load h (segment_of bytes index h) decoded kind
                  (load_segment_from_header_lem bytes index h l.checked) table,
              Extends-cons index h s s1 s' plan l extends,
            )
      ]

  -- The whole loop, from the first header on.
  pub validate_program_headers-IsPlan :
      (count : ℕ)
      → All IsByte bytes
      → validate_program_headers bytes elf ≡ ok count
      → (plan : List LoadSegment) × Table bytes elf.program_header_offset elf.program_header_count 0
          plan
        × IsPlan bytes elf.entry plan
        × (length plan ≡ count)
  unfolding validate_program_headers
  validate_program_headers-IsPlan count b e =
      let (s, hs, e1) = >>=-eq-ok (check_headers elf.program_header_count 0 bytes elf start) _ e in
      let (plan, table, x) = check_headers-Table elf.program_header_count 0 start s b hs in
      let result : (1 ≤ s.load_count) × (s.entry_is_executable ≡ true) × (s.load_count ≡ count) =
        accepted elf s count e1 in
      (
        plan,
        table,
        record {
          loadable = x.loadable;
          disjoint = x.disjoint;
          count_lo = omega (arith, x.load_count);
          count_hi = omega (arith, x.load_count, x.load_count_hi (omega arith));
          budget = omega (arith, x.total, x.total_hi (omega arith));
          holds_entry = found plan (x.entry_found result.1);
        },
        omega (arith, x.load_count),
      )
    where
      found :
          (plan : List LoadSegment)
          → ◌≡◌ {A = Bool} false true ⊎ HoldsEntry elf.entry plan
          → HoldsEntry elf.entry plan
      found plan (inl f) = cc
      found plan (inr h) = h
