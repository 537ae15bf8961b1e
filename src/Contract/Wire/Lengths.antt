-- ===== src/Contract/Wire/Lengths.antt =====
-- crates/boot-contract/src/lib.rs: `parse` on a contract that is cut, or that bytes follow.
use polytope_os.Base.{ℕ, ◌+◌, ◌-◌, ◌<◌, ◌≡◌, ◌≢◌, ap, ◌∙◌, arith, ltb}
use polytope_os.Base.{List, ◌∷◌, ◌++◌, All, length, length-append, take}
use polytope_os.Base.{length-take}
use polytope_os.Base.{ok, err, le→ltb}
use polytope_os.Base.{append_assoc, take-append_beyond, if◌then◌else◌, lt→ltb}
use polytope_os.Base.Bytes.{IsByte}
use polytope_os.Contract.Error
use polytope_os.Contract.Error.{EncodeError, invalid, buffer_too_small}
use native.Mathlib.Decide.{dec_lt}
use polytope_os.Contract.Types.{BootHeader, BootInfo, ValidatedBootInfo}
use polytope_os.Contract.Typed.{IsTypedHeader}
use polytope_os.Contract.Layout.{
  layout, length-layout, header_layout, length-header_layout, platform_layout, scenario_layout,
  regions_layout,
}
use polytope_os.Contract.Validate.Spec.{IsValidHeader}
use polytope_os.Contract.Validate.Fields.{validate_header_iff}
use polytope_os.Contract.Wire.{prevalidate, parse}
use polytope_os.Contract.Wire.Parse.{parse_iff, prevalidate_layout, checked}

-- A header that is valid, on a byte list of another length.
checked-other_length :
    (h : BootHeader) (n : ℕ)
    → IsTypedHeader h
    → IsValidHeader h
    → n ≢ 4176
    → checked h n
      ≡ err (if ltb n 4176 then Error.truncated n 4176 else Error.length_mismatch n 4176)
unfolding checked
checked-other_length h n t v ne = rw ((validate_header_iff h t).1 v) (ground arith)

parse-err :
    (bytes : List ℕ) {e : Error.ValidationError} → prevalidate bytes ≡ err e → parse bytes ≡ err e
unfolding parse
parse-err bytes h = rw h

prevalidate_short :
    (bytes : List ℕ)
    → length bytes < 32
    → prevalidate bytes ≡ err (Error.truncated (length bytes) 32)
unfolding prevalidate
prevalidate_short bytes h = rw (lt→ltb (length bytes) 32 h)

-- The layout behind the header.
abbrev body : BootInfo → List ℕ
body info =
    platform_layout info.platform
    ++ (scenario_layout info.scenario ++ regions_layout info.memory_regions)

-- A byte list that begins with a valid header and has another length.
parse_other_length :
    (h : BootHeader) (rest : List ℕ) (n : ℕ)
    → IsTypedHeader h
    → IsValidHeader h
    → length (header_layout h ++ rest) ≡ n
    → n ≢ 4176
    → parse (header_layout h ++ rest)
      ≡ err (if ltb n 4176 then Error.truncated n 4176 else Error.length_mismatch n 4176)
parse_other_length h rest n t v l ne =
    parse-err (header_layout h ++ rest)
      (prevalidate_layout h rest t ∙ ap (checked h) l ∙ checked-other_length h n t v ne)

module _ (bytes : List ℕ) (v : ValidatedBootInfo) (b : All IsByte bytes)
    (e : parse bytes ≡ ok v) where
  -- Every proper prefix of an accepted byte list is refused as truncated, with the length that was
  -- missed: the header's below 32 bytes, the contract's from there on.
  pub parse_truncated :
      (n : ℕ)
      → n < 4176
      → parse (take n bytes) ≡ err (Error.truncated n (if ltb n 32 then 32 else 4176))
  parse_truncated n h =
      let (t, valid, joined) = (parse_iff bytes v b).0 e in
      let l : length bytes ≡ 4176 = rw joined (length-layout v.info t) in
      let size : length (take n bytes) ≡ n = omega (arith, length-take n bytes) in
      elim (dec_lt n 32) [
        | yes short ↦
            rw (lt→ltb n 32 short) (
              rw size at
                (parse-err (take n bytes) (prevalidate_short (take n bytes) (omega arith))))
        | no long ↦
            let lh = length-header_layout v.info.header t.header.magic_length in
            let cut =
              take-append_beyond (header_layout v.info.header) (body v.info) n (omega arith) in
            let whole : take n bytes
                ≡ header_layout v.info.header
                  ++ take (n - length (header_layout v.info.header)) (body v.info) =
              rw joined (unfold layout in cut) in
            rw (le→ltb n 32 (omega arith), whole)
              (parse_other_length v.info.header _ n t.header valid.header (rw (← whole) size)
                  (omega arith)
                ∙ rw (lt→ltb n 4176 h))
      ]

  -- An accepted byte list with more bytes behind it is refused for its length.
  pub parse_extended :
      (x : ℕ) (more : List ℕ)
      → parse (bytes ++ (x ∷ more)) ≡ err (Error.length_mismatch (4176 + length (x ∷ more)) 4176)
  parse_extended x more =
      let (t, valid, joined) = (parse_iff bytes v b).0 e in
      let l : length bytes ≡ 4176 = rw joined (length-layout v.info t) in
      let size : length (bytes ++ (x ∷ more)) ≡ 4176 + length (x ∷ more) =
        omega (arith, length-append bytes (x ∷ more)) in
      let whole : bytes ++ (x ∷ more) ≡ header_layout v.info.header ++ (body v.info ++ (x ∷ more)) =
        rw joined (unfold layout in append_assoc (header_layout v.info.header) _ _) in
      rw whole (
        parse_other_length v.info.header _ (4176 + length (x ∷ more)) t.header valid.header
          (rw (← whole) size) (omega arith)
        ∙ rw (le→ltb (4176 + length (x ∷ more)) 4176 (omega arith)))
