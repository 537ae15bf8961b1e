-- ===== src/Contract/Wire/Parse.antt =====
-- crates/boot-contract/src/lib.rs: `prevalidate` and `parse` on lists of bytes.
use polytope_os.Base.{ℕ, ◌-◌, ◌≤◌, ◌<◌, ◌≡◌, ◌≢◌, ◌↔◌, ◌⊎◌, inl, inr, refl, sym, ap, ◌∙◌, arith}
use polytope_os.Base.{List, [], ◌++◌, append-nil, All, length, length-append, not, ltb, ◌==◌}
use polytope_os.Base.{
  Result, ok, err, panic, ◌>>=◌, ◌>>◌, reject, >>=-eq-ok, >>=-ne-panic, Result-cases,
}
use polytope_os.Base.{lt→ltb, le→ltb}
use polytope_os.Base.Bytes.{IsByte, split}
use native.Mathlib.Decide.{dec_lt, ℕ_discrete}
use polytope_os.Contract.Error
use polytope_os.Contract.Error.{ValidationError}
use polytope_os.Contract.Types.{BootHeader, BootInfo, PrevalidatedHeader, ValidatedBootInfo}
use polytope_os.Contract.Typed.{IsTypedHeader, IsTyped}
use polytope_os.Contract.Layout.{
  platform_layout, scenario_layout, regions_layout, header_layout, length-header_layout, layout,
  length-layout,
}
use polytope_os.Contract.Layout.Onto.{header_of, info_of}
use polytope_os.Contract.Reader.{Reader, reader, read_header, read_info}
use polytope_os.Contract.Reader.Rules.{Reads-header, Reads-info}
use polytope_os.Contract.Validate.{validate_header, validate_ref, validate}
use polytope_os.Contract.Validate.Spec.{IsValid}
use polytope_os.Contract.Validate.Correct.{validate_ref_iff, validate_ref-ne-panic}
use polytope_os.Contract.Wire.{prevalidate, parse}

-- The checks of `prevalidate` behind its reads, by way of `validate_header`.
unfoldable pub checked : BootHeader → ℕ → Result ValidationError PrevalidatedHeader
checked header n = do
  validate_header header
  reject (ltb n header.total_size) (Error.truncated n header.total_size)
  reject (not (n == header.total_size)) (Error.length_mismatch n header.total_size)
  ok (record {
    abi_major = header.abi_major;
    abi_minor = header.abi_minor;
    total_size = header.total_size;
    memory_region_count = header.memory_region_count;
  })

prevalidate-checked :
    (bytes : List ℕ) {h : BootHeader} {r : Reader}
    → 32 ≤ length bytes
    → read_header (reader bytes) ≡ ok (h, r)
    → prevalidate bytes ≡ checked h (length bytes)
unfolding prevalidate checked validate_header
prevalidate-checked bytes enough e = rw (le→ltb (length bytes) 32 enough, e) (ground arith)

pub prevalidate_layout :
    (h : BootHeader) (rest : List ℕ)
    → IsTypedHeader h
    → prevalidate (header_layout h ++ rest) ≡ checked h (length (header_layout h ++ rest))
prevalidate_layout h rest t =
    prevalidate-checked (header_layout h ++ rest)
      (omega (arith, length-append (header_layout h) rest, length-header_layout h t.magic_length))
      ((Reads-header h t).run [] rest)

abbrev PrevalidateCases : List ℕ → Type 0
PrevalidateCases bytes =
    (length bytes < 32) × (prevalidate bytes ≡ err (Error.truncated (length bytes) 32))
    ⊎ (32 ≤ length bytes) × ((h : BootHeader) × (prevalidate bytes ≡ checked h (length bytes)))

-- Whatever is longer than a header begins with one.
prevalidate_cases : (bytes : List ℕ) → All IsByte bytes → PrevalidateCases bytes
unfolding prevalidate
prevalidate_cases bytes b = elim (dec_lt (length bytes) 32) [
  | yes short ↦ inl (short, rw (lt→ltb (length bytes) 32 short))
  | no long ↦
      let s = split 32 (length bytes - 32) bytes (omega arith) b in
      let (h, joined, t) = header_of s.front s.length_front s.front_bytes in
      let whole : bytes ≡ header_layout h ++ s.rest = s.joined ∙ ap (λ x. x ++ s.rest) joined in
      inr (omega arith, (h, rw (← whole) at (prevalidate_layout h s.rest t)))
]

checked-length : (h : BootHeader) (n : ℕ) {u : PrevalidatedHeader} → checked h n ≡ ok u → n ≡ 4176
unfolding checked validate_header
checked-length h n e = ground arith

checked-ne-panic : (h : BootHeader) (n : ℕ) → checked h n ≢ panic
unfolding checked validate_header
checked-ne-panic h n = ground arith

-- On 4176 bytes the checks are those of `validate_header`.
checked-exact :
    (h : BootHeader) → (u : PrevalidatedHeader) × (checked h 4176 ≡ (do validate_header h; ok u))
unfolding checked validate_header
checked-exact h = (
  record {
    abi_major = h.abi_major;
    abi_minor = h.abi_minor;
    total_size = h.total_size;
    memory_region_count = h.memory_region_count;
  },
  ground arith,
)

-- A header that `validate_header` refuses is refused with the same error by `validate`.
validate_header_first :
    (info : BootInfo) (u : PrevalidatedHeader)
    → ((do validate_header info.header; ok u) >>= λ _. validate info) ≡ validate info
unfolding validate validate_ref
validate_header_first info u = elim (Result-cases (validate_header info.header)) [
  | inl (v, e) ↦ rw e
  | inr (inl (x, e)) ↦ rw e
  | inr (inr e) ↦ rw e
]

parse-run :
    (bytes : List ℕ) (info : BootInfo) {r : Reader}
    → read_info (reader bytes) ≡ ok (info, r)
    → r.position ≡ 4176
    → parse bytes ≡ (prevalidate bytes >>= λ _. validate info)
unfolding parse
parse-run bytes info e p = rw (e, p)

-- On the layout of typed fields `parse` is `validate`.
pub parse-layout : (info : BootInfo) → IsTyped info → parse (layout info) ≡ validate info
parse-layout info t =
    let (u, exact) = checked-exact info.header in
    let h = info.header in
    let rest =
      platform_layout info.platform
      ++ (scenario_layout info.scenario ++ regions_layout info.memory_regions) in
    let l : length (header_layout h ++ rest) ≡ 4176 = unfold layout in length-layout info t in
    let pre : prevalidate (header_layout h ++ rest) ≡ (do validate_header h; ok u) =
      rw (prevalidate_layout h rest t.header, l) exact in
    parse-run (layout info) info (info_run info t) (length-layout info t)
    ∙ (unfold layout in rw pre (validate_header_first info u))
  where
    info_run :
        (i : BootInfo)
        → IsTyped i
        → read_info (reader (layout i))
          ≡ ok (i, record { bytes = layout i; position = length (layout i) })
    info_run i ti = rw append-nil at ((Reads-info i ti).run [] [])

parse-prevalidate :
    (bytes : List ℕ) (v : ValidatedBootInfo)
    → parse bytes ≡ ok v
    → (u : PrevalidatedHeader) × (prevalidate bytes ≡ ok u)
unfolding parse
parse-prevalidate bytes v e = let (u, pre, rest) = >>=-eq-ok (prevalidate bytes) _ e in (u, pre)

-- An accepted byte list has the length of the ABI.
parse-length :
    (bytes : List ℕ) (v : ValidatedBootInfo)
    → All IsByte bytes
    → parse bytes ≡ ok v
    → length bytes ≡ 4176
parse-length bytes v b e =
    let (u, pre) = parse-prevalidate bytes v e in
    elim (prevalidate_cases bytes b) [
      | inl (short, p) ↦ cc
      | inr (long, (h, p)) ↦ checked-length h (length bytes) (sym p ∙ pre)
    ]

pub validate_iff :
    (info : BootInfo) (v : ValidatedBootInfo)
    → IsTyped info
    → (validate info ≡ ok v) ↔ ((v.info ≡ info) × IsValid info)
unfolding validate
validate_iff info v t = (
  λ e.
      let (u, r, e1) = >>=-eq-ok (validate_ref info) _ e in
      (sym (ok_info info v e1), (validate_ref_iff info t).0 r),
  λ (same, valid). rw ((validate_ref_iff info t).1 valid) (ap ok (info_eq v info same)),
)
  where
    ok_info :
        (i : BootInfo) (w : ValidatedBootInfo)
        → ◌≡◌ {A = Result ValidationError ValidatedBootInfo} (ok (record { info = i })) (ok w)
        → i ≡ w.info
    ok_info i w e = ground arith

    info_eq : (w : ValidatedBootInfo) (i : BootInfo) → w.info ≡ i → record { info = i } ≡ w
    info_eq w i e = ground arith

-- For every list of bytes, `parse` accepts it as a contract exactly when the contract is valid, its
-- fields are in the range of their types, and the bytes are its layout.
pub parse_iff :
    (bytes : List ℕ) (v : ValidatedBootInfo)
    → All IsByte bytes
    → (parse bytes ≡ ok v) ↔ (IsTyped v.info × IsValid v.info × (bytes ≡ layout v.info))
parse_iff bytes v b = (
  λ e.
      let (info, joined, t) = info_of bytes (parse-length bytes v b e) b in
      let (same, valid) =
        (validate_iff info v t).0 (sym (parse-layout info t) ∙ (rw joined at e)) in
      rw same (t, valid, joined),
  λ (t, valid, joined).
      rw joined (parse-layout v.info t ∙ (validate_iff v.info v t).1 (refl, valid)),
)

-- For every list of bytes, `parse` returns a contract or an error and never panics.
pub parse-ne-panic : (bytes : List ℕ) → All IsByte bytes → parse bytes ≢ panic
parse-ne-panic bytes b = elim (ℕ_discrete (length bytes) 4176) [
  | yes l ↦
      let (info, joined, t) = info_of bytes l b in
      rw (joined, parse-layout info t)
        (unfold validate in
          >>=-ne-panic (validate_ref info) _ (validate_ref-ne-panic info t.regions_length)
            λ _ _ p. cc)
  | no other ↦
      unfold parse in
      >>=-ne-panic (prevalidate bytes) _ (no_panic (prevalidate_cases bytes b))
        λ u pre _. absurd (wrong_length other u pre (prevalidate_cases bytes b))
]
  where
    no_panic : PrevalidateCases bytes → prevalidate bytes ≢ panic
    no_panic (inl (s, p)) q = cc
    no_panic (inr (l, (h, p))) q = checked-ne-panic h (length bytes) (sym p ∙ q)

    wrong_length :
        length bytes ≢ 4176
        → (u : PrevalidatedHeader) → prevalidate bytes ≡ ok u
        → PrevalidateCases bytes
        → ⊥
    wrong_length ne u pre (inl (s, p)) = cc
    wrong_length ne u pre (inr (l, (h, p))) = ne (checked-length h (length bytes) (sym p ∙ pre))
