-- ===== src/Contract/Wire/RoundTrip.antt =====
-- crates/boot-contract/src/lib.rs: `encode`, and `encode` with `parse`.
use polytope_os.Base.{ℕ, ◌≤◌, ◌≡◌, refl, sym, ◌∙◌, arith, ltb}
use polytope_os.Base.{List, [], ◌++◌, append-nil, All, length, length-append, take, drop}
use polytope_os.Base.{length-take, length-drop}
use polytope_os.Base.{ok, ◌>>◌, slice_prefix, le→ltb}
use polytope_os.Base.{take-append, drop-append, Result-cases, inl, inr, reject, map_err, lt→ltb}
use polytope_os.Base.Bytes.{IsByte}
use polytope_os.Contract.Error.{invalid, buffer_too_small}
use native.Mathlib.Decide.{dec_lt}
use polytope_os.Contract.Types.{BootInfo, ValidatedBootInfo}
use polytope_os.Contract.Typed.{IsTyped}
use polytope_os.Contract.Layout.{layout, length-layout}
use polytope_os.Contract.Writer.{writer, write_info}
use polytope_os.Contract.Writer.Rules.{Writes-info}
use polytope_os.Contract.Validate.{validate_ref}
use polytope_os.Contract.Validate.Correct.{validate_ref_iff}
use polytope_os.Contract.Wire.{parse, encode}
use polytope_os.Contract.Wire.Parse.{parse_iff, parse-layout, validate_iff}

write_all :
    (info : BootInfo) (window : List ℕ)
    → IsTyped info
    → length window ≡ 4176
    → write_info info (writer window)
      ≡ ok (record { bytes = layout info; position = length (layout info) })
write_all info window t l = rw (append-nil window) at (
    rw (append-nil (layout info)) at
      ((Writes-info info).run [] window [] (l ∙ sym (length-layout info t))))

-- For a contract whose fields are in the range of their types, `encode` validates, asks for room, and
-- then puts the layout of the contract over the first 4176
-- bytes of the output and keeps the others; no write panics.
pub encode_lem :
    (info : BootInfo) (output : List ℕ)
    → IsTyped info
    → encode info output ≡ (do
      map_err invalid (validate_ref info)
      reject (ltb (length output) 4176) (buffer_too_small (length output) 4176)
      ok (4176, layout info ++ drop 4176 output))
unfolding encode
encode_lem info output t = elim (Result-cases (validate_ref info)) [
  | inl (u, e) ↦ rw e (elim (dec_lt (length output) 4176) [
    | yes short ↦ rw (lt→ltb (length output) 4176 short)
    | no long ↦ rw (
      le→ltb (length output) 4176 (omega arith),
      slice_prefix output 4176 (omega arith),
      write_all info (take 4176 output) t (omega (arith, length-take 4176 output)),
      length-layout info t,
    )
  ])
  | inr (inl (x, e)) ↦ rw e
  | inr (inr e) ↦ rw e
]

pub encode-eq-ok :
    (info : BootInfo) (output out : List ℕ) (n : ℕ)
    → IsTyped info
    → encode info output ≡ ok (n, out)
    → (validate_ref info ≡ ok tt)
      × (4176 ≤ length output)
      × (n ≡ 4176)
      × (out ≡ layout info ++ drop 4176 output)
encode-eq-ok info output out n t e =
    ground (arith, encode_lem info output t, Result-cases (validate_ref info))

-- For a contract whose fields are in the range of their types, what `encode` wrote is parsed as the
-- same contract, it has 4176 bytes, and the output behind it is unchanged.
pub parse-encode :
    (info : BootInfo) (output out : List ℕ) (n : ℕ)
    → IsTyped info
    → encode info output ≡ ok (n, out)
    → (n ≡ 4176)
      × (parse (take n out) ≡ ok (record { info = info }))
      × (drop n out ≡ drop n output)
      × (length out ≡ length output)
parse-encode info output out n t e =
    let (r, room, size, written) = encode-eq-ok info output out n t e in
    let l = length-layout info t in
    let valid = (validate_ref_iff info t).0 r in
    let parsed : parse (layout info) ≡ ok (record { info = info }) =
      parse-layout info t ∙ (validate_iff info (record { info = info }) t).1 (refl, valid) in
    rw
      (
        size,
        written,
        take-append (layout info) (drop 4176 output) 4176 (sym l),
        drop-append (layout info) (drop 4176 output) 4176 (sym l),
      )
      (
        refl,
        parsed,
        refl,
        omega (arith, length-append (layout info) (drop 4176 output), length-drop 4176 output),
      )

-- A contract that `parse` accepted is encoded, into an output of at least 4176 bytes, as the bytes that
-- it was parsed from, and the output behind them is unchanged.
pub encode-parse :
    (bytes output : List ℕ) (v : ValidatedBootInfo)
    → All IsByte bytes
    → 4176 ≤ length output
    → parse bytes ≡ ok v
    → encode v.info output ≡ ok (4176, bytes ++ drop 4176 output)
encode-parse bytes output v b room e =
    let (t, valid, joined) = (parse_iff bytes v b).0 e in
    rw (
      encode_lem v.info output t,
      (validate_ref_iff v.info t).1 valid,
      le→ltb (length output) 4176 room,
      joined,
    )
