-- ===== src/Image/Payload/Correct.antt =====
-- crates/xtask/src/image.rs: `validate_uefi_loader` as a whole.
use polytope_os.Base.{
  ℕ, ◌+◌, ◌^◌, ◌≤◌, ◌<◌, ◌≡◌, ◌≢◌, ◌↔◌, arith, List, [], ◌∷◌, ◌++◌, All, length, take, slice,
  slice_prefix, list_eq, list_eq_iff,
}
use polytope_os.Base.{
  Option, none, some, ok, panic, Option-cases, inl, inr, true, false, match_option,
}
use polytope_os.Base.Bytes.{IsByte}
use polytope_os.Harness.Text.{codes}
use polytope_os.Image.Read.{read_u16, read_u32}
use polytope_os.Image.Payload.{validate_uefi_loader}
use polytope_os.Image.Fat.NoPanic.{read_u32-lt}

pub slice_test_iff :
    (o : Option (List ℕ)) (expected : List ℕ)
    → (match_option false (λ found. list_eq found expected) o ≡ true) ↔ (o ≡ some expected)
slice_test_iff none expected = (λ e. cc, λ e. cc)
slice_test_iff (some found) expected = ground (arith, list_eq_iff found expected)

-- A PE32+ image for x86-64 whose subsystem is a UEFI application, with its PE header at an offset.
pub record HasPe (bytes : List ℕ) (pe_offset : ℕ) : Type 0 where
  pub size : 0x40 ≤ length bytes
  pub dos : take 2 bytes ≡ codes "MZ"
  pub offset_entry : read_u32 bytes 0x3c ≡ some pe_offset
  pub signature : slice bytes pe_offset (pe_offset + 4) ≡ some (codes "PE" ++ 0 ∷ 0 ∷ [])
  pub machine : read_u16 bytes (pe_offset + 4) ≡ some 0x8664
  pub magic : read_u16 bytes (pe_offset + 24) ≡ some 0x20b
  pub subsystem : read_u16 bytes (pe_offset + 24 + 68) ≡ some 10

pub record IsUefiLoader (bytes : List ℕ) : Type 0 where
  pub pe_offset : ℕ
  pub has_pe : HasPe bytes pe_offset

pe_header_iff :
    (bytes : List ℕ) (pe_offset : ℕ)
    → read_u32 bytes 0x3c ≡ some pe_offset
    → pe_offset < 2 ^ 32
    → (validate_uefi_loader bytes ≡ ok tt) ↔ HasPe bytes pe_offset
unfolding validate_uefi_loader
pe_header_iff bytes pe_offset found small = ground (
  arith,
  found,
  slice_prefix bytes 2,
  list_eq_iff (take 2 bytes) (codes "MZ"),
  slice_test_iff (slice bytes pe_offset (pe_offset + 4)) (codes "PE" ++ 0 ∷ 0 ∷ []),
)

uefi_loader-ne-panic_at :
    (bytes : List ℕ) (pe_offset : ℕ)
    → read_u32 bytes 0x3c ≡ some pe_offset
    → pe_offset < 2 ^ 32
    → validate_uefi_loader bytes ≢ panic
unfolding validate_uefi_loader
uefi_loader-ne-panic_at bytes pe_offset found small h = ground (arith, found, slice_prefix bytes 2)

-- Without a PE header offset the loader is refused.
no_offset :
    (bytes : List ℕ)
    → read_u32 bytes 0x3c ≡ none
    → (validate_uefi_loader bytes ≢ panic) × (validate_uefi_loader bytes ≢ ok tt)
unfolding validate_uefi_loader
no_offset bytes missing =
    (λ h. ground (arith, missing, slice_prefix bytes 2), λ h. ground (arith, missing))

same_offset :
    (bytes : List ℕ) {p : ℕ} (h : IsUefiLoader bytes) → read_u32 bytes 0x3c ≡ some p → HasPe bytes p
same_offset bytes {p} h found =
    let same : h.pe_offset ≡ p = ground (arith, h.has_pe.offset_entry, found) in rw same at h.has_pe

-- For a list of bytes, `validate_uefi_loader` does not panic, and accepts just the lists that hold a PE
-- header, at the offset that the DOS header gives, of a PE32+ image for x86-64 whose subsystem is a
-- UEFI application.
pub efi_application_iff :
    (bytes : List ℕ)
    → All IsByte bytes
    → (validate_uefi_loader bytes ≢ panic)
      × ((validate_uefi_loader bytes ≡ ok tt) ↔ IsUefiLoader bytes)
efi_application_iff bytes b = elim (Option-cases (read_u32 bytes 0x3c)) [
  | inl missing ↦ (
    (no_offset bytes missing).0,
    (
      (λ e. absurd ((no_offset bytes missing).1 e)),
      (λ h. absurd (ground (arith, missing, h.has_pe.offset_entry))),
    ),
  )
  | inr (pe_offset, found) ↦
      let small = read_u32-lt bytes 0x3c b found in
      (
        uefi_loader-ne-panic_at bytes pe_offset found small,
        (
          (λ e. record {
            pe_offset = pe_offset;
            has_pe = (pe_header_iff bytes pe_offset found small).0 e;
          }),
          (λ h. (pe_header_iff bytes pe_offset found small).1 (same_offset bytes h found)),
        ),
      )
]
