-- ===== src/Elf/Header/Facts.antt =====
-- crates/boot-elf/src/lib.rs: what follows of a header from the checks.
use polytope_os.Base.{ℕ, zero, suc, ◌+◌, ◌*◌, ◌≤◌, ◌<◌, ◌≡◌, ◌≢◌, refl, arith}
use polytope_os.Base.{List, [], ◌∷◌, length, get_elem?, slice, slice-eq-some, some}
use polytope_os.Base.{ok, panic, >>=-eq-ok, >>=-ne-panic}
use polytope_os.Elf.Types.{ElfHeader}
use polytope_os.Elf.Read.{read_array, read_u16, read_u32, read_u64}
use polytope_os.Elf.Header.{
  validate_identification, Fields, read_fields, check_fields, parse_header,
}

pub record IsHeader (n : ℕ) (h : ElfHeader) : Type 0 where
  pub file_size : h.file_size ≡ n
  pub table_lo : 64 ≤ h.program_header_offset
  pub table_hi : h.program_header_offset + h.program_header_count * 56 ≤ n
  pub count_lo : 1 ≤ h.program_header_count
  pub count_hi : h.program_header_count ≤ 8
  pub entry_lo : 0x20_0000 ≤ h.entry
  pub entry_hi : h.entry < 0x4000_0000

check_fields-IsHeader :
    (f : Fields) (n : ℕ) {h : ElfHeader} → check_fields f n ≡ ok h → IsHeader n h
unfolding check_fields
check_fields-IsHeader f n e = ground arith

pub parse_header-IsHeader :
    (bytes : List ℕ) {h : ElfHeader} → parse_header bytes ≡ ok h → IsHeader (length bytes) h
unfolding parse_header
parse_header-IsHeader bytes e =
    let (f, hf, hc) = >>=-eq-ok (read_fields bytes) _ e in check_fields-IsHeader f (length bytes) hc

read_array-ne-panic : (n : ℕ) (bytes : List ℕ) (offset : ℕ) → read_array n bytes offset ≢ panic
unfolding read_array slice
read_array-ne-panic n bytes offset = ground arith

u16-ne-panic : (bytes : List ℕ) (offset : ℕ) → read_u16 bytes offset ≢ panic
unfolding read_u16
u16-ne-panic bytes offset =
    >>=-ne-panic (read_array 2 bytes offset) _ (read_array-ne-panic 2 bytes offset) λ _ _ p. cc

u32-ne-panic : (bytes : List ℕ) (offset : ℕ) → read_u32 bytes offset ≢ panic
unfolding read_u32
u32-ne-panic bytes offset =
    >>=-ne-panic (read_array 4 bytes offset) _ (read_array-ne-panic 4 bytes offset) λ _ _ p. cc

u64-ne-panic : (bytes : List ℕ) (offset : ℕ) → read_u64 bytes offset ≢ panic
unfolding read_u64
u64-ne-panic bytes offset =
    >>=-ne-panic (read_array 8 bytes offset) _ (read_array-ne-panic 8 bytes offset) λ _ _ p. cc

read_fields-ne-panic : (bytes : List ℕ) → read_fields bytes ≢ panic
unfolding read_fields
read_fields-ne-panic bytes = ground (
  arith,
  u16-ne-panic bytes 16,
  u16-ne-panic bytes 18,
  u32-ne-panic bytes 20,
  u64-ne-panic bytes 24,
  u64-ne-panic bytes 32,
  u32-ne-panic bytes 48,
  u16-ne-panic bytes 52,
  u16-ne-panic bytes 54,
  u16-ne-panic bytes 56,
)

check_fields-ne-panic : (f : Fields) (n : ℕ) → check_fields f n ≢ panic
unfolding check_fields
check_fields-ne-panic f n = ground arith

pub parse_header-ne-panic : (bytes : List ℕ) → parse_header bytes ≢ panic
unfolding parse_header
parse_header-ne-panic bytes =
    >>=-ne-panic (read_fields bytes) _ (read_fields-ne-panic bytes)
      λ f _. check_fields-ne-panic f (length bytes)

get_elem?-lt : (bytes : List ℕ) (i : ℕ) → i < length bytes → (b : ℕ) × (get_elem? bytes i ≡ some b)
get_elem?-lt [] i h = absurd (omega arith)
get_elem?-lt (b ∷ bs) zero h = (b, refl)
get_elem?-lt (b ∷ bs) (suc i) h = get_elem?-lt bs i (omega arith)

pub validate_identification-ne-panic :
    (bytes : List ℕ) → 64 ≤ length bytes → validate_identification bytes ≢ panic
unfolding validate_identification
validate_identification-ne-panic bytes h =
    let (b4, e4) = get_elem?-lt bytes 4 (omega arith) in
    let (b5, e5) = get_elem?-lt bytes 5 (omega arith) in
    let (b6, e6) = get_elem?-lt bytes 6 (omega arith) in
    let (b7, e7) = get_elem?-lt bytes 7 (omega arith) in
    let (b8, e8) = get_elem?-lt bytes 8 (omega arith) in
    rw (e4, e5, e6, e7, e8, slice-eq-some bytes 9 16 (omega arith) (omega arith)) (ground arith)
