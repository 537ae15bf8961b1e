-- ===== src/Elf/Segment/Valid.antt =====
-- crates/boot-elf/src/lib.rs: `validate_load_segment` and the specification of a loadable segment.
use polytope_os.Base.{
  ℕ, zero, suc, ◌+◌, ◌-◌, ◌*◌, ◌/◌, ◌%◌, ◌^◌, ◌≤◌, ◌<◌, ◌≡◌, ◌⊎◌, inl, inr, refl, arith,
}
use polytope_os.Base.{List, true, ◌==◌, ==_iff, ok, some, bit_and, length, take, drop}
use polytope_os.Base.{Bool-cases, slice-eq-some, lt→ltb}
use polytope_os.Base.Bytes.{IsU32, IsU64}
use polytope_os.Base.Bits.{not_bits, bit_and-ones, bit_and-shift}
use polytope_os.Elf.Types.{ProgramHeader, LoadSegment}
use polytope_os.Elf.Read.{align_up}
use polytope_os.Elf.Segment.{
  is_power_below, is_power_of_two, validate_load_segment, load_segment_from_header,
}
use polytope_os.Elf.Spec.{IsLoadable, page_up}

pub record IsTypedHeader (h : ProgramHeader) : Type 0 where
  pub kind : IsU32 h.kind
  pub flags : IsU32 h.flags
  pub file_offset : IsU64 h.file_offset
  pub virtual_address : IsU64 h.virtual_address
  pub physical_address : IsU64 h.physical_address
  pub file_size : IsU64 h.file_size
  pub memory_size : IsU64 h.memory_size
  pub alignment : IsU64 h.alignment

-- `flags & !7`, `flags & 4`, `flags & 3` and `flags & 1`.
unknown_flags : (f : ℕ) → bit_and f (not_bits 32 7) ≡ f / 8 % 2 ^ 29 * 8
unknown_flags f =
    omega (arith, bit_and-shift 3 f (2 ^ 29 - 1), bit_and-ones 29 (f / 8) (2 ^ 29 - 1) refl)

readable_flag : (f : ℕ) → bit_and f 4 ≡ f / 4 % 2 * 4
readable_flag f = omega (arith, bit_and-shift 2 f 1, bit_and-ones 1 (f / 4) 1 refl)

write_execute_flags : (f : ℕ) → bit_and f 3 ≡ f % 4
write_execute_flags f = bit_and-ones 2 f 3 refl

pub executable_flag : (f : ℕ) → bit_and f 1 ≡ f % 2
executable_flag f = bit_and-ones 1 f 1 refl

-- `align_up` at the page size rounds to the next page boundary.
pub align_up-page : (n : ℕ) → n + 4095 < 2 ^ 64 → align_up n 4096 ≡ some (page_up n)
unfolding align_up
align_up-page n h = ground (
  arith,
  bit_and-shift 12 (n + 4095) (2 ^ 52 - 1),
  bit_and-ones 52 ((n + 4095) / 4096) (2 ^ 52 - 1) refl,
)

power_of_is_power_below : (k x : ℕ) → is_power_below k x ≡ true → (j : ℕ) × (x ≡ 2 ^ j)
unfolding is_power_below
power_of_is_power_below zero x h = cc
power_of_is_power_below (suc k) x h = elim (Bool-cases (x == 2 ^ k)) [
  | inl same ↦ (k, (==_iff x (2 ^ k)).0 same)
  | inr other ↦ power_of_is_power_below k x (rw other at h)
]

power_of_two : (x : ℕ) → is_power_of_two x ≡ true → (j : ℕ) × (x ≡ 2 ^ j)
unfolding is_power_of_two
power_of_two x h = power_of_is_power_below 64 x h

-- What the checks of a header establish.
pub record IsChecked (h : ProgramHeader) (file_size end : ℕ) : Type 0 where
  pub permissions : (h.flags ≡ 4) ⊎ (h.flags ≡ 5) ⊎ (h.flags ≡ 6)
  pub nonempty : 0 < h.memory_size
  pub file_le_memory : h.file_size ≤ h.memory_size
  pub in_file : h.file_offset + h.file_size ≤ file_size
  pub file_end_fits : h.file_offset + h.file_size < 2 ^ 64
  pub identity_mapped : h.virtual_address ≡ h.physical_address
  pub alignment : is_power_of_two h.alignment ≡ true
  pub alignment_lo : 4096 ≤ h.alignment
  pub alignment_hi : h.alignment ≤ 2_097_152
  pub page_aligned : h.physical_address % 4096 ≡ 0
  pub congruent : h.physical_address % h.alignment ≡ h.file_offset % h.alignment
  pub window_lo : 0x20_0000 ≤ h.physical_address
  pub window_hi : end ≤ 0x4000_0000
  pub end_lem : end ≡ h.physical_address + h.memory_size

pub validate_load_segment-IsChecked :
    (index : ℕ) (h : ProgramHeader) (file_size : ℕ) {end : ℕ}
    → IsTypedHeader h
    → validate_load_segment index h file_size ≡ ok end
    → IsChecked h file_size end
unfolding validate_load_segment
validate_load_segment-IsChecked index h file_size t e =
    ground (arith, unknown_flags h.flags, readable_flag h.flags, write_execute_flags h.flags)

-- The segment of a header.
abbrev pub segment_of : List ℕ → ℕ → ProgramHeader → LoadSegment
segment_of bytes index h = record {
  index = index;
  flags = h.flags;
  file_offset = h.file_offset;
  virtual_address = h.virtual_address;
  physical_address = h.physical_address;
  file_size = h.file_size;
  memory_size = h.memory_size;
  alignment = h.alignment;
  file_data = take h.file_size (drop h.file_offset bytes);
}

module _ (bytes : List ℕ) (index : ℕ) (h : ProgramHeader) {end : ℕ}
    (c : IsChecked h (length bytes) end) where
  pub load_segment_from_header_lem :
      load_segment_from_header bytes index h ≡ ok (segment_of bytes index h)
  unfolding load_segment_from_header
  load_segment_from_header_lem =
      let size : h.file_offset + h.file_size - h.file_offset ≡ h.file_size = omega arith in
      rw (
        lt→ltb (h.file_offset + h.file_size) (2 ^ 64) c.file_end_fits,
        slice-eq-some bytes h.file_offset (h.file_offset + h.file_size) (omega arith) c.in_file,
        size,
      )

  pub segment_of-IsLoadable : IsLoadable bytes (segment_of bytes index h)
  segment_of-IsLoadable = record {
    permissions = c.permissions;
    nonempty = c.nonempty;
    file_le_memory = c.file_le_memory;
    in_file = c.in_file;
    file_data = refl;
    identity_mapped = c.identity_mapped;
    alignment = power_of_two h.alignment c.alignment;
    alignment_lo = c.alignment_lo;
    alignment_hi = c.alignment_hi;
    page_aligned = c.page_aligned;
    congruent = c.congruent;
    window_lo = c.window_lo;
    window_hi = omega arith;
  }
