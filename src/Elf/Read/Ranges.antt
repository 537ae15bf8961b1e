-- ===== src/Elf/Read/Ranges.antt =====
-- crates/boot-elf/src/lib.rs: the ranges of what the reads return, and the reads in the file.
use polytope_os.Base.{ℕ, ◌+◌, ◌-◌, ◌*◌, ◌^◌, ◌≤◌, ◌<◌, ◌≡◌, arith, List, All}
use polytope_os.Base.{ok, err, panic, slice, Result-cases, inl, inr}
use polytope_os.Base.{length, take, drop, length-take, length-drop, All-take, All-drop}
use polytope_os.Base.{slice-eq-some, lt→ltb}
use polytope_os.Base.Bytes.{IsByte, from_le, from_le-lt}
use polytope_os.Elf.Types.{ProgramHeader}
use polytope_os.Elf.Read.{read_array, read_u16, read_u32, read_u64, decode_program_header}
use polytope_os.Elf.Read.{Maybe}
use polytope_os.Elf.Segment.Valid.{IsTypedHeader}

-- A read in the file.
pub read_array-eq-ok :
    (n : ℕ) (bytes : List ℕ) (offset : ℕ)
    → offset + n ≤ length bytes
    → length bytes < 2 ^ 64
    → read_array n bytes offset ≡ ok (take n (drop offset bytes))
unfolding read_array
read_array-eq-ok n bytes offset h k =
    let size : offset + n - offset ≡ n = omega arith in
    rw (
      lt→ltb (offset + n) (2 ^ 64) (omega arith),
      slice-eq-some bytes offset (offset + n) (omega arith) h,
      size,
    )

-- Whatever a read returns stands in the file.
read_array_inv :
    (n : ℕ) (bytes : List ℕ) (offset : ℕ) {value : List ℕ}
    → read_array n bytes offset ≡ ok value
    → (offset + n ≤ length bytes) × (value ≡ take (offset + n - offset) (drop offset bytes))
unfolding read_array slice
read_array_inv n bytes offset e = ground arith

-- A bound on what a read returns, if it returns.
abbrev pub Below : ℕ → Maybe ℕ → Type 0
Below bound (ok v) = v < bound
Below bound (err none_found) = Unit
Below bound panic = Unit

word_lt :
    (n : ℕ) (bytes : List ℕ) (offset : ℕ) {value : List ℕ}
    → All IsByte bytes
    → read_array n bytes offset ≡ ok value
    → from_le value < 256 ^ n
word_lt n bytes offset {value} b e =
    let (fits, cut) = read_array_inv n bytes offset e in
    let size : offset + n - offset ≡ n = omega arith in
    let part = take (offset + n - offset) (drop offset bytes) in
    let l : length part ≡ n =
      omega
        (arith, length-take (offset + n - offset) (drop offset bytes), length-drop offset bytes) in
    rw (cut) (
      rw l at (
        from_le-lt part (
          All-take IsByte (offset + n - offset) (drop offset bytes)
            (All-drop IsByte offset bytes b))))

read_u16-lt :
    (bytes : List ℕ) (offset : ℕ) → All IsByte bytes → Below (2 ^ 16) (read_u16 bytes offset)
unfolding read_u16
read_u16-lt bytes offset b = elim (Result-cases (read_array 2 bytes offset)) [
  | inl (v, e) ↦ rw e (word_lt 2 bytes offset b e)
  | inr (inl (x, e)) ↦ rw e tt
  | inr (inr e) ↦ rw e tt
]

read_u32-lt :
    (bytes : List ℕ) (offset : ℕ) → All IsByte bytes → Below (2 ^ 32) (read_u32 bytes offset)
unfolding read_u32
read_u32-lt bytes offset b = elim (Result-cases (read_array 4 bytes offset)) [
  | inl (v, e) ↦ rw e (word_lt 4 bytes offset b e)
  | inr (inl (x, e)) ↦ rw e tt
  | inr (inr e) ↦ rw e tt
]

read_u64-lt :
    (bytes : List ℕ) (offset : ℕ) → All IsByte bytes → Below (2 ^ 64) (read_u64 bytes offset)
unfolding read_u64
read_u64-lt bytes offset b = elim (Result-cases (read_array 8 bytes offset)) [
  | inl (v, e) ↦ rw e (word_lt 8 bytes offset b e)
  | inr (inl (x, e)) ↦ rw e tt
  | inr (inr e) ↦ rw e tt
]

-- A decoded program header has typed fields.
pub decode-IsTypedHeader :
    (bytes : List ℕ) (table index : ℕ) {h : ProgramHeader}
    → All IsByte bytes
    → decode_program_header bytes table index ≡ ok h
    → IsTypedHeader h
unfolding decode_program_header
decode-IsTypedHeader bytes table index b e = ground (
  arith,
  read_u32-lt bytes (table + index * 56) b,
  read_u32-lt bytes (table + index * 56 + 4) b,
  read_u64-lt bytes (table + index * 56 + 8) b,
  read_u64-lt bytes (table + index * 56 + 16) b,
  read_u64-lt bytes (table + index * 56 + 24) b,
  read_u64-lt bytes (table + index * 56 + 32) b,
  read_u64-lt bytes (table + index * 56 + 40) b,
  read_u64-lt bytes (table + index * 56 + 48) b,
)

-- The integer of `n` bytes at an offset.
abbrev word_at : ℕ → List ℕ → ℕ → ℕ
word_at n bytes offset = from_le (take n (drop offset bytes))

module _ (bytes : List ℕ) (offset : ℕ) (small : length bytes < 2 ^ 64) where
  pub read_u16-eq-ok :
      offset + 2 ≤ length bytes → read_u16 bytes offset ≡ ok (word_at 2 bytes offset)
  unfolding read_u16
  read_u16-eq-ok h = rw (read_array-eq-ok 2 bytes offset h small)

  pub read_u32-eq-ok :
      offset + 4 ≤ length bytes → read_u32 bytes offset ≡ ok (word_at 4 bytes offset)
  unfolding read_u32
  read_u32-eq-ok h = rw (read_array-eq-ok 4 bytes offset h small)

  pub read_u64-eq-ok :
      offset + 8 ≤ length bytes → read_u64 bytes offset ≡ ok (word_at 8 bytes offset)
  unfolding read_u64
  read_u64-eq-ok h = rw (read_array-eq-ok 8 bytes offset h small)

abbrev pub header_at : List ℕ → ℕ → ProgramHeader
header_at bytes offset = record {
  kind = word_at 4 bytes offset;
  flags = word_at 4 bytes (offset + 4);
  file_offset = word_at 8 bytes (offset + 8);
  virtual_address = word_at 8 bytes (offset + 16);
  physical_address = word_at 8 bytes (offset + 24);
  file_size = word_at 8 bytes (offset + 32);
  memory_size = word_at 8 bytes (offset + 40);
  alignment = word_at 8 bytes (offset + 48);
}

-- A program header that lies in the file is decoded, and no sum of its offsets overflows.
pub decode-in_file :
    (bytes : List ℕ) (table index : ℕ)
    → table + index * 56 + 56 ≤ length bytes
    → length bytes < 2 ^ 64
    → decode_program_header bytes table index ≡ ok (header_at bytes (table + index * 56))
unfolding decode_program_header
decode-in_file bytes table index fits small = rw (
  lt→ltb (index * 56) (2 ^ 64) (omega arith),
  lt→ltb (table + index * 56) (2 ^ 64) (omega arith),
  lt→ltb (table + index * 56 + 4) (2 ^ 64) (omega arith),
  lt→ltb (table + index * 56 + 8) (2 ^ 64) (omega arith),
  lt→ltb (table + index * 56 + 16) (2 ^ 64) (omega arith),
  lt→ltb (table + index * 56 + 24) (2 ^ 64) (omega arith),
  lt→ltb (table + index * 56 + 32) (2 ^ 64) (omega arith),
  lt→ltb (table + index * 56 + 40) (2 ^ 64) (omega arith),
  lt→ltb (table + index * 56 + 48) (2 ^ 64) (omega arith),
  read_u32-eq-ok bytes (table + index * 56) small (omega arith),
  read_u32-eq-ok bytes (table + index * 56 + 4) small (omega arith),
  read_u64-eq-ok bytes (table + index * 56 + 8) small (omega arith),
  read_u64-eq-ok bytes (table + index * 56 + 16) small (omega arith),
  read_u64-eq-ok bytes (table + index * 56 + 24) small (omega arith),
  read_u64-eq-ok bytes (table + index * 56 + 32) small (omega arith),
  read_u64-eq-ok bytes (table + index * 56 + 40) small (omega arith),
  read_u64-eq-ok bytes (table + index * 56 + 48) small (omega arith),
)
