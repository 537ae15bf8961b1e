-- ===== src/Elf/Read.antt =====
-- crates/boot-elf/src/lib.rs: the reads at an offset. `Maybe` is Rust's `Option` in code that may also
-- panic: `err tt` is `None`. `usize` has 64 bits, as on the supported target.
pub mod Ranges
use polytope_os.Base.{
  ℕ, ◌+◌, ◌*◌, ◌-◌, ◌^◌, List, ltb, if◌then◌else◌, Option, none, some, slice, bit_and,
}
use polytope_os.Base.{Result, ok, err, panic, ◌>>=◌, ok_or, or_panic}
use polytope_os.Base.Bytes.{from_le}
use polytope_os.Base.Bits.{not_bits}
use polytope_os.Elf.Types.{ProgramHeader}
use polytope_os.Elf.Types

abbrev pub Maybe : Type 0 → Type 0
Maybe A = Result (Unit {0}) A

-- `?` on an `Option`
abbrev pub some_or_return {ℓ} : {A : Type ℓ} → Option A → Result (Unit {0}) A
some_or_return o = ok_or o tt

-- `checked_add` and `checked_mul` at 64 bits
abbrev pub checked_add : ℕ → ℕ → Option ℕ
checked_add a b = if ltb (a + b) (2 ^ 64) then some (a + b) else none

abbrev pub checked_mul : ℕ → ℕ → Option ℕ
checked_mul a b = if ltb (a * b) (2 ^ 64) then some (a * b) else none

-- `a + b` at `w` bits, which panics on overflow
abbrev pub add {ℓ} : {E : Type ℓ} → ℕ → ℕ → ℕ → Result E ℕ
add w a b = if ltb (a + b) (2 ^ w) then ok (a + b) else panic

unfoldable pub read_array : ℕ → List ℕ → ℕ → Maybe (List ℕ)
read_array n bytes offset = do
  end ← some_or_return (checked_add offset n)
  some_or_return (slice bytes offset end)

unfoldable pub read_u16 : List ℕ → ℕ → Maybe ℕ
unfolding read_array
read_u16 bytes offset = do value ← read_array 2 bytes offset; ok (from_le value)

unfoldable pub read_u32 : List ℕ → ℕ → Maybe ℕ
unfolding read_array
read_u32 bytes offset = do value ← read_array 4 bytes offset; ok (from_le value)

unfoldable pub read_u64 : List ℕ → ℕ → Maybe ℕ
unfolding read_array
read_u64 bytes offset = do value ← read_array 8 bytes offset; ok (from_le value)

unfoldable pub decode_program_header : List ℕ → ℕ → ℕ → Maybe ProgramHeader
decode_program_header bytes table_offset index = do
  scaled ← some_or_return (checked_mul index Types.program_header_size)
  offset ← some_or_return (checked_add table_offset scaled)
  kind ← read_u32 bytes offset
  flags ← read_u32 bytes (← add 64 offset 4)
  file_offset ← read_u64 bytes (← add 64 offset 8)
  virtual_address ← read_u64 bytes (← add 64 offset 16)
  physical_address ← read_u64 bytes (← add 64 offset 24)
  file_size ← read_u64 bytes (← add 64 offset 32)
  memory_size ← read_u64 bytes (← add 64 offset 40)
  alignment ← read_u64 bytes (← add 64 offset 48)
  ok (record {
    kind = kind;
    flags = flags;
    file_offset = file_offset;
    virtual_address = virtual_address;
    physical_address = physical_address;
    file_size = file_size;
    memory_size = memory_size;
    alignment = alignment;
  })

-- The alignment is a constant above 0 at every call.
unfoldable pub align_up : ℕ → ℕ → Option ℕ
align_up value alignment =
    if ltb (value + (alignment - 1)) (2 ^ 64)
    then some (bit_and (value + (alignment - 1)) (not_bits 64 (alignment - 1)))
    else none
