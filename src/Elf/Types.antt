-- ===== src/Elf/Types.antt =====
-- crates/boot-elf/src/lib.rs: the constants and the structs of the ELF parser. `SegmentFlags` is its
-- bits.
use polytope_os.Base.{ℕ, ◌-◌, List, [], ◌∷◌, bit_and, Bool, not, ◌==◌}

abbrev pub min_load_address : ℕ
min_load_address = 0x20_0000

abbrev pub max_load_address_exclusive : ℕ
max_load_address_exclusive = 0x4000_0000

abbrev pub max_elf_file_size : ℕ
max_elf_file_size = 16_777_216

abbrev pub max_program_headers : ℕ
max_program_headers = 8

abbrev pub max_load_segments : ℕ
max_load_segments = 4

abbrev pub max_total_load_size : ℕ
max_total_load_size = 67_108_864

abbrev pub page_size : ℕ
page_size = 4_096

abbrev pub max_segment_alignment : ℕ
max_segment_alignment = 2_097_152

abbrev pub elf_header_size : ℕ
elf_header_size = 64

abbrev pub program_header_size : ℕ
program_header_size = 56

abbrev pub elf_magic : List ℕ
elf_magic = 0x7f ∷ b'E' ∷ b'L' ∷ b'F' ∷ []

abbrev pub elfclass64 : ℕ
elfclass64 = 2

abbrev pub elfdata2lsb : ℕ
elfdata2lsb = 1

abbrev pub ev_current : ℕ
ev_current = 1

abbrev pub elfosabi_sysv : ℕ
elfosabi_sysv = 0

abbrev pub et_exec : ℕ
et_exec = 2

abbrev pub em_x86_64 : ℕ
em_x86_64 = 62

abbrev pub pt_null : ℕ
pt_null = 0

abbrev pub pt_load : ℕ
pt_load = 1

abbrev pub pf_x : ℕ
pf_x = 1

abbrev pub pf_w : ℕ
pf_w = 2

abbrev pub pf_r : ℕ
pf_r = 4

-- `PF_X | PF_W | PF_R` and `PF_W | PF_X`
abbrev pub known_segment_flags : ℕ
known_segment_flags = 7

abbrev pub pf_wx : ℕ
pf_wx = 3

-- `SegmentFlags::is_readable` and the others
unfoldable pub is_readable : ℕ → Bool
is_readable flags = not (bit_and flags pf_r == 0)

unfoldable pub is_writable : ℕ → Bool
is_writable flags = not (bit_and flags pf_w == 0)

unfoldable pub is_executable : ℕ → Bool
is_executable flags = not (bit_and flags pf_x == 0)

pub record LoadSegment : Type 0 where
  pub index : ℕ
  pub flags : ℕ
  pub file_offset : ℕ
  pub virtual_address : ℕ
  pub physical_address : ℕ
  pub file_size : ℕ
  pub memory_size : ℕ
  pub alignment : ℕ
  pub file_data : List ℕ

-- The subtraction does not wrap: the file size is at most the memory size in a validated segment.
unfoldable pub zero_fill_size : LoadSegment → ℕ
zero_fill_size self = self.memory_size - self.file_size

pub record ValidatedElf : Type 0 where
  pub bytes : List ℕ
  pub entry_point : ℕ
  pub program_header_offset : ℕ
  pub program_header_count : ℕ
  pub load_segment_count : ℕ

pub record LoadSegments : Type 0 where
  pub bytes : List ℕ
  pub program_header_offset : ℕ
  pub program_header_count : ℕ
  pub next_index : ℕ

pub record ElfHeader : Type 0 where
  pub entry : ℕ
  pub program_header_offset : ℕ
  pub program_header_count : ℕ
  pub program_header_table_end : ℕ
  pub file_size : ℕ

pub record ProgramHeader : Type 0 where
  pub kind : ℕ
  pub flags : ℕ
  pub file_offset : ℕ
  pub virtual_address : ℕ
  pub physical_address : ℕ
  pub file_size : ℕ
  pub memory_size : ℕ
  pub alignment : ℕ
