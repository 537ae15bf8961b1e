-- ===== src/Elf/Examples.antt =====
-- A concrete kernel image of one segment: its run, and the theorems at it.
use polytope_os.Base.{ℕ, ◌≡◌, ◌≢◌, refl, arith, List, [], ◌∷◌, ◌++◌, length, ok, err, panic}
use polytope_os.Base.{take, drop, replicate, slice, list_eq}
use polytope_os.Base.Bytes.{from_le}
use polytope_os.Elf.Error
use polytope_os.Elf.Types.{LoadSegment, ValidatedElf}
use polytope_os.Elf.Read.{read_u16, read_u32, read_u64, decode_program_header, align_up}
use polytope_os.Elf.Header.{validate_identification, parse_header}
use polytope_os.Elf.Segment.{is_power_of_two, validate_load_segment, load_segment_from_header}
use polytope_os.Elf.Spec.{IsPlan}
use polytope_os.Elf.Parse.{parse}
use polytope_os.Elf.Parse.NoPanic.{elf_parse-ne-panic}
use polytope_os.Elf.Iterate.{segments, returned, next_loop, next, collect_loop, collect}
use polytope_os.Elf.Iterate.Correct.{collect-parse}

abbrev zeros : ℕ → List ℕ
zeros n = replicate n 0

-- An executable segment at 2 MiB of 120 bytes of the file and 200 bytes of memory.
abbrev pub image : List ℕ
image =
    (0x7f ∷ b'E' ∷ b'L' ∷ b'F' ∷ 2 ∷ 1 ∷ 1 ∷ 0 ∷ 0 ∷ 0 ∷ 0 ∷ 0 ∷ 0 ∷ 0 ∷ 0 ∷ 0 ∷ [])
    ++ (2 ∷ 0 ∷ 62 ∷ 0 ∷ 1 ∷ 0 ∷ 0 ∷ 0 ∷ 0 ∷ 0 ∷ 0x20 ∷ 0 ∷ 0 ∷ 0 ∷ 0 ∷ 0 ∷ [])
    ++ (64 ∷ 0 ∷ 0 ∷ 0 ∷ 0 ∷ 0 ∷ 0 ∷ 0 ∷ 0 ∷ 0 ∷ 0 ∷ 0 ∷ 0 ∷ 0 ∷ 0 ∷ 0 ∷ [])
    ++ (0 ∷ 0 ∷ 0 ∷ 0 ∷ 64 ∷ 0 ∷ 56 ∷ 0 ∷ 1 ∷ 0 ∷ 0 ∷ 0 ∷ 0 ∷ 0 ∷ 0 ∷ 0 ∷ [])
    ++ (1 ∷ 0 ∷ 0 ∷ 0 ∷ 5 ∷ 0 ∷ 0 ∷ 0 ∷ 0 ∷ 0 ∷ 0 ∷ 0 ∷ 0 ∷ 0 ∷ 0 ∷ 0 ∷ [])
    ++ (0 ∷ 0 ∷ 0x20 ∷ 0 ∷ 0 ∷ 0 ∷ 0 ∷ 0 ∷ 0 ∷ 0 ∷ 0x20 ∷ 0 ∷ 0 ∷ 0 ∷ 0 ∷ 0 ∷ [])
    ++ (120 ∷ 0 ∷ 0 ∷ 0 ∷ 0 ∷ 0 ∷ 0 ∷ 0 ∷ 200 ∷ 0 ∷ 0 ∷ 0 ∷ 0 ∷ 0 ∷ 0 ∷ 0 ∷ [])
    ++ (0 ∷ 0x10 ∷ 0 ∷ 0 ∷ 0 ∷ 0 ∷ 0 ∷ 0 ∷ [])

abbrev pub parsed : ValidatedElf
parsed = record {
  bytes = image;
  entry_point = 0x20_0000;
  program_header_offset = 64;
  program_header_count = 1;
  load_segment_count = 1;
}

pub image-parse : parse image ≡ ok parsed
unfolding parse validate_identification parse_header decode_program_header validate_load_segment
    is_power_of_two align_up read_u16 read_u32 read_u64 slice take drop list_eq from_le
image-parse = refl

abbrev pub image_segment : LoadSegment
image_segment = record {
  index = 0;
  flags = 5;
  file_offset = 0;
  virtual_address = 0x20_0000;
  physical_address = 0x20_0000;
  file_size = 120;
  memory_size = 200;
  alignment = 4096;
  file_data = take 120 image;
}

pub image-collect : collect parsed ≡ ok (image_segment ∷ [])
unfolding collect collect_loop next next_loop returned decode_program_header
    load_segment_from_header segments read_u16 read_u32 read_u64 slice take drop from_le
image-collect = refl

-- The same image with a segment that may be written and executed.
image_write_execute :
    parse (take 68 image ++ (7 ∷ drop 69 image)) ≡ err (Error.write_execute_segment 0)
unfolding parse validate_identification parse_header decode_program_header validate_load_segment
    is_power_of_two align_up read_u16 read_u32 read_u64 slice take drop list_eq from_le
image_write_execute = refl

elf_parse-ne-panic_example : parse (0x7f ∷ b'E' ∷ []) ≢ panic
elf_parse-ne-panic_example = elf_parse-ne-panic (0x7f ∷ b'E' ∷ []) (omega arith)

collect-parse_example :
    (plan : List LoadSegment) × (collect parsed ≡ ok plan)
    × IsPlan image 0x20_0000 plan
    × (◌≡◌ {A = ℕ} (length plan) 1)
collect-parse_example = collect-parse image parsed (omega arith) image-parse
