-- ===== src/Loader/Prepare/Examples.antt =====
-- A concrete firmware, which allocates pages upwards, and the theorems on the loading at it.
use polytope_os.Base.{
  ℕ, zero, suc, ◌+◌, ◌*◌, ◌<◌, ◌≡◌, ◌⊎◌, refl, arith, ltb, list_eq, if◌then◌else◌,
}
use polytope_os.Base.{List, [], All, Option, none, some, true, ok, err}
use polytope_os.Base.{take, ap, ◌∙◌, inl, inr, Bool-cases, ◌≤◌}
use polytope_os.Base.Bytes.{IsByte}
use polytope_os.Base.Chunks.{Reads, after_chunk, read_round, read_loop}
use polytope_os.Elf.Types.{LoadSegment}
use polytope_os.Elf.Spec.{IsPlan}
use polytope_os.Elf.Iterate.{collect}
use polytope_os.Elf.Examples.{image, parsed, image-parse, image-collect}
use polytope_os.Loader.Error
use polytope_os.Loader.Scenario
use polytope_os.Loader.Scenario.{normal_file, normal}
use polytope_os.Loader.Firmware.{
  Machine, Handle, Directory, AllocateType, Firmware, any_pages, at_address, write_bytes,
  copy_nonoverlapping,
}
use polytope_os.Loader.Load.{
  ContractStorage, div_ceil, usize_from, load_segment, load_each, load_collected, load_segments,
  reserve_stack_guard, allocate,
}
use polytope_os.Loader.Load.Segment.{KeepsPages}
use polytope_os.Loader.Load.Plan.{RefusesOne, LoadsPlan, load_segments_lem}
use polytope_os.Loader.Prepare.{
  kernel_path, chunk_length_of, take_chunk, read_file, read_bounded_file, read_inputs,
  prepare_kernel,
}
use polytope_os.Loader.Prepare.Inputs.{ReadsBytes}
use polytope_os.Loader.Prepare.Correct.{IsPrepared, prepare_kernel_lem}

-- The firmware's state is the end of the pages that were allocated.
abbrev grant : ℕ → ℕ → Machine ℕ → ℕ × Machine ℕ
grant address pages m = (address, record m { firmware = address + pages * 4096 })

abbrev upwards : AllocateType → ℕ → ℕ → Machine ℕ → Option (ℕ × Machine ℕ)
upwards any_pages kind pages m = some (grant m.firmware pages m)
upwards (at_address address) kind pages m =
    if ltb address m.firmware then none else some (grant address pages m)

abbrev file_at : List ℕ → List ℕ
file_at path = if list_eq path kernel_path then image else normal_file

abbrev reads_at : List ℕ → Reads
reads_at path zero = some (file_at path)
reads_at path (suc at) = some []

abbrev volume : Directory
volume path = some (record { into_regular_file = some (reads_at path) })

abbrev pub firmware : Firmware ℕ
firmware = record {
  file_system = some (some volume);
  reserve = λ size additional. true;
  allocate_pages = upwards;
}

abbrev pub Owns : ℕ → ℕ → Type 0
Owns end x = x < end

abbrev pub cold : Machine ℕ
cold = record { firmware = 0x10_0000; memory = λ x. 0xaf }

upwards_cases :
    (type : AllocateType) (kind pages : ℕ) (m : Machine ℕ) (address : ℕ) (m' : Machine ℕ)
    → upwards type kind pages m ≡ some (address, m')
    → (m.firmware ≤ address) × (m'.firmware ≡ address + pages * 4096) × (m'.memory ≡ m.memory)
upwards_cases any_pages kind pages m address m' e =
    let same : m.firmware ≡ address = cc in
    let machine : record m { firmware = m.firmware + pages * 4096 } ≡ m' = cc in
    (omega arith, rw (← machine) (omega arith), rw (← machine) refl)
upwards_cases (at_address at) kind pages m address m' e = elim (Bool-cases (ltb at m.firmware)) [
  | inl below ↦ absurd (let refused = rw below at e in cc)
  | inr free ↦
      let granted : ◌≡◌ {A = Option (ℕ × Machine ℕ)} (some (grant at pages m))
          (some (address, m')) =
        rw free at e in
      let same : at ≡ address = cc in
      let machine : record m { firmware = at + pages * 4096 } ≡ m' = cc in
      (ground arith, rw (← machine) (omega arith), rw (← machine) refl)
]

pub firmware-KeepsPages : KeepsPages firmware Owns
firmware-KeepsPages = record {
  gives = λ type kind pages m address m' e x lo hi.
      omega (arith, upwards_cases type kind pages m address m' e);
  fresh = λ type kind pages m address m' e x lo hi owned.
      omega (arith, upwards_cases type kind pages m address m' e);
  keeps = λ type kind pages m address m' e x owned.
      let (low, end, same) = upwards_cases type kind pages m address m' e in
      (omega arith, ap (λ memory. memory x) same);
}

load_segments_lem_example :
    (plan : List LoadSegment) × (collect parsed ≡ ok plan)
    × IsPlan image 0x20_0000 plan
    × (((m' : Machine ℕ) × (load_segments firmware parsed cold ≡ ok m')
          × LoadsPlan firmware Owns firmware-KeepsPages plan cold m')
        ⊎ ((load_segments firmware parsed cold ≡ err Error.kernel_address)
            × RefusesOne firmware plan cold))
load_segments_lem_example =
    load_segments_lem firmware Owns firmware-KeepsPages image parsed cold (omega arith) image-parse

abbrev pub loaded_memory : ℕ → ℕ
loaded_memory =
    copy_nonoverlapping (take 120 image) 0x20_0000 (write_bytes 0x20_0000 0 4096 cold.memory)

inputs_read : read_inputs firmware ≡ ok (image, normal)
unfolding read_inputs read_bounded_file read_file read_loop read_round after_chunk take_chunk
    chunk_length_of Scenario.parse list_eq
inputs_read = refl

image-loads :
    load_segments firmware parsed cold
    ≡ ok (record { firmware = 0x20_1000; memory = loaded_memory })
unfolding load_segments load_collected load_each load_segment div_ceil usize_from write_bytes
    copy_nonoverlapping
image-loads = rw image-collect refl

abbrev pub prepared_machine : Machine ℕ
prepared_machine = record { firmware = 0x480_2000; memory = loaded_memory }

abbrev pub storage : ContractStorage
storage = record { base = 0x480_0000; byte_length = 8192 }

pub prepared : prepare_kernel firmware cold ≡ ok ((0x20_0000, storage, normal), prepared_machine)
unfolding prepare_kernel reserve_stack_guard allocate div_ceil
prepared = rw (inputs_read, image-parse, image-loads) refl

file_at-IsByte : (path : List ℕ) → All IsByte (file_at path)
file_at-IsByte path = elim (Bool-cases (list_eq path kernel_path)) [
  | inl kernel ↦ rw kernel (omega arith)
  | inr other ↦ rw other (omega arith)
]

reads_at-IsByte :
    (path : List ℕ) (at : ℕ) (chunk : List ℕ) → reads_at path at ≡ some chunk → All IsByte chunk
reads_at-IsByte path zero chunk e =
    let same : file_at path ≡ chunk = cc in rw (← same) (file_at-IsByte path)
reads_at-IsByte path (suc at) chunk e = let same : [] ≡ chunk = cc in rw (← same) tt

read_of :
    (path : List ℕ) (handle : Handle) (reads : Reads) (at : ℕ) (chunk : List ℕ)
    → volume path ≡ some handle
    → handle.into_regular_file ≡ some reads
    → reads at ≡ some chunk
    → reads_at path at ≡ some chunk
read_of path handle reads at chunk opened regular read =
    let same : record { into_regular_file = some (reads_at path) } ≡ handle = cc in
    let same_reads : some (reads_at path) ≡ some reads =
      ap (λ (h : Handle). h.into_regular_file) same ∙ regular in
    let same_read : reads_at path ≡ reads = cc in ap (λ (r : Reads). r at) same_read ∙ read

pub firmware-ReadsBytes : ReadsBytes firmware
firmware-ReadsBytes = record {
  bytes = λ root path handle reads at chunk mounted opened regular read.
      let same_root : volume ≡ root = cc in
      reads_at-IsByte path at chunk (
        read_of path handle reads at chunk (ap (λ (r : Directory). r path) same_root ∙ opened)
          regular read);
}

prepare_kernel_lem_example : IsPrepared firmware Owns 0x20_0000 storage normal prepared_machine
prepare_kernel_lem_example =
    prepare_kernel_lem firmware Owns firmware-KeepsPages cold prepared_machine 0x20_0000 storage
      normal firmware-ReadsBytes prepared
