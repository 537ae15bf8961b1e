-- ===== src/Loader/Load.antt =====
-- crates/uefi-loader/src/main.rs: `load_segment`, `load_segments`, `reserve_stack_guard` and
-- `ContractStorage::allocate`, with the firmware as a parameter.
pub mod Segment
pub mod Plan
use polytope_os.Base.{ℕ, ◌+◌, ◌/◌, ◌%◌, ◌^◌, ltb, ◌==◌, List, [], ◌∷◌, length, Bool, not}
use polytope_os.Base.{if◌then◌else◌, Option, none, some, Result, ok, err, panic}
use polytope_os.Base.{◌>>=◌, ◌>>◌, ok_or, reject}
use polytope_os.Contract.Types.{boot_info_size}
use polytope_os.Elf.Types.{LoadSegment, ValidatedElf}
use polytope_os.Elf.Read.{Maybe, checked_mul}
use polytope_os.Elf.Iterate.{collect}
use polytope_os.Inspect.Types.{stack_guard_address}
use polytope_os.Loader.Error
use polytope_os.Loader.Error.{LoaderError}
use polytope_os.Loader.Contract.{kernel_memory_type, contract_memory_type, stack_guard_memory_type}
use polytope_os.Loader.Firmware.{
  Machine, Firmware, any_pages, at_address, write_bytes, copy_nonoverlapping,
}

abbrev pub page_bytes : ℕ
page_bytes = 4_096

-- `div_ceil`
unfoldable pub div_ceil : ℕ → ℕ → ℕ
div_ceil self divisor = if self % divisor == 0 then self / divisor else self / divisor + 1

-- `usize::try_from`, of the target's 64 bits
unfoldable pub usize_from : ℕ → Option ℕ
usize_from n = if ltb n (2 ^ 64) then some n else none

pub record ContractStorage : Type 0 where
  pub base : ℕ
  pub byte_length : ℕ

module _ {S : Type 0} (firmware : Firmware S) where
  unfoldable pub load_segment : LoadSegment → Machine S → Result LoaderError (Machine S)
  unfolding div_ceil usize_from write_bytes copy_nonoverlapping
  load_segment segment machine = do
    destination ← ok_or (usize_from segment.physical_address) Error.kernel_address
    memory_size ← ok_or (usize_from segment.memory_size) Error.allocation
    let pages = div_ceil memory_size page_bytes
    (allocation, machine') ←
        ok_or
          (firmware.allocate_pages (at_address segment.physical_address) kernel_memory_type pages
            machine)
          Error.kernel_address
    reject (not (allocation == destination)) Error.kernel_address
    allocation_bytes ← ok_or (checked_mul pages page_bytes) Error.allocation
    let zeroed = write_bytes allocation 0 allocation_bytes machine'.memory
    ok (record machine' { memory = copy_nonoverlapping segment.file_data allocation zeroed })

  -- The `for` loop of `load_segments`.
  unfoldable pub load_each : List LoadSegment → Machine S → Result LoaderError (Machine S)
  unfolding load_segment
  load_each [] machine = ok machine
  load_each (segment ∷ segments) machine = do
    machine' ← load_segment segment machine
    load_each segments machine'

  -- The loop over what the iterator returns. It runs first, since it does not read the machine.
  unfoldable pub load_collected :
      Maybe (List LoadSegment) → Machine S → Result LoaderError (Machine S)
  unfolding load_each
  load_collected (ok segments) machine = load_each segments machine
  load_collected (err none_found) machine = ok machine
  load_collected panic machine = panic

  unfoldable pub load_segments : ValidatedElf → Machine S → Result LoaderError (Machine S)
  unfolding load_collected
  load_segments elf machine = load_collected (collect elf) machine

  unfoldable pub reserve_stack_guard : Machine S → Result LoaderError (Machine S)
  reserve_stack_guard machine = do
    (allocation, machine') ←
        ok_or
          (firmware.allocate_pages (at_address stack_guard_address) stack_guard_memory_type 1
            machine)
          Error.kernel_address
    reject (not (allocation == stack_guard_address)) Error.kernel_address
    ok machine'

  -- `ContractStorage::allocate`
  unfoldable pub allocate : Machine S → Result LoaderError (ContractStorage × Machine S)
  unfolding div_ceil
  allocate machine = do
    let pages = div_ceil boot_info_size page_bytes
    byte_length ← ok_or (checked_mul pages page_bytes) Error.contract_storage
    (base, machine') ←
        ok_or (firmware.allocate_pages any_pages contract_memory_type pages machine)
          Error.contract_storage
    ok (record { base = base; byte_length = byte_length }, machine')
