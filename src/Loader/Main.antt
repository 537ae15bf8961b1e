-- ===== src/Loader/Main.antt =====
-- crates/uefi-loader/src/main.rs: `main`, by the records that it writes and how it ends.
pub mod Steps
pub mod Boots
mod Examples
use Prim.Native.String.{String}
use polytope_os.Base.{
  ℕ, zero, suc, ◌+◌, ◌==◌, List, [], ◌∷◌, ◌++◌, if◌then◌else◌, Option, none, some,
}
use polytope_os.Base.{Result, ok, err, panic}
use polytope_os.Kernel.Diagnostics.{QemuExitCode, loader_failure}
use polytope_os.Loader.Error
use polytope_os.Loader.Error.{LoaderError, marker}
use polytope_os.Loader.Scenario.{BootScenario}
use polytope_os.Loader.Contract.{MemoryTypes, MemoryDescriptor, encode_contract}
use polytope_os.Loader.Firmware.{Machine, Firmware, copy_nonoverlapping}
use polytope_os.Loader.Load.{ContractStorage, usize_from}
use polytope_os.Loader.Prepare.{prepare_kernel}

abbrev pub loader_start : String
loader_start = "POLYTOPE_BOOT schema=1 seq=0001 phase=loader level=info code=LOADER_START"

abbrev pub elf_valid : String
elf_valid = "POLYTOPE_BOOT schema=1 seq=0002 phase=loader level=info code=ELF_VALID"

abbrev pub handoff_ready : String
handoff_ready = "POLYTOPE_BOOT schema=1 seq=0003 phase=handoff level=info code=HANDOFF_READY"

abbrev pub loader_panic_sequence_2 : String
loader_panic_sequence_2 =
    "POLYTOPE_BOOT schema=1 seq=0002 phase=loader level=fatal code=LOADER_PANIC"

abbrev pub loader_panic_sequence_3 : String
loader_panic_sequence_3 =
    "POLYTOPE_BOOT schema=1 seq=0003 phase=handoff level=fatal code=LOADER_PANIC"

abbrev pub loader_panic_sequence_4 : String
loader_panic_sequence_4 =
    "POLYTOPE_BOOT schema=1 seq=0004 phase=handoff level=fatal code=LOADER_PANIC"

-- How `main` ends, which does not return: with a jump to the entry point with the address and the
-- length of the contract, with an exit of the emulator, or with the reset by `exit_boot_services`.
pub data Ending (S : Type 0) : Type 0 where
  transferred : ℕ → ℕ → ℕ → Machine S → Ending S
  exited : QemuExitCode → Ending S
  reset : Ending S

pub record Boot (S : Type 0) : Type 0 where
  pub records : List String
  pub ending : Ending S

-- `exit_boot_services`, which resets where it fails, and `sort` of the memory map.
pub record ExitServices (S : Type 0) : Type 0 where
  pub exit_boot_services : Machine S → Option (List MemoryDescriptor × Machine S)
  pub sort : List MemoryDescriptor → List MemoryDescriptor

-- `slice::from_raw_parts`
pub read_bytes : (ℕ → ℕ) → ℕ → ℕ → List ℕ
read_bytes memory address zero = []
read_bytes memory address (suc n) = memory address ∷ read_bytes memory (address + 1) n

module _ {S : Type 0} where
  unfoldable pub fail : List String → LoaderError → Boot S
  fail records error = record {
    records = records ++ (marker error ∷ []);
    ending = exited loader_failure;
  }

  -- The panic handler, with the value of `NEXT_PANIC_SEQUENCE`.
  unfoldable pub panic_handler : List String → ℕ → Boot S
  panic_handler records sequence = record {
    records =
        records
        ++ ((if sequence == 2
              then loader_panic_sequence_2
              else if sequence == 3
              then loader_panic_sequence_3
              else loader_panic_sequence_4)
            ∷ []);
    ending = exited loader_failure;
  }

  -- The jump to an address, which `usize::try_from` gives.
  unfoldable pub jump : List String → Option ℕ → ℕ → ℕ → Machine S → Boot S
  unfolding fail
  jump records none contract length machine = fail records Error.elf_invalid
  jump records (some address) contract length machine = record {
    records = records;
    ending = transferred address contract length machine;
  }

  unfoldable pub transfer_to_kernel : List String → ℕ → ℕ → ℕ → Machine S → Boot S
  unfolding jump usize_from
  transfer_to_kernel records entry_point contract length machine =
      jump records (usize_from entry_point) contract length machine

  -- `main` from the result of `encode_contract` on.
  unfoldable pub after_encode :
      Result LoaderError (ℕ × List ℕ) → ℕ → ContractStorage → Machine S → Boot S
  unfolding fail panic_handler transfer_to_kernel
  after_encode (err error) entry_point storage machine = fail (loader_start ∷ elf_valid ∷ []) error
  after_encode panic entry_point storage machine = panic_handler (loader_start ∷ elf_valid ∷ []) 3
  after_encode (ok (length, output)) entry_point storage machine =
      transfer_to_kernel (loader_start ∷ elf_valid ∷ handoff_ready ∷ []) entry_point storage.base
        length (record machine { memory = copy_nonoverlapping output storage.base machine.memory })

module _ {S : Type 0} (firmware : Firmware S) (services : ExitServices S)
    (types : MemoryTypes) where
  -- From the result of `exit_boot_services` on.
  unfoldable pub after_exit :
      Option (List MemoryDescriptor × Machine S) → ℕ → ContractStorage → BootScenario → Boot S
  unfolding after_encode read_bytes
  after_exit none entry_point storage scenario = record {
    records = loader_start ∷ elf_valid ∷ [];
    ending = reset;
  }
  after_exit (some (memory_map, machine)) entry_point storage scenario =
      after_encode
        (encode_contract types (services.sort memory_map)
          (read_bytes machine.memory storage.base storage.byte_length) scenario)
        entry_point storage machine

  -- From the result of `prepare_kernel` on.
  unfoldable pub after_prepare :
      Result LoaderError ((ℕ × ContractStorage × BootScenario) × Machine S) → Boot S
  unfolding fail panic_handler after_exit
  after_prepare (err error) = fail (loader_start ∷ []) error
  after_prepare panic = panic_handler (loader_start ∷ []) 2
  after_prepare (ok ((entry_point, storage, scenario), machine)) =
      after_exit (services.exit_boot_services machine) entry_point storage scenario

  unfoldable pub main : Machine S → Boot S
  unfolding after_prepare
  main machine = after_prepare (prepare_kernel firmware machine)
