-- ===== src/Loader/Main/Steps.antt =====
-- crates/uefi-loader/src/main.rs: the steps of a `main` that transfers to the kernel.
use Prim.Native.String.{String}
use polytope_os.Base.{ℕ, ◌≡◌, refl, arith, ap, ◌∙◌, sym}
use polytope_os.Base.{List, [], ◌∷◌, Option, none, some}
use polytope_os.Base.{Result, ok, err, panic}
use polytope_os.Loader.Error
use polytope_os.Loader.Error.{LoaderError}
use polytope_os.Loader.Scenario.{BootScenario}
use polytope_os.Loader.Contract.{MemoryTypes, MemoryDescriptor, encode_contract}
use polytope_os.Loader.Firmware.{Machine, Firmware, copy_nonoverlapping}
use polytope_os.Loader.Load.{ContractStorage, usize_from}
use polytope_os.Loader.Prepare.{prepare_kernel}
use polytope_os.Loader.Main.{
  Boot, transferred, exited, reset, ExitServices, read_bytes, fail, panic_handler, jump,
  transfer_to_kernel, after_encode, after_exit, after_prepare, main,
}
use polytope_os.Loader.Main

module _ {S : Type 0} (firmware : Firmware S) (services : ExitServices S)
    (types : MemoryTypes) where
  -- The steps of a run that transfers.
  pub record Transfers (m : Machine S) (records : List String) (entry address size : ℕ)
      (m' : Machine S) : Type 0 where
    pub storage : ContractStorage
    pub scenario : BootScenario
    pub prepared : Machine S
    pub left : Machine S
    pub memory_map : List MemoryDescriptor
    pub out : List ℕ
    pub prepares : prepare_kernel firmware m ≡ ok ((entry, storage, scenario), prepared)
    pub leaves : services.exit_boot_services prepared ≡ some (memory_map, left)
    pub encodes :
        encode_contract types
          (services.sort memory_map)
          (read_bytes left.memory storage.base storage.byte_length)
          scenario
        ≡ ok (size, out)
    pub at_base : address ≡ storage.base
    pub copied : m' ≡ record left { memory = copy_nonoverlapping out storage.base left.memory }
    pub three_records : records ≡ Main.loader_start ∷ Main.elf_valid ∷ Main.handoff_ready ∷ []

  -- A boot that transfers.
  abbrev Sends : Boot S → List String → ℕ → ℕ → ℕ → Machine S → Type 0
  Sends boot records entry address size m' =
      boot ≡ record { records = records; ending = transferred entry address size m' }

  not_failed :
      (before records : List String) (error : LoaderError) (entry address size : ℕ) (m' : Machine S)
      → ¬ Sends (fail before error) records entry address size m'
  unfolding fail
  not_failed before records error entry address size m' e = cc

  not_panicked :
      (before records : List String) (sequence entry address size : ℕ) (m' : Machine S)
      → ¬ Sends (panic_handler before sequence) records entry address size m'
  unfolding panic_handler
  not_panicked before records sequence entry address size m' e = cc

  same_boot :
      (before records : List String) (entry entry' base address n size : ℕ) (m m' : Machine S)
      → Sends
          (record { records = before; ending = transferred entry base n m })
          records
          entry'
          address
          size
          m'
      → (before ≡ records) × (entry ≡ entry') × (base ≡ address) × (n ≡ size) × (m ≡ m')
  same_boot before records entry entry' base address n size m m' e = (cc, cc, cc, cc, cc)

  jump_values :
      (before records : List String) (jumps : Option ℕ) (entry base address n size : ℕ)
      (m m' : Machine S)
      → Sends (jump before jumps base n m) records entry address size m'
      → (before ≡ records) × (jumps ≡ some entry) × (base ≡ address) × (n ≡ size) × (m ≡ m')
  unfolding jump
  jump_values before records none entry base address n size m m' e =
      absurd (not_failed before records Error.elf_invalid entry address size m' e)
  jump_values before records (some entry') entry base address n size m m' e =
      let (b, en, ba, s, ma) = same_boot before records entry' entry base address n size m m' e in
      (b, ap some en, ba, s, ma)

  same_entry : (entry' entry : ℕ) → usize_from entry' ≡ some entry → entry' ≡ entry
  unfolding usize_from
  same_entry entry' entry e = ground arith

  -- What is left of the steps behind the exit.
  record Encodes (result : Result LoaderError (ℕ × List ℕ)) (records : List String)
      (entry' entry address size : ℕ) (storage : ContractStorage) (left m' : Machine S)
      : Type 0 where
    out : List ℕ
    encodes : result ≡ ok (size, out)
    entries : entry' ≡ entry
    at_base : storage.base ≡ address
    copied : record left { memory = copy_nonoverlapping out storage.base left.memory } ≡ m'
    three_records : Main.loader_start ∷ Main.elf_valid ∷ Main.handoff_ready ∷ [] ≡ records

  after_encode-Encodes :
      (result : Result LoaderError (ℕ × List ℕ)) (records : List String)
      (entry' entry address size : ℕ) (storage : ContractStorage) (left m' : Machine S)
      → Sends (after_encode result entry' storage left) records entry address size m'
      → Encodes result records entry' entry address size storage left m'
  unfolding after_encode transfer_to_kernel
  after_encode-Encodes (err error) records entry' entry address size storage left m' e =
      absurd
        (not_failed (Main.loader_start ∷ Main.elf_valid ∷ []) records error entry address size m' e)
  after_encode-Encodes panic records entry' entry address size storage left m' e =
      absurd
        (not_panicked (Main.loader_start ∷ Main.elf_valid ∷ []) records 3 entry address size m' e)
  after_encode-Encodes (ok (n, out)) records entry' entry address size storage left m' e =
      let (before, jumps, base, sizes, machines) =
        jump_values _ records (usize_from entry') entry storage.base address n size
          (record left { memory = copy_nonoverlapping out storage.base left.memory }) m' e in
      record {
        out = out;
        encodes = ap (λ k. ok (k, out)) sizes;
        entries = same_entry entry' entry jumps;
        at_base = base;
        copied = machines;
        three_records = before;
      }

  after_exit-Transfers :
      (m prepared m' : Machine S) (records : List String) (entry' entry address size : ℕ)
      (storage : ContractStorage) (scenario : BootScenario)
      (exit : Option (List MemoryDescriptor × Machine S))
      → prepare_kernel firmware m ≡ ok ((entry', storage, scenario), prepared)
      → services.exit_boot_services prepared ≡ exit
      → Sends
          (after_exit firmware services types exit entry' storage scenario)
          records
          entry
          address
          size
          m'
      → Transfers m records entry address size m'
  unfolding after_exit
  after_exit-Transfers m prepared m' records entry' entry address size storage scenario none
        prepares leaves e =
      cc
  after_exit-Transfers m prepared m' records entry' entry address size storage scenario
        (some (memory_map, left)) prepares leaves e =
      let r = after_encode-Encodes _ records entry' entry address size storage left m' e in
      record {
        storage = storage;
        scenario = scenario;
        prepared = prepared;
        left = left;
        memory_map = memory_map;
        out = r.out;
        prepares = prepares ∙ ap (λ en. ok ((en, storage, scenario), prepared)) r.entries;
        leaves = leaves;
        encodes = r.encodes;
        at_base = sym r.at_base;
        copied = sym r.copied;
        three_records = sym r.three_records;
      }

  after_prepare-Transfers :
      (m m' : Machine S) (records : List String) (entry address size : ℕ)
      (result : Result LoaderError ((ℕ × ContractStorage × BootScenario) × Machine S))
      → prepare_kernel firmware m ≡ result
      → Sends (after_prepare firmware services types result) records entry address size m'
      → Transfers m records entry address size m'
  unfolding after_prepare
  after_prepare-Transfers m m' records entry address size (err error) prepares e =
      absurd (not_failed (Main.loader_start ∷ []) records error entry address size m' e)
  after_prepare-Transfers m m' records entry address size panic prepares e =
      absurd (not_panicked (Main.loader_start ∷ []) records 2 entry address size m' e)
  after_prepare-Transfers m m' records entry address size
        (ok ((entry', storage, scenario), prepared)) prepares e =
      after_exit-Transfers m prepared m' records entry' entry address size storage scenario
        (services.exit_boot_services prepared) prepares refl e

  pub main-Transfers :
      (m m' : Machine S) (records : List String) (entry address size : ℕ)
      → Sends (main firmware services types m) records entry address size m'
      → Transfers m records entry address size m'
  unfolding main
  main-Transfers m m' records entry address size e =
      after_prepare-Transfers m m' records entry address size (prepare_kernel firmware m) refl e
