-- ===== src/Loader/Prepare.antt =====
-- crates/uefi-loader/src/main.rs: `read_bounded_file` and `prepare_kernel`. A path is the text of its
-- characters.
pub mod Files
pub mod Inputs
pub mod Pages
pub mod Correct
pub mod Examples
use polytope_os.Base.{ℕ, ◌+◌, ltb, leb, List, [], ◌∷◌, ◌++◌, length, Bool, if◌then◌else◌}
use polytope_os.Base.{Option, none, some, Result, ok, ◌>>=◌, ◌>>◌, ok_or, or_panic, map_err}
use polytope_os.Base.{reject, not, match_option}
use polytope_os.Base.Chunks.{Reads, new_length_of, read_loop}
use polytope_os.Harness.Text.{codes}
use polytope_os.Elf.Types.{max_elf_file_size}
use polytope_os.Elf.Parse
use polytope_os.Loader.Error
use polytope_os.Loader.Error.{LoaderError}
use polytope_os.Loader.Scenario
use polytope_os.Loader.Scenario.{BootScenario, max_scenario_bytes}
use polytope_os.Loader.Firmware.{Machine, Directory, Firmware}
use polytope_os.Loader.Load.{ContractStorage, load_segments, reserve_stack_guard, allocate}

abbrev pub file_read_chunk_bytes : ℕ
file_read_chunk_bytes = 65_536

-- `maximum.clamp(1, FILE_READ_CHUNK_BYTES)`
unfoldable pub chunk_length_of : ℕ → ℕ
chunk_length_of maximum =
    if ltb maximum 1
    then 1
    else if ltb file_read_chunk_bytes maximum
    then file_read_chunk_bytes
    else maximum

abbrev pub kernel_path : List ℕ
kernel_path = codes "\\POLYTOPE\\KERNEL.ELF"

abbrev pub scenario_path : List ℕ
scenario_path = codes "\\POLYTOPE\\BOOT.CFG"

module _ (reserve : ℕ → ℕ → Bool) where
  -- What a round of the loop does with a read of `length chunk` bytes, which is not 0. `&chunk[..count]`
  -- panics behind the end of the buffer.
  unfoldable pub take_chunk : ℕ → ℕ → LoaderError → List ℕ → List ℕ → Result LoaderError (List ℕ)
  take_chunk chunk_length maximum limit_error bytes chunk = do
    new_length ← ok_or (new_length_of (length bytes) (length chunk)) limit_error
    reject (ltb maximum new_length) limit_error
    reject (not (reserve (length bytes) (length chunk))) Error.allocation
    read ← or_panic (if leb (length chunk) chunk_length then some chunk else none)
    ok (bytes ++ read)

  -- The loop ends within two more rounds than the maximum.
  unfoldable pub read_file : Reads → ℕ → LoaderError → Option (Result LoaderError (List ℕ))
  unfolding chunk_length_of
  read_file reads maximum limit_error =
      read_loop (take_chunk (chunk_length_of maximum) maximum limit_error) Error.file_read
        (maximum + 2) reads 0 []

  -- The outcome of a loop that does not end is never taken.
  unfoldable pub read_bounded_file :
      Directory → List ℕ → ℕ → LoaderError → Result LoaderError (List ℕ)
  unfolding chunk_length_of read_file
  read_bounded_file root path maximum limit_error = do
    handle ← ok_or (root path) Error.file_read
    reads ← ok_or handle.into_regular_file Error.file_read
    reject (not (reserve 0 (chunk_length_of maximum))) Error.allocation
    match_option Result.panic (λ result. result) (read_file reads maximum limit_error)

module _ {S : Type 0} (firmware : Firmware S) where
  -- The block of `prepare_kernel` that reads the files.
  unfoldable pub read_inputs : Result LoaderError (List ℕ × BootScenario)
  unfolding read_bounded_file
  read_inputs = do
    protocol ← ok_or firmware.file_system Error.file_read
    root ← ok_or protocol Error.file_read
    kernel ← read_bounded_file firmware.reserve root kernel_path max_elf_file_size Error.elf_invalid
    scenario_bytes ←
        read_bounded_file firmware.reserve root scenario_path max_scenario_bytes
          Error.config_invalid
    scenario ← map_err (λ _. Error.config_invalid) (Scenario.parse scenario_bytes)
    ok (kernel, scenario)

  -- `prepare_kernel`, on the machine once the files are read. The memory of its vectors is not part of
  -- the machine.
  unfoldable pub prepare_kernel :
      Machine S → Result LoaderError ((ℕ × ContractStorage × BootScenario) × Machine S)
  unfolding read_inputs
  prepare_kernel machine = do
    (kernel, scenario) ← read_inputs
    elf ← map_err (λ _. Error.elf_invalid) (Parse.parse kernel)
    loaded ← load_segments firmware elf machine
    guarded ← reserve_stack_guard firmware loaded
    (contract_storage, machine') ← allocate firmware guarded
    ok ((elf.entry_point, contract_storage, scenario), machine')
