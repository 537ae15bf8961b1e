-- ===== src/Loader/Prepare/Inputs.antt =====
-- crates/uefi-loader/src/main.rs: the inputs that `prepare_kernel` reads.
use polytope_os.Base.{ℕ, zero, suc, ◌+◌, ◌≡◌, inl, inr, ap, ◌∙◌}
use polytope_os.Base.{List, All, All-append, some, Option-cases}
use polytope_os.Base.{ok, >>=-eq-ok, ok_or, ok_or-eq-ok, map_err, map_err_ok}
use polytope_os.Base.Bytes.{IsByte}
use polytope_os.Base.Chunks.{Reads}
use polytope_os.Base.Chunks.Ends.{contents}
use polytope_os.Elf.Types.{max_elf_file_size}
use polytope_os.Loader.Error
use polytope_os.Loader.Error.{LoaderError}
use polytope_os.Loader.Scenario
use polytope_os.Loader.Scenario.{BootScenario, max_scenario_bytes}
use polytope_os.Loader.Firmware.{Handle, Directory, Firmware}
use polytope_os.Loader.Prepare.{kernel_path, scenario_path, read_bounded_file, read_inputs}
use polytope_os.Loader.Prepare.Files.{IsRead, read_bounded_file-IsRead}

-- A read of a file returns bytes.
pub record ReadsBytes {S : Type 0} (firmware : Firmware S) : Type 0 where
  pub bytes :
      (root : Directory) (path : List ℕ) (handle : Handle) (reads : Reads) (at : ℕ) (chunk : List ℕ)
      → firmware.file_system ≡ some (some root)
      → root path ≡ some handle
      → handle.into_regular_file ≡ some reads
      → reads at ≡ some chunk
      → All IsByte chunk

IsByte-contents :
    (reads : Reads) (at n : ℕ)
    → ((at : ℕ) (chunk : List ℕ) → reads at ≡ some chunk → All IsByte chunk)
    → All IsByte (contents reads at n)
IsByte-contents reads at zero h = tt
IsByte-contents reads at (suc n) h = elim (Option-cases (reads at)) [
  | inl failed ↦ rw failed (IsByte-contents reads (at + 1) n h)
  | inr (chunk, found) ↦ rw found (
      All-append IsByte chunk (contents reads (at + 1) n) (h at chunk found)
        (IsByte-contents reads (at + 1) n h))
]

module _ {S : Type 0} (firmware : Firmware S) where
  -- The inputs, as they stand in the files.
  pub record IsInputs (kernel : List ℕ) (scenario : BootScenario) : Type 0 where
    pub root : Directory
    pub scenario_bytes : List ℕ
    pub mounted : firmware.file_system ≡ some (some root)
    pub kernel_read : IsRead firmware.reserve root kernel_path max_elf_file_size kernel
    pub scenario_read : IsRead firmware.reserve root scenario_path max_scenario_bytes scenario_bytes
    pub scenario_parsed : Scenario.parse scenario_bytes ≡ ok scenario

  pub read_inputs-IsInputs :
      (kernel : List ℕ) (scenario : BootScenario)
      → read_inputs firmware ≡ ok (kernel, scenario)
      → IsInputs kernel scenario
  unfolding read_inputs
  read_inputs-IsInputs kernel scenario e =
      let (protocol, found, e1) = >>=-eq-ok (ok_or firmware.file_system Error.file_read) _ e in
      let (root, opened, e2) = >>=-eq-ok (ok_or protocol Error.file_read) _ e1 in
      let (kernel', kernel_read, e3) =
        >>=-eq-ok
          (read_bounded_file firmware.reserve root kernel_path max_elf_file_size Error.elf_invalid)
          _ e2 in
      let (scenario_bytes, scenario_read, e4) =
        >>=-eq-ok
          (read_bounded_file firmware.reserve root scenario_path max_scenario_bytes
            Error.config_invalid)
          _ e3 in
      let (scenario', parsed, e5) =
        >>=-eq-ok (map_err (λ _. Error.config_invalid) (Scenario.parse scenario_bytes)) _ e4 in
      let same_kernel : kernel' ≡ kernel = cc in
      let same_scenario : scenario' ≡ scenario = cc in
      let same_root : protocol ≡ some root = ok_or-eq-ok protocol Error.file_read opened in
      record {
        root = root;
        scenario_bytes = scenario_bytes;
        mounted = ok_or-eq-ok firmware.file_system Error.file_read found ∙ ap some same_root;
        kernel_read = rw same_kernel at (
            read_bounded_file-IsRead firmware.reserve root kernel_path max_elf_file_size
              Error.elf_invalid kernel' kernel_read);
        scenario_read =
            read_bounded_file-IsRead firmware.reserve root scenario_path max_scenario_bytes
              Error.config_invalid scenario_bytes scenario_read;
        scenario_parsed =
            map_err_ok (λ _. Error.config_invalid) (Scenario.parse scenario_bytes) parsed
            ∙ ap ok same_scenario;
      }

  pub IsByte-kernel :
      (kernel : List ℕ) (scenario : BootScenario)
      → ReadsBytes firmware
      → IsInputs kernel scenario
      → All IsByte kernel
  IsByte-kernel kernel scenario h inputs =
      let r = inputs.kernel_read in
      rw r.whole.all_bytes (
        IsByte-contents r.reads 0 r.whole.count (λ at chunk found.
          h.bytes inputs.root kernel_path r.handle r.reads at chunk inputs.mounted r.opened
            r.regular found))
