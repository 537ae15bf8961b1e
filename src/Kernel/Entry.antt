-- ===== src/Kernel/Entry.antt =====
-- crates/kernel/src/bin/x86_64.rs: `polytope_kernel_main` and the panic handler. Neither returns: the
-- outcome is the record on the console and the exit code. The memory that the raw pointer reaches is
-- a parameter, which gives the bytes at an address.
pub mod Verdict
use Prim.Native.String.{String}
use polytope_os.Base.{ℕ, ◌+◌, ◌%◌, ◌^◌, ltb, ◌==◌, List, Bool, not, ◌||◌, if◌then◌else◌}
use polytope_os.Base.{Result, ok, err, panic}
use polytope_os.Contract.Error
use polytope_os.Contract.Error.{ValidationError}
use polytope_os.Contract.Types
use polytope_os.Contract.Types.{ValidatedBootInfo}
use polytope_os.Contract.Wire.{parse}
use polytope_os.Kernel.Diagnostics
use polytope_os.Kernel.Diagnostics.{QemuExitCode, success, contract_rejected, panicked}

pub record Outcome : Type 0 where
  pub written : String
  pub code : QemuExitCode

-- `write_record` and `qemu_exit`
abbrev pub ready : Outcome
ready = record { written = Diagnostics.kernel_ready; code = success }

-- A rejection with its record.
abbrev pub rejected : String → Outcome
rejected written = record { written = written; code = contract_rejected }

-- The panic handler.
abbrev pub panic_handler : Outcome
panic_handler = record { written = Diagnostics.kernel_panic; code = panicked }

-- The `match` on an error of `parse`.
unfoldable pub reject_contract : ValidationError → Outcome
reject_contract (Error.unsupported_version major minor) = rejected Diagnostics.abi_version_rejected
reject_contract (Error.truncated provided required) = rejected Diagnostics.contract_length_rejected
reject_contract (Error.length_mismatch provided declared) =
    rejected Diagnostics.contract_length_rejected
reject_contract error = rejected Diagnostics.contract_invalid

-- The `match` on the kind of the scenario.
unfoldable pub run_scenario : ℕ → Outcome
run_scenario kind =
    if kind == Types.normal
    then ready
    else if kind == Types.deliberate_panic
    then panic_handler
    else rejected Diagnostics.contract_invalid

-- The `match` on what `parse` returns; a panic in it would reach the handler too.
unfoldable pub classify : Result ValidationError ValidatedBootInfo → Outcome
unfolding reject_contract run_scenario
classify (ok boot_info) = run_scenario boot_info.info.scenario.kind
classify (err error) = reject_contract error
classify panic = panic_handler

unfoldable pub polytope_kernel_main : (ℕ → ℕ → List ℕ) → ℕ → ℕ → Outcome
unfolding classify
polytope_kernel_main memory contract length =
    if not (length == Types.boot_info_size)
    then rejected Diagnostics.contract_length_rejected
    else if contract == 0
        || not (contract % Types.page_size == 0)
        || not (ltb (contract + length) (2 ^ 64))
    then rejected Diagnostics.contract_invalid
    else classify (parse (memory contract length))
