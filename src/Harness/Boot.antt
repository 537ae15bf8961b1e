-- ===== src/Harness/Boot.antt =====
-- A boot from the loader's records to the verdict of crates/xtask/src/qemu.rs. The emulator is not part
-- of the repository: its exit status for a guest value is a parameter.
use polytope_os.Base.{ℕ, ◌+◌, ◌*◌, ◌≡◌, refl, ap, ◌∙◌, List, ◌++◌, All, take, drop, list_eq}
use polytope_os.Base.{false, some, ok}
use polytope_os.Kernel.Diagnostics.{guest_value}
use polytope_os.Kernel.Console.{write_record}
use polytope_os.Kernel.Entry.{Outcome, polytope_kernel_main}
use polytope_os.Kernel.Entry.Verdict.{IsHandoffAddress}
use polytope_os.Loader.Main
use polytope_os.Loader.Scenario
use polytope_os.Loader.Scenario.{BootScenario}
use polytope_os.Loader.Contract.{MemoryTypes, MemoryDescriptor, encode_contract}
use polytope_os.Loader.Contract.Built.{IsTypedDescriptor}
use polytope_os.Loader.Handoff.{outcome_of, handoff_outcome}
use polytope_os.Harness.Text.{
  codes, starts_with, strip_prefix, all, split_spaces, is_digit, is_lowercase, is_uppercase,
  parse_digits, parse_u16, strip_return,
}
use polytope_os.Harness.Records.{
  valid_record_grammar, record_sequence, record_kind, loader_failure_kind,
}
use polytope_os.Harness.Protocol.{
  BootClassification, ready, rejected, panic, parse_protocol_stream, classify_boot,
}

-- The debug console of a boot that was handed over and ended in the outcome.
abbrev pub boot_log : Outcome → List ℕ
boot_log outcome =
    write_record (codes Main.loader_start)
    ++ (write_record (codes Main.elf_valid)
        ++ (write_record (codes Main.handoff_ready) ++ write_record (codes outcome.written)))

-- What the harness makes of the log and the exit status.
abbrev pub verdict : (ℕ → ℕ) → Outcome → BootClassification
verdict qemu_status outcome =
    classify_boot false (some (qemu_status (guest_value outcome.code)))
      (parse_protocol_stream (boot_log outcome) false)

-- The class of a scenario.
abbrev pub expected : BootScenario → BootClassification
expected Scenario.normal = ready
expected Scenario.incompatible_version = rejected
expected Scenario.truncated_contract = rejected
expected Scenario.deliberate_panic = panic

-- The status of a guest value, as the comment of `QemuExitCode` documents it.
abbrev pub documented_status : ℕ → ℕ
documented_status value = value * 2 + 1

verdict-outcome_of :
    (scenario : BootScenario) → verdict documented_status (outcome_of scenario) ≡ expected scenario
unfolding classify_boot parse_protocol_stream starts_with strip_prefix all split_spaces is_digit
    is_lowercase is_uppercase parse_digits parse_u16 strip_return valid_record_grammar
    record_sequence record_kind loader_failure_kind list_eq drop take write_record guest_value
verdict-outcome_of Scenario.normal = refl
verdict-outcome_of Scenario.incompatible_version = refl
verdict-outcome_of Scenario.truncated_contract = refl
verdict-outcome_of Scenario.deliberate_panic = refl

status_documented :
    (qemu_status : ℕ → ℕ) (outcome : Outcome)
    → ((value : ℕ) → qemu_status value ≡ documented_status value)
    → verdict qemu_status outcome ≡ verdict documented_status outcome
status_documented qemu_status outcome documented =
    ap (λ s. classify_boot false (some s) (parse_protocol_stream (boot_log outcome) false))
      (documented (guest_value outcome.code))

-- For a memory map of descriptors whose fields are in the range of their types, a contract that
-- `encode_contract` made from it, and an emulator whose exit status for a guest value is twice the
-- value and 1: if the kernel is given the returned length, and finds that much of the storage at a
-- page-aligned address above 0, from which 4176 bytes fit into 64 bits, the harness classifies the log
-- of the loader and the kernel as the scenario says. A normal boot is ready, the version test and the
-- truncation test are rejected, and the panic test is a panic.
pub boot_verdict :
    (types : MemoryTypes) (memory_map : List MemoryDescriptor) (scenario : BootScenario)
    (storage out : List ℕ) (n address : ℕ) (memory : ℕ → ℕ → List ℕ) (qemu_status : ℕ → ℕ)
    → ((value : ℕ) → qemu_status value ≡ documented_status value)
    → All IsTypedDescriptor memory_map
    → encode_contract types memory_map storage scenario ≡ ok (n, out)
    → IsHandoffAddress address
    → memory address n ≡ take n out
    → verdict qemu_status (polytope_kernel_main memory address n) ≡ expected scenario
boot_verdict types memory_map scenario storage out n address memory qemu_status documented t e a m =
    ap (verdict qemu_status)
      (handoff_outcome types memory_map scenario storage out n address memory t e a m)
    ∙ status_documented qemu_status (outcome_of scenario) documented
    ∙ verdict-outcome_of scenario
