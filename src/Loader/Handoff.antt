-- ===== src/Loader/Handoff.antt =====
-- The handoff from `encode_contract` of crates/uefi-loader to `polytope_kernel_main` of crates/kernel.
use polytope_os.Base.{ℕ, list_eq, ◌≡◌, refl, sym, ap, ◌∙◌, arith}
use polytope_os.Base.{ok, err, List, All, take, take-append}
use polytope_os.Contract.Error
use polytope_os.Contract.Types
use polytope_os.Contract.Types.{BootInfo}
use polytope_os.Contract.Typed.{IsTyped}
use polytope_os.Contract.Layout.{layout, length-layout}
use polytope_os.Contract.Validate.{validate, validate_ref, validate_header}
use polytope_os.Contract.Wire.{parse}
use polytope_os.Contract.Wire.Parse.{parse-layout}
use polytope_os.Kernel.Diagnostics
use polytope_os.Kernel.Entry.{
  Outcome, ready, rejected, panic_handler, classify, reject_contract, run_scenario,
  polytope_kernel_main,
}
use polytope_os.Kernel.Entry.Verdict.{IsHandoffAddress, Holds, main_of_handoff, main_in_range}
use polytope_os.Loader.Scenario.{
  BootScenario, normal, incompatible_version, truncated_contract, deliberate_panic,
}
use polytope_os.Loader.Contract.{MemoryTypes, MemoryDescriptor, encode_contract}
use polytope_os.Loader.Contract.Spec.{scenario_for}
use polytope_os.Loader.Contract.Built.{IsTypedDescriptor}
use polytope_os.Loader.Contract.Handed.{
  IsUsable, contract_for, contract_for-IsTyped, contract_for-IsValid, written, encode_contract_iff,
}
use polytope_os.Loader.Contract.Sent.{sent, sent_length}

-- What a boot with the scenario ends in.
abbrev pub outcome_of : BootScenario → Outcome
outcome_of normal = ready
outcome_of incompatible_version = rejected Diagnostics.abi_version_rejected
outcome_of truncated_contract = rejected Diagnostics.contract_length_rejected
outcome_of deliberate_panic = panic_handler

pub sent-IsTyped :
    (scenario : BootScenario) (info : BootInfo) → IsTyped info → IsTyped (sent scenario info)
unfolding sent
sent-IsTyped normal info t = t
sent-IsTyped truncated_contract info t = t
sent-IsTyped deliberate_panic info t = t
sent-IsTyped incompatible_version info t = record {
  header = record {
    magic_length = t.header.magic_length;
    magic = t.header.magic;
    abi_major = omega arith;
    abi_minor = t.header.abi_minor;
    header_size = t.header.header_size;
    total_size = t.header.total_size;
    memory_region_size = t.header.memory_region_size;
    memory_region_count = t.header.memory_region_count;
    flags = t.header.flags;
  };
  platform = t.platform;
  scenario = t.scenario;
  regions_length = t.regions_length;
  regions = t.regions;
}

validate_other_major :
    (info : BootInfo)
    → info.header.magic ≡ Types.boot_magic
    → info.header.abi_major ≡ 2
    → validate info ≡ err (Error.unsupported_version 2 info.header.abi_minor)
unfolding validate validate_ref validate_header list_eq
validate_other_major info m a = rw (m, a)

module _ (types : MemoryTypes) (memory_map : List MemoryDescriptor)
    (t : All IsTypedDescriptor memory_map) (u : IsUsable types memory_map) where
  IsTyped-sent_contract :
      (scenario : BootScenario) → IsTyped (sent scenario (contract_for types memory_map scenario))
  IsTyped-sent_contract scenario =
      sent-IsTyped scenario (contract_for types memory_map scenario)
        (contract_for-IsTyped types memory_map scenario t u.fits u.count)

  take_written :
      (scenario : BootScenario) (storage : List ℕ)
      → take 4176 (written types memory_map scenario storage)
        ≡ layout (sent scenario (contract_for types memory_map scenario))
  take_written scenario storage =
      take-append _ _ 4176 (sym (length-layout _ (IsTyped-sent_contract scenario)))

  parse_incompatible :
      parse
        (layout (sent incompatible_version (contract_for types memory_map incompatible_version)))
      ≡ err (Error.unsupported_version 2 0)
  unfolding sent
  parse_incompatible =
      parse-layout _ (IsTyped-sent_contract incompatible_version)
      ∙ validate_other_major
          (sent incompatible_version (contract_for types memory_map incompatible_version)) refl refl

  Holds-for :
      (scenario : BootScenario) {bytes : List ℕ}
      → bytes ≡ layout (contract_for types memory_map scenario)
      → Holds bytes (scenario_for scenario).kind
  Holds-for scenario e = record {
    info = contract_for types memory_map scenario;
    typed = contract_for-IsTyped types memory_map scenario t u.fits u.count;
    valid = contract_for-IsValid types memory_map scenario u;
    laid_out = e;
    scenario = refl;
  }

  -- The handoff by the scenario, with what `encode_contract` wrote written out.
  handoff_sent :
      (scenario : BootScenario) (storage : List ℕ) (address : ℕ) (memory : ℕ → ℕ → List ℕ)
      → IsHandoffAddress address
      → memory address (sent_length scenario)
        ≡ take (sent_length scenario) (written types memory_map scenario storage)
      → polytope_kernel_main memory address (sent_length scenario) ≡ outcome_of scenario
  unfolding sent sent_length run_scenario classify reject_contract polytope_kernel_main
  handoff_sent normal storage address memory a m =
      main_of_handoff memory address 4176 0
        (refl, a, Holds-for normal (m ∙ take_written normal storage))
  handoff_sent deliberate_panic storage address memory a m =
      main_of_handoff memory address 4176 3
        (refl, a, Holds-for deliberate_panic (m ∙ take_written deliberate_panic storage))
  handoff_sent truncated_contract storage address memory a m = refl
  handoff_sent incompatible_version storage address memory a m =
      main_in_range memory address 4176 refl a
      ∙ ap classify (ap parse (m ∙ take_written incompatible_version storage) ∙ parse_incompatible)

-- For a memory map of descriptors whose fields are in the range of their types, and a contract that
-- `encode_contract` made from it: a kernel that is given the returned length, and finds that much of
-- the storage at a page-aligned address above 0, from which 4176 bytes fit into 64 bits, ends as the
-- scenario says. A normal boot is ready, the version test is refused for its version, the truncation
-- test for its length, and the panic test ends in the panic handler.
pub handoff_outcome :
    (types : MemoryTypes) (memory_map : List MemoryDescriptor) (scenario : BootScenario)
    (storage out : List ℕ) (n address : ℕ) (memory : ℕ → ℕ → List ℕ)
    → All IsTypedDescriptor memory_map
    → encode_contract types memory_map storage scenario ≡ ok (n, out)
    → IsHandoffAddress address
    → memory address n ≡ take n out
    → polytope_kernel_main memory address n ≡ outcome_of scenario
handoff_outcome types memory_map scenario storage out n address memory t e a m =
    let (u, _, size, bytes) = (encode_contract_iff types memory_map scenario storage t n out).0 e in
    rw size
      (handoff_sent types memory_map t u scenario storage address memory a (rw (size, bytes) at m))
