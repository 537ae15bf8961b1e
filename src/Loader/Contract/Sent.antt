-- ===== src/Loader/Contract/Sent.antt =====
-- crates/uefi-loader/src/main.rs: the scenarios, and what `encode_contract` changes for the tests.
use polytope_os.Base.{ℕ, ◌+◌, ◌≡◌, inl, refl, sym, ap, ◌∙◌, arith}
use polytope_os.Base.{ok, or_panic, some, le→leb}
use polytope_os.Base.{List, [], ◌++◌, append_assoc, length, length-append, drop}
use polytope_os.Base.{take-append, drop-append}
use polytope_os.Base.Bytes.{to_le, length-to_le}
use polytope_os.Contract.Types.{BootInfo}
use polytope_os.Contract.Typed.{IsTypedPlatform, IsTypedScenario}
use polytope_os.Contract.Builder.{new, x86_64_uefi, test_scenario}
use polytope_os.Contract.Layout.{layout, platform_layout, scenario_layout, regions_layout}
use polytope_os.Contract.Validate.Spec.{IsValidPlatform, IsValidScenario}
use polytope_os.Loader.Scenario.{
  BootScenario, normal, incompatible_version, truncated_contract, deliberate_panic,
}
use polytope_os.Loader.Contract.Spec.{platform_for, scenario_for}
use polytope_os.Contract.Builder.Filled.{filled}
use polytope_os.Loader.Contract.{scenario_info, overwrite, patch_version, handed_length}

-- What the kernel finds at the address: the contract, or the contract with another version.
unfoldable pub sent : BootScenario → BootInfo → BootInfo
sent incompatible_version info = record info { header = record (info.header) { abi_major = 2 } }
sent scenario info = info

unfoldable pub sent_length : BootScenario → ℕ
sent_length truncated_contract = 4175
sent_length scenario = 4176

-- The contract as the code starts it.
pub new-scenario_info :
    (scenario : BootScenario)
    → new (x86_64_uefi 0) (scenario_info scenario) ≡ filled platform_for (scenario_for scenario) []
unfolding new x86_64_uefi scenario_info test_scenario
new-scenario_info normal = refl
new-scenario_info incompatible_version = refl
new-scenario_info truncated_contract = refl
new-scenario_info deliberate_panic = refl

pub platform_for-IsTyped : IsTypedPlatform platform_for
platform_for-IsTyped = omega arith

pub platform_for-IsValid : IsValidPlatform platform_for
platform_for-IsValid = record {
  firmware = refl;
  architecture = refl;
  rsdp = inl (refl, refl, refl);
}

pub scenario_for-IsTyped : (scenario : BootScenario) → IsTypedScenario (scenario_for scenario)
scenario_for-IsTyped normal = omega arith
scenario_for-IsTyped incompatible_version = omega arith
scenario_for-IsTyped truncated_contract = omega arith
scenario_for-IsTyped deliberate_panic = omega arith

pub scenario_for-IsValid : (scenario : BootScenario) → IsValidScenario (scenario_for scenario)
scenario_for-IsValid normal = inl (refl, refl, refl)
scenario_for-IsValid incompatible_version = omega arith
scenario_for-IsValid truncated_contract = omega arith
scenario_for-IsValid deliberate_panic = omega arith

overwrite-append :
    (a b c value : List ℕ)
    → length value ≡ length b
    → overwrite (a ++ (b ++ c)) (length a) value ≡ some (a ++ (value ++ c))
unfolding overwrite
overwrite-append a b c value same =
    let front = take-append a (b ++ c) (length a) refl in
    let back : drop (length a + length value) (a ++ (b ++ c)) ≡ c =
      ap (drop (length a + length value)) (sym (append_assoc a b c))
      ∙ drop-append (a ++ b) c (length a + length value) (omega (arith, length-append a b)) in
    let fits =
      le→leb (length a + length value) (length (a ++ (b ++ c)))
        (omega (arith, length-append a (b ++ c), length-append b c)) in
    rw (fits, front, back)

-- The bytes of the header behind the major version.
abbrev behind_major : BootInfo → List ℕ
behind_major info =
    to_le 2 info.header.abi_minor
    ++ (to_le 4 info.header.header_size
        ++ (to_le 4 info.header.total_size
            ++ (to_le 4 info.header.memory_region_size
                ++ (to_le 4 info.header.memory_region_count ++ to_le 4 info.header.flags))))

-- The bytes of the contract behind the header.
abbrev behind_header : BootInfo → List ℕ
behind_header info =
    platform_layout info.platform
    ++ (scenario_layout info.scenario ++ regions_layout info.memory_regions)

nested : (a b c d rest : List ℕ) → ((a ++ (b ++ c)) ++ d) ++ rest ≡ a ++ (b ++ (c ++ (d ++ rest)))
nested a b c d rest = simp append_assoc

layout_parts :
    (info : BootInfo) (rest : List ℕ)
    → layout info ++ rest
      ≡ info.header.magic
        ++ (to_le 2 info.header.abi_major ++ (behind_major info ++ (behind_header info ++ rest)))
unfolding layout
layout_parts info rest =
    nested info.header.magic (to_le 2 info.header.abi_major) (behind_major info)
      (behind_header info) rest

pub patch_version-layout :
    (scenario : BootScenario) (info : BootInfo) (rest : List ℕ)
    → length info.header.magic ≡ 8
    → patch_version scenario (layout info ++ rest) ≡ ok (layout (sent scenario info) ++ rest)
unfolding patch_version sent
patch_version-layout incompatible_version info rest m =
    let patched : BootInfo = record info { header = record (info.header) { abi_major = 2 } } in
    let same =
      overwrite-append info.header.magic (to_le 2 info.header.abi_major)
        (behind_major info ++ (behind_header info ++ rest)) (to_le 2 2)
        (length-to_le 2 2 ∙ sym (length-to_le 2 info.header.abi_major)) in
    rw (layout_parts info rest, layout_parts patched rest) (ap or_panic (rw m at same))
patch_version-layout normal info rest m = refl
patch_version-layout truncated_contract info rest m = refl
patch_version-layout deliberate_panic info rest m = refl

pub handed_length_lem :
    (scenario : BootScenario) → handed_length scenario 4176 ≡ ok (sent_length scenario)
unfolding handed_length sent_length
handed_length_lem normal = refl
handed_length_lem incompatible_version = refl
handed_length_lem truncated_contract = refl
handed_length_lem deliberate_panic = refl
