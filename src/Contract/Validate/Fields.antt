-- ===== src/Contract/Validate/Fields.antt =====
-- crates/boot-contract/src/lib.rs: the checks of the header, the platform and the scenario.
use polytope_os.Base.{ℕ, ◌-◌, ◌*◌, ◌/◌, ◌%◌, ◌^◌, ◌≡◌, ◌↔◌, refl, ok, arith, bit_and, list_eq_iff}
use polytope_os.Base.Bits.{not_bits, bit_and-ones, bit_and-shift}
use polytope_os.Contract.Types.{BootHeader, PlatformInfo, ScenarioInfo}
use polytope_os.Contract.Types
use polytope_os.Contract.Typed.{IsTypedHeader, IsTypedPlatform, IsTypedScenario}
use polytope_os.Contract.Validate.{validate_header, validate_platform, validate_scenario}
use polytope_os.Contract.Validate.Spec.{IsValidHeader, IsValidPlatform, IsValidScenario}

-- `flags & !0`, `flags & !1` and `flags & 1`.
all_flags : (f : ℕ) → bit_and f (not_bits 32 0) ≡ f % 2 ^ 32
all_flags f = bit_and-ones 32 f (not_bits 32 0) refl

high_flags32 : (f : ℕ) → bit_and f (not_bits 32 1) ≡ f / 2 % 2 ^ 31 * 2
high_flags32 f =
    omega (arith, bit_and-shift 1 f (2 ^ 31 - 1), bit_and-ones 31 (f / 2) (2 ^ 31 - 1) refl)

high_flags64 : (f : ℕ) → bit_and f (not_bits 64 1) ≡ f / 2 % 2 ^ 63 * 2
high_flags64 f =
    omega (arith, bit_and-shift 1 f (2 ^ 63 - 1), bit_and-ones 63 (f / 2) (2 ^ 63 - 1) refl)

low_flag : (f : ℕ) → bit_and f 1 ≡ f % 2
low_flag f = bit_and-ones 1 f 1 refl

pub validate_header_iff :
    (h : BootHeader) → IsTypedHeader h → (validate_header h ≡ ok tt) ↔ IsValidHeader h
unfolding validate_header
validate_header_iff h t = ground (arith, list_eq_iff h.magic Types.boot_magic, all_flags h.flags)

pub validate_platform_iff :
    (p : PlatformInfo) → IsTypedPlatform p → (validate_platform p ≡ ok tt) ↔ IsValidPlatform p
unfolding validate_platform
validate_platform_iff p t = ground (arith, high_flags64 p.flags, low_flag p.flags)

pub validate_scenario_iff :
    (s : ScenarioInfo) → IsTypedScenario s → (validate_scenario s ≡ ok tt) ↔ IsValidScenario s
unfolding validate_scenario
validate_scenario_iff s t = ground (arith, high_flags32 s.flags, low_flag s.flags)
