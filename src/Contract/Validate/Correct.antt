-- ===== src/Contract/Validate/Correct.antt =====
-- crates/boot-contract/src/lib.rs: `validate_ref` and the specification of a valid contract.
use polytope_os.Base.{ℕ, ◌+◌, ◌≤◌, ◌≡◌, ◌≢◌, ◌↔◌, arith, List, [], ◌∷◌}
use polytope_os.Base.{ok, panic, >>=-eq-ok, >>=-ne-panic}
use polytope_os.Base.{Option, none, some, length}
use polytope_os.Contract.Types.{BootHeader, PlatformInfo, ScenarioInfo, MemoryRegion, BootInfo}
use polytope_os.Contract.Typed.{IsTyped}
use polytope_os.Contract.Validate.{
  validate_header, validate_platform, validate_scenario, validate_regions, validate_ref, region_end,
  follows_previous, check_active, check_unused,
}
use polytope_os.Contract.Validate.Spec.{IsValid, IsValidHeader, active, unused}
use polytope_os.Contract.Validate.Fields.{
  validate_header_iff, validate_platform_iff, validate_scenario_iff,
}
use polytope_os.Contract.Validate.Regions.{validate_regions_iff, validate_regions_lem}

-- A contract whose fields are in the range of their types passes `validate_ref` exactly when it is
-- valid.
pub validate_ref_iff : (info : BootInfo) → IsTyped info → (validate_ref info ≡ ok tt) ↔ IsValid info
unfolding validate_ref
validate_ref_iff info t = (
  λ h.
      let (u, hh, h1) = >>=-eq-ok (validate_header info.header) _ h in
      let (v, hp, h2) = >>=-eq-ok (validate_platform info.platform) _ h1 in
      let (w, hs, h3) = >>=-eq-ok (validate_scenario info.scenario) _ h2 in
      let (x, hr, h4) = >>=-eq-ok (validate_regions info) _ h3 in
      let header = (validate_header_iff info.header t.header).0 hh in
      let (rs, os, zs) = (validate_regions_iff info (regions_fit info t header)).0 hr in
      record {
        header = header;
        platform = (validate_platform_iff info.platform t.platform).0 hp;
        scenario = (validate_scenario_iff info.scenario t.scenario).0 hs;
        regions = rs;
        ordered = os;
        zeroed = zs;
      },
  λ v. rw (
    (validate_header_iff info.header t.header).1 v.header,
    (validate_platform_iff info.platform t.platform).1 v.platform,
    (validate_scenario_iff info.scenario t.scenario).1 v.scenario,
    (validate_regions_iff info (regions_fit info t v.header)).1 (v.regions, v.ordered, v.zeroed),
  ),
)
  where
    regions_fit :
        (i : BootInfo)
        → IsTyped i
        → IsValidHeader i.header
        → i.header.memory_region_count ≤ length i.memory_regions
    regions_fit i t v = rw t.regions_length v.memory_region_count

region_end-ne-panic : (index : ℕ) (r : MemoryRegion) → region_end index r ≢ panic
unfolding region_end
region_end-ne-panic index r = ground arith

follows_previous-ne-panic :
    (index : ℕ) (previous : Option (ℕ × ℕ × ℕ)) (r : MemoryRegion)
    → follows_previous index previous r ≢ panic
unfolding follows_previous
follows_previous-ne-panic index none r = ground arith
follows_previous-ne-panic index (some p) r = ground arith

check_active-ne-panic :
    (index : ℕ) (previous : Option (ℕ × ℕ × ℕ)) (rs : List MemoryRegion)
    → check_active index previous rs ≢ panic
unfolding check_active
check_active-ne-panic index previous [] = λ p. cc
check_active-ne-panic index previous (r ∷ rs) =
    >>=-ne-panic (region_end index r) _ (region_end-ne-panic index r) λ e _.
      >>=-ne-panic (follows_previous index previous r) _
        (follows_previous-ne-panic index previous r)
        λ _ _. check_active-ne-panic (index + 1) (some (index, r.start, e)) rs

check_unused-ne-panic :
    (count offset : ℕ) (rs : List MemoryRegion) → check_unused count offset rs ≢ panic
unfolding check_unused
check_unused-ne-panic count offset [] = λ p. cc
check_unused-ne-panic count offset (r ∷ rs) =
    ground (arith, check_unused-ne-panic count (offset + 1) rs)

header-ne-panic : (h : BootHeader) → validate_header h ≢ panic
unfolding validate_header
header-ne-panic h = ground arith

header_count : (h : BootHeader) → validate_header h ≡ ok tt → h.memory_region_count ≤ 128
unfolding validate_header
header_count h e = ground arith

platform-ne-panic : (p : PlatformInfo) → validate_platform p ≢ panic
unfolding validate_platform
platform-ne-panic p = ground arith

scenario-ne-panic : (s : ScenarioInfo) → validate_scenario s ≢ panic
unfolding validate_scenario
scenario-ne-panic s = ground arith

pub validate_ref-ne-panic :
    (info : BootInfo) → length info.memory_regions ≡ 128 → validate_ref info ≢ panic
unfolding validate_ref
validate_ref-ne-panic info l =
    >>=-ne-panic (validate_header info.header) _ (header-ne-panic info.header) λ _ hh.
      >>=-ne-panic (validate_platform info.platform) _ (platform-ne-panic info.platform) λ _ _.
        >>=-ne-panic (validate_scenario info.scenario) _ (scenario-ne-panic info.scenario) λ _ _.
          >>=-ne-panic (validate_regions info) _ (regions-ne-panic (header_count info.header hh))
            λ _ _ p. cc
  where
    regions-ne-panic : info.header.memory_region_count ≤ 128 → validate_regions info ≢ panic
    regions-ne-panic c = rw (validate_regions_lem info (rw l c)) (
        >>=-ne-panic (check_active 0 none (active info)) _
          (check_active-ne-panic 0 none (active info))
          λ _ _. check_unused-ne-panic info.header.memory_region_count 0 (unused info))
