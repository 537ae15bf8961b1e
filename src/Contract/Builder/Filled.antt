-- ===== src/Contract/Builder/Filled.antt =====
-- crates/boot-contract/src/lib.rs: contracts that are built region by region.
use polytope_os.Base.{ℕ, suc, ◌+◌, ◌-◌, ◌^◌, ◌≤◌, ◌<◌, ◌≡◌, refl, sym, ap, arith}
use polytope_os.Base.{some, ok, err, lt→ltb, lt→leb, le→leb}
use polytope_os.Base.{List, [], ◌∷◌, ◌++◌, append_assoc, length, length-append}
use polytope_os.Base.{
  All, replicate, length-replicate, All-replicate, All-append, take-append, drop-append, ◌↔◌,
}
use polytope_os.Contract.Validate.Spec.{
  IsValid, IsValidPlatform, IsValidScenario, IsValidRegion, AreOrdered, active, unused,
}
use polytope_os.Contract.Error.{region_index_out_of_bounds}
use polytope_os.Contract.Types.{PlatformInfo, ScenarioInfo, MemoryRegion, BootInfo, empty_region}
use polytope_os.Contract.Typed.{IsTyped, IsTypedPlatform, IsTypedScenario, IsTypedRegion}
use polytope_os.Contract.Builder.{current, new, set_region, u32_count, set_memory_region}

-- The contract whose active regions are `rs`, with empty slots behind them.
abbrev pub filled : PlatformInfo → ScenarioInfo → List MemoryRegion → BootInfo
filled platform scenario rs = record {
  header = record current { memory_region_count = length rs };
  platform = platform;
  scenario = scenario;
  memory_regions = rs ++ replicate (128 - length rs) empty_region;
}

set_region-append :
    (rs : List MemoryRegion) (x : MemoryRegion) (more : List MemoryRegion) (r : MemoryRegion)
    → set_region (rs ++ (x ∷ more)) (length rs) r ≡ some (rs ++ (r ∷ more))
unfolding set_region
set_region-append [] x more r = refl
set_region-append (y ∷ rs) x more r = rw (set_region-append rs x more r)

replicate_slot :
    (n : ℕ)
    → n < 128
    → replicate (128 - n) empty_region ≡ empty_region ∷ replicate (128 - (n + 1)) empty_region
unfolding replicate
replicate_slot n h =
    ap (λ k. replicate k empty_region) (let e : 128 - n ≡ suc (128 - (n + 1)) = omega arith in e)

pub new-filled :
    (platform : PlatformInfo) (scenario : ScenarioInfo)
    → new platform scenario ≡ filled platform scenario []
unfolding new
new-filled platform scenario = refl

module _ (platform : PlatformInfo) (scenario : ScenarioInfo) where
  set_region-filled :
      (rs : List MemoryRegion) (r : MemoryRegion)
      → length rs < 128
      → set_region (rs ++ replicate (128 - length rs) empty_region) (length rs) r
        ≡ some ((rs ++ (r ∷ [])) ++ replicate (128 - length (rs ++ (r ∷ []))) empty_region)
  set_region-filled rs r h =
      let size : length (rs ++ (r ∷ [])) ≡ length rs + 1 =
        omega (arith, length-append rs (r ∷ [])) in
      rw (replicate_slot (length rs) h, set_region-append rs empty_region _ r, size)
        (ap some (sym (append_assoc rs (r ∷ []) _)))

  -- `set_memory_region` at the first empty slot activates it.
  pub set_memory_region_next :
      (rs : List MemoryRegion) (r : MemoryRegion)
      → length rs < 128
      → set_memory_region (filled platform scenario rs) (length rs) r
        ≡ ok (filled platform scenario (rs ++ (r ∷ [])))
  unfolding set_memory_region u32_count
  set_memory_region_next rs r h =
      let size : length (rs ++ (r ∷ [])) ≡ length rs + 1 =
        omega (arith, length-append rs (r ∷ [])) in
      rw (
        lt→leb 128 (length rs) h,
        set_region-filled rs r h,
        lt→ltb (length rs) (length rs + 1) (omega arith),
        lt→ltb (length rs + 1) (2 ^ 32) (omega arith),
        size,
      )

  pub set_memory_region_full :
      (info : BootInfo) (index : ℕ) (r : MemoryRegion)
      → 128 ≤ index
      → set_memory_region info index r ≡ err (region_index_out_of_bounds index)
  unfolding set_memory_region
  set_memory_region_full info index r h = rw (le→leb 128 index h)

  pub filled-IsTyped :
      (rs : List MemoryRegion)
      → IsTypedPlatform platform
      → IsTypedScenario scenario
      → length rs ≤ 128
      → All IsTypedRegion rs
      → IsTyped (filled platform scenario rs)
  filled-IsTyped rs p s h t = record {
    header = omega arith;
    platform = p;
    scenario = s;
    regions_length = omega (
      arith,
      length-append rs (replicate (128 - length rs) empty_region),
      length-replicate (128 - length rs) empty_region,
    );
    regions =
        All-append IsTypedRegion rs _ t
          (All-replicate IsTypedRegion (128 - length rs) empty_region (omega arith));
  }

  pub filled-IsValid_iff :
      (rs : List MemoryRegion)
      → IsValidPlatform platform
      → IsValidScenario scenario
      → IsValid (filled platform scenario rs)
        ↔ ((length rs ≤ 128) × All IsValidRegion rs × AreOrdered rs)
  filled-IsValid_iff rs p s =
      let front : active (filled platform scenario rs) ≡ rs =
        take-append rs (replicate (128 - length rs) empty_region) (length rs) refl in
      let back : unused (filled platform scenario rs) ≡ replicate (128 - length rs) empty_region =
        drop-append rs (replicate (128 - length rs) empty_region) (length rs) refl in
      (
        λ v. (v.header.memory_region_count, rw front at v.regions, rw front at v.ordered),
        λ (h, regions, ordered). record {
          header = record {
            magic = refl;
            abi_major = refl;
            abi_minor = refl;
            header_size = refl;
            total_size = refl;
            memory_region_size = refl;
            memory_region_count = h;
            flags = refl;
          };
          platform = p;
          scenario = s;
          regions = rw front regions;
          ordered = rw front ordered;
          zeroed =
              rw back (All-replicate (λ r. r ≡ empty_region) (128 - length rs) empty_region refl);
        },
      )
