-- ===== src/Contract/Wire/Regions.antt =====
-- crates/boot-contract/src/lib.rs: `memory_regions` of a parsed contract.
use polytope_os.Base.{ℕ, ◌≤◌, ◌≡◌, ap, arith, List, All, length}
use polytope_os.Base.{ok, or_panic, slice_prefix, length-take}
use polytope_os.Base.Bytes.{IsByte}
use polytope_os.Contract.Types.{MemoryRegion, ValidatedBootInfo}
use polytope_os.Contract.Validate.{validated_regions}
use polytope_os.Contract.Validate.Spec.{IsValidRegion, AreOrdered, active}
use polytope_os.Contract.Wire.{parse}
use polytope_os.Contract.Wire.Parse.{parse_iff}

-- For every list of bytes that `parse` accepts, `memory_regions` returns, with no panic, as many regions
-- as the header counts; each is nonempty, page-aligned, of a known kind and ends below 2 ^ 64, and
-- each ends before every later one starts.
pub validated_regions_lem :
    (bytes : List ℕ) (v : ValidatedBootInfo)
    → All IsByte bytes
    → parse bytes ≡ ok v
    → (regions : List MemoryRegion) × (validated_regions v ≡ ok regions)
      × All IsValidRegion regions
      × AreOrdered regions
      × (length regions ≡ v.info.header.memory_region_count)
unfolding validated_regions
validated_regions_lem bytes v b e =
    let (t, valid, joined) = (parse_iff bytes v b).0 e in
    let count = v.info.header.memory_region_count in
    let fits : count ≤ length v.info.memory_regions =
      omega (arith, valid.header.memory_region_count, t.regions_length) in
    (
      active v.info,
      ap or_panic (slice_prefix v.info.memory_regions count fits),
      valid.regions,
      valid.ordered,
      omega (arith, length-take count v.info.memory_regions),
    )
