-- ===== src/Contract/Examples.antt =====
-- Concrete contracts: runs of the checks, and the theorems at concrete inputs.
use polytope_os.Base.{ℕ, ◌≤◌, ◌≡◌, ◌≢◌, ◌↔◌, refl, arith, List, [], ◌∷◌, ◌++◌}
use polytope_os.Base.{All, length, take, drop, replicate, length-replicate, All-replicate}
use polytope_os.Base.{ok, err, panic, inl, ltb, ◌>>◌, map_err, reject}
use polytope_os.Base.Bytes.{IsByte}
use polytope_os.Contract.Error
use polytope_os.Contract.Error.{invalid, buffer_too_small}
use polytope_os.Contract.Types.{MemoryRegion, BootInfo, ValidatedBootInfo, empty_region}
use polytope_os.Contract.Types
use polytope_os.Contract.Typed.{IsTyped, IsTypedRegion}
use polytope_os.Contract.Builder.{current, normal_scenario, set_memory_region}
use polytope_os.Contract.Builder.Slots.{set_memory_region_lem}
use polytope_os.Contract.Wire.Regions.{validated_regions_lem}
use polytope_os.Contract.Layout.{layout}
use polytope_os.Contract.Layout.Bytes.{layout-IsByte}
use polytope_os.Contract.Validate.{validate_ref, validated_regions}
use polytope_os.Contract.Validate.Spec.{IsValid, IsValidRegion, AreOrdered}
use polytope_os.Contract.Validate.Correct.{validate_ref_iff}
use polytope_os.Contract.Wire.{parse, encode}
use polytope_os.Contract.Wire.Parse.{parse_iff, parse-ne-panic}
use polytope_os.Contract.Wire.RoundTrip.{encode_lem, parse-encode, encode-parse}
use polytope_os.Contract.Wire.Lengths.{parse_truncated, parse_extended}

abbrev low_memory : MemoryRegion
low_memory = record {
  start = 0x10_0000;
  length = 0x20_0000;
  kind = Types.reserved;
  source_kind = 0;
  attributes = 0;
}

abbrev high_memory : MemoryRegion
high_memory = record {
  start = 0x30_0000;
  length = 0x40_0000;
  kind = Types.usable;
  source_kind = 7;
  attributes = 8;
}

-- The contract of the source's tests: two adjacent regions.
abbrev two_regions : BootInfo
two_regions = record {
  header = record current { memory_region_count = 2 };
  platform = record {
    firmware = 1;
    architecture = 1;
    flags = 0;
    rsdp_address = 0;
    rsdp_length = 0;
    boot_cpu_id = 0;
  };
  scenario = normal_scenario;
  memory_regions = low_memory ∷ high_memory ∷ replicate 126 empty_region;
}

two_regions-IsTyped : IsTyped two_regions
two_regions-IsTyped = record {
  header = omega arith;
  platform = omega arith;
  scenario = omega arith;
  regions_length = omega (arith, length-replicate 126 empty_region);
  regions =
      (omega arith, (omega arith, All-replicate IsTypedRegion 126 empty_region (omega arith)));
}

two_regions-IsValid : IsValid two_regions
unfolding take drop
two_regions-IsValid = record {
  header = record {
    magic = refl;
    abi_major = refl;
    abi_minor = refl;
    header_size = refl;
    total_size = refl;
    memory_region_size = refl;
    memory_region_count = omega arith;
    flags = refl;
  };
  platform = record { firmware = refl; architecture = refl; rsdp = inl (refl, refl, refl) };
  scenario = inl (refl, refl, refl);
  regions = (omega arith, (omega arith, tt));
  ordered = ((omega arith, tt), (tt, tt));
  zeroed = All-replicate (λ r. r ≡ empty_region) 126 empty_region refl;
}

abbrev validated : ValidatedBootInfo
validated = record { info = two_regions }

two_regions_bytes : All IsByte (layout two_regions)
two_regions_bytes = layout-IsByte two_regions two_regions-IsTyped

two_regions-parse : parse (layout two_regions) ≡ ok validated
two_regions-parse =
    (parse_iff (layout two_regions) validated two_regions_bytes).1
      (two_regions-IsTyped, two_regions-IsValid, refl)

abbrev output : List ℕ
output = replicate 8192 0

output_room : 4176 ≤ length output
output_room = omega (arith, length-replicate {A = ℕ} 8192 0)

validate_ref_iff_example : (validate_ref two_regions ≡ ok tt) ↔ IsValid two_regions
validate_ref_iff_example = validate_ref_iff two_regions two_regions-IsTyped

parse_iff_example :
    (parse (layout two_regions) ≡ ok validated)
    ↔ (IsTyped two_regions × IsValid two_regions × (layout two_regions ≡ layout two_regions))
parse_iff_example = parse_iff (layout two_regions) validated two_regions_bytes

parse-ne-panic_example : parse (0x50 ∷ 0x4f ∷ []) ≢ panic
parse-ne-panic_example = parse-ne-panic (0x50 ∷ 0x4f ∷ []) (omega arith)

encode-parse_example : encode two_regions output ≡ ok (4176, layout two_regions ++ drop 4176 output)
encode-parse_example =
    encode-parse (layout two_regions) output validated two_regions_bytes output_room
      two_regions-parse

parse-encode_example :
    (◌≡◌ {A = ℕ} 4176 4176)
    × (parse (take 4176 (layout two_regions ++ drop 4176 output)) ≡ ok validated)
    × (drop 4176 (layout two_regions ++ drop 4176 output) ≡ drop 4176 output)
    × (length (layout two_regions ++ drop 4176 output) ≡ length output)
parse-encode_example =
    parse-encode two_regions output (layout two_regions ++ drop 4176 output) 4176
      two_regions-IsTyped encode-parse_example

parse_truncated_example : parse (take 100 (layout two_regions)) ≡ err (Error.truncated 100 4176)
parse_truncated_example =
    parse_truncated (layout two_regions) validated two_regions_bytes two_regions-parse 100
      (omega arith)

parse_extended_example :
    parse (layout two_regions ++ (7 ∷ [])) ≡ err (Error.length_mismatch 4177 4176)
parse_extended_example =
    parse_extended (layout two_regions) validated two_regions_bytes two_regions-parse 7 []

encode_lem_example : encode two_regions output ≡ (do
  map_err invalid (validate_ref two_regions)
  reject (ltb (length output) 4176) (buffer_too_small (length output) 4176)
  ok (4176, layout two_regions ++ drop 4176 output))
encode_lem_example = encode_lem two_regions output two_regions-IsTyped

validated_regions_lem_example :
    (regions : List MemoryRegion) × (validated_regions validated ≡ ok regions)
    × All IsValidRegion regions
    × AreOrdered regions
    × (◌≡◌ {A = ℕ} (length regions) 2)
validated_regions_lem_example =
    validated_regions_lem (layout two_regions) validated two_regions_bytes two_regions-parse

set_memory_region_lem_example :
    set_memory_region two_regions 2 high_memory
    ≡ ok (record two_regions {
      header = record (two_regions.header) { memory_region_count = 3 };
      memory_regions =
          take 2 two_regions.memory_regions ++ (high_memory ∷ drop 3 two_regions.memory_regions);
    })
set_memory_region_lem_example = set_memory_region_lem two_regions 2 high_memory two_regions-IsTyped
