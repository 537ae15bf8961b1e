-- ===== src/Loader/Contract/Handed.antt =====
-- crates/uefi-loader/src/main.rs: what `encode_contract` hands over.
use polytope_os.Base.{ℕ, ◌≤◌, ◌≡◌, ◌↔◌, refl, sym, ap, ◌∙◌, arith}
use polytope_os.Base.{Result, ok, >>=-eq-ok, map_err, map_err_ok, le→ltb}
use polytope_os.Base.{List, [], ◌++◌, All, length, drop}
use polytope_os.Base.{replicate, length-replicate}
use polytope_os.Contract.Types.{BootInfo}
use polytope_os.Contract.Typed.{IsTyped}
use polytope_os.Contract.Builder.{x86_64_uefi, new}
use polytope_os.Contract.Builder.Filled.{filled-IsTyped, filled-IsValid_iff}
use polytope_os.Contract.Layout.{layout}
use polytope_os.Contract.Validate.Spec.{IsValid, IsValidRegion, AreOrdered}
use polytope_os.Contract.Validate.Correct.{validate_ref_iff}
use polytope_os.Contract.Wire.{encode}
use polytope_os.Contract.Wire.RoundTrip.{encode_lem, encode-eq-ok}
use polytope_os.Loader.Scenario.{BootScenario}
use polytope_os.Loader.Contract.{
  MemoryTypes, MemoryDescriptor, scenario_info, add_regions, encode_contract,
}
use polytope_os.Loader.Contract.Built.{
  IsTypedDescriptor, Fits, built, regions_of, regions_of-IsTyped, add_regions_fit,
  add_regions_taken,
}
use polytope_os.Loader.Contract.Spec.{platform_for, scenario_for}
use polytope_os.Loader.Contract.Sent.{
  new-scenario_info, sent, sent_length, platform_for-IsTyped, platform_for-IsValid,
  scenario_for-IsTyped, scenario_for-IsValid, patch_version-layout, handed_length_lem,
}

ok_injective {ℓ κ} :
    {E : Type ℓ} {A : Type κ} {x y : A} → ◌≡◌ {A = Result E A} (ok x) (ok y) → x ≡ y
ok_injective e = cc

module _ (types : MemoryTypes) (memory_map : List MemoryDescriptor) where
  -- The regions of the map make a valid contract.
  pub record IsUsable : Type 0 where
    pub fits : All Fits memory_map
    pub count : length (regions_of types memory_map) ≤ 128
    pub regions : All IsValidRegion (regions_of types memory_map)
    pub ordered : AreOrdered (regions_of types memory_map)

  abbrev pub contract_for : BootScenario → BootInfo
  contract_for scenario = built (scenario_for scenario) (regions_of types memory_map)

  pub contract_for-IsTyped :
      (scenario : BootScenario)
      → All IsTypedDescriptor memory_map
      → All Fits memory_map
      → length (regions_of types memory_map) ≤ 128
      → IsTyped (contract_for scenario)
  contract_for-IsTyped scenario t f h =
      filled-IsTyped platform_for (scenario_for scenario) (regions_of types memory_map)
        platform_for-IsTyped (scenario_for-IsTyped scenario) h
        (regions_of-IsTyped types memory_map t f)

  pub contract_for-IsValid : (scenario : BootScenario) → IsUsable → IsValid (contract_for scenario)
  contract_for-IsValid scenario u =
      (filled-IsValid_iff platform_for (scenario_for scenario) (regions_of types memory_map)
          platform_for-IsValid (scenario_for-IsValid scenario)).1
        (u.count, u.regions, u.ordered)

  add_regions_all :
      (scenario : BootScenario)
      → All Fits memory_map
      → length (regions_of types memory_map) ≤ 128
      → add_regions types memory_map (0, new (x86_64_uefi 0) (scenario_info scenario))
        ≡ ok (length (regions_of types memory_map), contract_for scenario)
  add_regions_all scenario f h =
      rw (new-scenario_info scenario)
        (add_regions_fit types (scenario_for scenario) memory_map [] f (omega arith))

  Fits-of_added :
      (scenario : BootScenario) {s : ℕ × BootInfo}
      → add_regions types memory_map (0, new (x86_64_uefi 0) (scenario_info scenario)) ≡ ok s
      → All Fits memory_map × (length (regions_of types memory_map) ≤ 128)
  Fits-of_added scenario added =
      let (f, bound) =
        add_regions_taken types (scenario_for scenario) memory_map [] (omega arith)
          (rw (new-scenario_info scenario) at added) in
      (f, omega arith)

  encoded_of_run :
      (scenario : BootScenario) (storage : List ℕ) {k n : ℕ} {info : BootInfo} {out : List ℕ}
      → add_regions types memory_map (0, new (x86_64_uefi 0) (scenario_info scenario))
        ≡ ok (k, info)
      → encode_contract types memory_map storage scenario ≡ ok (n, out)
      → (size : ℕ) × (bytes : List ℕ) × (encode info (replicate (length storage) 0)
          ≡ ok (size, bytes))
  unfolding encode_contract
  encoded_of_run scenario storage {info = info} added e =
      let ((size, bytes), mapped, _) =
        >>=-eq-ok (map_err _ (encode info (replicate (length storage) 0))) _ (rw added at e) in
      (size, bytes, map_err_ok _ (encode info (replicate (length storage) 0)) mapped)

  valid_regions :
      (scenario : BootScenario)
      → IsValid (contract_for scenario)
      → (length (regions_of types memory_map) ≤ 128)
        × All IsValidRegion (regions_of types memory_map)
        × AreOrdered (regions_of types memory_map)
  valid_regions scenario v =
      (filled-IsValid_iff platform_for (scenario_for scenario) (regions_of types memory_map)
          platform_for-IsValid (scenario_for-IsValid scenario)).0
        v

  -- What is written behind the length.
  abbrev pub written : BootScenario → List ℕ → List ℕ
  written scenario storage =
      layout (sent scenario (contract_for scenario))
      ++ drop 4176 (replicate {A = ℕ} (length storage) 0)

  module _ (scenario : BootScenario) (storage : List ℕ) (t : All IsTypedDescriptor memory_map) where
    encode_contract_usable :
        IsUsable
        → 4176 ≤ length storage
        → encode_contract types memory_map storage scenario
          ≡ ok (sent_length scenario, written scenario storage)
    unfolding encode_contract
    encode_contract_usable u room =
        let typed = contract_for-IsTyped scenario t u.fits u.count in
        let output = replicate {A = ℕ} (length storage) 0 in
        rw (
          add_regions_all scenario u.fits u.count,
          encode_lem (contract_for scenario) output typed,
          (validate_ref_iff (contract_for scenario) typed).1 (contract_for-IsValid scenario u),
          le→ltb (length output) 4176 (omega (arith, length-replicate {A = ℕ} (length storage) 0)),
          patch_version-layout scenario (contract_for scenario) (drop 4176 output) refl,
          handed_length_lem scenario,
        )

    usable_of_encode_contract :
        {n : ℕ} {out : List ℕ}
        → encode_contract types memory_map storage scenario ≡ ok (n, out)
        → IsUsable × (4176 ≤ length storage)
    unfolding encode_contract
    usable_of_encode_contract e =
        let (s, added, _) =
          >>=-eq-ok (add_regions types memory_map (0, new (x86_64_uefi 0) (scenario_info scenario)))
            _ e in
        let (f, h) = Fits-of_added scenario added in
        let typed = contract_for-IsTyped scenario t f h in
        let output = replicate {A = ℕ} (length storage) 0 in
        let (size, bytes, encoded) =
          encoded_of_run scenario storage (add_regions_all scenario f h) e in
        let (valid, room, _, _) =
          encode-eq-ok (contract_for scenario) output bytes size typed encoded in
        let (count, regions, ordered) =
          valid_regions scenario ((validate_ref_iff (contract_for scenario) typed).0 valid) in
        (
          record { fits = f; count = h; regions = regions; ordered = ordered },
          omega (arith, length-replicate {A = ℕ} (length storage) 0, room),
        )

    -- For a memory map of descriptors whose fields are in the range of their types, `encode_contract`
    -- succeeds exactly when the storage has 4176 bytes or more and the regions of the map (those of
    -- its descriptors with pages, each with the descriptor's start, type and attributes, its length in
    -- bytes, and the kind that `kind_table` gives its type) are at most 128, each valid, in order and
    -- disjoint. It then returns the length of the contract, 1 less for the truncation test, and the
    -- storage holds the layout of the contract with these regions and the numbers of the scenario, with
    -- major version 2 for the version test, and zeros behind it.
    pub encode_contract_iff :
        (n : ℕ) (out : List ℕ)
        → (encode_contract types memory_map storage scenario ≡ ok (n, out)) ↔ (
            IsUsable
            × (4176 ≤ length storage)
            × (n ≡ sent_length scenario)
            × (out ≡ written scenario storage))
    encode_contract_iff n out = (
      λ e.
          let (u, room) = usable_of_encode_contract e in
          let same = ok_injective (sym e ∙ encode_contract_usable u room) in
          (u, room, ap (λ p. p.0) same, ap (λ p. p.1) same),
      λ (u, room, size, bytes). rw (size, bytes) (encode_contract_usable u room),
    )
