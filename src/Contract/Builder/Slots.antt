-- ===== src/Contract/Builder/Slots.antt =====
-- crates/boot-contract/src/lib.rs: `set_memory_region` at any index.
use Prim.Native.Nat.{max}
use polytope_os.Base.{ℕ, zero, suc, ◌+◌, ◌^◌, ◌≤◌, ◌<◌, ◌≡◌, refl, arith, if◌then◌else◌}
use polytope_os.Base.{some, ok, err, ltb, lt→ltb, le→ltb, lt→leb, le→leb}
use polytope_os.Base.{List, [], ◌∷◌, ◌++◌, length, take, drop}
use native.Mathlib.Decide.{dec_lt}
use polytope_os.Contract.Error.{region_index_out_of_bounds}
use polytope_os.Contract.Types.{MemoryRegion, BootInfo}
use polytope_os.Contract.Typed.{IsTyped}
use polytope_os.Contract.Builder.{set_region, u32_count, set_memory_region}

set_region-take :
    (rs : List MemoryRegion) (index : ℕ) (r : MemoryRegion)
    → index < length rs
    → set_region rs index r ≡ some (take index rs ++ (r ∷ drop (suc index) rs))
unfolding set_region take drop
set_region-take [] index r h = absurd (omega arith)
set_region-take (x ∷ rs) zero r h = refl
set_region-take (x ∷ rs) (suc index) r h = rw (set_region-take rs index r (omega arith))

larger : (a b : ℕ) → a ≤ b → max a b ≡ b
larger a b h = omega arith

no_larger : (a b : ℕ) → b ≤ a → max a b ≡ a
no_larger a b h = omega arith

count_max :
    (index count : ℕ)
    → index < 128
    → (if ltb count (index + 1) then u32_count index (index + 1) else ok count)
      ≡ ok (max count (index + 1))
unfolding u32_count
count_max index count h = elim (dec_lt count (index + 1)) [
  | yes grows ↦ rw (
    lt→ltb count (index + 1) grows,
    lt→ltb (index + 1) (2 ^ 32) (omega arith),
    larger count (index + 1) (omega arith),
  )
  | no keeps ↦
      rw (le→ltb count (index + 1) (omega arith), no_larger count (index + 1) (omega arith))
]

-- For a contract whose fields are in the range of their types, `set_memory_region` writes the region
-- into the slot of an index below 128, keeps every other slot and field, and raises the count to
-- cover the slot, if it did not; any other index is refused.
pub set_memory_region_lem :
    (info : BootInfo) (index : ℕ) (region : MemoryRegion)
    → IsTyped info
    → set_memory_region info index region ≡ (
        if ltb index 128
        then ok (record info {
          header = record (info.header) {
            memory_region_count = max info.header.memory_region_count (index + 1);
          };
          memory_regions =
              take index info.memory_regions ++ (region ∷ drop (suc index) info.memory_regions);
        })
        else err (region_index_out_of_bounds index))
unfolding set_memory_region
set_memory_region_lem info index region t = elim (dec_lt index 128) [
  | yes inside ↦ rw (
    lt→ltb index 128 inside,
    lt→leb 128 index inside,
    set_region-take info.memory_regions index region (omega (arith, t.regions_length)),
    count_max index info.header.memory_region_count inside,
  )
  | no outside ↦ rw (le→ltb index 128 (omega arith), le→leb 128 index (omega arith))
]
