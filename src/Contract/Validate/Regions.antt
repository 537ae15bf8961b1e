-- ===== src/Contract/Validate/Regions.antt =====
-- crates/boot-contract/src/lib.rs: the two loops of `validate_regions`.
use polytope_os.Base.{ℕ, ◌+◌, ◌≤◌, ◌≡◌, ◌↔◌, refl, arith, List, [], ◌∷◌}
use polytope_os.Base.{ok, >>=-eq-ok, Option, none, some}
use polytope_os.Base.{true, ◌>>◌, slice_prefix, slice_suffix}
use polytope_os.Base.{All, length}
use polytope_os.Contract.Types.{MemoryRegion, BootInfo, empty_region}
use polytope_os.Contract.Validate.{
  region_end, follows_previous, check_active, region_eq, check_unused,
}
use polytope_os.Contract.Validate.{validate_regions}
use polytope_os.Contract.Validate.Spec.{IsValidRegion, AreOrdered, end, active, unused}

region_end_iff :
    (index : ℕ) (r : MemoryRegion) (e : ℕ)
    → (region_end index r ≡ ok e) ↔ (IsValidRegion r × (end r ≡ e))
unfolding region_end
region_end_iff index r e = ground arith

-- What `previous` asks of a later region.
abbrev Follows : Option (ℕ × ℕ × ℕ) → MemoryRegion → Type 0
Follows none r = Unit
Follows (some (i, s, e)) r = e ≤ r.start

abbrev IsPrevious : Option (ℕ × ℕ × ℕ) → Type 0
IsPrevious none = Unit
IsPrevious (some (i, s, e)) = s ≤ e

follows_previous_iff :
    (index : ℕ) (previous : Option (ℕ × ℕ × ℕ)) (r : MemoryRegion)
    → IsPrevious previous
    → (follows_previous index previous r ≡ ok tt) ↔ Follows previous r
unfolding follows_previous
follows_previous_iff index none r h = ground arith
follows_previous_iff index (some (i, s, e)) r h = ground arith

-- What a region follows, the regions behind it follow too.
Follows-later :
    (previous : Option (ℕ × ℕ × ℕ)) (r : MemoryRegion) (rs : List MemoryRegion)
    → Follows previous r
    → All (λ s. end r ≤ s.start) rs
    → All (Follows previous) rs
Follows-later previous r [] f h = tt
Follows-later none r (s ∷ rs) f h = (tt, Follows-later none r rs f h.1)
Follows-later (some (i, b, e)) r (s ∷ rs) f h =
    (omega arith, Follows-later (some (i, b, e)) r rs f h.1)

no_previous : (rs : List MemoryRegion) → All (Follows none) rs
no_previous [] = tt
no_previous (r ∷ rs) = (tt, no_previous rs)

abbrev AreActive : Option (ℕ × ℕ × ℕ) → List MemoryRegion → Type 0
AreActive previous rs = All IsValidRegion rs × All (Follows previous) rs × AreOrdered rs

check_active-AreActive :
    (index : ℕ) (previous : Option (ℕ × ℕ × ℕ)) (rs : List MemoryRegion)
    → IsPrevious previous
    → check_active index previous rs ≡ ok tt
    → AreActive previous rs
unfolding check_active
check_active-AreActive index previous [] p h = (tt, tt, tt)
check_active-AreActive index previous (r ∷ rs) p h =
    let (e, he, h1) = >>=-eq-ok (region_end index r) _ h in
    let (u, hf, h2) = >>=-eq-ok (follows_previous index previous r) _ h1 in
    let (valid, ends) = (region_end_iff index r e).0 he in
    let follows = (follows_previous_iff index previous r p).0 hf in
    let (vs, fs, os) =
      check_active-AreActive (index + 1) (some (index, r.start, e)) rs (omega arith) h2 in
    let behind : All (λ s. end r ≤ s.start) rs = rw ends fs in
    ((valid, vs), (follows, Follows-later previous r rs follows behind), (behind, os))

AreActive-check_active :
    (index : ℕ) (previous : Option (ℕ × ℕ × ℕ)) (rs : List MemoryRegion)
    → IsPrevious previous
    → AreActive previous rs
    → check_active index previous rs ≡ ok tt
unfolding check_active
AreActive-check_active index previous [] p h = refl
AreActive-check_active index previous (r ∷ rs) p (v, f, o) =
    rw
      (
        (region_end_iff index r (end r)).1 (v.0, refl),
        (follows_previous_iff index previous r p).1 f.0,
      )
      (AreActive-check_active (index + 1) (some (index, r.start, end r)) rs (omega arith)
        (v.1, o.0, o.1))

region_eq_iff : (a b : MemoryRegion) → (region_eq a b ≡ true) ↔ (a ≡ b)
unfolding region_eq
region_eq_iff a b = ground arith

check_unused_iff :
    (count offset : ℕ) (rs : List MemoryRegion)
    → (check_unused count offset rs ≡ ok tt) ↔ All (λ r. r ≡ empty_region) rs
unfolding check_unused
check_unused_iff count offset [] = (λ _. tt, λ _. refl)
check_unused_iff count offset (r ∷ rs) =
    ground (arith, region_eq_iff r empty_region, check_unused_iff count (offset + 1) rs)

module _ (info : BootInfo)
    (fits : info.header.memory_region_count ≤ length info.memory_regions) where
  pub validate_regions_lem : validate_regions info ≡ (do
    check_active 0 none (active info)
    check_unused info.header.memory_region_count 0 (unused info))
  unfolding validate_regions
  validate_regions_lem = rw (
    slice_prefix info.memory_regions info.header.memory_region_count fits,
    slice_suffix info.memory_regions info.header.memory_region_count fits,
  )

  pub validate_regions_iff : (validate_regions info ≡ ok tt) ↔ (
      All IsValidRegion (active info)
      × AreOrdered (active info)
      × All (λ r. r ≡ empty_region) (unused info))
  validate_regions_iff = rw validate_regions_lem (
    λ h.
        let (u, h1, h2) = >>=-eq-ok (check_active 0 none (active info)) _ h in
        let (v, f, o) = check_active-AreActive 0 none (active info) tt h1 in
        (v, o, (check_unused_iff _ 0 (unused info)).0 h2),
    λ h. rw (
      AreActive-check_active 0 none (active info) tt (h.0, no_previous (active info), h.1),
      (check_unused_iff _ 0 (unused info)).1 h.2,
    ),
  )
