-- ===== src/Loader/Contract/Built.antt =====
-- crates/uefi-loader/src/main.rs: the loop of `encode_contract` over a memory map.
use polytope_os.Base.{ℕ, suc, ◌+◌, ◌*◌, ◌^◌, ◌≤◌, ◌<◌, ◌≡◌, ◌≢◌}
use polytope_os.Base.{sym, arith, ◌==◌, if◌then◌else◌, ok, err}
use polytope_os.Base.{List, [], ◌∷◌, ◌++◌, append-nil, append_assoc, length, length-append}
use polytope_os.Base.{All, Result, lt→ltb, le→ltb, ne→==}
use polytope_os.Base.Bytes.{IsU32, IsU64}
use native.Mathlib.Decide.{dec_lt, ℕ_discrete}
use polytope_os.Contract.Types.{ScenarioInfo, MemoryRegion, BootInfo}
use polytope_os.Contract.Typed.{IsTypedRegion}
use polytope_os.Contract.Builder.{region_new}
use polytope_os.Contract.Builder.Filled.{filled, set_memory_region_next, set_memory_region_full}
use polytope_os.Loader.Contract.Spec.{kind_table, kind_in, region_for, platform_for}
use polytope_os.Loader.Error
use polytope_os.Loader.Error.{LoaderError}
use polytope_os.Loader.Contract.{
  MemoryTypes, MemoryDescriptor, normalize_memory_kind, region_of, add_region, add_regions,
}

-- The ranges of the fields' types.
pub record IsTypedDescriptor (d : MemoryDescriptor) : Type 0 where
  pub ty : IsU32 d.ty
  pub phys_start : IsU64 d.phys_start
  pub page_count : IsU64 d.page_count
  pub att : IsU64 d.att

-- The contract of the loader with these regions.
abbrev pub built : ScenarioInfo → List MemoryRegion → BootInfo
built scenario rs = filled platform_for scenario rs

-- The length in bytes fits into 64 bits.
abbrev pub Fits : MemoryDescriptor → Type 0
Fits d = d.page_count * 4096 < 2 ^ 64

err_ne_ok {ℓ} :
    {A : Type ℓ} {x : LoaderError} {a : A} → ◌≢◌ {A = Result LoaderError A} (err x) (ok a)
err_ne_ok e = cc

module _ (types : MemoryTypes) where
  known_kind : (d : MemoryDescriptor) → kind_in (kind_table types) d.ty ≤ 9
  known_kind d = ground arith

  -- The regions of a memory map: one for every descriptor that has pages, in the order of the map.
  unfoldable pub regions_of : List MemoryDescriptor → List MemoryRegion
  regions_of [] = []
  regions_of (d ∷ entries) =
      let rest = regions_of entries in if d.page_count == 0 then rest else region_for types d ∷ rest

  pub regions_of_empty :
      (d : MemoryDescriptor) (entries : List MemoryDescriptor)
      → d.page_count ≡ 0
      → regions_of (d ∷ entries) ≡ regions_of entries
  unfolding regions_of
  regions_of_empty d entries e = rw e

  pub regions_of_next :
      (d : MemoryDescriptor) (entries : List MemoryDescriptor)
      → ¬ (d.page_count ≡ 0)
      → regions_of (d ∷ entries) ≡ region_for types d ∷ regions_of entries
  unfolding regions_of
  regions_of_next d entries pages = rw (ne→== d.page_count 0 pages)

  normalize_memory_kind_lem :
      (d : MemoryDescriptor) → normalize_memory_kind types d ≡ kind_in (kind_table types) d.ty
  unfolding normalize_memory_kind
  normalize_memory_kind_lem d = ground arith

  region_of_lem :
      (d : MemoryDescriptor) → region_of types d (d.page_count * 4096) ≡ region_for types d
  unfolding region_of region_new
  region_of_lem d = rw (normalize_memory_kind_lem d)

  region_for-IsTyped :
      (d : MemoryDescriptor) → IsTypedDescriptor d → Fits d → IsTypedRegion (region_for types d)
  region_for-IsTyped d t f = record {
    start = t.phys_start;
    length = f;
    kind = omega (arith, known_kind d);
    source_kind = t.ty;
    attributes = t.att;
  }

  pub regions_of-IsTyped :
      (entries : List MemoryDescriptor)
      → All IsTypedDescriptor entries
      → All Fits entries
      → All IsTypedRegion (regions_of entries)
  unfolding regions_of
  regions_of-IsTyped [] t f = tt
  regions_of-IsTyped (d ∷ entries) (t, ts) (f, fs) = elim (ℕ_discrete d.page_count 0) [
    | yes e ↦ rw e (regions_of-IsTyped entries ts fs)
    | no pages ↦
        rw (ne→== d.page_count 0 pages) (region_for-IsTyped d t f, regions_of-IsTyped entries ts fs)
  ]

  module _ (scenario : ScenarioInfo) where
    add_region_next :
        (d : MemoryDescriptor) (rs : List MemoryRegion)
        → ¬ (d.page_count ≡ 0)
        → Fits d
        → length rs < 128
        → let r = region_for types d in
          add_region types d (length rs, built scenario rs)
          ≡ ok (length (rs ++ (r ∷ [])), built scenario (rs ++ (r ∷ [])))
    unfolding add_region
    add_region_next d rs pages f h =
        let r = region_for types d in
        let size : length (rs ++ (r ∷ [])) ≡ length rs + 1 =
          omega (arith, length-append rs (r ∷ [])) in
        rw (
          ne→== d.page_count 0 pages,
          lt→ltb (d.page_count * 4096) (2 ^ 64) f,
          region_of_lem d,
          set_memory_region_next platform_for scenario rs r h,
          lt→ltb (length rs + 1) (2 ^ 64) (omega arith),
          size,
        )

    add_region_long :
        (d : MemoryDescriptor) (s : ℕ × BootInfo)
        → 2 ^ 64 ≤ d.page_count * 4096
        → add_region types d s ≡ err Error.contract
    unfolding add_region
    add_region_long d s f =
        rw (ne→== d.page_count 0 (omega arith), le→ltb (d.page_count * 4096) (2 ^ 64) f)

    add_region_full :
        (d : MemoryDescriptor) (index : ℕ) (info : BootInfo)
        → ¬ (d.page_count ≡ 0)
        → Fits d
        → 128 ≤ index
        → add_region types d (index, info) ≡ err Error.contract
    unfolding add_region
    add_region_full d index info pages f h = rw (
      ne→== d.page_count 0 pages,
      lt→ltb (d.page_count * 4096) (2 ^ 64) f,
      region_of_lem d,
      set_memory_region_full platform_for scenario info index (region_for types d) h,
    )

    add_region_empty :
        (d : MemoryDescriptor) (s : ℕ × BootInfo) → d.page_count ≡ 0 → add_region types d s ≡ ok s
    unfolding add_region
    add_region_empty d s e = rw e

    -- A map that fits is taken over whole.
    pub add_regions_fit :
        (entries : List MemoryDescriptor) (rs : List MemoryRegion)
        → All Fits entries
        → length rs + length (regions_of entries) ≤ 128
        → add_regions types entries (length rs, built scenario rs)
          ≡ ok (length (rs ++ regions_of entries), built scenario (rs ++ regions_of entries))
    unfolding add_regions regions_of
    add_regions_fit [] rs fs h = rw (append-nil rs)
    add_regions_fit (d ∷ entries) rs (f, fs) h = elim (ℕ_discrete d.page_count 0) [
      | yes e ↦
          let same = regions_of_empty d entries e in
          rw (add_region_empty d (length rs, built scenario rs) e, same)
            (add_regions_fit entries rs fs (rw same at h))
      | no pages ↦
          let r = region_for types d in
          let more = regions_of_next d entries pages in
          let bound : length rs + suc (length (regions_of entries)) ≤ 128 = rw more at h in
          rw
            (
              add_region_next d rs pages f (omega arith),
              more,
              sym (append_assoc rs (r ∷ []) (regions_of entries)),
            )
            (add_regions_fit entries (rs ++ (r ∷ [])) fs (omega (arith, length-append rs (r ∷ []))))
    ]

    -- A map that is taken over fits.
    pub add_regions_taken :
        (entries : List MemoryDescriptor) (rs : List MemoryRegion) {s : ℕ × BootInfo}
        → length rs ≤ 128
        → add_regions types entries (length rs, built scenario rs) ≡ ok s
        → All Fits entries × (length rs + length (regions_of entries) ≤ 128)
    unfolding add_regions regions_of
    add_regions_taken [] rs h e = (tt, omega arith)
    add_regions_taken (d ∷ entries) rs h e = elim (ℕ_discrete d.page_count 0) [
      | yes zero_pages ↦
          let same = regions_of_empty d entries zero_pages in
          let (fs, bound) =
            add_regions_taken entries rs h
              (rw (add_region_empty d (length rs, built scenario rs) zero_pages) at e) in
          ((omega arith, fs), rw same bound)
      | no pages ↦ elim (dec_lt (d.page_count * 4096) (2 ^ 64)) [
        | no long ↦
            absurd
              (err_ne_ok (rw (add_region_long d (length rs, built scenario rs) (omega arith)) at e))
        | yes f ↦ elim (dec_lt (length rs) 128) [
          | no full ↦ absurd (
              err_ne_ok
                (rw (add_region_full d (length rs) (built scenario rs) pages f (omega arith)) at e))
          | yes room ↦
              let r = region_for types d in
              let size = length-append rs (r ∷ []) in
              let (fs, bound) =
                add_regions_taken entries (rs ++ (r ∷ [])) (omega arith)
                  (rw (add_region_next d rs pages f room) at e) in
              ((f, fs), rw (regions_of_next d entries pages) (omega arith))
        ]
      ]
    ]
