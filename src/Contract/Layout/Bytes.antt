-- ===== src/Contract/Layout/Bytes.antt =====
-- crates/boot-contract/src/lib.rs: the bytes of a layout.
use polytope_os.Base.{ℕ, List, [], ◌∷◌, ◌++◌, All, All-append}
use polytope_os.Base.Bytes.{IsByte, to_le, to_le-IsByte}
use polytope_os.Contract.Types.{MemoryRegion, BootInfo}
use polytope_os.Contract.Typed.{IsTyped}
use polytope_os.Contract.Layout.{
  header_layout, platform_layout, scenario_layout, region_layout, regions_layout, layout,
}

word_and : (n v : ℕ) (rest : List ℕ) → All IsByte rest → All IsByte (to_le n v ++ rest)
word_and n v rest h = All-append IsByte (to_le n v) rest (to_le-IsByte n v) h

regions-IsByte : (rs : List MemoryRegion) → All IsByte (regions_layout rs)
regions-IsByte [] = tt
regions-IsByte (r ∷ rs) =
    All-append IsByte (region_layout r) (regions_layout rs)
      (word_and 8 r.start _ (
        word_and 8 r.length _
          (word_and 4 r.kind _ (word_and 4 r.source_kind _ (to_le-IsByte 8 r.attributes)))))
      (regions-IsByte rs)

pub layout-IsByte : (info : BootInfo) → IsTyped info → All IsByte (layout info)
unfolding layout
layout-IsByte info t =
    let h = info.header in
    let p = info.platform in
    let s = info.scenario in
    All-append IsByte (header_layout h) _
      (All-append IsByte h.magic _ t.header.magic (
        word_and 2 h.abi_major _ (
          word_and 2 h.abi_minor _ (
            word_and 4 h.header_size _ (
              word_and 4 h.total_size _ (
                word_and 4 h.memory_region_size _
                  (word_and 4 h.memory_region_count _ (to_le-IsByte 4 h.flags))))))))
      (All-append IsByte (platform_layout p) _
        (word_and 4 p.firmware _ (
          word_and 4 p.architecture _ (
            word_and 8 p.flags _ (
              word_and 8 p.rsdp_address _
                (word_and 4 p.rsdp_length _ (to_le-IsByte 4 p.boot_cpu_id))))))
        (All-append IsByte (scenario_layout s) _
          (word_and 4 s.kind _ (word_and 4 s.flags _ (to_le-IsByte 8 s.argument)))
          (regions-IsByte info.memory_regions)))
