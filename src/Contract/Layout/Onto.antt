-- ===== src/Contract/Layout/Onto.antt =====
-- crates/boot-contract/src/lib.rs: from bytes to the typed fields of which they are the layout.
use polytope_os.Base.{ℕ, zero, suc, ◌*◌, ◌^◌, ◌<◌, ◌≡◌, refl, ap, ap₂, ◌∙◌, arith}
use polytope_os.Base.{List, [], ◌∷◌, ◌++◌, append-nil, All, length}
use polytope_os.Base.Bytes.{IsByte, to_le, split, split_word}
use polytope_os.Contract.Types.{BootHeader, PlatformInfo, ScenarioInfo, MemoryRegion, BootInfo}
use polytope_os.Contract.Typed.{
  IsTypedHeader, IsTypedPlatform, IsTypedScenario, IsTypedRegion, IsTyped,
}
use polytope_os.Contract.Layout.{
  header_layout, platform_layout, scenario_layout, region_layout, regions_layout, layout,
}

length-nil : (bytes : List ℕ) → length bytes ≡ 0 → bytes ≡ []
length-nil [] e = refl
length-nil (b ∷ bs) e = absurd (omega arith)

-- One integer alone.
last_word :
    (n : ℕ) (bytes : List ℕ)
    → length bytes ≡ n
    → All IsByte bytes
    → (v : ℕ) × (bytes ≡ to_le n v) × (v < 256 ^ n)
last_word n bytes e h =
    let s = split_word n 0 bytes (omega arith) h in
    let nil = length-nil s.rest s.length_rest in
    (s.word, s.joined ∙ ap (λ t. to_le n s.word ++ t) nil ∙ append-nil _, s.in_range)

pub header_of :
    (bytes : List ℕ)
    → length bytes ≡ 32
    → All IsByte bytes
    → (h : BootHeader) × (bytes ≡ header_layout h) × IsTypedHeader h
header_of bytes e b =
    let magic = split 8 24 bytes e b in
    let major = split_word 2 22 magic.rest magic.length_rest magic.rest_bytes in
    let minor = split_word 2 20 major.rest major.length_rest major.rest_bytes in
    let own_size = split_word 4 16 minor.rest minor.length_rest minor.rest_bytes in
    let total = split_word 4 12 own_size.rest own_size.length_rest own_size.rest_bytes in
    let stride = split_word 4 8 total.rest total.length_rest total.rest_bytes in
    let count = split_word 4 4 stride.rest stride.length_rest stride.rest_bytes in
    let (flags, flags_joined, flags_range) =
      last_word 4 count.rest count.length_rest count.rest_bytes in
    (
      record {
        magic = magic.front;
        abi_major = major.word;
        abi_minor = minor.word;
        header_size = own_size.word;
        total_size = total.word;
        memory_region_size = stride.word;
        memory_region_count = count.word;
        flags = flags;
      },
      cc (
        magic.joined, major.joined, minor.joined, own_size.joined, total.joined, stride.joined,
        count.joined, flags_joined,
      ),
      record {
        magic_length = magic.length_front;
        magic = magic.front_bytes;
        abi_major = major.in_range;
        abi_minor = minor.in_range;
        header_size = own_size.in_range;
        total_size = total.in_range;
        memory_region_size = stride.in_range;
        memory_region_count = count.in_range;
        flags = flags_range;
      },
    )

platform_of :
    (bytes : List ℕ)
    → length bytes ≡ 32
    → All IsByte bytes
    → (p : PlatformInfo) × (bytes ≡ platform_layout p) × IsTypedPlatform p
platform_of bytes e b =
    let firmware = split_word 4 28 bytes e b in
    let architecture = split_word 4 24 firmware.rest firmware.length_rest firmware.rest_bytes in
    let flags =
      split_word 8 16 architecture.rest architecture.length_rest architecture.rest_bytes in
    let address = split_word 8 8 flags.rest flags.length_rest flags.rest_bytes in
    let size = split_word 4 4 address.rest address.length_rest address.rest_bytes in
    let (cpu, cpu_joined, cpu_range) = last_word 4 size.rest size.length_rest size.rest_bytes in
    (
      record {
        firmware = firmware.word;
        architecture = architecture.word;
        flags = flags.word;
        rsdp_address = address.word;
        rsdp_length = size.word;
        boot_cpu_id = cpu;
      },
      cc (
        firmware.joined, architecture.joined, flags.joined, address.joined, size.joined, cpu_joined,
      ),
      record {
        firmware = firmware.in_range;
        architecture = architecture.in_range;
        flags = flags.in_range;
        rsdp_address = address.in_range;
        rsdp_length = size.in_range;
        boot_cpu_id = cpu_range;
      },
    )

scenario_of :
    (bytes : List ℕ)
    → length bytes ≡ 16
    → All IsByte bytes
    → (s : ScenarioInfo) × (bytes ≡ scenario_layout s) × IsTypedScenario s
scenario_of bytes e b =
    let kind = split_word 4 12 bytes e b in
    let flags = split_word 4 8 kind.rest kind.length_rest kind.rest_bytes in
    let (argument, joined, range) = last_word 8 flags.rest flags.length_rest flags.rest_bytes in
    (
      record { kind = kind.word; flags = flags.word; argument = argument },
      cc (kind.joined, flags.joined, joined),
      record { kind = kind.in_range; flags = flags.in_range; argument = range },
    )

region_of :
    (bytes : List ℕ)
    → length bytes ≡ 32
    → All IsByte bytes
    → (r : MemoryRegion) × (bytes ≡ region_layout r) × IsTypedRegion r
region_of bytes e b =
    let start = split_word 8 24 bytes e b in
    let size = split_word 8 16 start.rest start.length_rest start.rest_bytes in
    let kind = split_word 4 12 size.rest size.length_rest size.rest_bytes in
    let source = split_word 4 8 kind.rest kind.length_rest kind.rest_bytes in
    let (attributes, joined, range) =
      last_word 8 source.rest source.length_rest source.rest_bytes in
    (
      record {
        start = start.word;
        length = size.word;
        kind = kind.word;
        source_kind = source.word;
        attributes = attributes;
      },
      cc (start.joined, size.joined, kind.joined, source.joined, joined),
      record {
        start = start.in_range;
        length = size.in_range;
        kind = kind.in_range;
        source_kind = source.in_range;
        attributes = range;
      },
    )

regions_of :
    (n : ℕ) (bytes : List ℕ)
    → length bytes ≡ 32 * n
    → All IsByte bytes
    → (rs : List MemoryRegion) × (bytes ≡ regions_layout rs)
      × (length rs ≡ n)
      × All IsTypedRegion rs
regions_of zero bytes e b = ([], length-nil bytes (omega arith), refl, tt)
regions_of (suc n) bytes e b =
    let s = split 32 (32 * n) bytes (omega arith) b in
    let (r, joined, typed) = region_of s.front s.length_front s.front_bytes in
    let (rs, joined_rest, count, typed_rest) = regions_of n s.rest s.length_rest s.rest_bytes in
    (r ∷ rs, s.joined ∙ ap₂ ◌++◌ joined joined_rest, ap suc count, (typed, typed_rest))

-- Every list of 4176 bytes is the layout of a typed contract.
pub info_of :
    (bytes : List ℕ)
    → length bytes ≡ 4176
    → All IsByte bytes
    → (info : BootInfo) × (bytes ≡ layout info) × IsTyped info
unfolding layout
info_of bytes e b =
    let header = split 32 4144 bytes e b in
    let platform = split 32 4112 header.rest header.length_rest header.rest_bytes in
    let scenario = split 16 4096 platform.rest platform.length_rest platform.rest_bytes in
    let (h, hj, ht) = header_of header.front header.length_front header.front_bytes in
    let (p, pj, pt) = platform_of platform.front platform.length_front platform.front_bytes in
    let (s, sj, st) = scenario_of scenario.front scenario.length_front scenario.front_bytes in
    let (rs, rj, rl, rt) = regions_of 128 scenario.rest scenario.length_rest scenario.rest_bytes in
    (
      record { header = h; platform = p; scenario = s; memory_regions = rs },
      cc (header.joined, platform.joined, scenario.joined, hj, pj, sj, rj),
      record { header = ht; platform = pt; scenario = st; regions_length = rl; regions = rt },
    )
