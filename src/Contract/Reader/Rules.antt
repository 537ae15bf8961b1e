-- ===== src/Contract/Reader/Rules.antt =====
-- crates/boot-contract/src/lib.rs: the reads of `parse`, each at a place in the bytes.
use polytope_os.Base.{ℕ, zero, suc, ◌+◌, ◌-◌, ◌≡◌, refl, sym, ◌∙◌, arith}
use polytope_os.Base.{List, [], ◌∷◌, ◌++◌, append-nil, append_assoc, ok, some, All}
use polytope_os.Base.{length, length-append, take-append, drop-append, slice, slice-eq-some}
use polytope_os.Base.Bytes.{to_le, from_le, length-to_le, from_le-to_le, IsU16, IsU32, IsU64}
use polytope_os.Contract.Types.{BootHeader, PlatformInfo, ScenarioInfo, MemoryRegion, BootInfo}
use polytope_os.Contract.Typed.{
  IsTypedHeader, IsTypedPlatform, IsTypedScenario, IsTypedRegion, IsTyped,
}
use polytope_os.Contract.Layout.{
  header_layout, platform_layout, scenario_layout, region_layout, regions_layout, layout,
}
use polytope_os.Contract.Reader.{Reader, Read, ◌>>=◌, pure, read_array, array_8, u16, u32, u64}
use polytope_os.Contract.Reader.{
  read_header, read_platform, read_scenario, read_region, read_regions, read_info,
}

-- A reader of `front ++ chunk` that stands behind `front`.
abbrev at : List ℕ → List ℕ → Reader
at front rest = record { bytes = front ++ rest; position = length front }

-- `m` reads the bytes `chunk` as the value `a`.
pub record Reads {A : Type 0} (m : Read A) (chunk : List ℕ) (a : A) : Type 0 where
  pub run : (front rest : List ℕ) → m (at front (chunk ++ rest)) ≡ ok (a, at (front ++ chunk) rest)

at_shift :
    (front chunk rest : List ℕ)
    → at (front ++ chunk) rest
      ≡ record { bytes = front ++ (chunk ++ rest); position = length front + length chunk }
at_shift front chunk rest = rw (append_assoc, length-append)

bind_run :
    {A B : Type 0} (m : Read A) (f : A → Read B) (self self' : Reader) (a : A)
    → m self ≡ ok (a, self')
    → (m >>= f) self ≡ f a self'
bind_run m f self self' a e = rw (e, ◌>>=◌)

array_run :
    (n : ℕ) (self : Reader) (value : List ℕ)
    → slice self.bytes self.position (self.position + n) ≡ some value
    → read_array n self ≡ ok (value, record self { position = self.position + n })
unfolding read_array
array_run n self value e = rw (e, read_array)

Reads-array : (n : ℕ) (chunk : List ℕ) → length chunk ≡ n → Reads (read_array n) chunk chunk
Reads-array n chunk e = record {
  run = λ front rest.
      let lf = length-append front (chunk ++ rest) in
      let lc = length-append chunk rest in
      let start : length front + n - length front ≡ n = omega arith in
      let cut =
        slice-eq-some (front ++ (chunk ++ rest)) (length front) (length front + n) (omega arith)
          (omega arith) in
      rw (at_shift, ← e)
        (array_run (length chunk) (at front (chunk ++ rest)) chunk (
          rw (
            e,
            cut,
            start,
            drop-append front (chunk ++ rest) (length front) refl,
            take-append chunk rest n (sym e),
          )));
}

Reads-bind :
    {A B : Type 0} {m : Read A} {c d : List ℕ} {a : A} {b : B} (f : A → Read B)
    → Reads m c a
    → Reads (f a) d b
    → Reads (m >>= f) (c ++ d) b
Reads-bind {m} {c} {d} {a} f h k = record {
  run = λ front rest.
      rw (append_assoc c d rest, ← append_assoc front c d)
        (bind_run m f (at front (c ++ (d ++ rest))) _ a (h.run front (d ++ rest))
          ∙ k.run (front ++ c) rest);
}

-- The last read of a block.
Reads-last :
    {A B : Type 0} {m : Read A} {c : List ℕ} {a : A} (g : A → B)
    → Reads m c a
    → Reads (m >>= λ x. pure (g x)) c (g a)
Reads-last {m} {c} {a} g h = record {
  run = λ front rest. bind_run m _ (at front (c ++ rest)) _ a (h.run front rest);
}

Reads-u16 : (v : ℕ) → IsU16 v → Reads u16 (to_le 2 v) v
unfolding u16
Reads-u16 v h =
    rw (from_le-to_le 2 v h) at (Reads-last from_le (Reads-array 2 (to_le 2 v) (length-to_le 2 v)))

Reads-u32 : (v : ℕ) → IsU32 v → Reads u32 (to_le 4 v) v
unfolding u32
Reads-u32 v h =
    rw (from_le-to_le 4 v h) at (Reads-last from_le (Reads-array 4 (to_le 4 v) (length-to_le 4 v)))

Reads-u64 : (v : ℕ) → IsU64 v → Reads u64 (to_le 8 v) v
unfolding u64
Reads-u64 v h =
    rw (from_le-to_le 8 v h) at (Reads-last from_le (Reads-array 8 (to_le 8 v) (length-to_le 8 v)))

Reads-array_8 : (magic : List ℕ) → length magic ≡ 8 → Reads array_8 magic magic
unfolding array_8
Reads-array_8 magic e = Reads-array 8 magic e

pub Reads-header : (h : BootHeader) → IsTypedHeader h → Reads read_header (header_layout h) h
unfolding read_header
Reads-header h t = Reads-bind _ (Reads-array_8 h.magic t.magic_length) (
    Reads-bind _ (Reads-u16 h.abi_major t.abi_major) (
      Reads-bind _ (Reads-u16 h.abi_minor t.abi_minor) (
        Reads-bind _ (Reads-u32 h.header_size t.header_size) (
          Reads-bind _ (Reads-u32 h.total_size t.total_size) (
            Reads-bind _ (Reads-u32 h.memory_region_size t.memory_region_size) (
              Reads-bind _ (Reads-u32 h.memory_region_count t.memory_region_count)
                (Reads-last _ (Reads-u32 h.flags t.flags))))))))

Reads-platform : (p : PlatformInfo) → IsTypedPlatform p → Reads read_platform (platform_layout p) p
unfolding read_platform
Reads-platform p t = Reads-bind _ (Reads-u32 p.firmware t.firmware) (
    Reads-bind _ (Reads-u32 p.architecture t.architecture) (
      Reads-bind _ (Reads-u64 p.flags t.flags) (
        Reads-bind _ (Reads-u64 p.rsdp_address t.rsdp_address) (
          Reads-bind _ (Reads-u32 p.rsdp_length t.rsdp_length)
            (Reads-last _ (Reads-u32 p.boot_cpu_id t.boot_cpu_id))))))

Reads-scenario : (s : ScenarioInfo) → IsTypedScenario s → Reads read_scenario (scenario_layout s) s
unfolding read_scenario
Reads-scenario s t =
    Reads-bind _ (Reads-u32 s.kind t.kind)
      (Reads-bind _ (Reads-u32 s.flags t.flags) (Reads-last _ (Reads-u64 s.argument t.argument)))

Reads-region : (r : MemoryRegion) → IsTypedRegion r → Reads read_region (region_layout r) r
unfolding read_region
Reads-region r t = Reads-bind _ (Reads-u64 r.start t.start) (
    Reads-bind _ (Reads-u64 r.length t.length) (
      Reads-bind _ (Reads-u32 r.kind t.kind) (
        Reads-bind _ (Reads-u32 r.source_kind t.source_kind)
          (Reads-last _ (Reads-u64 r.attributes t.attributes)))))

Reads-regions :
    (n : ℕ) (rs : List MemoryRegion)
    → length rs ≡ n
    → All IsTypedRegion rs
    → Reads (read_regions n) (regions_layout rs) rs
unfolding read_regions
Reads-regions zero [] e t = record { run = λ front rest. rw append-nil }
Reads-regions zero (r ∷ rs) e t = absurd (omega arith)
Reads-regions (suc n) [] e t = absurd (omega arith)
Reads-regions (suc n) (r ∷ rs) e t =
    Reads-bind _ (Reads-region r t.0)
      (Reads-last (λ regions. r ∷ regions) (Reads-regions n rs (omega arith) t.1))

-- The reads of `parse` read the layout of a contract as that contract.
pub Reads-info : (info : BootInfo) → IsTyped info → Reads read_info (layout info) info
unfolding read_info layout
Reads-info info t = Reads-bind _ (Reads-header info.header t.header) (
    Reads-bind _ (Reads-platform info.platform t.platform) (
      Reads-bind _ (Reads-scenario info.scenario t.scenario)
        (Reads-last _ (Reads-regions 128 info.memory_regions t.regions_length t.regions))))
