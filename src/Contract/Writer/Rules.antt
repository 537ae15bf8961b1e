-- ===== src/Contract/Writer/Rules.antt =====
-- crates/boot-contract/src/lib.rs: the writes of `encode`, each at a place in the bytes.
use polytope_os.Base.{ℕ, ◌+◌, ◌≡◌, refl, sym, ◌∙◌, arith, le→leb}
use polytope_os.Base.{List, [], ◌∷◌, ◌++◌, append-nil, append_assoc, ok}
use polytope_os.Base.{
  length, length-append, take, drop, take-append, drop-append, take-append-drop, length-take,
  length-drop,
}
use polytope_os.Base.Bytes.{to_le}
use polytope_os.Contract.Types.{BootHeader, PlatformInfo, ScenarioInfo, MemoryRegion, BootInfo}
use polytope_os.Contract.Layout.{
  header_layout, platform_layout, scenario_layout, region_layout, regions_layout, layout,
}
use polytope_os.Contract.Writer.{Writer, Write, ◌>>◌, write_bytes, write_u16, write_u32, write_u64}
use polytope_os.Contract.Writer.{
  write_header, write_platform, write_scenario, write_region, write_regions, write_info,
}

-- A writer that has written `done`.
abbrev at : List ℕ → List ℕ → Writer
at done rest = record { bytes = done ++ rest; position = length done }

-- `m` writes the bytes `chunk`.
pub record Writes (m : Write) (chunk : List ℕ) : Type 0 where
  pub run :
      (done old rest : List ℕ)
      → length old ≡ length chunk
      → m (at done (old ++ rest)) ≡ ok (at (done ++ chunk) rest)

drop_two :
    (done old rest : List ℕ) (n : ℕ)
    → n ≡ length done + length old
    → drop n (done ++ (old ++ rest)) ≡ rest
drop_two done old rest n e =
    rw (← append_assoc done old rest)
      (drop-append (done ++ old) rest n (omega (arith, length-append done old)))

Writes-bytes : (value : List ℕ) → Writes (write_bytes value) value
unfolding write_bytes
Writes-bytes value = record {
  run = λ done old rest e.
      let room = length-append done (old ++ rest) in
      let room_rest = length-append old rest in
      rw (
        le→leb (length done + length value) (length (done ++ (old ++ rest))) (omega arith),
        take-append done (old ++ rest) (length done) refl,
        drop_two done old rest (length done + length value) (omega arith),
        append_assoc done value rest,
        length-append done value,
      );
}

cut_old :
    (c d : ℕ) (old : List ℕ)
    → length old ≡ c + d
    → (x : List ℕ) × (y : List ℕ) × (old ≡ x ++ y) × (length x ≡ c) × (length y ≡ d)
cut_old c d old e = (
  take c old,
  drop c old,
  sym (take-append-drop c old),
  omega (arith, length-take c old),
  omega (arith, length-drop c old),
)

then_run : (m k : Write) (self self' : Writer) → m self ≡ ok self' → (m >> k) self ≡ k self'
then_run m k self self' e = rw (e, ◌>>◌)

Writes-then : (m k : Write) {c d : List ℕ} → Writes m c → Writes k d → Writes (m >> k) (c ++ d)
Writes-then m k {c} {d} h j = record {
  run = λ done old rest e.
      let (x, y, joined, lx, ly) =
        cut_old (length c) (length d) old (omega (arith, length-append c d)) in
      rw (joined, append_assoc x y rest, ← append_assoc done c d)
        (then_run m k (at done (x ++ (y ++ rest))) _ (h.run done x (y ++ rest) lx)
          ∙ j.run (done ++ c) y rest ly);
}

Writes-u16 : (v : ℕ) → Writes (write_u16 v) (to_le 2 v)
unfolding write_u16
Writes-u16 v = Writes-bytes (to_le 2 v)

Writes-u32 : (v : ℕ) → Writes (write_u32 v) (to_le 4 v)
unfolding write_u32
Writes-u32 v = Writes-bytes (to_le 4 v)

Writes-u64 : (v : ℕ) → Writes (write_u64 v) (to_le 8 v)
unfolding write_u64
Writes-u64 v = Writes-bytes (to_le 8 v)

Writes-header : (h : BootHeader) → Writes (write_header h) (header_layout h)
unfolding write_header
Writes-header h = Writes-then _ _ (Writes-bytes h.magic) (
    Writes-then _ _ (Writes-u16 h.abi_major) (
      Writes-then _ _ (Writes-u16 h.abi_minor) (
        Writes-then _ _ (Writes-u32 h.header_size) (
          Writes-then _ _ (Writes-u32 h.total_size) (
            Writes-then _ _ (Writes-u32 h.memory_region_size)
              (Writes-then _ _ (Writes-u32 h.memory_region_count) (Writes-u32 h.flags)))))))

Writes-platform : (p : PlatformInfo) → Writes (write_platform p) (platform_layout p)
unfolding write_platform
Writes-platform p = Writes-then _ _ (Writes-u32 p.firmware) (
    Writes-then _ _ (Writes-u32 p.architecture) (
      Writes-then _ _ (Writes-u64 p.flags) (
        Writes-then _ _ (Writes-u64 p.rsdp_address)
          (Writes-then _ _ (Writes-u32 p.rsdp_length) (Writes-u32 p.boot_cpu_id)))))

Writes-scenario : (s : ScenarioInfo) → Writes (write_scenario s) (scenario_layout s)
unfolding write_scenario
Writes-scenario s =
    Writes-then _ _ (Writes-u32 s.kind)
      (Writes-then _ _ (Writes-u32 s.flags) (Writes-u64 s.argument))

Writes-region : (r : MemoryRegion) → Writes (write_region r) (region_layout r)
unfolding write_region
Writes-region r = Writes-then _ _ (Writes-u64 r.start) (
    Writes-then _ _ (Writes-u64 r.length) (
      Writes-then _ _ (Writes-u32 r.kind)
        (Writes-then _ _ (Writes-u32 r.source_kind) (Writes-u64 r.attributes))))

nothing_left : (old : List ℕ) → length old ≡ 0 → old ≡ []
nothing_left [] e = refl
nothing_left (b ∷ bs) e = absurd (omega arith)

Writes-regions : (rs : List MemoryRegion) → Writes (write_regions rs) (regions_layout rs)
unfolding write_regions
Writes-regions [] = record { run = λ done old rest e. rw (nothing_left old e, append-nil) }
Writes-regions (r ∷ rs) = record {
  run = (Writes-then _ _ (Writes-region r) (Writes-regions rs)).run;
}

-- The writes of `encode` write the layout of the contract.
pub Writes-info : (info : BootInfo) → Writes (write_info info) (layout info)
unfolding write_info layout
Writes-info info = Writes-then _ _ (Writes-header info.header) (
    Writes-then _ _ (Writes-platform info.platform)
      (Writes-then _ _ (Writes-scenario info.scenario) (Writes-regions info.memory_regions)))
