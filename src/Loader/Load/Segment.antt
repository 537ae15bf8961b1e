-- ===== src/Loader/Load/Segment.antt =====
-- crates/uefi-loader/src/main.rs: what `load_segment` does to the machine.
use polytope_os.Base.{
  ℕ, zero, suc, ◌+◌, ◌-◌, ◌*◌, ◌%◌, ◌≤◌, ◌<◌, ◌≡◌, ◌≢◌, ◌⊎◌, inl, inr, refl, arith,
}
use polytope_os.Base.{List, [], ◌∷◌, length, drop, length-take, Option, some}
use polytope_os.Base.{ok, err, Option-cases, Bool-cases, ◌==◌, ==_iff, ◌∙◌}
use polytope_os.Elf.Types.{LoadSegment}
use polytope_os.Elf.Spec.{IsLoadable, page_up, segment_end}
use polytope_os.Loader.Error
use polytope_os.Loader.Error.{LoaderError}
use polytope_os.Loader.Contract.{kernel_memory_type}
use polytope_os.Loader.Firmware.{
  Machine, AllocateType, Firmware, at_address, byte_at, write_bytes, copy_nonoverlapping,
}
use polytope_os.Loader.Load.{div_ceil, usize_from, load_segment}

-- What the loader relies on in the firmware: pages that are allocated were not the loader's, and belong
-- to it from then on (`Owns`), and a later allocation neither takes them back nor writes to them.
pub record KeepsPages {S : Type 0} (firmware : Firmware S) (Owns : S → ℕ → Type 0) : Type 0 where
  pub gives :
      (type : AllocateType) (kind pages : ℕ) (m : Machine S) (address : ℕ) (m' : Machine S)
      → firmware.allocate_pages type kind pages m ≡ some (address, m')
      → (x : ℕ) → address ≤ x
      → x < address + pages * 4096
      → Owns m'.firmware x
  pub fresh :
      (type : AllocateType) (kind pages : ℕ) (m : Machine S) (address : ℕ) (m' : Machine S)
      → firmware.allocate_pages type kind pages m ≡ some (address, m')
      → (x : ℕ) → address ≤ x
      → x < address + pages * 4096
      → ¬ Owns m.firmware x
  pub keeps :
      (type : AllocateType) (kind pages : ℕ) (m : Machine S) (address : ℕ) (m' : Machine S)
      → firmware.allocate_pages type kind pages m ≡ some (address, m')
      → (x : ℕ) → Owns m.firmware x
      → Owns m'.firmware x × (m'.memory x ≡ m.memory x)

-- The loader owns the pages of a segment.
abbrev pub OwnsPages : {S : Type 0} → (S → ℕ → Type 0) → LoadSegment → Machine S → Type 0
OwnsPages Owns s m =
    (x : ℕ) → s.physical_address ≤ x → x < page_up (segment_end s) → Owns m.firmware x

-- The whole pages of a segment hold its bytes of the file, and zeros behind them.
abbrev pub IsLoaded : LoadSegment → (ℕ → ℕ) → Type 0
IsLoaded s memory =
    (i : ℕ) → i < page_up s.memory_size → memory (s.physical_address + i) ≡ byte_at s.file_data i

-- An address outside the pages of a segment.
abbrev pub IsOutside : LoadSegment → ℕ → Type 0
IsOutside s x = (x < s.physical_address) ⊎ (page_up (segment_end s) ≤ x)

byte_at_beyond : (bytes : List ℕ) (i : ℕ) → length bytes ≤ i → byte_at bytes i ≡ 0
unfolding byte_at
byte_at_beyond [] i h = refl
byte_at_beyond (b ∷ bytes) zero h = absurd (omega arith)
byte_at_beyond (b ∷ bytes) (suc i) h = byte_at_beyond bytes i (omega arith)

minus_start : (start i : ℕ) → start + i - start ≡ i
minus_start start i = omega arith

module _ (source : List ℕ) (start count : ℕ) (memory : ℕ → ℕ) where
  abbrev filled : ℕ → ℕ
  filled = copy_nonoverlapping source start (write_bytes start 0 count memory)

  filled_inside : (i : ℕ) → i < count → filled (start + i) ≡ byte_at source i
  unfolding write_bytes copy_nonoverlapping
  filled_inside i h =
      let beyond = byte_at_beyond source i in
      let same = minus_start start i in rw same (ground (arith, beyond))

  filled_outside :
      (x : ℕ) → length source ≤ count → (x < start) ⊎ (start + count ≤ x) → filled x ≡ memory x
  unfolding write_bytes copy_nonoverlapping
  filled_outside x h o = ground arith

pub pages_of : (n : ℕ) → div_ceil n 4096 * 4096 ≡ page_up n
unfolding div_ceil
pages_of n = ground arith

length-file_data :
    (bytes : List ℕ) (s : LoadSegment) → IsLoadable bytes s → length s.file_data ≤ s.memory_size
length-file_data bytes s h =
    let lo = h.file_le_memory in
    rw h.file_data (omega (arith, length-take s.file_size (drop s.file_offset bytes), lo))

aligned_end : (base size : ℕ) → base % 4096 ≡ 0 → page_up (base + size) ≡ base + page_up size
aligned_end base size h = omega arith

module _ {S : Type 0} (firmware : Firmware S) where
  -- The firmware does not allocate the pages of the segment at its address.
  abbrev pub Refuses : LoadSegment → Machine S → Type 0
  Refuses s m =
      (address : ℕ) (m' : Machine S)
      → firmware.allocate_pages (at_address s.physical_address) kernel_memory_type
          (div_ceil s.memory_size 4096) m
        ≡ some (address, m')
      → address ≢ s.physical_address

  abbrev allocated : LoadSegment → Machine S → Option (ℕ × Machine S)
  allocated s m =
      firmware.allocate_pages (at_address s.physical_address) kernel_memory_type
        (div_ceil s.memory_size 4096) m

  abbrev loaded_machine : LoadSegment → Machine S → Machine S
  loaded_machine s m = record m {
    memory = filled s.file_data s.physical_address (page_up s.memory_size) m.memory;
  }

  load_segment_refused :
      (bytes : List ℕ) (s : LoadSegment) (m : Machine S)
      → IsLoadable bytes s
      → Refuses s m
      → load_segment firmware s m ≡ err Error.kernel_address
  unfolding load_segment usize_from
  load_segment_refused bytes s m h refuses =
      let low = h.window_lo in
      let high = h.window_hi in
      elim (Option-cases (allocated s m)) [
        | inl nothing ↦ ground (arith, nothing)
        | inr ((address, m'), found) ↦
            let other = refuses address m' found in ground (arith, found, other)
      ]

  load_segment_allocated :
      (bytes : List ℕ) (s : LoadSegment) (m m' : Machine S)
      → IsLoadable bytes s
      → allocated s m ≡ some (s.physical_address, m')
      → load_segment firmware s m ≡ ok (loaded_machine s m')
  unfolding load_segment usize_from
  load_segment_allocated bytes s m m' h found =
      let low = h.window_lo in
      let high = h.window_hi in let pages = pages_of s.memory_size in ground (arith, found, pages)

module _ {S : Type 0} (firmware : Firmware S) (Owns : S → ℕ → Type 0)
    (keeps_pages : KeepsPages firmware Owns) where
  -- From the machine `m` to the machine `m'` with the segment loaded: what the loader owned stays its
  -- own and keeps its bytes, except in the pages of the segment.
  pub record Loads (s : LoadSegment) (m m' : Machine S) : Type 0 where
    pub loaded : IsLoaded s m'.memory
    pub owned : OwnsPages Owns s m'
    pub kept : (x : ℕ) → Owns m.firmware x → Owns m'.firmware x
    pub same : (x : ℕ) → Owns m.firmware x → IsOutside s x → m'.memory x ≡ m.memory x

  Loads-allocated :
      (bytes : List ℕ) (s : LoadSegment) (m m' : Machine S)
      → IsLoadable bytes s
      → allocated firmware s m ≡ some (s.physical_address, m')
      → Loads s m (loaded_machine firmware s m')
  Loads-allocated bytes s m m' h found =
      let end = aligned_end s.physical_address s.memory_size h.page_aligned in
      let short : length s.file_data ≤ page_up s.memory_size =
        omega (arith, length-file_data bytes s h) in
      record {
        loaded = λ i l.
            filled_inside s.file_data s.physical_address (page_up s.memory_size) m'.memory i l;
        owned = λ x lo hi.
            keeps_pages.gives (at_address s.physical_address) kernel_memory_type
              (div_ceil s.memory_size 4096) m s.physical_address m' found x lo
              (omega (arith, pages_of s.memory_size, end));
        kept = λ x o.
            (keeps_pages.keeps (at_address s.physical_address) kernel_memory_type
              (div_ceil s.memory_size 4096) m s.physical_address m' found x o).0;
        same = λ x o outside.
            filled_outside s.file_data s.physical_address (page_up s.memory_size) m'.memory x short
              (rw end at outside)
            ∙ (keeps_pages.keeps (at_address s.physical_address) kernel_memory_type
                (div_ceil s.memory_size 4096) m s.physical_address m' found x o).1;
      }

  -- Of a loadable segment: it is loaded, or the firmware refused its pages.
  pub load_segment_cases :
      (bytes : List ℕ) (s : LoadSegment) (m : Machine S)
      → IsLoadable bytes s
      → ((m' : Machine S) × (load_segment firmware s m ≡ ok m') × Loads s m m')
        ⊎ ((load_segment firmware s m ≡ err Error.kernel_address) × Refuses firmware s m)
  load_segment_cases bytes s m h = elim (Option-cases (allocated firmware s m)) [
    | inl nothing ↦
        let refuses : Refuses firmware s m = λ address m' found. cc in
        inr (load_segment_refused firmware bytes s m h refuses, refuses)
    | inr ((address, m'), found) ↦ elim (Bool-cases (address == s.physical_address)) [
      | inl same ↦
          let at_start : allocated firmware s m ≡ some (s.physical_address, m') =
            rw ((==_iff address s.physical_address).0 same) at found in
          inl (
            loaded_machine firmware s m',
            load_segment_allocated firmware bytes s m m' h at_start,
            Loads-allocated bytes s m m' h at_start,
          )
      | inr other ↦
          let refuses : Refuses firmware s m =
            λ address' m'' found' e. (let unchanged : address' ≡ address = cc in ground arith) in
          inr (load_segment_refused firmware bytes s m h refuses, refuses)
    ]
  ]
