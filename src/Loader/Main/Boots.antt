-- ===== src/Loader/Main/Boots.antt =====
-- crates/uefi-loader/src/main.rs: where `main` transfers, and what the kernel does there.
use Prim.Native.String.{String}
use polytope_os.Base.{ℕ, zero, suc, ◌+◌, ◌-◌, ◌≤◌, ◌<◌, ◌≡◌, refl, arith, ap, ◌∙◌}
use polytope_os.Base.{List, [], ◌∷◌, All, length, take, drop, some}
use polytope_os.Base.{ok, length-append, length-drop, length-replicate, replicate}
use polytope_os.Kernel.Entry.{polytope_kernel_main}
use polytope_os.Kernel.Entry.Verdict.{IsHandoffAddress}
use polytope_os.Loader.Scenario
use polytope_os.Loader.Scenario.{BootScenario}
use polytope_os.Loader.Contract.{MemoryTypes, MemoryDescriptor, encode_contract}
use polytope_os.Loader.Contract.Built.{IsTypedDescriptor}
use polytope_os.Loader.Handoff.{outcome_of, sent-IsTyped, handoff_outcome}
use polytope_os.Loader.Firmware.{Machine, Firmware, byte_at, copy_nonoverlapping}
use polytope_os.Loader.Load.{ContractStorage}
use polytope_os.Loader.Main.{
  Boot, transferred, exited, reset, ExitServices, read_bytes, fail, panic_handler, jump,
  transfer_to_kernel, after_encode, after_exit, after_prepare, main,
}
use polytope_os.Loader.Main
use polytope_os.Contract.Layout.{layout, length-layout}
use polytope_os.Elf.Types.{LoadSegment}
use polytope_os.Elf.Spec.{IsLoadable}
use polytope_os.Loader.Contract.Handed.{
  encode_contract_iff, written, contract_for, contract_for-IsTyped,
}
use polytope_os.Loader.Contract.Sent.{sent, sent_length}
use polytope_os.Loader.Load.Segment.{KeepsPages, IsLoaded, IsOutside}
use polytope_os.Loader.Prepare.Inputs.{ReadsBytes}
use polytope_os.Loader.Prepare.Pages.{InStorage, plan_stays}
use polytope_os.Loader.Prepare.Correct.{IsPrepared, prepare_kernel_lem}
use polytope_os.Loader.Main.Steps.{Transfers, main-Transfers}

address_zero : (address : ℕ) → address + 0 ≡ address
address_zero address = omega arith

address_later : (address i : ℕ) → address + 1 + i ≡ address + suc i
address_later address i = omega arith

read_bytes-take :
    (memory : ℕ → ℕ) (out : List ℕ) (address n : ℕ)
    → n ≤ length out
    → ((i : ℕ) → i < n → memory (address + i) ≡ byte_at out i)
    → read_bytes memory address n ≡ take n out
unfolding read_bytes take byte_at
read_bytes-take memory out address zero fits same = refl
read_bytes-take memory [] address (suc n) fits same = absurd (omega arith)
read_bytes-take memory (b ∷ out) address (suc n) fits same =
    let first : memory address ≡ b = rw (address_zero address) at (same 0 (omega arith)) in
    let rest =
      read_bytes-take memory out (address + 1) n (omega arith)
        (λ i l. ap memory (address_later address i) ∙ same (suc i) (omega arith)) in
    rw (first, rest) refl

pub length-read_bytes : (memory : ℕ → ℕ) (address n : ℕ) → length (read_bytes memory address n) ≡ n
unfolding read_bytes
length-read_bytes memory address zero = refl
length-read_bytes memory address (suc n) = ap suc (length-read_bytes memory (address + 1) n)

minus_start : (start i : ℕ) → start + i - start ≡ i
minus_start start i = omega arith

-- The storage behind `copy_nonoverlapping`.
copied_inside :
    (out : List ℕ) (base i : ℕ) (memory : ℕ → ℕ)
    → i < length out
    → copy_nonoverlapping out base memory (base + i) ≡ byte_at out i
unfolding copy_nonoverlapping
copied_inside out base i memory l = let same = minus_start base i in rw same (ground arith)

copied_outside :
    (out : List ℕ) (base x : ℕ) (memory : ℕ → ℕ)
    → ¬ ((base ≤ x) × (x < base + length out))
    → copy_nonoverlapping out base memory x ≡ memory x
unfolding copy_nonoverlapping
copied_outside out base x memory apart = ground arith

sent_le : (scenario : BootScenario) → sent_length scenario ≤ 4176
unfolding sent_length
sent_le Scenario.truncated_contract = omega arith
sent_le Scenario.normal = omega arith
sent_le Scenario.incompatible_version = omega arith
sent_le Scenario.deliberate_panic = omega arith

length-written :
    (types : MemoryTypes) (memory_map : List MemoryDescriptor) (scenario : BootScenario)
    (storage out : List ℕ) (n : ℕ)
    → All IsTypedDescriptor memory_map
    → encode_contract types memory_map storage scenario ≡ ok (n, out)
    → (length out ≡ length storage) × (n ≤ length out)
unfolding sent_length
length-written types memory_map scenario storage out n t e =
    let (u, room, size, bytes) =
      (encode_contract_iff types memory_map scenario storage t n out).0 e in
    let contract = contract_for types memory_map scenario in
    let laid_out = length-layout (sent scenario contract) (
      sent-IsTyped scenario contract
        (contract_for-IsTyped types memory_map scenario t u.fits u.count)) in
    let zeros = replicate {A = ℕ} (length storage) 0 in
    let parts = length-append (layout (sent scenario contract)) (drop 4176 zeros) in
    let whole : length (written types memory_map scenario storage) ≡ length storage = omega (
      arith,
      parts,
      laid_out,
      length-drop 4176 zeros,
      length-replicate {A = ℕ} (length storage) 0,
    ) in
    let small = sent_le scenario in rw (bytes, size) (whole, omega (arith, whole, small, room))

-- A segment apart from the storage stays loaded when the contract is written.
copy-IsLoaded :
    (bytes : List ℕ) (plan : List LoadSegment) (storage : ContractStorage) (out : List ℕ)
    (memory : ℕ → ℕ)
    → All (IsLoadable bytes) plan
    → length out ≡ storage.byte_length
    → ((x : ℕ) → InStorage storage x → All (λ s. IsOutside s x) plan)
    → All (λ s. IsLoaded s memory) plan
    → All (λ s. IsLoaded s (copy_nonoverlapping out storage.base memory)) plan
copy-IsLoaded bytes [] storage out memory h size apart loaded = tt
copy-IsLoaded bytes (s ∷ plan) storage out memory (loadable, h) size apart (first, loaded) =
    let aligned = loadable.page_aligned in
    (
      λ i l.
          copied_outside out storage.base (s.physical_address + i) memory (λ (lo, hi).
            (let outside = (apart (s.physical_address + i) (lo, omega arith)).0 in omega arith))
          ∙ first i l,
      copy-IsLoaded bytes plan storage out memory h size (λ x inside. (apart x inside).1) loaded,
    )

module _ {S : Type 0} (firmware : Firmware S) (services : ExitServices S) (types : MemoryTypes)
    (Owns : S → ℕ → Type 0) where
  -- What the loader relies on in `exit_boot_services`: the pages of the loader keep their bytes, and the
  -- fields of a descriptor are in the range of their types.
  pub record KeepsAtExit : Type 0 where
    pub keeps :
        (m m' : Machine S) (memory_map : List MemoryDescriptor)
        → services.exit_boot_services m ≡ some (memory_map, m')
        → (x : ℕ) → Owns m.firmware x
        → Owns m'.firmware x × (m'.memory x ≡ m.memory x)
    pub typed :
        (m m' : Machine S) (memory_map : List MemoryDescriptor)
        → services.exit_boot_services m ≡ some (memory_map, m')
        → All IsTypedDescriptor (services.sort memory_map)

  -- The machine that the kernel starts on.
  pub record IsStarted (records : List String) (entry address size : ℕ) (m : Machine S)
      : Type 0 where
    pub storage : ContractStorage
    pub scenario : BootScenario
    pub prepared : Machine S
    pub is_prepared : IsPrepared firmware Owns entry storage scenario prepared
    pub at_base : address ≡ storage.base
    pub loaded : All (λ s. IsLoaded s m.memory) is_prepared.plan
    pub outcome : polytope_kernel_main (read_bytes m.memory) address size ≡ outcome_of scenario
    pub three_records : records ≡ Main.loader_start ∷ Main.elf_valid ∷ Main.handoff_ready ∷ []

module _ {S : Type 0} (firmware : Firmware S) (services : ExitServices S) (types : MemoryTypes)
    (Owns : S → ℕ → Type 0) (keeps_pages : KeepsPages firmware Owns)
    (at_exit : KeepsAtExit firmware services types Owns) where
  -- The contract as the kernel finds it.
  contract_read :
      (out : List ℕ) (base n : ℕ) (memory : ℕ → ℕ)
      → n ≤ length out
      → read_bytes (copy_nonoverlapping out base memory) base n ≡ take n out
  contract_read out base n memory fits =
      read_bytes-take (copy_nonoverlapping out base memory) out base n fits
        (λ i l. copied_inside out base i memory (omega arith))

  started :
      (m m' : Machine S) (records : List String) (entry address size : ℕ)
      → IsHandoffAddress address
      → (r : Transfers firmware services types m records entry address size m')
      → IsPrepared firmware Owns entry r.storage r.scenario r.prepared
      → IsStarted firmware services types Owns records entry address size m'
  started m m' records entry address size a r p =
      let typed = at_exit.typed r.prepared r.left r.memory_map r.leaves in
      let before = read_bytes r.left.memory r.storage.base r.storage.byte_length in
      let (whole, fits) =
        length-written types (services.sort r.memory_map) r.scenario before r.out size typed
          r.encodes in
      let read = length-read_bytes r.left.memory r.storage.base r.storage.byte_length in
      let (loaded, _) =
        plan_stays firmware Owns keeps_pages p.kernel p.plan r.prepared r.left p.is_plan.loadable
          p.pages_owned (at_exit.keeps r.prepared r.left r.memory_map r.leaves) p.loaded in
      record {
        storage = r.storage;
        scenario = r.scenario;
        prepared = r.prepared;
        is_prepared = p;
        at_base = r.at_base;
        loaded = rw r.copied (
            copy-IsLoaded p.kernel p.plan r.storage r.out r.left.memory p.is_plan.loadable
              (whole ∙ read) p.storage_apart loaded);
        outcome =
            handoff_outcome types (services.sort r.memory_map) r.scenario before r.out size address
              (read_bytes m'.memory) typed r.encodes a
              (rw (r.copied, r.at_base)
                (contract_read r.out r.storage.base size r.left.memory fits));
        three_records = r.three_records;
      }

  -- Where `main` of the loader transfers to a page-aligned address above 0 of the contract, from which
  -- 4176 bytes fit into 64 bits: it wrote its three records, and the memory that the kernel starts on
  -- holds every segment of the plan of the kernel's file, which has the entry point, and at that address
  -- a contract on which `polytope_kernel_main` ends as the scenario of the configuration file says.
  pub main_lem :
      (m m' : Machine S) (records : List String) (entry address size : ℕ)
      → ReadsBytes firmware
      → IsHandoffAddress address
      → main firmware services types m
        ≡ record { records = records; ending = transferred entry address size m' }
      → IsStarted firmware services types Owns records entry address size m'
  main_lem m m' records entry address size reads_bytes a e =
      let r = main-Transfers firmware services types m m' records entry address size e in
      started m m' records entry address size a r (
        prepare_kernel_lem firmware Owns keeps_pages m r.prepared entry r.storage r.scenario
          reads_bytes r.prepares)
