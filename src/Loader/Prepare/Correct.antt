-- ===== src/Loader/Prepare/Correct.antt =====
-- crates/uefi-loader/src/main.rs: what holds once `prepare_kernel` returns.
use polytope_os.Base.{ℕ, ◌+◌, ◌≤◌, ◌<◌, ◌≡◌, inl, inr, ap, ap₂, ◌∙◌}
use polytope_os.Base.{List, All}
use polytope_os.Base.{Result, ok, >>=-eq-ok, map_err, map_err_ok}
use polytope_os.Base.Bytes.{IsByte}
use polytope_os.Elf.Types.{LoadSegment, ValidatedElf}
use polytope_os.Elf.Spec.{IsPlan}
use polytope_os.Elf.Parse
use polytope_os.Elf.Iterate.Correct.{IsPlan-of_entry}
use polytope_os.Inspect.Types.{stack_guard_address}
use polytope_os.Loader.Error
use polytope_os.Loader.Error.{LoaderError}
use polytope_os.Loader.Scenario.{BootScenario}
use polytope_os.Loader.Firmware.{Machine, Firmware}
use polytope_os.Loader.Load.{ContractStorage, load_segments, reserve_stack_guard, allocate}
use polytope_os.Loader.Load.Segment.{KeepsPages, IsLoaded, IsOutside, OwnsPages}
use polytope_os.Loader.Load.Plan.{LoadsPlan, load_segments_lem}
use polytope_os.Loader.Prepare.{read_inputs, prepare_kernel}
use polytope_os.Loader.Prepare.Inputs.{ReadsBytes, IsInputs, read_inputs-IsInputs, IsByte-kernel}
use polytope_os.Loader.Prepare.Pages.{
  InStorage, guard-Keeps, allocate-Keeps, plan_stays, plan_apart,
}

module _ {S : Type 0} (firmware : Firmware S) (Owns : S → ℕ → Type 0) where
  -- What is prepared for the kernel.
  pub record IsPrepared (entry : ℕ) (storage : ContractStorage) (scenario : BootScenario)
      (m : Machine S) : Type 0 where
    pub kernel : List ℕ
    pub elf : ValidatedElf
    pub plan : List LoadSegment
    pub inputs : IsInputs firmware kernel scenario
    pub parsed : Parse.parse kernel ≡ ok elf
    pub is_plan : IsPlan kernel entry plan
    pub loaded : All (λ s. IsLoaded s m.memory) plan
    pub pages_owned : All (λ s. OwnsPages Owns s m) plan
    pub guard_owned :
        (x : ℕ) → stack_guard_address ≤ x → x < stack_guard_address + 4096 → Owns m.firmware x
    pub storage_length : storage.byte_length ≡ 8192
    pub storage_owned : (x : ℕ) → InStorage storage x → Owns m.firmware x
    pub storage_apart : (x : ℕ) → InStorage storage x → All (λ s. IsOutside s x) plan
    pub storage_not_guard :
        (x : ℕ)
        → InStorage storage x
        → ¬ ((stack_guard_address ≤ x) × (x < stack_guard_address + 4096))

module _ {S : Type 0} (firmware : Firmware S) where
  -- The steps behind the reads.
  record Runs (kernel : List ℕ) (entry : ℕ) (storage : ContractStorage) (m m' : Machine S)
      : Type 0 where
    elf : ValidatedElf
    loaded : Machine S
    guarded : Machine S
    parsed : Parse.parse kernel ≡ ok elf
    same_entry : elf.entry_point ≡ entry
    loads : load_segments firmware elf m ≡ ok loaded
    guards : reserve_stack_guard firmware loaded ≡ ok guarded
    allocates : allocate firmware guarded ≡ ok (storage, m')

  returned_values :
      (elf : ValidatedElf) (entry : ℕ) (storage storage' : ContractStorage)
      (scenario scenario' : BootScenario) (m m' : Machine S)
      → ◌≡◌ {A = Result LoaderError ((ℕ × ContractStorage × BootScenario) × Machine S)}
          (ok ((elf.entry_point, storage', scenario'), m))
          (ok ((entry, storage, scenario), m'))
      → (elf.entry_point ≡ entry) × (storage' ≡ storage) × (scenario' ≡ scenario) × (m ≡ m')
  returned_values elf entry storage storage' scenario scenario' m m' e = (cc, cc, cc, cc)

  prepare_kernel-Runs :
      (m m' : Machine S) (entry : ℕ) (storage : ContractStorage) (scenario : BootScenario)
      → prepare_kernel firmware m ≡ ok ((entry, storage, scenario), m')
      → (kernel : List ℕ) × (read_inputs firmware ≡ ok (kernel, scenario))
        × Runs kernel entry storage m m'
  unfolding prepare_kernel
  prepare_kernel-Runs m m' entry storage scenario e =
      let ((kernel, scenario'), read, e1) = >>=-eq-ok (read_inputs firmware) _ e in
      let (elf, parsed, e2) =
        >>=-eq-ok (map_err (λ _. Error.elf_invalid) (Parse.parse kernel)) _ e1 in
      let (loaded, loads, e3) = >>=-eq-ok (load_segments firmware elf m) _ e2 in
      let (guarded, guards, e4) = >>=-eq-ok (reserve_stack_guard firmware loaded) _ e3 in
      let ((storage', machine), allocates, e5) = >>=-eq-ok (allocate firmware guarded) _ e4 in
      let (same_entry, same_storage, same_scenario, same_machine) =
        returned_values elf entry storage storage' scenario scenario' machine m' e5 in
      (
        kernel,
        read ∙ ap (λ s. ok (kernel, s)) same_scenario,
        record {
          elf = elf;
          loaded = loaded;
          guarded = guarded;
          parsed = map_err_ok (λ _. Error.elf_invalid) (Parse.parse kernel) parsed;
          same_entry = same_entry;
          loads = loads;
          guards = guards;
          allocates = allocates ∙ ap₂ (λ s x. ok (s, x)) same_storage same_machine;
        },
      )

module _ {S : Type 0} (firmware : Firmware S) (Owns : S → ℕ → Type 0)
    (keeps_pages : KeepsPages firmware Owns) where
  -- The plan of an accepted kernel that was loaded.
  loaded-IsPlan :
      (kernel : List ℕ) (elf : ValidatedElf) (entry : ℕ) (m m' : Machine S)
      → elf.entry_point ≡ entry
      → All IsByte kernel
      → Parse.parse kernel ≡ ok elf
      → load_segments firmware elf m ≡ ok m'
      → (plan : List LoadSegment) × IsPlan kernel entry plan
        × LoadsPlan firmware Owns keeps_pages plan m m'
  loaded-IsPlan kernel elf entry m m' same_entry b parsed loads =
      let (plan, collected, is_plan, outcome) =
        load_segments_lem firmware Owns keeps_pages kernel elf m b parsed in
      elim outcome [
        | inl (found, runs, loaded) ↦
            let same : found ≡ m' = cc in
            (
              plan,
              IsPlan-of_entry kernel elf.entry_point entry plan same_entry is_plan,
              rw same at loaded,
            )
        | inr (refused, _) ↦ absurd cc
      ]

  -- The machine behind the guard and the storage.
  Runs-IsPrepared :
      (kernel : List ℕ) (entry : ℕ) (storage : ContractStorage) (scenario : BootScenario)
      (m m' : Machine S)
      → All IsByte kernel
      → IsInputs firmware kernel scenario
      → Runs firmware kernel entry storage m m'
      → IsPrepared firmware Owns entry storage scenario m'
  Runs-IsPrepared kernel entry storage scenario m m' b inputs r =
      let (plan, is_plan, loads) =
        loaded-IsPlan kernel r.elf entry m r.loaded r.same_entry b r.parsed r.loads in
      let (guard_keeps, guard) =
        guard-Keeps firmware Owns keeps_pages r.loaded r.guarded r.guards in
      let (storage_keeps, size, owned) =
        allocate-Keeps firmware Owns keeps_pages r.guarded m' storage r.allocates in
      let (loaded, pages) =
        plan_stays firmware Owns keeps_pages kernel plan r.loaded r.guarded is_plan.loadable
          loads.owned guard_keeps loads.loaded in
      let (loaded', pages') =
        plan_stays firmware Owns keeps_pages kernel plan r.guarded m' is_plan.loadable pages
          storage_keeps loaded in
      record {
        kernel = kernel;
        elf = r.elf;
        plan = plan;
        inputs = inputs;
        parsed = r.parsed;
        is_plan = is_plan;
        loaded = loaded';
        pages_owned = pages';
        guard_owned = λ x lo hi. (storage_keeps x (guard x lo hi)).0;
        storage_length = size;
        storage_owned = λ x h. (owned x h).0;
        storage_apart =
            λ x h. plan_apart firmware Owns keeps_pages plan r.guarded x pages (owned x h).1;
        storage_not_guard = λ x h (lo, hi). (owned x h).1 (guard x lo hi);
      }

  -- Where `prepare_kernel` returns an entry point, a storage for the contract and a scenario, both files
  -- were read whole and the kernel and the scenario parse. The machine then holds every segment of the
  -- kernel's plan, which has the entry point: its bytes of the file and zeros behind them to the end
  -- of its last page. The loader owns these pages, the page of the stack guard and the 8,192 bytes of
  -- the storage, and the storage lies outside the pages of all segments and the guard's.
  pub prepare_kernel_lem :
      (m m' : Machine S) (entry : ℕ) (storage : ContractStorage) (scenario : BootScenario)
      → ReadsBytes firmware
      → prepare_kernel firmware m ≡ ok ((entry, storage, scenario), m')
      → IsPrepared firmware Owns entry storage scenario m'
  prepare_kernel_lem m m' entry storage scenario reads_bytes e =
      let (kernel, read, runs) = prepare_kernel-Runs firmware m m' entry storage scenario e in
      let inputs = read_inputs-IsInputs firmware kernel scenario read in
      Runs-IsPrepared kernel entry storage scenario m m'
        (IsByte-kernel firmware kernel scenario reads_bytes inputs) inputs runs
