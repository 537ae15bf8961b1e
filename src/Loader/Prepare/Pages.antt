-- ===== src/Loader/Prepare/Pages.antt =====
-- crates/uefi-loader/src/main.rs: the pages that `prepare_kernel` allocates behind the segments.
use polytope_os.Base.{ℕ, ◌+◌, ◌≤◌, ◌<◌, ◌≡◌, inl, inr, arith, ◌∙◌}
use polytope_os.Base.{List, [], ◌∷◌, All, some, Bool-cases, leb, ltb}
use polytope_os.Base.{ok}
use polytope_os.Elf.Types.{LoadSegment}
use polytope_os.Elf.Spec.{IsLoadable, page_up, segment_end}
use polytope_os.Inspect.Types.{stack_guard_address}
use polytope_os.Loader.Contract.{contract_memory_type, stack_guard_memory_type}
use polytope_os.Loader.Firmware.{Machine, Firmware, any_pages, at_address}
use polytope_os.Loader.Load.{ContractStorage, reserve_stack_guard, allocate, div_ceil}
use polytope_os.Loader.Load.Segment.{KeepsPages, IsLoaded, IsOutside, OwnsPages}

-- The pages of the contract's storage.
abbrev pub InStorage : ContractStorage → ℕ → Type 0
InStorage storage x = (storage.base ≤ x) × (x < storage.base + storage.byte_length)

module _ {S : Type 0} (firmware : Firmware S) (Owns : S → ℕ → Type 0)
    (keeps_pages : KeepsPages firmware Owns) where
  -- What the loader owned stays its own and keeps its bytes.
  abbrev pub Keeps : Machine S → Machine S → Type 0
  Keeps m m' = (x : ℕ) → Owns m.firmware x → Owns m'.firmware x × (m'.memory x ≡ m.memory x)

  reserved_guard :
      (m m' : Machine S)
      → reserve_stack_guard firmware m ≡ ok m'
      → firmware.allocate_pages (at_address stack_guard_address) stack_guard_memory_type 1 m
        ≡ some (stack_guard_address, m')
  unfolding reserve_stack_guard
  reserved_guard m m' e = ground arith

  pub guard-Keeps :
      (m m' : Machine S)
      → reserve_stack_guard firmware m ≡ ok m'
      → Keeps m m'
        × ((x : ℕ) → stack_guard_address ≤ x → x < stack_guard_address + 4096 → Owns m'.firmware x)
  guard-Keeps m m' e =
      let found = reserved_guard m m' e in
      (
        λ x o. keeps_pages.keeps _ _ _ m _ m' found x o,
        λ x lo hi. keeps_pages.gives _ _ _ m _ m' found x lo hi,
      )

  allocated_storage :
      (m m' : Machine S) (storage : ContractStorage)
      → allocate firmware m ≡ ok (storage, m')
      → (firmware.allocate_pages any_pages contract_memory_type 2 m ≡ some (storage.base, m'))
        × (storage.byte_length ≡ 8192)
  unfolding allocate div_ceil
  allocated_storage m m' storage e = ground arith

  pub allocate-Keeps :
      (m m' : Machine S) (storage : ContractStorage)
      → allocate firmware m ≡ ok (storage, m')
      → Keeps m m'
        × (storage.byte_length ≡ 8192)
        × ((x : ℕ) → InStorage storage x → Owns m'.firmware x × ¬ Owns m.firmware x)
  allocate-Keeps m m' storage e =
      let (found, size) = allocated_storage m m' storage e in
      (
        λ x o. keeps_pages.keeps _ _ _ m _ m' found x o,
        size,
        λ x (lo, hi). (
          keeps_pages.gives _ _ _ m _ m' found x lo (omega arith),
          keeps_pages.fresh _ _ _ m _ m' found x lo (omega arith),
        ),
      )

  inside_pages :
      (bytes : List ℕ) (s : LoadSegment) (i : ℕ)
      → IsLoadable bytes s
      → i < page_up s.memory_size
      → s.physical_address + i < page_up (segment_end s)
  inside_pages bytes s i h l = let aligned = h.page_aligned in omega arith

  -- What was loaded stays loaded.
  pub plan_stays :
      (bytes : List ℕ) (plan : List LoadSegment) (m m' : Machine S)
      → All (IsLoadable bytes) plan
      → All (λ s. OwnsPages Owns s m) plan
      → Keeps m m'
      → All (λ s. IsLoaded s m.memory) plan
      → All (λ s. IsLoaded s m'.memory) plan × All (λ s. OwnsPages Owns s m') plan
  plan_stays bytes [] m m' h owned keeps loaded = (tt, tt)
  plan_stays bytes (s ∷ plan) m m' (loadable, h) (mine, owned) keeps (first, loaded) =
      let (rest, owned') = plan_stays bytes plan m m' h owned keeps loaded in
      (
        (
          λ i l.
              (keeps (s.physical_address + i)
                (mine (s.physical_address + i) (omega arith) (inside_pages bytes s i loadable l))).1
              ∙ first i l,
          rest,
        ),
        (λ x lo hi. (keeps x (mine x lo hi)).0, owned'),
      )

  pub plan_apart :
      (plan : List LoadSegment) (m : Machine S) (x : ℕ)
      → All (λ s. OwnsPages Owns s m) plan
      → ¬ Owns m.firmware x
      → All (λ s. IsOutside s x) plan
  plan_apart [] m x owned free = tt
  plan_apart (s ∷ plan) m x (mine, owned) free = (
    elim (Bool-cases (leb s.physical_address x)) [
      | inr below ↦ inl (ground arith)
      | inl at_least ↦ elim (Bool-cases (ltb x (page_up (segment_end s)))) [
        | inr beyond ↦ inr (ground arith)
        | inl inside ↦ absurd (free (mine x (ground arith) (ground arith)))
      ]
    ],
    plan_apart plan m x owned free,
  )
