-- ===== src/Loader/Load/Plan.antt =====
-- crates/uefi-loader/src/main.rs: what `load_segments` does to the machine.
use polytope_os.Base.{ℕ, ◌+◌, ◌≤◌, ◌<◌, ◌≡◌, ◌⊎◌, inl, inr, refl, arith, List, [], ◌∷◌, ◌++◌, All}
use polytope_os.Base.{ok, err, ap, ◌∙◌}
use polytope_os.Base.Bytes.{IsByte}
use polytope_os.Elf.Types.{LoadSegment, ValidatedElf}
use polytope_os.Elf.Spec.{IsLoadable, page_up, segment_end, AreDisjoint, IsPlan}
use polytope_os.Elf.Parse.{parse}
use polytope_os.Elf.Iterate.{collect}
use polytope_os.Elf.Iterate.Correct.{collect-parse}
use polytope_os.Loader.Error
use polytope_os.Loader.Error.{LoaderError}
use polytope_os.Loader.Firmware.{Machine, Firmware}
use polytope_os.Loader.Load.{load_segment, load_each, load_segments}
use polytope_os.Loader.Load.Segment.{
  KeepsPages, OwnsPages, IsLoaded, IsOutside, Refuses, Loads, load_segment_cases,
}

-- An address before later segments is outside each.
IsOutside-later :
    (end x : ℕ) (plan : List LoadSegment)
    → x < end
    → All (λ t. end ≤ t.physical_address) plan
    → All (λ t. IsOutside t x) plan
IsOutside-later end x [] below later = tt
IsOutside-later end x (t ∷ plan) below (first, later) =
    (inl (omega arith), IsOutside-later end x plan below later)

module _ {S : Type 0} (firmware : Firmware S) where
  -- The segments before one are loaded, and the firmware refuses the pages of that one.
  pub record RefusesOne (plan : List LoadSegment) (m : Machine S) : Type 0 where
    pub before : List LoadSegment
    pub segment : LoadSegment
    pub after : List LoadSegment
    pub machine : Machine S
    pub in_plan : plan ≡ before ++ (segment ∷ after)
    pub runs : load_each firmware before m ≡ ok machine
    pub refuses : Refuses firmware segment machine

  load_each_cons :
      (s : LoadSegment) (plan : List LoadSegment) (m m' : Machine S)
      → load_segment firmware s m ≡ ok m'
      → load_each firmware (s ∷ plan) m ≡ load_each firmware plan m'
  unfolding load_each
  load_each_cons s plan m m' runs = rw runs

  refused_first :
      (s : LoadSegment) (plan : List LoadSegment) (m : Machine S)
      → Refuses firmware s m
      → RefusesOne (s ∷ plan) m
  unfolding load_each
  refused_first s plan m refuses = record {
    before = [];
    segment = s;
    after = plan;
    machine = m;
    in_plan = refl;
    runs = refl;
    refuses = refuses;
  }

  refused_later :
      (s : LoadSegment) (plan : List LoadSegment) (m m' : Machine S)
      → load_segment firmware s m ≡ ok m'
      → RefusesOne plan m'
      → RefusesOne (s ∷ plan) m
  refused_later s plan m m' runs r = record {
    before = s ∷ r.before;
    segment = r.segment;
    after = r.after;
    machine = r.machine;
    in_plan = ap (λ rest. s ∷ rest) r.in_plan;
    runs = load_each_cons s r.before m m' runs ∙ r.runs;
    refuses = r.refuses;
  }

module _ {S : Type 0} (firmware : Firmware S) (Owns : S → ℕ → Type 0)
    (keeps_pages : KeepsPages firmware Owns) where
  -- From the machine `m` to the machine `m'` with the plan loaded.
  pub record LoadsPlan (plan : List LoadSegment) (m m' : Machine S) : Type 0 where
    pub loaded : All (λ s. IsLoaded s m'.memory) plan
    pub owned : All (λ s. OwnsPages Owns s m') plan
    pub kept : (x : ℕ) → Owns m.firmware x → Owns m'.firmware x
    pub same :
        (x : ℕ) → Owns m.firmware x → All (λ s. IsOutside s x) plan → m'.memory x ≡ m.memory x

  -- A loaded segment stays loaded when later segments are.
  stays-IsLoaded :
      (bytes : List ℕ) (s : LoadSegment) (plan : List LoadSegment) (m m' m'' : Machine S)
      → IsLoadable bytes s
      → All (λ t. page_up (segment_end s) ≤ t.physical_address) plan
      → Loads firmware Owns keeps_pages s m m'
      → LoadsPlan plan m' m''
      → IsLoaded s m''.memory
  stays-IsLoaded bytes s plan m m' m'' h later first rest i l =
      let aligned = h.page_aligned in
      let inside : s.physical_address + i < page_up (segment_end s) = omega arith in
      rest.same (s.physical_address + i) (first.owned (s.physical_address + i) (omega arith) inside)
        (IsOutside-later (page_up (segment_end s)) (s.physical_address + i) plan inside later)
      ∙ first.loaded i l

  LoadsPlan-cons :
      (bytes : List ℕ) (s : LoadSegment) (plan : List LoadSegment) (m m' m'' : Machine S)
      → IsLoadable bytes s
      → All (λ t. page_up (segment_end s) ≤ t.physical_address) plan
      → Loads firmware Owns keeps_pages s m m'
      → LoadsPlan plan m' m''
      → LoadsPlan (s ∷ plan) m m''
  LoadsPlan-cons bytes s plan m m' m'' h later first rest = record {
    loaded = (stays-IsLoaded bytes s plan m m' m'' h later first rest, rest.loaded);
    owned = (λ x lo hi. rest.kept x (first.owned x lo hi), rest.owned);
    kept = λ x o. rest.kept x (first.kept x o);
    same = λ x o outside. rest.same x (first.kept x o) outside.1 ∙ first.same x o outside.0;
  }

  load_each_cases :
      (bytes : List ℕ) (plan : List LoadSegment) (m : Machine S)
      → All (IsLoadable bytes) plan
      → AreDisjoint plan
      → ((m' : Machine S) × (load_each firmware plan m ≡ ok m') × LoadsPlan plan m m')
        ⊎ ((load_each firmware plan m ≡ err Error.kernel_address) × RefusesOne firmware plan m)
  unfolding load_each
  load_each_cases bytes [] m h d =
      inl (m, refl, record { loaded = tt; owned = tt; kept = λ x o. o; same = λ x o outside. refl })
  load_each_cases bytes (s ∷ plan) m (loadable, h) (later, d) =
      elim (load_segment_cases firmware Owns keeps_pages bytes s m loadable) [
        | inr (refused, refuses) ↦ inr (rw refused, refused_first firmware s plan m refuses)
        | inl (m', runs, first) ↦ elim (load_each_cases bytes plan m' h d) [
          | inl (m'', goes_on, rest) ↦
              inl (
                m'',
                rw runs goes_on,
                LoadsPlan-cons bytes s plan m m' m'' loadable later first rest,
              )
          | inr (refused, refuses) ↦
              inr (rw runs refused, refused_later firmware s plan m m' runs refuses)
        ]
      ]

  -- For every file that `parse` accepts and its plan of segments, `load_segments` ends in one of two
  -- ways. It returns, and then the whole pages of every segment of the plan hold the segment's bytes of
  -- the file and zeros behind them, all at the same time, and the loader's other pages are unchanged.
  -- Or it returns the error of the kernel's address, and then the segments before some segment of the
  -- plan were loaded and the firmware did not allocate the pages of that one at its address.
  pub load_segments_lem :
      (bytes : List ℕ) (elf : ValidatedElf) (m : Machine S)
      → All IsByte bytes
      → parse bytes ≡ ok elf
      → (plan : List LoadSegment) × (collect elf ≡ ok plan)
        × IsPlan bytes elf.entry_point plan
        × (((m' : Machine S) × (load_segments firmware elf m ≡ ok m') × LoadsPlan plan m m')
            ⊎ ((load_segments firmware elf m ≡ err Error.kernel_address)
                × RefusesOne firmware plan m))
  unfolding load_segments
  load_segments_lem bytes elf m b e =
      let (plan, collected, is_plan, _) = collect-parse bytes elf b e in
      (
        plan,
        collected,
        is_plan,
        rw collected (load_each_cases bytes plan m is_plan.loadable is_plan.disjoint),
      )
