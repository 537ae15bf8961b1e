-- ===== src/Image/Build/Built.antt =====
-- crates/xtask/src/image.rs: `build_image_bytes` as a whole.
use mathlib.Core.Path.{subst}
use polytope_os.Base.{
  ℕ, ◌≤◌, ◌≡◌, ◌↔◌, arith, sym, ap, ◌∙◌, List, [], ◌∷◌, ◌++◌, take, drop, replicate, slice,
  slice-eq-some, some, ok_or, ok_or-eq-ok, length, leb, le→leb, list_eq, list_eq_iff,
}
use polytope_os.Base.{true, Result, ok, >>=-eq-ok}
use polytope_os.Elf.Types.{ValidatedElf}
use polytope_os.Elf.Parse
use polytope_os.Harness.Text.{codes}
use polytope_os.Image.Read.{lba_to_offset}
use polytope_os.Image.Types.{ImageError, ensure}
use polytope_os.Image.Types
use polytope_os.Image.Scenario.{BootScenario, normal, bad_version, truncated, panic}
use polytope_os.Image.Scenario.Tokens.{scenario_file}
use polytope_os.Image.Payload.{validate_uefi_loader, validate_kernel_elf}
use polytope_os.Image.Build.{
  Crates, Partition, ImageManifest, disk_guid_text, esp_guid_text, same_scenario, create_gpt_disk,
  format_esp, validate_image_bytes, build_image_bytes,
}
use polytope_os.Image.Build.Correct.{IsImage, validated_manifest_iff, kernel_iff}

same_scenario_iff : (a b : BootScenario) → (same_scenario a b ≡ true) ↔ (a ≡ b)
unfolding same_scenario
same_scenario_iff normal normal = ground arith
same_scenario_iff normal _ = ground arith
same_scenario_iff bad_version bad_version = ground arith
same_scenario_iff bad_version _ = ground arith
same_scenario_iff truncated truncated = ground arith
same_scenario_iff truncated _ = ground arith
same_scenario_iff panic panic = ground arith
same_scenario_iff panic _ = ground arith

slice_cases :
    (table esp : List ℕ)
    → slice table 1_048_576 66_060_288 ≡ some esp
    → (66_060_288 ≤ length table) × (esp ≡ take 65_011_712 (drop 1_048_576 table))
unfolding slice
slice_cases table esp e = ground arith

same_value : {a b : List ℕ} → ◌≡◌ {A = Result ImageError (List ℕ)} (ok a) (ok b) → a ≡ b
same_value e = cc

module _ (crates : Crates) where
  -- The partition table that is written: one partition, the system partition at its place.
  abbrev pub esp_entry : List ℕ → Partition
  esp_entry esp_guid = record {
    part_type_guid = crates.efi_type;
    part_guid = esp_guid;
    first_lba = 2_048;
    last_lba = 129_023;
    flags = 0;
    name = codes "PolytopeOS ESP";
  }

  -- A new disk: 64 MiB of zeros with a protective record of 131,071 blocks and the table.
  pub record IsNewDisk (table : List ℕ) : Type 0 where
    pub device : List ℕ
    pub disk_guid : List ℕ
    pub esp_guid : List ℕ
    pub protected : crates.overwrite_mbr 131_071 (replicate 67_108_864 0) ≡ some device
    pub disk_uuid :
        crates.parse_uuid (codes "4ed83d8f-20d8-4c3d-9a4c-25bccd13a6a1") ≡ some disk_guid
    pub esp_uuid : crates.parse_uuid (codes "f607134d-0901-4d7b-a512-5a49d6ba66bf") ≡ some esp_guid
    pub written : crates.write_gpt device disk_guid ((1, esp_entry esp_guid) ∷ []) ≡ some table

  -- The disk with the system partition formatted in place and the three files in their directories. All
  -- else of it is as before.
  pub record IsWrittenDisk (table loader kernel : List ℕ) (s : BootScenario) (disk : List ℕ)
      : Type 0 where
    pub size : 66_060_288 ≤ length table
    pub volume : List ℕ
    pub esp : List ℕ
    pub formatted : crates.format_volume (take 65_011_712 (drop 1_048_576 table)) ≡ some volume
    pub files :
        crates.write_tree volume (codes "EFI" ∷ codes "EFI/BOOT" ∷ codes "POLYTOPE" ∷ []) (
          (codes "EFI/BOOT/BOOTX64.EFI", loader)
          ∷ (codes "POLYTOPE/KERNEL.ELF", kernel)
          ∷ (codes "POLYTOPE/BOOT.CFG", scenario_file s)
          ∷ [])
        ≡ some esp
    pub joined : disk ≡ take 1_048_576 table ++ esp ++ drop 66_060_288 table

  blank_iff : (table : List ℕ) → (create_gpt_disk crates ≡ ok table) ↔ IsNewDisk table
  unfolding create_gpt_disk
  blank_iff table = (
    λ e.
        let (device, protected, e1) =
          >>=-eq-ok (ok_or (crates.overwrite_mbr 131_071 (replicate 67_108_864 0)) Types.gpt_failed)
            _ e in
        let (d, disk_uuid, e2) =
          >>=-eq-ok (ok_or (crates.parse_uuid disk_guid_text) Types.bad_uuid) _ e1 in
        let (g, esp_uuid, e3) =
          >>=-eq-ok (ok_or (crates.parse_uuid esp_guid_text) Types.bad_uuid) _ e2 in
        record {
          device = device;
          disk_guid = d;
          esp_guid = g;
          protected = ok_or-eq-ok _ Types.gpt_failed protected;
          disk_uuid = ok_or-eq-ok _ Types.bad_uuid disk_uuid;
          esp_uuid = ok_or-eq-ok _ Types.bad_uuid esp_uuid;
          written =
              ok_or-eq-ok (crates.write_gpt device d ((1, esp_entry g) ∷ [])) Types.gpt_failed e3;
        },
    λ h. rw (h.protected, h.disk_uuid, h.esp_uuid, h.written),
  )

  formatted_iff :
      (table loader kernel : List ℕ) (s : BootScenario) (disk : List ℕ)
      → (format_esp crates table loader kernel (scenario_file s) ≡ ok disk)
        ↔ IsWrittenDisk table loader kernel s disk
  unfolding format_esp lba_to_offset
  formatted_iff table loader kernel s disk = (
    λ e.
        let (esp, cut_out, e1) =
          >>=-eq-ok (ok_or (slice table 1_048_576 66_060_288) Types.format_failed) _ e in
        let (size, same) =
          slice_cases table esp (ok_or-eq-ok (slice table 1_048_576 66_060_288) _ cut_out) in
        let (volume, formatted, e2) =
          >>=-eq-ok (ok_or (crates.format_volume esp) Types.format_failed) _ e1 in
        let (written, files, e3) =
          >>=-eq-ok
            (ok_or
              (crates.write_tree volume (codes "EFI" ∷ codes "EFI/BOOT" ∷ codes "POLYTOPE" ∷ []) (
                (codes "EFI/BOOT/BOOTX64.EFI", loader)
                ∷ (codes "POLYTOPE/KERNEL.ELF", kernel)
                ∷ (codes "POLYTOPE/BOOT.CFG", scenario_file s)
                ∷ []))
              Types.format_failed)
            _ e2 in
        record {
          size = size;
          volume = volume;
          esp = written;
          formatted =
              ap crates.format_volume (sym same)
              ∙ ok_or-eq-ok (crates.format_volume esp) Types.format_failed formatted;
          files = ok_or-eq-ok _ Types.format_failed files;
          joined = sym (same_value e3);
        },
    λ h. rw (
      slice-eq-some table 1_048_576 66_060_288 (omega arith) h.size,
      h.formatted,
      h.files,
      h.joined,
    ),
  )

  -- What a build of an image is: a checked loader and kernel, written with the scenario's file into a
  -- new disk, which validates with the digests and the scenario of the inputs.
  pub record IsBuilt (loader kernel : List ℕ) (s : BootScenario) (disk : List ℕ) (m : ImageManifest)
      : Type 0 where
    pub loader_valid : validate_uefi_loader loader ≡ ok tt
    pub kernel_elf : ValidatedElf
    pub kernel_valid : Parse.parse kernel ≡ ok kernel_elf
    pub loader_size : length loader ≤ 25_165_824
    pub kernel_size : length kernel ≤ 25_165_824
    pub table : List ℕ
    pub blank : IsNewDisk table
    pub formatted : IsWrittenDisk table loader kernel s disk
    pub is_image : IsImage crates disk m
    pub loader_digest : m.loader_sha256 ≡ crates.sha256_hex loader
    pub kernel_digest : m.kernel_sha256 ≡ crates.sha256_hex kernel
    pub same_scenario : m.scenario ≡ s

  built_injective :
      {disk disk' : List ℕ} {m m' : ImageManifest}
      → ◌≡◌ {A = Result ImageError (List ℕ × ImageManifest)} (ok (disk, m)) (ok (disk', m'))
      → (disk ≡ disk') × (m ≡ m')
  built_injective e = (cc, cc)

  moved_build :
      {loader kernel disk disk' : List ℕ} {s : BootScenario} {m m' : ImageManifest}
      → disk ≡ disk'
      → m ≡ m'
      → IsBuilt loader kernel s disk m
      → IsBuilt loader kernel s disk' m'
  moved_build {loader} {kernel} {disk} {disk'} {s} {m} {m'} same_disk same_m h =
      subst (λ x. IsBuilt loader kernel s disk' x) same_m
        (subst (λ x. IsBuilt loader kernel s x m) same_disk h)

  build_run-IsBuilt :
      (loader kernel : List ℕ) (s : BootScenario) (disk : List ℕ) (m : ImageManifest)
      → build_image_bytes crates loader kernel s ≡ ok (disk, m)
      → IsBuilt loader kernel s disk m
  unfolding build_image_bytes
  build_run-IsBuilt loader kernel s disk m e =
      let (u0, loader_valid, e1) = >>=-eq-ok (validate_uefi_loader loader) _ e in
      let (u1, kernel_valid, e2) = >>=-eq-ok (validate_kernel_elf kernel) _ e1 in
      let (u2, loader_size, e3) =
        >>=-eq-ok (ensure (leb (length loader) 25_165_824) Types.loader_too_large) _ e2 in
      let (u3, kernel_size, e4) =
        >>=-eq-ok (ensure (leb (length kernel) 25_165_824) Types.kernel_too_large) _ e3 in
      let (table, created, e5) = >>=-eq-ok (create_gpt_disk crates) _ e4 in
      let (disk', formatted, e6) =
        >>=-eq-ok (format_esp crates table loader kernel (scenario_file s)) _ e5 in
      let (m', validated, e7) = >>=-eq-ok (validate_image_bytes crates disk') _ e6 in
      let (u4, same_loader, e8) =
        >>=-eq-ok (ensure (list_eq m'.loader_sha256 (crates.sha256_hex loader)) Types.loader_digest)
          _ e7 in
      let (u5, same_kernel, e9) =
        >>=-eq-ok (ensure (list_eq m'.kernel_sha256 (crates.sha256_hex kernel)) Types.kernel_digest)
          _ e8 in
      let (u6, same_s, e10) =
        >>=-eq-ok (ensure (same_scenario m'.scenario s) Types.scenario_differs) _ e9 in
      let (elf, parsed) = (kernel_iff crates kernel).0 kernel_valid in
      let (same_disk, same_m) = built_injective e10 in
      moved_build same_disk same_m (record {
        loader_valid = loader_valid;
        kernel_elf = elf;
        kernel_valid = parsed;
        loader_size = ground (arith, loader_size);
        kernel_size = ground (arith, kernel_size);
        table = table;
        blank = (blank_iff table).0 created;
        formatted = (formatted_iff table loader kernel s disk').0 formatted;
        is_image = (validated_manifest_iff crates disk' m').0 validated;
        loader_digest = (list_eq_iff m'.loader_sha256 _).0 (ground (arith, same_loader));
        kernel_digest = (list_eq_iff m'.kernel_sha256 _).0 (ground (arith, same_kernel));
        same_scenario = (same_scenario_iff m'.scenario s).0 (ground (arith, same_s));
      })

  IsBuilt-build_run :
      (loader kernel : List ℕ) (s : BootScenario) (disk : List ℕ) (m : ImageManifest)
      → IsBuilt loader kernel s disk m
      → build_image_bytes crates loader kernel s ≡ ok (disk, m)
  unfolding build_image_bytes
  IsBuilt-build_run loader kernel s disk m h = rw (
    h.loader_valid,
    (kernel_iff crates kernel).1 (h.kernel_elf, h.kernel_valid),
    le→leb (length loader) 25_165_824 h.loader_size,
    le→leb (length kernel) 25_165_824 h.kernel_size,
    (blank_iff h.table).1 h.blank,
    (formatted_iff h.table loader kernel s disk).1 h.formatted,
    (validated_manifest_iff crates disk m).1 h.is_image,
    (list_eq_iff m.loader_sha256 (crates.sha256_hex loader)).1 h.loader_digest,
    (list_eq_iff m.kernel_sha256 (crates.sha256_hex kernel)).1 h.kernel_digest,
    (same_scenario_iff m.scenario s).1 h.same_scenario,
  )

  -- With any functions for the crates that it calls, `build_image_bytes` returns a disk and a manifest
  -- just where: the loader is a UEFI loader, the ELF parser accepts the kernel, and both have at most
  -- 24 MiB; the disk is the new one of `IsNewDisk` with the system partition of `IsWrittenDisk`, which has them
  -- and the file of the scenario at their paths; and the disk is an image with this manifest, as `IsImage` says, whose digests of the loader and the kernel
  -- and whose scenario are those of the inputs.
  pub build_image_iff :
      (loader kernel : List ℕ) (s : BootScenario) (disk : List ℕ) (m : ImageManifest)
      → (build_image_bytes crates loader kernel s ≡ ok (disk, m)) ↔ IsBuilt loader kernel s disk m
  build_image_iff loader kernel s disk m =
      (build_run-IsBuilt loader kernel s disk m, IsBuilt-build_run loader kernel s disk m)
