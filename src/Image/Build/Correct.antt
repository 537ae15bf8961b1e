-- ===== src/Image/Build/Correct.antt =====
-- crates/xtask/src/image.rs: the parts of `validate_image_bytes` together.
use mathlib.Core.Path.{subst}
use polytope_os.Base.{ℕ, ◌≡◌, ◌↔◌, refl, sym, ap, ◌∙◌, arith, List, length, slice, slice-eq-some}
use polytope_os.Base.{◌==◌, some, Result, ok, >>=-eq-ok, ok_or, or_panic, map_err, map_err_ok}
use polytope_os.Elf.Types.{ValidatedElf}
use polytope_os.Elf.Parse
use polytope_os.Image.Types.{ImageError, ensure}
use polytope_os.Image.Types
use polytope_os.Image.Read.{lba_to_offset}
use polytope_os.Image.Read.Blocks.{blocks, length-blocks}
use polytope_os.Image.Gpt.{validate_raw_gpt_layout}
use polytope_os.Image.Gpt.Spec.{IsGptLayout}
use polytope_os.Image.Gpt.Correct.{raw_gpt_layout_iff}
use polytope_os.Image.Fat.{validate_raw_fat32_layout}
use polytope_os.Image.Fat.Layout.{IsFatVolume, raw_fat32_layout_iff}
use polytope_os.Image.Scenario.{BootScenario, parse_scenario}
use polytope_os.Image.Scenario.Tokens.{scenario_file, scenario_file_iff}
use polytope_os.Image.Payload.{validate_uefi_loader, validate_kernel_elf}
use polytope_os.Image.Build.{
  Volume, Crates, ImageManifest, disk_guid_text, esp_guid_text, validate_gpt, mount, validate_tree,
  read_path, read_payloads, validate_image_bytes,
}
use polytope_os.Image.Build.Tree.{IsTree, validate_tree_iff}
use polytope_os.Image.Build.Validated.{HasEsp, gpt-HasEsp, HasEsp-gpt, IsMounted, mount_iff}

-- The bytes of the system partition.
abbrev pub esp_of : List ℕ → List ℕ
esp_of image = blocks image 2_048 129_024

length-esp_of : (image : List ℕ) → length image ≡ 67_108_864 → length (esp_of image) ≡ 65_011_712
length-esp_of image size =
    omega (arith, length-blocks image 2_048 129_024 (omega arith) (omega arith))

payloads_injective :
    {l k l' k' : List ℕ} {s s' : BootScenario}
    → ◌≡◌ {A = Result ImageError (List ℕ × List ℕ × BootScenario)} (ok (l, k, s)) (ok (l', k', s'))
    → (l ≡ l') × (k ≡ k') × (s ≡ s')
payloads_injective e = (cc, cc, cc)

module _ (crates : Crates) where
  -- The files of a file system: a loader, a kernel that the ELF parser accepts, and the file of a
  -- scenario.
  pub record HasFiles (volume : Volume) (loader kernel : List ℕ) (s : BootScenario) : Type 0 where
    pub tree : IsTree volume
    pub loader_read : read_path crates volume Types.loader_image_path 25_165_824 ≡ ok loader
    pub kernel_read : read_path crates volume Types.kernel_image_path 16_777_216 ≡ ok kernel
    pub scenario_read : read_path crates volume Types.scenario_image_path 32 ≡ ok (scenario_file s)
    pub loader_valid : validate_uefi_loader loader ≡ ok tt
    pub kernel_elf : ValidatedElf
    pub kernel_valid : Parse.parse kernel ≡ ok kernel_elf

  abbrev pub manifest_of : List ℕ → List ℕ → List ℕ → BootScenario → List ℕ → List ℕ → ImageManifest
  manifest_of image loader kernel s disk_guid esp_guid = record {
    schema_version = 1;
    image_bytes = 67_108_864;
    image_sha256 = crates.sha256_hex image;
    loader_sha256 = crates.sha256_hex loader;
    kernel_sha256 = crates.sha256_hex kernel;
    scenario = s;
    esp_first_lba = 2_048;
    esp_last_lba = 129_023;
    disk_guid = crates.uuid_text disk_guid;
    esp_guid = crates.uuid_text esp_guid;
  }

  -- A boot image with its manifest.
  pub record IsImage (image : List ℕ) (m : ImageManifest) : Type 0 where
    pub size : length image ≡ 67_108_864
    pub layout : IsGptLayout image
    pub disk_guid : List ℕ
    pub esp_guid : List ℕ
    pub disk_uuid : crates.parse_uuid disk_guid_text ≡ some disk_guid
    pub esp_uuid : crates.parse_uuid esp_guid_text ≡ some esp_guid
    pub has_esp : HasEsp crates image disk_guid esp_guid
    pub fat32 : IsFatVolume (esp_of image)
    pub volume : Volume
    pub mounted : IsMounted crates (esp_of image) volume
    pub loader : List ℕ
    pub kernel : List ℕ
    pub scenario : BootScenario
    pub files : HasFiles volume loader kernel scenario
    pub manifest : m ≡ manifest_of image loader kernel scenario disk_guid esp_guid

  pub kernel_iff :
      (kernel : List ℕ)
      → (validate_kernel_elf kernel ≡ ok tt) ↔ ((v : ValidatedElf) × (Parse.parse kernel ≡ ok v))
  unfolding validate_kernel_elf
  kernel_iff kernel = (
    λ e.
        let (v, parsed, e1) = >>=-eq-ok (map_err Types.kernel_rejected (Parse.parse kernel)) _ e in
        (v, map_err_ok _ _ parsed),
    λ h. rw h.1,
  )

  moved_files :
      (volume : Volume) {l k l' k' : List ℕ} {s s' : BootScenario}
      → l ≡ l'
      → k ≡ k'
      → s ≡ s'
      → HasFiles volume l k s
      → HasFiles volume l' k' s'
  moved_files volume {l} {k} {l'} {k'} {s} {s'} same_l same_k same_s h =
      subst (λ x. HasFiles volume l' k' x) same_s
        (subst (λ x. HasFiles volume l' x s) same_k (subst (λ x. HasFiles volume x k s) same_l h))

  manifest_injective :
      {image loader kernel d g : List ℕ} {s : BootScenario} {m : ImageManifest}
      → length image ≡ 67_108_864
      → ◌≡◌ {A = Result ImageError ImageManifest}
          (ok (record (manifest_of image loader kernel s d g) { image_bytes = length image }))
          (ok m)
      → m ≡ manifest_of image loader kernel s d g
  manifest_injective size e = ground (arith, size, e)

  HasFiles-payloads :
      (volume : Volume) (loader kernel : List ℕ) (s : BootScenario)
      → HasFiles volume loader kernel s
      → read_payloads crates volume ≡ ok (loader, kernel, s)
  unfolding read_payloads
  HasFiles-payloads volume loader kernel s h = rw (
    (validate_tree_iff volume).1 h.tree,
    h.loader_read,
    h.kernel_read,
    h.scenario_read,
    h.loader_valid,
    (kernel_iff kernel).1 (h.kernel_elf, h.kernel_valid),
    (scenario_file_iff (scenario_file s) s).0.1 refl,
  )

  payloads-HasFiles :
      (volume : Volume) (loader kernel : List ℕ) (s : BootScenario)
      → read_payloads crates volume ≡ ok (loader, kernel, s)
      → HasFiles volume loader kernel s
  unfolding read_payloads
  payloads-HasFiles volume loader kernel s e =
      let (u0, tree, e1) = >>=-eq-ok (validate_tree volume) _ e in
      let (l, loader_read, e2) =
        >>=-eq-ok (read_path crates volume Types.loader_image_path 25_165_824) _ e1 in
      let (k, kernel_read, e3) =
        >>=-eq-ok (read_path crates volume Types.kernel_image_path 16_777_216) _ e2 in
      let (f, file_read, e4) =
        >>=-eq-ok (read_path crates volume Types.scenario_image_path 32) _ e3 in
      let (u1, loader_valid, e5) = >>=-eq-ok (validate_uefi_loader l) _ e4 in
      let (u2, kernel_valid, e6) = >>=-eq-ok (validate_kernel_elf k) _ e5 in
      let (s', parsed, e7) = >>=-eq-ok (parse_scenario f) _ e6 in
      let (same_l, same_k, same_s) = payloads_injective e7 in
      let (elf, elf_parsed) = (kernel_iff k).0 kernel_valid in
      let is_file = (scenario_file_iff f s').0.0 parsed in
      moved_files volume same_l same_k same_s (record {
        tree = (validate_tree_iff volume).0 tree;
        loader_read = loader_read;
        kernel_read = kernel_read;
        scenario_read = file_read ∙ ap ok is_file;
        loader_valid = loader_valid;
        kernel_elf = elf;
        kernel_valid = elf_parsed;
      })

  IsImage-validated :
      (image : List ℕ) (m : ImageManifest)
      → IsImage image m
      → validate_image_bytes crates image ≡ ok m
  unfolding validate_image_bytes lba_to_offset
  IsImage-validated image m h = rw (
    h.size,
    (raw_gpt_layout_iff image h.size).1 h.layout,
    h.disk_uuid,
    h.esp_uuid,
    HasEsp-gpt crates image h.disk_guid h.esp_guid h.has_esp,
    slice-eq-some image 1_048_576 66_060_288 (omega arith) (omega (arith, h.size)),
    (raw_fat32_layout_iff (esp_of image) (length-esp_of image h.size)).1 h.fat32,
    (mount_iff crates (esp_of image) h.volume).1 h.mounted,
    HasFiles-payloads h.volume h.loader h.kernel h.scenario h.files,
    h.manifest,
  )

  validated-IsImage :
      (image : List ℕ) (m : ImageManifest)
      → validate_image_bytes crates image ≡ ok m
      → IsImage image m
  unfolding validate_image_bytes lba_to_offset
  validated-IsImage image m e =
      let (u0, sized, e1) = >>=-eq-ok (ensure (length image == 67_108_864) Types.image_size) _ e in
      let size : length image ≡ 67_108_864 = ground arith in
      let (u1, laid_out, e2) = >>=-eq-ok (validate_raw_gpt_layout image) _ e1 in
      let (d, disk_uuid, e3) =
        >>=-eq-ok (ok_or (crates.parse_uuid disk_guid_text) Types.bad_uuid) _ e2 in
      let (g, esp_uuid, e4) =
        >>=-eq-ok (ok_or (crates.parse_uuid esp_guid_text) Types.bad_uuid) _ e3 in
      let (u2, gpt, e5) = >>=-eq-ok (validate_gpt crates image d g) _ e4 in
      let (esp, cut_out, e6) = >>=-eq-ok (or_panic (slice image 1_048_576 66_060_288)) _ e5 in
      let whole = slice-eq-some image 1_048_576 66_060_288 (omega arith) (omega (arith, size)) in
      let is_esp : esp ≡ esp_of image = ground (arith, cut_out, whole) in
      let (u3, fat32, e7) = >>=-eq-ok (validate_raw_fat32_layout esp) _ e6 in
      let (volume, mounted, e8) = >>=-eq-ok (mount crates esp) _ e7 in
      let ((loader, kernel, s), payloads, e9) = >>=-eq-ok (read_payloads crates volume) _ e8 in
      record {
        size = size;
        layout = (raw_gpt_layout_iff image size).0 laid_out;
        disk_guid = d;
        esp_guid = g;
        disk_uuid = ground (arith, disk_uuid);
        esp_uuid = ground (arith, esp_uuid);
        has_esp = gpt-HasEsp crates image d g gpt;
        fat32 =
            (raw_fat32_layout_iff (esp_of image) (length-esp_of image size)).0
              (ap validate_raw_fat32_layout (sym is_esp) ∙ fat32);
        volume = volume;
        mounted =
            (mount_iff crates (esp_of image) volume).0 (ap (mount crates) (sym is_esp) ∙ mounted);
        loader = loader;
        kernel = kernel;
        scenario = s;
        files = payloads-HasFiles volume loader kernel s payloads;
        manifest = manifest_injective size e9;
      }

  -- With any functions for the crates that it calls, `validate_image_bytes` accepts a list of bytes and
  -- returns a manifest just where: there are 64 MiB; the raw GPT layout is as `IsGptLayout` says; the
  -- crate opens one partition, the system partition at its place with the fixed identifiers; that
  -- partition is laid out as `IsFatVolume` says and mounts with the fixed label and volume number; its
  -- directories are those of `IsTree`, and its files a UEFI loader of at most 24 MiB, a kernel that the
  -- ELF parser accepts, and the file of a scenario; and the manifest says this, with the digests of the
  -- image, the loader and the kernel.
  pub validated_manifest_iff :
      (image : List ℕ) (m : ImageManifest)
      → (validate_image_bytes crates image ≡ ok m) ↔ IsImage image m
  validated_manifest_iff image m = (validated-IsImage image m, IsImage-validated image m)
