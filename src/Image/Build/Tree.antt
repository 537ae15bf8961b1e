-- ===== src/Image/Build/Tree.antt =====
-- crates/xtask/src/image.rs: the directories of a system partition, of `validate_image_bytes`.
use polytope_os.Base.{ℕ, ◌≡◌, ◌↔◌, arith, List, [], ◌∷◌, Bool, true, false}
use polytope_os.Base.{Option, some, ok, ok_or, ok_or-eq-ok, >>=-eq-ok}
use polytope_os.Harness.Text.{codes}
use polytope_os.Image.Types
use polytope_os.Image.Directory.{DirEntry, validate_directory}
use polytope_os.Image.Directory.Correct.{IsDirectory, validate_directory_iff}
use polytope_os.Image.Build.{Volume, validate_tree}

-- The names in a directory, and which are directories.
abbrev root_entries : List (List ℕ × Bool)
root_entries = (codes "EFI", true) ∷ (codes "POLYTOPE", true) ∷ []

abbrev efi_entries : List (List ℕ × Bool)
efi_entries = (codes "BOOT", true) ∷ []

abbrev boot_entries : List (List ℕ × Bool)
boot_entries = (codes "BOOTX64.EFI", false) ∷ []

abbrev polytope_entries : List (List ℕ × Bool)
polytope_entries = (codes "KERNEL.ELF", false) ∷ (codes "BOOT.CFG", false) ∷ []

-- The directories of a boot volume: EFI and POLYTOPE in the root, BOOT in EFI, the loader in that, and
-- the kernel and the scenario in POLYTOPE.
pub record IsTree (volume : Volume) : Type 0 where
  pub root : List (Option DirEntry)
  pub efi : List (Option DirEntry)
  pub boot : List (Option DirEntry)
  pub polytope : List (Option DirEntry)
  pub root_opened : volume.directory [] ≡ some root
  pub efi_opened : volume.directory (codes "EFI") ≡ some efi
  pub boot_opened : volume.directory (codes "EFI/BOOT") ≡ some boot
  pub polytope_opened : volume.directory (codes "POLYTOPE") ≡ some polytope
  pub in_root : IsDirectory root root_entries
  pub in_efi : IsDirectory efi efi_entries
  pub in_boot : IsDirectory boot boot_entries
  pub in_polytope : IsDirectory polytope polytope_entries

validated-IsTree : (volume : Volume) → validate_tree volume ≡ ok tt → IsTree volume
unfolding validate_tree
validated-IsTree volume e =
    let (root, root_opened, e1) =
      >>=-eq-ok (ok_or (volume.directory []) Types.directory_missing) _ e in
    let (u0, in_root, e2) = >>=-eq-ok (validate_directory root root_entries) _ e1 in
    let (efi, efi_opened, e3) =
      >>=-eq-ok (ok_or (volume.directory (codes "EFI")) Types.directory_missing) _ e2 in
    let (u1, in_efi, e4) = >>=-eq-ok (validate_directory efi efi_entries) _ e3 in
    let (boot, boot_opened, e5) =
      >>=-eq-ok (ok_or (volume.directory (codes "EFI/BOOT")) Types.directory_missing) _ e4 in
    let (u2, in_boot, e6) = >>=-eq-ok (validate_directory boot boot_entries) _ e5 in
    let (polytope, polytope_opened, in_polytope) =
      >>=-eq-ok (ok_or (volume.directory (codes "POLYTOPE")) Types.directory_missing) _ e6 in
    record {
      root = root;
      efi = efi;
      boot = boot;
      polytope = polytope;
      root_opened = ok_or-eq-ok (volume.directory []) Types.directory_missing root_opened;
      efi_opened = ok_or-eq-ok (volume.directory (codes "EFI")) Types.directory_missing efi_opened;
      boot_opened =
          ok_or-eq-ok (volume.directory (codes "EFI/BOOT")) Types.directory_missing boot_opened;
      polytope_opened =
          ok_or-eq-ok (volume.directory (codes "POLYTOPE")) Types.directory_missing polytope_opened;
      in_root = (validate_directory_iff root_entries (omega arith) root).0 in_root;
      in_efi = (validate_directory_iff efi_entries (omega arith) efi).0 in_efi;
      in_boot = (validate_directory_iff boot_entries (omega arith) boot).0 in_boot;
      in_polytope = (validate_directory_iff polytope_entries (omega arith) polytope).0 in_polytope;
    }

IsTree-validated : (volume : Volume) → IsTree volume → validate_tree volume ≡ ok tt
unfolding validate_tree
IsTree-validated volume t = rw (
  t.root_opened,
  (validate_directory_iff root_entries (omega arith) t.root).1 t.in_root,
  t.efi_opened,
  (validate_directory_iff efi_entries (omega arith) t.efi).1 t.in_efi,
  t.boot_opened,
  (validate_directory_iff boot_entries (omega arith) t.boot).1 t.in_boot,
  t.polytope_opened,
  (validate_directory_iff polytope_entries (omega arith) t.polytope).1 t.in_polytope,
)

-- `validate_image_bytes` finds the directories of a mounted volume right just where the root, EFI,
-- EFI/BOOT and POLYTOPE open and each shows, apart from the entries of the directory itself and of its
-- parent, just the expected entries in their order, each a file or a directory as expected and with the
-- fixed times, and with two more entries at most.
pub validate_tree_iff : (volume : Volume) → (validate_tree volume ≡ ok tt) ↔ IsTree volume
validate_tree_iff volume = (validated-IsTree volume, IsTree-validated volume)
